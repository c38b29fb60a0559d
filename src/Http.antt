-- ===== src/Http.antt =====
-- The HTTP server: src/app.ts, src/routes, src/middlewares and src/controllers. Express and zod are
-- parameters: what they hand to the code is a value of `Incoming`, and what zod parses is a `Dto`.
pub mod Exchange
pub mod Requests
pub mod Middlewares
pub mod Conversations
pub mod Accounts
pub mod Files
pub mod Routes
pub mod Serving
pub mod Guarded
pub mod Refused
