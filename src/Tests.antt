-- ===== src/Tests.antt =====
-- Concrete inputs, and the theorems at work on them.
mod Data
mod Conversations
mod Sessions
mod Messages
mod Websockets
mod Storage
mod Handlers
mod Listing
mod Http
