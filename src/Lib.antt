-- ===== src/Lib.antt =====
-- messinger-backend: the server of a chat application. This library models its core and proves
-- what the parts promise.
--
-- The program. The services (src/services) answer the controllers and the WebSocket handlers; they
-- read and write the tables through the repositories (src/repositories), in transactions, and give
-- events to an emitter. The middlewares (src/middlewares) decide who may call. The managers
-- (src/websocket/managers) keep in memory which sockets belong to which user.
--
-- The files.
--   Prelude, with children: lists, tests on numbers, association lists, tests on rows, sorting by
--     one number (Sort) and by two (Latest), tables with keys, the first rows of a list.
--   Types, Entities, Exceptions: the enums of src/types, the rows of src/entities, the exceptions.
--   Orm: TypeORM and the database, a parameter with its documented behaviour as the hypothesis
--     `IsOrm`. Which of several matching rows is found, what a date is read as, and the generated ids
--     are left open.
--   Packages, Tokens, Cipher, R2: the other packages (digests, dates, JSON web tokens, bcrypt, the
--     cipher of the messages, the client of the bucket), as parameters.
--   Store, Store/Constraints: the tables, the bucket, the clock, the emitted events and the pushed
--     notifications; an async method is an action on them that returns a value or an exception, and a
--     transaction gives back the old tables on an exception, but not the bucket. The
--     constraints are those declared in src/entities.
--   Repositories, with children: one file for each of conversation-member, conversation,
--     conversation-event, group-invitation, session, message-delivery, message and
--     user.repository.ts; Listing is `getConversationList` of conversation.repository.ts, Uploads is
--     pending-upload and message-attachment.repository.ts, Subscriptions is
--     push-subscription.repository.ts.
--   Conversation, with children: src/services/conversation.service.ts. Private, Invitation,
--     Group and Listing hold the operations under the names of the source in snake case, Calls the
--     histories of calls; Effects says how each operation changes the tables, and Ownership, Permissions,
--     Refusals, Joining, Deletion, Reopening, Listing/Pages and Listing/Loaded hold the theorems.
--   Auth, with children: Service is src/services/auth.service.ts (`logout` is `sign_out`),
--     Accounts its signup and the accounts of user.service.ts and admin.service.ts, Middleware and
--     Authorization are src/middlewares/auth.ts and authorization.ts; Rotation, Revocation, Access,
--     Ending and Signup hold the theorems.
--   Storage, with children: src/services/storage.service.ts; Slices holds lemmas on lists of keys,
--     Batches the theorems.
--   Messages, with children: src/services/message.service.ts. Sending is what a message is sent by,
--     History what it is read by, Delivery the confirmation; Parts, Attachments, Stored, Receivers,
--     RoundTrip, Atomic, Paging and Confirmation hold the lemmas and the theorems.
--   Jobs, with a child: src/jobs/delete-messages.job.ts; Cleanup holds the theorems.
--   Administration, with a child: the deletions and the listings of a user's conversations and
--     messages of src/services/admin.service.ts; Removal holds the theorem.
--   Push, with children: src/services/push-subscription.service.ts, push-notification.service.ts and
--     web-push.service.ts; Sending and Subscribing hold the theorems.
--   Http, with children: Exchange says what a request, an answer and a dto are, Requests is
--     src/utils/auth.ts, Middlewares the chain of src/middlewares, Conversations, Accounts and Files are
--     src/controllers, Routes is src/routes/v1/index.ts, Serving how a request goes through a route,
--     with src/logging/errors/error-handler.ts; Guarded and Refused hold the theorems. zod
--     and express are parameters.
--   Pagination: src/utils/pagination.ts.
--   Websocket, with children: Connections and Invitations are the two managers, and the close
--     handler of src/websocket/websocket-server.ts; Listeners is src/events/group-listeners.ts;
--     Handlers is the dispatcher and src/websocket/handlers, Sync is
--     src/services/offline-sync.service.ts and presence-handler.ts; Sets, Connections/Invariant,
--     Connections/Presence, Listeners/Audience, Handlers/Guarded, Handlers/Notified and
--     Sync/Delivered hold the theorems. Server is the rest of
--     src/websocket/websocket-server.ts, with the theorem in Server/Authentication.
--   Tests, with children: a small database and the theorems at work on it.
--
-- Bounds. A UUID, a digest, a token and the key of a file are numbers, and so is a time. The
-- database has times of microseconds and a `Date` has milliseconds: `read_date` is what the
-- driver makes of the one. It is applied to the row of a cursor, whose date is compared with a
-- column, and to a listed conversation; elsewhere a date is used as it is stored. The loop over
-- batches in Storage takes the number of the keys as its fuel, which is enough since each round
-- takes a key at least. A client that follows the cursors of the listing makes as many requests
-- as its fuel at most, and one more than there are conversations is enough, since each page has
-- one at least. Every other recursion is on a list.
--
-- An operation runs alone between two calls: two overlapping requests are not modelled, and a
-- transaction with a row lock is atomic. The clock stands still during an operation, and the server
-- and the database have the same. A connection is signed in as one user, in the theorems on which
-- connections hear of something; the program admits a second user on the same connection.
--
-- A push that the handler of private messages starts without waiting for it runs to its end there.
--
-- Not modelled: the authentication of a socket by a cookie, timeouts, the rules of the schemas
-- on texts, the order of the global packages of express, the texts of the answers, the random
-- texts of keys and codes (what a request draws is a part of it), configuration, logging and the
-- text of the migrations.
pub mod Prelude
pub mod Types
pub mod Exceptions
pub mod Entities
pub mod Orm
pub mod Store
pub mod Repositories
pub mod Packages
pub mod Conversation
pub mod Tokens
pub mod Auth
pub mod Pagination
pub mod Cipher
pub mod R2
pub mod Storage
pub mod Messages
pub mod Jobs
pub mod Administration
pub mod Push
pub mod Http
pub mod Websocket
pub mod Tests
