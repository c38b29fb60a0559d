-- ===== src/Websocket.antt =====
-- src/websocket: the managers of the connections and of the group invitations, what is sent when a
-- group event is emitted, the handlers of the messages of a client, and the server.
pub mod Sets
pub mod Connections
pub mod Listeners
pub mod Invitations
pub mod Handlers
pub mod Sync
pub mod Server
