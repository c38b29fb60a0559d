-- ===== src/Conversation.antt =====
-- src/services/conversation.service.ts: the operations are in the
-- children `Private`, `Invitation`, `Group` and `Listing`, and what is proved of them in the others.
pub mod Private
pub mod Invitation
pub mod Group
pub mod Listing
pub mod Refusals
pub mod Reopening
pub mod Permissions
pub mod Calls
pub mod Joining
pub mod Deletion
pub mod Effects
pub mod Ownership
