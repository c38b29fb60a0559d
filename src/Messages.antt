-- ===== src/Messages.antt =====
-- src/services/message.service.ts: `Sending` and `History` hold what a message is sent and read by,
-- `Delivery` the confirmation of a delivery, and the others what is proved of them.
pub mod Sending
pub mod Parts
pub mod Attachments
pub mod Stored
pub mod Receivers
pub mod RoundTrip
pub mod Atomic
pub mod History
pub mod Paging
pub mod Delivery
pub mod Confirmation
