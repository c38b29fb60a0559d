-- ===== src/Repositories.antt =====
-- src/repositories: the queries of each table, as actions on the store.
pub mod Members
pub mod Conversations
pub mod Listing
pub mod Events
pub mod Invitations
pub mod Sessions
pub mod Deliveries
pub mod Messages
pub mod Uploads
pub mod Users
pub mod Subscriptions
unfoldable pub use Members.*
unfoldable pub use Conversations.*
unfoldable pub use Listing.*
unfoldable pub use Events.*
unfoldable pub use Invitations.*
unfoldable pub use Sessions.*
unfoldable pub use Deliveries.*
unfoldable pub use Messages.*
unfoldable pub use Uploads.*
unfoldable pub use Users.*
unfoldable pub use Subscriptions.*
