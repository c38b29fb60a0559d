-- ===== src/Entities.antt =====
-- The rows of the tables declared in src/entities. A nullable column is an `Option`; the relation
-- properties (`members`, `user`, …) are the rows of the other table that name this one's id.
use messinger_backend.Prelude.{ℕ, Bool, Option, String}
use messinger_backend.Types.{
  Uuid, Date, MessageStatus, ConversationRole, ConversationType, ConversationEventType,
  GroupInvitationStatus, UserRole, UserStatus, SessionRevokeReason, PushPlatform, PushProvider,
}

pub record Conversation : Type 0 where
  pub id : Uuid
  pub private_key : Option ℕ
  pub name : Option String
  pub type : ConversationType
  pub last_message_id : Option Uuid
  pub created_at : Date
  pub updated_at : Date

pub record ConversationMember : Type 0 where
  pub conversation_id : Uuid
  pub user_id : Uuid
  pub role : ConversationRole
  pub soft_deleted_at : Option Date
  pub restored_at : Option Date
  pub unread_count : ℕ
  pub created_at : Date

pub record ConversationEvent : Type 0 where
  pub id : Uuid
  pub conversation_id : Uuid
  pub actor_id : Uuid
  pub target_user_id : Option Uuid
  pub type : ConversationEventType
  pub created_at : Date

pub record GroupInvitation : Type 0 where
  pub id : Uuid
  pub conversation_id : Uuid
  pub actor_id : Uuid
  pub target_id : Uuid
  pub status : GroupInvitationStatus
  pub expires_at : Date
  pub created_at : Date
  pub updated_at : Date

pub record User : Type 0 where
  pub id : Uuid
  pub username : Option String
  pub login_key_hash : Option ℕ
  pub login_key_lookup : Option ℕ
  pub user_code : Option String
  pub avatar_url : Option String
  pub role : UserRole
  pub status : UserStatus
  pub admin_name : Option String
  pub password_hash : Option ℕ
  pub last_seen_at : Option Date
  pub created_at : Date
  pub updated_at : Date
  pub deleted_at : Option Date

-- A digest or a token is a number: the code only compares and stores them.
pub record Session : Type 0 where
  pub id : Uuid
  pub user_id : Uuid
  pub refresh_token_hash : ℕ
  pub ip_address : Option String
  pub user_agent : Option String
  pub is_revoked : Bool
  pub revoked_reason : Option SessionRevokeReason
  pub expires_at : Date
  pub previous_refresh_token_hash : Option ℕ
  pub rotated_at : Option Date
  pub rotated_access_token : Option ℕ
  pub rotated_refresh_token : Option ℕ
  pub created_at : Date

pub record Message : Type 0 where
  pub id : Uuid
  pub conversation_id : Uuid
  pub sender_id : Option Uuid
  pub ciphered_content : String
  pub iv : String
  pub auth_tag : String
  pub created_at : Date

pub record MessageAttachment : Type 0 where
  pub id : Uuid
  pub message_id : Uuid
  pub storage_key : ℕ
  pub file_name : String
  pub content_type : String
  pub size : ℕ
  pub created_at : Date

pub record PendingUpload : Type 0 where
  pub id : Uuid
  pub user_id : Uuid
  pub storage_key : ℕ
  pub file_name : String
  pub content_type : String
  pub size : ℕ
  pub expires_at : Date
  pub created_at : Date

pub record MessageDelivery : Type 0 where
  pub id : Uuid
  pub message_id : Uuid
  pub user_id : Uuid
  pub status : MessageStatus
  pub delivered_at : Option Date
  pub read_at : Option Date
  pub created_at : Date
  pub updated_at : Date

-- An endpoint is a number: the code only compares it and hands it on.
pub record PushSubscription : Type 0 where
  pub id : Uuid
  pub user_id : Uuid
  pub platform : PushPlatform
  pub provider : PushProvider
  pub endpoint : Option ℕ
  pub p256dh : Option String
  pub auth : Option String
  pub token : Option String
  pub created_at : Date
  pub updated_at : Date
