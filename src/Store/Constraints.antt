-- ===== src/Store/Constraints.antt =====
-- The constraints that src/entities declares on new rows: primary keys, unique columns and the
-- foreign keys of the tables that the modelled services insert into.
use messinger_backend.Prelude.{
  Bool, false, not, ◌&&◌, ◌||◌, List, any, ◌==◌, option_eq, option_same_text, is_some, Option, ℕ,
  String, none, some, true,
}
use messinger_backend.Types.{Uuid}
use messinger_backend.Entities.{
  Conversation, ConversationMember, ConversationEvent, GroupInvitation, User, Session, Message,
  MessageDelivery, MessageAttachment, PendingUpload, PushSubscription,
}

-- The row with the given primary key is there.
abbrev pub conversation_exists : List Conversation → Uuid → Bool
conversation_exists rows id = any (λ c. c.id == id) rows

abbrev pub user_exists : List User → Uuid → Bool
user_exists rows id = any (λ u. u.id == id) rows

abbrev pub sender_exists : List User → Option Uuid → Bool
sender_exists rows none = true
sender_exists rows (some id) = user_exists rows id

-- `conversation_id` and `user_id` together are the primary key.
abbrev pub same_member : Uuid → Uuid → ConversationMember → Bool
same_member conversation_id user_id m = m.conversation_id == conversation_id && m.user_id == user_id

-- `private_key` is unique, and null never clashes.
abbrev pub admits_conversation : List Conversation → Conversation → Bool
admits_conversation rows c =
    not (conversation_exists rows c.id)
    && not (any (λ d. is_some c.private_key && option_eq d.private_key c.private_key) rows)

abbrev pub admits_member :
    List Conversation → List User → List ConversationMember → ConversationMember → Bool
admits_member conversations users rows m =
    conversation_exists conversations m.conversation_id
    && user_exists users m.user_id
    && not (any (same_member m.conversation_id m.user_id) rows)

abbrev pub admits_event : List Conversation → List ConversationEvent → ConversationEvent → Bool
admits_event conversations rows e =
    conversation_exists conversations e.conversation_id && not (any (λ f. f.id == e.id) rows)

abbrev pub admits_invitation :
    List Conversation → List User → List GroupInvitation → GroupInvitation → Bool
admits_invitation conversations users rows i =
    conversation_exists conversations i.conversation_id
    && user_exists users i.actor_id
    && user_exists users i.target_id
    && not (any (λ j. j.id == i.id) rows)

abbrev pub message_exists : List Message → Uuid → Bool
message_exists rows id = any (λ m. m.id == id) rows

abbrev pub admits_message : List Conversation → List User → List Message → Message → Bool
admits_message conversations users rows m =
    conversation_exists conversations m.conversation_id
    && sender_exists users m.sender_id
    && not (message_exists rows m.id)

-- The column `user_id` refers to no other table.
abbrev pub admits_delivery : List Message → List MessageDelivery → MessageDelivery → Bool
admits_delivery messages rows d =
    message_exists messages d.message_id && not (any (λ e. e.id == d.id) rows)

abbrev pub admits_attachment : List Message → List MessageAttachment → MessageAttachment → Bool
admits_attachment messages rows a =
    message_exists messages a.message_id && not (any (λ b. b.id == a.id) rows)

-- `storage_key` is unique.
abbrev pub admits_upload : List User → List PendingUpload → PendingUpload → Bool
admits_upload users rows u =
    user_exists users u.user_id
    && not (any (λ v. v.id == u.id || v.storage_key == u.storage_key) rows)

-- `login_key_lookup` and `user_code` are unique, and null never clashes.
abbrev pub same_login_key : Option ℕ → User → Bool
same_login_key none u = false
same_login_key (some key) u = option_eq u.login_key_lookup (some key)

abbrev pub same_user_code : Option String → User → Bool
same_user_code none u = false
same_user_code (some code) u = option_same_text u.user_code (some code)

abbrev pub admits_user : List User → User → Bool
admits_user rows u =
    not (user_exists rows u.id)
    && not (any (same_login_key u.login_key_lookup) rows)
    && not (any (same_user_code u.user_code) rows)

-- `refresh_token_hash` is unique.
abbrev pub admits_session : List User → List Session → Session → Bool
admits_session users rows t =
    user_exists users t.user_id
    && not (any (λ u. u.id == t.id || u.refresh_token_hash == t.refresh_token_hash) rows)

-- The entity declares no constraint on the endpoint.
abbrev pub admits_subscription : List User → List PushSubscription → PushSubscription → Bool
admits_subscription users rows p = user_exists users p.user_id && not (any (λ q. q.id == p.id) rows)
