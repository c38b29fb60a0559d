-- ===== src/Tests/Data.antt =====
-- A small database: the group 1 of the users 10 and 11, to which 12 is invited, and the private
-- conversation 2 of the users 10 and 11. The user 10 has two sessions, of which one is revoked.
use messinger_backend.Prelude.{
  ℕ, ◌+◌, ◌-◌, Bool, true, false, none, some, [], ◌∷◌, ◌==◌, if◌then◌else◌,
}
use messinger_backend.Types.{
  Uuid, Date, owner, member, group, private, pending, user, active, ConversationRole,
  ConversationType,
}
use messinger_backend.Entities.{Conversation, ConversationMember, GroupInvitation, User, Session}
use messinger_backend.Store.{Store}
use messinger_backend.Tokens.{
  Tokens, Claims, Secret, Verdict, jwt_secret, jwt_refresh_secret, verified, token_expired,
  token_invalid,
}
use messinger_backend.Conversation.Calls.{empty}

abbrev pub user_row : Uuid → User
user_row id = record {
  id = id;
  username = none;
  login_key_hash = some 77;
  login_key_lookup = some (id + 100);
  user_code = none;
  avatar_url = none;
  role = user;
  status = active;
  admin_name = none;
  password_hash = none;
  last_seen_at = none;
  created_at = 0;
  updated_at = 0;
  deleted_at = none;
}

abbrev pub conversation_row : Uuid → ConversationType → Conversation
conversation_row id type = record {
  id = id;
  private_key = none;
  name = none;
  type = type;
  last_message_id = none;
  created_at = 0;
  updated_at = 0;
}

abbrev pub member_row : Uuid → Uuid → ConversationRole → ConversationMember
member_row conversation_id user_id role = record {
  conversation_id = conversation_id;
  user_id = user_id;
  role = role;
  soft_deleted_at = none;
  restored_at = none;
  unread_count = 0;
  created_at = 0;
}

abbrev pub invitation_row : GroupInvitation
invitation_row = record {
  id = 50;
  conversation_id = 1;
  actor_id = 10;
  target_id = 12;
  status = pending;
  expires_at = 100;
  created_at = 0;
  updated_at = 0;
}

abbrev pub session_row : Uuid → ℕ → Bool → Session
session_row id hash is_revoked = record {
  id = id;
  user_id = 10;
  refresh_token_hash = hash;
  ip_address = none;
  user_agent = none;
  is_revoked = is_revoked;
  revoked_reason = none;
  expires_at = 1000000;
  previous_refresh_token_hash = none;
  rotated_at = none;
  rotated_access_token = none;
  rotated_refresh_token = none;
  created_at = 0;
}

abbrev pub store : Store
store = record empty {
  conversations = conversation_row 1 group ∷ conversation_row 2 private ∷ [];
  members =
      member_row 1 10 owner
      ∷ member_row 1 11 member
      ∷ member_row 2 10 member
      ∷ member_row 2 11 member
      ∷ [];
  invitations = invitation_row ∷ [];
  users = user_row 10 ∷ user_row 11 ∷ user_row 12 ∷ [];
  sessions = session_row 60 7 false ∷ session_row 61 8 true ∷ [];
  clock = 50;
  serial = 500;
}

abbrev pub claims : Claims
claims = record { sub = 10; roles = user ∷ []; sid = 60 }

-- The token 5 has expired, the token 6 is forged; the digest of a token is the token.
abbrev plain_verify : Secret → ℕ → Date → Verdict
plain_verify secret token now =
    if token == 5 then token_expired else if token == 6 then token_invalid else verified claims

abbrev plain_sign : Secret → Claims → Date → ℕ
plain_sign jwt_secret c now = 1000 + now
plain_sign jwt_refresh_secret c now = 2000 + now

abbrev pub plain_tokens : Tokens
plain_tokens = record {
  sign = plain_sign;
  verify = plain_verify;
  sha256 = λ token. token;
  add_refresh_expiry = λ d. d + 604800000;
  difference_in_milliseconds = λ a b. a - b;
  login_key_lookup = λ key. 110;
  bcrypt_hash = λ key. 77;
  bcrypt_compare = λ key hash. hash == 77;
}
