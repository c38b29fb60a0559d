-- ===== src/Types.antt =====
-- The enums of src/types/conversation.ts, src/types/user.ts and src/types/push-subscription.ts, and
-- the tests by which the code compares their values.
use messinger_backend.Prelude.{Bool, true, false, ℕ}

-- A UUID. The code only compares them, and sorts them as texts; a number stands for each.
abbrev pub Uuid : Type 0
Uuid = ℕ

-- A `Date`, in milliseconds.
abbrev pub Date : Type 0
Date = ℕ

pub data MessageStatus : Type 0 where
  sent delivered read : MessageStatus

pub data ConversationRole : Type 0 where
  owner member : ConversationRole

pub data ConversationType : Type 0 where
  private group : ConversationType

pub data ConversationEventType : Type 0 where
  group_created group_deleted member_invited member_joined member_left member_removed
        ownership_transferred :
      ConversationEventType

pub data GroupInvitationStatus : Type 0 where
  pending accepted rejected expired : GroupInvitationStatus

pub data UserRole : Type 0 where
  user admin super_admin : UserRole

pub data UserStatus : Type 0 where
  active suspended : UserStatus

pub data PushPlatform : Type 0 where
  web android ios : PushPlatform

pub data PushProvider : Type 0 where
  web_push fcm apns : PushProvider

pub data SessionRevokeReason : Type 0 where
  logout security timeout suspicious expired invalid : SessionRevokeReason

-- `role === ConversationRole.OWNER`
abbrev pub is_owner : ConversationRole → Bool
is_owner owner = true
is_owner member = false

-- `type === ConversationType.GROUP`
abbrev pub is_group : ConversationType → Bool
is_group group = true
is_group private = false

-- `===` on user roles.
abbrev pub same_role : UserRole → UserRole → Bool
same_role user user = true
same_role admin admin = true
same_role super_admin super_admin = true
same_role _ _ = false
