-- ===== src/Conversation/Ownership.antt =====
-- Who owns a group: the invariant of the tables of conversations and members, and that each change
-- of `Conversation/Effects.antt` keeps it.
pub mod Keys
pub mod Changes
pub mod HandOver
pub mod Founding
pub mod Histories
use messinger_backend.Prelude.{
  ◌≡◌, ◌⊎◌, Bool, true, false, not, ◌&&◌, List, ◌==◌, if◌then◌else◌, any, is_some,
}
use messinger_backend.Prelude.Rows.{all}
use messinger_backend.Types.{Uuid, is_owner, is_group}
use messinger_backend.Entities.{Conversation, ConversationMember}
use messinger_backend.Store.Constraints.{same_member, conversation_exists}
use Keys.{is_keyed}

abbrev pub in_conversation : Uuid → ConversationMember → Bool
in_conversation c m = m.conversation_id == c

abbrev pub owner_in : Uuid → ConversationMember → Bool
owner_in c m = m.conversation_id == c && is_owner m.role

abbrev pub group_row : Uuid → Conversation → Bool
group_row c d = d.id == c && is_group d.type

abbrev pub private_row : Uuid → Conversation → Bool
private_row c d = d.id == c && not (is_group d.type)

-- In the conversation the row of `u`, and no other, is an owner's, and it is not deleted.
abbrev pub fits_owner : Uuid → Uuid → ConversationMember → Bool
fits_owner c u m =
    if m.conversation_id == c
    then (if m.user_id == u
        then is_owner m.role && not (is_some m.soft_deleted_at)
        else not (is_owner m.role))
    else true

abbrev pub IsAbsent : Uuid → List Conversation → List ConversationMember → Type 0
IsAbsent c conversations members =
    (conversation_exists conversations c ≡ false) × (any (in_conversation c) members ≡ false)

abbrev pub IsPrivate : Uuid → List Conversation → List ConversationMember → Type 0
IsPrivate c conversations members =
    (conversation_exists conversations c ≡ true)
    × (any (group_row c) conversations ≡ false)
    × (any (owner_in c) members ≡ false)

-- A group whose one owner is `u`, an active member.
abbrev pub IsOwnedBy : Uuid → Uuid → List Conversation → List ConversationMember → Type 0
IsOwnedBy c u conversations members =
    (conversation_exists conversations c ≡ true)
    × (any (private_row c) conversations ≡ false)
    × (all (fits_owner c u) members ≡ true)
    × (any (same_member c u) members ≡ true)

-- The conversation is unknown and has no members, or is private and has no owner, or is a group
-- with exactly one owner, who is active; and no two rows share their primary key.
abbrev pub WellOwned : Uuid → List Conversation → List ConversationMember → Type 0
WellOwned c conversations members =
    (is_keyed members ≡ true)
    × (IsAbsent c conversations members
        ⊎ (IsPrivate c conversations members ⊎ ((u : Uuid) × IsOwnedBy c u conversations members)))
