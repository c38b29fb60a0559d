-- ===== src/Conversation/Private.antt =====
-- Private conversations: `normalizeMembers`, `generatePrivateKey`, `getMemberRole`,
-- `getOrCreatePrivateConversation`, `deletePrivateConversation`, `resetUnreadMessagesCount`.
use messinger_backend.Prelude.{
  ℕ, ◌&&◌, Option, none, some, List, [], ◌∷◌, map, leb, ltb, ◌==◌, if◌then◌else◌, includes, length,
  is_some,
}
use messinger_backend.Types.{
  Uuid, ConversationType, private, group, ConversationRole, owner, member, is_group,
}
use messinger_backend.Exceptions.{not_found, forbidden}
use messinger_backend.Entities.{Conversation}
use messinger_backend.Orm.{Orm}
use messinger_backend.Packages.{Packages}
use messinger_backend.Store.{Action, pure, ◌>>=◌, ◌>>◌, throw_if, or_throw, transaction}
use messinger_backend.Repositories.{
  bulk_create, find_member, get_remaining_conversations, mark_conversation_as_deleted,
  reset_unread_count, save_conversation, find_by_id, find_by_private_key, delete_conversation,
}

-- `array.filter((id, index, array) => array.indexOf(id) === index)`, after the ids in `seen`.
unfoldable pub first_occurrences : List Uuid → List Uuid → List Uuid
first_occurrences seen [] = []
first_occurrences seen (id ∷ ids) =
    let rest = first_occurrences (id ∷ seen) ids in if includes seen id then rest else id ∷ rest

unfoldable pub normalize_members : Uuid → List Uuid → List Uuid
unfolding first_occurrences
normalize_members creator_id members = first_occurrences [] (creator_id ∷ members)

-- `userIds.sort()`
unfoldable pub insert_sorted : Uuid → List Uuid → List Uuid
insert_sorted a [] = a ∷ []
insert_sorted a (b ∷ bs) = if leb a b then a ∷ b ∷ bs else b ∷ insert_sorted a bs

unfoldable pub sort : List Uuid → List Uuid
unfolding insert_sorted
sort [] = []
sort (a ∷ as_) = insert_sorted a (sort as_)

unfoldable pub get_member_role : ConversationType → Uuid → Uuid → ConversationRole
get_member_role type user_id creator_id =
    if is_group type && user_id == creator_id then owner else member

module _ ⦃k : Packages⦄ where
  unfoldable pub generate_private_key : List Uuid → ℕ
  generate_private_key user_ids = k.sha256_of_ids (sort user_ids)

module _ ⦃o : Orm⦄ where
  -- The transaction of `getOrCreatePrivateConversation`.
  unfoldable pub create_with_members :
      ConversationType → Uuid → List Uuid → Option ℕ → Action (Option Conversation)
  unfolding get_member_role bulk_create save_conversation find_by_id
  create_with_members type creator_id unique_members private_key = transaction do
    saved ← save_conversation (record { type = type; private_key = private_key; name = none })
    bulk_create (
        map
          (λ user_id. record {
            conversation_id = saved.id;
            user_id = user_id;
            role = get_member_role type user_id creator_id;
          })
          unique_members)
    find_by_id saved.id

module _ ⦃o : Orm⦄ ⦃k : Packages⦄ where
  -- `sort` works in place, so the members of a new private conversation are in order too.
  unfoldable pub get_or_create_private_conversation :
      ConversationType → Uuid → List Uuid → Action (Option Conversation)
  unfolding find_by_private_key
  get_or_create_private_conversation group creator_id members =
      create_with_members group creator_id (normalize_members creator_id members) none
  get_or_create_private_conversation private creator_id members = do
    let unique_members = normalize_members creator_id members
    throw_if (ltb 2 (length unique_members))
        (forbidden "CREATE_CONVERSATION:PRIVATE_CONVERSATION_REQUIRES_TWO_USERS")
    let private_key = generate_private_key unique_members
    existing ← find_by_private_key private_key
    if is_some existing
        then pure existing
        else create_with_members private creator_id (sort unique_members) (some private_key)

module _ ⦃o : Orm⦄ where
  unfoldable pub delete_private_conversation : Uuid → Uuid → Action (Unit {0})
  unfolding find_member get_remaining_conversations mark_conversation_as_deleted find_by_id
      delete_conversation
  delete_private_conversation user_id conversation_id = do
    found ← find_by_id conversation_id
    found_member ← find_member conversation_id user_id
    conversation ← or_throw found (not_found "CONVERSATION:NOT_FOUND")
    throw_if (is_group conversation.type) (forbidden "CONVERSATION:INVALID_TYPE")
    membership ← or_throw found_member (forbidden "CONVERSATION:USER_NOT_MEMBER")
    throw_if (is_some membership.soft_deleted_at) (forbidden "CONVERSATION:ALREADY_DELETED")
    transaction do
      mark_conversation_as_deleted conversation_id user_id
      remaining ← get_remaining_conversations conversation_id
      if remaining == 0 then delete_conversation conversation_id else pure tt

  unfoldable pub reset_unread_messages_count : Uuid → Uuid → Action (Unit {0})
  unfolding reset_unread_count
  reset_unread_messages_count user_id conversation_id =
      transaction (reset_unread_count conversation_id user_id)
