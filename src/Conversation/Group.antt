-- ===== src/Conversation/Group.antt =====
-- Groups: `createGroup`, `removeMemberFromGroup`, `leaveGroup`, `transferGroupOwnership`,
-- `removeGroupMember`, `deleteGroup`.
use messinger_backend.Prelude.{not, none, some, String, [], ◌∷◌, ◌==◌, is_some}
use messinger_backend.Types.{
  Uuid, group, owner, member, is_group, is_owner, ConversationEventType, member_left,
  member_removed, ownership_transferred,
}
use messinger_backend.Exceptions.{not_found, forbidden}
use messinger_backend.Entities.{Conversation}
use messinger_backend.Orm.{Orm}
use messinger_backend.Store.{
  Action, pure, GroupEvent, ◌>>=◌, ◌>>◌, throw_if, or_throw, transaction, emit,
}
use messinger_backend.Repositories.{
  bulk_create, find_member, mark_conversation_as_deleted, update_role, save_conversation,
  find_by_id, get_conversation_members, delete_conversation, create_event,
}

module _ ⦃o : Orm⦄ where
  -- The `members` of the request are not read.
  unfoldable pub create_group : Uuid → String → Action Conversation
  unfolding bulk_create save_conversation create_event
  create_group owner_id name = transaction do
    saved ← save_conversation (record { type = group; private_key = none; name = some name })
    bulk_create (record { conversation_id = saved.id; user_id = owner_id; role = owner } ∷ [])
    create_event (record {
      conversation_id = saved.id;
      actor_id = owner_id;
      target_user_id = none;
      type = none;
    })
    pure saved

  unfoldable pub remove_member_from_group :
      Uuid → Uuid → Uuid → ConversationEventType → Action (Unit {0})
  unfolding mark_conversation_as_deleted create_event
  remove_member_from_group conversation_id actor_id target_user_id event_type = transaction do
    mark_conversation_as_deleted conversation_id target_user_id
    create_event (record {
      conversation_id = conversation_id;
      actor_id = actor_id;
      target_user_id = some target_user_id;
      type = some event_type;
    })

  unfoldable pub leave_group : Uuid → Uuid → Action (Unit {0})
  unfolding remove_member_from_group find_member get_conversation_members
  leave_group user_id conversation_id = do
    members ← get_conversation_members conversation_id
    found ← find_member conversation_id user_id
    membership ← or_throw found (forbidden "GROUP:USER_NOT_MEMBER")
    throw_if (is_owner membership.role) (forbidden "GROUP:TRANSFER_OWNERSHIP_FIRST")
    remove_member_from_group conversation_id user_id user_id member_left
    emit (GroupEvent.member_left conversation_id user_id members)

  -- The transaction of `transferGroupOwnership`.
  unfoldable pub swap_roles : Uuid → Uuid → Uuid → Action (Unit {0})
  unfolding update_role create_event
  swap_roles conversation_id prev_owner new_owner_id = transaction do
    update_role conversation_id prev_owner member
    update_role conversation_id new_owner_id owner
    create_event (record {
      conversation_id = conversation_id;
      actor_id = prev_owner;
      target_user_id = some new_owner_id;
      type = some ownership_transferred;
    })

  unfoldable pub transfer_group_ownership : Uuid → Uuid → Uuid → Action (Unit {0})
  unfolding swap_roles find_member get_conversation_members
  transfer_group_ownership prev_owner conversation_id new_owner_id = do
    throw_if (prev_owner == new_owner_id) (forbidden "GROUP:INVALID_OWNER")
    found_owner ← find_member conversation_id prev_owner
    found_target ← find_member conversation_id new_owner_id
    members ← get_conversation_members conversation_id
    current ← or_throw found_owner (forbidden "GROUP:USER_NOT_MEMBER")
    throw_if (not (is_owner current.role)) (forbidden "GROUP:ONLY_OWNER")
    throw_if (is_some current.soft_deleted_at) (forbidden "GROUP:OWNER_REMOVED")
    target ← or_throw found_target (forbidden "GROUP:TARGET_NOT_MEMBER")
    throw_if (is_some target.soft_deleted_at) (forbidden "GROUP:TARGET_REMOVED")
    swap_roles conversation_id prev_owner new_owner_id
    emit (GroupEvent.ownership_transferred conversation_id prev_owner new_owner_id members)

  unfoldable pub remove_group_member : Uuid → Uuid → Uuid → Action (Unit {0})
  unfolding remove_member_from_group find_member find_by_id get_conversation_members
  remove_group_member user_id conversation_id target_user_id = do
    found ← find_by_id conversation_id
    members ← get_conversation_members conversation_id
    found_actor ← find_member conversation_id user_id
    found_target ← find_member conversation_id target_user_id
    conversation ← or_throw found (not_found "CONVERSATION_NOT_FOUND")
    throw_if (not (is_group conversation.type)) (forbidden "REMOVE_MEMBER:NOT_A_GROUP")
    actor ← or_throw found_actor (forbidden "REMOVE_MEMBER:NOT_GROUP_MEMBER")
    throw_if (not (is_owner actor.role)) (forbidden "REMOVE_MEMBER:ONLY_OWNER")
    target ← or_throw found_target (not_found "REMOVE_MEMBER:TARGET_NOT_FOUND")
    throw_if (is_owner target.role) (forbidden "REMOVE_MEMBER:CANNOT_REMOVE_OWNER")
    throw_if (user_id == target_user_id) (forbidden "REMOVE_MEMBER:USE_LEAVE_GROUP")
    remove_member_from_group conversation_id user_id target_user_id member_removed
    emit (GroupEvent.member_removed conversation_id user_id target_user_id members)

  unfoldable pub delete_group : Uuid → Uuid → Action (Unit {0})
  unfolding find_member find_by_id get_conversation_members delete_conversation
  delete_group user_id conversation_id = do
    found ← find_by_id conversation_id
    found_owner ← find_member conversation_id user_id
    members ← get_conversation_members conversation_id
    conversation ← or_throw found (not_found "GROUP:NOT_FOUND")
    throw_if (not (is_group conversation.type)) (forbidden "GROUP:INVALID_TYPE")
    actor ← or_throw found_owner (forbidden "GROUP:USER_NOT_MEMBER")
    throw_if (not (is_owner actor.role)) (forbidden "GROUP:ONLY_OWNER")
    transaction (delete_conversation conversation_id)
    emit (GroupEvent.group_deleted conversation_id members)
