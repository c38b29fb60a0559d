-- ===== src/Conversation/Invitation.antt =====
-- Group invitations: `validateGroupInvitation`, `acceptGroupInvitation`, `rejectGroupInvitation`.
use messinger_backend.Prelude.{
  Bool, false, not, Option, none, some, List, [], ◌∷◌, ◌==◌, is_some, if◌then◌else◌,
}
use messinger_backend.Types.{Uuid, member, is_group, is_owner, member_joined}
use messinger_backend.Exceptions.{not_found, forbidden}
use messinger_backend.Entities.{Conversation, ConversationMember}
use messinger_backend.Orm.{Orm}
use messinger_backend.Packages.{Packages}
use messinger_backend.Store.{
  Action, pure, throw, gets, ◌>>=◌, ◌>>◌, throw_if, or_throw, transaction,
}
use messinger_backend.Repositories.{
  bulk_create, find_member, member_exists, restore_conversation, find_by_id,
  get_conversation_members, create_event, create_invitation, find_invitation, accept_invitation,
  reject_invitation, mark_invitation_as_expired,
}

-- `member?.softDeletedAt`
abbrev pub is_removed : Option ConversationMember → Bool
is_removed none = false
is_removed (some m) = is_some m.soft_deleted_at

module _ ⦃o : Orm⦄ ⦃k : Packages⦄ where
  unfoldable pub validate_group_invitation : Uuid → Uuid → Uuid → Action Conversation
  unfolding find_member member_exists find_by_id create_invitation
  validate_group_invitation actor_id conversation_id target_user_id = do
    found ← find_by_id conversation_id
    found_actor ← find_member conversation_id actor_id
    already_member ← member_exists conversation_id target_user_id
    conversation ← or_throw found (not_found "GROUP_INVITATION:CONVERSATION_NOT_FOUND")
    throw_if (not (is_group conversation.type))
        (forbidden "GROUP_INVITATION:INVALID_CONVERSATION_TYPE")
    actor ← or_throw found_actor (forbidden "GROUP_INVITATION:USER_IS_NOT_MEMBER")
    throw_if (not (is_owner actor.role)) (forbidden "GROUP_INVITATION:ONLY_OWNER_CAN_INVITE")
    throw_if (actor_id == target_user_id) (forbidden "GROUP_INVITATION:CANNOT_INVITE_YOURSELF")
    throw_if already_member (forbidden "GROUP_INVITATION:USER_ALREADY_MEMBER")
    now ← gets (λ s. s.clock)
    create_invitation (record {
      conversation_id = conversation_id;
      actor_id = actor_id;
      target_id = target_user_id;
      expires_at = k.add_hours now 24;
    })
    pure conversation

  -- The transaction of `acceptGroupInvitation`.
  unfoldable pub join_group : Uuid → Uuid → Option ConversationMember → Action (Unit {0})
  unfolding bulk_create restore_conversation create_event accept_invitation
  join_group conversation_id user_id membership = transaction (
      if is_removed membership then restore_conversation conversation_id user_id else do
        accept_invitation conversation_id user_id
        create_event (record {
          conversation_id = conversation_id;
          actor_id = user_id;
          target_user_id = none;
          type = some member_joined;
        })
        bulk_create
            (record { conversation_id = conversation_id; user_id = user_id; role = member } ∷ []))

  -- The guard that `acceptGroupInvitation` and `rejectGroupInvitation` have in common.
  abbrev pub expire_if : Bool → Uuid → Uuid → Action (Unit {0})
  expire_if late conversation_id user_id =
      if late
      then (do
        mark_invitation_as_expired conversation_id user_id
        throw (forbidden "GROUP_INVITATION:EXPIRED"))
      else pure tt

  unfoldable pub accept_group_invitation : Uuid → Uuid → Action (List ConversationMember)
  unfolding join_group find_member find_by_id get_conversation_members find_invitation
      mark_invitation_as_expired
  accept_group_invitation conversation_id user_id = do
    found ← find_by_id conversation_id
    membership ← find_member conversation_id user_id
    members ← get_conversation_members conversation_id
    found_invitation ← find_invitation conversation_id user_id
    conversation ← or_throw found (not_found "GROUP:NOT_FOUND")
    invitation ← or_throw found_invitation (not_found "GROUP_INVITATION:NOT_FOUND")
    now ← gets (λ s. s.clock)
    expire_if (k.is_after now invitation.expires_at) conversation_id user_id
    join_group conversation_id user_id membership
    pure members

  unfoldable pub reject_group_invitation : Uuid → Uuid → Action (Unit {0})
  unfolding find_invitation reject_invitation mark_invitation_as_expired
  reject_group_invitation conversation_id user_id = do
    found_invitation ← find_invitation conversation_id user_id
    invitation ← or_throw found_invitation (not_found "GROUP_INVITATION:NOT_FOUND")
    now ← gets (λ s. s.clock)
    expire_if (k.is_after now invitation.expires_at) conversation_id user_id
    reject_invitation conversation_id user_id
