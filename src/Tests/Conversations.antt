-- ===== src/Tests/Conversations.antt =====
-- The theorems on conversations, on the small database.
use messinger_backend.Prelude.{ℕ, ◌≡◌, refl, true, List, [], ◌∷◌, inr, any}
use messinger_backend.Types.{private}
use messinger_backend.Exceptions.{IsOk}
use messinger_backend.Orm.{first_orm, first_orm-IsOrm}
use messinger_backend.Packages.{plain_packages}
use messinger_backend.Conversation.Private.{
  generate_private_key, normalize_members, get_or_create_private_conversation,
  delete_private_conversation, create_with_members, sort,
}
use messinger_backend.Conversation.Invitation.{accept_group_invitation, validate_group_invitation}
use messinger_backend.Conversation.Group.{
  create_group, leave_group, transfer_group_ownership, remove_group_member, delete_group,
}
use messinger_backend.Conversation.Calls.{Call, run, transfer, remove, leave}
use messinger_backend.Conversation.Ownership.{WellOwned}
use messinger_backend.Conversation.Ownership.Histories.{run-WellOwned}
use messinger_backend.Conversation.Refusals.{Atomic, refused_changes_nothing}
use messinger_backend.Conversation.Permissions.{OwnerOnly, only_owner_changes}
use messinger_backend.Conversation.Joining.{active_member, accept_joins}
use messinger_backend.Conversation.Reopening.{IsFound, reopen_changes_nothing}
use messinger_backend.Tests.Data.{store}

-- The group 1 is handed over to 11, then 10 leaves and 11 removes nobody.
abbrev history : List (ℕ × Call)
history = (60, transfer 10 1 11) ∷ (61, leave 10 1) ∷ (62, remove 11 1 10) ∷ []

run-WellOwned_example :
    WellOwned 1
      (run ⦃o = first_orm⦄ ⦃k = plain_packages⦄ history store).conversations
      (run ⦃o = first_orm⦄ ⦃k = plain_packages⦄ history store).members
run-WellOwned_example =
    run-WellOwned ⦃o = first_orm⦄ ⦃k = plain_packages⦄ first_orm-IsOrm 1 history store
      (refl, inr (inr (10, (refl, refl, refl, refl))))

only_owner_changes_example :
    OwnerOnly 1 11 (transfer_group_ownership ⦃o = first_orm⦄ 11 1 10) store
    × OwnerOnly 1 11 (remove_group_member ⦃o = first_orm⦄ 11 1 10) store
    × OwnerOnly 1 11 (delete_group ⦃o = first_orm⦄ 11 1) store
    × OwnerOnly 1 11 (validate_group_invitation ⦃o = first_orm⦄ ⦃k = plain_packages⦄ 11 1 10) store
only_owner_changes_example =
    only_owner_changes ⦃o = first_orm⦄ ⦃k = plain_packages⦄ first_orm-IsOrm store 11 1 10

refused_changes_nothing_example :
    Atomic (create_group ⦃o = first_orm⦄ 10 "x") store
    × Atomic (leave_group ⦃o = first_orm⦄ 10 1) store
    × Atomic (transfer_group_ownership ⦃o = first_orm⦄ 10 1 11) store
    × Atomic (remove_group_member ⦃o = first_orm⦄ 10 1 11) store
    × Atomic (delete_group ⦃o = first_orm⦄ 10 1) store
    × Atomic (delete_private_conversation ⦃o = first_orm⦄ 10 1) store
refused_changes_nothing_example =
    refused_changes_nothing ⦃o = first_orm⦄ first_orm-IsOrm store 10 1 11 "x"

accepted_in_time : IsOk (accept_group_invitation ⦃o = first_orm⦄ ⦃k = plain_packages⦄ 1 12 store).0
unfolding accept_group_invitation
accepted_in_time = tt

accept_joins_example :
    any
      (active_member 1 12)
      (accept_group_invitation ⦃o = first_orm⦄ ⦃k = plain_packages⦄ 1 12 store).1.members
    ≡ true
accept_joins_example =
    accept_joins ⦃o = first_orm⦄ ⦃k = plain_packages⦄ first_orm-IsOrm 1 12 store accepted_in_time

opened :
    IsOk
      (get_or_create_private_conversation ⦃o = first_orm⦄ ⦃k = plain_packages⦄ private 11
        (12 ∷ [])
        store).0
unfolding get_or_create_private_conversation create_with_members normalize_members
    generate_private_key sort
opened = tt

reopen_changes_nothing_example :
    let t =
      (get_or_create_private_conversation ⦃o = first_orm⦄ ⦃k = plain_packages⦄ private 11
        (12 ∷ [])
        store).1 in
    IsFound ⦃o = first_orm⦄ ⦃k = plain_packages⦄ 12 11 t
reopen_changes_nothing_example =
    reopen_changes_nothing ⦃o = first_orm⦄ ⦃k = plain_packages⦄ first_orm-IsOrm 11 12 store opened
