-- ===== src/Conversation/Refusals.antt =====
-- What a refused call leaves behind.
use messinger_backend.Prelude.{◌≡◌, ◌⊎◌, String, arith}
use messinger_backend.Types.{Uuid}
use messinger_backend.Exceptions.{IsOk}
use messinger_backend.Orm.{Orm, IsOrm, orm-eq-table_orm}
use messinger_backend.Store.{Store, Action}
use messinger_backend.Conversation.Private.{delete_private_conversation}
use messinger_backend.Conversation.Group.{
  create_group, leave_group, transfer_group_ownership, remove_group_member, delete_group,
}

-- The action is fulfilled, or the store is as it was.
abbrev pub Atomic : {A : Type 0} → Action A → Store → Type 0
Atomic m s = ((m s).1 ≡ s) ⊎ IsOk (m s).0

module _ ⦃o : Orm⦄ (l : IsOrm o) where
  leave_group-Atomic : (u c : Uuid) (s : Store) → Atomic (leave_group u c) s
  leave_group-Atomic = rw (orm-eq-table_orm l) (unfold leave_group in λ u c s. ground arith)

  transfer-Atomic : (p c n : Uuid) (s : Store) → Atomic (transfer_group_ownership p c n) s
  transfer-Atomic =
      rw (orm-eq-table_orm l) (unfold transfer_group_ownership in λ p c n s. ground arith)

  remove-Atomic : (u c t : Uuid) (s : Store) → Atomic (remove_group_member u c t) s
  remove-Atomic = rw (orm-eq-table_orm l) (unfold remove_group_member in λ u c t s. ground arith)

  delete_group-Atomic : (u c : Uuid) (s : Store) → Atomic (delete_group u c) s
  delete_group-Atomic = rw (orm-eq-table_orm l) (unfold delete_group in λ u c s. ground arith)

  delete_private-Atomic : (u c : Uuid) (s : Store) → Atomic (delete_private_conversation u c) s
  delete_private-Atomic =
      rw (orm-eq-table_orm l) (unfold delete_private_conversation in λ u c s. ground arith)

  create_group-Atomic : (u : Uuid) (name : String) (s : Store) → Atomic (create_group u name) s
  create_group-Atomic = rw (orm-eq-table_orm l) (unfold create_group in λ u name s. ground arith)

-- Creating a group, leaving it, handing it over, removing a member and deleting a conversation
-- either are fulfilled or leave the store, the emitted events included, exactly as it was.
pub refused_changes_nothing :
    ⦃o : Orm⦄ (l : IsOrm o) (s : Store) (user_id conversation_id other_id : Uuid) (name : String)
    → Atomic (create_group user_id name) s
      × Atomic (leave_group user_id conversation_id) s
      × Atomic (transfer_group_ownership user_id conversation_id other_id) s
      × Atomic (remove_group_member user_id conversation_id other_id) s
      × Atomic (delete_group user_id conversation_id) s
      × Atomic (delete_private_conversation user_id conversation_id) s
refused_changes_nothing l s u c t name = (
  create_group-Atomic l u name s,
  leave_group-Atomic l u c s,
  transfer-Atomic l u c t s,
  remove-Atomic l u c t s,
  delete_group-Atomic l u c s,
  delete_private-Atomic l u c s,
)
