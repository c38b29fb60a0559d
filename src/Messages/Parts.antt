-- ===== src/Messages/Parts.antt =====
-- What each part of the transaction that stores a message does to the store.
use messinger_backend.Prelude.{
  ℕ, ◌+◌, ◌≡◌, refl, Bool, some, List, [], ◌∷◌, ◌++◌, arith, length, map_where, Option-cases, inl,
  inr,
}
use mathlib.Core.List.{append-nil, append_assoc}
use messinger_backend.Types.{Uuid, Date}
use messinger_backend.Exceptions.{ok, IsOk}
use messinger_backend.Entities.{ConversationMember, MessageDelivery}
use messinger_backend.Orm.{Orm, IsOrm, orm-eq-table_orm, insert_rows}
use messinger_backend.Store.{Store}
use messinger_backend.Store.Constraints.{admits_delivery, same_member}
use messinger_backend.Repositories.{
  NewDelivery, new_delivery, delivery_rows, create_deliveries, increment_unread_count,
}
use messinger_backend.Messages.Sending.{increment_all}

insert_rows-append :
    {R : Type 0} (admits : List R → R → Bool) (rows t t' : List R)
    → insert_rows admits rows t ≡ some t'
    → t' ≡ t ++ rows
insert_rows-append admits [] t t' e = ground (arith, append-nil t)
insert_rows-append admits (r ∷ rs) t t' e =
    ground (arith, insert_rows-append admits rs (t ++ r ∷ []) t', append_assoc t (r ∷ []) rs)

-- Unread counts, one more for each of the members.
abbrev pub bump_one : Uuid → ConversationMember → List ConversationMember → List ConversationMember
bump_one c m =
    map_where (same_member c m.user_id) (λ x. record x { unread_count = x.unread_count + 1 })

abbrev pub bump : Uuid → List ConversationMember → List ConversationMember → List ConversationMember
bump c [] rows = rows
bump c (m ∷ ms) rows = bump c ms (bump_one c m rows)

module _ ⦃o : Orm⦄ where
  abbrev pub rows_from : List NewDelivery → ℕ → Date → List MessageDelivery
  rows_from [] n now = []
  rows_from (d ∷ ds) n now = new_delivery (o.uuid n) now d ∷ rows_from ds (n + 1) now

  pub increment_all_lem :
      (l : IsOrm o) (c : Uuid) (ms : List ConversationMember) (s : Store)
      → increment_all c ms s ≡ (ok tt, record s { members = bump c ms s.members })
  unfolding increment_all
  increment_all_lem l c [] s = refl
  increment_all_lem l c (m ∷ ms) s = rw (orm-eq-table_orm l) (
      unfold increment_unread_count in
      ground (arith, increment_all_lem l c ms (record s { members = bump_one c m s.members })))

  delivery_rows_lem :
      (ds : List NewDelivery) (s : Store)
      → delivery_rows ds s
        ≡ (ok (rows_from ds s.serial s.clock), record s { serial = s.serial + length ds })
  unfolding delivery_rows
  delivery_rows_lem [] s = ground arith
  delivery_rows_lem (d ∷ ds) s =
      ground (arith, delivery_rows_lem ds (record s { serial = s.serial + 1 }))

  pub create_deliveries_lem :
      (l : IsOrm o) (ds : List NewDelivery) (s : Store)
      → IsOk (create_deliveries ds s).0
      → create_deliveries ds s ≡ (
        ok tt,
        record s {
          serial = s.serial + length ds;
          deliveries = s.deliveries ++ rows_from ds s.serial s.clock;
        },
      )
  unfolding create_deliveries
  create_deliveries_lem l ds s h =
      elim (Option-cases (insert_rows (admits_delivery s.messages) rows s.deliveries)) [
        | inl e ↦ absurd (ground (arith, inserted, delivery_rows_lem ds s))
        | inr (t, e) ↦ ground (
          arith,
          inserted,
          delivery_rows_lem ds s,
          insert_rows-append (admits_delivery s.messages) rows s.deliveries t e,
        )
      ]
    where
      rows : List MessageDelivery
      rows = rows_from ds s.serial s.clock

      inserted :
          o.insert MessageDelivery (admits_delivery s.messages) rows s.deliveries
          ≡ insert_rows (admits_delivery s.messages) rows s.deliveries
      inserted = l.insert_lem MessageDelivery (admits_delivery s.messages) rows s.deliveries
