-- ===== src/Websocket/Sync/Delivered.antt =====
-- What a synchronisation leaves.
use messinger_backend.Prelude.Sort.{any-filter_and, any_count, any_self}
use messinger_backend.Prelude.{
  ℕ, Any, ◌≡◌, refl, sym, ◌∙◌, Bool, true, false, ◌&&◌, List, [], ◌∷◌, arith, map, any, filter,
  map_where, includes, Option-cases, ◌==◌, ltb, inl, inr, ap, subst,
}
use messinger_backend.Prelude.Rows.{any_of_Any}
use messinger_backend.Types.{Uuid, Date, delivered}
use messinger_backend.Exceptions.{IsOk, Result-cases}
use messinger_backend.Entities.{Message, MessageDelivery}
use messinger_backend.Orm.{Orm, IsOrm}
use messinger_backend.Cipher.{Cipher}
use messinger_backend.Store.{Store}
use messinger_backend.Messages.Sending.{decipher_message}
use messinger_backend.Websocket.Connections.{Connection, Manager, get_user_connections}
use messinger_backend.Websocket.Sync.{
  pending_delivery, read_all, sync_deliveries, sync_pending_messages,
}

module _ {R : Type 0} where
  any-find_sorted :
      ⦃o : Orm⦄ (l : IsOrm o) (p q : R → Bool) (key : R → ℕ) (d : Bool) (t : List R)
      → any q (o.find_sorted R p key d t) ≡ any (λ x. p x && q x) t
  any-find_sorted ⦃o⦄ l p q key d t =
      any_count q (o.find_sorted R p key d t)
      ∙ ap (ltb 0) (l.find_sorted-count R p q key d t)
      ∙ sym (any_count q (filter p t))
      ∙ any-filter_and p q t

includes-message_ids :
    (id : Uuid) (ds : List MessageDelivery)
    → includes (map (λ d. d.message_id) ds) id ≡ any (λ d. d.message_id == id) ds
includes-message_ids id [] = refl
includes-message_ids id (d ∷ ds) = ground (arith, includes-message_ids id ds)

-- If every pending delivery is listed, none is pending afterwards.
none_pending :
    (now : Date) (u : Uuid) (ids : List Uuid) (rows : List MessageDelivery)
    → ((d : MessageDelivery)
        → Any (λ x. x ≡ d) rows
        → pending_delivery u d ≡ true
        → includes ids d.message_id ≡ true)
    → any (pending_delivery u) (
        map_where
          (λ d. d.user_id == u && includes ids d.message_id)
          (λ d. record d { status = delivered; updated_at = now })
          rows)
      ≡ false
none_pending now u ids [] h = refl
none_pending now u ids (d ∷ rows) h =
    ground (arith, h d (inl refl), none_pending now u ids rows (λ x i. h x (inr i)))

module _ ⦃o : Orm⦄ where
  -- The ids of the pending deliveries.
  abbrev pending_rows : Uuid → Store → List MessageDelivery
  pending_rows u s =
      o.find_sorted MessageDelivery (pending_delivery u) (λ d. d.created_at) true s.deliveries

  includes-pending_rows :
      (l : IsOrm o) (u : Uuid) (s : Store) (d : MessageDelivery)
      → Any (λ x. x ≡ d) s.deliveries
      → pending_delivery u d ≡ true
      → includes (map (λ x. x.message_id) (pending_rows u s)) d.message_id ≡ true
  includes-pending_rows l u s d inside h = ground (
    arith,
    includes-message_ids d.message_id (pending_rows u s),
    any-find_sorted l (pending_delivery u) (λ x. x.message_id == d.message_id) (λ x. x.created_at)
        true s.deliveries,
    any_of_Any (λ x. pending_delivery u x && x.message_id == d.message_id) s.deliveries d inside,
  )

module _ ⦃o : Orm⦄ ⦃e : Cipher⦄ where
  read_all-same : (ms : List Message) (s : Store) → (read_all ms s).1 ≡ s
  unfolding read_all decipher_message
  read_all-same [] s = refl
  read_all-same (x ∷ ms) s = elim (Option-cases (e.decrypt x.ciphered_content x.iv x.auth_tag)) [
    | inl failed ↦ ground arith
    | inr (content, deciphered) ↦ ground (arith, read_all-same ms s)
  ]

  -- By the rows that are pending.
  sync_deliveries-none_pending :
      (l : IsOrm o) (is_open : ℕ → Bool) (m : Manager) (u : Uuid) (c : Connection)
      (cs : List Connection) (s : Store) (rows : List MessageDelivery)
      → get_user_connections u m ≡ c ∷ cs
      → pending_rows u s ≡ rows
      → IsOk (sync_deliveries is_open m u rows s).0
      → any (pending_delivery u) (sync_deliveries is_open m u rows s).1.deliveries ≡ false
  sync_deliveries-none_pending l is_open m u c cs s [] h none_left f = ground (
    arith,
    any-find_sorted l (pending_delivery u) (pending_delivery u) (λ x. x.created_at) true
        s.deliveries,
    any_self (pending_delivery u) s.deliveries,
  )
  sync_deliveries-none_pending l is_open m u c cs s (d ∷ ds) h left f =
      let ids : List Uuid = map (λ x. x.message_id) (d ∷ ds) in
      let messages : List Message =
        o.find_sorted Message (λ x. includes ids x.id) (λ x. x.created_at) true s.messages in
      elim (Result-cases (read_all messages s).0) [
        | inr (x, failed) ↦ absurd (ground (arith))
        | inl (entries, done) ↦ ground (
          arith,
          read_all-same messages s,
          l.update_lem MessageDelivery (λ x. x.user_id == u && includes ids x.message_id)
              (λ x. record x { status = delivered; updated_at = s.clock }) s.deliveries,
          none_pending s.clock u ids s.deliveries (λ x i p.
              subst (λ rows. includes (map (λ y. y.message_id) rows) x.message_id ≡ true) left
                (includes-pending_rows l u s x i p)),
        )
      ]

  -- When the messages that a user has missed are synchronised while the user has a connection, then
  -- no delivery to the user is left that says it is only sent.
  pub sync_pending_messages-none_pending :
      (l : IsOrm o) (is_open : ℕ → Bool) (m : Manager) (u : Uuid) (c : Connection)
      (cs : List Connection) (s : Store)
      → get_user_connections u m ≡ c ∷ cs
      → IsOk (sync_pending_messages is_open m u s).0
      → any (pending_delivery u) (sync_pending_messages is_open m u s).1.deliveries ≡ false
  unfolding sync_pending_messages
  sync_pending_messages-none_pending l is_open m u c cs s h f =
      sync_deliveries-none_pending l is_open m u c cs s (pending_rows u s) h refl f
