-- ===== src/Messages/Confirmation.antt =====
-- What `confirmDelivery` changes.
use messinger_backend.Prelude.{
  ◌≡◌, refl, Bool, true, false, not, ◌||◌, some, List, [], ◌∷◌, arith, ◌==◌, map_where, filter,
}
use messinger_backend.Prelude.Rows.{all}
use messinger_backend.Types.{Uuid, Date, MessageStatus, sent, delivered, read}
use messinger_backend.Exceptions.{ok}
use messinger_backend.Entities.{MessageDelivery, ConversationMember}
use messinger_backend.Orm.{Orm, IsOrm, orm-eq-table_orm}
use messinger_backend.Store.{Store}
use messinger_backend.Store.Constraints.{same_member}
use messinger_backend.Repositories.{same_delivery, delivery_of}
use messinger_backend.Messages.Delivery.{confirm_delivery, with_status, is_read}

-- `===` on statuses.
abbrev pub same_status : MessageStatus → MessageStatus → Bool
same_status sent sent = true
same_status delivered delivered = true
same_status read read = true
same_status _ _ = false

abbrev changed : MessageStatus → Date → MessageDelivery → MessageDelivery
changed status now d = record (with_status status now d) { updated_at = now }

all-changed :
    (status : MessageStatus) (now : Date) (id : Uuid) (rows : List MessageDelivery)
    → all
        (λ d. not (d.id == id) || same_status d.status status)
        (map_where (delivery_of id) (changed status now) rows)
      ≡ true
all-changed status now id [] = refl
all-changed sent now id (d ∷ rows) = ground (arith, all-changed sent now id rows)
all-changed delivered now id (d ∷ rows) = ground (arith, all-changed delivered now id rows)
all-changed read now id (d ∷ rows) = ground (arith, all-changed read now id rows)

others-changed :
    (status : MessageStatus) (now : Date) (id : Uuid) (rows : List MessageDelivery)
    → filter (λ d. not (d.id == id)) (map_where (delivery_of id) (changed status now) rows)
      ≡ filter (λ d. not (d.id == id)) rows
others-changed status now id [] = refl
others-changed sent now id (d ∷ rows) = ground (arith, others-changed sent now id rows)
others-changed delivered now id (d ∷ rows) = ground (arith, others-changed delivered now id rows)
others-changed read now id (d ∷ rows) = ground (arith, others-changed read now id rows)

all-reset :
    (c u : Uuid) (rows : List ConversationMember)
    → all
        (λ m. not (same_member c u m) || m.unread_count == 0)
        (map_where (same_member c u) (λ m. record m { unread_count = 0 }) rows)
      ≡ true
all-reset c u [] = refl
all-reset c u (m ∷ rows) = ground (arith, all-reset c u rows)

module _ ⦃o : Orm⦄ where
  -- When a delivery of the message to the user is found, the call returns it as it was, its row gets
  -- the status, the rows of all other deliveries stay as they were, and with the status READ the
  -- unread count of the user in the given conversation is 0.
  pub confirm_delivery_lem :
      (l : IsOrm o) (u c message_id : Uuid) (status : MessageStatus) (d : MessageDelivery)
      (s : Store)
      → o.find_one _ (same_delivery message_id u) s.deliveries ≡ some d
      → ((confirm_delivery u c message_id status s).0 ≡ ok d)
        × (all
              (λ x. not (x.id == d.id) || same_status x.status status)
              (confirm_delivery u c message_id status s).1.deliveries
            ≡ true)
        × (filter (λ x. not (x.id == d.id)) (confirm_delivery u c message_id status s).1.deliveries
            ≡ filter (λ x. not (x.id == d.id)) s.deliveries)
        × (not (is_read status)
              || all
                  (λ m. not (same_member c u m) || m.unread_count == 0)
                  (confirm_delivery u c message_id status s).1.members
            ≡ true)
  confirm_delivery_lem l = rw (orm-eq-table_orm l) (
      unfold confirm_delivery in
      λ u c message_id status d s e. (
        ground arith,
        ground (arith, all-changed status s.clock d.id s.deliveries),
        ground (arith, others-changed status s.clock d.id s.deliveries),
        ground (arith, all-reset c u s.members),
      ))
