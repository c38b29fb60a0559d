-- ===== src/Repositories/Deliveries.antt =====
-- src/repositories/message-delivery.repository.ts, less the listings that nothing calls.
use messinger_backend.Prelude.{Bool, ◌&&◌, Option, none, ◌==◌, List, [], ◌∷◌}
use messinger_backend.Types.{Uuid, Date, MessageStatus}
use messinger_backend.Entities.{MessageDelivery}
use messinger_backend.Orm.{Orm}
use messinger_backend.Store.{Action, pure, gets, modify, generate, ◌>>=◌, or_fail}
use messinger_backend.Store.Constraints.{admits_delivery}

-- `DeepPartial<MessageDelivery>`
pub record NewDelivery : Type 0 where
  pub message_id : Uuid
  pub user_id : Uuid
  pub status : MessageStatus

abbrev pub new_delivery : Uuid → Date → NewDelivery → MessageDelivery
new_delivery id now d = record {
  id = id;
  message_id = d.message_id;
  user_id = d.user_id;
  status = d.status;
  delivered_at = none;
  read_at = none;
  created_at = now;
  updated_at = now;
}

-- `{ messageId, userId }`
abbrev pub same_delivery : Uuid → Uuid → MessageDelivery → Bool
same_delivery message_id user_id d = d.message_id == message_id && d.user_id == user_id

-- The row with the given primary key.
abbrev pub delivery_of : Uuid → MessageDelivery → Bool
delivery_of id d = d.id == id

module _ ⦃o : Orm⦄ where
  -- The rows that are inserted, with their generated keys.
  unfoldable pub delivery_rows : List NewDelivery → Action (List MessageDelivery)
  delivery_rows [] = pure []
  delivery_rows (d ∷ ds) = do
    id ← generate
    row ← gets (λ s. new_delivery id s.clock d)
    rows ← delivery_rows ds
    pure (row ∷ rows)

  unfoldable pub create_deliveries : List NewDelivery → Action (Unit {0})
  unfolding delivery_rows
  create_deliveries deliveries = do
    rows ← delivery_rows deliveries
    inserted ← gets (λ s. o.insert _ (admits_delivery s.messages) rows s.deliveries)
    table ← or_fail inserted
    modify (λ s. record s { deliveries = table })

  unfoldable pub find_by_message_and_user : Uuid → Uuid → Action (Option MessageDelivery)
  find_by_message_and_user message_id user_id =
      gets (λ s. o.find_one _ (same_delivery message_id user_id) s.deliveries)

  -- `updatedAt` is an update date column.
  unfoldable pub update_delivery_status :
      Uuid → (MessageDelivery → MessageDelivery) → Action (Unit {0})
  update_delivery_status id patch = modify (λ s. record s {
    deliveries =
        o.update _ (delivery_of id) (λ d. record (patch d) { updated_at = s.clock }) s.deliveries;
  })
