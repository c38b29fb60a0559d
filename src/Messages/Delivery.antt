-- ===== src/Messages/Delivery.antt =====
-- `confirmDelivery`.
use messinger_backend.Prelude.{Bool, true, false, some, if◌then◌else◌}
use messinger_backend.Types.{Uuid, Date, MessageStatus, sent, delivered, read}
use messinger_backend.Exceptions.{not_found}
use messinger_backend.Entities.{MessageDelivery}
use messinger_backend.Orm.{Orm}
use messinger_backend.Store.{Action, pure, gets, or_throw, ◌>>=◌, ◌>>◌}
use messinger_backend.Repositories.{
  reset_unread_count, find_by_message_and_user, update_delivery_status,
}

-- `status === MessageStatus.READ`
abbrev pub is_read : MessageStatus → Bool
is_read read = true
is_read delivered = false
is_read sent = false

-- `{ status, ...(status === DELIVERED ? { deliveredAt } : { readAt }) }`
abbrev pub with_status : MessageStatus → Date → MessageDelivery → MessageDelivery
with_status delivered now d = record d { status = delivered; delivered_at = some now }
with_status read now d = record d { status = read; read_at = some now }
with_status sent now d = record d { status = sent; read_at = some now }

module _ ⦃o : Orm⦄ where
  unfoldable pub confirm_delivery : Uuid → Uuid → Uuid → MessageStatus → Action MessageDelivery
  unfolding reset_unread_count find_by_message_and_user update_delivery_status
  confirm_delivery user_id conversation_id message_id status = do
    found ← find_by_message_and_user message_id user_id
    delivery ← or_throw found (not_found "COMFIRM_DELIVERY:DELIVERY_NOT_FOUND")
    (if is_read status then reset_unread_count conversation_id user_id else pure tt)
    now ← gets (λ s. s.clock)
    update_delivery_status delivery.id (with_status status now)
    pure delivery
