-- ===== src/Tests/Messages.antt =====
-- The theorems on messages, on the small database.
use messinger_backend.Prelude.{
  ◌≡◌, refl, true, not, ◌||◌, ◌&&◌, some, none, ◌==◌, filter, map, any, List, [], ◌∷◌,
}
use messinger_backend.Prelude.Rows.{all}
use messinger_backend.Types.{Uuid, read, sent, owner, member, group_created}
use messinger_backend.Exceptions.{Result, ok, err, forbidden}
use messinger_backend.Entities.{ConversationEvent, ConversationMember, Message, MessageDelivery}
use messinger_backend.Orm.{first, first_orm, first_orm-IsOrm}
use messinger_backend.R2.{plain_r2}
use messinger_backend.Cipher.{plain_cipher, plain_cipher-IsCipher}
use messinger_backend.Store.{Store}
use messinger_backend.Store.Constraints.{same_member}
use messinger_backend.Repositories.{
  active_in, find_by_id, find_member, get_members, save_message, create_deliveries, delivery_rows,
  update_last_message, increment_unread_count, find_by_message_id,
}
use messinger_backend.Storage.{process_message_attachments}
use messinger_backend.Messages.Sending.{
  SavedMessage, receivers, create_group_message, cipher_message, decipher_message,
  store_group_message, store_message, increment_all,
}
use messinger_backend.Messages.Receivers.{delivers, counted, create_group_message-receivers}
use messinger_backend.Messages.RoundTrip.{decipher_message-create_group_message}
use messinger_backend.Messages.Atomic.{create_group_message-refused}
use messinger_backend.Messages.History.{HistoryPage, event_item, message_item}
use messinger_backend.Messages.Delivery.{confirm_delivery, is_read}
use messinger_backend.Messages.Confirmation.{same_status, confirm_delivery_lem}
use messinger_backend.Tests.Data.{store, member_row}

abbrev pub delivery : MessageDelivery
delivery = record {
  id = 70;
  message_id = 80;
  user_id = 11;
  status = sent;
  delivered_at = none;
  read_at = none;
  created_at = 0;
  updated_at = 0;
}

abbrev sent_store : Store
sent_store = record store { deliveries = delivery ∷ record delivery { id = 71; user_id = 12 } ∷ [] }

confirm_delivery_lem_example :
    ((confirm_delivery ⦃o = first_orm⦄ 11 1 80 read sent_store).0 ≡ ok delivery)
    × (all
          (λ x. not (x.id == 70) || same_status x.status read)
          (confirm_delivery ⦃o = first_orm⦄ 11 1 80 read sent_store).1.deliveries
        ≡ true)
    × (filter
          (λ x. not (x.id == 70))
          (confirm_delivery ⦃o = first_orm⦄ 11 1 80 read sent_store).1.deliveries
        ≡ filter (λ x. not (x.id == 70)) sent_store.deliveries)
    × (not (is_read read)
          || all
              (λ m. not (same_member 1 11 m) || m.unread_count == 0)
              (confirm_delivery ⦃o = first_orm⦄ 11 1 80 read sent_store).1.members
        ≡ true)
confirm_delivery_lem_example =
    confirm_delivery_lem ⦃o = first_orm⦄ first_orm-IsOrm 11 1 80 read delivery sent_store refl

-- The message "hi" of the user 10 to the group 1.
abbrev saved : SavedMessage
saved = record {
  id = 500;
  created_at = 50;
  sender_id = 10;
  conversation_id = 1;
  content = "hi";
  saved_attachments = [];
}

abbrev group_members : List ConversationMember
group_members = member_row 1 10 owner ∷ member_row 1 11 member ∷ []

abbrev message : Message
message = record {
  id = 500;
  conversation_id = 1;
  sender_id = some 10;
  ciphered_content = "hi";
  iv = "iv";
  auth_tag = "tag";
  created_at = 50;
}

abbrev send : Uuid → Store → Result (SavedMessage × List ConversationMember) × Store
send sender_id =
    create_group_message ⦃o = first_orm⦄ ⦃r = plain_r2⦄ ⦃e = plain_cipher⦄ sender_id 1 "hi" []

sent_hi : (send 10 store).0 ≡ ok (saved, group_members)
unfolding create_group_message find_by_id find_member get_members cipher_message store_group_message
    store_message save_message create_deliveries delivery_rows update_last_message
    process_message_attachments increment_all increment_unread_count find_by_message_id
sent_hi = refl

found_hi : first Message (λ x. x.id == 500) (send 10 store).1.messages ≡ some message
unfolding create_group_message find_by_id find_member get_members cipher_message store_group_message
    store_message save_message create_deliveries delivery_rows update_last_message
    process_message_attachments increment_all increment_unread_count find_by_message_id
found_hi = refl

create_group_message-receivers_example :
    (any (delivers 500 11) (send 10 store).1.deliveries
      ≡ (not (11 == 10) && any (λ m. active_in 1 m && m.user_id == 11) store.members))
    × ((send 10 store).1.members
        ≡ map (counted 1 (receivers 10 (filter (active_in 1) store.members))) store.members)
create_group_message-receivers_example =
    create_group_message-receivers ⦃o = first_orm⦄ ⦃r = plain_r2⦄ ⦃e = plain_cipher⦄ first_orm-IsOrm
      10 1 "hi" [] store saved group_members 11 sent_hi refl

decipher_message-create_group_message_example :
    decipher_message ⦃e = plain_cipher⦄ "hi" "iv" "tag" store ≡ (ok "hi", store)
decipher_message-create_group_message_example =
    decipher_message-create_group_message ⦃o = first_orm⦄ ⦃r = plain_r2⦄ ⦃e = plain_cipher⦄
      first_orm-IsOrm plain_cipher-IsCipher 10 1 "hi" [] store store saved group_members message
      sent_hi found_hi

-- The user 12 is no member.
refused_hi : (send 12 store).0 ≡ err (forbidden "GROUP:USER_NOT_MEMBER")
unfolding create_group_message find_by_id find_member get_members
refused_hi = refl

create_group_message-refused_example : (send 12 store).1 ≡ store
create_group_message-refused_example =
    create_group_message-refused ⦃o = first_orm⦄ ⦃r = plain_r2⦄ ⦃e = plain_cipher⦄ first_orm-IsOrm
      12 1 "hi" [] store (forbidden "GROUP:USER_NOT_MEMBER") refused_hi

-- A message of the group, and an event before it.
abbrev event : ConversationEvent
event = record {
  id = 90;
  conversation_id = 1;
  actor_id = 10;
  target_user_id = none;
  type = group_created;
  created_at = 1;
}

abbrev history_store : Store
history_store = record store { messages = message ∷ []; events = event ∷ [] }

abbrev page : HistoryPage
page = record {
  page =
      event_item event
      ∷ message_item (record {
        id = 500;
        conversation_id = 1;
        sender_id = some 10;
        created_at = 50;
        content = "hi";
        attachments = [];
      })
      ∷ [];
  next_cursor = some 90;
}
