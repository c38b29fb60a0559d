-- ===== src/Messages/Stored.antt =====
-- What the transaction that stores a message does, as a whole.
use messinger_backend.Prelude.{
  ◌+◌, ◌≡◌, false, some, List, [], ◌∷◌, ◌++◌, arith, map, length, map_where, Bool-cases, inl, inr,
}
use messinger_backend.Types.{Uuid}
use messinger_backend.Exceptions.{Result-cases, ok, IsOk}
use messinger_backend.Entities.{
  Conversation, ConversationMember, MessageDelivery, Message, MessageAttachment,
}
use messinger_backend.Orm.{Orm, IsOrm, insert_rows}
use messinger_backend.R2.{R2}
use messinger_backend.Store.{Store}
use messinger_backend.Store.Constraints.{admits_message, message_exists}
use messinger_backend.Repositories.{NewDelivery, new_message, create_deliveries, same_conversation}
use messinger_backend.Storage.{process_message_attachments}
use messinger_backend.Messages.Sending.{Ciphered, increment_all, receivers, sent_to, store_message}
use messinger_backend.Messages.Parts.{bump, rows_from, increment_all_lem, create_deliveries_lem}
use messinger_backend.Messages.Attachments.{process_message_attachments-frame}

module _ ⦃o : Orm⦄ ⦃r : R2⦄ where
  abbrev pub message_of : Uuid → Uuid → Ciphered → Store → Message
  message_of sender_id c ciphered s = new_message (o.uuid s.serial) s.clock (record {
    conversation_id = c;
    sender_id = sender_id;
    ciphered_content = ciphered.ciphered_content;
    iv = ciphered.iv;
    auth_tag = ciphered.auth_tag;
  })

  -- The rows that are inserted for the receivers.
  abbrev pub deliveries_of : Uuid → List ConversationMember → Store → List MessageDelivery
  deliveries_of sender_id members s =
      rows_from (map (sent_to (o.uuid s.serial)) (receivers sender_id members)) (s.serial + 1)
        s.clock

  -- The store after the message, its deliveries, and the last message of the conversation.
  abbrev with_message : Uuid → Uuid → Ciphered → Store → Store
  with_message sender_id c ciphered s = record s {
    serial = s.serial + 1;
    messages = s.messages ++ message_of sender_id c ciphered s ∷ [];
  }

  abbrev with_deliveries : Uuid → Uuid → List ConversationMember → Ciphered → Store → Store
  with_deliveries sender_id c members ciphered s = record (with_message sender_id c ciphered s) {
    serial = s.serial + 1 + length (map (sent_to (o.uuid s.serial)) (receivers sender_id members));
    deliveries = s.deliveries ++ deliveries_of sender_id members s;
  }

  abbrev with_last_message : Uuid → Uuid → List ConversationMember → Ciphered → Store → Store
  with_last_message sender_id c members ciphered s =
      record (with_deliveries sender_id c members ciphered s) {
        conversations =
            map_where (same_conversation c)
              (λ d. record d { last_message_id = some (o.uuid s.serial); updated_at = s.clock })
              s.conversations;
      }

  -- What a stored message has done to the tables that it is about.
  abbrev pub Stored :
      Uuid → Uuid → List ConversationMember → Ciphered → Store → Message → Store → Type 0
  Stored sender_id c members ciphered s m s' =
      (m ≡ message_of sender_id c ciphered s)
      × (s'.messages ≡ s.messages ++ message_of sender_id c ciphered s ∷ [])
      × (s'.deliveries ≡ s.deliveries ++ deliveries_of sender_id members s)
      × (s'.members ≡ bump c (receivers sender_id members) s.members)
      × (message_exists s.messages (o.uuid s.serial) ≡ false)

  -- Where the row of the message is admitted, the steps up to the attachments.
  store_message_steps :
      (l : IsOrm o) (sender_id c : Uuid) (members : List ConversationMember) (ciphered : Ciphered)
      (s : Store)
      → IsOk
          (create_deliveries
            (map (sent_to (o.uuid s.serial)) (receivers sender_id members))
            (with_message sender_id c ciphered s)).0
      → create_deliveries
          (map (sent_to (o.uuid s.serial)) (receivers sender_id members))
          (with_message sender_id c ciphered s)
        ≡ (ok tt, with_deliveries sender_id c members ciphered s)
  store_message_steps l sender_id c members ciphered s h =
      create_deliveries_lem l (map (sent_to (o.uuid s.serial)) (receivers sender_id members))
        (with_message sender_id c ciphered s) h

  pub store_message-Stored :
      (l : IsOrm o) (sender_id c : Uuid) (members : List ConversationMember) (ciphered : Ciphered)
      (ids : List Uuid) (s : Store) (m : Message) (as_ : List MessageAttachment)
      → (store_message sender_id c members ciphered ids s).0 ≡ ok (m, as_)
      → Stored sender_id c members ciphered s m (store_message sender_id c members ciphered ids s).1
  unfolding store_message
  store_message-Stored l sender_id c members ciphered ids s m as_ e =
      elim (Bool-cases (admits_message s.conversations s.users s.messages m0)) [
        | inr refused ↦ absurd (ground (arith, inserted))
        | inl admitted ↦ elim (Result-cases (create_deliveries ds s1).0) [
          | inr (x, failed) ↦ absurd (ground (arith, inserted))
          | inl (u, done) ↦
              elim (Result-cases (process_message_attachments sender_id m0.id ids s3).0) [
                | inr (x, failed) ↦ absurd (ground (arith, inserted, steps (ground arith), updated))
                | inl (v, processed) ↦
                    let st = steps (ground arith) in
                    (
                      ground (arith, inserted, st, updated, frame, bumped),
                      ground (arith, inserted, st, updated, frame, bumped),
                      ground (arith, inserted, st, updated, frame, bumped),
                      ground (arith, inserted, st, updated, frame, bumped),
                      ground arith,
                    )
              ]
        ]
      ]
    where
      m0 : Message
      m0 = message_of sender_id c ciphered s

      s1 : Store
      s1 = with_message sender_id c ciphered s

      ds : List NewDelivery
      ds = map (sent_to (o.uuid s.serial)) (receivers sender_id members)

      s3 : Store
      s3 = with_last_message sender_id c members ciphered s

      s4 : Store
      s4 = (process_message_attachments sender_id m0.id ids s3).1

      inserted :
          o.insert Message (admits_message s.conversations s.users) (m0 ∷ []) s.messages
          ≡ insert_rows (admits_message s.conversations s.users) (m0 ∷ []) s.messages
      inserted = l.insert_lem Message (admits_message s.conversations s.users) (m0 ∷ []) s.messages

      steps :
          IsOk (create_deliveries ds s1).0
          → create_deliveries ds s1 ≡ (ok tt, with_deliveries sender_id c members ciphered s)
      steps h = store_message_steps l sender_id c members ciphered s h

      updated :
          o.update Conversation
            (same_conversation c)
            (λ d. record d { last_message_id = some (o.uuid s.serial); updated_at = s.clock })
            s.conversations
          ≡ s3.conversations
      updated =
          l.update_lem Conversation (same_conversation c)
            (λ d. record d { last_message_id = some (o.uuid s.serial); updated_at = s.clock })
            s.conversations

      frame :
          s4 ≡ record s3 { serial = s4.serial; attachments = s4.attachments; uploads = s4.uploads }
      frame = process_message_attachments-frame l sender_id m0.id ids s3

      bumped :
          increment_all c (receivers sender_id members) s4
          ≡ (ok tt, record s4 { members = bump c (receivers sender_id members) s4.members })
      bumped = increment_all_lem l c (receivers sender_id members) s4
