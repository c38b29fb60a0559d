-- ===== src/Messages/Atomic.antt =====
-- A message to a group that is refused.
use messinger_backend.Prelude.{◌≡◌, ◌∙◌, ap, ◌+◌, refl, List, [], ◌∷◌, String, arith, map, inl, inr}
use messinger_backend.Types.{Uuid}
use messinger_backend.Exceptions.{Exception, err, Result-cases}
use messinger_backend.Entities.{ConversationMember}
use messinger_backend.Orm.{Orm, IsOrm, roll_back}
use messinger_backend.R2.{R2}
use messinger_backend.Cipher.{Cipher}
use messinger_backend.Store.{Store, Action, back}
use messinger_backend.Repositories.{
  NewDelivery, NewMessage, save_message, create_deliveries, delivery_rows, find_by_id, find_member,
  get_members, update_last_message, active_in, find_by_message_id,
}
use messinger_backend.Storage.{process_message_attachments}
use messinger_backend.Messages.Sending.{
  Ciphered, SavedMessage, increment_all, receivers, sent_to, store_message, store_group_message,
  create_group_message, cipher_message,
}
use messinger_backend.Messages.Parts.{increment_all_lem}
use messinger_backend.Messages.Attachments.{process_message_attachments-frame}
use messinger_backend.Messages.Receivers.{ciphered_of}

-- What is outside of the database is as before.
abbrev SameOutside : Store → Store → Type 0
SameOutside s s' = (s'.bucket ≡ s.bucket) × (s'.emitted ≡ s.emitted) × (s'.pushed ≡ s.pushed)

-- An action that leaves it so, from every store.
abbrev Contained : {A : Type 0} → Action A → Type 0
Contained m = (s : Store) → SameOutside s (m s).1

SameOutside-trans : (s t u : Store) → SameOutside s t → SameOutside t u → SameOutside s u
SameOutside-trans s t u h k = (k.0 ∙ h.0, k.1 ∙ h.1, k.2 ∙ h.2)

module _ ⦃o : Orm⦄ where
  delivery_rows-frame :
      (ds : List NewDelivery) (s : Store)
      → (delivery_rows ds s).1 ≡ record s { serial = (delivery_rows ds s).1.serial }
  unfolding delivery_rows
  delivery_rows-frame [] s = refl
  delivery_rows-frame (d ∷ ds) s =
      ground (arith, delivery_rows-frame ds (record s { serial = s.serial + 1 }))

  create_deliveries-Contained : (ds : List NewDelivery) → Contained (create_deliveries ds)
  unfolding create_deliveries
  create_deliveries-Contained ds s = (
    ground (arith, delivery_rows-frame ds s),
    ground (arith, delivery_rows-frame ds s),
    ground (arith, delivery_rows-frame ds s),
  )

  save_message-Contained : (m : NewMessage) → Contained (save_message m)
  unfolding save_message
  save_message-Contained m s = (ground arith, ground arith, ground arith)

  update_last_message-Contained : (c id : Uuid) → Contained (update_last_message c id)
  unfolding update_last_message
  update_last_message-Contained c id s = (refl, refl, refl)

  increment_all-Contained :
      (l : IsOrm o) (c : Uuid) (ms : List ConversationMember) → Contained (increment_all c ms)
  increment_all-Contained l c ms s = (
    ground (arith, increment_all_lem l c ms s),
    ground (arith, increment_all_lem l c ms s),
    ground (arith, increment_all_lem l c ms s),
  )

module _ ⦃o : Orm⦄ ⦃r : R2⦄ where
  process_message_attachments-Contained :
      (l : IsOrm o) (u id : Uuid) (ids : List Uuid)
      → Contained (process_message_attachments u id ids)
  process_message_attachments-Contained l u id ids s = (
    ap (λ t. t.bucket) (process_message_attachments-frame l u id ids s),
    ap (λ t. t.emitted) (process_message_attachments-frame l u id ids s),
    ap (λ t. t.pushed) (process_message_attachments-frame l u id ids s),
  )

  store_message-Contained :
      (l : IsOrm o) (u c : Uuid) (ms : List ConversationMember) (x : Ciphered) (ids : List Uuid)
      (s : Store)
      → SameOutside s (store_message u c ms x ids s).1
  unfolding store_message find_by_message_id update_last_message
  store_message-Contained l u c ms x ids s = elim (Result-cases (save_message row s).0) [
    | inr (e, failed) ↦ out s1 (ground arith) saved
    | inl (m, done) ↦
        let ds : List NewDelivery = map (sent_to m.id) (receivers u ms) in
        let s2 : Store = (create_deliveries ds s1).1 in
        let s3 : Store = (update_last_message c m.id s2).1 in
        let s4 : Store = (process_message_attachments u m.id ids s3).1 in
        let s5 : Store = (increment_all c (receivers u ms) s4).1 in
        let h2 = SameOutside-trans s s1 s2 saved (create_deliveries-Contained ds s1) in
        let h3 = SameOutside-trans s s2 s3 h2 (update_last_message-Contained c m.id s2) in
        let h4 =
          SameOutside-trans s s3 s4 h3 (process_message_attachments-Contained l u m.id ids s3) in
        let h5 = SameOutside-trans s s4 s5 h4 (increment_all-Contained l c (receivers u ms) s4) in
        elim (Result-cases (create_deliveries ds s1).0) [
          | inr (e, failed) ↦ out s2 (ground arith) h2
          | inl (v, delivered) ↦ elim (Result-cases (process_message_attachments u m.id ids s3).0) [
            | inr (e, failed) ↦ out s4 (ground arith) h4
            | inl (w, processed) ↦
                out s5 (ground (arith, increment_all_lem l c (receivers u ms) s4)) h5
          ]
        ]
  ]
    where
      row : NewMessage
      row = record {
        conversation_id = c;
        sender_id = u;
        ciphered_content = x.ciphered_content;
        iv = x.iv;
        auth_tag = x.auth_tag;
      }

      s1 : Store
      s1 = (save_message row s).1

      saved : SameOutside s s1
      saved = save_message-Contained row s

      out :
          (t : Store)
          → (store_message u c ms x ids s).1 ≡ t
          → SameOutside s t
          → SameOutside s (store_message u c ms x ids s).1
      out t e h = rw e h

  store_group_message-Contained :
      (l : IsOrm o) (u c : Uuid) (ms : List ConversationMember) (content : String) (x : Ciphered)
      (ids : List Uuid)
      → Contained (store_group_message u c ms content x ids)
  unfolding store_group_message
  store_group_message-Contained l u c ms content x ids s =
      let h = store_message-Contained l u c ms x ids s in
      elim (Result-cases (store_message u c ms x ids s).0) [
        | inr (e, failed) ↦ (ground arith, ground arith, ground arith)
        | inl (m, done) ↦ (ground arith, ground arith, ground arith)
      ]

module _ ⦃o : Orm⦄ ⦃r : R2⦄ ⦃e : Cipher⦄ where
  -- When sending a message to a group is refused, whatever the reason and however far it got,
  -- nothing has changed.
  pub create_group_message-refused :
      (l : IsOrm o) (u c : Uuid) (content : String) (ids : List Uuid) (s : Store) (x : Exception)
      → (create_group_message u c content ids s).0 ≡ err x
      → (create_group_message u c content ids s).1 ≡ s
  unfolding create_group_message find_by_id find_member get_members cipher_message
  create_group_message-refused l u c content ids s x h =
      let work =
        store_group_message-Contained l u c members content (ciphered_of content s) ids s in
      elim (Result-cases
        (store_group_message u c members content (ciphered_of content s) ids s).0) [
          | inl (a, stored) ↦ ground (arith, committed)
          | inr (y, failed) ↦ ground (arith, committed)
        ]
    where
      members : List ConversationMember
      members = o.find ConversationMember (active_in c) s.members

      committed :
          o.transaction Store
            (SavedMessage × List ConversationMember)
            back
            (store_group_message u c members content (ciphered_of content s) ids)
            s
          ≡ roll_back back s (store_group_message u c members content (ciphered_of content s) ids s)
      committed =
          l.transaction_lem Store (SavedMessage × List ConversationMember) back
            (store_group_message u c members content (ciphered_of content s) ids) s
