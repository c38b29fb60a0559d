-- ===== src/Messages/Receivers.antt =====
-- Who gets a message that is sent to a group.
use messinger_backend.Prelude.{
  ℕ, ◌+◌, ◌≡◌, refl, Bool, false, not, ◌&&◌, List, [], ◌∷◌, arith, map, filter, length, any, ◌==◌,
  inl, inr, if◌then◌else◌, String,
}
use messinger_backend.Prelude.Rows.{any-append}
use messinger_backend.Types.{Uuid, Date}
use messinger_backend.Exceptions.{Result-cases, ok}
use messinger_backend.Entities.{ConversationMember, MessageDelivery}
use messinger_backend.Orm.{Orm, IsOrm, roll_back}
use messinger_backend.R2.{R2}
use messinger_backend.Cipher.{Cipher}
use messinger_backend.Store.{Store, back}
use messinger_backend.Repositories.{active_in, find_by_id, find_member, get_members}
use messinger_backend.Messages.Sending.{
  Ciphered, SavedMessage, receivers, sent_to, store_message, store_group_message,
  create_group_message, cipher_message,
}
use messinger_backend.Messages.Parts.{bump, bump_one, rows_from}
use messinger_backend.Messages.Stored.{Stored, store_message-Stored, deliveries_of, message_of}

-- How often a user is listed.
abbrev pub times : Uuid → List ConversationMember → ℕ
times u ms = length (filter (λ m. m.user_id == u) ms)

-- The unread count of a row of the conversation, one more for each time that its user is listed.
abbrev pub counted : Uuid → List ConversationMember → ConversationMember → ConversationMember
counted c ms x = record x {
  unread_count = x.unread_count + (if x.conversation_id == c then times x.user_id ms else 0);
}

counted-bump_one :
    (c : Uuid) (m : ConversationMember) (ms rows : List ConversationMember)
    → map (counted c ms) (bump_one c m rows) ≡ map (counted c (m ∷ ms)) rows
counted-bump_one c m ms [] = refl
counted-bump_one c m ms (x ∷ rows) = ground (arith, counted-bump_one c m ms rows)

map-counted-nil : (c : Uuid) (rows : List ConversationMember) → map (counted c []) rows ≡ rows
map-counted-nil c [] = refl
map-counted-nil c (x ∷ rows) = ground (arith, map-counted-nil c rows)

bump-eq-map :
    (c : Uuid) (ms rows : List ConversationMember) → bump c ms rows ≡ map (counted c ms) rows
bump-eq-map c [] rows = ground (arith, map-counted-nil c rows)
bump-eq-map c (m ∷ ms) rows =
    ground (arith, bump-eq-map c ms (bump_one c m rows), counted-bump_one c m ms rows)

-- A delivery of the message to the user.
abbrev pub delivers : Uuid → Uuid → MessageDelivery → Bool
delivers message_id v d = d.message_id == message_id && d.user_id == v

pub any-receivers :
    (u v : Uuid) (ms : List ConversationMember)
    → any (λ m. m.user_id == v) (receivers u ms) ≡ (not (v == u) && any (λ m. m.user_id == v) ms)
any-receivers u v [] = ground arith
any-receivers u v (m ∷ ms) = ground (arith, any-receivers u v ms)

pub any-active :
    (c v : Uuid) (ms : List ConversationMember)
    → any (λ m. m.user_id == v) (filter (active_in c) ms)
      ≡ any (λ m. active_in c m && m.user_id == v) ms
any-active c v [] = refl
any-active c v (m ∷ ms) = ground (arith, any-active c v ms)

none-delivers :
    (id v : Uuid) (ds : List MessageDelivery)
    → any (λ d. d.message_id == id) ds ≡ false
    → any (delivers id v) ds ≡ false
none-delivers id v [] h = refl
none-delivers id v (d ∷ ds) h = ground (arith, none-delivers id v ds)

module _ ⦃o : Orm⦄ where
  any-rows_from :
      (id v : Uuid) (ms : List ConversationMember) (n : ℕ) (now : Date)
      → any (delivers id v) (rows_from (map (sent_to id) ms) n now) ≡ any (λ m. m.user_id == v) ms
  any-rows_from id v [] n now = refl
  any-rows_from id v (m ∷ ms) n now = ground (arith, any-rows_from id v ms (n + 1) now)

module _ ⦃o : Orm⦄ ⦃r : R2⦄ ⦃e : Cipher⦄ where
  abbrev pub ciphered_of : String → Store → Ciphered
  ciphered_of content s = record {
    ciphered_content = (e.encrypt content (e.random_iv s.serial)).0;
    iv = e.random_iv s.serial;
    auth_tag = (e.encrypt content (e.random_iv s.serial)).1;
  }

  -- A message that was sent to a group was stored by the common part of the transactions.
  pub create_group_message-Stored :
      (l : IsOrm o) (u c : Uuid) (content : String) (ids : List Uuid) (s : Store)
      (saved : SavedMessage) (ms : List ConversationMember)
      → (create_group_message u c content ids s).0 ≡ ok (saved, ms)
      → (saved.id ≡ o.uuid s.serial)
        × (ms ≡ filter (active_in c) s.members)
        × Stored u c ms
            (ciphered_of content s)
            s
            (message_of u c (ciphered_of content s) s)
            (create_group_message u c content ids s).1
  unfolding create_group_message store_group_message find_by_id find_member get_members
      cipher_message
  create_group_message-Stored l u c content ids s saved ms h =
      elim (Result-cases (store_message u c members (ciphered_of content s) ids s).0) [
        | inr (x, failed) ↦ absurd (ground (arith, found, committed))
        | inl ((m, as_), stored) ↦
            let (st_m, st_ms, st_ds, st_members, st_new) =
              store_message-Stored l u c members (ciphered_of content s) ids s m as_ stored in
            (
              ground (arith, found, committed),
              ground (arith, found, committed),
              (
                refl,
                ground (arith, found, committed),
                ground (arith, found, committed),
                ground (arith, found, committed),
                st_new,
              ),
            )
      ]
    where
      members : List ConversationMember
      members = o.find ConversationMember (active_in c) s.members

      found : members ≡ filter (active_in c) s.members
      found = l.find_lem ConversationMember (active_in c) s.members

      committed :
          o.transaction Store
            (SavedMessage × List ConversationMember)
            back
            (store_group_message u c members content (ciphered_of content s) ids)
            s
          ≡ roll_back back s (store_group_message u c members content (ciphered_of content s) ids s)
      committed =
          l.transaction_lem Store (SavedMessage × List ConversationMember) back
            (store_group_message u c members content (ciphered_of content s) ids) s

  -- When a message to a group is sent, and no delivery names its new id yet, then a user has a
  -- delivery of it exactly when the user is an active member of the group other than the sender, and
  -- the unread count of each member row of the group has grown by one for each such row of its user;
  -- no other member row has changed.
  pub create_group_message-receivers :
      (l : IsOrm o) (u c : Uuid) (content : String) (ids : List Uuid) (s : Store)
      (saved : SavedMessage) (ms : List ConversationMember) (v : Uuid)
      → (create_group_message u c content ids s).0 ≡ ok (saved, ms)
      → any (λ d. d.message_id == o.uuid s.serial) s.deliveries ≡ false
      → (any (delivers saved.id v) (create_group_message u c content ids s).1.deliveries
          ≡ (not (v == u) && any (λ m. active_in c m && m.user_id == v) s.members))
        × ((create_group_message u c content ids s).1.members
            ≡ map (counted c (receivers u (filter (active_in c) s.members))) s.members)
  create_group_message-receivers l u c content ids s saved ms v h fresh =
      let (same_id, same_ms, stored) = create_group_message-Stored l u c content ids s saved ms h in
      (
        ground (
          arith,
          same_id,
          same_ms,
          stored.2,
          any-append (delivers (o.uuid s.serial) v) s.deliveries (deliveries_of u ms s),
          none-delivers (o.uuid s.serial) v s.deliveries fresh,
          any-rows_from (o.uuid s.serial) v (receivers u ms) (s.serial + 1) s.clock,
          any-receivers u v ms,
          any-active c v s.members,
        ),
        ground (arith, same_ms, stored.3, bump-eq-map c (receivers u ms) s.members),
      )
