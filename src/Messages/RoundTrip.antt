-- ===== src/Messages/RoundTrip.antt =====
-- The content of a stored message.
use messinger_backend.Prelude.{Any, ◌≡◌, true, some, List, arith, ◌==◌, subst, String}
use messinger_backend.Prelude.Rows.{last_with}
use messinger_backend.Types.{Uuid}
use messinger_backend.Exceptions.{ok}
use messinger_backend.Entities.{ConversationMember, Message}
use messinger_backend.Orm.{Orm, IsOrm, Found}
use messinger_backend.R2.{R2}
use messinger_backend.Cipher.{Cipher, IsCipher}
use messinger_backend.Store.{Store}
use messinger_backend.Messages.Sending.{SavedMessage, create_group_message, decipher_message}
use messinger_backend.Messages.Stored.{message_of}
use messinger_backend.Messages.Receivers.{ciphered_of, create_group_message-Stored}

module _ ⦃o : Orm⦄ ⦃r : R2⦄ ⦃e : Cipher⦄ where
  decipher_ciphered :
      (k : IsCipher e) (content : String) (s t : Store)
      → decipher_message
          (ciphered_of content s).ciphered_content
          (ciphered_of content s).iv
          (ciphered_of content s).auth_tag
          t
        ≡ (ok content, t)
  unfolding decipher_message
  decipher_ciphered k content s t = ground (arith, k.decrypt-encrypt content (e.random_iv s.serial))

  -- When a message to a group is sent, whatever row of the messages `findOne` finds by its id
  -- deciphers to the content that was sent.
  pub decipher_message-create_group_message :
      (l : IsOrm o) (k : IsCipher e) (u c : Uuid) (content : String) (ids : List Uuid) (s t : Store)
      (saved : SavedMessage) (ms : List ConversationMember) (m : Message)
      → (create_group_message u c content ids s).0 ≡ ok (saved, ms)
      → o.find_one Message
          (λ x. x.id == saved.id)
          (create_group_message u c content ids s).1.messages
        ≡ some m
      → decipher_message m.ciphered_content m.iv m.auth_tag t ≡ (ok content, t)
  decipher_message-create_group_message l k u c content ids s t saved ms m h f =
      let (same_id, same_ms, stored) = create_group_message-Stored l u c content ids s saved ms h in
      let (has_id, inside) =
        subst (Found (λ x. x.id == saved.id) after.messages) f
          (l.find_one-Found Message (λ x. x.id == saved.id) after.messages) in
      let same : m ≡ m0 =
        last_with (λ x. x.id == o.uuid s.serial) s.messages m0 m stored.4
          (subst (λ id. (m.id == id) ≡ true) same_id has_id)
          (subst (λ rows. Any (λ x. x ≡ m) rows) stored.1 inside) in
      rw same (decipher_ciphered k content s t)
    where
      after : Store
      after = (create_group_message u c content ids s).1

      m0 : Message
      m0 = message_of u c (ciphered_of content s) s
