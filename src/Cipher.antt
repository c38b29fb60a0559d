-- ===== src/Cipher.antt =====
-- AES-256-GCM of node's crypto under `env.MESSAGE_ENCRYPTION_KEY`, a parameter. The texts stand for
-- their base64.
use messinger_backend.Prelude.{ℕ, ◌≡◌, refl, String, Option, some}

pub record Cipher : Type 0 where
  -- `randomBytes(12)` at a state of the generator.
  pub random_iv : ℕ → String
  -- The ciphered content and the tag, for a content and an initialisation vector.
  pub encrypt : String → String → String × String
  -- `decipher.final()`, or `none` if it throws, for a ciphered content, a vector and a tag.
  pub decrypt : String → String → String → Option String

pub record IsCipher (c : Cipher) : Type 0 where
  pub decrypt-encrypt :
      (content iv : String)
      → c.decrypt (c.encrypt content iv).0 iv (c.encrypt content iv).1 ≡ some content

abbrev pub plain_cipher : Cipher
plain_cipher = record {
  random_iv = λ n. "iv";
  encrypt = λ content iv. (content, "tag");
  decrypt = λ ciphered iv tag. some ciphered;
}

pub plain_cipher-IsCipher : IsCipher plain_cipher
plain_cipher-IsCipher = record { decrypt-encrypt = λ content iv. refl }
