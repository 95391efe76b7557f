-- ===== src/Keys.antt =====
-- security/keys.py and security/encryption.py. SHA-256, the random token and Base64 are the
-- standard library's: the interface `KeyPrimitives`.
use Prim.Native.String.{◌++◌ as str_append}
use claude_code_proxy.Prelude.{ℕ, String, not, ◌≡◌, if◌then◌else◌}
use claude_code_proxy.Exec.{Exec, Result, ok, raised, other, ◌>>=◌, pure}
use claude_code_proxy.Text.Laws.{has_prefix-append, drop_chars-append}
use claude_code_proxy.Text.{has_prefix, take_chars, drop_chars, count_chars}

abbrev pub virtual_key_prefix : String
virtual_key_prefix = "vk_"

abbrev pub visible_key_prefix_length : ℕ
visible_key_prefix_length = 12

-- get_virtual_key_prefix
unfoldable pub get_virtual_key_prefix : String → String
get_virtual_key_prefix virtual_key = take_chars visible_key_prefix_length virtual_key

-- generate_virtual_key, from the token that `secrets.token_urlsafe` gives
module _ {W : Type 0} (token_urlsafe : ℕ → Exec W String) where
  unfoldable pub generate_virtual_key : Exec W String
  generate_virtual_key = do token ← token_urlsafe 24; pure (str_append virtual_key_prefix token)

abbrev encryption_prefix : String
encryption_prefix = "enc::"

-- SimpleEnvelopeEncryption, over `urlsafe_b64encode` of the UTF-8 bytes and its inverse
module _ (b64encode : String → String) (b64decode : String → Result String) where
  unfoldable pub encrypt : String → String
  encrypt plaintext = str_append encryption_prefix (b64encode plaintext)

  unfoldable pub decrypt : String → Result String
  decrypt ciphertext =
      if not (has_prefix encryption_prefix ciphertext)
      then raised (other "ValueError")
      else b64decode (drop_chars (count_chars encryption_prefix) ciphertext)

  -- What is encrypted is decrypted again, if Base64 decodes what it encodes.
  pub decrypt-encrypt :
      (plaintext : String)
      → b64decode (b64encode plaintext) ≡ ok plaintext
      → decrypt (encrypt plaintext) ≡ ok plaintext
  unfolding encrypt decrypt
  decrypt-encrypt plaintext h =
      rw
        (
          has_prefix-append encryption_prefix (b64encode plaintext),
          drop_chars-append encryption_prefix (b64encode plaintext),
        )
        h
