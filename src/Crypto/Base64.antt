-- ===== src/Crypto/Base64.antt =====
-- What is documented of base64 in mbedTLS, for the texts of keys in esp-idf/src/sshd.cpp and
-- ssh_client.cpp.
use sshd.Base.{ℕ, ◌≤◌, ◌<◌, ◌≡◌, ◌==◌, false, some, Bytes, All, length}
use sshd.Platform.{Platform}

-- The documented facts about base64 in mbedTLS: a text that was encoded has no space, is not empty
-- for bytes that are not, is the same in an output with more room, and is decoded back where the
-- output has room.
pub record Base64 (env : Platform) : Type 0 where
  pub decode-encode :
      (bytes text : Bytes) (n m : ℕ)
      → env.base64_encode bytes n ≡ some text
      → length bytes ≤ m
      → env.base64_decode text m ≡ some bytes
  pub no_space :
      (bytes text : Bytes) (n : ℕ)
      → env.base64_encode bytes n ≡ some text
      → All (λ c. (c == b' ') ≡ false) text
  pub not_empty :
      (bytes text : Bytes) (n : ℕ)
      → env.base64_encode bytes n ≡ some text
      → 0 < length bytes
      → 0 < length text
  pub more_room :
      (bytes text : Bytes) (n m : ℕ)
      → env.base64_encode bytes n ≡ some text
      → n ≤ m
      → env.base64_encode bytes m ≡ some text
