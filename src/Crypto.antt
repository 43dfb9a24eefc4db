-- ===== src/Crypto.antt =====
-- esp-idf/src/sshd_crypto.cpp: the wrappers of the cryptographic libraries.
pub mod Compare
pub mod Aead
pub mod Base64
use Prim.Native.Nat.{bit_and, bit_or, bit_xor}
use mathlib.Core.List.{reverse}
use sshd.Base.{
  ℕ, zero, suc, ◌+◌, ◌-◌, ◌*◌, ◌/◌, ◌%◌, ◌^◌, Bool, true, false, not, ◌&&◌, ◌==◌, Option, none,
  some, Bytes, List, [], ◌∷◌, ◌++◌, if◌then◌else◌, length, replicate, out_array,
}
use sshd.Platform.{Platform}

-- `d |= a[i] ^ b[i]` over two arrays of 16 bytes.
unfoldable pub ct_memcmp_from : ℕ → Bytes → Bytes → ℕ
ct_memcmp_from d [] ys = d
ct_memcmp_from d (x ∷ xs) [] = d
ct_memcmp_from d (x ∷ xs) (y ∷ ys) = ct_memcmp_from (bit_or d (bit_xor x y)) xs ys

unfoldable pub ct_memcmp16 : Bytes → Bytes → ℕ
ct_memcmp16 a b = ct_memcmp_from 0 a b

-- The bytes of a `uint64_t`, most significant first, behind four zero bytes.
unfoldable pub seq_to_nonce : ℕ → Bytes
seq_to_nonce seq =
    0
    ∷ 0
    ∷ 0
    ∷ 0
    ∷ seq / 2 ^ 56 % 256
    ∷ seq / 2 ^ 48 % 256
    ∷ seq / 2 ^ 40 % 256
    ∷ seq / 2 ^ 32 % 256
    ∷ seq / 2 ^ 24 % 256
    ∷ seq / 2 ^ 16 % 256
    ∷ seq / 2 ^ 8 % 256
    ∷ seq % 256
    ∷ []

-- `scalar_le[0] &= 248; scalar_le[31] &= 127; scalar_le[31] |= 64;`, the index counted down.
unfoldable pub clamp_last : ℕ → Bytes → Bytes
clamp_last i [] = []
clamp_last zero (x ∷ r) = bit_or (bit_and x 127) 64 ∷ r
clamp_last (suc i) (x ∷ r) = x ∷ clamp_last i r

unfoldable pub clamp_scalar : Bytes → Bytes
clamp_scalar [] = []
clamp_scalar (x ∷ r) = bit_and x 248 ∷ clamp_last 30 r

-- `u_le[31] &= 0x7F`
unfoldable pub mask_last : ℕ → Bytes → Bytes
mask_last i [] = []
mask_last zero (x ∷ r) = bit_and x 0x7f ∷ r
mask_last (suc i) (x ∷ r) = x ∷ mask_last i r

-- The loop that strips the trailing '='.
unfoldable pub strip_last : ℕ → Bytes → Bytes
strip_last c [] = if c == b'=' then [] else c ∷ []
strip_last c (x ∷ r) = c ∷ x ∷ r

unfoldable pub strip_equals : Bytes → Bytes
strip_equals [] = []
strip_equals (c ∷ r) = strip_last c (strip_equals r)

module _ (env : Platform) where
  open env use {
    sha256 as mbedtls_sha256, chacha20, chacha20_fails, poly1305, poly1305_fails, curve25519_mul,
    kem_enc, ed25519_keypair, stale,
  }

  unfoldable pub sha256 : Bytes → Bytes
  sha256 message = out_array 32 (mbedtls_sha256 message)

  unfoldable pub x25519_compute : Bytes → Option Bytes → Option Bytes
  x25519_compute scalar none = elim (curve25519_mul (reverse (clamp_scalar scalar)) none) [
    | none ↦ none
    | some r_be ↦ some (reverse (out_array 32 r_be))
  ]
  x25519_compute scalar (some point) =
      elim (curve25519_mul (reverse (clamp_scalar scalar)) (some (reverse (mask_last 31 point)))) [
        | none ↦ none
        | some r_be ↦ some (reverse (out_array 32 r_be))
      ]

  unfoldable pub x25519_base : Bytes → Option Bytes
  x25519_base scalar = x25519_compute scalar none

  unfoldable pub x25519_scalar : Bytes → Bytes → Option Bytes
  x25519_scalar scalar point = x25519_compute scalar (some point)

  unfoldable pub mlkem768_encap : Bytes → Option (Bytes × Bytes)
  mlkem768_encap pk = elim (kem_enc pk) [
    | none ↦ none
    | some (ct, ss) ↦ some (out_array 1088 ct, out_array 32 ss)
  ]

  unfoldable pub ed25519_pub_from_seed : Bytes → Option Bytes
  ed25519_pub_from_seed seed = some (out_array 32 (ed25519_keypair seed).0)

  unfoldable pub ed25519_sign : Bytes → Bytes → Option Bytes
  ed25519_sign seed msg = some (
      out_array 64 (
        env.ed25519_sign msg (out_array 32 (ed25519_keypair seed).0)
          (out_array 64 (ed25519_keypair seed).1)))

  unfoldable pub ed25519_verify : Bytes → Bytes → Bytes → Bool
  ed25519_verify pub32 msg sig = env.ed25519_verify sig msg pub32

  unfoldable pub cc20p1305_length : Bytes → ℕ → Bytes → Bytes
  cc20p1305_length k1 seq in4 = out_array 4 (chacha20 k1 (seq_to_nonce seq) 0 in4)

  -- `false` is `none`.
  unfoldable pub poly1305_tag : Bytes → Bytes → Bytes → Bytes → Option Bytes
  poly1305_tag k2 nonce aad ct =
      let pkey = out_array 32 (chacha20 k2 nonce 0 (replicate 32 0)) in
      if poly1305_fails pkey (aad ++ ct)
      then none
      else some (out_array 16 (poly1305 pkey (aad ++ ct)))

  -- The result, the output and the tag. The sender does not look at the result: where the call
  -- fails, the tag is what the array held before.
  unfoldable pub cc20p1305_seal : Bytes → ℕ → Bytes → Bytes → Bool × Bytes × Bytes
  cc20p1305_seal k2 seq aad inner =
      let nonce = seq_to_nonce seq in
      let out = out_array (length inner) (chacha20 k2 nonce 1 inner) in
      let unwritten = out_array 16 (stale 16) in
      if chacha20_fails k2 nonce 1 inner
      then (false, out, unwritten)
      else elim (poly1305_tag k2 nonce aad out) [
        | none ↦ (false, out, unwritten)
        | some tag ↦ (true, out, tag)
      ]

  unfoldable pub cc20p1305_open : Bytes → ℕ → Bytes → Bytes → Bytes → Option Bytes
  cc20p1305_open k2 seq aad inner tag =
      let nonce = seq_to_nonce seq in
      elim (poly1305_tag k2 nonce aad inner) [
        | none ↦ none
        | some want ↦
            if not (ct_memcmp16 want tag == 0)
            then none
            else (if chacha20_fails k2 nonce 1 inner
                then none
                else some (out_array (length inner) (chacha20 k2 nonce 1 inner)))
      ]

  -- The text in the output array of `out_len` bytes.
  unfoldable pub base64_nopad : Bytes → ℕ → Bytes
  base64_nopad input out_len = elim (env.base64_encode input out_len) [
    | none ↦ []
    | some text ↦ strip_equals text
  ]
