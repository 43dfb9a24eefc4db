-- ===== src/Session/Hash.antt =====
-- The exchange hash and the derivation of the keys in esp-idf/src/sshd_session.cpp.
pub mod Derive
pub mod Input
use sshd.Base.{
  ℕ, zero, suc, ◌+◌, ◌-◌, ◌%◌, ◌^◌, Bool, true, false, Bytes, [], ◌∷◌, ◌++◌, ltb, if◌then◌else◌,
  length, take,
}
use sshd.Wire.{put_string, put_cstring, strip_zeros, needs_pad, big_endian_32}
use sshd.Platform.{Platform}
use sshd.Crypto.{sha256}
use sshd.Session.{Session, KexAlg, curve25519_sha256, mlkem768_x25519, ssh_ed25519}
use sshd.Session.Msg

unfoldable pub build_host_key_blob : Bytes → Bytes
build_host_key_blob pub32 = put_string (put_cstring [] ssh_ed25519) pub32

-- A hash context is the string that it was given so far.
unfoldable pub hash_update_k : Bytes → KexAlg → Bytes → Bytes
hash_update_k h mlkem768_x25519 shared_k = h ++ (big_endian_32 32 ++ shared_k)
hash_update_k h curve25519_sha256 shared_k =
    let k = strip_zeros shared_k in
    if needs_pad k
    then h ++ (big_endian_32 ((length k + 1) % 2 ^ 32) ++ (0 ∷ k))
    else h ++ (big_endian_32 (length k % 2 ^ 32) ++ k)

-- The lambda `putString` of `compute_exchange_hash`.
unfoldable pub hash_put_string : Bytes → Bytes → Bytes
hash_put_string h d = h ++ (big_endian_32 (length d % 2 ^ 32) ++ d)

-- The strings of both sides that depend on the algorithm: Q_C and Q_S.
unfoldable pub hash_put_ephemerals : Bytes → KexAlg → Session → Bytes
hash_put_ephemerals h mlkem768_x25519 s =
    hash_put_string (hash_put_string h s.peer_kex_blob) s.our_kex_blob
hash_put_ephemerals h curve25519_sha256 s =
    hash_put_string (hash_put_string h s.peer_eph_pub) s.eph_pub

unfoldable pub exchange_hash_input : Session → Bytes → Bytes
exchange_hash_input s k_blob =
    let h1 = hash_put_string [] s.peer_version in
    let h2 = hash_put_string h1 s.our_version in
    let h3 = hash_put_string h2 s.peer_kex_init in
    let h4 = hash_put_string h3 s.our_kex_init in
    let h5 = hash_put_string h4 k_blob in
    hash_update_k (hash_put_ephemerals h5 s.kex_alg s) s.kex_alg s.shared_k

unfoldable pub compute_exchange_hash : Platform → Session → Bytes → Bytes
compute_exchange_hash env s k_blob = sha256 env (exchange_hash_input s k_blob)

module _ (env : Platform) (s : Session) (letter : ℕ) where
  -- The input of one block: `out` holds what was produced before.
  unfoldable pub block_input : Bool → Bytes → Bytes
  block_input first out =
      let h = hash_update_k [] s.kex_alg s.shared_k ++ s.session_id in
      if first then h ++ (letter ∷ s.session_id) else h ++ out

  -- The `while (produced < outLen)` of `derive_key`, with fuel.
  unfoldable pub derive_loop : ℕ → Bool → Bytes → ℕ → Bytes
  derive_loop zero first out out_len = out
  derive_loop (suc fuel) first out out_len =
      let prev = sha256 env (block_input first out) in
      let left = out_len - length out in
      let more =
        derive_loop fuel false (out ++ take (if ltb 32 left then 32 else left) prev) out_len in
      if ltb (length out) out_len then more else out

  -- Each round produces a byte at least.
  unfoldable pub derive_key : ℕ → Bytes
  derive_key out_len = derive_loop out_len true [] out_len
