-- ===== src/Client/Hash.antt =====
-- The exchange hash and the derivation of the keys in esp-idf/src/ssh_client.cpp.
pub mod Agree
use sshd.Base.{
  ℕ, zero, suc, ◌+◌, ◌-◌, ◌%◌, ◌^◌, Bool, true, false, Bytes, [], ◌∷◌, ◌++◌, ltb, if◌then◌else◌,
  length, take,
}
use sshd.Wire.{strip_zeros, needs_pad, big_endian_32}
use sshd.Platform.{Platform}
use sshd.Crypto.{sha256}
use sshd.Client.{Csess}

-- A hash context is the string that it was given so far.
unfoldable pub hash_k : Bytes → Bytes → Bytes
hash_k h shared_k =
    let k = strip_zeros shared_k in
    if needs_pad k
    then h ++ (big_endian_32 ((length k + 1) % 2 ^ 32) ++ (0 ∷ k))
    else h ++ (big_endian_32 (length k % 2 ^ 32) ++ k)

unfoldable pub hash_string : Bytes → Bytes → Bytes
hash_string h d = h ++ (big_endian_32 (length d % 2 ^ 32) ++ d)

unfoldable pub compute_exchange_hash : Platform → Csess → Bytes → Bytes
compute_exchange_hash env c k_blob =
    let h1 = hash_string [] c.our_version in
    let h2 = hash_string h1 c.peer_version in
    let h3 = hash_string h2 c.our_kex_init in
    let h4 = hash_string h3 c.peer_kex_init in
    let h5 = hash_string h4 k_blob in
    let h6 = hash_string (hash_string h5 c.eph_pub) c.peer_eph_pub in
    sha256 env (hash_k h6 c.shared_k)

module _ (env : Platform) (c : Csess) (letter : ℕ) where
  -- The `while (produced < outLen)` of `derive_key`, with fuel; `out` is what was produced before.
  unfoldable pub derive_rounds : ℕ → Bool → Bytes → ℕ → Bytes
  derive_rounds zero first out out_len = out
  derive_rounds (suc fuel) first out out_len =
      let h = hash_k [] c.shared_k ++ c.session_id in
      let blk = sha256 env (if first then h ++ (letter ∷ c.session_id) else h ++ out) in
      let left = out_len - length out in
      let more =
        derive_rounds fuel false (out ++ take (if ltb 32 left then 32 else left) blk) out_len in
      if ltb (length out) out_len then more else out

  -- Each round produces a byte at least.
  unfoldable pub derive_key : ℕ → Bytes
  derive_key out_len = derive_rounds out_len true [] out_len
