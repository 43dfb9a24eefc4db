-- ===== src/Client/Hash/Agree.antt =====
-- The two sides of one exchange compute the same hash and the same keys.
use sshd.Base.{
  ℕ, zero, suc, ◌-◌, ◌≡◌, refl, ap, ◌∙◌, Bool, true, false, [], ◌∷◌, Bytes, ◌++◌, ltb,
  if◌then◌else◌, length, take, arith,
}
use sshd.Platform.{Platform}
use sshd.Crypto.{sha256}
use sshd.Session.{Session, World, curve25519_sha256}
use sshd.Session.Hash
use sshd.Session.Hash.{
  hash_update_k, hash_put_string, hash_put_ephemerals, exchange_hash_input, block_input,
  derive_loop,
}
use sshd.Session.Kex.{derive_session_keys}
use sshd.Client.{Csess}
use sshd.Client.Hash.{hash_k, hash_string, compute_exchange_hash, derive_rounds, derive_key}

-- One classical exchange, seen by both sides: each has the other's version, KEXINIT and ephemeral key
-- as its peer's.
pub record SameExchange (c : Csess) (s : Session) : Type 0 where
  pub alg : s.kex_alg ≡ curve25519_sha256
  pub client_version : s.peer_version ≡ c.our_version
  pub server_version : s.our_version ≡ c.peer_version
  pub client_kex_init : s.peer_kex_init ≡ c.our_kex_init
  pub server_kex_init : s.our_kex_init ≡ c.peer_kex_init
  pub client_eph : s.peer_eph_pub ≡ c.eph_pub
  pub server_eph : s.eph_pub ≡ c.peer_eph_pub
  pub secret : s.shared_k ≡ c.shared_k

hash_k-hash_update_k : (h k : Bytes) → hash_k h k ≡ hash_update_k h curve25519_sha256 k
unfolding hash_k hash_update_k
hash_k-hash_update_k h k = refl

hash_string-hash_put_string : (h d : Bytes) → hash_string h d ≡ hash_put_string h d
unfolding hash_string hash_put_string
hash_string-hash_put_string h d = refl

-- In one classical exchange the client hashes, for every host key blob, what the server hashes.
pub compute_exchange_hash_agrees :
    (env : Platform) (c : Csess) (s : Session) (k_blob : Bytes)
    → SameExchange c s
    → compute_exchange_hash env c k_blob ≡ Hash.compute_exchange_hash env s k_blob
unfolding compute_exchange_hash Hash.compute_exchange_hash exchange_hash_input hash_put_ephemerals
    hash_string hash_put_string hash_k hash_update_k
compute_exchange_hash_agrees env c s k_blob same = ground (
  arith, same.alg, same.client_version, same.server_version, same.client_kex_init,
  same.server_kex_init, same.client_eph, same.server_eph, same.secret,
)

-- The input of one block of the client's.
blk_input : Csess → ℕ → Bool → Bytes → Bytes
blk_input c letter first out =
    let h = hash_k [] c.shared_k ++ c.session_id in
    if first then h ++ (letter ∷ c.session_id) else h ++ out

blk_input-block_input :
    (env : Platform) (c : Csess) (s : Session) (letter : ℕ) (first : Bool) (out : Bytes)
    → s.kex_alg ≡ curve25519_sha256
    → s.shared_k ≡ c.shared_k
    → s.session_id ≡ c.session_id
    → blk_input c letter first out ≡ block_input env s letter first out
unfolding blk_input block_input
blk_input-block_input env c s letter first out alg secret id =
    ground (arith, alg, secret, id, hash_k-hash_update_k [] c.shared_k)

derive_rounds-derive_loop :
    (env : Platform) (c : Csess) (s : Session) (letter fuel : ℕ) (first : Bool) (out : Bytes)
    (out_len : ℕ)
    → s.kex_alg ≡ curve25519_sha256
    → s.shared_k ≡ c.shared_k
    → s.session_id ≡ c.session_id
    → derive_rounds env c letter fuel first out out_len
      ≡ derive_loop env s letter fuel first out out_len
unfolding derive_rounds derive_loop blk_input
derive_rounds-derive_loop env c s letter zero first out out_len alg secret id = refl
derive_rounds-derive_loop env c s letter (suc fuel) first out out_len alg secret id =
    let left = out_len - length out in
    let next = λ (b : Bytes). out ++ take (if ltb 32 left then 32 else left) (sha256 env b) in
    let same = blk_input-block_input env c s letter first out alg secret id in
    ap (λ more. if ltb (length out) out_len then more else out)
      (derive_rounds-derive_loop env c s letter fuel false (next (blk_input c letter first out))
          out_len alg secret id
        ∙ ap (λ b. derive_loop env s letter fuel false (next b) out_len) same)

-- When both sides have the same secret and the same session id from a classical exchange, the client's
-- key for what it sends and its key for what it receives are the keys with which the server, after
-- `derive_session_keys`, receives and sends.
pub derive_session_keys_agree :
    (env : Platform) (c : Csess) (w : World)
    → w.session.kex_alg ≡ curve25519_sha256
    → w.session.shared_k ≡ c.shared_k
    → w.session.session_id ≡ c.session_id
    → (derive_key env c b'C' 64 ≡ (derive_session_keys env w).session.c2s_key)
      × (derive_key env c b'D' 64 ≡ (derive_session_keys env w).session.s2c_key)
unfolding derive_key Hash.derive_key derive_session_keys
derive_session_keys_agree env c w alg secret id = (
  derive_rounds-derive_loop env c w.session b'C' 64 true [] 64 alg secret id,
  derive_rounds-derive_loop env c
      (record w.session { c2s_key = Hash.derive_key env w.session b'C' 64 }) b'D' 64 true [] 64 alg
      secret id,
)
