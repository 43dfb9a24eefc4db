-- ===== src/Client/Kex/Keys.antt =====
-- What the keys of `derive_key` in esp-idf/src/ssh_client.cpp depend on.
use sshd.Base.{
  ℕ, zero, suc, ◌-◌, ◌∷◌, ◌++◌, ltb, take, if◌then◌else◌, ◌≡◌, refl, ap, ◌∙◌, Bool, true, false,
  Bytes, [], arith, length,
}
use sshd.Platform.{Platform}
use sshd.Crypto.{sha256}
use sshd.Client.{Csess}
use sshd.Client.Hash.{derive_key, derive_rounds, hash_k}

blk_of : Csess → ℕ → Bool → Bytes → Bytes
blk_of c letter first out =
    let h = hash_k [] c.shared_k ++ c.session_id in
    if first then h ++ (letter ∷ c.session_id) else h ++ out

-- The keys depend on the secret and the session id alone.
derive_rounds_same :
    (env : Platform) (c d : Csess) (letter fuel : ℕ) (first : Bool) (out : Bytes) (out_len : ℕ)
    → c.shared_k ≡ d.shared_k
    → c.session_id ≡ d.session_id
    → derive_rounds env c letter fuel first out out_len
      ≡ derive_rounds env d letter fuel first out out_len
unfolding derive_rounds blk_of
derive_rounds_same env c d letter zero first out out_len k id = refl
derive_rounds_same env c d letter (suc fuel) first out out_len k id =
    let left = out_len - length out in
    let next = λ (b : Bytes). out ++ take (if ltb 32 left then 32 else left) (sha256 env b) in
    let same : blk_of c letter first out ≡ blk_of d letter first out = ground (arith, k, id) in
    ap (λ more. if ltb (length out) out_len then more else out)
      (derive_rounds_same env c d letter fuel false (next (blk_of c letter first out)) out_len k id
        ∙ ap (λ b. derive_rounds env d letter fuel false (next b) out_len) same)

pub derive_key_same :
    (env : Platform) (c d : Csess) (letter out_len : ℕ)
    → c.shared_k ≡ d.shared_k
    → c.session_id ≡ d.session_id
    → derive_key env c letter out_len ≡ derive_key env d letter out_len
unfolding derive_key
derive_key_same env c d letter out_len k id =
    derive_rounds_same env c d letter out_len true [] out_len k id
