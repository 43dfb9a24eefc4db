-- ===== src/Session/Hash/Derive.antt =====
-- `derive_key` against the key stream of RFC 4253, section 7.2.
use sshd.Base.{
  ℕ, zero, suc, ◌+◌, ◌-◌, ◌*◌, ◌≤◌, ◌≡◌, refl, sym, ap, ap₂, ◌∙◌, Bool, true, false, Bytes, [], ◌∷◌,
  ◌++◌, ltb, length, take, length-append, length-take, take-append_le, take_all, take_past,
  Bool-cases, inl, inr, length-out_array, arith,
}
use native.Mathlib.Nat.{zero-add, suc-add, add_comm}
use sshd.Platform.{Platform}
use sshd.Crypto.{sha256}
use sshd.Session.{Session}
use sshd.Session.Hash.Input.{put_secret, secret_lem}
use sshd.Session.Hash.{hash_update_k, block_input, derive_loop, derive_key}

-- The key stream of RFC 4253, section 7.2, for a text of K, the exchange hash H of the exchange and the
-- session id: K1 = HASH(K || H || X || session_id), K(n+1) = HASH(K || H || K1 || … || Kn), and the
-- stream is K1 || K2 || ….
module _ (env : Platform) (k_text exchange_hash session_id : Bytes) (letter : ℕ) where
  stream_block : ℕ → Bytes → Bytes
  stream_block zero before = sha256 env (k_text ++ exchange_hash ++ (letter ∷ session_id))
  stream_block (suc k) before = sha256 env (k_text ++ exchange_hash ++ before)

  pub key_stream : ℕ → Bytes
  key_stream zero = []
  key_stream (suc k) = key_stream k ++ stream_block k (key_stream k)

module _ (env : Platform) (s : Session) (letter : ℕ) where
  -- The stream of the code, with the session id for H.
  own_block : ℕ → Bytes → Bytes
  own_block zero before =
      sha256 env (hash_update_k [] s.kex_alg s.shared_k ++ s.session_id ++ (letter ∷ s.session_id))
  own_block (suc k) before =
      sha256 env (hash_update_k [] s.kex_alg s.shared_k ++ s.session_id ++ before)

  own_stream : ℕ → Bytes
  own_stream zero = []
  own_stream (suc k) = own_stream k ++ own_block k (own_stream k)

  own_stream-suc : (k : ℕ) → own_stream (suc k) ≡ own_stream k ++ own_block k (own_stream k)
  unfolding own_stream
  own_stream-suc k = refl

  length-own_block : (k : ℕ) (before : Bytes) → length (own_block k before) ≡ 32
  unfolding own_block sha256
  length-own_block zero before = length-out_array 32 _
  length-own_block (suc k) before = length-out_array 32 _

  length-own_stream : (k : ℕ) → length (own_stream k) ≡ 32 * k
  unfolding own_stream
  length-own_stream zero = omega arith
  length-own_stream (suc k) = omega (
    arith,
    length-append (own_stream k) (own_block k (own_stream k)),
    length-own_stream k,
    length-own_block k (own_stream k),
  )

  -- A longer stream begins with a shorter one.
  take-own_stream : (n k j : ℕ) → n ≤ 32 * k → take n (own_stream (j + k)) ≡ take n (own_stream k)
  unfolding own_stream
  take-own_stream n k zero h = ap (λ m. take n (own_stream m)) (zero-add k)
  take-own_stream n k (suc j) h =
      ap (λ m. take n (own_stream m)) (suc-add j k)
      ∙ take-append_le n (own_stream (j + k)) (own_block (j + k) (own_stream (j + k)))
          (omega (arith, length-own_stream (j + k)))
      ∙ take-own_stream n k j h

  abbrev is_first : ℕ → Bool
  is_first zero = true
  is_first (suc k) = false

  block_input_lem :
      (k : ℕ)
      → sha256 env (block_input env s letter (is_first k) (own_stream k))
        ≡ own_block k (own_stream k)
  unfolding block_input own_block
  block_input_lem zero = refl
  block_input_lem (suc k) = refl

  -- Two streams that are long enough begin alike.
  same_prefix :
      (n k m : ℕ) → n ≤ 32 * k → n ≤ 32 * m → take n (own_stream k) ≡ take n (own_stream m)
  same_prefix n k m hk hm =
      sym (take-own_stream n k m hk)
      ∙ ap (λ i. take n (own_stream i)) (add_comm m k)
      ∙ take-own_stream n m k hm

  whole_stream : (n k m : ℕ) → n ≡ 32 * k → n ≤ 32 * m → own_stream k ≡ take n (own_stream m)
  whole_stream n k m e hm =
      sym (take_all n (own_stream k) (omega (arith, length-own_stream k)))
      ∙ same_prefix n k m (omega arith) hm

  derive_loop_done :
      (fuel : ℕ) (first : Bool) (out : Bytes) (n : ℕ)
      → n ≤ length out
      → derive_loop env s letter fuel first out n ≡ out
  unfolding derive_loop
  derive_loop_done zero first out n h = refl
  derive_loop_done (suc fuel) first out n h = ground arith

  last_block :
      (n k m : ℕ)
      → 32 * k ≤ n
      → n - 32 * k ≤ 32
      → n ≤ 32 * m
      → own_stream k ++ take (n - 32 * k) (own_block k (own_stream k)) ≡ take n (own_stream m)
  last_block n k m lo hi hm =
      sym (take_past (own_stream k) (own_block k (own_stream k)) (n - 32 * k))
      ∙ ap₂ take
          (let e : length (own_stream k) + (n - 32 * k) ≡ n = omega (arith, length-own_stream k) in
            e)
          (sym (own_stream-suc k))
      ∙ same_prefix n (suc k) m (omega arith) hm

  last_block_long :
      (n k : ℕ)
      → 32 * k ≤ n
      → n - 32 * k ≤ 32
      → n ≤ length (own_stream k ++ take (n - 32 * k) (own_block k (own_stream k)))
  last_block_long n k lo hi = omega (
    arith,
    length-append (own_stream k) (take (n - 32 * k) (own_block k (own_stream k))),
    length-take (n - 32 * k) (own_block k (own_stream k)),
    length-own_block k (own_stream k),
    length-own_stream k,
  )

  derive_loop-stream :
      (fuel k n m : ℕ)
      → 32 * k ≤ n
      → n ≤ 32 * k + fuel
      → n ≤ 32 * m
      → derive_loop env s letter fuel (is_first k) (own_stream k) n ≡ take n (own_stream m)
  unfolding derive_loop
  derive_loop-stream zero k n m lo hi hm = whole_stream n k m (omega arith) hm
  derive_loop-stream (suc fuel) k n m lo hi hm =
      let len = length-own_stream k in
      elim (Bool-cases (ltb (length (own_stream k)) n)) [
        | inr done ↦ rw done (whole_stream n k m (ground (arith, len)) hm)
        | inl more ↦ elim (Bool-cases (ltb 32 (n - length (own_stream k)))) [
          | inl full ↦
              rw (more, full, block_input_lem k)
                (ap (λ t. derive_loop env s letter fuel false (own_stream k ++ t) n)
                    (take_all 32 (own_block k (own_stream k))
                      (omega (arith, length-own_block k (own_stream k))))
                  ∙ ap (λ t. derive_loop env s letter fuel false t n) (sym (own_stream-suc k))
                  ∙ derive_loop-stream fuel (suc k) n m (ground (arith, len)) (omega arith) hm)
          | inr part ↦
              rw (more, part, block_input_lem k, len)
                (derive_loop_done fuel false
                    (own_stream k ++ take (n - 32 * k) (own_block k (own_stream k))) n
                    (last_block_long n k lo (ground (arith, len)))
                  ∙ last_block n k m lo (ground (arith, len)) hm)
        ]
      ]

  derive_key_lem : (n m : ℕ) → n ≤ 32 * m → derive_key env s letter n ≡ take n (own_stream m)
  unfolding derive_key own_stream
  derive_key_lem n m h = derive_loop-stream n 0 n m (omega arith) (omega arith) h

  own_stream_lem :
      (k : ℕ)
      → own_stream k
        ≡ key_stream env (hash_update_k [] s.kex_alg s.shared_k) s.session_id s.session_id letter k
  unfolding own_stream own_block key_stream stream_block
  own_stream_lem zero = refl
  own_stream_lem (suc zero) = refl
  own_stream_lem (suc (suc k)) = ap (λ t. t ++ own_block (suc k) t) (own_stream_lem (suc k))

  -- For a shared secret of 32 bytes, and where the exchange hash is the session id, as in a first
  -- exchange: a derived key of n bytes is the first n bytes of the RFC's key stream, with K as an mpint in a
  -- classical exchange and as a string in a hybrid one, for every stream that is long enough; and it has
  -- exactly n bytes.
  pub derive_key-stream :
      (exchange_hash : Bytes) (n m : ℕ)
      → length s.shared_k ≡ 32
      → exchange_hash ≡ s.session_id
      → n ≤ 32 * m
      → (derive_key env s letter n
          ≡ take n (
              key_stream env
                (put_secret s.kex_alg [] s.shared_k)
                exchange_hash
                s.session_id
                letter
                m))
        × (length (derive_key env s letter n) ≡ n)
  derive_key-stream exchange_hash n m size first h = (
    derive_key_lem n m h
        ∙ ap (take n) (own_stream_lem m)
        ∙ ap₂ (λ k e. take n (key_stream env k e s.session_id letter m))
            (secret_lem s.kex_alg [] s.shared_k size) (sym first),
    rw (derive_key_lem n m h) (omega (arith, length-take n (own_stream m), length-own_stream m)),
  )
