-- ===== src/Crypto/Compare.antt =====
-- The constant-time comparison of two tags, `ct_memcmp16`.
use Prim.Native.Nat.{bit_or, bit_xor}
use sshd.Base.{
  Bool-cases, if◌then◌else◌, false, inl, inr, ℕ, zero, suc, ◌+◌, ◌<◌, ◌≡◌, refl, ◌↔◌, Bool, true,
  ◌&&◌, ◌||◌, not, Bytes, IsByte, All, [], ◌∷◌, length, ◌==◌, ==_iff, ltb, ap₂, arith,
}
use sshd.Crypto.{ct_memcmp_from, ct_memcmp16}

-- Every number below the bound passes the test, found out by running it.
passes : (ℕ → Bool) → ℕ → Bool
passes test zero = true
passes test (suc top) = if test top then passes test top else false

passes_at : (test : ℕ → Bool) (bound b : ℕ) → b < bound → passes test bound ≡ true → test b ≡ true
unfolding passes
passes_at test zero b below run = absurd (omega arith)
passes_at test (suc top) b below run = elim (Bool-cases (test top)) [
  | inr fails ↦ absurd (ground (arith, fails))
  | inl here ↦ ground (arith, here, passes_at test top b)
]

passes_pair :
    (test : ℕ → ℕ → Bool)
    → passes (λ x. passes (test x) 256) 256 ≡ true
    → (x y : ℕ) → x < 256
    → y < 256
    → test x y ≡ true
passes_pair test run x y hx hy =
    passes_at (test x) 256 y hy (passes_at (λ z. passes (test z) 256) 256 x hx run)

-- A byte joined to another is a byte, and is 0 only if both are.
abbrev or_fits : ℕ → ℕ → Bool
or_fits x y = ltb (bit_or x y) 256 && (not (bit_or x y == 0) || x + y == 0)

-- A byte differs from another in some bit, unless they are equal.
abbrev xor_fits : ℕ → ℕ → Bool
xor_fits x y = ltb (bit_xor x y) 256 && (not (bit_xor x y == 0) || x == y)

or_table : passes (λ x. passes (or_fits x) 256) 256 ≡ true
unfolding passes
or_table = refl

xor_table : passes (λ x. passes (xor_fits x) 256) 256 ≡ true
unfolding passes
xor_table = refl

or_byte : (x y : ℕ) → x < 256 → y < 256 → (bit_or x y < 256) × (bit_or x y ≡ 0 → x + y ≡ 0)
or_byte x y hx hy = ground (arith, passes_pair or_fits or_table x y hx hy)

xor_byte : (x y : ℕ) → x < 256 → y < 256 → (bit_xor x y < 256) × (bit_xor x y ≡ 0 → x ≡ y)
xor_byte x y hx hy = ground (arith, passes_pair xor_fits xor_table x y hx hy)

pub xor_self : (x : ℕ) → x < 256 → bit_xor x x ≡ 0
xor_self x h =
    (==_iff (bit_xor x x) 0).0 (passes_at (λ z. bit_xor z z == 0) 256 x h (unfold passes in refl))

ct_memcmp_sound :
    (d : ℕ) (xs ys : Bytes)
    → d < 256
    → All IsByte xs
    → All IsByte ys
    → length xs ≡ length ys
    → ct_memcmp_from d xs ys ≡ 0
    → (d ≡ 0) × (xs ≡ ys)
unfolding ct_memcmp_from
ct_memcmp_sound d [] [] hd hx hy l e = (e, refl)
ct_memcmp_sound d [] (y ∷ ys) hd hx hy l e = absurd (omega arith)
ct_memcmp_sound d (x ∷ xs) [] hd hx hy l e = absurd (omega arith)
ct_memcmp_sound d (x ∷ xs) (y ∷ ys) hd hx hy l e =
    let (small, same) = xor_byte x y hx.0 hy.0 in
    let (fits, none_set) = or_byte d (bit_xor x y) hd small in
    let (z, tails) =
      ct_memcmp_sound (bit_or d (bit_xor x y)) xs ys fits hx.1 hy.1 (omega arith) e in
    (
      omega (arith, none_set z),
      ap₂ (λ (a : ℕ) (r : Bytes). a ∷ r) (same (omega (arith, none_set z))) tails,
    )

ct_memcmp_self : (xs : Bytes) → All IsByte xs → ct_memcmp_from 0 xs xs ≡ 0
unfolding ct_memcmp_from
ct_memcmp_self [] h = refl
ct_memcmp_self (x ∷ xs) h = rw (xor_self x h.0) (ct_memcmp_self xs h.1)

-- On byte strings of one length `ct_memcmp16` returns 0 exactly when they are equal.
pub ct_memcmp16_iff :
    (a b : Bytes)
    → All IsByte a
    → All IsByte b
    → length a ≡ length b
    → (ct_memcmp16 a b ≡ 0) ↔ (a ≡ b)
unfolding ct_memcmp16
ct_memcmp16_iff a b ha hb l =
    (λ e. (ct_memcmp_sound 0 a b (omega arith) ha hb l e).1, λ e. rw (← e) (ct_memcmp_self a ha))
