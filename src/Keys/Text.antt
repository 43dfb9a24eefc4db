-- ===== src/Keys/Text.antt =====
-- Numbers as text, and trimmed lines.
use sshd.Base.{
  ℕ, zero, suc, ◌+◌, ◌-◌, ◌*◌, ◌/◌, ◌%◌, ◌≤◌, ◌<◌, ◌≡◌, refl, sym, ap, ◌∙◌, ◌⊎◌, inl, inr, false,
  ◌==◌, Bytes, [], ◌∷◌, Bool-cases, arith,
}
use sshd.Keys.{
  is_space, trim_front, trim_last, trim_back, key_normalize, decimal_from, decimal, digits_value,
  signed_value, max_int, atoi,
}

-- ---- numbers ----

one_digit : (n : ℕ) (acc : Bytes) → digits_value (n / 10) ((48 + n % 10) ∷ acc) ≡ digits_value n acc
unfolding digits_value
one_digit n acc =
    let whole : n / 10 * 10 + (48 + n % 10 - 48) ≡ n = omega arith in
    ground (arith, ap (λ k. digits_value k acc) whole)

digits_value-decimal_from :
    (fuel n : ℕ) (acc : Bytes)
    → n ≤ fuel
    → digits_value 0 (decimal_from fuel n acc) ≡ digits_value n acc
unfolding decimal_from
digits_value-decimal_from zero n acc h = ap (λ k. digits_value k acc) (omega arith)
digits_value-decimal_from (suc fuel) n acc h = elim (Bool-cases (n == 0)) [
  | inl none_left ↦ ground (arith, none_left)
  | inr more ↦ ground (
    arith,
    more,
    digits_value-decimal_from fuel (n / 10) ((48 + n % 10) ∷ acc) (ground (arith, more)),
    one_digit n acc,
  )
]

decimal_from_zero : (fuel n : ℕ) (acc : Bytes) → n ≡ 0 → decimal_from fuel n acc ≡ acc
unfolding decimal_from
decimal_from_zero zero n acc e = refl
decimal_from_zero (suc fuel) n acc e = ground arith

decimal_from-digit :
    (fuel n : ℕ) (acc : Bytes)
    → 0 < n
    → n ≤ fuel
    → (c : ℕ) × (r : Bytes) × (decimal_from fuel n acc ≡ c ∷ r) × (48 ≤ c) × (c ≤ 57)
unfolding decimal_from
decimal_from-digit zero n acc some_left h = absurd (omega arith)
decimal_from-digit (suc fuel) n acc some_left h = elim (Bool-cases (n / 10 == 0)) [
  | inl last ↦ (
    48 + n % 10,
    acc,
    ground (arith, last, decimal_from_zero fuel (n / 10) ((48 + n % 10) ∷ acc)),
    omega arith,
    omega arith,
  )
  | inr more ↦
      let (c, r, e, lo, hi) =
        decimal_from-digit fuel (n / 10) ((48 + n % 10) ∷ acc) (ground (arith, more))
          (omega arith) in
      (c, r, ground (arith, e), lo, hi)
]

atoi_digit :
    (c n : ℕ) (r : Bytes)
    → 48 ≤ c
    → c ≤ 57
    → digits_value 0 (c ∷ r) ≡ n
    → n ≤ max_int
    → atoi (c ∷ r) ≡ n
unfolding atoi trim_front signed_value
atoi_digit c n r lo hi e fits = ground (arith, e)

-- `atoi` reads back what `%d` writes.
pub atoi-decimal : (n : ℕ) → 0 < n → n ≤ max_int → atoi (decimal n) ≡ n
unfolding decimal
atoi-decimal n h fits =
    let (c, r, e, lo, hi) = decimal_from-digit n n [] h (omega arith) in
    ap atoi e
    ∙ atoi_digit c n r lo hi
        (ap (digits_value 0) (sym e)
          ∙ digits_value-decimal_from n n [] (omega arith)
          ∙ unfold digits_value in refl)
        fits

-- ---- trimmed lines ----

trim_front_cases :
    (s : Bytes)
    → (trim_front s ≡ []) ⊎ ((c : ℕ) × (r : Bytes) × (trim_front s ≡ c ∷ r) × (is_space c ≡ false))
unfolding trim_front
trim_front_cases [] = inl refl
trim_front_cases (c ∷ r) = elim (Bool-cases (is_space c)) [
  | inl space ↦ rw space (trim_front_cases r)
  | inr text ↦ rw text (inr (c, r, refl, text))
]

trim_front_text : (c : ℕ) (r : Bytes) → is_space c ≡ false → trim_front (c ∷ r) ≡ c ∷ r
unfolding trim_front
trim_front_text c r text = ground (arith, text)

trim_last_text : (c : ℕ) (r : Bytes) → is_space c ≡ false → trim_last c r ≡ c ∷ r
unfolding trim_last
trim_last_text c [] text = ground (arith, text)
trim_last_text c (x ∷ r) text = refl

trim_back-trim_last :
    (c : ℕ) (r : Bytes) → trim_back r ≡ r → trim_back (trim_last c r) ≡ trim_last c r
unfolding trim_last trim_back
trim_back-trim_last c [] e = elim (Bool-cases (is_space c)) [
  | inl space ↦ rw space refl
  | inr text ↦ rw text (ground (arith, text))
]
trim_back-trim_last c (x ∷ r) e = ap (trim_last c) e

trim_back_text : (c : ℕ) (r : Bytes) → is_space c ≡ false → trim_back (c ∷ r) ≡ c ∷ trim_back r
unfolding trim_back
trim_back_text c r text = trim_last_text c (trim_back r) text

trim_back-trim_back : (s : Bytes) → trim_back (trim_back s) ≡ trim_back s
unfolding trim_back
trim_back-trim_back [] = refl
trim_back-trim_back (c ∷ r) = trim_back-trim_last c (trim_back r) (trim_back-trim_back r)

-- A line that was trimmed is not trimmed further.
pub key_normalize_twice : (raw : Bytes) → key_normalize (key_normalize raw) ≡ key_normalize raw
unfolding key_normalize
key_normalize_twice raw = elim (trim_front_cases raw) [
  | inl empty ↦ rw empty (unfold trim_front trim_back in refl)
  | inr (c, r, e, text) ↦
      rw
        (
          e,
          trim_back_text c r text,
          trim_front_text c (trim_back r) text,
          trim_back_text c (trim_back r) text,
        )
        (ap (λ t. c ∷ t) (trim_back-trim_back r))
]
