-- ===== src/Wire/Mpint.antt =====
-- `put_mpint_positive` against the definition of `mpint` in RFC 4251.
use sshd.Base.{
  ℕ, zero, suc, ◌+◌, ◌*◌, ◌^◌, ◌%◌, ◌≤◌, ◌<◌, ◌≡◌, refl, ◌∙◌, ap, Bool, true, false, Bytes, IsByte,
  All, [], ◌∷◌, ◌++◌, inl, inr, length, Bool-cases, leb, if◌then◌else◌, append_assoc, arith,
}
use native.Mathlib.Nat.{mod-eq_of_lt}
use sshd.Wire.{
  put_u8, put_u32, put_bytes, strip_zeros, needs_pad, put_mpint_positive, big_endian_32,
}

-- The unsigned value of a big-endian string.
abbrev pub value_from : ℕ → Bytes → ℕ
value_from acc [] = acc
value_from acc (x ∷ r) = value_from (acc * 256 + x) r

unfoldable pub big_endian_value : Bytes → ℕ
big_endian_value bytes = value_from 0 bytes

-- RFC 4251, for a positive value: the first bit is clear, and a leading zero byte stands only before
-- a byte whose first bit is set.
pub data IsCanonical : Bytes → Type 0 where
  single : (x : ℕ) → 0 < x → x < 128 → IsCanonical (x ∷ [])
  padded : (x : ℕ) (r : Bytes) → 128 ≤ x → IsCanonical (0 ∷ x ∷ r)
  plain : (x y : ℕ) (r : Bytes) → 0 < x → x < 128 → IsCanonical (x ∷ y ∷ r)

-- The content of the mpint: the stripped string, with a zero in front where its first bit is set.
pub mpint_content : Bytes → Bytes
mpint_content val =
    let stripped = strip_zeros val in if needs_pad stripped then 0 ∷ stripped else stripped

abbrev pad_if : Bool → Bytes → Bytes
pad_if b t = if b then 0 ∷ t else t

abbrev write_content : Bool → Bytes → Bytes → Bytes
write_content b s t =
    if b
    then put_bytes (put_u8 (put_u32 s ((length t + 1) % 2 ^ 32)) 0) t
    else put_bytes (put_u32 s (length t % 2 ^ 32)) t

write_content_lem :
    (b : Bool) (s t : Bytes)
    → length (pad_if b t) < 2 ^ 32
    → write_content b s t ≡ s ++ (big_endian_32 (length (pad_if b t)) ++ pad_if b t)
unfolding put_bytes put_u8 put_u32
write_content_lem true s t h =
    append_assoc (s ++ big_endian_32 ((length t + 1) % 2 ^ 32)) (0 ∷ []) t
    ∙ append_assoc s (big_endian_32 ((length t + 1) % 2 ^ 32)) (0 ∷ t)
    ∙ ap (λ n. s ++ (big_endian_32 n ++ (0 ∷ t))) (omega arith)
write_content_lem false s t h =
    append_assoc s (big_endian_32 (length t % 2 ^ 32)) t
    ∙ ap (λ n. s ++ (big_endian_32 n ++ t)) (mod-eq_of_lt h)

put_mpint_positive_lem :
    (s val : Bytes)
    → length (mpint_content val) < 2 ^ 32
    → put_mpint_positive s val
      ≡ s ++ (big_endian_32 (length (mpint_content val)) ++ mpint_content val)
unfolding put_mpint_positive mpint_content
put_mpint_positive_lem s val h =
    write_content_lem (needs_pad (strip_zeros val)) s (strip_zeros val) h

strip_zeros-value : (val : Bytes) → big_endian_value (strip_zeros val) ≡ big_endian_value val
unfolding big_endian_value strip_zeros
strip_zeros-value [] = refl
strip_zeros-value (x ∷ []) = refl
strip_zeros-value (zero ∷ y ∷ r) = strip_zeros-value (y ∷ r)
strip_zeros-value (suc x ∷ y ∷ r) = refl

pad_if-value : (b : Bool) (t : Bytes) → big_endian_value (pad_if b t) ≡ big_endian_value t
unfolding big_endian_value
pad_if-value true t = refl
pad_if-value false t = refl

content-value : (val : Bytes) → big_endian_value (mpint_content val) ≡ big_endian_value val
unfolding mpint_content
content-value val =
    pad_if-value (needs_pad (strip_zeros val)) (strip_zeros val) ∙ strip_zeros-value val

strip_zeros-IsCanonical :
    (val : Bytes)
    → All IsByte val
    → 0 < big_endian_value val
    → IsCanonical
        (let stripped = strip_zeros val in if needs_pad stripped then 0 ∷ stripped else stripped)
unfolding strip_zeros needs_pad big_endian_value
strip_zeros-IsCanonical [] b h = absurd (omega arith)
strip_zeros-IsCanonical (x ∷ []) b h = elim (Bool-cases (leb 128 x)) [
  | inl e ↦ rw e (padded x [] (ground arith))
  | inr e ↦ rw e (single x (ground arith) (ground arith))
]
strip_zeros-IsCanonical (zero ∷ y ∷ r) b h = strip_zeros-IsCanonical (y ∷ r) b.1 h
strip_zeros-IsCanonical (suc x ∷ y ∷ r) b h = elim (Bool-cases (leb 128 (suc x))) [
  | inl e ↦ rw e (padded (suc x) (y ∷ r) (ground arith))
  | inr e ↦ rw e (plain (suc x) y r (ground arith) (ground arith))
]

length-strip_zeros : (val : Bytes) → length (strip_zeros val) ≤ length val
unfolding strip_zeros
length-strip_zeros [] = omega arith
length-strip_zeros (x ∷ []) = omega arith
length-strip_zeros (zero ∷ y ∷ r) = omega (arith, length-strip_zeros (y ∷ r))
length-strip_zeros (suc x ∷ y ∷ r) = omega arith

length-content : (val : Bytes) → length (mpint_content val) ≤ length val + 1
unfolding mpint_content
length-content val = ground (arith, length-strip_zeros val)

-- On a positive number of fewer than 2^32 - 1 bytes, `put_mpint_positive` appends the length and the
-- bytes of a canonical mpint of the same value.
pub put_mpint_positive-IsCanonical :
    (s val : Bytes)
    → All IsByte val
    → 0 < big_endian_value val
    → length val + 1 < 2 ^ 32
    → (content : Bytes) × (put_mpint_positive s val
        ≡ s ++ (big_endian_32 (length content) ++ content))
      × (big_endian_value content ≡ big_endian_value val)
      × IsCanonical content
put_mpint_positive-IsCanonical s val b h l = (
  mpint_content val,
  put_mpint_positive_lem s val (omega (arith, length-content val)),
  content-value val,
  unfold mpint_content in strip_zeros-IsCanonical val b h,
)
