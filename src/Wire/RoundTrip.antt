-- ===== src/Wire/RoundTrip.antt =====
-- The decoders on what the encoders wrote.
use sshd.Base.{
  ℕ, ◌+◌, ◌/◌, ◌^◌, ◌%◌, ◌<◌, ◌≡◌, refl, ◌∙◌, ap, sym, false, some, Bytes, [], ◌∷◌, ◌++◌, length,
  drop, get_or, length-append, take-append, drop-append, append_assoc, drop-drop, get_or-drop,
  length-drop, arith,
}
use sshd.Wire.{
  View, view_init, get_u8, get_u32, get_slice, get_string, put_string, big_endian_32, value_32,
}
use native.Mathlib.Nat.{add-zero, mod-eq_of_lt}
use sshd.Wire.Cursor.{InBuffer}

-- The view is good, and `r` is what stands behind its cursor.
pub record Rest (v : View) (r : Bytes) : Type 0 where
  pub fine : v.bad ≡ false
  pub inside : InBuffer v
  pub behind : drop v.pos v.p ≡ r

abbrev pub advance : ℕ → View → View
advance k v = record v { pos = v.pos + k }

pub view_init-Rest : (bytes : Bytes) → Rest (view_init bytes) bytes
unfolding view_init
view_init-Rest bytes = record { fine = refl; inside = ground arith; behind = refl }

-- What stands behind the cursor is as long as the view has bytes left.
length_behind : (v : View) (r : Bytes) → Rest v r → v.pos + length r ≡ v.n
length_behind v r h = omega (arith, ap length h.behind, length-drop v.pos v.p, h.inside)

advance-Rest :
    (front back : Bytes) (v : View) → Rest v (front ++ back) → Rest (advance (length front) v) back
advance-Rest front back v h = record {
  fine = h.fine;
  inside = omega (arith, length_behind v (front ++ back) h, length-append front back, h.inside);
  behind = sym (drop-drop v.pos (length front) v.p) ∙ rw (h.behind) (drop-append front back);
}

-- A byte behind the cursor, read by its index in the buffer.
byte_behind : (v : View) (r : Bytes) (i : ℕ) → Rest v r → get_or v.p (v.pos + i) 0 ≡ get_or r i 0
byte_behind v r i h = sym (get_or-drop v.pos i v.p 0) ∙ ap (λ t. get_or t i 0) h.behind

byte_at_cursor : (v : View) (r : Bytes) → Rest v r → get_or v.p v.pos 0 ≡ get_or r 0 0
byte_at_cursor v r h = rw add-zero at (byte_behind v r 0 h)

pub get_u8_reads :
    (v : View) (b : ℕ) (r : Bytes)
    → Rest v (b ∷ r)
    → (get_u8 v ≡ (b, advance 1 v)) × Rest (advance 1 v) r
unfolding get_u8
get_u8_reads v b r h = (
  ground (arith, length_behind v (b ∷ r) h, byte_at_cursor v (b ∷ r) h),
  advance-Rest (b ∷ []) r v h,
)

pub value-big_endian :
    (v : ℕ)
    → v < 2 ^ 32
    → value_32 (v / 2 ^ 24 % 256) (v / 2 ^ 16 % 256) (v / 2 ^ 8 % 256) (v % 256) ≡ v
unfolding value_32
value-big_endian v h = omega arith

get_u32_four :
    (v : View) (a b c d : ℕ) (r : Bytes)
    → Rest v (a ∷ b ∷ c ∷ d ∷ r)
    → get_u32 v ≡ (value_32 a b c d, advance 4 v)
unfolding get_u32
get_u32_four v a b c d r h =
    let rest : Bytes = a ∷ b ∷ c ∷ d ∷ r in
    ground (
      arith,
      length_behind v rest h,
      byte_at_cursor v rest h,
      byte_behind v rest 1 h,
      byte_behind v rest 2 h,
      byte_behind v rest 3 h,
    )

-- A number that was encoded is read back, and the cursor stands behind it.
pub get_u32_reads :
    (v : View) (x : ℕ) (r : Bytes)
    → x < 2 ^ 32
    → Rest v (big_endian_32 x ++ r)
    → (get_u32 v ≡ (x, advance 4 v)) × Rest (advance 4 v) r
unfolding big_endian_32
get_u32_reads v x r hx h = (
  rw (get_u32_four v _ _ _ _ r h) (ap (λ t. (t, advance 4 v)) (value-big_endian x hx)),
  advance-Rest (big_endian_32 x) r v h,
)

get_slice_reads :
    (s : Bytes) (v : View) (r : Bytes)
    → Rest v (s ++ r)
    → get_slice (length s) v ≡ (some s, advance (length s) v)
unfolding get_slice
get_slice_reads s v r h =
    ground (arith, length_behind v (s ++ r) h, length-append s r, h.behind, take-append s r)

get_string_lem : (v : View) → get_string v ≡ get_slice (get_u32 v).0 (get_u32 v).1
unfolding get_string
get_string_lem v = refl

-- An encoded string is its length and its bytes.
pub put_string_lem :
    (p s : Bytes) → length s < 2 ^ 32 → put_string p s ≡ p ++ (big_endian_32 (length s) ++ s)
unfolding put_string
put_string_lem p s h =
    append_assoc p (big_endian_32 (length s % 2 ^ 32)) s
    ∙ ap (λ n. p ++ (big_endian_32 n ++ s)) (mod-eq_of_lt h)

pub put_string-put_string :
    (p s : Bytes) → length s < 2 ^ 32 → put_string p s ≡ p ++ put_string [] s
put_string-put_string p s h = put_string_lem p s h ∙ ap (λ t. p ++ t) (sym (put_string_lem [] s h))

string_split :
    (v : View) (s r : Bytes)
    → length s < 2 ^ 32
    → Rest v (put_string [] s ++ r)
    → Rest v (big_endian_32 (length s) ++ (s ++ r))
string_split v s r hs h = record {
  fine = h.fine;
  inside = h.inside;
  behind =
      h.behind
      ∙ ap (λ t. t ++ r) (put_string_lem [] s hs)
      ∙ append_assoc (big_endian_32 (length s)) s r;
}

-- A string of fewer than 2^32 bytes that `put_string` wrote, with anything behind it, is read back from a good view, and the
-- cursor then stands at what is behind it.
pub get_string_reads :
    (v : View) (s r : Bytes)
    → length s < 2 ^ 32
    → Rest v (put_string [] s ++ r)
    → (get_string v ≡ (some s, advance (length s) (advance 4 v)))
      × Rest (advance (length s) (advance 4 v)) r
get_string_reads v s r hs h =
    let (e, h4) = get_u32_reads v (length s) (s ++ r) hs (string_split v s r hs h) in
    (
      rw (get_string_lem, e) (get_slice_reads s (advance 4 v) r h4),
      advance-Rest s r (advance 4 v) h4,
    )

pub length-put_string :
    (p s : Bytes) → length s < 2 ^ 32 → length (put_string p s) ≡ length p + 4 + length s
unfolding big_endian_32
length-put_string p s h = omega (
  arith,
  ap length (put_string_lem p s h),
  length-append p (big_endian_32 (length s) ++ s),
  length-append (big_endian_32 (length s)) s,
)
