-- ===== src/Base/ByteStrings.antt =====
-- Byte strings: C arrays, `std::string` and text literals as lists of numbers below 256.
use Prim.Native.Nat.{ℕ, zero, suc, ◌%◌, ◌<◌}
use Prim.Native.Char.{code}
use Prim.Native.String.{String}
use mathlib.Core.Path.{◌≡◌, refl, ap, ap₂}
use mathlib.Core.Bool.{Bool, true, false, ◌&&◌}
use mathlib.Core.List.{List, [], ◌∷◌, ◌++◌}
use native.Mathlib.Omega.{arith}
use sshd.Base.Tests.{◌==◌}
use sshd.Base.Lists.{length, All}

abbrev pub Bytes : Type 0
Bytes = List ℕ

abbrev pub IsByte : ℕ → Type 0
IsByte b = b < 256

-- The bytes of an ASCII literal.
abbrev pub codes : String → Bytes
codes String.[] = []
codes (String.◌∷◌ c s) = code c ∷ codes s

-- Equal lengths and `memcmp(a, b, n) == 0`.
unfoldable pub bytes_eq : Bytes → Bytes → Bool
bytes_eq [] [] = true
bytes_eq [] (y ∷ ys) = false
bytes_eq (x ∷ xs) [] = false
bytes_eq (x ∷ xs) (y ∷ ys) = x == y && bytes_eq xs ys

-- The contents of a `uint8_t [n]` that a callee was asked to fill: `n` bytes, whatever it wrote.
unfoldable pub out_array : ℕ → Bytes → Bytes
out_array zero xs = []
out_array (suc n) [] = 0 ∷ out_array n []
out_array (suc n) (x ∷ xs) = (x % 256) ∷ out_array n xs

pub bytes_eq_sound : (xs ys : Bytes) → bytes_eq xs ys ≡ true → xs ≡ ys
unfolding bytes_eq
bytes_eq_sound [] [] h = refl
bytes_eq_sound [] (y ∷ ys) h = cc
bytes_eq_sound (x ∷ xs) [] h = cc
bytes_eq_sound (x ∷ xs) (y ∷ ys) h = ground (arith, bytes_eq_sound xs ys)

pub bytes_eq_refl : (xs : Bytes) → bytes_eq xs xs ≡ true
unfolding bytes_eq
bytes_eq_refl [] = refl
bytes_eq_refl (x ∷ xs) = ground (arith, bytes_eq_refl xs)

pub length-out_array : (n : ℕ) (xs : Bytes) → length (out_array n xs) ≡ n
unfolding out_array
length-out_array zero xs = refl
length-out_array (suc n) [] = ap suc (length-out_array n [])
length-out_array (suc n) (x ∷ xs) = ap suc (length-out_array n xs)

pub out_array-IsByte : (n : ℕ) (xs : Bytes) → All IsByte (out_array n xs)
unfolding out_array
out_array-IsByte zero xs = tt
out_array-IsByte (suc n) [] = (omega arith, out_array-IsByte n [])
out_array-IsByte (suc n) (x ∷ xs) = (omega arith, out_array-IsByte n xs)

-- An array that already holds `n` bytes is itself.
pub out_array_lem : (xs : Bytes) → All IsByte xs → out_array (length xs) xs ≡ xs
unfolding out_array
out_array_lem [] h = refl
out_array_lem (x ∷ xs) h = ap₂ (λ (a : ℕ) (b : Bytes). a ∷ b) (omega arith) (out_array_lem xs h.1)

pub All-append : (xs ys : Bytes) → All IsByte xs → All IsByte ys → All IsByte (xs ++ ys)
All-append [] ys h k = k
All-append (x ∷ xs) ys h k = (h.0, All-append xs ys h.1 k)
