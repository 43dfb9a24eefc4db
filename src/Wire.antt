-- ===== src/Wire.antt =====
-- esp-idf/src/sshd_wire.h: the encoders append to a byte string, the decoders walk a view of one by
-- a cursor.
pub mod Cursor
pub mod RoundTrip
pub mod Mpint
use sshd.Base.{
  ℕ, zero, suc, ◌+◌, ◌-◌, ◌*◌, ◌/◌, ◌%◌, ◌^◌, Bool, true, false, ◌||◌, Option, none, some, Bytes,
  List, [], ◌∷◌, ◌++◌, ltb, leb, if◌then◌else◌, length, take, drop, get_or,
}

-- ---- encode: `s` is the string before the call ----

unfoldable pub put_u8 : Bytes → ℕ → Bytes
put_u8 s v = s ++ (v % 256 ∷ [])

-- The four `char`s of a `uint32_t`, most significant first.
unfoldable pub big_endian_32 : ℕ → Bytes
big_endian_32 v = v / 2 ^ 24 % 256 ∷ v / 2 ^ 16 % 256 ∷ v / 2 ^ 8 % 256 ∷ v % 256 ∷ []

unfoldable pub put_u32 : Bytes → ℕ → Bytes
put_u32 s v = s ++ big_endian_32 v

unfoldable pub put_bytes : Bytes → Bytes → Bytes
put_bytes s bytes = s ++ bytes

-- The length is cast to `uint32_t`.
unfoldable pub put_string : Bytes → Bytes → Bytes
unfolding put_u32 put_bytes
put_string s bytes = put_bytes (put_u32 s (length bytes % 2 ^ 32)) bytes

-- A C string of the source is the bytes before its NUL.
unfoldable pub put_cstring : Bytes → Bytes → Bytes
unfolding put_string
put_cstring s str = put_string s str

unfoldable pub put_namelist : Bytes → Bytes → Bytes
unfolding put_cstring
put_namelist s csv = put_cstring s csv

-- `while (len > 1 && val[0] == 0) { val++; len--; }`
unfoldable pub strip_zeros : Bytes → Bytes
strip_zeros [] = []
strip_zeros (x ∷ []) = x ∷ []
strip_zeros (zero ∷ y ∷ r) = strip_zeros (y ∷ r)
strip_zeros (suc x ∷ y ∷ r) = suc x ∷ y ∷ r

-- `len > 0 && (val[0] & 0x80) != 0`, of bytes.
unfoldable pub needs_pad : Bytes → Bool
needs_pad [] = false
needs_pad (x ∷ r) = leb 128 x

unfoldable pub put_mpint_positive : Bytes → Bytes → Bytes
unfolding put_u32 put_u8 put_bytes
put_mpint_positive s val =
    let stripped = strip_zeros val in
    if needs_pad stripped
    then put_bytes (put_u8 (put_u32 s ((length stripped + 1) % 2 ^ 32)) 0) stripped
    else put_bytes (put_u32 s (length stripped % 2 ^ 32)) stripped

-- ---- decode ----

pub record View : Type 0 where
  pub p : Bytes
  pub n : ℕ
  pub pos : ℕ
  pub bad : Bool

unfoldable pub view_init : Bytes → View
view_init bytes = record { p = bytes; n = length bytes; pos = 0; bad = false }

-- The test of `need`; where it fails, `need` sets `bad`.
unfoldable pub lacks : View → ℕ → Bool
lacks v n = v.bad || ltb v.n v.pos || ltb (v.n - v.pos) n

abbrev pub mark_bad : View → View
mark_bad v = record v { bad = true }

unfoldable pub get_u8 : View → ℕ × View
unfolding lacks
get_u8 v = if lacks v 1 then (0, mark_bad v) else (get_or v.p v.pos 0, record v { pos = v.pos + 1 })

-- The value of four bytes, most significant first: the shifted bytes do not overlap.
unfoldable pub value_32 : ℕ → ℕ → ℕ → ℕ → ℕ
value_32 a b c d = a * 2 ^ 24 + b * 2 ^ 16 + c * 2 ^ 8 + d

unfoldable pub get_u32 : View → ℕ × View
unfolding lacks value_32
get_u32 v = if lacks v 4 then (0, mark_bad v) else (
  value_32 (get_or v.p v.pos 0) (get_or v.p (v.pos + 1) 0) (get_or v.p (v.pos + 2) 0)
      (get_or v.p (v.pos + 3) 0),
  record v { pos = v.pos + 4 },
)

-- `get_string` once the length field is read. The slice stands for `*out` and `*outLen`.
unfoldable pub get_slice : ℕ → View → Option Bytes × View
unfolding lacks
get_slice len v =
    if v.bad
    then (none, v)
    else (if lacks v len
        then (none, mark_bad v)
        else (some (take len (drop v.pos v.p)), record v { pos = v.pos + len }))

unfoldable pub get_string : View → Option Bytes × View
unfolding get_u32 get_slice
get_string v = get_slice (get_u32 v).0 (get_u32 v).1

-- `skip_string` (and `skip_namelist`, `skip_mpint`, which call it).
unfoldable pub skip_string : View → Option Bytes × View
unfolding get_string
skip_string v = get_string v
