-- ===== src/Wire/Cursor.antt =====
-- The decoders on any view, whatever the peer sent.
use sshd.Base.{
  ℕ, ◌+◌, ◌≤◌, ◌≡◌, ◌∙◌, true, false, none, some, Bytes, length, take, drop, ap, sym, ap₂,
  length-take, length-drop, arith,
}
use sshd.Wire.{View, view_init, get_u8, get_u32, get_slice, get_string}

-- The cursor lies in the buffer, and the buffer is as long as the view says.
pub record InBuffer (v : View) : Type 0 where
  pub sized : v.n ≡ length v.p
  pub within : v.pos ≤ v.n

pub view_init-InBuffer : (bytes : Bytes) → InBuffer (view_init bytes)
unfolding view_init
view_init-InBuffer bytes = omega arith

-- What a decoder does to a view: it moves forward within the same buffer, and an error sticks.
pub record Advances (v w : View) : Type 0 where
  pub inside : InBuffer w
  pub forward : v.pos ≤ w.pos
  pub same : w.p ≡ v.p
  pub sticky : v.bad ≡ true → w.bad ≡ true

pub get_u8-Advances : (v : View) → InBuffer v → Advances v (get_u8 v).1
unfolding get_u8
get_u8-Advances v h = ground arith

pub get_u32-Advances : (v : View) → InBuffer v → Advances v (get_u32 v).1
unfolding get_u32
get_u32-Advances v h = ground arith

get_slice-Advances : (len : ℕ) (v : View) → InBuffer v → Advances v (get_slice len v).1
unfolding get_slice
get_slice-Advances len v h = ground arith

Advances-trans : {u v w : View} → Advances u v → Advances v w → Advances u w
Advances-trans a b = record {
  inside = b.inside;
  forward = omega arith;
  same = b.same ∙ a.same;
  sticky = λ e. b.sticky (a.sticky e);
}

-- On every input a decoder of strings leaves the cursor inside the buffer and not before where it
-- was, and it keeps the buffer and a `bad` that was set.
pub get_string-Advances : (v : View) → InBuffer v → Advances v (get_string v).1
get_string-Advances v h =
    let a = get_u32-Advances v h in
    let b = get_slice-Advances (get_u32 v).0 (get_u32 v).1 a.inside in
    unfold get_string in Advances-trans a b

-- A length field, read where it was not refused, took four bytes.
get_u32_took :
    (v : View)
    → InBuffer v
    → (get_u32 v).1.bad ≡ false
    → (v.bad ≡ false) × ((get_u32 v).1.pos ≡ v.pos + 4) × ((get_u32 v).1.p ≡ v.p)
unfolding get_u32
get_u32_took v h e = ground arith

get_slice-some :
    (len : ℕ) (v : View) (s : Bytes) (w : View)
    → InBuffer v
    → get_slice len v ≡ (some s, w)
    → (v.bad ≡ false)
      × (w.bad ≡ false)
      × (w.pos ≡ v.pos + length s)
      × (w.pos ≤ length v.p)
      × (s ≡ take len (drop v.pos v.p))
      × (length s ≡ len)
unfolding get_slice
get_slice-some len v s w h e =
    ground (arith, length-take len (drop v.pos v.p), length-drop v.pos v.p)

-- A string that `get_string` returns from a view whose cursor is in the buffer is the slice of the
-- buffer that begins four bytes after the old cursor, it lies there whole, and the new cursor stands
-- right behind it.
pub get_string-some :
    (v : View) (s : Bytes) (w : View)
    → InBuffer v
    → get_string v ≡ (some s, w)
    → (v.bad ≡ false)
      × (w.bad ≡ false)
      × (w.pos ≡ v.pos + 4 + length s)
      × (w.pos ≤ length v.p)
      × (s ≡ take (length s) (drop (v.pos + 4) v.p))
unfolding get_string
get_string-some v s w h e =
    let a = get_u32-Advances v h in
    let (fine, kept, moved, within, slice, size) =
      get_slice-some (get_u32 v).0 (get_u32 v).1 s w a.inside e in
    let (before, four, same) = get_u32_took v h fine in
    (
      before,
      kept,
      omega arith,
      rw (← same) within,
      slice
          ∙ ap (λ n. take n (drop (get_u32 v).1.pos (get_u32 v).1.p)) (sym size)
          ∙ ap₂ (λ k p. take (length s) (drop k p)) four same,
    )

get_slice-none : (len : ℕ) (v w : View) → get_slice len v ≡ (none, w) → w.bad ≡ true
unfolding get_slice
get_slice-none len v w e = ground arith

-- A string that is refused leaves the view bad, so that every later read is refused too.
pub get_string-none : (v w : View) → get_string v ≡ (none, w) → w.bad ≡ true
unfolding get_string
get_string-none v w e = get_slice-none (get_u32 v).0 (get_u32 v).1 w e
