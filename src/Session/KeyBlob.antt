-- ===== src/Session/KeyBlob.antt =====
-- The two strings of a key blob, as `authorized_pub_matches` of esp-idf/src/sshd_session.cpp reads them.
use sshd.Base.{
  ℕ, ◌+◌, ◌≤◌, ◌<◌, ◌≡◌, refl, sym, ap, ap₂, ◌∙◌, inl, inr, false, some, Bytes, [], ◌∷◌, ◌++◌,
  length, drop, get_or, get_or-drop, drop-drop, take-append-drop, append_assoc, bytes_eq,
  bytes_eq_sound, bytes_eq_refl, length-drop, Bool-cases, Option-cases, arith,
}
use sshd.Wire.{
  View, view_init, value_32, get_u32, get_slice, get_string, put_string, big_endian_32, lacks,
}
use sshd.Wire.Cursor.{InBuffer, view_init-InBuffer, get_string-Advances, get_string-some}
use sshd.Wire.RoundTrip.{advance, view_init-Rest, get_string_reads, put_string_lem}
use sshd.Session.{ssh_ed25519}
use sshd.Session.Auth.{second_of_ed25519}

four_bytes :
    (t : Bytes)
    → 4 ≤ length t
    → t ≡ get_or t 0 0 ∷ get_or t 1 0 ∷ get_or t 2 0 ∷ get_or t 3 0 ∷ drop 4 t
four_bytes [] h = absurd (omega (arith, h))
four_bytes (a ∷ []) h = absurd (omega (arith, h))
four_bytes (a ∷ b ∷ []) h = absurd (omega (arith, h))
four_bytes (a ∷ b ∷ c ∷ []) h = absurd (omega (arith, h))
four_bytes (a ∷ b ∷ c ∷ d ∷ r) h = refl

-- A length field below 256 is three zeros and the length.
small_field :
    (a b c d n : ℕ) (s t : Bytes)
    → value_32 a b c d ≡ n
    → n < 256
    → length s ≡ n
    → a ∷ b ∷ c ∷ d ∷ (s ++ t) ≡ put_string [] s ++ t
unfolding value_32 big_endian_32
small_field a b c d n s t value small size =
    let za : a ≡ 0 = omega (arith, value, small) in
    let zb : b ≡ 0 = omega (arith, value, small) in
    let zc : c ≡ 0 = omega (arith, value, small) in
    let is_n : d ≡ n = omega (arith, value, small) in
    let field : a ∷ b ∷ c ∷ d ∷ [] ≡ big_endian_32 n = ground (arith, za, zb, zc, is_n, small) in
    ap (λ p. p ++ (s ++ t)) field
    ∙ ap (λ k. big_endian_32 k ++ (s ++ t)) (sym size)
    ∙ sym (append_assoc (big_endian_32 (length s)) s t)
    ∙ ap (λ p. p ++ t) (sym (put_string_lem [] s (omega (arith, size, small))))

slice_length :
    (len : ℕ) (v : View) (s : Bytes) (w : View)
    → get_slice len v ≡ (some s, w)
    → v.bad ≡ false
    → w.pos ≡ v.pos + len
unfolding get_slice
slice_length len v s w e fine = elim (Bool-cases (lacks v len)) [
  | inl refused ↦ absurd (ground (arith, e, fine, refused))
  | inr taken ↦ ground (arith, e, fine, taken)
]

string_value :
    (v : View) (s : Bytes) (w : View)
    → get_string v ≡ (some s, w)
    → v.bad ≡ false
    → w.pos ≡ v.pos + 4 + length s
    → value_32
        (get_or v.p v.pos 0)
        (get_or v.p (v.pos + 1) 0)
        (get_or v.p (v.pos + 2) 0)
        (get_or v.p (v.pos + 3) 0)
      ≡ length s
unfolding get_string get_u32 get_slice
string_value v s w e fine moved = elim (Bool-cases (lacks v 4)) [
  | inl refused ↦ absurd (ground (arith, e, fine, refused))
  | inr there ↦
      let n =
        value_32 (get_or v.p v.pos 0) (get_or v.p (v.pos + 1) 0) (get_or v.p (v.pos + 2) 0)
          (get_or v.p (v.pos + 3) 0) in
      let v1 = record v { pos = v.pos + 4 } in
      let read : get_slice n v1 ≡ (some s, w) =
        ap (λ (x : ℕ × View). get_slice x.0 x.1)
          (let f : (n, v1) ≡ get_u32 v = ground (arith, there) in f)
        ∙ e in
      let at : w.pos ≡ v.pos + 4 + n = slice_length n v1 s w read fine in omega (arith, at, moved)
]

-- A string of fewer than 256 bytes that was read stands at the cursor as `put_string` writes it.
string_at :
    (v : View) (s : Bytes) (w : View)
    → InBuffer v
    → length s < 256
    → get_string v ≡ (some s, w)
    → drop v.pos v.p ≡ put_string [] s ++ drop w.pos v.p
string_at v s w h small e =
    let (fine, _, moved, within, slice) = get_string-some v s w h e in
    let value = string_value v s w e fine moved in
    let here = drop v.pos v.p in
    let byte = λ (k : ℕ). get_or-drop v.pos k v.p 0 in
    let behind : drop (v.pos + 4) v.p ≡ s ++ drop w.pos v.p =
      sym (take-append-drop (length s) (drop (v.pos + 4) v.p))
      ∙ ap₂ (λ a b. a ++ b) (sym slice)
          (drop-drop (v.pos + 4) (length s) v.p ∙ ap (λ k. drop k v.p) (sym moved)) in
    let byte_0 : get_or here 0 0 ≡ get_or v.p v.pos 0 =
      byte 0 ∙ ap (λ k. get_or v.p k 0) (let z : v.pos + 0 ≡ v.pos = omega arith in z) in
    four_bytes here (omega (arith, length-drop v.pos v.p, within, moved))
    ∙ ap (λ t. get_or here 0 0 ∷ get_or here 1 0 ∷ get_or here 2 0 ∷ get_or here 3 0 ∷ t)
        (drop-drop v.pos 4 v.p ∙ behind)
    ∙ small_field (get_or here 0 0) (get_or here 1 0) (get_or here 2 0) (get_or here 3 0) (length s)
        s (drop w.pos v.p) (simp (byte_0, byte 1, byte 2, byte 3) value) small refl

-- What `second_of_ed25519` reads.
pub second_of_ed25519-some :
    (blob key : Bytes)
    → second_of_ed25519 blob ≡ some key
    → length key ≡ 32
    → (tail : Bytes) × (blob ≡ put_string [] ssh_ed25519 ++ (put_string [] key ++ tail))
unfolding second_of_ed25519 view_init
second_of_ed25519-some blob key e size =
    let v = view_init blob in
    let w = (get_string v).1 in
    let u = (get_string w).1 in
    elim (Option-cases (get_string v).0) [
      | inl no_name ↦ absurd (ground (arith, e, no_name))
      | inr (name, read1) ↦ elim (Bool-cases (bytes_eq name ssh_ed25519)) [
        | inr other ↦ absurd (ground (arith, e, read1, other))
        | inl same ↦
            let is_type : name ≡ ssh_ed25519 = bytes_eq_sound name ssh_ed25519 same in
            let read2 : (get_string w).0 ≡ some key = ground (arith, e, read1, same) in
            let inside = view_init-InBuffer blob in
            let moved = get_string-Advances v inside in
            let first : blob ≡ put_string [] name ++ drop w.pos blob =
              string_at v name w inside (omega (arith, ap length is_type))
                (ap (λ o. (o, w)) read1) in
            let second : drop w.pos w.p ≡ put_string [] key ++ drop u.pos w.p =
              string_at w key u moved.inside (omega (arith, size)) (ap (λ o. (o, u)) read2) in
            let second_in_blob : drop w.pos blob ≡ put_string [] key ++ drop u.pos w.p =
              ap (drop w.pos) (sym (moved.same)) ∙ second in
            (
              drop u.pos w.p,
              first
                  ∙ ap (λ n. put_string [] n ++ drop w.pos blob) is_type
                  ∙ ap (λ t. put_string [] ssh_ed25519 ++ t) second_in_blob,
            )
      ]
    ]

pub some_second :
    (key tail : Bytes)
    → length key ≡ 32
    → second_of_ed25519 (put_string [] ssh_ed25519 ++ (put_string [] key ++ tail)) ≡ some key
unfolding second_of_ed25519
some_second key tail size =
    let blob = put_string [] ssh_ed25519 ++ (put_string [] key ++ tail) in
    let v = view_init blob in
    let (read1, rest1) =
      get_string_reads v ssh_ed25519 (put_string [] key ++ tail) (omega arith)
        (view_init-Rest blob) in
    let (read2, _) =
      get_string_reads (advance (length ssh_ed25519) (advance 4 v)) key tail (omega (arith, size))
        rest1 in
    ground (arith, read1, read2, bytes_eq_refl ssh_ed25519)
