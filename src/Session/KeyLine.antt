-- ===== src/Session/KeyLine.antt =====
-- One line of the authorized keys, as `authorized_pub_matches` of esp-idf/src/sshd_session.cpp reads it.
use sshd.Base.{
  ℕ, suc, ◌≡◌, refl, sym, ap, ap₂, subst, ◌∙◌, ◌↔◌, ◌⊎◌, inl, inr, true, ◌==◌, ◌&&◌, ==_iff, none,
  some, Bytes, [], ◌∷◌, ◌++◌, length, take, drop, take-append-drop, take-append, append-nil, codes,
  bytes_eq, bytes_eq_sound, bytes_eq_refl, Bool-cases, Option-cases, arith,
}
use sshd.Platform.{Platform}
use sshd.Wire.{put_string}
use sshd.Session.{ssh_ed25519}
use sshd.Session.Version.{find_byte}
use sshd.Session.Auth.{second_of_ed25519, key_text, key_line_matches}
use sshd.Session.KeyBlob.{second_of_ed25519-some, some_second}

-- A line that holds a public key: the type and a space, a base64 text without spaces, and then the end
-- or a space and a comment, where the text decodes to the strings "ssh-ed25519" and the key, with
-- anything behind them.
pub record HoldsKey (env : Platform) (pub32 line : Bytes) : Type 0 where
  pub text : Bytes
  pub behind : Bytes
  pub blob : Bytes
  pub tail : Bytes
  pub shape : line ≡ codes "ssh-ed25519 " ++ (text ++ behind)
  pub one_word : find_byte b' ' text ≡ none
  pub ends : (behind ≡ []) ⊎ ((comment : Bytes) × (behind ≡ b' ' ∷ comment))
  pub decoded : env.base64_decode text 80 ≡ some blob
  pub key : blob ≡ put_string [] ssh_ed25519 ++ (put_string [] pub32 ++ tail)
  pub size : length pub32 ≡ 32

-- ---- words ----

find_byte_split :
    (b : ℕ) (t : Bytes) (i : ℕ)
    → find_byte b t ≡ some i
    → (t ≡ take i t ++ (b ∷ drop (suc i) t)) × (find_byte b (take i t) ≡ none)
unfolding find_byte
find_byte_split b [] i e = cc
find_byte_split b (x ∷ r) i e = elim (Bool-cases (x == b)) [
  | inl here ↦
      let first : i ≡ 0 = ground (arith, here, e) in
      let same : x ≡ b = (==_iff x b).0 here in
      subst
        (λ n.
          (x ∷ r ≡ take n (x ∷ r) ++ (b ∷ drop (suc n) (x ∷ r)))
          × (find_byte b (take n (x ∷ r)) ≡ none))
        (sym first) (ap (λ y. y ∷ r) same, refl)
  | inr other ↦ elim (Option-cases (find_byte b r)) [
    | inl missing ↦ absurd (ground (arith, other, missing, e))
    | inr (j, found) ↦
        let later : i ≡ suc j = ground (arith, other, found, e) in
        let (split, no_more) = find_byte_split b r j found in
        subst
          (λ n.
            (x ∷ r ≡ take n (x ∷ r) ++ (b ∷ drop (suc n) (x ∷ r)))
            × (find_byte b (take n (x ∷ r)) ≡ none))
          (sym later) (ap (λ t. x ∷ t) split, ground (arith, other, no_more))
  ]
]

find_byte_behind :
    (b : ℕ) (t r : Bytes) → find_byte b t ≡ none → find_byte b (t ++ (b ∷ r)) ≡ some (length t)
unfolding find_byte
find_byte_behind b [] r e = ground arith
find_byte_behind b (x ∷ t) r e = elim (Bool-cases (x == b)) [
  | inl here ↦ absurd (ground (arith, here, e))
  | inr other ↦ ground (arith, other, find_byte_behind b t r (ground (arith, other, e)))
]

abbrev typed : Bytes → Bytes
typed rest = codes "ssh-ed25519 " ++ rest

first_space : (rest : Bytes) → find_byte b' ' (typed rest) ≡ some 11
unfolding find_byte
first_space rest = refl

key_text_word :
    (text behind : Bytes)
    → find_byte b' ' text ≡ none
    → (behind ≡ []) ⊎ ((comment : Bytes) × (behind ≡ b' ' ∷ comment))
    → key_text (typed (text ++ behind)) 11 ≡ text
unfolding key_text
key_text_word text behind one_word (inl over) =
    let whole : text ++ behind ≡ text = ap (λ t. text ++ t) over ∙ append-nil text in
    let none_found : find_byte b' ' (text ++ behind) ≡ none =
      ap (find_byte b' ') whole ∙ one_word in
    ground (arith, none_found, whole)
key_text_word text behind one_word (inr (comment, next)) =
    let found : find_byte b' ' (text ++ behind) ≡ some (length text) =
      ap (λ t. find_byte b' ' (text ++ t)) next ∙ find_byte_behind b' ' text comment one_word in
    ground (arith, found, take-append text behind)

-- ---- the line ----

module _ (env : Platform) (pub32 line : Bytes) where
  matches_if_held : HoldsKey env pub32 line → key_line_matches env pub32 line ≡ true
  unfolding key_line_matches
  matches_if_held h =
      let l = typed (h.text ++ h.behind) in
      let prefix : bytes_eq (take 12 l) (codes "ssh-ed25519 ") ≡ true =
        bytes_eq_refl (codes "ssh-ed25519 ") in
      let second : second_of_ed25519 h.blob ≡ some pub32 =
        ap second_of_ed25519 (h.key) ∙ some_second pub32 h.tail h.size in
      let there : key_line_matches env pub32 l ≡ true = ground (
        arith,
        prefix,
        first_space (h.text ++ h.behind),
        key_text_word h.text h.behind h.one_word h.ends,
        h.decoded,
        second,
        h.size,
        bytes_eq_refl pub32,
      ) in
      ap (key_line_matches env pub32) (h.shape) ∙ there

  -- The word behind the type, and what is behind that.
  WordOf : Bytes → Type 0
  WordOf tail =
      (text : Bytes) × (behind : Bytes) × (tail ≡ text ++ behind)
      × (find_byte b' ' text ≡ none)
      × ((behind ≡ []) ⊎ ((comment : Bytes) × (behind ≡ b' ' ∷ comment)))

  word_found : (tail : Bytes) → WordOf tail
  unfolding WordOf
  word_found tail = elim (Option-cases (find_byte b' ' tail)) [
    | inl none_found ↦ (tail, [], sym (append-nil tail), none_found, inl refl)
    | inr (i, found) ↦
        let (split, one_word) = find_byte_split b' ' tail i found in
        (take i tail, b' ' ∷ drop (suc i) tail, split, one_word, inr (drop (suc i) tail, refl))
  ]

  held_if_matches : key_line_matches env pub32 line ≡ true → HoldsKey env pub32 line
  unfolding key_line_matches WordOf
  held_if_matches e = elim (Bool-cases (bytes_eq (take 12 line) (codes "ssh-ed25519 "))) [
    | inr other ↦ absurd (ground (arith, e, other))
    | inl type ↦
        let (text, behind, split, one_word, ends) = word_found (drop 12 line) in
        let shape : line ≡ typed (text ++ behind) =
          sym (take-append-drop 12 line)
          ∙ ap₂ (λ a b. a ++ b) (bytes_eq_sound (take 12 line) (codes "ssh-ed25519 ") type) split in
        let space : find_byte b' ' line ≡ some 11 =
          ap (find_byte b' ') shape ∙ first_space (text ++ behind) in
        let word : key_text line 11 ≡ text =
          ap (λ l. key_text l 11) shape ∙ key_text_word text behind one_word ends in
        elim (Option-cases (env.base64_decode text 80)) [
          | inl garbled ↦ absurd (ground (arith, e, type, space, word, garbled))
          | inr (blob, decoded) ↦ elim (Option-cases (second_of_ed25519 blob)) [
            | inl no_key ↦ absurd (ground (arith, e, type, space, word, decoded, no_key))
            | inr (candidate, second) ↦
                let test : (length candidate == 32 && bytes_eq candidate pub32) ≡ true =
                  ground (arith, e, type, space, word, decoded, second) in
                let same : candidate ≡ pub32 =
                  bytes_eq_sound candidate pub32 (ground (arith, test)) in
                let size : length pub32 ≡ 32 =
                  ap length (sym same) ∙ (==_iff (length candidate) 32).0 (ground (arith, test)) in
                let (tail, key) =
                  second_of_ed25519-some blob pub32 (second ∙ ap (λ x. some x) same) size in
                record {
                  text = text;
                  behind = behind;
                  blob = blob;
                  tail = tail;
                  shape = shape;
                  one_word = one_word;
                  ends = ends;
                  decoded = decoded;
                  key = key;
                  size = size;
                }
          ]
        ]
  ]

  pub key_line_matches_iff : (key_line_matches env pub32 line ≡ true) ↔ HoldsKey env pub32 line
  key_line_matches_iff = (held_if_matches, matches_if_held)
