-- ===== src/Keys/Add.antt =====
-- `keyAdd`: what it takes, and what it refuses.
use sshd.Base.{
  ℕ, ◌+◌, ◌≤◌, ◌<◌, ◌≡◌, ◌≢◌, refl, sym, ap, subst, ◌∙◌, inl, inr, true, false, ◌==◌, ltb, some,
  Bytes, List, All, [], ◌∷◌, ◌++◌, length, take, bytes_eq, bytes_eq_sound, bytes_eq_refl,
  nil_of_length, codes, if◌then◌else◌, Bool-cases, Option-cases, arith,
}
use sshd.Session.Version.{find_byte}
use sshd.Session.Auth.{key_text}
use sshd.Keys.{
  Key, Store, key_label, key_normalize, key_blob, all_base64, line_rejection, key_rejection, atoi,
  best_id, decimal, max_int, key_next_id, has_line, key_write, key_add,
}
use sshd.Keys.Text.{atoi-decimal, key_normalize_twice}

-- The shape of an accepted line: the type, a space, and at least 64 characters of base64, which are
-- the text that `authorized_pub_matches` decodes.
pub record Accepted (line : Bytes) : Type 0 where
  pub sp1 : ℕ
  pub first_space : find_byte b' ' line ≡ some sp1
  pub type : take sp1 line ≡ codes "ssh-ed25519"
  pub base64 : all_base64 (key_text line sp1) ≡ true
  pub long : 64 ≤ length (key_text line sp1)

line_rejection_none : (line : Bytes) → line_rejection line ≡ [] → Accepted line
unfolding line_rejection key_blob key_text
line_rejection_none line e = elim (Bool-cases (length line == 0)) [
  | inl empty ↦ absurd (ground (arith, empty))
  | inr some_text ↦ elim (Option-cases (find_byte b' ' line)) [
    | inl missing ↦ absurd (ground (arith, some_text, missing))
    | inr (sp1, found) ↦ elim (Bool-cases (bytes_eq (take sp1 line) (codes "ssh-ed25519"))) [
      | inr other ↦ absurd (ground (arith, some_text, found, other))
      | inl type ↦ elim (Bool-cases (all_base64 (key_blob line sp1))) [
        | inr odd ↦ absurd (ground (arith, some_text, found, type, odd))
        | inl base64 ↦ elim (Bool-cases (ltb (length (key_blob line sp1)) 64)) [
          | inl short ↦ absurd (ground (arith, some_text, found, type, base64, short))
          | inr long ↦ record {
            sp1 = sp1;
            first_space = found;
            type = bytes_eq_sound (take sp1 line) (codes "ssh-ed25519") type;
            base64 = base64;
            long = ground (arith, long);
          }
        ]
      ]
    ]
  ]
]

-- ---- ids ----

best_id_least : (best : ℕ) (keys : List Key) → best ≤ best_id best keys
unfolding best_id
best_id_least best [] = omega arith
best_id_least best (k ∷ r) =
    ground (arith, best_id_least (if ltb best (atoi k.id) then atoi k.id else best) r)

-- A number above all ids is written as none of them.
fresh_above :
    (n best : ℕ) (keys : List Key)
    → 0 < n
    → n ≤ max_int
    → best_id best keys < n
    → All (λ (k : Key). k.id ≢ decimal n) keys
unfolding best_id
fresh_above n best [] h fits above = tt
fresh_above n best (k ∷ r) h fits above =
    let next = if ltb best (atoi k.id) then atoi k.id else best in
    (
      λ e. absurd (ground (arith, ap atoi e, atoi-decimal n h fits, best_id_least next r)),
      fresh_above n next r h fits above,
    )

-- Where every id is below the largest `int`, so is the largest of them.
best_id_below :
    (best : ℕ) (keys : List Key)
    → best < max_int
    → All (λ (k : Key). atoi k.id < max_int) keys
    → best_id best keys < max_int
unfolding best_id
best_id_below best [] h below = h
best_id_below best (k ∷ r) h below =
    best_id_below (if ltb best (atoi k.id) then atoi k.id else best) r (ground (arith, below.0))
      below.1

pub key_next_id_fresh :
    (keys : List Key)
    → All (λ (k : Key). atoi k.id < max_int) keys
    → All (λ (k : Key). k.id ≢ key_next_id keys) keys
unfolding key_next_id
key_next_id_fresh keys below =
    let best = best_id_below 0 keys (omega arith) below in
    let other : (best_id 0 keys == max_int) ≡ false = ground (arith, best) in
    rw other
      (fresh_above (best_id 0 keys + 1) 0 keys (omega arith) (omega (arith, best)) (omega arith))

has_line_none :
    (line : Bytes) (keys : List Key)
    → has_line line keys ≡ false
    → All (λ (k : Key). k.line ≢ line) keys
unfolding has_line
has_line_none line [] e = tt
has_line_none line (k ∷ r) e = (
  λ same. absurd (ground (arith, ap (λ l. bytes_eq l line) same, bytes_eq_refl line)),
  has_line_none line r (ground arith),
)

pub key_write_end :
    (id line : Bytes) (keys : List Key)
    → key_write (length keys) id line keys
      ≡ keys ++ (record { id = id; line = line; label = key_label line } ∷ [])
unfolding key_write
key_write_end id line [] = refl
key_write_end id line (k ∷ r) = ap (λ t. k ∷ t) (key_write_end id line r)

-- The two outcomes of `keyAdd`.
pub data Added (raw : Bytes) (st v : Store) : Type 0 where
  refused : v.keys ≡ st.keys → v.done ≡ st.done → v.error ≢ [] → Added raw st v
  added :
      (k : Key)
      → v.keys ≡ st.keys ++ (k ∷ [])
      → k.line ≡ key_normalize raw
      → k.label ≡ key_label k.line
      → Accepted k.line
      → All (λ (old : Key). old.line ≢ k.line) st.keys
      → All (λ (old : Key). old.id ≢ k.id) st.keys
      → v.error ≡ []
      → v.done ≡ st.done + 1
      → Added raw st v

not_empty : (why : Bytes) → (length why == 0) ≡ false → why ≢ []
not_empty why h e = absurd (ground (arith, ap length e))

new_key : Bytes → List Key → Key
new_key line keys = record { id = key_next_id keys; line = line; label = key_label line }

key_add_new :
    (raw : Bytes) (st : Store)
    → (length (key_rejection (key_normalize raw)) == 0) ≡ true
    → has_line (key_normalize raw) st.keys ≡ false
    → (key_add raw st).keys ≡ st.keys ++ (new_key (key_normalize raw) st.keys ∷ [])
unfolding key_add new_key
key_add_new raw st fine fresh =
    ground (arith, fine, fresh, key_write_end (key_next_id st.keys) (key_normalize raw) st.keys)

normal_line-Accepted :
    (raw : Bytes)
    → (length (key_rejection (key_normalize raw)) == 0) ≡ true
    → Accepted (key_normalize raw)
unfolding key_rejection
normal_line-Accepted raw fine = line_rejection_none (key_normalize raw) (
    ap line_rejection (sym (key_normalize_twice raw))
    ∙ nil_of_length (line_rejection (key_normalize (key_normalize raw))) (ground arith))

-- On every text, where `atoi` of every stored id is below the largest `int`: either `keyAdd` changes nothing but the error, which then says something, or it
-- appends one key, whose line is the trimmed text in the accepted shape and whose line and id no
-- stored key has; the error is then cleared and the acknowledgement moves on.
pub key_add-Added :
    (raw : Bytes) (st : Store)
    → All (λ (k : Key). atoi k.id < max_int) st.keys
    → Added raw st (key_add raw st)
unfolding key_add new_key
key_add-Added raw st below = elim (Bool-cases (length (key_rejection (key_normalize raw)) == 0)) [
  | inr wrong ↦ refused (ground (arith, wrong)) (ground (arith, wrong)) (
      subst (λ e. e ≢ [])
        (let same : key_rejection (key_normalize raw) ≡ (key_add raw st).error =
            ground (arith, wrong) in
          same)
        (not_empty (key_rejection (key_normalize raw)) wrong))
  | inl fine ↦ elim (Bool-cases (has_line (key_normalize raw) st.keys)) [
    | inl known ↦ refused (ground (arith, fine, known)) (ground (arith, fine, known)) (
        subst (λ e. e ≢ [])
          (let same : codes "That key is already authorized." ≡ (key_add raw st).error =
              ground (arith, fine, known) in
            same)
          (λ e. cc))
    | inr fresh ↦
        added (new_key (key_normalize raw) st.keys) (key_add_new raw st fine fresh) refl refl
          (normal_line-Accepted raw fine) (has_line_none (key_normalize raw) st.keys fresh)
          (key_next_id_fresh st.keys below) (ground (arith, fine, fresh))
          (ground (arith, fine, fresh))
  ]
]
