-- ===== src/Keys/Remove.antt =====
-- `keyRemove` and its compaction of the array.
use sshd.Base.{
  ℕ, suc, ◌+◌, ◌-◌, ◌≡◌, refl, sym, ap, ◌∙◌, Option, none, some, Bytes, List, [], ◌∷◌, ◌++◌, length,
  take, drop, get_or, get_or-drop, drop-drop, ap₂, take_past, length-append, append_assoc,
  length-drop, length-take, take-append-drop, bytes_eq, bytes_eq_sound, Bool-cases, Option-cases,
  inl, inr, arith, All, ◌≢◌, subst, bytes_eq_refl, codes,
}
use sshd.Keys.{Key, Store, no_key, key_label, key_write, compact, key_remove, key_index_of_id}

-- The label written anew.
abbrev pub relabelled : Key → Key
relabelled k = record { id = k.id; line = k.line; label = key_label k.line }

abbrev pub all_relabelled : List Key → List Key
all_relabelled [] = []
all_relabelled (k ∷ r) = relabelled k ∷ all_relabelled r

key_write_at :
    (front : List Key) (x : Key) (r : List Key) (k : Key)
    → key_write (length front) k.id k.line (front ++ (x ∷ r)) ≡ front ++ (relabelled k ∷ r)
unfolding key_write
key_write_at [] x r k = refl
key_write_at (y ∷ front) x r k = ap (λ t. y ∷ t) (key_write_at front x r k)

some_index : (i j : ℕ) → some i ≡ some j → i ≡ j
some_index i j e = ap (λ (o : Option ℕ). elim o [ none ↦ i | some x ↦ x ]) e

compact_lem :
    (c front : List Key) (x : Key) (r : List Key)
    → drop (length front) c ≡ x ∷ r
    → take (length front + length r) (compact (length r) (length front) c (front ++ (x ∷ r)))
      ≡ front ++ all_relabelled r
unfolding compact
compact_lem c front x [] e = take_past front (x ∷ []) 0
compact_lem c front x (y ∷ r) e =
    let moved = front ++ (relabelled y ∷ []) in
    let longer : length moved ≡ length front + 1 =
      omega (arith, length-append front (relabelled y ∷ [])) in
    let next : get_or c (length front + 1) no_key ≡ y =
      sym (get_or-drop (length front) 1 c no_key) ∙ ap (λ t. get_or t 1 no_key) e in
    let at_next : drop (length moved) c ≡ y ∷ r =
      ap (λ n. drop n c) longer ∙ sym (drop-drop (length front) 1 c) ∙ ap (drop 1) e in
    let n = length front + suc (length r) in
    ap
      (λ (k : Key). take n (
        compact (length r) (length front + 1) c
          (key_write (length front) k.id k.line (front ++ (x ∷ y ∷ r)))))
      next
    ∙ ap (λ p. take n (compact (length r) (length front + 1) c p))
        (key_write_at front x (y ∷ r) y ∙ sym (append_assoc front (relabelled y ∷ []) (y ∷ r)))
    ∙ ap₂ (λ a b. take a (compact (length r) b c (moved ++ (y ∷ r))))
        (let e1 : n ≡ length moved + length r = omega (arith, longer) in e1) (sym longer)
    ∙ compact_lem c moved y r at_next
    ∙ append_assoc front (relabelled y ∷ []) (all_relabelled r)

key_index_of_id_at :
    (id : Bytes) (keys : List Key) (i : ℕ)
    → key_index_of_id id keys ≡ some i
    → (k : Key) × (drop i keys ≡ k ∷ drop (i + 1) keys)
      × (k.id ≡ id)
      × All (λ (before : Key). before.id ≢ id) (take i keys)
unfolding key_index_of_id
key_index_of_id_at id [] i e = cc
key_index_of_id_at id (k ∷ r) i e = elim (Bool-cases (bytes_eq k.id id)) [
  | inl here ↦
      let first : 0 ≡ i = some_index 0 i (ground (arith, here)) in
      (
        k,
        ap (λ n. drop n (k ∷ r)) (sym first) ∙ ap (λ n. k ∷ drop (n + 1) (k ∷ r)) first,
        bytes_eq_sound k.id id here,
        subst (λ n. All (λ (before : Key). before.id ≢ id) (take n (k ∷ r))) first tt,
      )
  | inr other ↦ elim (Option-cases (key_index_of_id id r)) [
    | inl missing ↦ absurd (ground (arith, other, missing))
    | inr (j, found) ↦
        let (x, there, is_id, earlier) = key_index_of_id_at id r j found in
        let later : suc j ≡ i = some_index (suc j) i (ground (arith, other, found)) in
        (
          x,
          ap (λ n. drop n (k ∷ r)) (sym later)
              ∙ there
              ∙ ap (λ n. x ∷ drop n (k ∷ r))
                  (let e1 : suc (j + 1) ≡ i + 1 = omega (arith, later) in e1),
          is_id,
          subst (λ n. All (λ (before : Key). before.id ≢ id) (take n (k ∷ r))) later
              (
                λ same.
                    absurd (ground (arith, other, ap (λ x. bytes_eq x id) same, bytes_eq_refl id)),
                earlier,
              ),
        )
  ]
]

split_at :
    (keys : List Key) (i : ℕ) (k : Key) (rest : List Key)
    → drop i keys ≡ k ∷ rest
    → keys ≡ take i keys ++ (k ∷ rest)
split_at keys i k rest e = sym (take-append-drop i keys) ∙ ap (λ t. take i keys ++ t) e

removed :
    (keys : List Key) (i : ℕ) (k : Key) (rest : List Key)
    → drop i keys ≡ k ∷ rest
    → take (length keys - 1) (compact (length keys - 1 - i) i keys keys)
      ≡ take i keys ++ all_relabelled rest
removed keys i k rest e =
    let front = take i keys in
    let behind : suc (length rest) ≡ length keys - i = sym (ap length e) ∙ length-drop i keys in
    let before : length front ≡ i = omega (arith, length-take i keys, behind) in
    ap (λ a. take a (compact (length keys - 1 - i) i keys keys))
      (let e1 : length keys - 1 ≡ length front + length rest = omega (arith, before, behind) in e1)
    ∙ ap₂ (λ l j. take (length front + length rest) (compact l j keys keys))
        (let e2 : length keys - 1 - i ≡ length rest = omega (arith, behind) in e2) (sym before)
    ∙ ap (λ p. take (length front + length rest) (compact (length rest) (length front) keys p))
        (split_at keys i k rest e)
    ∙ compact_lem keys front k rest (ap (λ j. drop j keys) before ∙ e)

key_remove_found :
    (id : Bytes) (st : Store) (i : ℕ)
    → key_index_of_id id st.keys ≡ some i
    → key_remove id st ≡ record {
      keys = take (length st.keys - 1) (compact (length st.keys - 1 - i) i st.keys st.keys);
      error = [];
      done = st.done + 1;
    }
unfolding key_remove
key_remove_found id st i e = ground (arith, e)

key_index_of_id-none :
    (id : Bytes) (keys : List Key)
    → key_index_of_id id keys ≡ none
    → All (λ (k : Key). k.id ≢ id) keys
unfolding key_index_of_id
key_index_of_id-none id [] e = tt
key_index_of_id-none id (k ∷ r) e = (
  λ same. absurd (ground (arith, ap (λ x. bytes_eq x id) same, bytes_eq_refl id)),
  key_index_of_id-none id r (ground arith),
)

key_remove_missing :
    (id : Bytes) (st : Store)
    → key_index_of_id id st.keys ≡ none
    → key_remove id st ≡ record st { error = codes "No such key." }
unfolding key_remove
key_remove_missing id st e = ground (arith, e)

-- The two outcomes of `keyRemove`.
pub data Removed (id : Bytes) (st v : Store) : Type 0 where
  no_such_key :
      All (λ (k : Key). k.id ≢ id) st.keys
      → v ≡ record st { error = codes "No such key." }
      → Removed id st v
  first_removed :
      (front behind : List Key) (k : Key)
      → st.keys ≡ front ++ (k ∷ behind)
      → k.id ≡ id
      → All (λ (before : Key). before.id ≢ id) front
      → v.keys ≡ front ++ all_relabelled behind
      → v.error ≡ []
      → v.done ≡ st.done + 1
      → Removed id st v

-- On every id and store: when some stored key has the id, the first of them is taken out, where no key
-- before it has the id, what was before it stays, what was behind it moves down by one with its label
-- written anew, the error is cleared and the acknowledgement moves on; when none has the id, only the
-- error changes, which then says so.
pub key_remove_lem : (id : Bytes) (st : Store) → Removed id st (key_remove id st)
key_remove_lem id st = elim (Option-cases (key_index_of_id id st.keys)) [
  | inl missing ↦
      no_such_key (key_index_of_id-none id st.keys missing) (key_remove_missing id st missing)
  | inr (i, found) ↦
      let (k, there, is_id, earlier) = key_index_of_id_at id st.keys i found in
      let result = key_remove_found id st i found in
      first_removed (take i st.keys) (drop (i + 1) st.keys) k
        (split_at st.keys i k (drop (i + 1) st.keys) there) is_id earlier
        (ap (λ (v : Store). v.keys) result ∙ removed st.keys i k (drop (i + 1) st.keys) there)
        (ap (λ (v : Store). v.error) result) (ap (λ (v : Store). v.done) result)
]
