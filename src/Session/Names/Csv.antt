-- ===== src/Session/Names/Csv.antt =====
-- `name_in_csv` against the list of names, and the choice of the key exchange.
use sshd.Base.{
  ℕ, zero, suc, ◌≤◌, ◌<◌, ◌≡◌, ◌≢◌, refl, sym, ap, subst, ◌∙◌, ◌↔◌, ◌⊎◌, inl, inr, Bool, true,
  false, ◌==◌, Option, none, some, Bytes, List, All, [], ◌∷◌, ◌++◌, length, length-append, bytes_eq,
  bytes_eq_sound, bytes_eq_refl, if◌then◌else◌, Bool-cases, arith,
}
use sshd.Session.{KexAlg, curve25519_sha256, mlkem768_x25519}
use sshd.Session.Names.{
  first_name, name_in_csv_loop, name_in_csv, mlkem_name, curve_name, curve_libssh_name, choose_kex,
}

-- A name-list of RFC 4251: the names with commas between them.
abbrev pub joined_by_commas : List Bytes → Bytes
joined_by_commas [] = []
joined_by_commas (n ∷ []) = n
joined_by_commas (n ∷ m ∷ r) = n ++ (b',' ∷ joined_by_commas (m ∷ r))

pub data Listed (needle : Bytes) : List Bytes → Type 0 where
  here : {r : List Bytes} → Listed needle (needle ∷ r)
  there : {n : Bytes} {r : List Bytes} → Listed needle r → Listed needle (n ∷ r)

-- A name has no comma in it.
abbrev pub IsName : Bytes → Type 0
IsName n = All (λ c. (c == b',') ≡ false) n

first_name_lem : (n r : Bytes) → IsName n → first_name (n ++ (b',' ∷ r)) ≡ (n, r)
unfolding first_name
first_name_lem [] r h = refl
first_name_lem (c ∷ n) r h = rw (h.0, first_name_lem n r h.1) refl

first_name_last : (n : Bytes) → IsName n → first_name n ≡ (n, [])
unfolding first_name
first_name_last [] h = refl
first_name_last (c ∷ n) h = rw (h.0, first_name_last n h.1) refl

-- Whether the name is in the list, and one round on a list that begins with the name `n`.
listed : Bytes → List Bytes → Bool
listed needle [] = false
listed needle (n ∷ r) = if bytes_eq n needle then true else listed needle r

loop_step :
    (fuel : ℕ) (needle text n rest : Bytes)
    → 0 < length text
    → first_name text ≡ (n, rest)
    → name_in_csv_loop (suc fuel) needle text
      ≡ (if bytes_eq n needle then true else name_in_csv_loop fuel needle rest)
unfolding name_in_csv_loop
loop_step fuel needle [] n rest h e = absurd (omega arith)
loop_step fuel needle (x ∷ r) n rest h e = rw e refl

loop_last :
    (fuel : ℕ) (needle n : Bytes)
    → needle ≢ []
    → length n ≤ fuel
    → IsName n
    → name_in_csv_loop fuel needle n ≡ listed needle (n ∷ [])
unfolding name_in_csv_loop listed bytes_eq
loop_last fuel [] n some_name h name = absurd (some_name refl)
loop_last fuel (c ∷ needle) [] some_name h name = refl
loop_last zero (c ∷ needle) (x ∷ n) some_name h name = absurd (omega arith)
loop_last (suc fuel) (c ∷ needle) (x ∷ n) some_name h name =
    loop_step fuel (c ∷ needle) (x ∷ n) (x ∷ n) [] (omega arith) (first_name_last (x ∷ n) name)

name_in_csv_loop-listed :
    (fuel : ℕ) (needle : Bytes) (names : List Bytes)
    → needle ≢ []
    → length (joined_by_commas names) ≤ fuel
    → All IsName names
    → name_in_csv_loop fuel needle (joined_by_commas names) ≡ listed needle names
unfolding listed
name_in_csv_loop-listed fuel needle [] some_name h names = unfold name_in_csv_loop in refl
name_in_csv_loop-listed fuel needle (n ∷ []) some_name h names =
    loop_last fuel needle n some_name h names.0
name_in_csv_loop-listed zero needle (n ∷ m ∷ r) some_name h names =
    absurd (omega (arith, length-append n (b',' ∷ joined_by_commas (m ∷ r))))
name_in_csv_loop-listed (suc fuel) needle (n ∷ m ∷ r) some_name h names =
    let rest = joined_by_commas (m ∷ r) in
    let size = length-append n (b',' ∷ rest) in
    loop_step fuel needle (n ++ (b',' ∷ rest)) n rest (omega (arith, size))
      (first_name_lem n rest names.0)
    ∙ ap (λ b. if bytes_eq n needle then true else b)
        (name_in_csv_loop-listed fuel needle (m ∷ r) some_name (omega (arith, size)) names.1)

listed_sound :
    (needle : Bytes) (names : List Bytes) → listed needle names ≡ true → Listed needle names
unfolding listed
listed_sound needle [] e = cc
listed_sound needle (n ∷ r) e = elim (Bool-cases (bytes_eq n needle)) [
  | inl same ↦ subst (λ m. Listed needle (m ∷ r)) (sym (bytes_eq_sound n needle same)) here
  | inr other ↦ there (listed_sound needle r (ground (arith, other)))
]

listed_complete :
    (needle : Bytes) (names : List Bytes) → Listed needle names → listed needle names ≡ true
unfolding listed
listed_complete needle [] p = elim p [ ]
listed_complete needle (n ∷ r) here = ground (arith, bytes_eq_refl needle)
listed_complete needle (n ∷ r) (there p) = ground (arith, listed_complete needle r p)

-- On a list of names without commas, joined by commas, a name that is not empty is found exactly when
-- it is one of them.
pub name_in_csv_iff :
    (needle : Bytes) (names : List Bytes)
    → needle ≢ []
    → All IsName names
    → (name_in_csv needle (joined_by_commas names) ≡ true) ↔ Listed needle names
unfolding name_in_csv
name_in_csv_iff needle names some_name commas =
    let text = joined_by_commas names in
    let e = name_in_csv_loop-listed (length text) needle names some_name (omega arith) commas in
    (λ found. listed_sound needle names (sym e ∙ found), λ p. e ∙ listed_complete needle names p)

-- What the server takes of a client's list: the hybrid wherever it is listed, then the classical
-- exchange under either name, and else nothing.
pub data Choice (names : List Bytes) (o : Option KexAlg) : Type 0 where
  hybrid : Listed mlkem_name names → o ≡ some mlkem768_x25519 → Choice names o
  classical :
      ¬ Listed mlkem_name names
      → Listed curve_name names ⊎ Listed curve_libssh_name names
      → o ≡ some curve25519_sha256
      → Choice names o
  nothing :
      ¬ Listed mlkem_name names
      → ¬ Listed curve_name names
      → ¬ Listed curve_libssh_name names
      → o ≡ none
      → Choice names o

unlisted :
    (needle : Bytes) (names : List Bytes)
    → needle ≢ []
    → All IsName names
    → name_in_csv needle (joined_by_commas names) ≡ false
    → ¬ Listed needle names
unlisted needle names some_name commas off p =
    absurd (
      let on = (name_in_csv_iff needle names some_name commas).1 p in
      let wrong = sym on ∙ off in cc)

-- On a list of names without commas, joined by commas, the choice is the server's own preference: the
-- hybrid if the client lists it, wherever it stands, then curve25519 under either name, and else none.
pub choose_kex-Choice :
    (names : List Bytes) → All IsName names → Choice names (choose_kex (joined_by_commas names))
unfolding choose_kex
choose_kex-Choice names commas =
    let text = joined_by_commas names in
    let not_empty : (b : ℕ) (r : Bytes) → (b ∷ r) ≢ [] = λ b r e. cc in
    elim (Bool-cases (name_in_csv mlkem_name text)) [
      | inl pq ↦
          hybrid ((name_in_csv_iff mlkem_name names (not_empty _ _) commas).0 pq)
            (ground (arith, pq))
      | inr no_pq ↦ elim (Bool-cases (name_in_csv curve_name text)) [
        | inl curve ↦
            classical (unlisted mlkem_name names (not_empty _ _) commas no_pq)
              (inl ((name_in_csv_iff curve_name names (not_empty _ _) commas).0 curve))
              (ground (arith, no_pq, curve))
        | inr no_curve ↦ elim (Bool-cases (name_in_csv curve_libssh_name text)) [
          | inl libssh ↦
              classical (unlisted mlkem_name names (not_empty _ _) commas no_pq)
                (inr ((name_in_csv_iff curve_libssh_name names (not_empty _ _) commas).0 libssh))
                (ground (arith, no_pq, no_curve, libssh))
          | inr no_libssh ↦
              nothing (unlisted mlkem_name names (not_empty _ _) commas no_pq)
                (unlisted curve_name names (not_empty _ _) commas no_curve)
                (unlisted curve_libssh_name names (not_empty _ _) commas no_libssh)
                (ground (arith, no_pq, no_curve, no_libssh))
        ]
      ]
    ]
