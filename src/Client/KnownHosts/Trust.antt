-- ===== src/Client/KnownHosts/Trust.antt =====
-- The array of known hosts as a map from hosts to fingerprints, and trust on first use.
use sshd.Base.{
  ℕ, zero, suc, ◌+◌, ◌≡◌, refl, sym, ap, ◌∙◌, Bool, true, false, ◌==◌, Option, none, some, Bytes,
  List, All, [], ◌∷◌, ◌++◌, if◌then◌else◌, length, take, take-append, drop-append, drop-drop, ◌<◌,
  drop, bytes_eq, bytes_eq_refl, bytes_eq_sound, codes, ◌↔◌, Bool-cases, Option-cases, inl, inr,
  arith,
}
use sshd.Session.Auth.{c_str}
use sshd.Session.Version.{find_byte}
use sshd.Client.KnownHosts.{
  entry_verdict, known_hosts_from, known_hosts_check, note_text, changed_note,
}

-- The fingerprint that an entry has for the host.
unfoldable pub entry_of : Bytes → Bytes → Option Bytes
entry_of e host = elim (find_byte b' ' e) [
  | none ↦ none
  | some sp ↦ if bytes_eq (take sp e) host then some (drop (sp + 1) e) else none
]

-- The array as a map: the first entry of the host counts.
unfoldable pub fingerprint_of : List Bytes → Bytes → Option Bytes
fingerprint_of [] host = none
fingerprint_of (e ∷ r) host = elim (entry_of e host) [
  | none ↦ fingerprint_of r host
  | some fp ↦ some fp
]

-- Trust on first use, on any map: a host is trusted if it is new or has the fingerprint, and a new host
-- is remembered.
unfoldable pub is_trusted : (Bytes → Option Bytes) → Bytes → Bytes → Bool
is_trusted m host fp = elim (m host) [ none ↦ true | some known ↦ bytes_eq known fp ]

unfoldable pub remember : (Bytes → Option Bytes) → Bytes → Bytes → Bytes → Option Bytes
remember m host fp h = elim (m host) [
  | none ↦ if bytes_eq host h then some fp else m h
  | some known ↦ m h
]

-- Text without NUL, and a host without a space as well.
abbrev pub IsText : Bytes → Type 0
IsText t = All (λ c. 0 < c) t

abbrev pub IsHost : Bytes → Type 0
IsHost t = All (λ c. (0 < c) × ((c == b' ') ≡ false)) t

c_str_text : (t : Bytes) → IsText t → c_str t ≡ t
unfolding c_str
c_str_text [] h = refl
c_str_text (zero ∷ r) h = absurd (omega (arith, h.0))
c_str_text (suc c ∷ r) h = ap (λ t. suc c ∷ t) (c_str_text r h.1)

host_entry-IsText : (host fp : Bytes) → IsHost host → IsText fp → IsText (host ++ (32 ∷ fp))
host_entry-IsText [] fp h k = (omega arith, k)
host_entry-IsText (c ∷ r) fp h k = (h.0.0, host_entry-IsText r fp h.1 k)

find_byte_host :
    (host fp : Bytes) → IsHost host → find_byte b' ' (host ++ (32 ∷ fp)) ≡ some (length host)
unfolding find_byte
find_byte_host [] fp h = refl
find_byte_host (c ∷ r) fp h = ground (arith, h.0.1, find_byte_host r fp h.1)

entry_of-host :
    (host fp h : Bytes)
    → IsHost host
    → entry_of (host ++ (32 ∷ fp)) h ≡ (if bytes_eq host h then some fp else none)
unfolding entry_of
entry_of-host host fp h ok = ground (
  arith,
  find_byte_host host fp ok,
  take-append host (32 ∷ fp),
  sym (drop-drop (length host) 1 (host ++ (32 ∷ fp)))
      ∙ ap (λ t. drop 1 t) (drop-append host (32 ∷ fp)),
)

fingerprint_of-append :
    (entries : List Bytes) (e h : Bytes)
    → fingerprint_of (entries ++ (e ∷ [])) h
      ≡ elim (fingerprint_of entries h) [ none ↦ entry_of e h | some fp ↦ some fp ]
unfolding fingerprint_of
fingerprint_of-append [] e h = elim (Option-cases (entry_of e h)) [
  | inl new ↦ ground (arith, new)
  | inr (fp, known) ↦ ground (arith, known)
]
fingerprint_of-append (x ∷ r) e h = elim (Option-cases (entry_of x h)) [
  | inl other ↦ ground (arith, other, fingerprint_of-append r e h)
  | inr (fp, known) ↦ ground (arith, known)
]

known_hosts_from_new :
    (host fp : Bytes) (i : ℕ) (entries : List Bytes)
    → fingerprint_of entries host ≡ none
    → known_hosts_from host fp i entries ≡ none
unfolding known_hosts_from fingerprint_of entry_verdict entry_of
known_hosts_from_new host fp i [] new = refl
known_hosts_from_new host fp i (e ∷ r) new = ground (arith, known_hosts_from_new host fp (i + 1) r)

known_hosts_from_known :
    (host fp known : Bytes) (i : ℕ) (entries : List Bytes)
    → fingerprint_of entries host ≡ some known
    → (text : Bytes) × (known_hosts_from host fp i entries ≡ some (bytes_eq known fp, text))
unfolding known_hosts_from fingerprint_of entry_verdict entry_of
known_hosts_from_known host fp known i [] h = cc
known_hosts_from_known host fp known i (e ∷ r) h = elim (Option-cases (entry_of e host)) [
  | inl other ↦
      let (text, found) = known_hosts_from_known host fp known (i + 1) r (ground (arith, other)) in
      (text, ground (arith, other, found))
  | inr (stored, there) ↦ elim (Bool-cases (bytes_eq known fp)) [
    | inl same ↦
        (note_text (codes "host key OK (" ++ (fp ++ codes ")")), ground (arith, there, same))
    | inr changed ↦ (note_text (changed_note host fp i), ground (arith, there, changed))
  ]
]

-- What `known_hosts_check` gives on first contact.
abbrev added : Bytes → Bytes → List Bytes → Bool × Bytes × List Bytes
added host fp entries = (
  true,
  note_text (codes "host key added to known_hosts (" ++ (fp ++ codes ")")),
  entries ++ ((host ++ (32 ∷ fp)) ∷ []),
)

first_contact :
    (host fp h : Bytes) (entries : List Bytes)
    → IsHost host
    → fingerprint_of entries host ≡ none
    → elim (fingerprint_of entries h) as (λ _. Option Bytes) [
      | none ↦ entry_of (host ++ (32 ∷ fp)) h
      | some known ↦ some known
    ]
      ≡ remember (fingerprint_of entries) host fp h
unfolding remember
first_contact host fp h entries ok new = elim (Option-cases (fingerprint_of entries h)) [
  | inl unknown ↦ ground (arith, new, unknown, entry_of-host host fp h ok)
  | inr (known, there) ↦ elim (Bool-cases (bytes_eq host h)) [
    | inl same ↦
        absurd
          (let e = sym new ∙ ap (fingerprint_of entries) (bytes_eq_sound host h same) ∙ there in cc)
    | inr other ↦ ground (arith, new, there, other)
  ]
]

-- The array refines the map: for a host without spaces and NULs and a fingerprint without NULs, the
-- result of `known_hosts_check` is that of trust on first use on the map of the array, and the array
-- that it leaves has, for every host, the fingerprint that the map with the new host has.
pub known_hosts_check-refines :
    (host fp h : Bytes) (entries : List Bytes)
    → IsHost host
    → IsText fp
    → ((known_hosts_check host fp entries).0 ≡ is_trusted (fingerprint_of entries) host fp)
      × (fingerprint_of (known_hosts_check host fp entries).2 h
          ≡ remember (fingerprint_of entries) host fp h)
unfolding known_hosts_check is_trusted remember
known_hosts_check-refines host fp h entries ok text =
    elim (Option-cases (fingerprint_of entries host)) [
      | inl new ↦
          let whole : c_str (host ++ (32 ∷ fp)) ≡ host ++ (32 ∷ fp) =
            c_str_text (host ++ (32 ∷ fp)) (host_entry-IsText host fp ok text) in
          let nothing = known_hosts_from_new host fp 0 entries new in
          (
            ground (arith, new, nothing),
            ap (λ x. fingerprint_of x.2 h)
                  (let f : known_hosts_check host fp entries ≡ added host fp entries =
                      ground (arith, nothing, whole) in
                    f)
                ∙ fingerprint_of-append entries (host ++ (32 ∷ fp)) h
                ∙ first_contact host fp h entries ok new,
          )
      | inr (known, there) ↦
          let (text, found) = known_hosts_from_known host fp known 0 entries there in
          (ground (arith, there, found), ground (arith, there, found))
    ]

-- After a check that accepts a key of a host, a further check for that host accepts exactly the same
-- fingerprint (hosts without spaces and NULs, fingerprints without NULs).
pub known_hosts_check_again :
    (host fp fp2 : Bytes) (entries : List Bytes)
    → IsHost host
    → IsText fp
    → IsText fp2
    → (known_hosts_check host fp entries).0 ≡ true
    → ((known_hosts_check host fp2 (known_hosts_check host fp entries).2).0 ≡ true) ↔ (fp2 ≡ fp)
unfolding is_trusted remember
known_hosts_check_again host fp fp2 entries ok text text2 accepted =
    let first = known_hosts_check-refines host fp host entries ok text in
    let second =
      known_hosts_check-refines host fp2 host (known_hosts_check host fp entries).2 ok text2 in
    let remembered : fingerprint_of (known_hosts_check host fp entries).2 host ≡ some fp =
      elim (Option-cases (fingerprint_of entries host)) [
        | inl new ↦ ground (arith, new, first, bytes_eq_refl host)
        | inr (known, there) ↦
            let same : bytes_eq known fp ≡ true = ground (arith, there, first, accepted) in
            ground (arith, there, first, bytes_eq_sound known fp same)
      ] in
    let verdict : (known_hosts_check host fp2 (known_hosts_check host fp entries).2).0
        ≡ bytes_eq fp fp2 =
      ground (arith, second, remembered) in
    (
      λ e. sym (bytes_eq_sound fp fp2 (sym verdict ∙ e)),
      λ e. verdict ∙ ap (bytes_eq fp) e ∙ bytes_eq_refl fp,
    )
