-- ===== src/Keys/Migrate.antt =====
-- The one-time move of the key store to per-field objects, `keyMigrate` of esp-idf/src/sshd.cpp.
use sshd.Base.{
  ℕ, ◌+◌, ◌≡◌, refl, sym, ap, ◌∙◌, Option, none, some, Bytes, List, [], ◌∷◌, ◌++◌, length,
  append_assoc, append-nil, length-append, Option-cases, inl, inr, ◌⊎◌, arith,
}
use sshd.Keys.Add.{key_write_end}
use sshd.Keys.{Key, decimal, key_label, key_write}

-- An element of the stored array: a line, as it was once, or the fields of a key.
pub data Item : Type 0 where
  flat : Bytes → Item
  object : Key → Item

-- The lines, if all elements are lines and none is empty.
unfoldable pub flat_lines : List Item → Option (List Bytes)
flat_lines [] = some []
flat_lines (object k ∷ r) = none
flat_lines (flat [] ∷ r) = none
flat_lines (flat (c ∷ t) ∷ r) = elim (flat_lines r) [
  | none ↦ none
  | some lines ↦ some ((c ∷ t) ∷ lines)
]

-- The second loop, from the index `i` on.
unfoldable pub write_lines : ℕ → List Bytes → List Key → List Key
write_lines i [] keys = keys
write_lines i (line ∷ r) keys = write_lines (i + 1) r (key_write i (decimal (i + 1)) line keys)

unfoldable pub objects : List Key → List Item
objects [] = []
objects (k ∷ r) = object k ∷ objects r

unfoldable pub key_migrate : List Item → List Item
key_migrate items = elim (flat_lines items) [
  | none ↦ items
  | some lines ↦ objects (write_lines 0 lines [])
]

-- The keys of lines, with the ids from `i` + 1 on.
unfoldable pub numbered : ℕ → List Bytes → List Key
numbered i [] = []
numbered i (line ∷ r) =
    record { id = decimal (i + 1); line = line; label = key_label line } ∷ numbered (i + 1) r

write_lines-numbered :
    (i : ℕ) (lines : List Bytes) (keys : List Key)
    → length keys ≡ i
    → write_lines i lines keys ≡ keys ++ numbered i lines
unfolding write_lines numbered
write_lines-numbered i [] keys h = sym (append-nil keys)
write_lines-numbered i (line ∷ r) keys h =
    let k : Key = record { id = decimal (i + 1); line = line; label = key_label line } in
    let written : key_write i (decimal (i + 1)) line keys ≡ keys ++ (k ∷ []) =
      ap (λ n. key_write n (decimal (i + 1)) line keys) (sym h)
      ∙ key_write_end (decimal (i + 1)) line keys in
    ap (write_lines (i + 1) r) written
    ∙ write_lines-numbered (i + 1) r (keys ++ (k ∷ []))
        (omega (arith, h, length-append keys (k ∷ [])))
    ∙ append_assoc keys (k ∷ []) (numbered (i + 1) r)

objects_stay : (keys : List Key) → key_migrate (objects keys) ≡ objects keys
unfolding key_migrate flat_lines objects write_lines
objects_stay [] = refl
objects_stay (k ∷ r) = refl

-- Where all elements are lines and none is empty, the keys are these lines, with the ids from 1 on;
-- otherwise nothing changes.
pub key_migrate_lem :
    (items : List Item)
    → ((lines : List Bytes) × (flat_lines items ≡ some lines)
        × (key_migrate items ≡ objects (numbered 0 lines)))
      ⊎ ((flat_lines items ≡ none) × (key_migrate items ≡ items))
unfolding key_migrate
key_migrate_lem items = elim (Option-cases (flat_lines items)) [
  | inl other ↦ inr (other, ground (arith, other))
  | inr (lines, all) ↦ inl (lines, all, ground (arith, all, write_lines-numbered 0 lines [] refl))
]

-- A second move changes nothing.
pub key_migrate-key_migrate :
    (items : List Item) → key_migrate (key_migrate items) ≡ key_migrate items
unfolding key_migrate
key_migrate-key_migrate items = elim (key_migrate_lem items) [
  | inr (other, same) ↦ ap key_migrate same
  | inl (lines, all, moved) ↦ ap key_migrate moved ∙ objects_stay (numbered 0 lines) ∙ sym moved
]
