-- ===== src/Keys.antt =====
-- The authorized-key store of esp-idf/src/sshd.cpp: the array of per-field objects under
-- s.sshd.authorized_keys, and the two values that the forms read.
pub mod Text
pub mod Add
pub mod Remove
pub mod Migrate
use sshd.Base.{
  ℕ, zero, suc, ◌+◌, ◌-◌, ◌*◌, ◌/◌, ◌%◌, Bool, true, false, not, ◌&&◌, ◌||◌, ◌==◌, Option, none,
  some, Bytes, List, [], ◌∷◌, ◌++◌, ltb, leb, if◌then◌else◌, length, take, drop, get_or, bytes_eq,
  codes,
}
use sshd.Session.Version.{find_byte}

pub record Key : Type 0 where
  pub id : Bytes
  pub line : Bytes
  pub label : Bytes

-- `sshd.key.error` and `sshd.key.done` beside the array.
pub record Store : Type 0 where
  pub keys : List Key
  pub error : Bytes
  pub done : ℕ

-- `isspace` and `isalnum` in the C locale.
abbrev pub is_space : ℕ → Bool
is_space c = c == 32 || leb 9 c && leb c 13

abbrev pub is_alnum : ℕ → Bool
is_alnum c = leb 48 c && leb c 57 || leb 65 c && leb c 90 || leb 97 c && leb c 122

-- The two loops of `keyNormalize`.
unfoldable pub trim_front : Bytes → Bytes
trim_front [] = []
trim_front (c ∷ r) = let rest = trim_front r in if is_space c then rest else c ∷ r

-- A byte in front of what was trimmed: where nothing is left behind it, a space goes too.
unfoldable pub trim_last : ℕ → Bytes → Bytes
trim_last c [] = if is_space c then [] else c ∷ []
trim_last c (x ∷ r) = c ∷ x ∷ r

unfoldable pub trim_back : Bytes → Bytes
trim_back [] = []
trim_back (c ∷ r) = trim_last c (trim_back r)

unfoldable pub key_normalize : Bytes → Bytes
key_normalize raw = trim_back (trim_front raw)

-- The text between the first space and the second, or the end.
unfoldable pub key_blob : Bytes → ℕ → Bytes
key_blob line sp1 =
    let tail = drop (sp1 + 1) line in
    elim (find_byte b' ' tail) [ none ↦ tail | some sp2 ↦ take sp2 tail ]

unfoldable pub key_comment : Bytes → ℕ → Bytes
key_comment line sp1 =
    let tail = drop (sp1 + 1) line in
    elim (find_byte b' ' tail) [ none ↦ [] | some sp2 ↦ drop (sp2 + 1) tail ]

unfoldable pub key_label : Bytes → Bytes
key_label line = elim (find_byte b' ' line) [
  | none ↦ line
  | some sp1 ↦
      let blob = key_blob line sp1 in
      let comment = key_comment line sp1 in
      let tail =
        if ltb 12 (length blob) then 0xe2 ∷ 0x80 ∷ 0xa6 ∷ drop (length blob - 12) blob else blob in
      take sp1 line
      ++ (32 ∷ tail)
      ++ (if length comment == 0 then [] else (32 ∷ 32 ∷ []) ++ comment)
]

unfoldable pub all_base64 : Bytes → Bool
all_base64 [] = true
all_base64 (c ∷ r) = (is_alnum c || c == b'+' || c == b'/' || c == b'=') && all_base64 r

-- The tests of `keyRejection` on a trimmed line.
unfoldable pub line_rejection : Bytes → Bytes
line_rejection line = if length line == 0 then codes "Empty." else elim (find_byte b' ' line) [
  | none ↦ codes "Expected: ssh-ed25519 <base64> [comment]"
  | some sp1 ↦
      if not (bytes_eq (take sp1 line) (codes "ssh-ed25519"))
      then codes "Only ssh-ed25519 keys are accepted (got \"" ++ take sp1 line ++ codes "\")."
      else (if not (all_base64 (key_blob line sp1))
          then codes "Key body is not valid base64."
          else (if ltb (length (key_blob line sp1)) 64
              then codes "Key body looks too short for ed25519."
              else []))
]

unfoldable pub key_rejection : Bytes → Bytes
key_rejection raw = line_rejection (key_normalize raw)

-- `%d` of a number from 1 on, with fuel: the digits in front of `acc`.
unfoldable pub decimal_from : ℕ → ℕ → Bytes → Bytes
decimal_from zero n acc = acc
decimal_from (suc fuel) n acc =
    let rest = decimal_from fuel (n / 10) ((48 + n % 10) ∷ acc) in if n == 0 then acc else rest

unfoldable pub decimal : ℕ → Bytes
decimal n = decimal_from n n []

-- `atoi`, where a value below 0 counts as 0: `keyNextId` only compares it with numbers from 0 on.
unfoldable pub digits_value : ℕ → Bytes → ℕ
digits_value acc [] = acc
digits_value acc (c ∷ r) =
    let more = digits_value (acc * 10 + (c - 48)) r in if leb 48 c && leb c 57 then more else acc

unfoldable pub signed_value : Bytes → ℕ
signed_value [] = 0
signed_value (c ∷ r) =
    if c == b'-' then 0 else (if c == b'+' then digits_value 0 r else digits_value 0 (c ∷ r))

-- `INT_MAX`
abbrev pub max_int : ℕ
max_int = 2147483647

-- `strtol`, where `long` has 32 bits as well, gives this bound for a number above it.
unfoldable pub atoi : Bytes → ℕ
atoi s = let value = signed_value (trim_front s) in if ltb max_int value then max_int else value

-- The loop of `keyNextId`.
unfoldable pub best_id : ℕ → List Key → ℕ
best_id best [] = best
best_id best (k ∷ r) = best_id (if ltb best (atoi k.id) then atoi k.id else best) r

-- `best + 1` is an `int`, which wraps around on this target.
unfoldable pub key_next_id : List Key → Bytes
key_next_id keys =
    if best_id 0 keys == max_int then codes "-2147483648" else decimal (best_id 0 keys + 1)

unfoldable pub key_index_of_id : Bytes → List Key → Option ℕ
key_index_of_id id [] = none
key_index_of_id id (k ∷ r) =
    let rest = key_index_of_id id r in
    if bytes_eq k.id id then some 0 else elim rest [ none ↦ none | some i ↦ some (suc i) ]

-- Whether some stored key has the line.
unfoldable pub has_line : Bytes → List Key → Bool
has_line line [] = false
has_line line (k ∷ r) = bytes_eq k.line line || has_line line r

-- The three fields at an index, which is at most the length of the array.
unfoldable pub key_write : ℕ → Bytes → Bytes → List Key → List Key
key_write zero id line [] = record { id = id; line = line; label = key_label line } ∷ []
key_write zero id line (k ∷ r) = record { id = id; line = line; label = key_label line } ∷ r
key_write (suc i) id line [] = []
key_write (suc i) id line (k ∷ r) = k ∷ key_write i id line r

abbrev pub no_key : Key
no_key = record { id = []; line = []; label = [] }

unfoldable pub key_add : Bytes → Store → Store
key_add raw st =
    let line = key_normalize raw in
    let why = key_rejection line in
    if not (length why == 0)
    then record st { error = why }
    else (if has_line line st.keys
        then record st { error = codes "That key is already authorized." }
        else record {
          keys = key_write (length st.keys) (key_next_id st.keys) line st.keys;
          error = [];
          done = st.done + 1;
        })

-- The loop of `keyRemove`: `left` items from the index `i` on. Reads see the committed array, writes
-- go to the transaction's.
unfoldable pub compact : ℕ → ℕ → List Key → List Key → List Key
compact zero i committed written = written
compact (suc left) i committed written =
    let next = get_or committed (i + 1) no_key in
    compact left (i + 1) committed (key_write i next.id next.line written)

unfoldable pub key_remove : Bytes → Store → Store
key_remove id st = elim (key_index_of_id id st.keys) [
  | none ↦ record st { error = codes "No such key." }
  | some idx ↦
      let n = length st.keys in
      record {
        keys = take (n - 1) (compact (n - 1 - idx) idx st.keys st.keys);
        error = [];
        done = st.done + 1;
      }
]

-- The values that the settings write, where `json_line` is the string `line` of a JSON object, if cJSON
-- finds one. The value is then set to the empty text, which changes nothing here.
unfoldable pub key_sentinel : (Bytes → Option Bytes) → Bytes → Bytes → Store → Store
key_sentinel json_line key value st =
    if length value == 0
    then st
    else (if bytes_eq key (codes "sshd.key.add")
        then key_add (elim (json_line value) [ none ↦ [] | some line ↦ line ]) st
        else (if bytes_eq key (codes "sshd.key.remove") then key_remove value st else st))
