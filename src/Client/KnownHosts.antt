-- ===== src/Client/KnownHosts.antt =====
-- The known hosts of esp-idf/src/ssh_client.cpp: `hostkey_fingerprint` and `known_hosts_check` on the
-- array s.ssh.known_hosts.
pub mod Trust
use sshd.Base.{
  ℕ, zero, suc, ◌+◌, ◌-◌, Bool, true, false, not, ◌==◌, Option, none, some, Bytes, List, [], ◌∷◌,
  ◌++◌, if◌then◌else◌, length, take, drop, bytes_eq, codes,
}
use sshd.Platform.{Platform}
use sshd.Crypto.{sha256, base64_nopad}
use sshd.Session.Auth.{c_str}
use sshd.Session.Version.{find_byte}
use sshd.Keys.{decimal}

-- The C string in the array of 80 bytes.
unfoldable pub hostkey_fingerprint : Platform → Bytes → Bytes
hostkey_fingerprint env k_blob = codes "SHA256:" ++ base64_nopad env (sha256 env k_blob) (80 - 7)

-- `%d`
unfoldable pub print_number : ℕ → Bytes
print_number zero = codes "0"
print_number (suc n) = decimal (suc n)

-- `snprintf` into an array of 200 bytes.
abbrev pub note_text : Bytes → Bytes
note_text text = take 199 text

-- The text in UTF-8, with a dash of three bytes.
unfoldable pub changed_note : Bytes → Bytes → ℕ → Bytes
changed_note host fp i =
    codes "HOST KEY CHANGED for "
    ++ (host
        ++ (codes "! got "
            ++ (fp
                ++ (32 ∷ 0xe2 ∷ 0x80 ∷ 0x94 ∷ codes " refusing. Clear s.ssh.known_hosts."
                    ++ (print_number i ++ codes " to override.")))))

-- One entry: `none` is `continue`, and otherwise whether the fingerprint is that of the entry.
unfoldable pub entry_verdict : Bytes → Bytes → Bytes → Option Bool
entry_verdict host fp e = elim (find_byte b' ' e) [
  | none ↦ none
  | some sp ↦ if not (bytes_eq (take sp e) host) then none else some (bytes_eq (drop (sp + 1) e) fp)
]

-- The loop, from the entry `i` on: whether to proceed, with the note; `none` where no entry has the
-- host.
unfoldable pub known_hosts_from : Bytes → Bytes → ℕ → List Bytes → Option (Bool × Bytes)
known_hosts_from host fp i [] = none
known_hosts_from host fp i (e ∷ r) =
    let rest = known_hosts_from host fp (i + 1) r in
    elim (entry_verdict host fp e) [
      | none ↦ rest
      | some true ↦ some (true, note_text (codes "host key OK (" ++ (fp ++ codes ")")))
      | some false ↦ some (false, note_text (changed_note host fp i))
    ]

-- The result, the note and the array.
unfoldable pub known_hosts_check : Bytes → Bytes → List Bytes → Bool × Bytes × List Bytes
known_hosts_check host fp entries = elim (known_hosts_from host fp 0 entries) [
  | some (result, text) ↦ (result, text, entries)
  | none ↦ (
    true,
    note_text (codes "host key added to known_hosts (" ++ (fp ++ codes ")")),
    entries ++ (c_str (host ++ (32 ∷ fp)) ∷ []),
  )
]
