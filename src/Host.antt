-- ===== src/Host.antt =====
-- The host key and the listener's settings of esp-idf/src/sshd.cpp: `loadHostSeed`,
-- `generateHostSeed`, `opensshPubkeyLine`, `sshdHostFingerprint`, `cmdSshdKeygen`, `cmdSshdShowkey`,
-- `applyListenerState` and the setting in `cmdSshd`.
pub mod Fingerprint
pub mod Listener
use sshd.Base.{
  ℕ, ◌+◌, ◌-◌, Bool, true, false, not, ◌==◌, Option, none, some, Bytes, [], ◌∷◌, ◌++◌, ltb,
  if◌then◌else◌, length, take, codes, out_array,
}
use sshd.Platform.{Platform}
use sshd.Crypto.{sha256, ed25519_pub_from_seed, base64_nopad}
use sshd.Session.{ssh_ed25519}

-- ---- the host key ----

-- The array `blob`, in both functions that make one.
unfoldable pub key_blob_array : Bytes → Bytes
key_blob_array pub32 = (0 ∷ 0 ∷ 0 ∷ 11 ∷ ssh_ed25519) ++ (0 ∷ 0 ∷ 0 ∷ 32 ∷ pub32)

module _ (env : Platform) where
  -- The seed of a stored text.
  unfoldable pub load_host_seed : Bytes → Option Bytes
  load_host_seed stored = if length stored == 0 then none else elim (env.base64_decode stored 32) [
    | none ↦ none
    | some seed ↦ if not (length seed == 32) then none else some seed
  ]

  -- What is stored afterwards, where `drawn` came from `randomBytes`; the same for `cmdSshdKeygen`.
  unfoldable pub generate_host_seed : Bytes → Bytes → Bytes
  generate_host_seed drawn stored = elim (env.base64_encode (out_array 32 drawn) 64) [
    | none ↦ stored
    | some b64 ↦ b64
  ]

  -- The step of `onInit`.
  unfoldable pub init_host_seed : Bytes → Bytes → Bytes
  init_host_seed drawn stored = elim (load_host_seed stored) [
    | none ↦ generate_host_seed drawn stored
    | some seed ↦ stored
  ]

  unfoldable pub host_pubkey_line : Bytes → Bytes
  host_pubkey_line pub32 = elim (env.base64_encode (key_blob_array pub32) 120) [
    | none ↦ []
    | some b64 ↦ codes "ssh-ed25519 " ++ b64
  ]

  -- The line that is printed; `none` where a message is printed instead.
  unfoldable pub cmd_sshd_showkey : Bytes → Option Bytes
  cmd_sshd_showkey stored = elim (load_host_seed stored) [
    | none ↦ none
    | some seed ↦ elim (ed25519_pub_from_seed env seed) [
      | none ↦ none
      | some pub32 ↦
          let line = host_pubkey_line pub32 in if length line == 0 then none else some line
    ]
  ]

  -- The C string in the array of `buf_len` bytes, where the function returns true.
  unfoldable pub print_fingerprint : ℕ → Bytes → Option Bytes
  print_fingerprint buf_len pub32 =
      let text = base64_nopad env (sha256 env (key_blob_array pub32)) (buf_len - 7) in
      if ltb buf_len (8 + 43 + 1)
      then none
      else (if length text == 0 then none else some (codes "SHA256:" ++ text))

  unfoldable pub sshd_host_fingerprint : ℕ → Bytes → Option Bytes
  sshd_host_fingerprint buf_len stored = elim (load_host_seed stored) [
    | none ↦ none
    | some seed ↦ elim (ed25519_pub_from_seed env seed) [
      | none ↦ none
      | some pub32 ↦ print_fingerprint buf_len pub32
    ]
  ]

-- ---- the listener ----

-- The integers in the storage, as 32-bit patterns; `none` where a key is missing.
pub record Settings : Type 0 where
  pub enabled : Option ℕ
  pub port : Option ℕ
  pub net_port : Option ℕ

abbrev pub sshd_port_tcp : ℕ
sshd_port_tcp = 22

-- `storageGetInt`
unfoldable pub storage_get_int : Option ℕ → ℕ → ℕ
storage_get_int none value = value
storage_get_int (some n) value = n

-- `want` in `applyListenerState`.
unfoldable pub wanted_port : Settings → ℕ
wanted_port s =
    if not (storage_get_int s.enabled 1 == 0) then storage_get_int s.port sshd_port_tcp else 0

-- Also how many times the value of net is set, which net answers by opening its listeners again.
unfoldable pub apply_listener_state : Settings → ℕ × Settings
apply_listener_state s =
    if storage_get_int s.net_port 0xffffffff == wanted_port s
    then (0, s)
    else (1, record s { net_port = some (wanted_port s) })

-- `sshd enable` and `sshd disable`, with the subscriber of s.sshd.enabled.
unfoldable pub cmd_sshd_enable : Bool → Settings → ℕ × Settings
cmd_sshd_enable on s = apply_listener_state (record s { enabled = some (if on then 1 else 0) })
