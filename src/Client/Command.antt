-- ===== src/Client/Command.antt =====
-- The commands of esp-idf/src/ssh_client.cpp: the arguments of `cmd_ssh` up to its job, and the user
-- key of `cmd_ssh_keygen`.
pub mod UserKey
use sshd.Base.{
  ℕ, zero, suc, ◌+◌, ◌-◌, ◌%◌, ◌^◌, true, false, not, ◌||◌, ◌==◌, Option, none, some, Bytes, [],
  ◌∷◌, ◌++◌, if◌then◌else◌, length, take, drop, codes, bytes_eq, out_array,
}
use sshd.Wire.{put_string, put_cstring}
use sshd.Platform.{Platform}
use sshd.Crypto.{ed25519_pub_from_seed}
use sshd.Session.{ssh_ed25519}
use sshd.Session.Version.{find_byte}
use sshd.Keys.{trim_front, digits_value}
use sshd.Client.{SshJob, safe_strncpy}

-- ---- the user key ----

unfoldable pub openssh_pubkey_line : Platform → Bytes → Bytes
openssh_pubkey_line env pub32 =
    elim (env.base64_encode (put_string (put_cstring [] ssh_ed25519) pub32) 120) [
      | none ↦ []
      | some b64 ↦ codes "ssh-ed25519 " ++ b64
    ]

-- The seed of a stored text; an array of 32 bytes takes what is decoded.
unfoldable pub load_user_seed : Platform → Bytes → Option Bytes
load_user_seed env b64 = if length b64 == 0 then none else elim (env.base64_decode b64 32) [
  | none ↦ none
  | some seed ↦ if not (length seed == 32) then none else some seed
]

-- What `cmd_ssh_keygen` stores: secrets.ssh.privkey and s.ssh.pubkey.
pub record UserKeys : Type 0 where
  pub privkey : Bytes
  pub pubkey : Bytes

-- `none` where a message is printed and nothing is stored; `drawn` came from `randomBytes`.
unfoldable pub cmd_ssh_keygen : Platform → Bytes → Option UserKeys
cmd_ssh_keygen env drawn =
    let seed = out_array 32 drawn in
    elim (env.base64_encode seed 64) [
      | none ↦ none
      | some b64 ↦ elim (ed25519_pub_from_seed env seed) [
        | none ↦ none
        | some pub32 ↦
            let line = openssh_pubkey_line env pub32 in
            if length line == 0 then none else some (record { privkey = b64; pubkey = line })
      ]
    ]

-- ---- the arguments ----

unfoldable pub skipws : Bytes → Bytes
skipws [] = []
skipws (c ∷ r) = let rest = skipws r in if c == b' ' then rest else c ∷ r

-- The bytes up to a space, and the rest from it on.
unfoldable pub up_to_space : Bytes → Bytes × Bytes
up_to_space [] = ([], [])
up_to_space (c ∷ r) =
    let (word, rest) = up_to_space r in if c == b' ' then ([], c ∷ r) else (c ∷ word, rest)

unfoldable pub token : Bytes → Bytes × Bytes
token args = up_to_space (skipws args)

-- `(uint16_t)atoi(…)`, where the number is an `int`.
unfoldable pub signed_port : Bytes → ℕ
signed_port [] = 0
signed_port (c ∷ r) =
    if c == b'-'
    then (2 ^ 16 - digits_value 0 r % 2 ^ 16) % 2 ^ 16
    else (if c == b'+' then digits_value 0 r % 2 ^ 16 else digits_value 0 (c ∷ r) % 2 ^ 16)

unfoldable pub port_of : Bytes → ℕ
port_of text = signed_port (trim_front text)

-- The port, the target and what follows it; or an option that is not known.
pub data Options : Type 0 where
  options : ℕ → Bytes → Bytes → Options
  unknown : Bytes → Options

-- The loop over the options, with fuel.
unfoldable pub take_options : ℕ → ℕ → Bytes → Options
take_options zero port args = options port [] args
take_options (suc fuel) port args =
    let text = skipws args in
    let (word, rest) = token text in
    let (value, behind) = token rest in
    let named = if length value == 0 then port else port_of value in
    let more = take_options fuel named behind in
    elim text [
      | [] ↦ options port [] []
      | c ∷ r ↦
          if c == b'-'
          then (if bytes_eq word (codes "-p") then more else unknown word)
          else options port word rest
    ]

-- What `cmd_ssh` reads from the storage, and the line that the user types at the prompt for the
-- password, if one is asked for: `none` where `cliReadLine` returns a number below 0.
pub record Settings : Type 0 where
  pub port : ℕ
  pub user : Bytes
  pub password : Bytes
  pub privkey : Bytes
  pub typed_line : Option Bytes
  -- what the array `job.seed` holds where no seed of 32 bytes was loaded into it
  pub stale_seed : Bytes

-- The messages with which `cmd_ssh` ends before it has a job.
pub data Refusal : Type 0 where
  unknown_option : Bytes → Refusal
  usage empty_host cancelled no_password : Refusal

pub data Prepared : Type 0 where
  job : SshJob → Prepared
  refusal : Refusal → Prepared

-- The user and the host.
unfoldable pub split_target : Bytes → Bytes → Bytes × Bytes
split_target default_user target = elim (find_byte b'@' target) [
  | none ↦ (safe_strncpy 64 default_user, target)
  | some at ↦ (safe_strncpy 64 (take at target), drop (at + 1) target)
]

unfoldable pub ask_password : Settings → SshJob → Prepared
ask_password settings j =
    if j.have_password || j.try_pubkey then job j else elim (settings.typed_line) [
      | none ↦ refusal cancelled
      | some line ↦
          if length line == 0
          then refusal no_password
          else job (record j { password = line; have_password = true })
    ]

module _ (env : Platform) (settings : Settings) where
  unfoldable pub job_for : ℕ → Bytes → Bytes → Bytes → SshJob
  job_for port user host command =
      let seed = load_user_seed env settings.privkey in
      record {
        host = safe_strncpy 96 host;
        port = port;
        user = user;
        have_cmd = not (length command == 0);
        command = command;
        have_password = not (length settings.password == 0);
        password = settings.password;
        try_pubkey = elim seed [ none ↦ false | some _ ↦ true ];
        seed = elim seed [ none ↦ settings.stale_seed | some bytes ↦ bytes ];
        out = true;
        input = length command == 0;
        user_close = false;
        rc = 1;
        msg = [];
        have_exit = false;
        exit_status = 0;
      }

  unfoldable pub prepare_target : ℕ → Bytes → Bytes → Prepared
  prepare_target port target rest =
      let (user, host) = split_target settings.user target in
      if length target == 0
      then refusal usage
      else (if length host == 0
          then refusal empty_host
          else ask_password settings (job_for port user host (skipws rest)))

  -- Each option takes a byte at least.
  unfoldable pub prepare_job : Bytes → Prepared
  prepare_job args = elim (take_options (suc (length args)) (settings.port % 2 ^ 16) args) [
    | unknown word ↦ refusal (unknown_option word)
    | options port target rest ↦ prepare_target port target rest
  ]
