-- ===== src/Platform.antt =====
-- The code that the program calls and that is not its own: mbedTLS, the two vendored libraries
-- (esp-idf/src/orlp_ed25519, esp-idf/src/mlkem_native), the random generator, the ITS byte streams,
-- the storage and the login service. Each call is a field, and the model takes the whole record as
-- an argument.
use sshd.Base.{ℕ, Bool, Option, Bytes, List}

-- What a connection to a backend is opened with: `cli_connect_t` and `log_connect_t`.
pub data CliMode : Type 0 where
  cli_ansi cli_line : CliMode

pub data Backend : Type 0 where
  -- the mode, whether colour is on, and `noPrompt`
  cli : CliMode → Bool → Bool → Backend
  log : Bool → Backend

-- The calls of ITS and of the tasks, in the order in which they were made. A handle below 0 is
-- `none`.
pub data Event : Type 0 where
  sent : Option ℕ → Bytes → Event
  connected : Backend → Option ℕ → Event
  disconnected : Option ℕ → Event
  drained : Option ℕ → Event
  slot_freed : ℕ → Event
  -- the client's `itsConnect` to "net", with the text that it dials
  dialed : Bytes → Option ℕ → Event

pub record Platform : Type 0 where
  -- `mbedtls_sha256`; updates of a context hash the concatenation.
  pub sha256 : Bytes → Bytes
  -- `mbedtls_chacha20_update` under a key, a nonce and a counter: the output, and a non-zero result.
  pub chacha20 : Bytes → Bytes → ℕ → Bytes → Bytes
  pub chacha20_fails : Bytes → Bytes → ℕ → Bytes → Bool
  -- `mbedtls_poly1305_*` under a key: the tag, and a non-zero result.
  pub poly1305 : Bytes → Bytes → Bytes
  pub poly1305_fails : Bytes → Bytes → Bool
  -- Curve25519 by `mbedtls_ecp_*`: a big-endian scalar times a big-endian point, or times the
  -- group's base point (`none`); `none` where one of the calls fails.
  pub curve25519_mul : Bytes → Option Bytes → Option Bytes
  -- `crypto_kem_enc`: the ciphertext and the shared secret.
  pub kem_enc : Bytes → Option (Bytes × Bytes)
  -- `orlp_ed25519_create_keypair`, `orlp_ed25519_sign` (message, public, private) and
  -- `orlp_ed25519_verify` (signature, message, public).
  pub ed25519_keypair : Bytes → Bytes × Bytes
  pub ed25519_sign : Bytes → Bytes → Bytes → Bytes
  pub ed25519_verify : Bytes → Bytes → Bytes → Bool
  -- `mbedtls_base64_decode` of a text, with the capacity of the output.
  pub base64_decode : Bytes → ℕ → Option Bytes
  -- `mbedtls_base64_encode` of bytes, with the capacity of the output.
  pub base64_encode : Bytes → ℕ → Option Bytes
  -- What a local array of that many bytes holds before anything is written.
  pub stale : ℕ → Bytes
  -- `randomBytes`: the calls are numbered.
  pub random : ℕ → ℕ → Bytes
  -- `itsSend` after the events so far: how many bytes the stream took.
  pub its_send : List Event → Option ℕ → Bytes → ℕ
  -- `itsConnect` after the events so far.
  pub its_connect : List Event → Backend → Option ℕ
  -- `itsRecv` may return fewer bytes than are wanted and waiting, but at least one: by how much it
  -- returns more than one.
  pub its_recv_more : ℕ → ℕ → ℕ
  -- `storageGetStr("secrets.sshd.host_seed", "")`
  pub host_seed : Bytes
  -- `storageArrayCount("s.sshd.authorized_keys.")`, and the line of each entry.
  pub authorized_count : ℕ
  pub authorized_line : ℕ → Bytes
  -- `storageGetInt("s.sshd.color", 0)` and `storageGetInt("s.sshd.logcolor", 0)`, not 0.
  pub color : Bool
  pub log_color : Bool
  -- `authLogin(pw, "admin", …) == AUTH_OK`
  pub auth_login : Bytes → Bool
