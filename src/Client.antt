-- ===== src/Client.antt =====
-- The head of esp-idf/src/ssh_client.cpp: the job that the command line and the worker share, the
-- state of one outgoing connection, and what stands around it while the worker runs a session.
pub mod Msg
pub mod Steps
pub mod Packet
pub mod Hash
pub mod KnownHosts
pub mod Kexinit
pub mod Kex
pub mod Auth
pub mod Channel
pub mod Run
pub mod Command
pub mod Relay
pub mod Ends
use sshd.Base.{
  ℕ, ◌+◌, ◌-◌, Bool, true, false, Option, none, some, Bytes, List, [], ◌∷◌, take, codes,
  if◌then◌else◌, replicate,
}
use sshd.Platform.{Event}
use sshd.Session.Auth.{c_str}

abbrev pub our_client_version_str : Bytes
our_client_version_str = codes "SSH-2.0-spangap-ssh_0.1"

-- `out` and `input` say whether there is a stream to and from the command line.
pub record SshJob : Type 0 where
  pub host : Bytes
  pub port : ℕ
  pub user : Bytes
  pub have_cmd : Bool
  pub command : Bytes
  pub have_password : Bool
  pub password : Bytes
  pub try_pubkey : Bool
  pub seed : Bytes
  pub out : Bool
  pub input : Bool
  pub user_close : Bool
  pub rc : ℕ
  pub msg : Bytes
  pub have_exit : Bool
  pub exit_status : ℕ

-- A handle below 0 is `none`.
pub record Csess : Type 0 where
  pub handle : Option ℕ
  pub rx_buf : Bytes
  pub our_version : Bytes
  pub peer_version : Bytes
  pub our_kex_init : Bytes
  pub peer_kex_init : Bytes
  pub eph_priv : Bytes
  pub eph_pub : Bytes
  pub peer_eph_pub : Bytes
  pub shared_k : Bytes
  pub session_id : Bytes
  pub send_key : Bytes
  pub recv_key : Bytes
  pub enc_out : Bool
  pub enc_in : Bool
  pub seq_out : ℕ
  pub seq_in : ℕ
  pub peer_channel : ℕ
  pub peer_window : ℕ
  pub peer_max_packet : ℕ
  pub local_window : ℕ

-- `Csess cs;`
abbrev pub new_csess : Csess
new_csess = record {
  handle = none;
  rx_buf = [];
  our_version = [];
  peer_version = [];
  our_kex_init = [];
  peer_kex_init = [];
  eph_priv = replicate 32 0;
  eph_pub = replicate 32 0;
  peer_eph_pub = replicate 32 0;
  shared_k = replicate 32 0;
  session_id = replicate 32 0;
  send_key = replicate 64 0;
  recv_key = replicate 64 0;
  enc_out = false;
  enc_in = false;
  seq_out = 0;
  seq_in = 0;
  peer_channel = 0;
  peer_window = 0;
  peer_max_packet = 0;
  local_window = 0;
}

-- One call of `itsRecv` by the client: the bytes that it wrote into the array of 1024, the ticks that
-- passed, whether `itsConnected` holds afterwards, and what the command line did meanwhile: the keys
-- that it put into `job.in`, and whether it has set `job.userClose`.
pub record Read : Type 0 where
  pub bytes : Bytes
  pub elapsed : ℕ
  pub connected : Bool
  pub typed : Bytes
  pub closing : Bool

-- What ssh_client.cpp calls and Platform does not have: the ticks of some milliseconds, the dial to
-- "host:port", the client's terminal, how much of some bytes the stream to the command line takes
-- (the calls are numbered by the bytes taken before), and by how much a read of keys returns more
-- than one.
pub record Device : Type 0 where
  pub ms_to_ticks : ℕ → ℕ
  pub dial : Bytes → Option ℕ
  pub cli_term_size : ℕ × ℕ
  pub stream_send : ℕ → Bytes → ℕ
  pub stream_more : ℕ → ℕ → ℕ

-- `trace` has the calls made so far, the newest first, and `draws` counts those of `randomBytes`.
-- `script` has what the reads to come will bring; `ticks` is the tick count, which moves while the
-- client waits in a read. `screen` is what was put out to the command line and `keys` what waits in
-- `job.in`.
pub record Outbound : Type 0 where
  pub job : SshJob
  pub cs : Csess
  pub trace : List Event
  pub draws : ℕ
  pub script : List Read
  pub ticks : ℕ
  pub screen : Bytes
  pub keys : Bytes
  pub known_hosts : List Bytes
  pub offered_methods : Bytes

abbrev pub with_cs : Outbound → Csess → Outbound
with_cs w c = record w { cs = c }

abbrev pub with_job : Outbound → SshJob → Outbound
with_job w j = record w { job = j }

abbrev pub log_event : Outbound → Event → Outbound
log_event w e = record w { trace = e ∷ w.trace }

-- What a part of the client gives: a value, the failure that it has noted in the job, or nothing yet
-- where the script ends while it waits in a read.
pub data Answer (A : Type 0) : Type 0 where
  ok : A → Answer A
  failed : Answer A
  waiting : Answer A

abbrev pub Action : Type 0 → Type 0
Action A = Outbound → Answer A × Outbound

unfoldable pub pure : {A : Type 0} → A → Action A
pure a w = (ok a, w)

-- The rest of a block, on what the part before gave.
unfoldable pub continue_with :
    {A B : Type 0} → (A → Action B) → Answer A × Outbound → Answer B × Outbound
continue_with f (ok a, w) = f a w
continue_with f (failed, w) = (failed, w)
continue_with f (waiting, w) = (waiting, w)

infixl 5 ◌>>=◌ ◌>>◌
unfoldable pub ◌>>=◌ : {A B : Type 0} → Action A → (A → Action B) → Action B
unfolding continue_with
◌>>=◌ m f w = continue_with f (m w)

unfoldable pub ◌>>◌ : {A B : Type 0} → Action A → Action B → Action B
unfolding ◌>>=◌
m >> k = m >>= λ _. k

unfoldable pub get : Action Outbound
get w = (ok w, w)

unfoldable pub modify : (Outbound → Outbound) → Action (Unit)
modify f w = (ok tt, f w)

-- `safeStrncpy` into an array of `n` bytes.
unfoldable pub safe_strncpy : ℕ → Bytes → Bytes
safe_strncpy n text = take (n - 1) (c_str text)

-- `return fail(…)`
unfoldable pub fail : {A : Type 0} → Bytes → Action A
fail text w = (failed, with_job w (record w.job { rc = 1; msg = safe_strncpy 200 text }))

unfoldable pub fail_if : Bool → Bytes → Action (Unit)
fail_if test text w = if test then fail text w else (ok tt, w)

-- The value, or the failure where there is none.
unfoldable pub or_fail : {A : Type 0} → Option A → Bytes → Action A
or_fail none text w = fail text w
or_fail (some a) text w = (ok a, w)
