-- ===== src/Session.antt =====
-- esp-idf/src/sshd_session.h and the head of esp-idf/src/sshd_session.cpp: the state of one
-- connection, and what stands around it while a callback runs.
pub mod Msg
pub mod Packet
pub mod Hash
pub mod Names
pub mod Version
pub mod Kex
pub mod Auth
pub mod Channel
pub mod Requests
pub mod Machine
pub mod Termination
pub mod Safety
pub mod Flow
pub mod KeyBlob
pub mod KeyLine
pub mod Authorized
pub mod Evidence
pub mod Accept
pub mod Reach
pub mod Steady
pub mod Slot
pub mod Close
pub mod Window
use sshd.Base.{
  ℕ, ◌+◌, ◌%◌, ◌^◌, Bool, true, false, Option, none, some, Bytes, List, [], ◌∷◌, replicate, codes,
  ◌==◌,
}
use sshd.Platform.{Event}

pub data Phase : Type 0 where
  version kex_wait_kexinit kex_wait_ecdh kex_wait_newkeys auth run closed : Phase

-- The enumeration's numbers.
abbrev pub phase_number : Phase → ℕ
phase_number version = 0
phase_number kex_wait_kexinit = 1
phase_number kex_wait_ecdh = 2
phase_number kex_wait_newkeys = 3
phase_number auth = 4
phase_number run = 5
phase_number closed = 6

abbrev pub phase_eq : Phase → Phase → Bool
phase_eq a b = phase_number a == phase_number b

pub data ChanKind : Type 0 where
  none_yet cli_channel log_channel : ChanKind

pub data KexAlg : Type 0 where
  curve25519_sha256 mlkem768_x25519 : KexAlg

-- A slot, a handle or an index below 0 is `none`.
pub record Session : Type 0 where
  pub slot : Option ℕ
  pub tcp : Option ℕ
  pub phase : Phase
  pub rx_buf : Bytes
  pub peer_version : Bytes
  pub our_version : Bytes
  pub kex_alg : KexAlg
  pub peer_kex_init : Bytes
  pub our_kex_init : Bytes
  pub eph_priv : Bytes
  pub eph_pub : Bytes
  pub peer_eph_pub : Bytes
  pub peer_kex_blob : Bytes
  pub our_kex_blob : Bytes
  pub shared_k : Bytes
  pub session_id : Bytes
  pub have_session_id : Bool
  pub c2s_key : Bytes
  pub s2c_key : Bytes
  pub enc_inbound : Bool
  pub enc_outbound : Bool
  pub seq_in : ℕ
  pub seq_out : ℕ
  pub user : Bytes
  pub authed : Bool
  pub peer_channel : ℕ
  pub local_channel : ℕ
  pub peer_window : ℕ
  pub local_window : ℕ
  pub peer_max_packet : ℕ
  pub chan_kind : ChanKind
  pub backend_handle : Option ℕ
  pub chan_open : Bool
  pub backend_closing : Bool

-- `trace` has the calls made so far, the newest first, and `draws` counts those of `randomBytes`.
-- `tcp_in` and `backend_in` wait in the streams of the handles `tcp` and `backend_handle`.
pub record World : Type 0 where
  pub session : Session
  pub trace : List Event
  pub draws : ℕ
  pub tcp_in : Bytes
  pub backend_in : Bytes

abbrev pub local_channel_id : ℕ
local_channel_id = 0

abbrev pub full_local_window : ℕ
full_local_window = 32768

abbrev pub local_max_packet : ℕ
local_max_packet = 16384

abbrev pub our_version_str : Bytes
our_version_str = codes "SSH-2.0-spangap-sshd_0.1"

abbrev pub ssh_ed25519 : Bytes
ssh_ed25519 = codes "ssh-ed25519"

unfoldable pub reset : Session → Session
reset s = record {
  slot = none;
  tcp = none;
  phase = version;
  rx_buf = [];
  peer_version = [];
  our_version = [];
  kex_alg = curve25519_sha256;
  peer_kex_init = [];
  our_kex_init = [];
  eph_priv = replicate 32 0;
  eph_pub = replicate 32 0;
  peer_eph_pub = replicate 32 0;
  peer_kex_blob = [];
  our_kex_blob = [];
  shared_k = replicate 32 0;
  session_id = replicate 32 0;
  have_session_id = false;
  c2s_key = replicate 64 0;
  s2c_key = replicate 64 0;
  enc_inbound = false;
  enc_outbound = false;
  seq_in = 0;
  seq_out = 0;
  user = [];
  authed = false;
  peer_channel = 0;
  local_channel = 0;
  peer_window = 0;
  local_window = 0;
  peer_max_packet = 0;
  chan_kind = none_yet;
  backend_handle = none;
  chan_open = false;
  backend_closing = false;
}

-- One more call on the record of what was done.
abbrev pub note : World → Event → World
note w e = record w { trace = e ∷ w.trace }

-- The session replaced, all else as it was.
abbrev pub with_session : World → Session → World
with_session w s = record w { session = s }
