-- ===== src/Tests/Sessions.antt =====
-- The theorems on a session at concrete states and bytes.
use sshd.Base.{
  ℕ, ◌<◌, ◌≡◌, refl, ◌↔◌, true, false, some, Bytes, [], ◌∷◌, ◌++◌, length, take, replicate, codes,
  bytes_eq, arith,
}
use sshd.Wire.{view_init, get_string, get_u8, get_slice, put_u8, put_cstring, big_endian_32}
use sshd.Session.{Session, World, run, auth, version, reset}
use sshd.Session.Packet.{parse_packet, framed, padding, next_seq, got}
use sshd.Session.Packet.Parse.{Outcome, parse_packet-Outcome}
use sshd.Session.Packet.RoundTrip.{parse_packet-framed}
use sshd.Session.Hash.{derive_key}
use sshd.Session.Hash.Derive.{key_stream, derive_key-stream}
use sshd.Session.Auth.{
  authorized_pub_matches, handle_userauth_request, userauth_method, password_method,
  send_userauth_success, c_str,
}
use sshd.Session.KeyLine.{HoldsKey}
use sshd.Session.Authorized.{authorized_pub_matches_iff}
use sshd.Session.Evidence.{Evidence, handle_userauth_request_needs}
use sshd.Session.Channel.{session_on_backend_data}
use sshd.Session.Flow.{Flow, session_on_backend_data-Flow}
use sshd.Session.Machine.{session_on_tcp_data}
use sshd.Session.Termination.{session_on_tcp_data_total}
use sshd.Session.{closed}
use sshd.Wire.{put_string, get_u32}
use sshd.Session.Requests.{handle_channel_data}
use sshd.Session.Window.{Granted, Accounted, handle_channel_data-Granted}
use sshd.Session.Hash.{exchange_hash_input}
use sshd.Session.Hash.Input.{exchange_hash_input_lem, put_secret, from_client, from_server}
use sshd.Tests.{test_env, test_laws}

abbrev pub blank : Session
blank = record {
  slot = some 0;
  tcp = some 5;
  phase = run;
  rx_buf = [];
  peer_version = codes "SSH-2.0-x";
  our_version = codes "SSH-2.0-y";
  kex_alg = sshd.Session.curve25519_sha256;
  peer_kex_init = [];
  our_kex_init = [];
  eph_priv = replicate 32 0;
  eph_pub = replicate 32 0;
  peer_eph_pub = replicate 32 0;
  peer_kex_blob = [];
  our_kex_blob = [];
  shared_k = replicate 32 0;
  session_id = replicate 32 0;
  have_session_id = true;
  c2s_key = replicate 64 0;
  s2c_key = replicate 64 0;
  enc_inbound = true;
  enc_outbound = true;
  seq_in = 3;
  seq_out = 4;
  user = [];
  authed = true;
  peer_channel = 0;
  local_channel = 0;
  peer_window = 10;
  local_window = 32768;
  peer_max_packet = 4;
  chan_kind = sshd.Session.cli_channel;
  backend_handle = some 8;
  chan_open = true;
  backend_closing = false;
}

abbrev pub blank_world : World
blank_world = record {
  session = blank;
  trace = [];
  draws = 0;
  tcp_in = replicate 12 0;
  backend_in = codes "hello, world";
}

-- ---- packets ----

abbrev ping : Bytes
ping = 80 ∷ 1 ∷ 2 ∷ []

abbrev ping_pad : Bytes
ping_pad = replicate 4 0

abbrev ping_session : Session
ping_session = record blank {
  rx_buf = framed test_env true (replicate 64 0) 3 ping_pad ping ++ (1 ∷ []);
}

ping_pad_lem : length ping_pad ≡ padding true (length ping)
unfolding padding
ping_pad_lem = refl

parse_packet-framed_example :
    parse_packet test_env ping_session
    ≡ (got ping, record ping_session { rx_buf = 1 ∷ []; seq_in = next_seq 3 })
parse_packet-framed_example =
    parse_packet-framed test_env ping_session ping ping_pad (1 ∷ []) test_laws (ground arith)
      (ground arith) ping_pad_lem (omega arith) refl

parse_packet-Outcome_example : Outcome ping_session (parse_packet test_env ping_session)
parse_packet-Outcome_example = parse_packet-Outcome test_env ping_session

-- ---- keys ----

derive_key-stream_example :
    (derive_key test_env blank b'C' 64
      ≡ take 64 (
          key_stream test_env
            (put_secret blank.kex_alg [] blank.shared_k)
            blank.session_id
            blank.session_id
            b'C'
            2))
    × (length (derive_key test_env blank b'C' 64) ≡ 64)
derive_key-stream_example =
    derive_key-stream test_env blank b'C' blank.session_id 64 2 refl refl (omega arith)

-- ---- logins ----

authorized_pub_matches_iff_example :
    (authorized_pub_matches test_env (replicate 32 1) ≡ true)
    ↔ ((k : ℕ) × (k < 1) × HoldsKey test_env (replicate 32 1) (codes "ssh-ed25519 key"))
authorized_pub_matches_iff_example = authorized_pub_matches_iff test_env (replicate 32 1)

abbrev pub login_world : World
login_world = record blank_world { session = record blank { authed = false; phase = auth } }

abbrev login_request : Bytes
login_request =
    put_cstring
      (put_u8
        (put_cstring (put_cstring (put_cstring [] (codes "admin")) (codes "ssh-connection"))
          (codes "password"))
        0)
      (codes "pw")

login_accepted :
    (handle_userauth_request test_env login_world login_request).1.session.authed ≡ true
unfolding handle_userauth_request userauth_method password_method send_userauth_success c_str
    get_string view_init get_slice put_cstring put_u8 bytes_eq big_endian_32 get_u8
login_accepted = refl

handle_userauth_request_needs_example :
    (user : Bytes) × (svc : Bytes) × (method : Bytes) × ((get_string (view_init login_request)).0
      ≡ some user)
    × ((get_string (get_string (view_init login_request)).1).0 ≡ some svc)
    × ((get_string (get_string (get_string (view_init login_request)).1).1).0 ≡ some method)
    × Evidence test_env login_world.session user svc method
        (get_string (get_string (get_string (view_init login_request)).1).1).1
handle_userauth_request_needs_example =
    handle_userauth_request_needs test_env login_world login_request refl login_accepted

-- ---- callbacks ----

session_on_backend_data-Flow_example :
    Flow test_env blank_world (session_on_backend_data test_env blank_world)
session_on_backend_data-Flow_example =
    session_on_backend_data-Flow test_env blank_world refl refl (omega arith)

session_on_tcp_data_total_example :
    (v : World) × (session_on_tcp_data test_env blank_world ≡ some v)
session_on_tcp_data_total_example = session_on_tcp_data_total test_env blank_world

-- ---- the window ----

abbrev hello_data : Bytes
hello_data = 0 ∷ 0 ∷ 0 ∷ 0 ∷ 0 ∷ 0 ∷ 0 ∷ 2 ∷ 104 ∷ 105 ∷ []

hello_carried : (get_string (get_u32 (view_init hello_data)).1).0 ≡ some (104 ∷ 105 ∷ [])
unfolding get_string get_u32 view_init
hello_carried = refl

blank-Granted : Granted blank
blank-Granted = record { half = omega arith; full = omega arith }

handle_channel_data-Granted_example :
    Accounted test_env blank_world
      (handle_channel_data test_env blank_world hello_data)
      (104 ∷ 105 ∷ [])
      2
    × Granted (handle_channel_data test_env blank_world hello_data).session
handle_channel_data-Granted_example =
    handle_channel_data-Granted test_env blank_world hello_data (104 ∷ 105 ∷ []) 8 blank-Granted
      hello_carried (omega arith) refl (omega arith)

exchange_hash_input_lem_example :
    exchange_hash_input blank (1 ∷ [])
    ≡ put_secret blank.kex_alg
        (put_string
          (put_string
            (put_string
              (put_string
                (put_string
                  (put_string (put_string [] blank.peer_version) blank.our_version)
                  blank.peer_kex_init)
                blank.our_kex_init)
              (1 ∷ []))
            (from_client blank.kex_alg blank))
          (from_server blank.kex_alg blank))
        blank.shared_k
exchange_hash_input_lem_example = exchange_hash_input_lem blank (1 ∷ []) refl
