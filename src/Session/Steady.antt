-- ===== src/Session/Steady.antt =====
-- What the handling of a packet leaves alone; that every handler does so stands in the children.
pub mod Exchange
pub mod Login
pub mod Channels
pub mod Dispatch
use sshd.Base.{
  ℕ, zero, suc, ◌≡◌, refl, ◌⊎◌, inl, inr, Bool, true, false, Option, none, some, Bytes, [], ◌∷◌,
  arith, Bool-cases, Option-cases,
}
use sshd.Platform.{Platform, CliMode}
use sshd.Wire.{View}
use sshd.Session.{
  Session, World, Phase, version, kex_wait_kexinit, kex_wait_ecdh, kex_wait_newkeys, auth, run,
  closed, KexAlg, curve25519_sha256, mlkem768_x25519, ChanKind, with_session,
}
use sshd.Session.Packet.{
  send_packet, send_disconnect, send_raw_tcp, parse_packet, Parsed, got, need_more, broken,
}
use sshd.Session.Packet.Frame.{send_packet_lem, seq_after, trace_after, draws_after, after_sends}
use sshd.Session.Version.{
  send_our_version, send_our_kexinit, accept_version, consume_version, find_byte,
}
use sshd.Session.Kex
use sshd.Session.Kex.{
  kex_compute_classical, kex_pq_ephemeral, kex_compute_pq, sign_and_reply, reply_if_computed,
  send_kex_ecdh_reply, derive_session_keys, handle_kexinit, finish_kex, take_client_blob,
  handle_kex_ecdh_init, handle_newkeys, kex_compute, load_host_key,
}
use sshd.Session.Names.{select_kex_alg}
use sshd.Session.Auth.{
  handle_service_request, send_userauth_success, send_userauth_failure, refuse_userauth,
  bad_userauth, check_signature, ask_for_signature, check_key, publickey_method, password_method,
  userauth_method, handle_userauth_request,
}
use sshd.Session.Channel.{
  no_handle, send_channel_open_failure, send_channel_open_confirm, send_channel_request_reply,
  send_channel_data, send_channel_window_adjust, send_channel_close, send_channel_eof,
  send_exit_status, open_backend_with_mode, forward, forward_loop, session_on_backend_data,
  received, wanted,
}
use sshd.Session.Requests.{
  handle_channel_open, reply_if, start_backend, exec_request, request_of_type,
  handle_channel_request, replenish, handle_channel_data, handle_channel_window_adjust,
  handle_channel_close,
}

-- The buffer, the place of the session, its transport, its inbound sequence number and the version
-- lines are as they were in `s`.
pub record Steady (s t : Session) : Type 0 where
  pub rx_buf : t.rx_buf ≡ s.rx_buf
  pub slot : t.slot ≡ s.slot
  pub tcp : t.tcp ≡ s.tcp
  pub seq_in : t.seq_in ≡ s.seq_in
  pub peer_version : t.peer_version ≡ s.peer_version
  pub our_version : t.our_version ≡ s.our_version
