-- ===== src/Session/Safety/Dispatch.antt =====
-- One packet, one round and one callback keep `Safe`.
use sshd.Base.{
  ℕ, zero, suc, ◌≡◌, inl, inr, false, some, Bytes, [], ◌∷◌, arith, Option-cases, length,
}
use sshd.Platform.{Platform}
use sshd.Session.{Session, World, with_session}
use sshd.Session.Packet.{
  send_disconnect, send_raw_tcp, parse_packet, Parsed, got, need_more, broken,
}
use sshd.Session.Packet.Frame.{send_packet_lem}
use sshd.Session.Version.{send_our_version}
use sshd.Session.Channel.{
  drop_backend, send_channel_close, send_channel_eof, send_exit_status, session_on_backend_data,
}
use sshd.Session.Machine.{
  drain_step, handle_global_request, dispatch_guarded, dispatch_channel, dispatch_type,
  dispatch_packet, peer_disconnects, send_unimplemented, session_open, session_close,
  session_on_backend_close, drain_tcp, after_parse, round, run_rounds, session_on_tcp_data,
}
use sshd.Session.Packet.Parse.{Outcome, parse_packet-Outcome}
use sshd.Session.{reset}
use sshd.Session.Safety.{Safe}
use sshd.Session.Safety.Exchange.{
  consume_version-Safe, handle_kexinit-Safe, handle_kex_ecdh_init-Safe, handle_newkeys-Safe,
}
use sshd.Session.Safety.Login.{handle_service_request-Safe, handle_userauth_request-Safe}
use sshd.Session.Safety.Channels.{
  handle_channel_open-Safe, handle_channel_request-Safe, handle_channel_data-Safe,
  handle_channel_window_adjust-Safe, handle_channel_close-Safe, session_on_backend_data-Safe,
}

module _ (env : Platform) where
  pub dispatch_guarded-Safe :
      (w : World) (type : ℕ) (payload body : Bytes)
      → Safe w.session
      → Safe (dispatch_guarded env w type payload body).1.session
  unfolding dispatch_guarded
  dispatch_guarded-Safe w type payload body h = grind (
    arith, handle_kexinit-Safe, handle_kex_ecdh_init-Safe, handle_newkeys-Safe,
    handle_service_request-Safe, handle_userauth_request-Safe,
  )

  pub dispatch_channel-Safe :
      (w : World) (type : ℕ) (body : Bytes)
      → Safe w.session
      → Safe (dispatch_channel env w type body).1.session
  unfolding dispatch_channel
  dispatch_channel-Safe w type body h = grind (
    arith, handle_channel_open-Safe, handle_channel_request-Safe, handle_channel_data-Safe,
    handle_channel_window_adjust-Safe,
  )

  pub handle_global_request-Safe :
      (w : World) (body : Bytes) → Safe w.session → Safe (handle_global_request env w body).session
  unfolding handle_global_request
  handle_global_request-Safe w body h = grind (arith, send_packet_lem)

  pub send_unimplemented-Safe :
      (w : World) → Safe w.session → Safe (send_unimplemented env w).session
  unfolding send_unimplemented
  send_unimplemented-Safe w h = grind (arith, send_packet_lem)

  pub peer_disconnects-Safe : (w : World) → Safe w.session → Safe (peer_disconnects w).session
  unfolding peer_disconnects
  peer_disconnects-Safe w h = ground arith

  pub dispatch_type-Safe :
      (w : World) (type : ℕ) (payload body : Bytes)
      → Safe w.session
      → Safe (dispatch_type env w type payload body).1.session
  unfolding dispatch_type
  dispatch_type-Safe w type payload body h = grind (
    arith, dispatch_guarded-Safe, dispatch_channel-Safe, handle_global_request-Safe,
    send_unimplemented-Safe, peer_disconnects-Safe, handle_channel_close-Safe,
  )

  pub dispatch_packet-Safe :
      (w : World) (payload : Bytes)
      → Safe w.session
      → Safe (dispatch_packet env w payload).1.session
  unfolding dispatch_packet
  dispatch_packet-Safe w [] h = h
  dispatch_packet-Safe w (type ∷ body) h = dispatch_type-Safe w type (type ∷ body) body h

  pub send_disconnect-Safe :
      (w : World) (reason : ℕ) (msg : Bytes)
      → Safe w.session
      → Safe (send_disconnect env w reason msg).session
  unfolding send_disconnect
  send_disconnect-Safe w reason msg h = grind (arith, send_packet_lem)

  pub after_parse-Safe :
      (w : World) (parsed : Parsed) → Safe w.session → Safe (after_parse env w parsed).1.session
  unfolding after_parse
  after_parse-Safe w need_more h = h
  after_parse-Safe w broken h = send_disconnect-Safe w 2 _ h
  after_parse-Safe w (got payload) h = grind (arith, dispatch_packet-Safe, send_disconnect-Safe)

  Outcome-Safe : (s : Session) (r : Parsed × Session) → Outcome s r → Safe s → Safe r.1
  unfolding Outcome
  Outcome-Safe s (got payload, t) o h = rw (o.rest) (ground arith)
  Outcome-Safe s (need_more, t) o h = rw o h
  Outcome-Safe s (broken, t) o h = rw o h

  pub round-Safe : (w : World) → Safe w.session → Safe (round env w).1.session
  unfolding round
  round-Safe w h = grind (
    arith,
    consume_version-Safe,
    after_parse-Safe,
    Outcome-Safe w.session (parse_packet env w.session) (parse_packet-Outcome env w.session) h,
  )

  pub run_rounds-Safe :
      (fuel : ℕ) (w v : World) → Safe w.session → run_rounds env fuel w ≡ some v → Safe v.session
  unfolding run_rounds
  run_rounds-Safe zero w v h e = cc
  run_rounds-Safe (suc fuel) w v h e =
      ground (arith, round-Safe w h, run_rounds-Safe fuel (round env w).1 v)

  pub session_close-Safe : (w : World) → Safe w.session → Safe (session_close w).session
  unfolding session_close
  session_close-Safe w h = ground arith

  pub drain_tcp-Safe : (fuel : ℕ) (w : World) → Safe w.session → Safe (drain_tcp env fuel w).session
  unfolding drain_tcp drain_step
  drain_tcp-Safe zero w h = h
  drain_tcp-Safe (suc fuel) w h =
      ground (arith, drain_tcp-Safe fuel (drain_step env w) (ground arith))

  pub session_open-Safe : (w : World) (handle slot : ℕ) → Safe (session_open w handle slot).session
  unfolding session_open send_our_version reset send_raw_tcp
  session_open-Safe w handle slot = ground arith

  goodbye : World → World
  goodbye w = send_channel_close env (send_channel_eof env (send_exit_status env w 0))

  goodbye-Safe : (w : World) → Safe w.session → Safe (goodbye w).session
  unfolding goodbye send_exit_status send_channel_eof send_channel_close
  goodbye-Safe w h = grind (arith, send_packet_lem)

  pub session_on_backend_close-Safe :
      (w : World) → Safe w.session → Safe (session_on_backend_close env w).session
  unfolding session_on_backend_close goodbye
  session_on_backend_close-Safe w h =
      let w0 = session_on_backend_data env w in
      let w1 = drop_backend w0 in
      let s1 : Safe w1.session = ground (arith, session_on_backend_data-Safe env w h) in
      let w2 = goodbye w1 in
      let w3 = with_session w2 (record w2.session { chan_open = false }) in
      let s3 : Safe w3.session = ground (arith, goodbye-Safe w1 s1) in
      ground (arith, session_close-Safe w3 s3)

  pub session_on_tcp_data-Safe :
      (w v : World) → Safe w.session → session_on_tcp_data env w ≡ some v → Safe v.session
  unfolding session_on_tcp_data
  session_on_tcp_data-Safe w v h e =
      let w1 = drain_tcp env (suc (length w.tcp_in)) w in
      let fuel = suc (suc (length w1.session.rx_buf)) in
      elim (Option-cases (run_rounds env fuel w1)) [
        | inl out ↦ absurd (ground arith)
        | inr (w2, ran) ↦ ground (
          arith,
          ran,
          session_close-Safe w2,
          run_rounds-Safe fuel w1 w2 (drain_tcp-Safe (suc (length w.tcp_in)) w h) ran,
        )
      ]
