-- ===== src/Session/Machine.antt =====
-- The dispatch of packets and the entry points of esp-idf/src/sshd_session.cpp.
use sshd.Base.{
  ℕ, zero, suc, ◌+◌, ◌-◌, ◌%◌, ◌^◌, Bool, true, false, not, ◌&&◌, ◌||◌, ◌==◌, Option, none, some,
  Bytes, [], ◌∷◌, ◌++◌, if◌then◌else◌, length, take, drop, codes,
}
use sshd.Wire.{view_init, get_u8, skip_string, put_u8, put_u32}
use sshd.Platform.{Platform, disconnected, drained, slot_freed}
use sshd.Session.{
  World, Phase, version, kex_wait_kexinit, kex_wait_ecdh, kex_wait_newkeys, auth, run, closed,
  phase_eq, reset, note, with_session,
}
use sshd.Session.Msg
use sshd.Session.Packet.{
  no_tcp, send_packet, send_disconnect, Parsed, got, need_more, broken, parse_packet,
}
use sshd.Session.Version.{send_our_version, consume_version}
use sshd.Session.Kex.{handle_kexinit, handle_kex_ecdh_init, handle_newkeys}
use sshd.Session.Auth.{handle_service_request, handle_userauth_request}
use sshd.Session.Channel.{
  session_on_backend_data, send_exit_status, send_channel_eof, send_channel_close, drop_backend,
  received,
}
use sshd.Session.Requests.{
  handle_channel_open, handle_channel_request, handle_channel_data, handle_channel_window_adjust,
  handle_channel_close,
}

abbrev pub in_phase : World → Phase → Bool
in_phase w phase = phase_eq w.session.phase phase

abbrev pub is_guarded : ℕ → Bool
is_guarded type =
    type == Msg.kexinit
    || type == Msg.kex_ecdh_init
    || type == Msg.newkeys
    || type == Msg.service_request
    || type == Msg.userauth_request

abbrev pub is_channel : ℕ → Bool
is_channel type =
    type == Msg.channel_open
    || type == Msg.channel_request
    || type == Msg.channel_data
    || type == Msg.channel_window_adjust

unfoldable pub peer_disconnects : World → World
peer_disconnects w =
    note (with_session w (record w.session { phase = closed })) (disconnected w.session.tcp)

unfoldable pub session_open : World → ℕ → ℕ → World
session_open w tcp_handle slot = send_our_version (
    with_session w
      (record (reset w.session) { slot = some slot; tcp = some tcp_handle; phase = version }))

abbrev pub no_slot : Option ℕ → Bool
no_slot none = true
no_slot (some slot) = false

abbrev pub drop_tcp : World → World
drop_tcp w =
    if no_tcp w.session.tcp
    then w
    else with_session (note (note w (drained w.session.tcp)) (disconnected w.session.tcp))
        (record w.session { tcp = none })

abbrev pub free_slot : Option ℕ → World → World
free_slot none w = w
free_slot (some slot) w = with_session (note w (slot_freed slot)) (record w.session { slot = none })

unfoldable pub session_close : World → World
session_close w =
    let w1 = drop_tcp (drop_backend w) in
    let w2 = with_session w1 (record w1.session { phase = closed; chan_open = false }) in
    if in_phase w closed && no_slot w.session.slot then w else free_slot w.session.slot w2

module _ (env : Platform) where
  unfoldable pub handle_global_request : World → Bytes → World
  handle_global_request w body =
      let (name, v1) = skip_string (view_init body) in
      elim name [
        | none ↦ w
        | some skipped ↦
            if not ((get_u8 v1).0 == 0)
            then send_packet env w (put_u8 [] Msg.request_failure)
            else w
      ]

  -- The cases of the `switch` that are guarded by a phase.
  unfoldable pub dispatch_guarded : World → ℕ → Bytes → Bytes → Bool × World
  dispatch_guarded w type payload body =
      if type == Msg.kexinit
      then (if not (in_phase w kex_wait_kexinit) && not (in_phase w run)
          then (false, w)
          else (true, handle_kexinit env w payload))
      else (if type == Msg.kex_ecdh_init
          then (if not (in_phase w kex_wait_ecdh)
              then (false, w)
              else handle_kex_ecdh_init env w body)
          else (if type == Msg.newkeys
              then (if not (in_phase w kex_wait_newkeys)
                  then (false, w)
                  else (true, handle_newkeys w))
              else (if type == Msg.service_request
                  then (if not (in_phase w auth)
                      then (false, w)
                      else handle_service_request env w body)
                  else (if not (in_phase w auth)
                      then (false, w)
                      else handle_userauth_request env w body))))

  -- The cases of the `switch` for a channel in RUN.
  unfoldable pub dispatch_channel : World → ℕ → Bytes → Bool × World
  dispatch_channel w type body =
      if not (in_phase w run)
      then (false, w)
      else (if type == Msg.channel_open
          then handle_channel_open env w body
          else (if type == Msg.channel_request
              then handle_channel_request env w body
              else (if type == Msg.channel_data
                  then (true, handle_channel_data env w body)
                  else (true, handle_channel_window_adjust env w body))))

  -- `(uint32_t)(s.seqIn - 1)`
  unfoldable pub send_unimplemented : World → World
  send_unimplemented w =
      send_packet env w
        (put_u32 (put_u8 [] Msg.unimplemented) ((w.session.seq_in + 2 ^ 64 - 1) % 2 ^ 32))

  unfoldable pub dispatch_type : World → ℕ → Bytes → Bytes → Bool × World
  dispatch_type w type payload body =
      if type == Msg.disconnect
      then (false, peer_disconnects w)
      else (if type == Msg.ignore || type == Msg.debug || type == Msg.channel_eof
          then (true, w)
          else (if is_guarded type
              then dispatch_guarded w type payload body
              else (if is_channel type
                  then dispatch_channel w type body
                  else (if type == Msg.global_request
                      then (true, handle_global_request w body)
                      else (if type == Msg.channel_close
                          then (true, handle_channel_close env w)
                          else (true, send_unimplemented w))))))

  unfoldable pub dispatch_packet : World → Bytes → Bool × World
  dispatch_packet w [] = (false, w)
  dispatch_packet w (type ∷ body) = dispatch_type w type (type ∷ body) body

  -- ---- entry points ----

  unfoldable pub session_on_backend_close : World → World
  session_on_backend_close w =
      let w1 = drop_backend (session_on_backend_data env w) in
      let w2 = send_channel_close env (send_channel_eof env (send_exit_status env w1 0)) in
      let w3 = with_session w2 (record w2.session { chan_open = false }) in
      if not w.session.chan_open then w else session_close w3

  -- One read of the first loop of `session_on_tcp_data`.
  unfoldable pub drain_step : World → World
  drain_step w =
      let n = received env 1024 w.tcp_in in
      record w {
        session = record w.session { rx_buf = w.session.rx_buf ++ take n w.tcp_in };
        tcp_in = drop n w.tcp_in;
      }

  -- The first loop, with fuel: reads of at most 1024 bytes.
  unfoldable pub drain_tcp : ℕ → World → World
  drain_tcp zero w = w
  drain_tcp (suc fuel) w =
      let more = drain_tcp fuel (drain_step w) in
      if received env 1024 w.tcp_in == 0 then w else more

  -- One round of the second loop: `false` is `break`.
  unfoldable pub after_parse : World → Parsed → Bool × World
  after_parse w need_more = (false, w)
  after_parse w broken = (false, send_disconnect env w 2 (codes "framing error"))
  after_parse w (got payload) =
      let (goes_on, w1) = dispatch_packet w payload in
      if goes_on
      then (true, w1)
      else (if not (in_phase w1 closed)
          then (false, send_disconnect env w1 2 (codes "protocol error"))
          else (false, w1))

  unfoldable pub round : World → Bool × World
  round w =
      if in_phase w version
      then consume_version env w
      else (let (parsed, s1) = parse_packet env w.session in after_parse (with_session w s1) parsed)

  -- The second loop, with fuel; `none` means that the fuel ran out.
  unfoldable pub run_rounds : ℕ → World → Option World
  run_rounds zero w = none
  run_rounds (suc fuel) w =
      let (goes_on, w1) = round w in
      let rest = run_rounds fuel w1 in
      if in_phase w closed then some w else (if goes_on then rest else some w1)

  unfoldable pub session_on_tcp_data : World → Option World
  session_on_tcp_data w =
      let w1 = drain_tcp (suc (length w.tcp_in)) w in
      elim (run_rounds (suc (suc (length w1.session.rx_buf))) w1) [
        | none ↦ none
        | some w2 ↦ some (if in_phase w2 closed then session_close w2 else w2)
      ]
