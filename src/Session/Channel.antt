-- ===== src/Session/Channel.antt =====
-- The messages that the server sends on its one channel, and the bytes that it takes from the
-- backend, in esp-idf/src/sshd_session.cpp.
use sshd.Base.{
  ℕ, zero, suc, ◌+◌, ◌-◌, ◌%◌, ◌^◌, Bool, true, false, not, ◌&&◌, ◌||◌, ◌==◌, Option, none, some,
  Bytes, [], ltb, if◌then◌else◌, length, take, drop, min, codes,
}
use sshd.Wire.{put_u8, put_u32, put_string, put_cstring}
use sshd.Platform.{
  Platform, disconnected, CliMode, cli_ansi, cli_line, Backend, cli, log, connected,
}
use sshd.Session.{
  Session, World, closed, phase_eq, ChanKind, none_yet, cli_channel, log_channel, note,
  with_session, full_local_window, local_max_packet,
}
use sshd.Session.Msg
use sshd.Session.Packet.{no_tcp, send_packet}

abbrev pub no_handle : Option ℕ → Bool
no_handle none = true
no_handle (some handle) = false

-- The payload of CHANNEL_DATA.
unfoldable pub channel_data : ℕ → Bytes → Bytes
channel_data peer_channel bytes =
    put_string (put_u32 (put_u8 [] Msg.channel_data) peer_channel) bytes

-- How many bytes the loop of `session_on_backend_data` asks for.
unfoldable pub wanted : Session → ℕ
wanted s =
    let want = if ltb s.peer_window 1024 then s.peer_window else 1024 in
    if not (s.peer_max_packet == 0) && ltb s.peer_max_packet want then s.peer_max_packet else want

abbrev pub drop_backend : World → World
drop_backend w =
    if no_handle w.session.backend_handle
    then w
    else with_session (note w (disconnected w.session.backend_handle))
        (record w.session { backend_handle = none })

module _ (env : Platform) where
  unfoldable pub send_channel_open_failure : World → ℕ → ℕ → Bytes → World
  send_channel_open_failure w peer_chan reason desc =
      let p = put_u32 (put_u32 (put_u8 [] Msg.channel_open_failure) peer_chan) reason in
      send_packet env w (put_cstring (put_cstring p desc) [])

  unfoldable pub send_channel_open_confirm : World → World
  send_channel_open_confirm w =
      let s = w.session in
      let p =
        put_u32 (put_u32 (put_u8 [] Msg.channel_open_confirm) s.peer_channel) s.local_channel in
      send_packet env w (put_u32 (put_u32 p full_local_window) local_max_packet)

  unfoldable pub send_channel_request_reply : World → Bool → World
  send_channel_request_reply w success =
      let number = if success then Msg.channel_success else Msg.channel_failure in
      send_packet env w (put_u32 (put_u8 [] number) w.session.peer_channel)

  unfoldable pub send_channel_data : World → Bytes → World
  send_channel_data w bytes = send_packet env w (channel_data w.session.peer_channel bytes)

  unfoldable pub send_channel_window_adjust : World → ℕ → World
  send_channel_window_adjust w add =
      send_packet env w
        (put_u32 (put_u32 (put_u8 [] Msg.channel_window_adjust) w.session.peer_channel) add)

  unfoldable pub send_channel_close : World → World
  send_channel_close w =
      send_packet env w (put_u32 (put_u8 [] Msg.channel_close) w.session.peer_channel)

  unfoldable pub send_channel_eof : World → World
  send_channel_eof w =
      send_packet env w (put_u32 (put_u8 [] Msg.channel_eof) w.session.peer_channel)

  unfoldable pub send_exit_status : World → ℕ → World
  send_exit_status w status =
      let p = put_u32 (put_u8 [] Msg.channel_request) w.session.peer_channel in
      let p1 = put_u8 (put_cstring p (codes "exit-status")) 0 in
      if phase_eq w.session.phase closed || no_tcp w.session.tcp
      then w
      else send_packet env w (put_u32 p1 status)

  -- The stream of a new connection is empty.
  abbrev pub with_backend : World → Backend → World
  with_backend w b =
      let h = env.its_connect w.trace b in
      note (record w { session = record w.session { backend_handle = h }; backend_in = [] })
        (connected b h)

  -- The backend that a kind of channel asks for.
  abbrev pub backend_of : ChanKind → CliMode → Option Backend
  backend_of none_yet mode = none
  backend_of cli_channel cli_ansi = some (cli cli_ansi env.color false)
  backend_of cli_channel cli_line = some (cli cli_line env.color true)
  backend_of log_channel mode = some (log env.log_color)

  unfoldable pub open_backend_with_mode : World → CliMode → Bool × World
  open_backend_with_mode w mode =
      let w1 : World = elim (backend_of w.session.chan_kind mode) [
        | none ↦ w
        | some b ↦ with_backend w b
      ] in
      (not (no_handle w1.session.backend_handle), w1)

  -- How many bytes `itsRecv` returns of those that wait.
  unfoldable pub received : ℕ → Bytes → ℕ
  received want waiting =
      min (min want (length waiting)) (suc (env.its_recv_more want (length waiting)))

  -- One round of the loop, with the bytes that came.
  unfoldable pub forward : World → ℕ → World
  forward w n =
      let w1 = record w { backend_in = drop n w.backend_in } in
      let w2 = send_channel_data w1 (take n w.backend_in) in
      with_session w2
        (record w2.session { peer_window = (w2.session.peer_window + 2 ^ 32 - n) % 2 ^ 32 })

  unfoldable pub forward_loop : ℕ → World → World
  forward_loop zero w = w
  forward_loop (suc fuel) w =
      let n = received (wanted w.session) w.backend_in in
      let more = forward_loop fuel (forward w n) in
      if not (ltb 0 w.session.peer_window && w.session.chan_open)
      then w
      else (if n == 0 then w else more)

  -- Each round takes a byte at least.
  unfoldable pub session_on_backend_data : World → World
  session_on_backend_data w =
      if not w.session.chan_open || no_handle w.session.backend_handle
      then w
      else forward_loop (suc (length w.backend_in)) w
