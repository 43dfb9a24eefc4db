-- ===== src/Session/Steady/Channels.antt =====
-- The handlers of channel messages keep `Steady`.
use sshd.Base.{ℕ, zero, suc, Bool, Bytes, arith}
use sshd.Platform.{Platform, CliMode}
use sshd.Wire.{View}
use sshd.Session.{Session, World, ChanKind}
use sshd.Session.Packet.Frame.{send_packet_lem}
use sshd.Session.Channel.{
  send_channel_open_failure, send_channel_open_confirm, send_channel_request_reply,
  send_channel_data, send_channel_window_adjust, send_channel_close, open_backend_with_mode,
  forward, forward_loop, session_on_backend_data, received, wanted,
}
use sshd.Session.Requests.{
  handle_channel_open, reply_if, start_backend, exec_request, request_of_type,
  handle_channel_request, replenish, handle_channel_data, handle_channel_window_adjust,
  handle_channel_close,
}
use sshd.Session.Steady.{Steady}

module _ (env : Platform) (s : Session) where
  pub send_channel_request_reply-Steady :
      (w : World) (ok : Bool)
      → Steady s w.session
      → Steady s (send_channel_request_reply env w ok).session
  unfolding send_channel_request_reply
  send_channel_request_reply-Steady w ok h = grind (arith, send_packet_lem)

  pub reply_if-Steady :
      (want : Bool) (w : World) (ok : Bool)
      → Steady s w.session
      → Steady s (reply_if env want w ok).session
  unfolding reply_if
  reply_if-Steady want w ok h = grind (arith, send_channel_request_reply-Steady)

  pub handle_channel_open-Steady :
      (w : World) (p : Bytes)
      → Steady s w.session
      → Steady s (handle_channel_open env w p).1.session
  unfolding handle_channel_open send_channel_open_failure send_channel_open_confirm
  handle_channel_open-Steady w p h = grind (arith, send_packet_lem)

  pub open_backend_with_mode-Steady :
      (w : World) (mode : CliMode)
      → Steady s w.session
      → Steady s (open_backend_with_mode env w mode).1.session
  unfolding open_backend_with_mode
  open_backend_with_mode-Steady w mode h = ground arith

  pub start_backend-Steady :
      (w : World) (kind : ChanKind) (mode : CliMode) (want : Bool)
      → Steady s w.session
      → Steady s (start_backend env w kind mode want).1.session
  unfolding start_backend
  start_backend-Steady w kind mode want h =
      grind (arith, reply_if-Steady, open_backend_with_mode-Steady)

  pub exec_request-Steady :
      (w : World) (cmd : Bytes) (want : Bool)
      → Steady s w.session
      → Steady s (exec_request env w cmd want).session
  unfolding exec_request
  exec_request-Steady w cmd want h = grind (arith, reply_if-Steady, start_backend-Steady)

  pub request_of_type-Steady :
      (w : World) (type : Bytes) (want : Bool) (v : View)
      → Steady s w.session
      → Steady s (request_of_type env w type want v).session
  unfolding request_of_type
  request_of_type-Steady w type want v h =
      grind (arith, reply_if-Steady, start_backend-Steady, exec_request-Steady)

  pub handle_channel_request-Steady :
      (w : World) (p : Bytes)
      → Steady s w.session
      → Steady s (handle_channel_request env w p).1.session
  unfolding handle_channel_request
  handle_channel_request-Steady w p h = grind (arith, request_of_type-Steady)

  pub replenish-Steady :
      (w : World) (n : ℕ) → Steady s w.session → Steady s (replenish env w n).session
  unfolding replenish send_channel_window_adjust
  replenish-Steady w n h = grind (arith, send_packet_lem)

  pub handle_channel_data-Steady :
      (w : World) (p : Bytes) → Steady s w.session → Steady s (handle_channel_data env w p).session
  unfolding handle_channel_data
  handle_channel_data-Steady w p h = grind (arith, replenish-Steady)

  pub forward-Steady : (w : World) (n : ℕ) → Steady s w.session → Steady s (forward env w n).session
  unfolding forward send_channel_data
  forward-Steady w n h = grind (arith, send_packet_lem)

  pub forward_loop-Steady :
      (fuel : ℕ) (w : World) → Steady s w.session → Steady s (forward_loop env fuel w).session
  unfolding forward_loop
  forward_loop-Steady zero w h = h
  forward_loop-Steady (suc fuel) w h =
      let n = received env (wanted w.session) w.backend_in in
      ground (arith, forward_loop-Steady fuel (forward env w n) (forward-Steady w n h))

  pub session_on_backend_data-Steady :
      (w : World) → Steady s w.session → Steady s (session_on_backend_data env w).session
  unfolding session_on_backend_data
  session_on_backend_data-Steady w h = grind (arith, forward_loop-Steady)

  pub handle_channel_window_adjust-Steady :
      (w : World) (p : Bytes)
      → Steady s w.session
      → Steady s (handle_channel_window_adjust env w p).session
  unfolding handle_channel_window_adjust
  handle_channel_window_adjust-Steady w p h = grind (arith, session_on_backend_data-Steady)

  pub handle_channel_close-Steady :
      (w : World) → Steady s w.session → Steady s (handle_channel_close env w).session
  unfolding handle_channel_close send_channel_close
  handle_channel_close-Steady w h = grind (arith, send_packet_lem)
