-- ===== src/Session/Safety/Channels.antt =====
-- The handlers of channel messages keep `Safe`.
use sshd.Base.{ℕ, zero, suc, ◌≡◌, Bool, true, Bytes, arith}
use sshd.Platform.{Platform, CliMode}
use sshd.Wire.{View}
use sshd.Session.{World, run, ChanKind}
use sshd.Session.Packet.Frame.{send_packet_lem}
use sshd.Session.Channel.{
  send_channel_open_failure, send_channel_open_confirm, send_channel_request_reply,
  send_channel_data, send_channel_window_adjust, send_channel_close, open_backend_with_mode,
  forward, forward_loop, session_on_backend_data, received, wanted,
}
use sshd.Session.Requests.{
  handle_channel_open, reply_if, start_backend, exec_request, request_of_type,
  handle_channel_request, replenish, handle_channel_data, handle_channel_window_adjust,
  handle_channel_close,
}
use sshd.Session.Safety.{Safe}

module _ (env : Platform) where
  pub send_channel_request_reply-Safe :
      (w : World) (ok : Bool) → Safe w.session → Safe (send_channel_request_reply env w ok).session
  unfolding send_channel_request_reply
  send_channel_request_reply-Safe w ok h = grind (arith, send_packet_lem)

  pub reply_if-Safe :
      (want : Bool) (w : World) (ok : Bool) → Safe w.session → Safe (reply_if env want w ok).session
  unfolding reply_if
  reply_if-Safe want w ok h = grind (arith, send_channel_request_reply-Safe)

  pub handle_channel_open-Safe :
      (w : World) (p : Bytes)
      → Safe w.session
      → w.session.phase ≡ run
      → Safe (handle_channel_open env w p).1.session
  unfolding handle_channel_open send_channel_open_failure send_channel_open_confirm
  handle_channel_open-Safe w p h r = grind (arith, send_packet_lem)

  pub open_backend_with_mode-Safe :
      (w : World) (mode : CliMode)
      → Safe w.session
      → w.session.authed ≡ true
      → Safe (open_backend_with_mode env w mode).1.session
  unfolding open_backend_with_mode
  open_backend_with_mode-Safe w mode h a = ground arith

  pub start_backend-Safe :
      (w : World) (kind : ChanKind) (mode : CliMode) (want : Bool)
      → Safe w.session
      → w.session.authed ≡ true
      → Safe (start_backend env w kind mode want).1.session
  unfolding start_backend
  start_backend-Safe w kind mode want h a =
      grind (arith, reply_if-Safe, open_backend_with_mode-Safe)

  pub exec_request-Safe :
      (w : World) (cmd : Bytes) (want : Bool)
      → Safe w.session
      → w.session.authed ≡ true
      → Safe (exec_request env w cmd want).session
  unfolding exec_request
  exec_request-Safe w cmd want h a = grind (arith, reply_if-Safe, start_backend-Safe)

  pub request_of_type-Safe :
      (w : World) (type : Bytes) (want : Bool) (v : View)
      → Safe w.session
      → w.session.authed ≡ true
      → Safe (request_of_type env w type want v).session
  unfolding request_of_type
  request_of_type-Safe w type want v h a =
      grind (arith, reply_if-Safe, start_backend-Safe, exec_request-Safe)

  pub handle_channel_request-Safe :
      (w : World) (p : Bytes)
      → Safe w.session
      → w.session.phase ≡ run
      → Safe (handle_channel_request env w p).1.session
  unfolding handle_channel_request
  handle_channel_request-Safe w p h r = grind (arith, request_of_type-Safe)

  pub replenish-Safe : (w : World) (n : ℕ) → Safe w.session → Safe (replenish env w n).session
  unfolding replenish send_channel_window_adjust
  replenish-Safe w n h = grind (arith, send_packet_lem)

  pub handle_channel_data-Safe :
      (w : World) (p : Bytes) → Safe w.session → Safe (handle_channel_data env w p).session
  unfolding handle_channel_data
  handle_channel_data-Safe w p h = grind (arith, replenish-Safe)

  pub forward-Safe : (w : World) (n : ℕ) → Safe w.session → Safe (forward env w n).session
  unfolding forward send_channel_data
  forward-Safe w n h = grind (arith, send_packet_lem)

  pub forward_loop-Safe :
      (fuel : ℕ) (w : World) → Safe w.session → Safe (forward_loop env fuel w).session
  unfolding forward_loop
  forward_loop-Safe zero w h = h
  forward_loop-Safe (suc fuel) w h =
      let n = received env (wanted w.session) w.backend_in in
      ground (arith, forward_loop-Safe fuel (forward env w n) (forward-Safe w n h))

  pub session_on_backend_data-Safe :
      (w : World) → Safe w.session → Safe (session_on_backend_data env w).session
  unfolding session_on_backend_data
  session_on_backend_data-Safe w h = grind (arith, forward_loop-Safe)

  pub handle_channel_window_adjust-Safe :
      (w : World) (p : Bytes) → Safe w.session → Safe (handle_channel_window_adjust env w p).session
  unfolding handle_channel_window_adjust
  handle_channel_window_adjust-Safe w p h = grind (arith, session_on_backend_data-Safe)

  pub handle_channel_close-Safe :
      (w : World) → Safe w.session → Safe (handle_channel_close env w).session
  unfolding handle_channel_close send_channel_close
  handle_channel_close-Safe w h = grind (arith, send_packet_lem)
