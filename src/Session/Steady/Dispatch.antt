-- ===== src/Session/Steady/Dispatch.antt =====
-- One packet, one round and one callback keep `Steady`.
use sshd.Base.{ℕ, Bytes, [], ◌∷◌, arith}
use sshd.Platform.{Platform}
use sshd.Session.{Session, World}
use sshd.Session.Packet.{send_disconnect}
use sshd.Session.Packet.Frame.{send_packet_lem}
use sshd.Session.Machine.{
  handle_global_request, dispatch_guarded, dispatch_channel, dispatch_type, dispatch_packet,
  peer_disconnects, send_unimplemented,
}
use sshd.Session.Steady.{Steady}
use sshd.Session.Steady.Exchange.{
  handle_kexinit-Steady, handle_kex_ecdh_init-Steady, handle_newkeys-Steady,
}
use sshd.Session.Steady.Login.{handle_service_request-Steady, handle_userauth_request-Steady}
use sshd.Session.Steady.Channels.{
  handle_channel_open-Steady, handle_channel_request-Steady, handle_channel_data-Steady,
  handle_channel_window_adjust-Steady, handle_channel_close-Steady,
}

module _ (env : Platform) (s : Session) where
  pub dispatch_guarded-Steady :
      (w : World) (type : ℕ) (payload body : Bytes)
      → Steady s w.session
      → Steady s (dispatch_guarded env w type payload body).1.session
  unfolding dispatch_guarded
  dispatch_guarded-Steady w type payload body h = ground (
    arith,
    handle_kexinit-Steady env s w payload h,
    handle_kex_ecdh_init-Steady env s w body h,
    handle_newkeys-Steady env s w h,
    handle_service_request-Steady env s w body h,
    handle_userauth_request-Steady env s w body h,
  )

  pub dispatch_channel-Steady :
      (w : World) (type : ℕ) (body : Bytes)
      → Steady s w.session
      → Steady s (dispatch_channel env w type body).1.session
  unfolding dispatch_channel
  dispatch_channel-Steady w type body h = ground (
    arith,
    handle_channel_open-Steady env s w body h,
    handle_channel_request-Steady env s w body h,
    handle_channel_data-Steady env s w body h,
    handle_channel_window_adjust-Steady env s w body h,
  )

  pub handle_global_request-Steady :
      (w : World) (body : Bytes)
      → Steady s w.session
      → Steady s (handle_global_request env w body).session
  unfolding handle_global_request
  handle_global_request-Steady w body h = grind (arith, send_packet_lem)

  pub send_unimplemented-Steady :
      (w : World) → Steady s w.session → Steady s (send_unimplemented env w).session
  unfolding send_unimplemented
  send_unimplemented-Steady w h = grind (arith, send_packet_lem)

  pub peer_disconnects-Steady :
      (w : World) → Steady s w.session → Steady s (peer_disconnects w).session
  unfolding peer_disconnects
  peer_disconnects-Steady w h = ground arith

  pub dispatch_type-Steady :
      (w : World) (type : ℕ) (payload body : Bytes)
      → Steady s w.session
      → Steady s (dispatch_type env w type payload body).1.session
  unfolding dispatch_type
  dispatch_type-Steady w type payload body h = ground (
    arith,
    dispatch_guarded-Steady w type payload body h,
    dispatch_channel-Steady w type body h,
    handle_global_request-Steady w body h,
    send_unimplemented-Steady w h,
    peer_disconnects-Steady w h,
    handle_channel_close-Steady env s w h,
  )

  pub dispatch_packet-Steady :
      (w : World) (payload : Bytes)
      → Steady s w.session
      → Steady s (dispatch_packet env w payload).1.session
  unfolding dispatch_packet
  dispatch_packet-Steady w [] h = h
  dispatch_packet-Steady w (type ∷ body) h = dispatch_type-Steady w type (type ∷ body) body h

  pub send_disconnect-Steady :
      (w : World) (reason : ℕ) (msg : Bytes)
      → Steady s w.session
      → Steady s (send_disconnect env w reason msg).session
  unfolding send_disconnect
  send_disconnect-Steady w reason msg h = grind (arith, send_packet_lem)
