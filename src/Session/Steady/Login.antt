-- ===== src/Session/Steady/Login.antt =====
-- The handlers of the phase AUTH keep `Steady`.
use sshd.Base.{ℕ, Bytes, arith}
use sshd.Platform.{Platform}
use sshd.Wire.{View}
use sshd.Session.{Session, World}
use sshd.Session.Packet.{send_disconnect}
use sshd.Session.Packet.Frame.{send_packet_lem}
use sshd.Session.Auth.{
  handle_service_request, send_userauth_success, send_userauth_failure, refuse_userauth,
  bad_userauth, check_signature, ask_for_signature, check_key, publickey_method, password_method,
  userauth_method, handle_userauth_request,
}
use sshd.Session.Steady.{Steady}

module _ (env : Platform) (s : Session) where
  pub handle_service_request-Steady :
      (w : World) (p : Bytes)
      → Steady s w.session
      → Steady s (handle_service_request env w p).1.session
  unfolding handle_service_request send_disconnect
  handle_service_request-Steady w p h = grind (arith, send_packet_lem)

  pub send_userauth_success-Steady :
      (w : World) → Steady s w.session → Steady s (send_userauth_success env w).session
  unfolding send_userauth_success
  send_userauth_success-Steady w h = grind (arith, send_packet_lem)

  pub refuse_userauth-Steady :
      (w : World) → Steady s w.session → Steady s (refuse_userauth env w).1.session
  unfolding refuse_userauth send_userauth_failure
  refuse_userauth-Steady w h = grind (arith, send_packet_lem)

  pub bad_userauth-Steady :
      (w : World) → Steady s w.session → Steady s (bad_userauth env w).1.session
  unfolding bad_userauth send_disconnect
  bad_userauth-Steady w h = grind (arith, send_packet_lem)

  pub ask_for_signature-Steady :
      (w : World) (alg blob : Bytes)
      → Steady s w.session
      → Steady s (ask_for_signature env w alg blob).1.session
  unfolding ask_for_signature
  ask_for_signature-Steady w alg blob h = grind (arith, send_packet_lem)

  pub check_signature-Steady :
      (w : World) (user svc blob pub32 : Bytes) (v : View)
      → Steady s w.session
      → Steady s (check_signature env w user svc blob pub32 v).1.session
  unfolding check_signature
  check_signature-Steady w user svc blob pub32 v h =
      grind (arith, send_userauth_success-Steady, refuse_userauth-Steady, bad_userauth-Steady)

  pub check_key-Steady :
      (w : World) (user svc : Bytes) (has_sig : ℕ) (alg blob : Bytes) (v : View)
      → Steady s w.session
      → Steady s (check_key env w user svc has_sig alg blob v).1.session
  unfolding check_key
  check_key-Steady w user svc has_sig alg blob v h =
      grind (arith, check_signature-Steady, refuse_userauth-Steady, ask_for_signature-Steady)

  pub publickey_method-Steady :
      (w : World) (user svc : Bytes) (v : View)
      → Steady s w.session
      → Steady s (publickey_method env w user svc v).1.session
  unfolding publickey_method
  publickey_method-Steady w user svc v h = grind (arith, check_key-Steady, bad_userauth-Steady)

  pub password_method-Steady :
      (w : World) (v : View) → Steady s w.session → Steady s (password_method env w v).1.session
  unfolding password_method
  password_method-Steady w v h =
      grind (arith, send_userauth_success-Steady, refuse_userauth-Steady, bad_userauth-Steady)

  pub userauth_method-Steady :
      (w : World) (user svc method : Bytes) (v : View)
      → Steady s w.session
      → Steady s (userauth_method env w user svc method v).1.session
  unfolding userauth_method
  userauth_method-Steady w user svc method v h =
      grind (arith, publickey_method-Steady, password_method-Steady, refuse_userauth-Steady)

  pub handle_userauth_request-Steady :
      (w : World) (p : Bytes)
      → Steady s w.session
      → Steady s (handle_userauth_request env w p).1.session
  unfolding handle_userauth_request
  handle_userauth_request-Steady w p h = grind (arith, userauth_method-Steady, bad_userauth-Steady)
