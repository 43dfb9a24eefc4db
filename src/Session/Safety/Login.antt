-- ===== src/Session/Safety/Login.antt =====
-- The handlers of the phase AUTH keep `Safe`.
use sshd.Base.{ℕ, ◌≡◌, Bytes, arith}
use sshd.Platform.{Platform}
use sshd.Wire.{View}
use sshd.Session.{World, auth}
use sshd.Session.Packet.{send_disconnect}
use sshd.Session.Packet.Frame.{send_packet_lem}
use sshd.Session.Auth.{
  handle_service_request, send_userauth_success, send_userauth_failure, refuse_userauth,
  bad_userauth, check_signature, ask_for_signature, check_key, publickey_method, password_method,
  userauth_method, handle_userauth_request,
}
use sshd.Session.Safety.{Safe}

module _ (env : Platform) where
  pub handle_service_request-Safe :
      (w : World) (p : Bytes) → Safe w.session → Safe (handle_service_request env w p).1.session
  unfolding handle_service_request send_disconnect
  handle_service_request-Safe w p h = grind (arith, send_packet_lem)

  pub send_userauth_success-Safe :
      (w : World)
      → Safe w.session
      → w.session.phase ≡ auth
      → Safe (send_userauth_success env w).session
  unfolding send_userauth_success
  send_userauth_success-Safe w h a = grind (arith, send_packet_lem)

  pub refuse_userauth-Safe : (w : World) → Safe w.session → Safe (refuse_userauth env w).1.session
  unfolding refuse_userauth send_userauth_failure
  refuse_userauth-Safe w h = grind (arith, send_packet_lem)

  pub bad_userauth-Safe : (w : World) → Safe w.session → Safe (bad_userauth env w).1.session
  unfolding bad_userauth send_disconnect
  bad_userauth-Safe w h = grind (arith, send_packet_lem)

  pub ask_for_signature-Safe :
      (w : World) (alg blob : Bytes)
      → Safe w.session
      → Safe (ask_for_signature env w alg blob).1.session
  unfolding ask_for_signature
  ask_for_signature-Safe w alg blob h = grind (arith, send_packet_lem)

  pub check_signature-Safe :
      (w : World) (user svc blob pub32 : Bytes) (v : View)
      → Safe w.session
      → w.session.phase ≡ auth
      → Safe (check_signature env w user svc blob pub32 v).1.session
  unfolding check_signature
  check_signature-Safe w user svc blob pub32 v h a =
      grind (arith, send_userauth_success-Safe, refuse_userauth-Safe, bad_userauth-Safe)

  pub check_key-Safe :
      (w : World) (user svc : Bytes) (has_sig : ℕ) (alg blob : Bytes) (v : View)
      → Safe w.session
      → w.session.phase ≡ auth
      → Safe (check_key env w user svc has_sig alg blob v).1.session
  unfolding check_key
  check_key-Safe w user svc has_sig alg blob v h a =
      grind (arith, check_signature-Safe, refuse_userauth-Safe, ask_for_signature-Safe)

  pub publickey_method-Safe :
      (w : World) (user svc : Bytes) (v : View)
      → Safe w.session
      → w.session.phase ≡ auth
      → Safe (publickey_method env w user svc v).1.session
  unfolding publickey_method
  publickey_method-Safe w user svc v h a = grind (arith, check_key-Safe, bad_userauth-Safe)

  pub password_method-Safe :
      (w : World) (v : View)
      → Safe w.session
      → w.session.phase ≡ auth
      → Safe (password_method env w v).1.session
  unfolding password_method
  password_method-Safe w v h a =
      grind (arith, send_userauth_success-Safe, refuse_userauth-Safe, bad_userauth-Safe)

  pub userauth_method-Safe :
      (w : World) (user svc method : Bytes) (v : View)
      → Safe w.session
      → w.session.phase ≡ auth
      → Safe (userauth_method env w user svc method v).1.session
  unfolding userauth_method
  userauth_method-Safe w user svc method v h a =
      grind (arith, publickey_method-Safe, password_method-Safe, refuse_userauth-Safe)

  pub handle_userauth_request-Safe :
      (w : World) (p : Bytes)
      → Safe w.session
      → w.session.phase ≡ auth
      → Safe (handle_userauth_request env w p).1.session
  unfolding handle_userauth_request
  handle_userauth_request-Safe w p h a = grind (arith, userauth_method-Safe, bad_userauth-Safe)
