-- ===== src/Session/Accept.antt =====
-- The answer to a client that shows its evidence.
use sshd.Base.{
  ℕ, ◌≡◌, ◌∙◌, true, false, some, Bytes, length, bytes_eq, bytes_eq_refl, codes, ◌==◌, arith,
}
use sshd.Platform.{Platform}
use sshd.Wire.{View, view_init, get_u8, get_string}
use sshd.Crypto.{ed25519_verify}
use sshd.Session.{World, with_session, ssh_ed25519}
use sshd.Session.Auth.{
  authorized_pub_matches, second_of_ed25519, signed_data, c_str, send_userauth_success,
  check_signature, check_key, publickey_method, password_method, userauth_method,
  handle_userauth_request,
}

-- What a request asks for: its user, service, method and the rest behind them.
pub record Request (payload user svc method : Bytes) (v : View) : Type 0 where
  pub reads_user : (get_string (view_init payload)).0 ≡ some user
  pub reads_svc : (get_string (get_string (view_init payload)).1).0 ≡ some svc
  pub reads_method : get_string (get_string (get_string (view_init payload)).1).1 ≡ (some method, v)

module _ (env : Platform) where
  by_method :
      (w : World) (payload user svc method : Bytes) (v : View)
      → Request payload user svc method v
      → handle_userauth_request env w payload
        ≡ userauth_method env (with_session w (record w.session { user = user })) user svc method v
  unfolding handle_userauth_request
  by_method w payload user svc method v r =
      ground (arith, r.reads_user, r.reads_svc, r.reads_method)

  password_accepts :
      (w : World) (user svc pw : Bytes) (v v1 : View)
      → get_u8 v ≡ (0, v1)
      → (get_string v1).0 ≡ some pw
      → env.auth_login (c_str pw) ≡ true
      → userauth_method env w user svc (codes "password") v ≡ (true, send_userauth_success env w)
  unfolding userauth_method password_method bytes_eq
  password_accepts w user svc pw v v1 change reads ok = ground (arith, change, reads, ok)

  -- A password request, with no change of the password asked for, whose password the login service
  -- accepts is answered by `send_userauth_success`, under the name that it gives.
  pub handle_userauth_request_password :
      (w : World) (payload user svc pw : Bytes) (v v1 : View)
      → Request payload user svc (codes "password") v
      → get_u8 v ≡ (0, v1)
      → (get_string v1).0 ≡ some pw
      → env.auth_login (c_str pw) ≡ true
      → handle_userauth_request env w payload
        ≡ (true, send_userauth_success env (with_session w (record w.session { user = user })))
  handle_userauth_request_password w payload user svc pw v v1 r change reads ok =
      by_method w payload user svc (codes "password") v r
      ∙ password_accepts (with_session w (record w.session { user = user })) user svc pw v v1 change
          reads ok

  publickey_accepts :
      (w : World) (user svc pk_blob pub32 sig_blob sig : Bytes) (has_sig : ℕ) (v v1 v2 v3 : View)
      → (has_sig == 0) ≡ false
      → get_u8 v ≡ (has_sig, v1)
      → get_string v1 ≡ (some ssh_ed25519, v2)
      → get_string v2 ≡ (some pk_blob, v3)
      → second_of_ed25519 pk_blob ≡ some pub32
      → length pub32 ≡ 32
      → authorized_pub_matches env pub32 ≡ true
      → (get_string v3).0 ≡ some sig_blob
      → second_of_ed25519 sig_blob ≡ some sig
      → length sig ≡ 64
      → ed25519_verify env pub32 (signed_data w.session.session_id user svc pk_blob) sig ≡ true
      → userauth_method env w user svc (codes "publickey") v ≡ (true, send_userauth_success env w)
  unfolding userauth_method publickey_method check_key check_signature bytes_eq
  publickey_accepts w user svc pk_blob pub32 sig_blob sig has_sig v v1 v2 v3 a b c d e f g h i j k =
      ground (arith, a, b, c, d, e, f, g, h, i, j, k, bytes_eq_refl ssh_ed25519)

  -- A public key request with a signature, for an authorized key of 32 bytes and a signature of 64
  -- bytes that verifies over the session's id and the request, is answered by
  -- `send_userauth_success`, under the name that it gives.
  pub handle_userauth_request_publickey :
      (w : World) (payload user svc pk_blob pub32 sig_blob sig : Bytes) (has_sig : ℕ)
      (v v1 v2 v3 : View)
      → Request payload user svc (codes "publickey") v
      → (has_sig == 0) ≡ false
      → get_u8 v ≡ (has_sig, v1)
      → get_string v1 ≡ (some ssh_ed25519, v2)
      → get_string v2 ≡ (some pk_blob, v3)
      → second_of_ed25519 pk_blob ≡ some pub32
      → length pub32 ≡ 32
      → authorized_pub_matches env pub32 ≡ true
      → (get_string v3).0 ≡ some sig_blob
      → second_of_ed25519 sig_blob ≡ some sig
      → length sig ≡ 64
      → ed25519_verify env pub32 (signed_data w.session.session_id user svc pk_blob) sig ≡ true
      → handle_userauth_request env w payload
        ≡ (true, send_userauth_success env (with_session w (record w.session { user = user })))
  handle_userauth_request_publickey w payload user svc pk_blob pub32 sig_blob sig has_sig v v1 v2 v3
        r a b c d e f g h i j k =
      by_method w payload user svc (codes "publickey") v r
      ∙ publickey_accepts (with_session w (record w.session { user = user })) user svc pk_blob pub32
          sig_blob sig has_sig v v1 v2 v3 a b c d e f g h i j k
