-- ===== src/Session/Evidence.antt =====
-- What a client must have shown before it is authenticated.
use sshd.Base.{
  ℕ, ◌≡◌, refl, inl, inr, true, false, some, Bytes, length, bytes_eq, bytes_eq_sound, codes,
  Bool-cases, Option-cases, arith,
}
use sshd.Platform.{Platform}
use sshd.Wire.{View, view_init, get_u8, get_string}
use sshd.Crypto.{ed25519_verify}
use sshd.Session.{Session, World, with_session, ssh_ed25519}
use sshd.Session.Packet.{send_disconnect}
use sshd.Session.Packet.Frame.{send_packet_lem}
use sshd.Session.Auth.{
  authorized_pub_matches, second_of_ed25519, signed_data, c_str, send_userauth_failure,
  refuse_userauth, bad_userauth, ask_for_signature, check_signature, check_key, publickey_method,
  password_method, userauth_method, handle_userauth_request,
}

-- The evidence in the rest `v` of a request, for the user and the service that it names.
pub data Evidence (env : Platform) (s : Session) (user svc method : Bytes) (v : View) : Type 0 where
  signature :
      (alg pk_blob pub32 sig_blob sig : Bytes)
      → method ≡ codes "publickey"
      → (get_string (get_u8 v).1).0 ≡ some alg
      → alg ≡ ssh_ed25519
      → (get_string (get_string (get_u8 v).1).1).0 ≡ some pk_blob
      → second_of_ed25519 pk_blob ≡ some pub32
      → length pub32 ≡ 32
      → authorized_pub_matches env pub32 ≡ true
      → (get_string (get_string (get_string (get_u8 v).1).1).1).0 ≡ some sig_blob
      → second_of_ed25519 sig_blob ≡ some sig
      → length sig ≡ 64
      → ed25519_verify env pub32 (signed_data s.session_id user svc pk_blob) sig ≡ true
      → Evidence env s user svc method v
  password :
      (pw : Bytes)
      → method ≡ codes "password"
      → (get_string (get_u8 v).1).0 ≡ some pw
      → env.auth_login (c_str pw) ≡ true
      → Evidence env s user svc method v

module _ (env : Platform) where
  refuse_userauth-authed : (w : World) → (refuse_userauth env w).1.session.authed ≡ w.session.authed
  unfolding refuse_userauth send_userauth_failure
  refuse_userauth-authed w = grind (arith, send_packet_lem)

  bad_userauth-authed : (w : World) → (bad_userauth env w).1.session.authed ≡ w.session.authed
  unfolding bad_userauth send_disconnect
  bad_userauth-authed w = grind (arith, send_packet_lem)

  ask_for_signature-authed :
      (w : World) (alg blob : Bytes)
      → (ask_for_signature env w alg blob).1.session.authed ≡ w.session.authed
  unfolding ask_for_signature
  ask_for_signature-authed w alg blob = grind (arith, send_packet_lem)

  check_signature_needs :
      (w : World) (user svc pk_blob pub32 : Bytes) (v : View)
      → w.session.authed ≡ false
      → (check_signature env w user svc pk_blob pub32 v).1.session.authed ≡ true
      → (sig_blob : Bytes) × (sig : Bytes) × ((get_string v).0 ≡ some sig_blob)
        × (second_of_ed25519 sig_blob ≡ some sig)
        × (length sig ≡ 64)
        × (ed25519_verify env pub32 (signed_data w.session.session_id user svc pk_blob) sig ≡ true)
  unfolding check_signature
  check_signature_needs w user svc pk_blob pub32 v no_auth e =
      elim (Option-cases (get_string v).0) [
        | inl missing ↦ absurd (ground (arith, missing, bad_userauth-authed w))
        | inr (sig_blob, read) ↦ elim (Option-cases (second_of_ed25519 sig_blob)) [
          | inl missing ↦ absurd (ground (arith, read, missing, refuse_userauth-authed w))
          | inr (sig, found) ↦ (
            sig_blob,
            sig,
            read,
            found,
            ground (arith, read, found, refuse_userauth-authed w),
            ground (arith, read, found, refuse_userauth-authed w),
          )
        ]
      ]

  -- A key that is not answered with a refusal is an authorized ed25519 key.
  check_key_needs :
      (w : World) (user svc : Bytes) (has_sig : ℕ) (alg pk_blob : Bytes) (v : View)
      → w.session.authed ≡ false
      → (check_key env w user svc has_sig alg pk_blob v).1.session.authed ≡ true
      → (bytes_eq alg ssh_ed25519 ≡ true)
        × (pub32 : Bytes) × (second_of_ed25519 pk_blob ≡ some pub32)
        × (length pub32 ≡ 32)
        × (authorized_pub_matches env pub32 ≡ true)
        × ((check_signature env w user svc pk_blob pub32 v).1.session.authed ≡ true)
  unfolding check_key
  check_key_needs w user svc has_sig alg pk_blob v no_auth e =
      elim (Option-cases (second_of_ed25519 pk_blob)) [
        | inl missing ↦ absurd (ground (arith, missing, refuse_userauth-authed w))
        | inr (pub32, found) ↦
            let refused = refuse_userauth-authed w in
            let asked = ask_for_signature-authed w alg pk_blob in
            (
              ground (arith, found, refused, asked),
              pub32,
              found,
              ground (arith, found, refused, asked),
              ground (arith, found, refused, asked),
              ground (arith, found, refused, asked),
            )
      ]

  publickey_method_needs :
      (w : World) (user svc : Bytes) (v : View)
      → w.session.authed ≡ false
      → (publickey_method env w user svc v).1.session.authed ≡ true
      → Evidence env w.session user svc (codes "publickey") v
  unfolding publickey_method
  publickey_method_needs w user svc v no_auth e =
      let v1 = (get_u8 v).1 in
      let v2 = (get_string v1).1 in
      let v3 = (get_string v2).1 in
      elim (Option-cases (get_string v1).0) [
        | inl missing ↦ absurd (ground (arith, missing, bad_userauth-authed w))
        | inr (alg, read_alg) ↦ elim (Option-cases (get_string v2).0) [
          | inl missing ↦ absurd (ground (arith, read_alg, missing, bad_userauth-authed w))
          | inr (pk_blob, read_blob) ↦
              let passed : (check_key env w user svc (get_u8 v).0 alg pk_blob v3).1.session.authed
                  ≡ true =
                ground (arith, read_alg, read_blob) in
              let (named, pub32, found, size, known, signed) =
                check_key_needs w user svc (get_u8 v).0 alg pk_blob v3 no_auth passed in
              let (sig_blob, sig, read_sig, sig_found, sig_size, verified) =
                check_signature_needs w user svc pk_blob pub32 v3 no_auth signed in
              signature alg pk_blob pub32 sig_blob sig refl read_alg
                (bytes_eq_sound alg ssh_ed25519 named) read_blob found size known read_sig sig_found
                sig_size verified
        ]
      ]

  password_method_needs :
      (w : World) (user svc : Bytes) (v : View)
      → w.session.authed ≡ false
      → (password_method env w v).1.session.authed ≡ true
      → Evidence env w.session user svc (codes "password") v
  unfolding password_method
  password_method_needs w user svc v no_auth e = elim (Option-cases (get_string (get_u8 v).1).0) [
    | inl missing ↦
        absurd (ground (arith, missing, refuse_userauth-authed w, bad_userauth-authed w))
    | inr (pw, read) ↦
        password pw refl read
          (ground (arith, read, refuse_userauth-authed w, bad_userauth-authed w))
  ]

  userauth_method_needs :
      (w : World) (user svc method : Bytes) (v : View)
      → w.session.authed ≡ false
      → (userauth_method env w user svc method v).1.session.authed ≡ true
      → Evidence env w.session user svc method v
  unfolding userauth_method
  userauth_method_needs w user svc method v no_auth e =
      elim (Bool-cases (bytes_eq method (codes "publickey"))) [
        | inl key ↦
            rw (bytes_eq_sound method (codes "publickey") key)
              (publickey_method_needs w user svc v no_auth (ground (arith, key)))
        | inr not_key ↦ elim (Bool-cases (bytes_eq method (codes "password"))) [
          | inl pass ↦
              rw (bytes_eq_sound method (codes "password") pass)
                (password_method_needs w user svc v no_auth (ground (arith, not_key, pass)))
          | inr other ↦ absurd (ground (arith, not_key, other, refuse_userauth-authed w))
        ]
      ]

  same_id :
      {s : Session} {user svc method : Bytes} {v : View}
      → Evidence env (record s { user = user }) user svc method v
      → Evidence env s user svc method v
  same_id (signature alg pk_blob pub32 sig_blob sig a b c d e f g h i j k) =
      signature alg pk_blob pub32 sig_blob sig a b c d e f g h i j k
  same_id (password pw a b c) = password pw a b c

  -- A request that authenticates a session that was not authenticated names a user, a service and a method, and has the
  -- evidence of that method behind them: an authorized key with a signature of the session's id and
  -- the request that verifies, or a password that the login service accepts.
  pub handle_userauth_request_needs :
      (w : World) (payload : Bytes)
      → w.session.authed ≡ false
      → (handle_userauth_request env w payload).1.session.authed ≡ true
      → (user : Bytes) × (svc : Bytes) × (method : Bytes) × ((get_string (view_init payload)).0
          ≡ some user)
        × ((get_string (get_string (view_init payload)).1).0 ≡ some svc)
        × ((get_string (get_string (get_string (view_init payload)).1).1).0 ≡ some method)
        × Evidence env w.session user svc method
            (get_string (get_string (get_string (view_init payload)).1).1).1
  unfolding handle_userauth_request
  handle_userauth_request_needs w payload no_auth e =
      let v0 = view_init payload in
      let v1 = (get_string v0).1 in
      let v2 = (get_string v1).1 in
      let bad = bad_userauth-authed w in
      elim (Option-cases (get_string v0).0) [
        | inl missing ↦ absurd (ground (arith, missing, bad))
        | inr (user, read_user) ↦ elim (Option-cases (get_string v1).0) [
          | inl missing ↦ absurd (ground (arith, read_user, missing, bad))
          | inr (svc, read_svc) ↦ elim (Option-cases (get_string v2).0) [
            | inl missing ↦ absurd (ground (arith, read_user, read_svc, missing, bad))
            | inr (method, read_method) ↦
                let named = with_session w (record w.session { user = user }) in
                let passed : (userauth_method env named user svc method
                      (get_string v2).1).1.session.authed
                    ≡ true =
                  ground (arith, read_user, read_svc, read_method) in
                (
                  user,
                  svc,
                  method,
                  read_user,
                  read_svc,
                  read_method,
                  same_id (
                      userauth_method_needs named user svc method (get_string v2).1 no_auth passed),
                )
          ]
        ]
      ]
