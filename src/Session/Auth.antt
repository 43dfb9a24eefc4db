-- ===== src/Session/Auth.antt =====
-- The phase AUTH of esp-idf/src/sshd_session.cpp: the service request, and user authentication by
-- public key and by password.
use sshd.Base.{
  ℕ, zero, suc, ◌+◌, Bool, true, false, not, ◌&&◌, ◌||◌, ◌==◌, Option, none, some, Bytes, [], ◌∷◌,
  if◌then◌else◌, length, take, drop, bytes_eq, codes,
}
use sshd.Wire.{View, view_init, get_u8, get_string, put_u8, put_string, put_cstring}
use sshd.Platform.{Platform}
use sshd.Crypto.{ed25519_verify}
use sshd.Session.{World, run, with_session, ssh_ed25519}
use sshd.Session.Msg
use sshd.Session.Packet.{send_packet, send_disconnect}
use sshd.Session.Version.{find_byte}

-- ---- the authorized keys ----

-- Two strings, the first of them `ssh-ed25519`: what the second is.
unfoldable pub second_of_ed25519 : Bytes → Option Bytes
second_of_ed25519 blob =
    let (alg, v) = get_string (view_init blob) in
    elim alg [
      | none ↦ none
      | some name ↦ if not (bytes_eq name ssh_ed25519) then none else (get_string v).0
    ]

-- The base64 text between the first two spaces of a line, of which the first is there.
unfoldable pub key_text : Bytes → ℕ → Bytes
key_text line sp1 =
    let tail = drop (sp1 + 1) line in
    elim (find_byte b' ' tail) [ none ↦ tail | some sp2 ↦ take sp2 tail ]

-- One round of the loop of `authorized_pub_matches`: `false` is `continue`.
unfoldable pub key_line_matches : Platform → Bytes → Bytes → Bool
key_line_matches env pub32 line =
    if not (bytes_eq (take 12 line) (codes "ssh-ed25519 "))
    then false
    else elim (find_byte b' ' line) [
      | none ↦ false
      | some sp1 ↦ elim (env.base64_decode (key_text line sp1) 80) [
        | none ↦ false
        | some blob ↦ elim (second_of_ed25519 blob) [
          | none ↦ false
          | some candidate ↦ length candidate == 32 && bytes_eq candidate pub32
        ]
      ]
    ]

-- The loop, from the entry `i` on, with `left` entries to go.
unfoldable pub matches_from : Platform → Bytes → ℕ → ℕ → Bool
matches_from env pub32 i zero = false
matches_from env pub32 i (suc left) =
    let rest = matches_from env pub32 (i + 1) left in
    if key_line_matches env pub32 (env.authorized_line i) then true else rest

unfoldable pub authorized_pub_matches : Platform → Bytes → Bool
authorized_pub_matches env pub32 = matches_from env pub32 0 env.authorized_count

-- The data that the signature covers.
unfoldable pub signed_data : Bytes → Bytes → Bytes → Bytes → Bytes
signed_data session_id user svc pk_blob =
    let p1 = put_u8 (put_string [] session_id) Msg.userauth_request in
    let p2 = put_cstring (put_string (put_string p1 user) svc) (codes "publickey") in
    put_string (put_cstring (put_u8 p2 1) ssh_ed25519) pk_blob

-- A C string ends at the first NUL.
unfoldable pub c_str : Bytes → Bytes
c_str [] = []
c_str (zero ∷ r) = []
c_str (suc x ∷ r) = suc x ∷ c_str r

module _ (env : Platform) where
  unfoldable pub send_userauth_failure : World → Bool → World
  send_userauth_failure w is_partial =
      let p = put_cstring (put_u8 [] Msg.userauth_failure) (codes "publickey,password") in
      send_packet env w (put_u8 p (if is_partial then 1 else 0))

  unfoldable pub send_userauth_success : World → World
  send_userauth_success w =
      let w1 = send_packet env w (put_u8 [] Msg.userauth_success) in
      with_session w1 (record w1.session { authed = true; phase = run })

  unfoldable pub handle_service_request : World → Bytes → Bool × World
  handle_service_request w payload = elim (get_string (view_init payload)).0 [
    | none ↦ (false, send_disconnect env w 2 (codes "bad SERVICE_REQUEST"))
    | some name ↦
        if not (bytes_eq name (codes "ssh-userauth"))
        then (false, send_disconnect env w 7 (codes "only ssh-userauth supported"))
        else (true, send_packet env w (put_string (put_u8 [] Msg.service_accept) name))
  ]

  -- The label `bad`.
  unfoldable pub bad_userauth : World → Bool × World
  bad_userauth w = (false, send_disconnect env w 2 (codes "bad USERAUTH_REQUEST"))

  unfoldable pub refuse_userauth : World → Bool × World
  refuse_userauth w = (true, send_userauth_failure w false)

  -- The public key method with a signature: `v` stands at the signature.
  unfoldable pub check_signature : World → Bytes → Bytes → Bytes → Bytes → View → Bool × World
  check_signature w user svc pk_blob pub32 v = elim (get_string v).0 [
    | none ↦ bad_userauth w
    | some sig_blob ↦ elim (second_of_ed25519 sig_blob) [
      | none ↦ refuse_userauth w
      | some sig ↦
          if not (length sig == 64)
          then refuse_userauth w
          else (if not
                (ed25519_verify env pub32 (signed_data w.session.session_id user svc pk_blob) sig)
              then refuse_userauth w
              else (true, send_userauth_success w))
    ]
  ]

  unfoldable pub ask_for_signature : World → Bytes → Bytes → Bool × World
  ask_for_signature w alg pk_blob =
      (true, send_packet env w (put_string (put_string (put_u8 [] Msg.userauth_pk_ok) alg) pk_blob))

  -- The public key method once its key blob is read.
  unfoldable pub check_key : World → Bytes → Bytes → ℕ → Bytes → Bytes → View → Bool × World
  check_key w user svc has_sig alg pk_blob v =
      if not (bytes_eq alg ssh_ed25519)
      then refuse_userauth w
      else elim (second_of_ed25519 pk_blob) [
        | none ↦ refuse_userauth w
        | some pub32 ↦
            if not (length pub32 == 32) || not (authorized_pub_matches env pub32)
            then refuse_userauth w
            else (if has_sig == 0
                then ask_for_signature w alg pk_blob
                else check_signature w user svc pk_blob pub32 v)
      ]

  unfoldable pub publickey_method : World → Bytes → Bytes → View → Bool × World
  publickey_method w user svc v =
      let (has_sig, v1) = get_u8 v in
      let (alg, v2) = get_string v1 in
      let (pk_blob, v3) = get_string v2 in
      elim alg [
        | none ↦ bad_userauth w
        | some alg_str ↦ elim pk_blob [
          | none ↦ bad_userauth w
          | some blob ↦ check_key w user svc has_sig alg_str blob v3
        ]
      ]

  unfoldable pub password_method : World → View → Bool × World
  password_method w v =
      let (has_change, v1) = get_u8 v in
      if not (has_change == 0) then refuse_userauth w else elim (get_string v1).0 [
        | none ↦ bad_userauth w
        | some pw ↦
            if env.auth_login (c_str pw) then (true, send_userauth_success w) else refuse_userauth w
      ]

  unfoldable pub userauth_method : World → Bytes → Bytes → Bytes → View → Bool × World
  userauth_method w user svc method v =
      if bytes_eq method (codes "publickey")
      then publickey_method w user svc v
      else (if bytes_eq method (codes "password") then password_method w v else refuse_userauth w)

  unfoldable pub handle_userauth_request : World → Bytes → Bool × World
  handle_userauth_request w payload =
      let (user, v1) = get_string (view_init payload) in
      let (svc, v2) = get_string v1 in
      let (method, v3) = get_string v2 in
      elim user [
        | none ↦ bad_userauth w
        | some user_str ↦ elim svc [
          | none ↦ bad_userauth w
          | some svc_str ↦ elim method [
            | none ↦ bad_userauth w
            | some method_str ↦
                userauth_method (with_session w (record w.session { user = user_str })) user_str
                  svc_str method_str v3
          ]
        ]
      ]
