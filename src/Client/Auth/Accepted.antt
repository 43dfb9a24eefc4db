-- ===== src/Client/Auth/Accepted.antt =====
-- The client's login requests, read by the server.
use sshd.Base.{
  ℕ, ◌^◌, ◌<◌, ◌≤◌, ◌≡◌, refl, sym, ap, subst, ◌∙◌, true, Bytes, some, [], ◌∷◌, ◌++◌, length, drop,
  append_assoc, append-nil, codes, length-out_array, bytes_eq_refl, arith,
}
use sshd.Platform.{Platform}
use sshd.Wire.{View, view_init, get_string, put_u8, put_string, put_cstring}
use sshd.Wire.RoundTrip.{
  Rest, advance, view_init-Rest, get_u8_reads, get_string_reads, length-put_string,
  put_string-put_string,
}
use sshd.Crypto.{ed25519_pub_from_seed, ed25519_sign, ed25519_verify}
use sshd.Session.{World, with_session, ssh_ed25519}
use sshd.Session.Auth.{
  authorized_pub_matches, second_of_ed25519, signed_data, c_str, send_userauth_success,
  handle_userauth_request,
}
use sshd.Session.Accept.{
  Request, handle_userauth_request_password, handle_userauth_request_publickey,
}
use sshd.Client.Auth.{request_head, public_blob, signed_text, publickey_request, password_request}

some_same : {A : Type 0} {a b : A} → some a ≡ some b → a ≡ b
some_same e = cc

-- The documented fact about Ed25519: a signature verifies under the key of its seed.
pub record SignatureScheme (env : Platform) : Type 0 where
  pub verify-sign :
      (seed msg pub32 sig : Bytes)
      → ed25519_pub_from_seed env seed ≡ some pub32
      → ed25519_sign env seed msg ≡ some sig
      → ed25519_verify env pub32 msg sig ≡ true

abbrev enc : Bytes → Bytes
enc s = put_string [] s

abbrev svc : Bytes
svc = codes "ssh-connection"

head_split :
    (user method r : Bytes)
    → length user < 2 ^ 32
    → length method < 2 ^ 32
    → request_head user method ++ r ≡ 50 ∷ (enc user ++ (enc svc ++ (enc method ++ r)))
unfolding request_head put_cstring put_u8
head_split user method r hu hm =
    let h1 = put_string-put_string (50 ∷ []) user hu in
    let p2 = put_string (50 ∷ []) user in
    let h2 = put_string-put_string p2 svc (omega arith) in
    let h3 = put_string-put_string (put_string p2 svc) method hm in
    ap (λ t. t ++ r) (h3 ∙ ap (λ t. t ++ enc method) (h2 ∙ ap (λ t. t ++ enc svc) h1))
    ∙ append_assoc (((50 ∷ []) ++ enc user) ++ enc svc) (enc method) r
    ∙ append_assoc ((50 ∷ []) ++ enc user) (enc svc) (enc method ++ r)

-- The server reads the head.
reads_head :
    (payload user method r : Bytes)
    → length user < 2 ^ 32
    → length method < 2 ^ 32
    → payload ≡ enc user ++ (enc svc ++ (enc method ++ r))
    → (v : View) × Request payload user svc method v × Rest v r
reads_head payload user method r hu hm e =
    let start : Rest (view_init payload) (enc user ++ (enc svc ++ (enc method ++ r))) =
      subst (Rest (view_init payload)) e (view_init-Rest payload) in
    let (read1, rest1) =
      get_string_reads (view_init payload) user (enc svc ++ (enc method ++ r)) hu start in
    let v1 = advance (length user) (advance 4 (view_init payload)) in
    let (read2, rest2) = get_string_reads v1 svc (enc method ++ r) (omega arith) rest1 in
    let v2 = advance (length svc) (advance 4 v1) in
    let (read3, rest3) = get_string_reads v2 method r hm rest2 in
    let at1 = ap (λ x. x.1) read1 in
    let at2 = ap (λ (v : View). get_string v) at1 ∙ read2 in
    let at3 = ap (λ (v : View). get_string v) (ap (λ x. x.1) at2) ∙ read3 in
    (
      advance (length method) (advance 4 v2),
      record {
        reads_user = ap (λ x. x.0) read1;
        reads_svc = ap (λ x. x.0) at2;
        reads_method = at3;
      },
      rest3,
    )

put_u8_byte : (s : Bytes) (b : ℕ) → b < 256 → put_u8 s b ≡ s ++ (b ∷ [])
unfolding put_u8
put_u8_byte s b h = ap (λ n. s ++ (n ∷ [])) (omega arith)

-- A password request as its parts.
password_split :
    (user password : Bytes)
    → length user < 2 ^ 32
    → length password < 2 ^ 32
    → drop 1 (password_request user password)
      ≡ enc user ++ (enc svc ++ (enc (codes "password") ++ (0 ∷ (enc password ++ []))))
unfolding password_request
password_split user password hu hp =
    let head = request_head user (codes "password") in
    ap (drop 1) (
      put_string-put_string (put_u8 head 0) password hp
      ∙ ap (λ t. t ++ enc password) (put_u8_byte head 0 (omega arith))
      ∙ append_assoc head (0 ∷ []) (enc password)
      ∙ ap (λ t. head ++ (0 ∷ t)) (sym (append-nil (enc password)))
      ∙ head_split user (codes "password") (0 ∷ (enc password ++ [])) hu (omega arith))

-- A password that the server's login service accepts (a C string of fewer than 2^32 bytes, under a
-- user name of fewer than 2^32 bytes) logs the client in: the server answers the client's password
-- request by `send_userauth_success`.
pub handle_userauth_request-password_request :
    (env : Platform) (w : World) (user password : Bytes)
    → length user < 2 ^ 32
    → length password < 2 ^ 32
    → env.auth_login (c_str password) ≡ true
    → handle_userauth_request env w (drop 1 (password_request user password))
      ≡ (true, send_userauth_success env (with_session w (record w.session { user = user })))
handle_userauth_request-password_request env w user password hu hp login =
    let payload = drop 1 (password_request user password) in
    let (v, request, rest) =
      reads_head payload user (codes "password") (0 ∷ (enc password ++ [])) hu (omega arith)
        (password_split user password hu hp) in
    let (change, rest1) = get_u8_reads v 0 (enc password ++ []) rest in
    let (read, _) = get_string_reads (advance 1 v) password [] hp rest1 in
    handle_userauth_request_password env w payload user svc password v (advance 1 v) request change
      (ap (λ x. x.0) read) login

pub second_of_blob :
    (text : Bytes) → length text < 2 ^ 32 → second_of_ed25519 (public_blob text) ≡ some text
unfolding second_of_ed25519 public_blob put_cstring
second_of_blob text h =
    let blob = put_string (put_string [] ssh_ed25519) text in
    let split : blob ≡ enc ssh_ed25519 ++ (enc text ++ []) =
      put_string-put_string (enc ssh_ed25519) text h
      ∙ ap (λ t. enc ssh_ed25519 ++ t) (sym (append-nil (enc text))) in
    let start = subst (Rest (view_init blob)) split (view_init-Rest blob) in
    let (read1, rest1) =
      get_string_reads (view_init blob) ssh_ed25519 (enc text ++ []) (omega arith) start in
    let (read2, _) =
      get_string_reads (advance (length ssh_ed25519) (advance 4 (view_init blob))) text [] h
        rest1 in
    ground (arith, read1, read2, bytes_eq_refl ssh_ed25519)

publickey_split :
    (user blob sig : Bytes)
    → length user < 2 ^ 32
    → length blob < 2 ^ 32
    → length (public_blob sig) < 2 ^ 32
    → drop 1 (publickey_request user blob sig)
      ≡ enc user
        ++ (enc svc
            ++ (enc (codes "publickey")
                ++ (1 ∷ (enc ssh_ed25519 ++ (enc blob ++ (enc (public_blob sig) ++ []))))))
unfolding publickey_request public_blob put_cstring
publickey_split user blob sig hu hb hs =
    let head = request_head user (codes "publickey") in
    let sig_blob = put_string (put_string [] ssh_ed25519) sig in
    let p1 = put_string (put_u8 head 1) ssh_ed25519 in
    let tail = enc ssh_ed25519 ++ (enc blob ++ (enc sig_blob ++ [])) in
    ap (drop 1) (
      put_string-put_string (put_string p1 blob) sig_blob hs
      ∙ ap (λ t. t ++ enc sig_blob) (put_string-put_string p1 blob hb)
      ∙ append_assoc p1 (enc blob) (enc sig_blob)
      ∙ ap (λ t. t ++ (enc blob ++ enc sig_blob))
          (put_string-put_string (put_u8 head 1) ssh_ed25519 (omega arith)
            ∙ ap (λ t. t ++ enc ssh_ed25519) (put_u8_byte head 1 (omega arith)))
      ∙ append_assoc (head ++ (1 ∷ [])) (enc ssh_ed25519) (enc blob ++ enc sig_blob)
      ∙ append_assoc head (1 ∷ []) (enc ssh_ed25519 ++ (enc blob ++ enc sig_blob))
      ∙ ap (λ t. head ++ (1 ∷ (enc ssh_ed25519 ++ (enc blob ++ t))))
          (sym (append-nil (enc sig_blob)))
      ∙ head_split user (codes "publickey") (1 ∷ tail) hu (omega arith))

signed_text-signed_data :
    (session_id user blob : Bytes)
    → signed_text session_id user blob ≡ signed_data session_id user svc blob
unfolding signed_text signed_data put_cstring
signed_text-signed_data session_id user blob = refl

length-public_blob : (text : Bytes) → length text ≤ 64 → length (public_blob text) < 2 ^ 32
unfolding public_blob put_cstring
length-public_blob text h = omega (
  arith,
  length-put_string (put_string [] ssh_ed25519) text (omega arith),
  length-put_string [] ssh_ed25519 (omega arith),
)

module _ (env : Platform) (laws : SignatureScheme env) (w : World) (seed user pub32 sig : Bytes)
    (known : length user < 2 ^ 32) (key : ed25519_pub_from_seed env seed ≡ some pub32)
    (signed : ed25519_sign env seed (signed_text w.session.session_id user (public_blob pub32))
      ≡ some sig) where
  key_size : length pub32 ≡ 32
  unfolding ed25519_pub_from_seed
  key_size = ap length (sym (some_same key)) ∙ length-out_array 32 (env.ed25519_keypair seed).0

  sig_size : length sig ≡ 64
  unfolding ed25519_sign
  sig_size = ap length (sym (some_same signed)) ∙ length-out_array 64 _

-- Under the documented fact about Ed25519: a client whose public key is authorized logs in with it. The
-- request that it signs with its seed, over the session id that the server has too and under a user
-- name of fewer than 2^32 bytes, is answered by the server with `send_userauth_success`.
pub handle_userauth_request-publickey_request :
    (env : Platform) (w : World) (seed user pub32 sig : Bytes)
    → SignatureScheme env
    → length user < 2 ^ 32
    → ed25519_pub_from_seed env seed ≡ some pub32
    → ed25519_sign env seed (signed_text w.session.session_id user (public_blob pub32)) ≡ some sig
    → authorized_pub_matches env pub32 ≡ true
    → handle_userauth_request env w (drop 1 (publickey_request user (public_blob pub32) sig))
      ≡ (true, send_userauth_success env (with_session w (record w.session { user = user })))
handle_userauth_request-publickey_request env w seed user pub32 sig laws hu key signed authorized =
    let blob = public_blob pub32 in
    let sig_blob = public_blob sig in
    let payload = drop 1 (publickey_request user blob sig) in
    let size = key_size env laws w seed user pub32 sig hu key signed in
    let size64 = sig_size env laws w seed user pub32 sig hu key signed in
    let blob_fits = length-public_blob pub32 (omega (arith, size)) in
    let sig_fits = length-public_blob sig (omega (arith, size64)) in
    let tail = enc ssh_ed25519 ++ (enc blob ++ (enc sig_blob ++ [])) in
    let (v, request, rest) =
      reads_head payload user (codes "publickey") (1 ∷ tail) hu (omega arith)
        (publickey_split user blob sig hu blob_fits sig_fits) in
    let (has_sig, rest1) = get_u8_reads v 1 tail rest in
    let v1 = advance 1 v in
    let (alg, rest2) =
      get_string_reads v1 ssh_ed25519 (enc blob ++ (enc sig_blob ++ [])) (omega arith) rest1 in
    let v2 = advance (length ssh_ed25519) (advance 4 v1) in
    let (key_read, rest3) = get_string_reads v2 blob (enc sig_blob ++ []) blob_fits rest2 in
    let v3 = advance (length blob) (advance 4 v2) in
    let (sig_read, _) = get_string_reads v3 sig_blob [] sig_fits rest3 in
    handle_userauth_request_publickey env w payload user svc blob pub32 sig_blob sig 1 v v1 v2 v3
      request refl has_sig alg key_read (second_of_blob pub32 (omega (arith, size))) size authorized
      (ap (λ x. x.0) sig_read) (second_of_blob sig (omega (arith, size64))) size64
      (ap (λ m. ed25519_verify env pub32 m sig)
          (sym (signed_text-signed_data w.session.session_id user blob))
        ∙ laws.verify-sign seed _ pub32 sig key signed)
