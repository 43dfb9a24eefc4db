-- ===== src/Client/Auth.antt =====
-- The login of esp-idf/src/ssh_client.cpp: `do_auth` and its methods.
pub mod Accepted
pub mod Talk
pub mod Seen
use sshd.Base.{
  ℕ, zero, suc, ◌+◌, ◌-◌, Bool, true, false, not, ◌&&◌, ◌||◌, ◌==◌, Option, none, some, Bytes, List,
  [], ◌∷◌, ◌++◌, ltb, if◌then◌else◌, length, take, drop, codes,
}
use sshd.Wire.{
  View, view_init, get_u8, get_u32, get_string, skip_string, put_u8, put_u32, put_string,
  put_cstring,
}
use sshd.Platform.{Platform}
use sshd.Crypto.{ed25519_pub_from_seed, ed25519_sign}
use sshd.Session.{ssh_ed25519}
use sshd.Session.Msg
use sshd.Session.Auth.{c_str}
use sshd.Client
use sshd.Client.{SshJob, Outbound, Device, Action, ◌>>=◌, ◌>>◌, pure, get, modify, fail, fail_if}
use sshd.Client.Packet.{Code, is_negative, is_number, for_ever, recv_packet, send_packet}
use sshd.Client.Kex.{expect}

-- 1, 0 and -1.
pub data AuthResult : Type 0 where
  accepted refused lost : AuthResult

-- The head of a USERAUTH_REQUEST.
unfoldable pub request_head : Bytes → Bytes → Bytes
request_head user method =
    let p1 = put_cstring (put_u8 [] Msg.userauth_request) user in
    put_cstring (put_cstring p1 (codes "ssh-connection")) method

unfoldable pub public_blob : Bytes → Bytes
public_blob pub32 = put_string (put_cstring [] ssh_ed25519) pub32

-- `signed_`, and the request without its signature: the two differ in their first string.
unfoldable pub signed_text : Bytes → Bytes → Bytes → Bytes
signed_text session_id user pk_blob =
    let p1 = put_u8 (put_string [] session_id) Msg.userauth_request in
    let p2 = put_cstring (put_cstring p1 user) (codes "ssh-connection") in
    put_string (put_cstring (put_u8 (put_cstring p2 (codes "publickey")) 1) ssh_ed25519) pk_blob

unfoldable pub publickey_request : Bytes → Bytes → Bytes → Bytes
publickey_request user pk_blob sig =
    let sig_blob = put_string (put_cstring [] ssh_ed25519) sig in
    let p1 = put_cstring (put_u8 (request_head user (codes "publickey")) 1) ssh_ed25519 in
    put_string (put_string p1 pk_blob) sig_blob

unfoldable pub password_request : Bytes → Bytes → Bytes
password_request user password =
    put_string (put_u8 (request_head user (codes "password")) 0) password

unfoldable pub interactive_request : Bytes → Bytes
interactive_request user =
    put_cstring (put_cstring (request_head user (codes "keyboard-interactive")) []) []

-- The prompts with their echo flags: `none` is `return -1`.
unfoldable pub skip_prompts : ℕ → View → Option View
skip_prompts zero v = some v
skip_prompts (suc n) v =
    let (text, v1) = skip_string v in
    let rest = skip_prompts n (get_u8 v1).1 in elim text [ none ↦ none | some _ ↦ rest ]

unfoldable pub put_answers : ℕ → Bytes → Bytes → Bytes
put_answers zero password r = r
put_answers (suc n) password r = put_answers n password (put_string r password)

-- The number of prompts of an INFO_REQUEST whose strings can all be read and that are 32 at most.
unfoldable pub prompts_of : Bytes → Option ℕ
prompts_of pkt =
    let (name, v1) = skip_string (view_init (drop 1 pkt)) in
    let (instruction, v2) = skip_string v1 in
    let (lang, v3) = skip_string v2 in
    let (num, v4) = get_u32 v3 in
    elim name [
      | none ↦ none
      | some _ ↦ elim instruction [
        | none ↦ none
        | some _ ↦ elim lang [
          | none ↦ none
          | some _ ↦ elim (v4.bad || ltb 32 num) [
            | true ↦ none
            | false ↦ elim (skip_prompts num v4) [ none ↦ none | some _ ↦ some num ]
          ]
        ]
      ]
    ]

unfoldable pub info_response : ℕ → Bytes → Bytes
info_response num password =
    put_answers num password (put_u32 (put_u8 [] Client.Msg.userauth_info_response) num)

-- The array of 96 bytes: its old contents are gone also where there is no list.
unfoldable pub note_failure_methods : Bytes → Outbound → Outbound
note_failure_methods pkt w = elim (get_string (view_init (drop 1 pkt))).0 [
  | none ↦ record w { offered_methods = [] }
  | some methods ↦ record w { offered_methods = take 95 methods }
]

module _ (env : Platform) (dev : Device) where
  unfoldable pub auth_recv_round : Action (Code × Bytes) → Action (Code × Bytes)
  auth_recv_round next = do
    (t, pkt) ← recv_packet env dev 20000
    if is_number t Client.Msg.userauth_banner then next else pure (t, pkt)

  unfoldable pub auth_recv : Action (Code × Bytes)
  auth_recv = for_ever auth_recv_round

  -- The three answers that all methods take alike, or the other ones.
  unfoldable pub auth_answer : Code → Bytes → Action AuthResult → Action AuthResult
  auth_answer t pkt other =
      if is_negative t
      then pure lost
      else (if is_number t Msg.userauth_success
          then pure accepted
          else (if is_number t Msg.userauth_failure
              then (do modify (note_failure_methods pkt); pure refused)
              else other))

  unfoldable pub auth_simple_result : Action AuthResult
  auth_simple_result = do (t, pkt) ← auth_recv; auth_answer t pkt (pure lost)

  unfoldable pub auth_publickey : Action AuthResult
  auth_publickey w = elim (ed25519_pub_from_seed env w.job.seed) [
    | none ↦ pure lost w
    | some pub32 ↦
        let pk_blob = public_blob pub32 in
        elim (ed25519_sign env w.job.seed (signed_text w.cs.session_id w.job.user pk_blob)) [
          | none ↦ pure lost w
          | some sig ↦
              auth_simple_result (send_packet env w (publickey_request w.job.user pk_blob sig))
        ]
  ]

  unfoldable pub auth_password : Action AuthResult
  auth_password w =
      auth_simple_result (send_packet env w (password_request w.job.user w.job.password))

  -- The answer to an INFO_REQUEST, and the rounds behind it.
  unfoldable pub answer_prompts : Bytes → Action AuthResult → Action AuthResult
  answer_prompts pkt next w = elim (prompts_of pkt) [
    | none ↦ pure lost w
    | some num ↦ next (send_packet env w (info_response num w.job.password))
  ]

  unfoldable pub interactive_round : Action AuthResult → Action AuthResult
  interactive_round next = do
    (t, pkt) ← auth_recv
    auth_answer t pkt (
        if is_number t Client.Msg.userauth_info_request then answer_prompts pkt next else pure lost)

  unfoldable pub auth_keyboard_interactive : Action AuthResult
  auth_keyboard_interactive w =
      for_ever interactive_round (send_packet env w (interactive_request w.job.user))

  unfoldable pub probe_answer : Code → Bytes → Action Bool
  probe_answer t pkt =
      if is_number t Msg.userauth_success
      then pure true
      else (if is_number t Msg.userauth_failure
          then (do modify (note_failure_methods pkt); pure false)
          else (do fail_if (is_negative t) (codes "auth probe: connection lost"); pure false))

  -- The "none" probe: whether the client is in.
  unfoldable pub auth_probe : Action Bool
  auth_probe = do
    modify (λ w. send_packet env w (request_head w.job.user (codes "none")))
    (t, pkt) ← auth_recv
    probe_answer t pkt

  -- One method: whether the client is in, or a failure.
  unfoldable pub try_method : Action AuthResult → Bytes → Action Bool
  try_method method lost_text = do
    r ← method
    elim r [ lost ↦ fail lost_text | accepted ↦ pure true | refused ↦ pure false ]

  -- The text of the failure when no method has worked.
  unfoldable pub no_login_text : SshJob → Bytes → Bytes
  no_login_text job offered =
      if not job.have_password && not job.try_pubkey
      then codes "no auth method available (set s.ssh.password or run ssh-keygen)"
      else take 199 (
          codes "authentication failed (server offers: "
          ++ ((if length (c_str offered) == 0 then codes "?" else c_str offered) ++ codes ")"))

  unfoldable pub give_up : Action Unit
  give_up w = fail (no_login_text w.job w.offered_methods) w

  -- A method that is tried only under a condition on the job, before the rest.
  unfoldable pub or_else : (SshJob → Bool) → Action AuthResult → Bytes → Action Unit → Action Unit
  or_else test method lost_text rest = do
    w ← get
    found ← if test w.job then try_method method lost_text else pure false
    if found then pure tt else rest

  unfoldable pub request_service : Outbound → Outbound
  request_service w =
      send_packet env w (put_cstring (put_u8 [] Msg.service_request) (codes "ssh-userauth"))

  unfoldable pub try_methods : Action Unit
  try_methods =
      or_else (λ job. job.try_pubkey) auth_publickey (codes "publickey auth: connection lost")
        (or_else (λ job. job.have_password) auth_keyboard_interactive
          (codes "keyboard-interactive auth: connection lost")
          (or_else (λ job. job.have_password) auth_password (codes "password auth: connection lost")
            give_up))

  unfoldable pub do_auth : Action Unit
  do_auth = do
    modify request_service
    expect env dev 15000 Msg.service_accept (codes "no SERVICE_ACCEPT")
        (codes "service request rejected")
    modify (λ w. record w { offered_methods = [] })
    found ← auth_probe
    if found then pure tt else try_methods
