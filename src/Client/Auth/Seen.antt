-- ===== src/Client/Auth/Seen.antt =====
-- What the client must have received before it takes itself for logged in.
use sshd.Base.{
  ◌<◌, ◌≡◌, ==_iff, ◌⊎◌, inl, inr, sym, ap, subst, ◌∙◌, Bool, true, false, Bytes, [], Option-cases,
  arith,
}
use sshd.Platform.{Platform}
use sshd.Crypto.{ed25519_pub_from_seed, ed25519_sign}
use sshd.Session.Msg
use sshd.Client
use sshd.Client.{
  SshJob, Outbound, Device, Answer, ok, failed, waiting, Action, ◌>>=◌, ◌>>◌, pure, get, modify,
  fail, fail_if,
}
use sshd.Client.Packet.{
  Code, number, bad_framing, connection_closed, is_negative, is_number, to_come, recv_packet,
  send_packet,
}
use sshd.Client.Steps.{>>=-ok, >>-ok, pure-ok, if-ok, modify-ok, get-ok}
use sshd.Client.Auth.Talk.{
  Talk, Talks, begins, sends, notes, pure-Talks, auth_recv-Received, auth_recv-Talks,
  auth_publickey-Talks, auth_password-Talks, auth_keyboard_interactive-Talks, probe_sent,
  auth_probe-Talks, expect-Talks,
}
use sshd.Client.Packet.Progress.{Progress}
use sshd.Client.Ends.{for_ever_property, number_smaller}
use sshd.Client.Ends.Methods.{auth_recv-Progress, to_come-send_packet}
use sshd.Client.Auth.{
  AuthResult, accepted, refused, lost, public_blob, signed_text, publickey_request, prompts_of,
  info_response, auth_recv, auth_answer, auth_simple_result, auth_publickey, auth_password,
  answer_prompts, interactive_round, auth_keyboard_interactive, probe_answer, auth_probe,
  request_service, try_method, give_up, or_else, try_methods, do_auth,
}

module _ (env : Platform) (dev : Device) (start : Outbound) where
  -- In a talk that began at the first state, and after a USERAUTH_REQUEST of the client, the last packet
  -- that came was the server's USERAUTH_SUCCESS.
  pub data LoggedIn (v : Outbound) : Type 0 where
    success :
        (u : Outbound) (pkt : Bytes)
        → Talk env dev start true u
        → recv_packet env dev 20000 u ≡ (ok (number Msg.userauth_success, pkt), v)
        → LoggedIn v

  success_number : (t : Code) → is_number t Msg.userauth_success ≡ true → t ≡ number 52
  success_number (number t) h = ap number ((==_iff t 52).0 h)
  success_number bad_framing h = cc
  success_number connection_closed h = cc

  seen_by :
      (w : Outbound) (t : Code) (pkt : Bytes) (v : Outbound)
      → Talk env dev start true w
      → auth_recv env dev w ≡ (ok (t, pkt), v)
      → is_number t Msg.userauth_success ≡ true
      → LoggedIn v
  seen_by w t pkt v before e h =
      let (u, asked, got) = auth_recv-Received env dev start w t pkt v before e in
      success u pkt asked (got ∙ ap (λ (c : Code). (ok (c, pkt), v)) (success_number t h))

  -- A method's answer is acceptance only at USERAUTH_SUCCESS, or where the other case accepts.
  auth_answer-ok :
      (t : Code) (pkt : Bytes) (other : Action AuthResult) (u v : Outbound)
      → auth_answer env dev t pkt other u ≡ (ok accepted, v)
      → ((is_number t Msg.userauth_success ≡ true) × (v ≡ u)) ⊎ (other u ≡ (ok accepted, v))
  unfolding auth_answer
  auth_answer-ok t pkt other u v e = elim (if-ok (is_negative t) _ _ u _ e) [
    | inl (negative, gives) ↦ absurd (let f = (pure-ok lost accepted u v gives).0 in cc)
    | inr (not_negative, e1) ↦ elim (if-ok (is_number t Msg.userauth_success) _ _ u _ e1) [
      | inl (yes_in, gives) ↦ inl (yes_in, (pure-ok accepted accepted u v gives).1)
      | inr (no_success, e2) ↦ elim (if-ok (is_number t Msg.userauth_failure) _ _ u _ e2) [
        | inl (failure, gives) ↦
            let (_, x, noted, gives1) = >>-ok _ _ u v accepted gives in
            absurd (let f = (pure-ok refused accepted x v gives1).0 in cc)
        | inr (no_failure, gives) ↦ inr gives
      ]
    ]
  ]

  auth_simple_result-LoggedIn :
      (w v : Outbound)
      → Talk env dev start true w
      → auth_simple_result env dev w ≡ (ok accepted, v)
      → LoggedIn v
  unfolding auth_simple_result
  auth_simple_result-LoggedIn w v before e =
      let (x, u, got, e1) = >>=-ok (auth_recv env dev) _ w v accepted e in
      elim (auth_answer-ok x.0 x.1 (pure lost) u v e1) [
        | inl (yes_in, at) ↦ subst LoggedIn (sym at) (seen_by w x.0 x.1 u before got yes_in)
        | inr gives ↦ absurd (let f = (pure-ok lost accepted u v gives).0 in cc)
      ]

  auth_publickey-LoggedIn :
      (w v : Outbound)
      → Talk env dev start true w
      → auth_publickey env dev w ≡ (ok accepted, v)
      → LoggedIn v
  unfolding auth_publickey pure
  auth_publickey-LoggedIn w v before e =
      elim (Option-cases (ed25519_pub_from_seed env w.job.seed)) [
        | inl no_key ↦ absurd (ground (arith, no_key, e))
        | inr (pub32, made) ↦
            let blob = public_blob pub32 in
            elim (Option-cases
              (ed25519_sign env w.job.seed (signed_text w.cs.session_id w.job.user blob))) [
                | inl unsigned ↦ absurd (ground (arith, made, unsigned, e))
                | inr (sig, signed) ↦
                    let sent = send_packet env w (publickey_request w.job.user blob sig) in
                    auth_simple_result-LoggedIn sent v (sends _ before)
                      (ground (arith, made, signed, e))
              ]
      ]

  interactive_round-LoggedIn :
      (next : Action AuthResult) (w : Outbound)
      → ((u : Outbound)
          → to_come u < to_come w
          → (v : Outbound) → Talk env dev start true u
          → next u ≡ (ok accepted, v)
          → LoggedIn v)
      → (v : Outbound) → Talk env dev start true w
      → interactive_round env dev next w ≡ (ok accepted, v)
      → LoggedIn v
  unfolding interactive_round answer_prompts pure
  interactive_round-LoggedIn next w later v before e =
      let (x, u, got, e1) = >>=-ok (auth_recv env dev) _ w v accepted e in
      elim (auth_answer-ok x.0 x.1 _ u v e1) [
        | inl (yes_in, at) ↦ subst LoggedIn (sym at) (seen_by w x.0 x.1 u before got yes_in)
        | inr gives ↦ elim (if-ok (is_number x.0 Client.Msg.userauth_info_request) _ _ u _ gives) [
          | inl (prompts, answers) ↦ elim (Option-cases (prompts_of x.1)) [
            | inl unreadable ↦ absurd (ground (arith, unreadable, answers))
            | inr (num, read) ↦
                let sent = send_packet env u (info_response num u.job.password) in
                let less : to_come u < to_come w =
                  number_smaller x.0 x.1 u (to_come w) 59 true
                    (subst (Progress (to_come w) true) got (auth_recv-Progress env dev w))
                    prompts in
                later sent
                  (omega
                    (arith, less, to_come-send_packet env u (info_response num u.job.password)))
                  v (sends _ (auth_recv-Talks env dev start w u x before got))
                  (ground (arith, read, answers))
          ]
          | inr (no_prompts, over) ↦ absurd (let f = ap (λ y. y.0) over in cc)
        ]
      ]

  auth_keyboard_interactive-LoggedIn :
      (w v : Outbound)
      → Talk env dev start true w
      → auth_keyboard_interactive env dev w ≡ (ok accepted, v)
      → LoggedIn v
  unfolding auth_keyboard_interactive
  auth_keyboard_interactive-LoggedIn w v before e =
      for_ever_property
        (λ w x. (v : Outbound) → Talk env dev start true w → x ≡ (ok accepted, v) → LoggedIn v)
        (interactive_round env dev) interactive_round-LoggedIn _ v (sends _ before) e

  auth_password-LoggedIn :
      (w v : Outbound)
      → Talk env dev start true w
      → auth_password env dev w ≡ (ok accepted, v)
      → LoggedIn v
  unfolding auth_password
  auth_password-LoggedIn w v before e = auth_simple_result-LoggedIn _ v (sends _ before) e

  auth_probe-LoggedIn :
      (asked : Bool) (w v : Outbound)
      → Talk env dev start asked w
      → auth_probe env dev w ≡ (ok true, v)
      → LoggedIn v
  unfolding auth_probe probe_answer
  auth_probe-LoggedIn asked w v before_it e =
      let (_, w1, sending, e1) = >>-ok _ _ w v true e in
      let before = probe_sent env dev start asked w w1 before_it sending in
      let (x, u, got, e2) = >>=-ok (auth_recv env dev) _ w1 v true e1 in
      elim (if-ok (is_number x.0 Msg.userauth_success) _ _ u _ e2) [
        | inl (yes_in, gives) ↦
            subst LoggedIn (sym (pure-ok true true u v gives).1)
              (seen_by w1 x.0 x.1 u before got yes_in)
        | inr (no_success, e3) ↦ elim (if-ok (is_number x.0 Msg.userauth_failure) _ _ u _ e3) [
          | inl (failure, gives) ↦
              let (_, y, noted, gives1) = >>-ok _ _ u v true gives in
              absurd (let f = (pure-ok false true y v gives1).0 in cc)
          | inr (no_failure, gives) ↦
              let (_, y, passed, gives1) = >>-ok _ _ u v true gives in
              absurd (let f = (pure-ok false true y v gives1).0 in cc)
        ]
      ]

  try_method-ok :
      (method : Action AuthResult) (text : Bytes) (w v : Outbound)
      → try_method env dev method text w ≡ (ok true, v)
      → method w ≡ (ok accepted, v)
  unfolding try_method pure fail
  try_method-ok method text w v e =
      let (r, u, got, e1) = >>=-ok method _ w v true e in by_result r u got e1
    where
      by_result :
          (r : AuthResult) (u : Outbound)
          → method w ≡ (ok r, u)
          → elim r as (λ _. Action Bool) [
            | lost ↦ fail text
            | accepted ↦ pure true
            | refused ↦ pure false
          ]
              u
            ≡ (ok true, v)
          → method w ≡ (ok accepted, v)
      by_result lost u got e1 = cc
      by_result accepted u got e1 = got ∙ ap (λ y. (ok accepted, y.1)) e1
      by_result refused u got e1 = absurd (let f = ap (λ y. y.0) e1 in cc)

  try_method-Talks :
      (method : Action AuthResult) (text : Bytes)
      → Talks env dev start method
      → Talks env dev start (try_method env dev method text)
  unfolding try_method fail
  try_method-Talks method text talks w v r before e =
      let (x, u, got, e1) = >>=-ok method _ w v r e in by_result x u (talks w u x before got) e1
    where
      by_result :
          (x : AuthResult) (u : Outbound)
          → Talk env dev start true u
          → elim x as (λ _. Action Bool) [
            | lost ↦ fail text
            | accepted ↦ pure true
            | refused ↦ pure false
          ]
              u
            ≡ (ok r, v)
          → Talk env dev start true v
      by_result lost u heard e1 = absurd (let f = ap (λ y. y.0) e1 in cc)
      by_result accepted u heard e1 = pure-Talks env dev start true u v r heard e1
      by_result refused u heard e1 = pure-Talks env dev start false u v r heard e1

  -- A method that was tried has logged the client in, or the rest has.
  or_else-LoggedIn :
      (test : SshJob → Bool) (method : Action AuthResult) (text : Bytes) (rest : Action Unit)
      → Talks env dev start method
      → ((w v : Outbound) → Talk env dev start true w → method w ≡ (ok accepted, v) → LoggedIn v)
      → ((w v : Outbound) → Talk env dev start true w → rest w ≡ (ok tt, v) → LoggedIn v)
      → (w v : Outbound) → Talk env dev start true w
      → or_else env dev test method text rest w ≡ (ok tt, v)
      → LoggedIn v
  unfolding or_else
  or_else-LoggedIn test method text rest talks by_method by_rest w v before e =
      let (x, w1, got, e1) = >>=-ok get _ w v tt e in
      let (found, u, tried, e2) = >>=-ok _ _ w1 v tt e1 in
      let there : Talk env dev start true w1 =
        subst (Talk env dev start true) (sym (get-ok x w w1 got).1) before in
      elim (if-ok found (pure tt) rest u _ e2) [
        | inl (yes_in, gives) ↦ elim (if-ok (test x.job) _ _ w1 _ tried) [
          | inl (on, result) ↦ subst LoggedIn (sym (pure-ok tt tt u v gives).1) (
              by_method w1 u there
                (try_method-ok method text w1 u (result ∙ ap (λ (b : Bool). (ok b, u)) yes_in)))
          | inr (off, result) ↦ absurd (let f = (pure-ok false found w1 u result).0 in cc)
        ]
        | inr (not_yet, gives) ↦ elim (if-ok (test x.job) _ _ w1 _ tried) [
          | inl (on, result) ↦
              by_rest u v (try_method-Talks method text talks w1 u found there result) gives
          | inr (off, result) ↦
              by_rest u v (pure-Talks env dev start false w1 u found there result) gives
        ]
      ]

  give_up-LoggedIn :
      (w v : Outbound) → Talk env dev start true w → give_up env dev w ≡ (ok tt, v) → LoggedIn v
  unfolding give_up fail
  give_up-LoggedIn w v before e = absurd (let f = ap (λ y. y.0) e in cc)

-- The client takes itself for logged in only on the server's word: when `do_auth` succeeds, its talk with
-- the server, which began at the state it was called in and consists of its sends and of the packets that
-- it received, has come to a USERAUTH_REQUEST of the client and, last of all, to the server's
-- USERAUTH_SUCCESS.
pub do_auth-LoggedIn :
    (env : Platform) (dev : Device) (w v : Outbound)
    → do_auth env dev w ≡ (ok tt, v)
    → LoggedIn env dev w v
unfolding do_auth try_methods request_service
do_auth-LoggedIn env dev w v e =
    let (_, w1, asked, e1) = >>-ok _ _ w v tt e in
    let (pkt, w2, served, e2) = >>-ok _ _ w1 v tt e1 in
    let (_, w3, cleared, e3) = >>-ok _ _ w2 v tt e2 in
    let (found, u, probed, e4) = >>=-ok _ _ w3 v tt e3 in
    let talk1 : Talk env dev w false w1 =
      subst (Talk env dev w false) (sym (modify-ok _ _ w w1 asked)) (sends _ begins) in
    let talk2 = expect-Talks env dev w false _ _ _ _ w1 w2 pkt talk1 served in
    let talk3 : Talk env dev w false w3 =
      subst (Talk env dev w false) (sym (modify-ok _ _ w2 w3 cleared)) (notes [] talk2) in
    elim (if-ok found (pure tt) _ u _ e4) [
      | inl (yes_in, gives) ↦ subst (LoggedIn env dev w) (sym (pure-ok tt tt u v gives).1) (
          auth_probe-LoggedIn env dev w false w3 u talk3
            (probed ∙ ap (λ (b : Bool). (ok b, u)) yes_in))
      | inr (not_yet, gives) ↦
          or_else-LoggedIn env dev w _ _ _ _ (auth_publickey-Talks env dev w)
            (auth_publickey-LoggedIn env dev w)
            (or_else-LoggedIn env dev w _ _ _ _ (auth_keyboard_interactive-Talks env dev w)
              (auth_keyboard_interactive-LoggedIn env dev w)
              (or_else-LoggedIn env dev w _ _ _ _ (auth_password-Talks env dev w)
                (auth_password-LoggedIn env dev w) (give_up-LoggedIn env dev w)))
            u v (auth_probe-Talks env dev w false w3 u found talk3 probed) gives
    ]
