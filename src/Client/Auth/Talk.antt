-- ===== src/Client/Auth/Talk.antt =====
-- What `do_auth` of esp-idf/src/ssh_client.cpp says and hears, as a relation from its first state on.
use sshd.Base.{
  ℕ, ◌<◌, ◌≡◌, inl, inr, sym, refl, ap₂, subst, ◌∙◌, Bool, true, false, Bytes, [], ◌∷◌, take, drop,
  codes, Option-cases, if◌then◌else◌, arith,
}
use sshd.Platform.{Platform}
use sshd.Crypto.{ed25519_pub_from_seed, ed25519_sign}
use sshd.Wire.{view_init, get_string, put_u8, put_u32, put_bytes, put_string, put_cstring}
use sshd.Session.Msg
use sshd.Client
use sshd.Client.{Outbound, Device, Answer, ok, Action, ◌>>=◌, ◌>>◌, pure, get, modify, fail_if}
use sshd.Client.Packet.{Code, is_negative, is_number, to_come, recv_packet, send_packet}
use sshd.Client.Kex.{expect}
use sshd.Client.Steps.{>>=-ok, >>-ok, pure-ok, if-ok, modify-ok, fail_if-ok}
use sshd.Client.Packet.Progress.{Progress}
use sshd.Client.Ends.{for_ever_property, number_smaller, recv_packet_smaller}
use sshd.Client.Ends.Methods.{auth_recv-Progress, to_come-send_packet}
use sshd.Client.Auth.{
  AuthResult, accepted, refused, lost, public_blob, signed_text, publickey_request, prompts_of,
  info_response, note_failure_methods, auth_recv_round, auth_recv, auth_answer, auth_simple_result,
  auth_publickey, auth_password, auth_probe, probe_answer, request_head, answer_prompts,
  interactive_round, auth_keyboard_interactive,
}

module _ (env : Platform) (dev : Device) (start : Outbound) where
  -- A state that the client has reached from the first one by sends, by packets that it received in
  -- between, and by noting the methods that the server offers; and whether it has sent a
  -- USERAUTH_REQUEST by then.
  pub data Talk : Bool → Outbound → Type 0 where
    begins : Talk false start
    asks :
        {asked : Bool} {w : Outbound} (payload : Bytes)
        → take 1 payload ≡ 50 ∷ []
        → Talk asked w
        → Talk true (send_packet env w payload)
    sends :
        {asked : Bool} {w : Outbound} (payload : Bytes)
        → Talk asked w
        → Talk asked (send_packet env w payload)
    hears :
        {asked : Bool} {w : Outbound} (timeout : ℕ) (r : Code × Bytes) (v : Outbound)
        → Talk asked w
        → recv_packet env dev timeout w ≡ (ok r, v)
        → Talk asked v
    notes :
        {asked : Bool} {w : Outbound} (methods : Bytes)
        → Talk asked w
        → Talk asked (record w { offered_methods = methods })

  -- A packet that was received in the course of the talk, after a request.
  abbrev pub Received : Code → Bytes → Outbound → Type 0
  Received t pkt v = (u : Outbound) × Talk true u × (recv_packet env dev 20000 u ≡ (ok (t, pkt), v))

  -- What an action gives belongs to the talk.
  abbrev pub Talks : {A : Type 0} → Action A → Type 0
  Talks {A = A} m = (w v : Outbound) (r : A) → Talk true w → m w ≡ (ok r, v) → Talk true v

  pub pure-Talks : {A : Type 0} (a : A) → Talks (pure a)
  pure-Talks a w v r before e = subst (Talk true) (sym (pure-ok a r w v e).1) before

  noted : (pkt : Bytes) (w : Outbound) → Talk true w → Talk true (note_failure_methods pkt w)
  unfolding note_failure_methods
  noted pkt w before =
      let v = note_failure_methods pkt w in
      let same : v ≡ record w { offered_methods = v.offered_methods } =
        elim (Option-cases (get_string (view_init (drop 1 pkt))).0) [
          | inl none_listed ↦ ground (arith, none_listed)
          | inr (methods, listed) ↦ ground (arith, listed)
        ] in
      subst (Talk true) (sym same) (notes v.offered_methods before)

  auth_recv_round-Received :
      (next : Action (Code × Bytes)) (w : Outbound)
      → ((u : Outbound)
          → to_come u < to_come w
          → (t : Code) (pkt : Bytes) (v : Outbound) → Talk true u
          → next u ≡ (ok (t, pkt), v)
          → Received t pkt v)
      → (t : Code) (pkt : Bytes) (v : Outbound) → Talk true w
      → auth_recv_round env dev next w ≡ (ok (t, pkt), v)
      → Received t pkt v
  unfolding auth_recv_round
  auth_recv_round-Received next w later t pkt v before e =
      let (x, u, got, e1) = >>=-ok (recv_packet env dev 20000) _ w v (t, pkt) e in
      elim (if-ok (is_number x.0 Client.Msg.userauth_banner) next (pure (x.0, x.1)) u _ e1) [
        | inl (banner, again) ↦
            later u (recv_packet_smaller env dev 20000 52 w u x.0 x.1 got banner) t pkt v
              (hears 20000 x u before got) again
        | inr (other, passed) ↦
            let (same, at) = pure-ok (x.0, x.1) (t, pkt) u v passed in
            (
              w,
              before,
              got ∙ ap₂ (λ (y : Code × Bytes) (z : Outbound). (ok y, z)) (sym same) (sym at),
            )
      ]

  pub auth_recv-Received :
      (w : Outbound) (t : Code) (pkt : Bytes) (v : Outbound)
      → Talk true w
      → auth_recv env dev w ≡ (ok (t, pkt), v)
      → Received t pkt v
  unfolding auth_recv
  auth_recv-Received w =
      for_ever_property
        (λ w x.
          (t : Code) (pkt : Bytes) (v : Outbound)
          → Talk true w
          → x ≡ (ok (t, pkt), v)
          → Received t pkt v)
        (auth_recv_round env dev) auth_recv_round-Received w

  pub auth_recv-Talks : Talks (auth_recv env dev)
  auth_recv-Talks w v r before e =
      let (u, before_it, got) = auth_recv-Received w r.0 r.1 v before e in
      hears 20000 r v before_it got

  auth_answer-Talks :
      (t : Code) (pkt : Bytes) (other : Action AuthResult) (w v : Outbound) (r : AuthResult)
      → (other w ≡ (ok r, v) → Talk true v)
      → Talk true w
      → auth_answer env dev t pkt other w ≡ (ok r, v)
      → Talk true v
  unfolding auth_answer
  auth_answer-Talks t pkt other w v r others before e = elim (if-ok (is_negative t) _ _ w _ e) [
    | inl (negative, gives) ↦ pure-Talks lost w v r before gives
    | inr (not_negative, e1) ↦ elim (if-ok (is_number t Msg.userauth_success) _ _ w _ e1) [
      | inl (yes_in, gives) ↦ pure-Talks accepted w v r before gives
      | inr (no_success, e2) ↦ elim (if-ok (is_number t Msg.userauth_failure) _ _ w _ e2) [
        | inl (failure, gives) ↦
            let (_, x, noting, gives1) = >>-ok _ _ w v r gives in
            pure-Talks refused x v r
              (subst (Talk true) (sym (modify-ok _ _ w x noting)) (noted pkt w before)) gives1
        | inr (no_failure, gives) ↦ others gives
      ]
    ]
  ]

  pub auth_simple_result-Talks : Talks (auth_simple_result env dev)
  unfolding auth_simple_result
  auth_simple_result-Talks w v r before e =
      let (x, u, got, e1) = >>=-ok (auth_recv env dev) _ w v r e in
      let heard = auth_recv-Talks w u x before got in
      auth_answer-Talks x.0 x.1 (pure lost) u v r (pure-Talks lost u v r heard) heard e1

  pub auth_publickey-Talks : Talks (auth_publickey env dev)
  unfolding auth_publickey pure
  auth_publickey-Talks w v r before e = elim (Option-cases (ed25519_pub_from_seed env w.job.seed)) [
    | inl no_key ↦ subst (Talk true) (ground (arith, no_key, e)) before
    | inr (pub32, made) ↦
        let blob = public_blob pub32 in
        elim (Option-cases
          (ed25519_sign env w.job.seed (signed_text w.cs.session_id w.job.user blob))) [
            | inl unsigned ↦ subst (Talk true) (ground (arith, made, unsigned, e)) before
            | inr (sig, signed) ↦
                let request = publickey_request w.job.user blob sig in
                auth_simple_result-Talks (send_packet env w request) v r (sends request before)
                  (ground (arith, made, signed, e))
          ]
  ]

  pub auth_password-Talks : Talks (auth_password env dev)
  unfolding auth_password
  auth_password-Talks w v r before e = auth_simple_result-Talks _ v r (sends _ before) e

  -- The branch of an INFO_REQUEST, where `next` belongs to the talk after the response.
  answer_prompts-Talks :
      (next : Action AuthResult) (t : Code) (pkt : Bytes) (u v : Outbound) (r : AuthResult)
      → Talk true u
      → (is_number t Client.Msg.userauth_info_request ≡ true
          → (num : ℕ) → next (send_packet env u (info_response num u.job.password)) ≡ (ok r, v)
          → Talk true v)
      → (if is_number t Client.Msg.userauth_info_request
            then answer_prompts env dev pkt next
            else pure lost)
          u
        ≡ (ok r, v)
      → Talk true v
  unfolding answer_prompts pure
  answer_prompts-Talks next t pkt u v r heard later e =
      elim (if-ok (is_number t Client.Msg.userauth_info_request) (answer_prompts env dev pkt next)
        (pure lost) u (ok r, v) e) [
          | inr (no_prompts, over) ↦ pure-Talks lost u v r heard over
          | inl (prompts, answers) ↦ elim (Option-cases (prompts_of pkt)) [
            | inl unreadable ↦ subst (Talk true) (ground (arith, unreadable, answers)) heard
            | inr (num, read) ↦ later prompts num (ground (arith, read, answers))
          ]
        ]

  interactive_round-Talks :
      (next : Action AuthResult) (w : Outbound)
      → ((u : Outbound)
          → to_come u < to_come w
          → (v : Outbound) (r : AuthResult) → Talk true u
          → next u ≡ (ok r, v)
          → Talk true v)
      → (v : Outbound) (r : AuthResult) → Talk true w
      → interactive_round env dev next w ≡ (ok r, v)
      → Talk true v
  unfolding interactive_round
  interactive_round-Talks next w later v r before e =
      let (x, u, got, e1) = >>=-ok (auth_recv env dev) _ w v r e in
      let heard = auth_recv-Talks w u x before got in
      auth_answer-Talks x.0 x.1 _ u v r
        (answer_prompts-Talks next x.0 x.1 u v r heard (λ prompts num.
          let response = info_response num u.job.password in
          let less : to_come u < to_come w =
            number_smaller x.0 x.1 u (to_come w) 59 true
              (subst (Progress (to_come w) true) got (auth_recv-Progress env dev w)) prompts in
          later (send_packet env u response)
            (omega (arith, less, to_come-send_packet env u response)) v r (sends response heard)))
        heard e1

  pub auth_keyboard_interactive-Talks : Talks (auth_keyboard_interactive env dev)
  unfolding auth_keyboard_interactive
  auth_keyboard_interactive-Talks w v r before e =
      for_ever_property
        (λ w x. (v : Outbound) (r : AuthResult) → Talk true w → x ≡ (ok r, v) → Talk true v)
        (interactive_round env dev) interactive_round-Talks _ v r (sends _ before) e

  request_begins : (user : Bytes) → take 1 (request_head user (codes "none")) ≡ 50 ∷ []
  unfolding request_head put_u8 put_string put_cstring put_u32 put_bytes
  request_begins user = refl

  pub probe_sent :
      (asked : Bool) (w w1 : Outbound)
      → Talk asked w
      → modify (λ x. send_packet env x (request_head x.job.user (codes "none"))) w ≡ (ok tt, w1)
      → Talk true w1
  probe_sent asked w w1 before sending =
      subst (Talk true) (sym (modify-ok _ _ w w1 sending))
        (asks (request_head w.job.user (codes "none")) (request_begins w.job.user) before)

  -- The probe: a request, and the answer to it.
  pub auth_probe-Talks :
      (asked : Bool) (w v : Outbound) (r : Bool)
      → Talk asked w
      → auth_probe env dev w ≡ (ok r, v)
      → Talk true v
  unfolding auth_probe probe_answer
  auth_probe-Talks asked w v r before e =
      let (_, w1, sending, e1) = >>-ok _ _ w v r e in
      let (x, u, got, e2) = >>=-ok (auth_recv env dev) _ w1 v r e1 in
      let heard = auth_recv-Talks w1 u x (probe_sent asked w w1 before sending) got in
      elim (if-ok (is_number x.0 Msg.userauth_success) _ _ u _ e2) [
        | inl (yes_in, gives) ↦ pure-Talks true u v r heard gives
        | inr (no_success, e3) ↦ elim (if-ok (is_number x.0 Msg.userauth_failure) _ _ u _ e3) [
          | inl (failure, gives) ↦
              let (_, y, noting, gives1) = >>-ok _ _ u v r gives in
              pure-Talks false y v r
                (subst (Talk true) (sym (modify-ok _ _ u y noting)) (noted x.1 u heard)) gives1
          | inr (no_failure, gives) ↦
              let (_, y, passed, gives1) = >>-ok _ _ u v r gives in
              pure-Talks false y v r (subst (Talk true) (sym (fail_if-ok _ _ u y _ passed).1) heard)
                gives1
        ]
      ]

  pub expect-Talks :
      (asked : Bool) (overall_ms n : ℕ) (lost_text other : Bytes) (w v : Outbound) (pkt : Bytes)
      → Talk asked w
      → expect env dev overall_ms n lost_text other w ≡ (ok pkt, v)
      → Talk asked v
  unfolding expect
  expect-Talks asked overall_ms n lost_text other w v pkt before e =
      let (x, u, got, e1) = >>=-ok (recv_packet env dev overall_ms) _ w v pkt e in
      let (_, y, positive, e2) = >>-ok _ _ u v pkt e1 in
      let (_, z, right, e3) = >>-ok _ _ y v pkt e2 in
      let at : v ≡ u =
        (pure-ok x.1 pkt z v e3).1
        ∙ (fail_if-ok _ _ y z _ right).1
        ∙ (fail_if-ok _ _ u y _ positive).1 in
      subst (Talk asked) (sym at) (hears overall_ms x u before got)
