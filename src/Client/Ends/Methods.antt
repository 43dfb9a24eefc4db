-- ===== src/Client/Ends/Methods.antt =====
-- The methods of the client's login end, but for waits.
use sshd.Base.{
  ℕ, ◌<◌, ◌≡◌, inl, inr, refl, sym, subst, Bool, true, false, Bytes, if◌then◌else◌, Option-cases,
  arith,
}
use sshd.Platform.{Platform}
use sshd.Crypto.{ed25519_pub_from_seed, ed25519_sign}
use sshd.Session.Msg
use sshd.Client
use sshd.Client.{
  SshJob, Outbound, Device, Answer, ok, failed, waiting, Action, ◌>>=◌, ◌>>◌, pure, get, modify,
  fail, fail_if,
}
use sshd.Client.Packet.{
  Code, number, bad_framing, connection_closed, is_negative, is_number, for_ever, to_come,
  recv_packet, send_packet,
}
use sshd.Client.Packet.Progress.{Progress, Progress-later}
use sshd.Client.Packet.Receive.{recv_packet-Progress}
use sshd.Client.Ends.{
  Waits, Ends, for_ever_property, bind_cases, bind-Waits, >>=-Ends, >>-Ends, pure-Ends, get-Ends,
  modify-Ends, fail-Ends, fail_if-Ends, if-Waits, if_cases, if-Ends, recv_packet-Ends,
  number_smaller, recv_packet_smaller,
}
use sshd.Client.Ends.Login.{expect-Ends}
use sshd.Client.Auth.{
  AuthResult, accepted, refused, lost, public_blob, signed_text, publickey_request, prompts_of,
  info_response, note_failure_methods, auth_recv_round, auth_recv, auth_answer, auth_simple_result,
  auth_publickey, auth_password, answer_prompts, interactive_round, auth_keyboard_interactive,
  probe_answer, auth_probe, try_method, give_up, or_else, try_methods, do_auth,
}

-- A result that is passed on has the progress of what it came from; a state further on has it too.
pub same_Progress :
    (size : ℕ) (over : Bool) (x : Answer (Code × Bytes) × Outbound)
    → Progress size over x
    → Progress size true x
unfolding Progress
same_Progress size over (ok (number t, pkt), v) (most, inl less) = (most, inl less)
same_Progress size over (ok (number t, pkt), v) (most, inr (none_came, past)) =
    (most, inr (none_came, refl))
same_Progress size over (ok (bad_framing, pkt), v) p = p
same_Progress size over (ok (connection_closed, pkt), v) p = p
same_Progress size over (failed, v) p = p
same_Progress size over (waiting, v) p = p

-- A send leaves the bytes and reads to come.
pub to_come-send_packet :
    (env : Platform) (w : Outbound) (payload : Bytes)
    → to_come (send_packet env w payload) ≡ to_come w
unfolding to_come send_packet sshd.Client.Packet.send_raw
to_come-send_packet env w payload = ground arith

module _ (env : Platform) (dev : Device) where
  -- What `recv_packet` gives has made progress.
  received_Progress :
      (overall_ms : ℕ) (w : Outbound) (x : Answer (Code × Bytes) × Outbound)
      → recv_packet env dev overall_ms w ≡ x
      → Progress (to_come w) true x
  received_Progress overall_ms w x e =
      same_Progress (to_come w) _ x
        (subst (Progress (to_come w) _) e (recv_packet-Progress env dev overall_ms w))

  auth_recv_round-Progress :
      (next : Action (Code × Bytes)) (w : Outbound)
      → ((v : Outbound) → to_come v < to_come w → Progress (to_come v) true (next v))
      → Progress (to_come w) true (auth_recv_round env dev next w)
  unfolding auth_recv_round
  auth_recv_round-Progress next w later =
      bind_cases (Progress (to_come w) true) (recv_packet env dev 20000) _ w
        (λ x u e.
          if_cases (Progress (to_come w) true) (is_number x.0 Client.Msg.userauth_banner) next
            (pure (x.0, x.1)) u
            (λ banner.
              let less : to_come u < to_come w =
                recv_packet_smaller env dev 20000 52 w u x.0 x.1 e banner in
              Progress-later (to_come w) (to_come u) true true (next u) less (later u less))
            (λ other. unfold pure in received_Progress 20000 w (ok x, u) e))
        (λ u e. received_Progress 20000 w (failed, u) e)
        (λ u e. received_Progress 20000 w (waiting, u) e)

  pub auth_recv-Progress : (w : Outbound) → Progress (to_come w) true (auth_recv env dev w)
  unfolding auth_recv
  auth_recv-Progress w =
      for_ever_property (λ v. Progress (to_come v) true) (auth_recv_round env dev)
        auth_recv_round-Progress w

  auth_recv_round-Waits :
      (next : Action (Code × Bytes)) (w : Outbound)
      → ((v : Outbound) → to_come v < to_come w → Waits (next v))
      → Waits (auth_recv_round env dev next w)
  unfolding auth_recv_round
  auth_recv_round-Waits next w later =
      bind-Waits (recv_packet env dev 20000) _ w (recv_packet-Ends env dev 20000 w) (λ x u e.
        if-Waits (is_number x.0 Client.Msg.userauth_banner) next (pure (x.0, x.1)) u
          (λ banner. later u (recv_packet_smaller env dev 20000 52 w u x.0 x.1 e banner))
          (λ other. pure-Ends (x.0, x.1) u))

  pub auth_recv-Ends : Ends (auth_recv env dev)
  unfolding auth_recv
  auth_recv-Ends w =
      for_ever_property (λ _. Waits) (auth_recv_round env dev) auth_recv_round-Waits w

  auth_answer-Waits :
      (t : Code) (pkt : Bytes) (other : Action AuthResult) (u : Outbound)
      → Waits (other u)
      → Waits (auth_answer env dev t pkt other u)
  unfolding auth_answer
  auth_answer-Waits t pkt other u rest =
      let noted = (do modify (note_failure_methods pkt); pure refused) in
      let failure = if is_number t Msg.userauth_failure then noted else other in
      let success = if is_number t Msg.userauth_success then pure accepted else failure in
      if-Waits (is_negative t) (pure lost) success u (λ _. pure-Ends lost u)
        (λ _.
          if-Waits (is_number t Msg.userauth_success) (pure accepted) failure u
            (λ _. pure-Ends accepted u)
            (λ _.
              if-Waits (is_number t Msg.userauth_failure) noted other u
                (λ _.
                  >>-Ends (modify (note_failure_methods pkt)) (pure refused) (modify-Ends _)
                    (pure-Ends refused) u)
                (λ _. rest)))

  auth_simple_result-Ends : Ends (auth_simple_result env dev)
  unfolding auth_simple_result
  auth_simple_result-Ends =
      >>=-Ends _ _ auth_recv-Ends
        (λ x u. auth_answer-Waits x.0 x.1 (pure lost) u (pure-Ends lost u))

  auth_publickey-Ends : Ends (auth_publickey env dev)
  unfolding auth_publickey pure
  auth_publickey-Ends w h = elim (Option-cases (ed25519_pub_from_seed env w.job.seed)) [
    | inl no_key ↦ absurd (ground (arith, no_key, h))
    | inr (pub32, made) ↦
        let blob = public_blob pub32 in
        elim (Option-cases
          (ed25519_sign env w.job.seed (signed_text w.cs.session_id w.job.user blob))) [
            | inl unsigned ↦ absurd (ground (arith, made, unsigned, h))
            | inr (sig, signed) ↦
                let sent = send_packet env w (publickey_request w.job.user blob sig) in
                ground (arith, made, signed, h, auth_simple_result-Ends sent)
          ]
  ]

  auth_password-Ends : Ends (auth_password env dev)
  unfolding auth_password
  auth_password-Ends w = auth_simple_result-Ends _

  answer_prompts-Waits :
      (pkt : Bytes) (next : Action AuthResult) (u : Outbound)
      → ((p : Bytes) → Waits (next (send_packet env u p)))
      → Waits (answer_prompts env dev pkt next u)
  unfolding answer_prompts pure
  answer_prompts-Waits pkt next u later = elim (Option-cases (prompts_of pkt)) [
    | inl unreadable ↦ λ h. absurd (ground (arith, unreadable, h))
    | inr (num, read) ↦
        let p = info_response num u.job.password in
        let f : answer_prompts env dev pkt next u ≡ next (send_packet env u p) =
          ground (arith, read) in
        subst Waits (sym f) (later p)
  ]

  interactive_round-Waits :
      (next : Action AuthResult) (w : Outbound)
      → ((v : Outbound) → to_come v < to_come w → Waits (next v))
      → Waits (interactive_round env dev next w)
  unfolding interactive_round
  interactive_round-Waits next w later =
      bind-Waits (auth_recv env dev) _ w (auth_recv-Ends w) (λ x u e.
        auth_answer-Waits x.0 x.1 _ u (
          if-Waits (is_number x.0 Client.Msg.userauth_info_request) _ _ u
            (λ prompts.
              let less : to_come u < to_come w =
                number_smaller x.0 x.1 u (to_come w) 59 true
                  (subst (Progress (to_come w) true) e (auth_recv-Progress w)) prompts in
              answer_prompts-Waits x.1 next u
                (λ p. later (send_packet env u p) (omega (arith, to_come-send_packet env u p))))
            (λ _. pure-Ends lost u)))

  auth_keyboard_interactive-Ends : Ends (auth_keyboard_interactive env dev)
  unfolding auth_keyboard_interactive
  auth_keyboard_interactive-Ends w =
      for_ever_property (λ _. Waits) (interactive_round env dev) interactive_round-Waits _

  probe_answer-Ends : (t : Code) (pkt : Bytes) → Ends (probe_answer env dev t pkt)
  unfolding probe_answer
  probe_answer-Ends t pkt = if-Ends _ _ _ (pure-Ends true) (
      if-Ends _ _ _ (>>-Ends _ _ (modify-Ends _) (pure-Ends false))
        (>>-Ends _ _ (fail_if-Ends _ _) (pure-Ends false)))

  auth_probe-Ends : Ends (auth_probe env dev)
  unfolding auth_probe
  auth_probe-Ends =
      >>-Ends _ _ (modify-Ends _) (>>=-Ends _ _ auth_recv-Ends (λ x. probe_answer-Ends x.0 x.1))

  try_method-Ends :
      (method : Action AuthResult) (text : Bytes)
      → Ends method
      → Ends (try_method env dev method text)
  unfolding try_method
  try_method-Ends method text ends = >>=-Ends _ _ ends (λ r. after r)
    where
      after :
          (r : AuthResult)
          → Ends (elim r as (λ _. Action Bool) [
            | lost ↦ fail text
            | accepted ↦ pure true
            | refused ↦ pure false
          ])
      after lost = fail-Ends text
      after accepted = pure-Ends true
      after refused = pure-Ends false

  or_else-Ends :
      (test : SshJob → Bool) (method : Action AuthResult) (text : Bytes) (rest : Action Unit)
      → Ends method
      → Ends rest
      → Ends (or_else env dev test method text rest)
  unfolding or_else
  or_else-Ends test method text rest ends more = >>=-Ends _ _ get-Ends (λ w.
      >>=-Ends _ _ (if-Ends _ _ _ (try_method-Ends method text ends) (pure-Ends false))
        (λ found. if-Ends found _ _ (pure-Ends tt) more))

  give_up-Ends : Ends (give_up env dev)
  unfolding give_up
  give_up-Ends w = fail-Ends _ w

  pub do_auth-Ends : Ends (do_auth env dev)
  unfolding do_auth try_methods
  do_auth-Ends = >>-Ends _ _ (modify-Ends _) (
      >>-Ends _ _ (expect-Ends env dev _ _ _ _) (
        >>-Ends _ _ (modify-Ends _) (
          >>=-Ends _ _ auth_probe-Ends (λ found. if-Ends found _ _ (pure-Ends tt) (
            or_else-Ends _ _ _ _ auth_publickey-Ends (
              or_else-Ends _ _ _ _ auth_keyboard_interactive-Ends
                (or_else-Ends _ _ _ _ auth_password-Ends give_up-Ends)))))))
