-- ===== src/Client/Ends/Whole.antt =====
-- The channel of the client and a whole session end, but for waits.
use sshd.Base.{
  ℕ, zero, suc, ◌^◌, ◌∙◌, ◌==◌, drop, ◌<◌, ◌≡◌, inl, inr, sym, ap, ap₂, subst, true, not, Bytes,
  some, [], Bool-cases, Option-cases, arith,
}
use sshd.Platform.{Platform, dialed}
use sshd.Wire.{view_init}
use sshd.Session.Msg
use sshd.Client.{Outbound, Device, ok, waiting, Action, pure, get, with_cs, log_event, new_csess}
use sshd.Client.Packet.{
  Code, number, bad_framing, connection_closed, is_number, to_come, recv_packet,
}
use sshd.Client.Packet.Frame.{Moved}
use sshd.Client.Packet.Progress.{Progress}
use sshd.Client.Packet.Receive.{recv_packet-Progress, recv_packet-Moved, is_over_start}
use sshd.Client.Ends.{
  Waits, Ends, for_ever_property, bind-Waits, >>=-Ends, >>-Ends, pure-Ends, get-Ends, modify-Ends,
  modify_then, fail_if-Ends, if-Waits, if-Ends, recv_packet-Ends, recv_packet_smaller,
}
use sshd.Client.Steps.{get-ok}
use sshd.Client.Ends.Login.{do_version-Ends, do_kex-Ends}
use sshd.Client.Ends.Methods.{do_auth-Ends}
use sshd.Client.Ends.Stays.{
  to_come-answer_global, to_come-adjust_window, to_come-pump_input, to_come-take_message,
}
use sshd.Client.Channel.{
  answer_global, adjust_window, pump_input, is_interactive, channel_answer, channel_recv_round,
  channel_recv, open_channel, request_pty,
}
use sshd.Client.Run.{
  take_message, pump_message, pump_answer, idle_ms, pump_receive, pump_round, pump, request_run,
  do_channel, session_steps, converse, run_session, dial_text,
}

==_refl : (n : ℕ) → (n == n) ≡ true
==_refl n = ground arith

module _ (env : Platform) (dev : Device) where
  channel_answer-Waits :
      (t : Code) (pkt : Bytes) (next : Action (Code × Bytes)) (w u : Outbound)
      → (is_number t Msg.global_request ≡ true → to_come u < to_come w)
      → (is_number t Msg.channel_window_adjust ≡ true → to_come u < to_come w)
      → ((v : Outbound) → to_come v < to_come w → Waits (next v))
      → Waits (channel_answer env dev t pkt next u)
  unfolding channel_answer
  channel_answer-Waits t pkt next w u global adjust later =
      let v = view_init (drop 1 pkt) in
      if-Waits (is_number t Msg.global_request) _ _ u
        (λ h.
          modify_then (λ x. answer_global env x v) next u
            (later (answer_global env u v)
              (omega (arith, to_come-answer_global env u v, global h))))
        (λ _.
          if-Waits (is_number t Msg.channel_window_adjust) _ _ u
            (λ h.
              modify_then (λ x. adjust_window x v) next u
                (later (adjust_window u v) (omega (arith, to_come-adjust_window u v, adjust h))))
            (λ _. pure-Ends (t, pkt) u))

  channel_recv_round-Waits :
      (ms : ℕ) (next : Action (Code × Bytes)) (w : Outbound)
      → ((v : Outbound) → to_come v < to_come w → Waits (next v))
      → Waits (channel_recv_round env dev ms next w)
  unfolding channel_recv_round
  channel_recv_round-Waits ms next w later =
      bind-Waits (recv_packet env dev ms) _ w (recv_packet-Ends env dev ms w) (λ x u e.
        channel_answer-Waits x.0 x.1 next w u (recv_packet_smaller env dev ms 79 w u x.0 x.1 e)
          (recv_packet_smaller env dev ms 92 w u x.0 x.1 e) later)

  channel_recv-Ends : (ms : ℕ) → Ends (channel_recv env dev ms)
  unfolding channel_recv
  channel_recv-Ends ms w =
      for_ever_property (λ _. Waits) (channel_recv_round env dev ms) (channel_recv_round-Waits ms) w

  open_channel-Ends : Ends (open_channel env dev)
  unfolding open_channel
  open_channel-Ends = >>-Ends _ _ (modify-Ends _) (
      >>=-Ends _ _ (channel_recv-Ends 15000) (λ x.
        >>-Ends _ _ (fail_if-Ends _ _)
          (>>-Ends _ _ (fail_if-Ends _ _) (>>-Ends _ _ (fail_if-Ends _ _) (modify-Ends _)))))

  request_pty-Ends : Ends (request_pty env dev)
  unfolding request_pty
  request_pty-Ends = >>-Ends _ _ (modify-Ends _) (
      >>=-Ends _ _ (channel_recv-Ends 15000)
        (λ x. >>-Ends _ _ (fail_if-Ends _ _) (fail_if-Ends _ _)))

  request_run-Ends : Ends (request_run env dev)
  unfolding request_run
  request_run-Ends = >>-Ends _ _ (modify-Ends _) (
      >>=-Ends _ _ (channel_recv-Ends 15000) (λ x.
        >>=-Ends _ _ get-Ends (λ w.
          >>-Ends _ _ (fail_if-Ends _ _) (>>-Ends _ _ (fail_if-Ends _ _) (fail_if-Ends _ _)))))

  module _ (some_ticks : 0 < dev.ms_to_ticks 60) (few_ticks : dev.ms_to_ticks 60 < 2 ^ 31) where
    -- A read of an interactive session that returns has taken something of what is to come.
    idle_smaller :
        (w u : Outbound) (t : ℕ) (pkt : Bytes)
        → is_interactive w.job ≡ true
        → recv_packet env dev (idle_ms env dev w.job) w ≡ (ok (number t, pkt), u)
        → to_come u < to_come w
    unfolding idle_ms Progress
    idle_smaller w u t pkt inter e =
        let sixty : idle_ms env dev w.job ≡ 60 = ground (arith, inter) in
        let before = is_over_start w.ticks (dev.ms_to_ticks 60) some_ticks few_ticks in
        let p =
          subst (Progress (to_come w) _) (ap (λ ms. recv_packet env dev ms w) (sym sixty) ∙ e)
            (recv_packet-Progress env dev 60 w) in
        ground (arith, p, before)

    same_kind :
        (w u : Outbound) (t : Code) (pkt : Bytes) (ms : ℕ)
        → recv_packet env dev ms w ≡ (ok (t, pkt), u)
        → u.job.have_cmd ≡ w.job.have_cmd
    same_kind w u t pkt ms e =
        let moved = subst (λ x. Moved w x) (ap (λ x. x.1) e) (recv_packet-Moved env dev ms w) in
        ap (λ (x : Outbound). x.job.have_cmd) moved

    pump_message-Waits :
        (t : ℕ) (pkt : Bytes) (next : Action Unit) (w u : Outbound)
        → to_come u < to_come w
        → ((v : Outbound) → to_come v < to_come w → Waits (next v))
        → Waits (pump_message env dev t pkt next u)
    unfolding pump_message pure
    pump_message-Waits t pkt next w u less later =
        let after = (take_message env dev t pkt u).1 in
        let small : to_come after < to_come w =
          omega (arith, to_come-take_message env dev t pkt u) in
        elim (Bool-cases (take_message env dev t pkt u).0) [
          | inl ends ↦ λ h. absurd (ground (arith, ends, h))
          | inr goes_on ↦
              let f : pump_message env dev t pkt next u ≡ next after = ground (arith, goes_on) in
              subst Waits (sym f) (later after small)
        ]

    pump_answer-Waits :
        (t : Code) (pkt : Bytes) (next : Action Unit) (w u : Outbound)
        → recv_packet env dev (idle_ms env dev w.job) w ≡ (ok (t, pkt), u)
        → ((v : Outbound) → to_come v < to_come w → Waits (next v))
        → Waits (pump_answer env dev t pkt next u)
    unfolding pump_answer
    pump_answer-Waits bad_framing pkt next w u e later = modify-Ends _ u
    pump_answer-Waits connection_closed pkt next w u e later = pure-Ends tt u
    pump_answer-Waits (number zero) pkt next w u e later =
        bind-Waits get _ u (get-Ends u) (λ x v got.
          let at = get-ok x u v got in
          if-Waits (is_interactive x.job) next _ v
            (λ inter.
              let inter_w : is_interactive w.job ≡ true =
                ap not (
                  sym (same_kind w u (number zero) pkt _ e)
                  ∙ ap (λ (y : Outbound). y.job.have_cmd) (sym (at.0)))
                ∙ inter in
              subst (λ y. Waits (next y)) (sym (at.1))
                (later u (idle_smaller w u zero pkt inter_w e)))
            (λ _. modify-Ends _ v))
    pump_answer-Waits (number (suc t)) pkt next w u e later =
        pump_message-Waits (suc t) pkt next w u
          (recv_packet_smaller env dev _ t w u (number (suc t)) pkt e (==_refl (suc t))) later

    pump_receive-Waits :
        (next : Action Unit) (w : Outbound)
        → ((v : Outbound) → to_come v < to_come w → Waits (next v))
        → Waits (pump_receive env dev next w)
    unfolding pump_receive
    pump_receive-Waits next w later = bind-Waits get _ w (get-Ends w) (λ x v got.
        let at = get-ok x w v got in
        bind-Waits (recv_packet env dev (idle_ms env dev x.job)) _ v (recv_packet-Ends env dev _ v)
          (λ y u e.
            pump_answer-Waits y.0 y.1 next w u
              (ap₂ (λ (a b : Outbound). recv_packet env dev (idle_ms env dev a.job) b) (sym (at.0))
                  (sym (at.1))
                ∙ e)
              later))

    pump_round-Waits :
        (next : Action Unit) (w : Outbound)
        → ((v : Outbound) → to_come v < to_come w → Waits (next v))
        → Waits (pump_round env dev next w)
    unfolding pump_round pure
    pump_round-Waits next w later =
        let w1 = pump_input env dev w in
        let size = to_come-pump_input env dev w in
        let typed : Waits (pump_receive env dev next w1) =
          pump_receive-Waits next w1 (λ v less. later v (omega (arith, size))) in
        ground (arith, typed, pump_receive-Waits next w later)

    pump-Ends : Ends (pump env dev)
    unfolding pump
    pump-Ends w = for_ever_property (λ _. Waits) (pump_round env dev) pump_round-Waits w

    do_channel-Ends : Ends (do_channel env dev)
    unfolding do_channel
    do_channel-Ends = >>-Ends _ _ open_channel-Ends (
        >>=-Ends _ _ get-Ends (λ w.
          >>-Ends _ _ (if-Ends (is_interactive w.job) _ _ request_pty-Ends (pure-Ends tt)) (
            >>-Ends _ _ request_run-Ends
              (>>-Ends _ _ (modify-Ends _) (>>-Ends _ _ pump-Ends (modify-Ends _))))))

    session_steps-Ends : Ends (session_steps env dev)
    unfolding session_steps
    session_steps-Ends =
        >>-Ends _ _ (do_version-Ends dev)
          (>>-Ends _ _ (do_kex-Ends env dev) (>>-Ends _ _ (do_auth-Ends env dev) do_channel-Ends))

    converse-Ends : Ends (converse env dev)
    unfolding converse
    converse-Ends w = ground (arith, session_steps-Ends w)

-- A whole session of the client comes to its end: where the wait of 60 ms of an idle session is at
-- least one tick and fewer than 2^31, `run_session` waits for a further read only when it has used up
-- all reads of the script, whatever they bring.
pub run_session_ends :
    (env : Platform) (dev : Device) (w : Outbound)
    → 0 < dev.ms_to_ticks 60
    → dev.ms_to_ticks 60 < 2 ^ 31
    → (run_session env dev w).0 ≡ waiting
    → (run_session env dev w).1.script ≡ []
unfolding run_session
run_session_ends env dev w some_ticks few_ticks h =
    let text = dial_text env dev w.job in
    elim (Option-cases (dev.dial text)) [
      | inl refused ↦ absurd (ground (arith, refused, h))
      | inr (handle, dialed_to) ↦
          let w1 =
            with_cs (log_event w (dialed text (some handle)))
              (record new_csess { handle = some handle }) in
          ground (arith, dialed_to, h, converse-Ends env dev some_ticks few_ticks w1)
    ]
