-- ===== src/Session/Slot.antt =====
-- The slot of a session under the callbacks of esp-idf/src/sshd_session.cpp.
use sshd.Base.{
  ℕ, zero, suc, ◌≡◌, refl, ◌∙◌, ap, ◌⊎◌, inl, inr, false, none, some, length, Bool-cases,
  Option-cases, codes, subst, arith,
}
use sshd.Platform.{Platform}
use sshd.Session.{Session, World, closed, phase_eq, with_session, reset}
use sshd.Session.Packet.{
  Parsed, got, need_more, broken, parse_packet, send_disconnect, send_raw_tcp,
}
use sshd.Session.Packet.Frame.{send_packet_lem}
use sshd.Session.Packet.Parse.{Outcome, parse_packet-Outcome}
use sshd.Session.Version.{
  find_byte, consume_version, accept_version, send_our_kexinit, send_our_version,
}
use sshd.Session.Channel.{
  received, wanted, drop_backend, forward, forward_loop, session_on_backend_data, send_channel_data,
  send_exit_status, send_channel_eof, send_channel_close,
}
use sshd.Session.Machine.{
  in_phase, dispatch_packet, after_parse, round, run_rounds, drain_step, drain_tcp, session_open,
  session_close, session_on_tcp_data, session_on_backend_close,
}
use sshd.Session.Steady.{Steady}
use sshd.Session.Steady.Channels.{session_on_backend_data-Steady}
use sshd.Session.Steady.Dispatch.{dispatch_packet-Steady, send_disconnect-Steady}

-- The session lives in the slot `i`.
pub record Held (i : ℕ) (s : Session) : Type 0 where
  pub in_slot : s.slot ≡ some i
  pub live : phase_eq s.phase closed ≡ false

-- The session has ended and given its slot back.
pub record Released (s : Session) : Type 0 where
  pub no_longer : s.slot ≡ none
  pub ended : s.phase ≡ closed
  pub no_channel : s.chan_open ≡ false

pub session_open-Held : (w : World) (handle i : ℕ) → Held i (session_open w handle i).session
unfolding session_open send_our_version send_raw_tcp reset
session_open-Held w handle i = ground arith

pub session_close-Released :
    (w : World) (i : ℕ) → w.session.slot ≡ some i → Released (session_close w).session
unfolding session_close
session_close-Released w i e = ground arith

same : (s : Session) → Steady s s
same s = ground arith

module _ (env : Platform) where
  consume_version-slot : (w : World) → (consume_version env w).1.session.slot ≡ w.session.slot
  unfolding consume_version accept_version send_our_kexinit send_disconnect
  consume_version-slot w = elim (Option-cases (find_byte 10 w.session.rx_buf)) [
    | inl missing ↦ grind (arith, missing, send_packet_lem)
    | inr (nl, found) ↦ grind (arith, found, send_packet_lem)
  ]

  after_parse-slot :
      (w : World) (p : Parsed) → (after_parse env w p).1.session.slot ≡ w.session.slot
  unfolding after_parse
  after_parse-slot w need_more = refl
  after_parse-slot w broken = (send_disconnect-Steady env w.session w 2 _ (same w.session)).slot
  after_parse-slot w (got payload) =
      let w1 = (dispatch_packet env w payload).1 in
      let h1 = dispatch_packet-Steady env w.session w payload (same w.session) in
      ground (
        arith,
        h1.slot,
        (send_disconnect-Steady env w.session w1 2 (codes "protocol error") h1).slot,
      )

  Outcome-slot : (s : Session) (r : Parsed × Session) → Outcome s r → r.1.slot ≡ s.slot
  unfolding Outcome
  Outcome-slot s (got payload, t) o = ap (λ (u : Session). u.slot) o.rest
  Outcome-slot s (need_more, t) o = ap (λ (u : Session). u.slot) o
  Outcome-slot s (broken, t) o = ap (λ (u : Session). u.slot) o

  round-slot : (w : World) → (round env w).1.session.slot ≡ w.session.slot
  unfolding round
  round-slot w =
      let (parsed, s1) = parse_packet env w.session in
      ground (
        arith,
        consume_version-slot w,
        after_parse-slot (with_session w s1) parsed,
        Outcome-slot w.session (parse_packet env w.session) (parse_packet-Outcome env w.session),
      )

  run_rounds-slot :
      (fuel : ℕ) (w v : World) → run_rounds env fuel w ≡ some v → v.session.slot ≡ w.session.slot
  unfolding run_rounds
  run_rounds-slot zero w v e = cc
  run_rounds-slot (suc fuel) w v e =
      ground (arith, round-slot w, run_rounds-slot fuel (round env w).1 v)

  drain_tcp-slot : (fuel : ℕ) (w : World) → (drain_tcp env fuel w).session.slot ≡ w.session.slot
  unfolding drain_tcp drain_step
  drain_tcp-slot zero w = refl
  drain_tcp-slot (suc fuel) w = ground (arith, drain_tcp-slot fuel (drain_step env w))

  -- What the first callback leaves of a session in a slot.
  pub session_on_tcp_data-slot :
      (w v : World) (i : ℕ)
      → w.session.slot ≡ some i
      → session_on_tcp_data env w ≡ some v
      → Held i v.session ⊎ Released v.session
  unfolding session_on_tcp_data
  session_on_tcp_data-slot w v i h e =
      let w1 = drain_tcp env (suc (length w.tcp_in)) w in
      let fuel = suc (suc (length w1.session.rx_buf)) in
      elim (Option-cases (run_rounds env fuel w1)) [
        | inl out ↦ absurd (ground arith)
        | inr (w2, ran) ↦
            let placed : w2.session.slot ≡ some i =
              run_rounds-slot fuel w1 w2 ran ∙ drain_tcp-slot (suc (length w.tcp_in)) w ∙ h in
            elim (Bool-cases (in_phase w2 closed)) [
              | inl over ↦ inr (
                  let gone = session_close-Released w2 i placed in
                  let e2 : v ≡ session_close w2 = ground (arith, ran, over) in rw e2 gone)
              | inr on ↦ inl (
                  let e2 : v ≡ w2 = ground (arith, ran, on) in
                  rw e2 (record { in_slot = placed; live = on }))
            ]
      ]

  forward_loop-phase :
      (fuel : ℕ) (w : World) → (forward_loop env fuel w).session.phase ≡ w.session.phase
  unfolding forward_loop forward send_channel_data
  forward_loop-phase zero w = refl
  forward_loop-phase (suc fuel) w =
      let n = received env (wanted w.session) w.backend_in in
      grind (arith, forward_loop-phase fuel, send_packet_lem)

  session_on_backend_data-phase :
      (w : World) → (session_on_backend_data env w).session.phase ≡ w.session.phase
  unfolding session_on_backend_data
  session_on_backend_data-phase w = grind (arith, forward_loop-phase)

  pub session_on_backend_data-Held :
      (w : World) (i : ℕ) → Held i w.session → Held i (session_on_backend_data env w).session
  session_on_backend_data-Held w i h = record {
    in_slot = (session_on_backend_data-Steady env w.session w (same w.session)).slot ∙ h.in_slot;
    live = ap (λ p. phase_eq p closed) (session_on_backend_data-phase w) ∙ h.live;
  }

  goodbye : World → World
  goodbye w = send_channel_close env (send_channel_eof env (send_exit_status env w 0))

  goodbye-slot : (w : World) → (goodbye w).session.slot ≡ w.session.slot
  unfolding goodbye send_exit_status send_channel_eof send_channel_close
  goodbye-slot w = grind (arith, send_packet_lem)

  pub session_on_backend_close-slot :
      (w : World) (i : ℕ)
      → Held i w.session
      → Held i (session_on_backend_close env w).session
        ⊎ Released (session_on_backend_close env w).session
  unfolding session_on_backend_close goodbye
  session_on_backend_close-slot w i h = elim (Bool-cases w.session.chan_open) [
    | inr shut ↦ inl (ground (arith, shut))
    | inl opened ↦
        let w0 = session_on_backend_data env w in
        let w1 = drop_backend w0 in
        let s1 : w1.session.slot ≡ some i =
          ground (arith, (session_on_backend_data-Held w i h).in_slot) in
        let w2 = goodbye w1 in
        let w3 = with_session w2 (record w2.session { chan_open = false }) in
        let s3 : w3.session.slot ≡ some i = goodbye-slot w1 ∙ s1 in
        let e : session_close w3 ≡ session_on_backend_close env w = ground (arith, opened) in
        inr (subst (λ (u : World). Released u.session) e (session_close-Released w3 i s3))
  ]
