-- ===== src/Session/Termination.antt =====
-- The loops of `session_on_tcp_data` and their fuel.
use sshd.Base.{
  nil_of_length, ℕ, zero, suc, ◌+◌, ◌≤◌, ◌<◌, ◌≡◌, refl, ap, ◌∙◌, true, false, some, Bytes, [], ◌∷◌,
  ◌++◌, ◌==◌, length, take, drop, length-drop, take-append-drop, append_assoc, append-nil,
  Bool-cases, Option-cases, inl, inr, if◌then◌else◌, arith,
}
use sshd.Platform.{Platform}
use sshd.Session.{Session, World, version, closed, with_session}
use sshd.Session.Packet.{Parsed, got, need_more, broken, parse_packet, send_disconnect}
use sshd.Session.Packet.Frame.{send_packet_lem}
use sshd.Session.Packet.Parse.{Outcome, parse_packet-Outcome}
use sshd.Session.Version.{find_byte, consume_version, accept_version, send_our_kexinit}
use sshd.Session.Channel.{received}
use sshd.Session.Machine.{
  in_phase, after_parse, round, run_rounds, drain_step, drain_tcp, session_close,
  session_on_tcp_data,
}
use sshd.Session.Steady.{Steady}
use sshd.Session.Steady.Dispatch.{dispatch_packet-Steady}

pub find_byte_bound : (b : ℕ) (buf : Bytes) (i : ℕ) → find_byte b buf ≡ some i → i < length buf
unfolding find_byte
find_byte_bound b [] i e = cc
find_byte_bound b (x ∷ r) i e = elim (Option-cases (find_byte b r)) [
  | inl missing ↦ ground arith
  | inr (j, found) ↦ ground (arith, find_byte_bound b r j found)
]

-- ---- the first loop ----

module _ (env : Platform) where
  received_some : (w : World) → (received env 1024 w.tcp_in == 0) ≡ false → 0 < length w.tcp_in
  unfolding received
  received_some w came = ground arith

  received_bound :
      (want : ℕ) (waiting : Bytes)
      → 0 < want
      → 0 < length waiting
      → (0 < received env want waiting) × (received env want waiting ≤ length waiting)
  unfolding received
  received_bound want waiting hw h = omega arith

  drain_step_shrinks :
      (w : World)
      → (received env 1024 w.tcp_in == 0) ≡ false
      → (fuel : ℕ) → length w.tcp_in < suc fuel
      → length (drain_step env w).tcp_in < fuel
  unfolding drain_step
  drain_step_shrinks w came fuel h =
      ground (arith, length-drop (received env 1024 w.tcp_in) w.tcp_in, received_some w came)

  -- The buffer with all that waits behind it is the same after a read.
  abbrev drained_world : World → World
  drained_world w = record w {
    session = record w.session { rx_buf = w.session.rx_buf ++ w.tcp_in };
    tcp_in = [];
  }

  drain_step-drained : (w : World) → drained_world (drain_step env w) ≡ drained_world w
  unfolding drain_step
  drain_step-drained w =
      let n = received env 1024 w.tcp_in in
      ap (λ b. record w { session = record w.session { rx_buf = b }; tcp_in = [] })
        (append_assoc w.session.rx_buf (take n w.tcp_in) (drop n w.tcp_in)
          ∙ ap (λ t. w.session.rx_buf ++ t) (take-append-drop n w.tcp_in))

  -- With more fuel than bytes that wait, the first loop moves all that waits on the transport behind
  -- the buffer and changes nothing else, however `itsRecv` cuts it.
  pub drain_tcp_lem :
      (fuel : ℕ) (w : World)
      → length w.tcp_in < fuel
      → drain_tcp env fuel w ≡ record w {
        session = record w.session { rx_buf = w.session.rx_buf ++ w.tcp_in };
        tcp_in = [];
      }
  unfolding drain_tcp
  drain_tcp_lem zero w h = absurd (omega arith)
  drain_tcp_lem (suc fuel) w h = elim (Bool-cases (received env 1024 w.tcp_in == 0)) [
    | inl none_came ↦
        let empty : w.tcp_in ≡ [] =
          nil_of_length w.tcp_in (ground (arith, received_bound 1024 w.tcp_in)) in
        ground (arith, none_came, empty, append-nil w.session.rx_buf)
    | inr some_came ↦ ground (
      arith,
      some_came,
      drain_step-drained w,
      drain_tcp_lem fuel (drain_step env w) (drain_step_shrinks w some_came fuel h),
    )
  ]

  -- ---- the second loop ----

  consume_version_shrinks :
      (w : World)
      → (consume_version env w).0 ≡ true
      → length (consume_version env w).1.session.rx_buf < length w.session.rx_buf
  unfolding consume_version accept_version send_our_kexinit send_disconnect
  consume_version_shrinks w e = elim (Option-cases (find_byte 10 w.session.rx_buf)) [
    | inl missing ↦ ground arith
    | inr (nl, found) ↦ grind (
      arith,
      found,
      send_packet_lem,
      find_byte_bound 10 w.session.rx_buf nl found,
      length-drop (nl + 1) w.session.rx_buf,
    )
  ]

  after_parse_keeps :
      (w : World) (parsed : Parsed)
      → (after_parse env w parsed).0 ≡ true
      → (payload : Bytes) × (parsed ≡ got payload)
        × ((after_parse env w parsed).1.session.rx_buf ≡ w.session.rx_buf)
  unfolding after_parse
  after_parse_keeps w need_more e = cc
  after_parse_keeps w broken e = cc
  after_parse_keeps w (got payload) e =
      let here : Steady w.session w.session = ground arith in
      (payload, refl, ground (arith, dispatch_packet-Steady env w.session w payload here))

  round_of_packet :
      (w : World) (r : Parsed × Session)
      → Outcome w.session r
      → (after_parse env (with_session w r.1) r.0).0 ≡ true
      → length (after_parse env (with_session w r.1) r.0).1.session.rx_buf < length w.session.rx_buf
  unfolding Outcome
  round_of_packet w (need_more, t) o e =
      let (_, wrong, _) = after_parse_keeps (with_session w t) need_more e in cc
  round_of_packet w (broken, t) o e =
      let (_, wrong, _) = after_parse_keeps (with_session w t) broken e in cc
  round_of_packet w (got payload, t) o e =
      let (_, _, kept) = after_parse_keeps (with_session w t) (got payload) e in
      omega (
        arith,
        ap length kept,
        ap (λ (u : Session). length u.rx_buf) o.rest,
        length-drop o.bytes w.session.rx_buf,
        o.at_least,
        o.in_buffer,
      )

  -- A round after which the loop goes on has taken bytes out of the buffer.
  round_shrinks :
      (w : World)
      → (round env w).0 ≡ true
      → length (round env w).1.session.rx_buf < length w.session.rx_buf
  unfolding round
  round_shrinks w e = elim (Bool-cases (in_phase w version)) [
    | inl v ↦ ground (arith, consume_version_shrinks w)
    | inr other ↦
        ground (
          arith,
          round_of_packet w (parse_packet env w.session) (parse_packet-Outcome env w.session),
        )
  ]

  run_rounds_total :
      (fuel : ℕ) (w : World)
      → length w.session.rx_buf < fuel
      → (v : World) × (run_rounds env fuel w ≡ some v)
  unfolding run_rounds
  run_rounds_total zero w h = absurd (omega arith)
  run_rounds_total (suc fuel) w h = elim (Bool-cases (in_phase w closed)) [
    | inl done ↦ (w, ground arith)
    | inr open_still ↦ elim (Bool-cases (round env w).0) [
      | inl on ↦
          let (v, e) = run_rounds_total fuel (round env w).1 (omega (arith, round_shrinks w on)) in
          (v, ground (arith, e))
      | inr stop ↦ ((round env w).1, ground arith)
    ]
  ]

  -- `session_on_tcp_data` returns, in every state and on all bytes that wait: its fuel never runs out.
  pub session_on_tcp_data_total : (w : World) → (v : World) × (session_on_tcp_data env w ≡ some v)
  unfolding session_on_tcp_data
  session_on_tcp_data_total w =
      let w1 = drain_tcp env (suc (length w.tcp_in)) w in
      let (v, e) = run_rounds_total (suc (suc (length w1.session.rx_buf))) w1 (omega arith) in
      (if in_phase v closed then session_close v else v, ground (arith, e))
