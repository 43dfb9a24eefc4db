-- ===== src/Client/Packet/Receive.antt =====
-- The loop of `recv_packet`: its fuel, and when it comes back.
use sshd.Base.{
  ℕ, zero, suc, ◌+◌, ◌-◌, ◌%◌, ◌^◌, ◌≤◌, ◌<◌, ◌≡◌, ◌≢◌, refl, sym, subst, inl, inr, Bool-cases,
  Bool, not, ◌&&◌, ◌==◌, ltb, leb, true, false, Bytes, List, All, [], ◌∷◌, length, take,
  length-append, arith,
}
use sshd.Platform.{Platform}
use sshd.Client.{Csess, Outbound, Read, Device, Answer, ok, waiting, with_cs}
use sshd.Client.Packet.Frame.{SameBut, Moved, Moved-refl, Moved-trans, fill_rx-Moved, with_cs-Moved}
use sshd.Client.Packet.{
  try_parse, is_over, is_skipped, fill_rx, read_more, recv_round, recv_rounds, recv_packet,
  script_size, to_come, Code, number, bad_framing, connection_closed, packet_code,
}
use sshd.Client.Packet.Progress.{
  Parsed-cases, try_parse-Taken, total_elapsed, ticks_pass, ticks_over, Progress, Progress-later,
  packet-Progress, List-cases, fill_rx_smaller, with_cs_smaller, timeout-Progress, stays_put,
}

module _ (env : Platform) where
  read_more_cases :
      (P : Answer (Code × Bytes) × Outbound → Type 0) (over : Bool)
      (next : Outbound → Answer (Code × Bytes) × Outbound) (w : Outbound)
      → ((r : Code × Bytes) (v : Outbound)
          → Moved w v
          → Progress (to_come w) over (ok r, v)
          → P (ok r, v))
      → (w.script ≡ [] → P (waiting, w))
      → ((r : Read) (rest : List Read) → w.script ≡ r ∷ rest → P (next (fill_rx w r rest)))
      → P (read_more env next w)
  unfolding read_more Progress
  read_more_cases P over next w done stuck read = elim (List-cases w.script) [
    | inl none_left ↦
        let e : read_more env next w ≡ (waiting, w) = ground (arith, none_left) in
        subst P (sym e) (stuck none_left)
    | inr (r, rest, e) ↦
        let w1 = fill_rx w r rest in
        let gone =
          length (take 1024 r.bytes) == 0 && not r.connected && ltb (length w1.cs.rx_buf) 4 in
        elim (Bool-cases gone) [
          | inl lost ↦
              let f : read_more env next w ≡ (ok (connection_closed, []), w1) =
                ground (arith, e, lost) in
              subst P (sym f) (
                done (connection_closed, []) w1 (fill_rx-Moved w r rest)
                  (omega (arith, fill_rx_smaller w r rest e)))
          | inr stays ↦
              let f : read_more env next w ≡ next w1 = ground (arith, e, stays) in
              subst P (sym f) (read r rest e)
        ]
  ]

  -- A property of what a round gives, from that of the rounds behind it on a smaller state.
  recv_round_cases :
      (P : Answer (Code × Bytes) × Outbound → Type 0)
      (next : Outbound → Answer (Code × Bytes) × Outbound) (deadline : ℕ) (w : Outbound)
      → ((r : Code × Bytes) (v : Outbound)
          → Moved w v
          → Progress (to_come w) (is_over deadline w.ticks) (ok r, v)
          → P (ok r, v))
      → (w.script ≡ [] → is_over deadline w.ticks ≡ false → P (waiting, w))
      → ((c : Csess)
          → length c.rx_buf < length w.cs.rx_buf
          → Moved w (with_cs w c)
          → P (next (with_cs w c)))
      → ((r : Read) (rest : List Read)
          → w.script ≡ r ∷ rest
          → is_over deadline w.ticks ≡ false
          → P (next (fill_rx w r rest)))
      → P (recv_round env next deadline w)
  unfolding recv_round
  recv_round_cases P next deadline w done stuck skip read =
      let c = (try_parse env w.cs).1 in
      let w1 = with_cs w c in
      let over = is_over deadline w.ticks in
      elim (Parsed-cases (try_parse env w.cs).0) [
        | inl (out, e) ↦
            let taken : (length c.rx_buf < length w.cs.rx_buf) × SameBut w.cs c =
              ground (arith, e, try_parse-Taken env w.cs) in
            elim (Bool-cases (is_skipped out)) [
              | inl skipped ↦
                  let f : recv_round env next deadline w ≡ next w1 = ground (arith, e, skipped) in
                  subst P (sym f) (skip c taken.0 (with_cs-Moved w c taken.1))
              | inr kept ↦
                  let f : recv_round env next deadline w ≡ (ok (packet_code out, out), w1) =
                    ground (arith, e, kept) in
                  subst P (sym f) (
                    done (packet_code out, out) w1 (with_cs-Moved w c taken.1)
                      (packet-Progress (to_come w) over out w1 (with_cs_smaller w c taken.0)))
            ]
        | inr (inr e) ↦
            let same : c ≡ w.cs = ground (arith, e, try_parse-Taken env w.cs) in
            let f : recv_round env next deadline w ≡ (ok (bad_framing, []), w) =
              ground (arith, e, same) in
            subst P (sym f) (done (bad_framing, []) w (Moved-refl w) (stays_put w over))
        | inr (inl e) ↦
            let same : c ≡ w.cs = ground (arith, e, try_parse-Taken env w.cs) in
            elim (Bool-cases over) [
              | inl past ↦
                  let f : recv_round env next deadline w ≡ (ok (number 0, []), w) =
                    ground (arith, e, past, same) in
                  subst P (sym f)
                    (done (number 0, []) w (Moved-refl w) (timeout-Progress w over past))
              | inr before ↦
                  let f : recv_round env next deadline w ≡ read_more env next w =
                    ground (arith, e, before, same) in
                  subst P (sym f) (
                    read_more_cases P over next w done (λ h. stuck h before)
                      (λ r rest h. read r rest h before))
            ]
      ]

  -- The size falls with each round, so the fuel is enough.
  recv_rounds_waits :
      (fuel deadline : ℕ) (w : Outbound)
      → to_come w < fuel
      → (recv_rounds env fuel deadline w).0 ≡ waiting
      → (recv_rounds env fuel deadline w).1.script ≡ []
  unfolding recv_rounds to_come script_size fill_rx
  recv_rounds_waits zero deadline w h = absurd (omega arith)
  recv_rounds_waits (suc fuel) deadline w h =
      recv_round_cases (λ x. x.0 ≡ waiting → x.1.script ≡ []) (recv_rounds env fuel deadline)
        deadline w (λ r v moved some_progress e. cc) (λ e over _. e)
        (λ c less moved. recv_rounds_waits fuel deadline (with_cs w c) (omega arith))
        (λ r rest e over.
          recv_rounds_waits fuel deadline (fill_rx w r rest)
            (ground (arith, e, length-append w.cs.rx_buf (take 1024 r.bytes))))

  -- Past the deadline no read is made any more.
  recv_rounds_over :
      (fuel deadline : ℕ) (w : Outbound)
      → to_come w < fuel
      → is_over deadline w.ticks ≡ true
      → (recv_rounds env fuel deadline w).0 ≢ waiting
  unfolding recv_rounds to_come
  recv_rounds_over zero deadline w h over = absurd (omega arith)
  recv_rounds_over (suc fuel) deadline w h over =
      recv_round_cases (λ x. x.0 ≢ waiting) (recv_rounds env fuel deadline) deadline w
        (λ r v moved some_progress e. cc) (λ e before _. absurd (cc))
        (λ c less moved. recv_rounds_over fuel deadline (with_cs w c) (omega arith) over)
        (λ r rest e before. absurd (cc))

  recv_rounds_in_time :
      (fuel deadline left : ℕ) (w : Outbound)
      → to_come w < fuel
      → deadline < 2 ^ 32
      → (deadline + 2 ^ 32 - w.ticks % 2 ^ 32) % 2 ^ 32 ≡ left
      → left < 2 ^ 31
      → All (λ (r : Read). r.elapsed < 2 ^ 30) w.script
      → left ≤ total_elapsed w.script
      → (recv_rounds env fuel deadline w).0 ≢ waiting
  unfolding recv_rounds to_come script_size fill_rx is_over total_elapsed
  recv_rounds_in_time zero deadline left w h dead32 e small each enough = absurd (omega arith)
  recv_rounds_in_time (suc fuel) deadline left w h dead32 e small each enough =
      recv_round_cases (λ x. x.0 ≢ waiting) (recv_rounds env fuel deadline) deadline w
        (λ r v moved some_progress e. cc) (λ none_left before _. ground (arith, none_left))
        (λ c less moved.
          recv_rounds_in_time fuel deadline left (with_cs w c) (omega arith) dead32 e small each
            enough)
        (λ r rest es before.
          let e30 : r.elapsed < 2 ^ 30 =
            (subst (All (λ (q : Read). q.elapsed < 2 ^ 30)) es each).0 in
          let later : All (λ (q : Read). q.elapsed < 2 ^ 30) rest =
            (subst (All (λ (q : Read). q.elapsed < 2 ^ 30)) es each).1 in
          let total : left ≤ r.elapsed + total_elapsed rest = ground (arith, es) in
          let size : to_come (fill_rx w r rest) < fuel =
            ground (arith, es, length-append w.cs.rx_buf (take 1024 r.bytes)) in
          elim (Bool-cases (leb r.elapsed left)) [
            | inl within ↦
                recv_rounds_in_time fuel deadline (left - r.elapsed) (fill_rx w r rest) size dead32
                  (ticks_pass deadline w.ticks r.elapsed left e dead32 (ground arith)) (omega arith)
                  later (ground arith)
            | inr past ↦
                recv_rounds_over fuel deadline (fill_rx w r rest) size
                  (ticks_over deadline w.ticks r.elapsed left e dead32 (ground arith) e30 small)
          ])

  recv_rounds-Moved :
      (fuel deadline : ℕ) (w : Outbound) → Moved w (recv_rounds env fuel deadline w).1
  unfolding recv_rounds
  recv_rounds-Moved zero deadline w = refl
  recv_rounds-Moved (suc fuel) deadline w =
      recv_round_cases (λ x. Moved w x.1) (recv_rounds env fuel deadline) deadline w
        (λ r v moved some_progress. moved) (λ e before. refl)
        (λ c less moved.
          Moved-trans w (with_cs w c) _ moved (recv_rounds-Moved fuel deadline (with_cs w c)))
        (λ r rest e before.
          Moved-trans w (fill_rx w r rest) _ (fill_rx-Moved w r rest)
            (recv_rounds-Moved fuel deadline (fill_rx w r rest)))

  recv_rounds-Progress :
      (fuel deadline : ℕ) (w : Outbound)
      → Progress (to_come w) (is_over deadline w.ticks) (recv_rounds env fuel deadline w)
  unfolding recv_rounds
  recv_rounds-Progress zero deadline w = unfold Progress in omega arith
  recv_rounds-Progress (suc fuel) deadline w =
      let over = is_over deadline w.ticks in
      recv_round_cases (Progress (to_come w) over) (recv_rounds env fuel deadline) deadline w
        (λ r v moved some_progress. some_progress) (λ e before. unfold Progress in omega arith)
        (λ c less moved.
          Progress-later (to_come w) (to_come (with_cs w c)) over over _ (with_cs_smaller w c less)
            (recv_rounds-Progress fuel deadline (with_cs w c)))
        (λ r rest e before.
          Progress-later (to_come w) (to_come (fill_rx w r rest)) _ over _
            (fill_rx_smaller w r rest e) (recv_rounds-Progress fuel deadline (fill_rx w r rest)))

pub recv_packet-Progress :
    (env : Platform) (dev : Device) (overall_ms : ℕ) (w : Outbound)
    → Progress
        (to_come w)
        (is_over ((w.ticks + dev.ms_to_ticks overall_ms) % 2 ^ 32) w.ticks)
        (recv_packet env dev overall_ms w)
unfolding recv_packet
recv_packet-Progress env dev overall_ms w = recv_rounds-Progress env _ _ w

-- With a timeout of at least one tick, the deadline is not over at the start.
pub is_over_start :
    (ticks wait : ℕ) → 0 < wait → wait < 2 ^ 31 → is_over ((ticks + wait) % 2 ^ 32) ticks ≡ false
unfolding is_over
is_over_start ticks wait some_time small = ground arith

pub recv_packet-Moved :
    (env : Platform) (dev : Device) (overall_ms : ℕ) (w : Outbound)
    → Moved w (recv_packet env dev overall_ms w).1
unfolding recv_packet
recv_packet-Moved env dev overall_ms w = recv_rounds-Moved env _ _ w

-- On every state, `recv_packet` runs until it returns or has used up all reads of the script: it waits
-- for a further read only when the script has none.
pub recv_packet_waits :
    (env : Platform) (dev : Device) (overall_ms : ℕ) (w : Outbound)
    → (recv_packet env dev overall_ms w).0 ≡ waiting
    → (recv_packet env dev overall_ms w).1.script ≡ []
unfolding recv_packet
recv_packet_waits env dev overall_ms w =
    recv_rounds_waits env (suc (to_come w)) ((w.ticks + dev.ms_to_ticks overall_ms) % 2 ^ 32) w
      (omega arith)

-- `recv_packet` comes back in time: with a timeout of fewer than 2^31 ticks, when the reads to come
-- take fewer than 2^30 ticks each and together the timeout at least, it returns, whatever bytes they
-- bring.
pub recv_packet_in_time :
    (env : Platform) (dev : Device) (overall_ms : ℕ) (w : Outbound)
    → dev.ms_to_ticks overall_ms < 2 ^ 31
    → All (λ (r : Read). r.elapsed < 2 ^ 30) w.script
    → dev.ms_to_ticks overall_ms ≤ total_elapsed w.script
    → (recv_packet env dev overall_ms w).0 ≢ waiting
unfolding recv_packet
recv_packet_in_time env dev overall_ms w small each enough =
    recv_rounds_in_time env (suc (to_come w)) ((w.ticks + dev.ms_to_ticks overall_ms) % 2 ^ 32)
      (dev.ms_to_ticks overall_ms) w (omega arith) (omega arith) (omega arith) small each enough
