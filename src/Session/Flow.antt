-- ===== src/Session/Flow.antt =====
-- The flow control of `session_on_backend_data`: what goes to the client of what the backend wrote.
use sshd.Base.{
  ℕ, zero, suc, ◌+◌, ◌-◌, ◌%◌, ◌^◌, ◌≤◌, ◌<◌, ◌≡◌, ◌≢◌, refl, sym, ap, subst, nil_of_length, ◌∙◌,
  ◌⊎◌, inl, inr, true, false, ◌&&◌, ltb, ◌==◌, Bytes, List, All, [], ◌∷◌, ◌++◌, length, take, drop,
  length-drop, length-take, length-append, take-append-drop, append_assoc, Bool-cases, arith,
}
use sshd.Platform.{Platform}
use sshd.Session.{Session, World, with_session}
use sshd.Session.Packet.Frame.{send_packet_lem, send_packet-refill, refill}
use sshd.Session.Channel.{
  no_handle, wanted, received, channel_data, send_channel_data, forward, forward_loop,
  session_on_backend_data,
}

-- The bytes of the chunks in a row.
abbrev pub joined : List Bytes → Bytes
joined [] = []
joined (c ∷ cs) = c ++ joined cs

-- One CHANNEL_DATA for each chunk.
unfoldable pub send_chunks : Platform → World → List Bytes → World
send_chunks env w [] = w
send_chunks env w (c ∷ cs) = send_chunks env (send_channel_data env w c) cs

-- A chunk that the client allows: at most 1024 bytes and at most its maximum packet, if it gave one.
abbrev pub Fits : ℕ → Bytes → Type 0
Fits max_packet c =
    (1 ≤ length c) × (length c ≤ 1024) × ((max_packet ≡ 0) ⊎ (length c ≤ max_packet))

-- How the world `v` came out of `w`.
pub record Flow (env : Platform) (w v : World) : Type 0 where
  pub chunks : List Bytes
  pub in_order : w.backend_in ≡ joined chunks ++ v.backend_in
  pub fitting : All (Fits w.session.peer_max_packet) chunks
  pub window : v.session.peer_window + length (joined chunks) ≡ w.session.peer_window
  pub packets : v.trace ≡ (send_chunks env w chunks).trace
  pub finished : (w.session.chan_open ≡ false) ⊎ (v.session.peer_window ≡ 0) ⊎ (v.backend_in ≡ [])

module _ (env : Platform) where
  send_channel_data-refill :
      (w : World) (c waiting : Bytes) (window : ℕ)
      → send_channel_data env (refill w waiting window) c
        ≡ refill (send_channel_data env w c) waiting window
  unfolding send_channel_data
  send_channel_data-refill w c waiting window =
      send_packet-refill env w (channel_data w.session.peer_channel c) waiting window

  send_chunks-refill :
      (w : World) (cs : List Bytes) (waiting : Bytes) (window : ℕ)
      → (send_chunks env (refill w waiting window) cs).trace ≡ (send_chunks env w cs).trace
  unfolding send_chunks
  send_chunks-refill w [] waiting window = refl
  send_chunks-refill w (c ∷ cs) waiting window =
      ap (λ u. (send_chunks env u cs).trace) (send_channel_data-refill w c waiting window)
      ∙ send_chunks-refill (send_channel_data env w c) cs waiting window

  -- One round sends what came and takes it off the stream and the window.
  forward_lem :
      (w : World) (n : ℕ)
      → n ≤ w.session.peer_window
      → w.session.peer_window < 2 ^ 32
      → forward env w n
        ≡ refill
            (send_channel_data env w (take n w.backend_in))
            (drop n w.backend_in)
            (w.session.peer_window - n)
  unfolding forward
  forward_lem w n fits small =
      let c = take n w.backend_in in
      let sent = send_channel_data-refill w c (drop n w.backend_in) w.session.peer_window in
      ap
        (λ (u : World).
          with_session u
            (record u.session { peer_window = (u.session.peer_window + 2 ^ 32 - n) % 2 ^ 32 }))
        sent
      ∙ ap (λ p. refill (send_channel_data env w c) (drop n w.backend_in) p) (omega arith)

  wanted_bounds :
      (s : Session)
      → (wanted s ≤ s.peer_window)
        × (wanted s ≤ 1024)
        × (s.peer_max_packet ≢ 0 → wanted s ≤ s.peer_max_packet)
        × (0 < s.peer_window → 0 < wanted s)
  unfolding wanted
  wanted_bounds s = ground arith

  received_range :
      (want : ℕ) (waiting : Bytes)
      → (received env want waiting ≤ want)
        × (received env want waiting ≤ length waiting)
        × (received env want waiting ≡ 0 → (want ≡ 0) ⊎ (length waiting ≡ 0))
  unfolding received
  received_range want waiting = ground arith

  record AfterRound (w u : World) (n : ℕ) : Type 0 where
    left : u.backend_in ≡ drop n w.backend_in
    smaller : u.session.peer_window ≡ w.session.peer_window - n
    same_max : u.session.peer_max_packet ≡ w.session.peer_max_packet
    same_open : u.session.chan_open ≡ w.session.chan_open

  forward-AfterRound :
      (w : World) (n : ℕ)
      → n ≤ w.session.peer_window
      → w.session.peer_window < 2 ^ 32
      → AfterRound w (forward env w n) n
  unfolding send_channel_data
  forward-AfterRound w n fits small =
      grind (arith, forward_lem w n fits small, send_packet_lem env w)

  max_fits :
      (s : Session) (n : ℕ) (c : Bytes)
      → n ≤ wanted s
      → length c ≡ n
      → (s.peer_max_packet ≡ 0) ⊎ (length c ≤ s.peer_max_packet)
  max_fits s n c below size = elim (Bool-cases (s.peer_max_packet == 0)) [
    | inl none_given ↦ inl (ground arith)
    | inr given ↦ inr (omega (arith, (wanted_bounds s).2 (ground arith)))
  ]

  -- What a chunk in front makes of the rest of a flow.
  Flow-step :
      (w v : World) (n : ℕ)
      → 0 < n
      → n ≤ wanted w.session
      → n ≤ length w.backend_in
      → w.session.peer_window < 2 ^ 32
      → Flow env (forward env w n) v
      → Flow env w v
  Flow-step w v n some_came below_want below_waiting small f =
      let c = take n w.backend_in in
      let (want_window, want_1024, want_max, _) = wanted_bounds w.session in
      let e = forward_lem w n (omega arith) small in
      let r = forward-AfterRound w n (omega arith) small in
      let size : length c ≡ n = omega (arith, length-take n w.backend_in) in
      record {
        chunks = c ∷ f.chunks;
        in_order =
            sym (take-append-drop n w.backend_in)
            ∙ ap (λ t. c ++ t) (sym r.left ∙ f.in_order)
            ∙ sym (append_assoc c (joined f.chunks) v.backend_in);
        fitting = (
          (omega arith, omega arith, max_fits w.session n c below_want size),
          subst (λ k. All (Fits k) f.chunks) r.same_max f.fitting,
        );
        window = omega (arith, f.window, r.smaller, length-append c (joined f.chunks));
        packets =
            f.packets
            ∙ ap (λ u. (send_chunks env u f.chunks).trace) e
            ∙ send_chunks-refill (send_channel_data env w c) f.chunks (drop n w.backend_in)
                (w.session.peer_window - n)
            ∙ unfold send_chunks in refl;
        finished = rw (← r.same_open) f.finished;
      }

  Flow-end :
      (w : World)
      → (w.session.chan_open ≡ false) ⊎ (w.session.peer_window ≡ 0) ⊎ (w.backend_in ≡ [])
      → Flow env w w
  Flow-end w done = record {
    chunks = [];
    in_order = refl;
    fitting = tt;
    window = omega arith;
    packets = unfold send_chunks in refl;
    finished = done;
  }

  forward_loop-Flow :
      (fuel : ℕ) (w : World)
      → length w.backend_in < fuel
      → w.session.peer_window < 2 ^ 32
      → Flow env w (forward_loop env fuel w)
  unfolding forward_loop
  forward_loop-Flow zero w h small = absurd (omega arith)
  forward_loop-Flow (suc fuel) w h small =
      let n = received env (wanted w.session) w.backend_in in
      let (below_want, below_waiting, none_if) = received_range (wanted w.session) w.backend_in in
      let (want_window, _, _, want_some) = wanted_bounds w.session in
      elim (Bool-cases (ltb 0 w.session.peer_window && w.session.chan_open)) [
        | inr shut ↦ rw shut (Flow-end w (ground arith))
        | inl opened ↦ elim (Bool-cases (n == 0)) [
          | inl none_came ↦
              rw (opened, none_came)
                (Flow-end w (
                  inr (
                    inr (
                      nil_of_length w.backend_in
                        (ground (arith, opened, none_came, none_if, want_some))))))
          | inr some_came ↦
              let r = forward-AfterRound w n (omega arith) small in
              rw (opened, some_came)
                (Flow-step w (forward_loop env fuel (forward env w n)) n (ground arith) below_want
                  below_waiting small
                  (forward_loop-Flow fuel (forward env w n)
                    (ground (arith, some_came, ap length r.left, length-drop n w.backend_in, h))
                    (omega (arith, r.smaller))))
        ]
      ]

  opened_loop :
      (w : World)
      → no_handle w.session.backend_handle ≡ false
      → w.session.chan_open ≡ true
      → session_on_backend_data env w ≡ forward_loop env (suc (length w.backend_in)) w
  unfolding session_on_backend_data
  opened_loop w handle opened = ground arith

  -- On an open channel with a backend, every 32-bit window and every backend output: the callback sends the client a prefix of what waits, in
  -- order and in CHANNEL_DATA messages of 1 to 1024 bytes that fit the client's maximum packet, takes just these bytes off
  -- the client's window, never more than it has, and stops only with an empty window, nothing left to
  -- send, or a channel that is not open.
  pub session_on_backend_data-Flow :
      (w : World)
      → no_handle w.session.backend_handle ≡ false
      → w.session.chan_open ≡ true
      → w.session.peer_window < 2 ^ 32
      → Flow env w (session_on_backend_data env w)
  session_on_backend_data-Flow w handle opened small =
      subst (λ v. Flow env w v) (sym (opened_loop w handle opened))
        (forward_loop-Flow (suc (length w.backend_in)) w (omega arith) small)
