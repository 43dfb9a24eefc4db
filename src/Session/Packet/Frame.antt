-- ===== src/Session/Packet/Frame.antt =====
-- What the packet layer leaves alone: a send changes the sequence number, the trace and the number
-- of random draws, and nothing else.
use sshd.Base.{
  ◌∙◌, ap, sym, ℕ, ◌+◌, ◌%◌, ◌^◌, ◌≡◌, Bool, ◌||◌, Bytes, List, ◌∷◌, length, out_array,
  if◌then◌else◌, arith,
}
use sshd.Platform.{Platform, Event, sent}
use sshd.Session.{Session, World, closed, phase_eq}
use sshd.Session.Packet.{no_tcp, padding, framed, send_raw_tcp, send_packet}

-- The world after sends: three fields differ.
abbrev pub after_sends : World → ℕ → List Event → ℕ → World
after_sends w seq trace draws = record w {
  session = record w.session { seq_out = seq };
  trace = trace;
  draws = draws;
}

-- The world with another window and other bytes waiting from the backend.
abbrev pub refill : World → Bytes → ℕ → World
refill w waiting window = record w {
  session = record w.session { peer_window = window };
  backend_in = waiting;
}

module _ (env : Platform) where
  -- Whether `send_packet` sends at all.
  abbrev pub is_shut : Session → Bool
  is_shut s = phase_eq s.phase closed || no_tcp s.tcp

  pub packet_bytes : World → Bytes → Bytes
  packet_bytes w payload =
      let s = w.session in
      let pad = padding s.enc_outbound (length payload) in
      framed env s.enc_outbound s.s2c_key s.seq_out (out_array pad (env.random w.draws pad)) payload

  pub seq_after : World → ℕ
  seq_after w = if is_shut w.session then w.session.seq_out else (w.session.seq_out + 1) % 2 ^ 64

  pub trace_after : World → Bytes → List Event
  trace_after w payload =
      if is_shut w.session then w.trace else sent w.session.tcp (packet_bytes w payload) ∷ w.trace

  pub draws_after : World → ℕ
  draws_after w = if is_shut w.session then w.draws else w.draws + 1

  pub send_packet_lem :
      (w : World) (payload : Bytes)
      → send_packet env w payload
        ≡ after_sends w (seq_after w) (trace_after w payload) (draws_after w)
  unfolding send_packet send_raw_tcp seq_after trace_after draws_after packet_bytes
  send_packet_lem w payload = ground arith

  -- What is sent does not depend on the window, nor on what waits.
  pub send_packet-refill :
      (w : World) (payload waiting : Bytes) (window : ℕ)
      → send_packet env (refill w waiting window) payload
        ≡ refill (send_packet env w payload) waiting window
  unfolding seq_after trace_after draws_after packet_bytes
  send_packet-refill w payload waiting window =
      send_packet_lem (refill w waiting window) payload
      ∙ ap (λ u. refill u waiting window) (sym (send_packet_lem w payload))
