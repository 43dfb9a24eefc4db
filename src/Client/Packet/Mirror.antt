-- ===== src/Client/Packet/Mirror.antt =====
-- The client's `try_parse` beside the server's `parse_packet`, and the packets of one read by the
-- other.
use sshd.Base.{
  ℕ, ◌+◌, ◌≤◌, ◌≡◌, sym, ap, ◌∙◌, inl, inr, Bool-cases, Option-cases, false, Bytes, List, [], ◌∷◌,
  IsByte, All, ◌++◌, length, take, drop, out_array, length-out_array, out_array-IsByte, arith,
}
use sshd.Platform.{Platform, Event, sent}
use sshd.Crypto.{cc20p1305_length, cc20p1305_open}
use sshd.Crypto.Aead.{StreamCipher}
use sshd.Session.{Session, World, closed, phase_eq}
use sshd.Session.Packet
use sshd.Session.Packet.{
  padding, framed, no_tcp, Parsed, got, next_seq, length_field, parse_plain, parse_opened,
  parse_sealed, parse_packet, send_raw_tcp,
}
use sshd.Session.Packet.RoundTrip.{parse_packet-framed}
use sshd.Client.{Csess, Outbound}
use sshd.Client.Packet.{try_plain, try_opened, try_sealed, try_parse, send_raw, send_packet}

-- A server session whose inbound side is that of the client.
abbrev pub as_receiver : Csess → Session → Session
as_receiver c s = record s {
  rx_buf = c.rx_buf;
  c2s_key = c.recv_key;
  enc_inbound = c.enc_in;
  seq_in = c.seq_in;
}

-- A result of the server's on the client's state.
abbrev pub on_client : Csess → Parsed × Session → Parsed × Csess
on_client c (r, s) = (r, record c { rx_buf = s.rx_buf; seq_in = s.seq_in })

try_plain-parse_plain :
    (c : Csess) (s : Session) → try_plain c ≡ on_client c (parse_plain (as_receiver c s))
unfolding try_plain parse_plain
try_plain-parse_plain c s = ground arith

try_opened-parse_opened :
    (plen : ℕ) (plain : Bytes) (c : Csess) (s : Session)
    → try_opened plen plain c ≡ on_client c (parse_opened plen plain (as_receiver c s))
unfolding try_opened parse_opened
try_opened-parse_opened plen plain c s = ground arith

try_sealed-parse_sealed :
    (env : Platform) (c : Csess) (s : Session)
    → try_sealed env c ≡ on_client c (parse_sealed env (as_receiver c s))
unfolding try_sealed parse_sealed
try_sealed-parse_sealed env c s =
    let enc_len = take 4 c.rx_buf in
    let plen = length_field (cc20p1305_length env (drop 32 c.recv_key) c.seq_in enc_len) in
    let opened =
      cc20p1305_open env (take 32 c.recv_key) c.seq_in enc_len (take plen (drop 4 c.rx_buf))
        (take 16 (drop (4 + plen) c.rx_buf)) in
    elim (Option-cases opened) [
      | inl shut ↦ ground (arith, shut)
      | inr (plain, unsealed) ↦ ground (arith, unsealed, try_opened-parse_opened plen plain c s)
    ]

-- On every state and buffer, the client's `try_parse` does what the server's `parse_packet` does on
-- the same buffer, mode, key and sequence number: it gives the same result, and leaves the same buffer
-- and sequence number and the rest of the client's state.
pub try_parse-parse_packet :
    (env : Platform) (c : Csess) (s : Session)
    → try_parse env c ≡ on_client c (parse_packet env (as_receiver c s))
unfolding try_parse parse_packet
try_parse-parse_packet env c s = elim (Bool-cases c.enc_in) [
  | inl on ↦ ground (arith, on, try_sealed-parse_sealed env c s)
  | inr off ↦ ground (arith, off, try_plain-parse_plain c s)
]

-- The bytes of the last send.
last_sent : List Event → Bytes
last_sent [] = []
last_sent (e ∷ r) = elim e [ sent h bytes ↦ bytes | _ ↦ [] ]

-- The client reads back what stands framed in its buffer under its own key and number.
try_parse-framed :
    (env : Platform) (c : Csess) (s : Session) (payload pad_bytes rest : Bytes)
    → StreamCipher env
    → All IsByte payload
    → All IsByte pad_bytes
    → length pad_bytes ≡ padding c.enc_in (length payload)
    → length payload ≤ 34980
    → c.rx_buf ≡ framed env c.enc_in c.recv_key c.seq_in pad_bytes payload ++ rest
    → try_parse env c ≡ (got payload, record c { rx_buf = rest; seq_in = next_seq c.seq_in })
try_parse-framed env c s payload pad_bytes rest laws hp hq pad len e =
    try_parse-parse_packet env c s
    ∙ ap (on_client c)
        (parse_packet-framed env (as_receiver c s) payload pad_bytes rest laws hp hq pad len e)

-- Under the documented laws of the cipher: when the server, which has a transport and is not closed,
-- sends a payload of at most 34980 bytes, and these bytes stand first in the buffer of a client in the
-- same mode, with the same key and sequence number, then the client's `try_parse` returns that payload,
-- leaves what follows, and counts to the server's next sequence number.
pub try_parse-send_packet :
    (env : Platform) (w : World) (c : Csess) (payload bytes rest : Bytes)
    → StreamCipher env
    → All IsByte payload
    → length payload ≤ 34980
    → phase_eq w.session.phase closed ≡ false
    → no_tcp w.session.tcp ≡ false
    → c.enc_in ≡ w.session.enc_outbound
    → c.recv_key ≡ w.session.s2c_key
    → c.seq_in ≡ w.session.seq_out
    → (Packet.send_packet env w payload).trace ≡ sent w.session.tcp bytes ∷ w.trace
    → c.rx_buf ≡ bytes ++ rest
    → try_parse env c ≡ (
      got payload,
      record c { rx_buf = rest; seq_in = (Packet.send_packet env w payload).session.seq_out },
    )
unfolding Packet.send_packet send_raw_tcp last_sent
try_parse-send_packet env w c payload bytes rest laws hp len alive tcp mode key seq out e =
    let s = w.session in
    let pad = padding s.enc_outbound (length payload) in
    let pad_bytes = out_array pad (env.random w.draws pad) in
    let packet = framed env s.enc_outbound s.s2c_key s.seq_out pad_bytes payload in
    let same : packet ≡ bytes = ground (arith, alive, tcp, ap last_sent out) in
    let number : next_seq c.seq_in ≡ (Packet.send_packet env w payload).session.seq_out =
      ground (arith, alive, tcp, seq) in
    try_parse-framed env c s payload pad_bytes rest laws hp
      (out_array-IsByte pad (env.random w.draws pad))
      (length-out_array pad (env.random w.draws pad)
        ∙ ap (λ m. padding m (length payload)) (sym mode))
      len (e ∙ ap (λ b. b ++ rest) (sym same) ∙ ground (arith, mode, key, seq))
    ∙ ap (λ n. (got payload, record c { rx_buf = rest; seq_in = n })) number

-- Under the documented laws of the cipher: when the client, which has a handle, sends a payload of at
-- most 34980 bytes, and these bytes stand first in the buffer of a server in the same mode, with the
-- same key and sequence number, then the server's `parse_packet` returns that payload, leaves what
-- follows, and counts to the client's next sequence number.
pub parse_packet-send_packet :
    (env : Platform) (w : Outbound) (s : Session) (payload bytes rest : Bytes)
    → StreamCipher env
    → All IsByte payload
    → length payload ≤ 34980
    → no_tcp w.cs.handle ≡ false
    → s.enc_inbound ≡ w.cs.enc_out
    → s.c2s_key ≡ w.cs.send_key
    → s.seq_in ≡ w.cs.seq_out
    → (send_packet env w payload).trace ≡ sent w.cs.handle bytes ∷ w.trace
    → s.rx_buf ≡ bytes ++ rest
    → parse_packet env s
      ≡ (got payload, record s { rx_buf = rest; seq_in = (send_packet env w payload).cs.seq_out })
unfolding send_packet send_raw last_sent
parse_packet-send_packet env w s payload bytes rest laws hp len handle mode key seq out e =
    let c = w.cs in
    let pad = padding c.enc_out (length payload) in
    let pad_bytes = out_array pad (env.random w.draws pad) in
    let packet = framed env c.enc_out c.send_key c.seq_out pad_bytes payload in
    let same : packet ≡ bytes = ground (arith, handle, ap last_sent out) in
    let number : next_seq s.seq_in ≡ (send_packet env w payload).cs.seq_out =
      ground (arith, handle, seq) in
    parse_packet-framed env s payload pad_bytes rest laws hp
      (out_array-IsByte pad (env.random w.draws pad))
      (length-out_array pad (env.random w.draws pad)
        ∙ ap (λ m. padding m (length payload)) (sym mode))
      len (e ∙ ap (λ b. b ++ rest) (sym same) ∙ ground (arith, mode, key, seq))
    ∙ ap (λ n. (got payload, record s { rx_buf = rest; seq_in = n })) number
