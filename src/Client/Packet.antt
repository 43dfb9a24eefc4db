-- ===== src/Client/Packet.antt =====
-- The packets of esp-idf/src/ssh_client.cpp: the functions between `send_raw` and `recv_packet`.
pub mod Mirror
pub mod Frame
pub mod Progress
pub mod Receive
use sshd.Base.{
  ℕ, zero, suc, ◌+◌, ◌-◌, ◌%◌, ◌^◌, Bool, true, false, not, ◌&&◌, ◌||◌, ◌==◌, Option, none, some,
  Bytes, List, [], ◌∷◌, ◌++◌, ltb, leb, if◌then◌else◌, length, take, drop, get_or, out_array,
}
use sshd.Platform.{Platform, sent}
use sshd.Crypto.{cc20p1305_length, cc20p1305_open}
use sshd.Session.Msg
use sshd.Session.Packet.{
  padding, framed, no_tcp, Parsed, got, need_more, broken, next_seq, length_field,
}
use sshd.Client.{
  Csess, Outbound, Read, Device, Answer, ok, waiting, Action, with_cs, with_job, log_event,
}

unfoldable pub send_raw : Outbound → Bytes → Outbound
send_raw w bytes = if no_tcp w.cs.handle then w else log_event w (sent w.cs.handle bytes)

-- The code that builds the packet is that of the server's `send_packet`, with the key of this side.
unfoldable pub send_packet : Platform → Outbound → Bytes → Outbound
send_packet env w payload =
    let c = w.cs in
    let pad = padding c.enc_out (length payload) in
    let pad_bytes = out_array pad (env.random w.draws pad) in
    let packet = framed env c.enc_out c.send_key c.seq_out pad_bytes payload in
    let w1 = send_raw (record w { draws = w.draws + 1 }) packet in
    with_cs w1 (record w1.cs { seq_out = (c.seq_out + 1) % 2 ^ 64 })

-- `itsRecv` into the array and what happens meanwhile.
unfoldable pub fill_rx : Outbound → Read → List Read → Outbound
fill_rx w r rest = record w {
  cs = record w.cs { rx_buf = w.cs.rx_buf ++ take 1024 r.bytes };
  job = record w.job { user_close = w.job.user_close || r.closing };
  script = rest;
  ticks = (w.ticks + r.elapsed) % 2 ^ 32;
  keys = w.keys ++ r.typed;
}

unfoldable pub try_plain : Csess → Parsed × Csess
try_plain c =
    let plen = length_field c.rx_buf in
    let pad_len = get_or c.rx_buf 4 0 in
    if ltb (length c.rx_buf) 5
    then (need_more, c)
    else (if ltb plen 8 || ltb 35000 plen
        then (broken, c)
        else (if ltb (length c.rx_buf) (4 + plen)
            then (need_more, c)
            else (if ltb plen (pad_len + 1) then (broken, c) else (
              got (take (plen - pad_len - 1) (drop 5 c.rx_buf)),
              record c { rx_buf = drop (4 + plen) c.rx_buf; seq_in = next_seq c.seq_in },
            ))))

-- The last step of `try_parse` on an opened packet.
unfoldable pub try_opened : ℕ → Bytes → Csess → Parsed × Csess
try_opened plen plain c =
    let pad_len = get_or plain 0 0 in
    if ltb plen (pad_len + 1) then (broken, c) else (
      got (take (plen - pad_len - 1) (drop 1 plain)),
      record c { rx_buf = drop (4 + plen + 16) c.rx_buf; seq_in = next_seq c.seq_in },
    )

-- What `recv_packet` returns: 0 or more, -1 and -2.
pub data Code : Type 0 where
  number : ℕ → Code
  bad_framing : Code
  connection_closed : Code

-- `t < 0`
abbrev pub is_negative : Code → Bool
is_negative (number t) = false
is_negative bad_framing = true
is_negative connection_closed = true

-- `t == n`
abbrev pub is_number : Code → ℕ → Bool
is_number (number t) n = t == n
is_number bad_framing n = false
is_number connection_closed n = false

-- `(long)(deadline - xTaskGetTickCount()) <= 0`, in 32 bits.
unfoldable pub is_over : ℕ → ℕ → Bool
is_over deadline ticks =
    let remain = (deadline + 2 ^ 32 - ticks % 2 ^ 32) % 2 ^ 32 in remain == 0 || leb (2 ^ 31) remain

-- The code of a decoded packet.
unfoldable pub packet_code : Bytes → Code
packet_code [] = bad_framing
packet_code (t ∷ r) = number t

-- MSG_IGNORE or MSG_DEBUG.
unfoldable pub is_skipped : Bytes → Bool
is_skipped [] = false
is_skipped (t ∷ r) = t == Msg.ignore || t == Msg.debug

module _ (env : Platform) where
  unfoldable pub try_sealed : Csess → Parsed × Csess
  try_sealed c =
      let enc_len = take 4 c.rx_buf in
      let plen = length_field (cc20p1305_length env (drop 32 c.recv_key) c.seq_in enc_len) in
      let ct = take plen (drop 4 c.rx_buf) in
      let tag = take 16 (drop (4 + plen) c.rx_buf) in
      if ltb (length c.rx_buf) 4
      then (need_more, c)
      else (if ltb plen 8 || ltb 35000 plen
          then (broken, c)
          else (if ltb (length c.rx_buf) (4 + plen + 16)
              then (need_more, c)
              else elim (cc20p1305_open env (take 32 c.recv_key) c.seq_in enc_len ct tag) [
                | none ↦ (broken, c)
                | some plain ↦ try_opened plen plain c
              ]))

  unfoldable pub try_parse : Csess → Parsed × Csess
  try_parse c = if not c.enc_in then try_plain c else try_sealed c

  -- The end of a round of `recv_packet`, `next` being the rounds behind it: one read, of which the
  -- client waits if the script has none.
  unfoldable pub read_more :
      (Outbound → Answer (Code × Bytes) × Outbound) → Outbound → Answer (Code × Bytes) × Outbound
  read_more next w = elim w.script [
    | [] ↦ (waiting, w)
    | r ∷ rest ↦
        let w1 = fill_rx w r rest in
        elim (length (take 1024 r.bytes) == 0 && not r.connected && ltb (length w1.cs.rx_buf) 4) [
          | true ↦ (ok (connection_closed, []), w1)
          | false ↦ next w1
        ]
  ]

  unfoldable pub recv_round :
      (Outbound → Answer (Code × Bytes) × Outbound)
      → ℕ
      → Outbound
      → Answer (Code × Bytes) × Outbound
  recv_round next deadline w =
      let (r, c) = try_parse w.cs in
      let w1 = with_cs w c in
      elim r [
        | got out ↦ elim (is_skipped out) [
          | true ↦ next w1
          | false ↦ (ok (packet_code out, out), w1)
        ]
        | broken ↦ (ok (bad_framing, []), w1)
        | need_more ↦ elim (is_over deadline w1.ticks) [
          | true ↦ (ok (number 0, []), w1)
          | false ↦ read_more next w1
        ]
      ]

  -- The `for (;;)` of `recv_packet`, with fuel.
  unfoldable pub recv_rounds : ℕ → ℕ → Outbound → Answer (Code × Bytes) × Outbound
  recv_rounds zero deadline w = (waiting, w)
  recv_rounds (suc fuel) deadline w = recv_round (recv_rounds fuel deadline) deadline w

-- The bytes to come and the reads: each round takes one of them, or a byte of the buffer.
unfoldable pub script_size : List Read → ℕ
script_size [] = 0
script_size (r ∷ rest) = 1 + length (take 1024 r.bytes) + script_size rest

unfoldable pub to_come : Outbound → ℕ
to_come w = length w.cs.rx_buf + script_size w.script

unfoldable pub recv_packet : Platform → Device → ℕ → Action (Code × Bytes)
recv_packet env dev overall_ms w =
    recv_rounds env (suc (to_come w)) ((w.ticks + dev.ms_to_ticks overall_ms) % 2 ^ 32) w

-- A `for (;;)` whose rounds each take a read or a byte of the buffer: `body` is one round, on the
-- rounds behind it.
unfoldable pub loop : {A : Type 0} → ℕ → (Action A → Action A) → Action A
loop zero body w = (waiting, w)
loop (suc fuel) body w = body (loop fuel body) w

unfoldable pub for_ever : {A : Type 0} → (Action A → Action A) → Action A
for_ever body w = loop (suc (to_come w)) body w
