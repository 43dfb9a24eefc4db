-- ===== src/Client/Packet/Progress.antt =====
-- What a round of `recv_packet` in esp-idf/src/ssh_client.cpp makes of the bytes and the time.
use sshd.Base.{
  ℕ, ◌+◌, ◌-◌, ◌%◌, ◌^◌, ◌≤◌, ◌<◌, ◌≡◌, ◌⊎◌, refl, inl, inr, Bool-cases, Option-cases, Bool, true,
  Bytes, List, [], ◌∷◌, length, take, drop, length-append, length-drop, arith,
}
use sshd.Platform.{Platform}
use sshd.Crypto.{cc20p1305_length, cc20p1305_open}
use sshd.Session.Packet.{Parsed, got, need_more, broken, length_field}
use sshd.Client.{Csess, Outbound, Read, Answer, ok, failed, waiting, with_cs}
use sshd.Client.Packet.Frame.{SameBut}
use sshd.Client.Packet.{
  try_plain, try_opened, try_sealed, try_parse, is_over, fill_rx, script_size, to_come, Code,
  number, bad_framing, connection_closed, packet_code,
}

pub Parsed-cases : (r : Parsed) → ((out : Bytes) × (r ≡ got out)) ⊎ ((r ≡ need_more) ⊎ (r ≡ broken))
Parsed-cases (got out) = inl (out, refl)
Parsed-cases need_more = inr (inl refl)
Parsed-cases broken = inr (inr refl)

-- A packet takes bytes off the buffer, and without one nothing changes.
abbrev Taken : Csess → Parsed × Csess → Type 0
Taken c (got out, d) = (length d.rx_buf < length c.rx_buf) × SameBut c d
Taken c (need_more, d) = d ≡ c
Taken c (broken, d) = d ≡ c

try_plain-Taken : (c : Csess) → Taken c (try_plain c)
unfolding try_plain
try_plain-Taken c = ground (arith, length-drop (4 + length_field c.rx_buf) c.rx_buf)

try_opened-Taken :
    (plen : ℕ) (plain : Bytes) (c : Csess)
    → 4 + plen + 16 ≤ length c.rx_buf
    → Taken c (try_opened plen plain c)
unfolding try_opened
try_opened-Taken plen plain c h = ground (arith, length-drop (4 + plen + 16) c.rx_buf)

try_sealed-Taken : (env : Platform) (c : Csess) → Taken c (try_sealed env c)
unfolding try_sealed
try_sealed-Taken env c =
    let enc_len = take 4 c.rx_buf in
    let plen = length_field (cc20p1305_length env (drop 32 c.recv_key) c.seq_in enc_len) in
    let opened =
      cc20p1305_open env (take 32 c.recv_key) c.seq_in enc_len (take plen (drop 4 c.rx_buf))
        (take 16 (drop (4 + plen) c.rx_buf)) in
    elim (Option-cases opened) [
      | inl shut ↦ ground (arith, shut)
      | inr (plain, unsealed) ↦ ground (arith, unsealed, try_opened-Taken plen plain c)
    ]

pub try_parse-Taken : (env : Platform) (c : Csess) → Taken c (try_parse env c)
unfolding try_parse
try_parse-Taken env c = elim (Bool-cases c.enc_in) [
  | inl on ↦ ground (arith, on, try_sealed-Taken env c)
  | inr off ↦ ground (arith, off, try_plain-Taken c)
]

-- The fields that a packet leaves alone.
with_cs-script : (w : Outbound) (c : Csess) → (with_cs w c).script ≡ w.script
with_cs-script w c = refl

-- The ticks that the reads to come take.
unfoldable pub total_elapsed : List Read → ℕ
total_elapsed [] = 0
total_elapsed (r ∷ rest) = r.elapsed + total_elapsed rest

pub ticks_pass :
    (d t e left : ℕ)
    → (d + 2 ^ 32 - t % 2 ^ 32) % 2 ^ 32 ≡ left
    → d < 2 ^ 32
    → e ≤ left
    → (d + 2 ^ 32 - (t + e) % 2 ^ 32 % 2 ^ 32) % 2 ^ 32 ≡ left - e
ticks_pass d t e left h hd le = omega arith

pub ticks_over :
    (d t e left : ℕ)
    → (d + 2 ^ 32 - t % 2 ^ 32) % 2 ^ 32 ≡ left
    → d < 2 ^ 32
    → left < e
    → e < 2 ^ 30
    → left < 2 ^ 31
    → is_over d ((t + e) % 2 ^ 32) ≡ true
unfolding is_over
ticks_over d t e left h hd lt small half = ground arith

-- What has become of the bytes and reads to come after a result: no more are left than before, and
-- fewer where it is a packet or where the deadline was not over before.
unfoldable pub Progress : ℕ → Bool → Answer (Code × Bytes) × Outbound → Type 0
Progress size over (ok (number t, pkt), v) =
    (to_come v ≤ size) × ((to_come v < size) ⊎ ((t ≡ 0) × (over ≡ true)))
Progress size over (ok (bad_framing, pkt), v) = to_come v ≤ size
Progress size over (ok (connection_closed, pkt), v) = to_come v ≤ size
Progress size over (failed, v) = to_come v ≤ size
Progress size over (waiting, v) = to_come v ≤ size

pub Progress-later :
    (size less : ℕ) (over before : Bool) (x : Answer (Code × Bytes) × Outbound)
    → less < size
    → Progress less over x
    → Progress size before x
unfolding Progress
Progress-later size less over before (ok (number t, pkt), v) h p = (omega arith, inl (omega arith))
Progress-later size less over before (ok (bad_framing, pkt), v) h p = omega arith
Progress-later size less over before (ok (connection_closed, pkt), v) h p = omega arith
Progress-later size less over before (failed, v) h p = omega arith
Progress-later size less over before (waiting, v) h p = omega arith

pub packet-Progress :
    (size : ℕ) (over : Bool) (out : Bytes) (v : Outbound)
    → to_come v < size
    → Progress size over (ok (packet_code out, out), v)
unfolding Progress packet_code
packet-Progress size over [] v h = omega arith
packet-Progress size over (t ∷ r) v h = (omega arith, inl h)

pub List-cases : (l : List Read) → (l ≡ []) ⊎ ((r : Read) × (rest : List Read) × (l ≡ r ∷ rest))
List-cases [] = inl refl
List-cases (r ∷ rest) = inr (r, rest, refl)

-- A read takes its bytes and itself out of what is to come.
pub fill_rx_smaller :
    (w : Outbound) (r : Read) (rest : List Read)
    → w.script ≡ r ∷ rest
    → to_come (fill_rx w r rest) < to_come w
unfolding to_come script_size fill_rx
fill_rx_smaller w r rest e = ground (arith, e, length-append w.cs.rx_buf (take 1024 r.bytes))

pub with_cs_smaller :
    (w : Outbound) (c : Csess)
    → length c.rx_buf < length w.cs.rx_buf
    → to_come (with_cs w c) < to_come w
unfolding to_come
with_cs_smaller w c h = omega arith

pub timeout-Progress :
    (w : Outbound) (over : Bool) → over ≡ true → Progress (to_come w) over (ok (number 0, []), w)
unfolding Progress
timeout-Progress w over past = (omega arith, inr (refl, past))

pub stays_put : (w : Outbound) (over : Bool) → Progress (to_come w) over (ok (bad_framing, []), w)
unfolding Progress
stays_put w over = omega arith
