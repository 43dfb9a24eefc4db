-- ===== src/Session/Packet/Parse.antt =====
-- `parse_packet` on any buffer: what it takes, and what it leaves.
use sshd.Base.{
  not, ltb, ◌||◌, ℕ, ◌+◌, ◌-◌, ◌≤◌, ◌≡◌, refl, inl, inr, Option, Bytes, length, take, drop, get_or,
  length-take, Bool-cases, Option-cases, arith,
}
use sshd.Platform.{Platform}
use sshd.Crypto.{cc20p1305_length, cc20p1305_open}
use sshd.Session.{Session}
use sshd.Session.Packet.{
  Parsed, got, need_more, broken, next_seq, length_field, parse_plain, parse_opened, parse_sealed,
  parse_packet,
}

-- A packet was taken off the front of the buffer: its payload, and how many bytes went with it.
pub record Took (s : Session) (payload : Bytes) (t : Session) : Type 0 where
  pub bytes : ℕ
  pub at_least : 12 ≤ bytes
  pub in_buffer : bytes ≤ length s.rx_buf
  pub holds_payload : length payload + 5 ≤ bytes
  pub rest : t ≡ record s { rx_buf = drop bytes s.rx_buf; seq_in = next_seq s.seq_in }

-- The outcome of a call, result by result.
unfoldable pub Outcome : Session → Parsed × Session → Type 0
Outcome s (got payload, t) = Took s payload t
Outcome s (need_more, t) = t ≡ s
Outcome s (broken, t) = t ≡ s

parse_plain-Outcome : (s : Session) → Outcome s (parse_plain s)
unfolding parse_plain Outcome
parse_plain-Outcome s = elim (Bool-cases (ltb (length s.rx_buf) 5)) [
  | inl short ↦ rw short refl
  | inr full ↦
      elim (Bool-cases (ltb (length_field s.rx_buf) 8 || ltb 35000 (length_field s.rx_buf))) [
        | inl odd ↦ rw (full, odd) refl
        | inr fair ↦ elim (Bool-cases (ltb (length s.rx_buf) (4 + length_field s.rx_buf))) [
          | inl part ↦ rw (full, fair, part) refl
          | inr whole ↦ elim (Bool-cases (ltb (length_field s.rx_buf) (get_or s.rx_buf 4 0 + 1))) [
            | inl bad_pad ↦ rw (full, fair, whole, bad_pad) refl
            | inr pad ↦
                rw (full, fair, whole, pad)
                  (record {
                    bytes = 4 + length_field s.rx_buf;
                    at_least = ground arith;
                    in_buffer = ground arith;
                    holds_payload = ground (
                      arith,
                      length-take (length_field s.rx_buf - get_or s.rx_buf 4 0 - 1)
                          (drop 5 s.rx_buf),
                    );
                    rest = refl;
                  })
          ]
        ]
      ]
]

parse_opened-Outcome :
    (plen : ℕ) (plain : Bytes) (s : Session)
    → 8 ≤ plen
    → 4 + plen + 16 ≤ length s.rx_buf
    → Outcome s (parse_opened plen plain s)
unfolding parse_opened Outcome
parse_opened-Outcome plen plain s lo hi = elim (Bool-cases (ltb plen (get_or plain 0 0 + 1))) [
  | inl bad_pad ↦ rw bad_pad refl
  | inr pad ↦ rw pad (record {
    bytes = 4 + plen + 16;
    at_least = omega arith;
    in_buffer = hi;
    holds_payload = ground (arith, length-take (plen - get_or plain 0 0 - 1) (drop 1 plain));
    rest = refl;
  })
]

module _ (env : Platform) where
  -- The length field as `parse_packet` decrypts it.
  abbrev sealed_length : Session → ℕ
  sealed_length s =
      length_field (cc20p1305_length env (drop 32 s.c2s_key) s.seq_in (take 4 s.rx_buf))

  abbrev opened_packet : Session → Option Bytes
  opened_packet s =
      cc20p1305_open env (take 32 s.c2s_key) s.seq_in (take 4 s.rx_buf)
        (take (sealed_length s) (drop 4 s.rx_buf)) (take 16 (drop (4 + sealed_length s) s.rx_buf))

  parse_sealed-Outcome : (s : Session) → Outcome s (parse_sealed env s)
  unfolding parse_sealed Outcome
  parse_sealed-Outcome s = elim (Bool-cases (ltb (length s.rx_buf) 4)) [
    | inl short ↦ rw short refl
    | inr full ↦ elim (Bool-cases (ltb (sealed_length s) 8 || ltb 35000 (sealed_length s))) [
      | inl odd ↦ rw (full, odd) refl
      | inr fair ↦ elim (Bool-cases (ltb (length s.rx_buf) (4 + sealed_length s + 16))) [
        | inl part ↦ rw (full, fair, part) refl
        | inr whole ↦ elim (Option-cases (opened_packet s)) [
          | inl refused ↦ rw (full, fair, whole, refused) refl
          | inr (plain, opened) ↦
              rw (full, fair, whole, opened)
                (parse_opened-Outcome (sealed_length s) plain s (ground arith) (ground arith))
        ]
      ]
    ]
  ]

  -- On every buffer, in the clear and encrypted: where no packet is returned the session is as it
  -- was, and a packet that is returned took 12 bytes at least, all of them in the buffer and more
  -- than its payload, off the front, and one sequence number.
  pub parse_packet-Outcome : (s : Session) → Outcome s (parse_packet env s)
  unfolding parse_packet
  parse_packet-Outcome s = elim (Bool-cases (not s.enc_inbound)) [
    | inl plain ↦ rw plain (parse_plain-Outcome s)
    | inr sealed ↦ rw sealed (parse_sealed-Outcome s)
  ]
