-- ===== src/Session/Packet/Layout.antt =====
-- Where the parts of a framed packet stand in a buffer, and what the parser cuts out of it.
use sshd.Base.{
  ℕ, suc, ◌+◌, ◌-◌, ◌%◌, ◌^◌, ◌≤◌, ◌<◌, ◌≡◌, ◌∙◌, refl, ap₂, Bytes, [], ◌∷◌, ◌++◌, length, take,
  drop, get_or, length-append, take-append, drop-append, append_assoc, append-nil, arith,
}
use sshd.Wire.{big_endian_32}
use sshd.Wire.RoundTrip.{value-big_endian}
use sshd.Session.{Session}
use sshd.Session.Packet.{got, next_seq, length_field, parse_plain, parse_opened}

pub length_field-big_endian :
    (n : ℕ) (r : Bytes) → n < 2 ^ 32 → length_field (big_endian_32 n ++ r) ≡ n
unfolding length_field big_endian_32
length_field-big_endian n r h = value-big_endian n h

pub drop_header : (n k : ℕ) (r : Bytes) → drop (4 + k) (big_endian_32 n ++ r) ≡ drop k r
unfolding big_endian_32
drop_header n k r = rw (let e : 4 + k ≡ suc (suc (suc (suc k))) = omega arith in e) refl

pub length_header : (n : ℕ) → length (big_endian_32 n) ≡ 4
unfolding big_endian_32
length_header n = refl

-- The length field and the inner part of a packet.
unfoldable pub packet_len : Bytes → Bytes → ℕ
packet_len payload pad_bytes = 1 + length payload + length pad_bytes

unfoldable pub inner_part : Bytes → Bytes → Bytes
inner_part payload pad_bytes = length pad_bytes % 256 ∷ (payload ++ pad_bytes)

module _ (payload pad_bytes rest : Bytes) (small : length pad_bytes < 256) where
  abbrev pub plen : ℕ
  plen = packet_len payload pad_bytes

  abbrev pub inner : Bytes
  inner = inner_part payload pad_bytes

  pub length-inner : length inner ≡ plen
  unfolding inner_part packet_len
  length-inner = omega (arith, length-append payload pad_bytes)

  -- The payload, cut out of an inner part that other bytes follow.
  pub payload_of_inner : take (plen - length pad_bytes - 1) (drop 1 (inner ++ rest)) ≡ payload
  unfolding inner_part packet_len
  payload_of_inner =
      ap₂ take
        (let e : 1 + length payload + length pad_bytes - length pad_bytes - 1 ≡ length payload =
            omega arith in
          e)
        (append_assoc payload pad_bytes rest)
      ∙ take-append payload (pad_bytes ++ rest)

  unfoldable pub buffer : Bytes
  buffer = big_endian_32 plen ++ (inner ++ rest)

  pub pad_of_buffer : get_or buffer 4 0 ≡ length pad_bytes
  unfolding buffer inner_part big_endian_32
  pad_of_buffer = omega arith

  pub payload_of_buffer : take (plen - length pad_bytes - 1) (drop 5 buffer) ≡ payload
  unfolding buffer big_endian_32
  payload_of_buffer = payload_of_inner

  pub rest_of_inner : drop plen (inner ++ rest) ≡ rest
  rest_of_inner = rw (← length-inner) (drop-append inner rest)

  pub rest_of_buffer : drop (4 + plen) buffer ≡ rest
  unfolding buffer
  rest_of_buffer = drop_header plen plen (inner ++ rest) ∙ rest_of_inner

  pub length-buffer : length buffer ≡ 4 + plen + length rest
  unfolding buffer
  length-buffer = omega (
    arith,
    length-append (big_endian_32 plen) (inner ++ rest),
    length_header plen,
    length-append inner rest,
    length-inner,
  )

  pub field_of_buffer : plen ≤ 35000 → length_field buffer ≡ plen
  unfolding buffer
  field_of_buffer hi = length_field-big_endian plen (inner ++ rest) (omega arith)

  pub parse_plain_framed :
      (r : Session)
      → 8 ≤ plen
      → plen ≤ 35000
      → r.rx_buf ≡ buffer
      → parse_plain r ≡ (got payload, record r { rx_buf = rest; seq_in = next_seq r.seq_in })
  unfolding parse_plain packet_len
  parse_plain_framed r lo hi e =
      (ground (
        arith,
        field_of_buffer hi,
        pad_of_buffer,
        length-buffer,
        payload_of_buffer,
        rest_of_buffer,
        e,
      ))

  pub inner_first : get_or inner 0 0 ≡ length pad_bytes
  unfolding inner_part
  inner_first = omega arith

  pub parse_opened-inner :
      (r : Session)
      → drop (4 + plen + 16) r.rx_buf ≡ rest
      → take (plen - length pad_bytes - 1) (drop 1 inner) ≡ payload
      → parse_opened plen inner r
        ≡ (got payload, record r { rx_buf = rest; seq_in = next_seq r.seq_in })
  unfolding parse_opened packet_len
  parse_opened-inner r left cut = ground (arith, inner_first, left, cut)

pub payload_of_inner_alone :
    (payload pad_bytes : Bytes)
    → length pad_bytes < 256
    → take
        (packet_len payload pad_bytes - length pad_bytes - 1)
        (drop 1 (inner_part payload pad_bytes))
      ≡ payload
payload_of_inner_alone payload pad_bytes small =
    rw append-nil at (payload_of_inner payload pad_bytes [] small)
