-- ===== src/Session/Packet/RoundTrip.antt =====
-- A receiver with the sender's key and sequence number reads back what was framed.
use sshd.Base.{
  take_at, drop_at, drop_two, drop_three, ℕ, ◌+◌, ◌%◌, ◌^◌, ◌≤◌, ◌<◌, ◌≡◌, ◌∙◌, sym, ap, Bool-cases,
  inl, inr, Bool, true, false, some, Bytes, IsByte, All, [], ◌++◌, length, take, drop,
  length-append, append_assoc, append-nil, All-append, arith,
}
use native.Mathlib.Nat.{mod-eq_of_lt}
use sshd.Wire.{big_endian_32}
use sshd.Platform.{Platform}
use sshd.Crypto.{cc20p1305_length, cc20p1305_seal, cc20p1305_open}
use sshd.Crypto.Aead.{
  StreamCipher, length-cc20p1305_length, cc20p1305_open-seal, cc20p1305_length_twice,
}
use sshd.Session.{Session}
use sshd.Session.Packet.{
  padding, framed, got, next_seq, length_field, parse_plain, parse_opened, parse_sealed,
  parse_packet,
}
use sshd.Session.Packet.Padding.{padding_bounds}
use sshd.Session.Packet.Layout.{
  length_field-big_endian, length_header, packet_len, inner_part, length-inner, buffer,
  parse_plain_framed, parse_opened-inner, payload_of_inner_alone,
}

big_endian_32-IsByte : (n : ℕ) → All IsByte (big_endian_32 n)
unfolding big_endian_32
big_endian_32-IsByte n = omega arith

inner_part-IsByte :
    (payload pad_bytes : Bytes)
    → All IsByte payload
    → All IsByte pad_bytes
    → All IsByte (inner_part payload pad_bytes)
unfolding inner_part
inner_part-IsByte payload pad_bytes hp hq = (omega arith, All-append payload pad_bytes hp hq)

-- `parse_packet` on a buffer that is known in parts.
parse_sealed_parts :
    (env : Platform) (r : Session) (plen : ℕ) (enc_len ct tag rest plain : Bytes)
    → r.rx_buf ≡ enc_len ++ (ct ++ (tag ++ rest))
    → length enc_len ≡ 4
    → length ct ≡ plen
    → length tag ≡ 16
    → length_field (cc20p1305_length env (drop 32 r.c2s_key) r.seq_in enc_len) ≡ plen
    → cc20p1305_open env (take 32 r.c2s_key) r.seq_in enc_len ct tag ≡ some plain
    → 8 ≤ plen
    → plen ≤ 35000
    → parse_sealed env r ≡ parse_opened plen plain r
unfolding parse_sealed
parse_sealed_parts env r plen enc_len ct tag rest plain e h4 hc ht hf ho lo hi = ground (
  arith,
  ap (λ b. take 4 b) e ∙ take_at 4 enc_len (ct ++ (tag ++ rest)) h4,
  ap (λ b. take plen (drop 4 b)) e
      ∙ ap (λ b. take plen b) (drop_at 4 enc_len (ct ++ (tag ++ rest)) h4)
      ∙ take_at plen ct (tag ++ rest) hc,
  ap (λ b. take 16 (drop (4 + plen) b)) e
      ∙ ap (λ b. take 16 b) (drop_two 4 plen enc_len ct (tag ++ rest) h4 hc)
      ∙ take_at 16 tag rest ht,
  ap length e,
  length-append enc_len (ct ++ (tag ++ rest)),
  length-append ct (tag ++ rest),
  length-append tag rest,
)

module _ (env : Platform) (laws : StreamCipher env) (payload pad_bytes rest : Bytes)
    (small : length pad_bytes < 256) (bytes : All IsByte (inner_part payload pad_bytes)) where
  parse_sealed_framed :
      (r : Session)
      → 8 ≤ packet_len payload pad_bytes
      → packet_len payload pad_bytes ≤ 35000
      → let len_be = big_endian_32 (packet_len payload pad_bytes) in
        let enc_len = cc20p1305_length env (drop 32 r.c2s_key) r.seq_in len_be in
        let (_, ct, tag) =
          cc20p1305_seal env (take 32 r.c2s_key) r.seq_in enc_len (inner_part payload pad_bytes) in
        r.rx_buf ≡ enc_len ++ (ct ++ (tag ++ rest))
        → parse_sealed env r ≡ (got payload, record r { rx_buf = rest; seq_in = next_seq r.seq_in })
  parse_sealed_framed r lo hi e =
      let plen = packet_len payload pad_bytes in
      let inner = inner_part payload pad_bytes in
      let k1 = drop 32 r.c2s_key in
      let len_be = big_endian_32 plen in
      let enc_len = cc20p1305_length env k1 r.seq_in len_be in
      let sealed = cc20p1305_seal env (take 32 r.c2s_key) r.seq_in enc_len inner in
      let (_, same, sixteen, opened) =
        cc20p1305_open-seal env laws (take 32 r.c2s_key) r.seq_in enc_len inner bytes in
      let ct_len : length sealed.1 ≡ plen = same ∙ length-inner payload pad_bytes rest small in
      let four = length-cc20p1305_length env k1 r.seq_in len_be in
      let field : length_field (cc20p1305_length env k1 r.seq_in enc_len) ≡ plen =
        ap length_field (
          cc20p1305_length_twice env laws k1 r.seq_in len_be (big_endian_32-IsByte plen)
            (length_header plen)
          ∙ sym (append-nil len_be))
        ∙ length_field-big_endian plen [] (omega arith) in
      let left : drop (4 + plen + 16) r.rx_buf ≡ rest =
        ap (λ b. drop (4 + plen + 16) b) e
        ∙ drop_three 4 plen 16 enc_len sealed.1 sealed.2 rest four ct_len sixteen in
      parse_sealed_parts env r plen enc_len sealed.1 sealed.2 rest inner e four ct_len sixteen field
        opened lo hi
      ∙ parse_opened-inner payload pad_bytes rest small r left
          (payload_of_inner_alone payload pad_bytes small)

header_of_packet :
    (payload pad_bytes : Bytes)
    → length payload ≤ 34980
    → length pad_bytes ≤ 15
    → big_endian_32 ((1 + length payload + length pad_bytes) % 2 ^ 32)
      ≡ big_endian_32 (packet_len payload pad_bytes)
unfolding packet_len
header_of_packet payload pad_bytes hp hq = ap big_endian_32 (mod-eq_of_lt (omega arith))

framed_plain :
    (env : Platform) (key : Bytes) (seq : ℕ) (pad_bytes payload rest : Bytes)
    → length payload ≤ 34980
    → length pad_bytes ≤ 15
    → framed env false key seq pad_bytes payload ++ rest
      ≡ big_endian_32 (packet_len payload pad_bytes) ++ (inner_part payload pad_bytes ++ rest)
unfolding framed inner_part
framed_plain env key seq pad_bytes payload rest hp hq =
    rw (header_of_packet payload pad_bytes hp hq) (
      append_assoc (big_endian_32 (packet_len payload pad_bytes)) (inner_part payload pad_bytes)
        rest)

framed_sealed :
    (env : Platform) (key : Bytes) (seq : ℕ) (pad_bytes payload rest : Bytes)
    → length payload ≤ 34980
    → length pad_bytes ≤ 15
    → let enc_len =
        cc20p1305_length env (drop 32 key) seq (big_endian_32 (packet_len payload pad_bytes)) in
      let (_, ct, tag) =
        cc20p1305_seal env (take 32 key) seq enc_len (inner_part payload pad_bytes) in
      framed env true key seq pad_bytes payload ++ rest ≡ enc_len ++ (ct ++ (tag ++ rest))
unfolding framed inner_part
framed_sealed env key seq pad_bytes payload rest hp hq =
    rw (header_of_packet payload pad_bytes hp hq) (
      rw append_assoc (
        ap
          (λ t.
            cc20p1305_length env (drop 32 key) seq (big_endian_32 (packet_len payload pad_bytes))
            ++ t)
          (append_assoc _ _ rest)))

parse_packet_on :
    (env : Platform) (r : Session) → r.enc_inbound ≡ true → parse_packet env r ≡ parse_sealed env r
unfolding parse_packet
parse_packet_on env r on = ground arith

parse_packet_off :
    (env : Platform) (r : Session) → r.enc_inbound ≡ false → parse_packet env r ≡ parse_plain r
unfolding parse_packet
parse_packet_off env r off = ground arith

-- Under the documented laws of the cipher, the packet that `send_packet` frames, of a payload of at
-- most 34980 bytes with as much padding as `padding` says, is read back by a receiver whose inbound
-- side is in the same mode and has the same key and sequence number: with anything behind it in the
-- buffer, `parse_packet` returns the payload, counts the packet, and leaves the rest.
pub parse_packet-framed :
    (env : Platform) (r : Session) (payload pad_bytes rest : Bytes)
    → StreamCipher env
    → All IsByte payload
    → All IsByte pad_bytes
    → length pad_bytes ≡ padding r.enc_inbound (length payload)
    → length payload ≤ 34980
    → r.rx_buf ≡ framed env r.enc_inbound r.c2s_key r.seq_in pad_bytes payload ++ rest
    → parse_packet env r ≡ (got payload, record r { rx_buf = rest; seq_in = next_seq r.seq_in })
unfolding buffer
parse_packet-framed env r payload pad_bytes rest laws hp hq pad len e =
    let (_, few, sealed_fits, plain_fits) = padding_bounds r.enc_inbound (length payload) in
    let in_mode = λ (b : Bool) (on : r.enc_inbound ≡ b).
      ap (λ m. framed env m r.c2s_key r.seq_in pad_bytes payload ++ rest) on in
    elim (Bool-cases r.enc_inbound) [
      | inl on ↦
          parse_packet_on env r on
          ∙ (parse_sealed_framed env laws payload pad_bytes rest (omega arith)
              (inner_part-IsByte payload pad_bytes hp hq) r
              (unfold packet_len in omega (arith, sealed_fits on))
              (unfold packet_len in omega arith)
              (e
                ∙ in_mode true on
                ∙ framed_sealed env r.c2s_key r.seq_in pad_bytes payload rest len (omega arith)))
      | inr off ↦
          parse_packet_off env r off
          ∙ (parse_plain_framed payload pad_bytes rest (omega arith) r
              (unfold packet_len in omega (arith, plain_fits off))
              (unfold packet_len in omega arith)
              (e
                ∙ in_mode false off
                ∙ framed_plain env r.c2s_key r.seq_in pad_bytes payload rest len (omega arith)))
    ]
