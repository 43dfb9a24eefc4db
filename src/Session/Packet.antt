-- ===== src/Session/Packet.antt =====
-- The binary packet layer of esp-idf/src/sshd_session.cpp: `send_packet`, `parse_packet` and the
-- two other functions that write to the transport.
pub mod Padding
pub mod Frame
pub mod Parse
pub mod Layout
pub mod RoundTrip
use sshd.Base.{
  ℕ, suc, ◌+◌, ◌-◌, ◌*◌, ◌%◌, ◌^◌, Bool, true, false, not, ◌&&◌, ◌||◌, ◌==◌, Option, none, some,
  Bytes, List, [], ◌∷◌, ◌++◌, ltb, leb, if◌then◌else◌, length, take, drop, get_or, out_array,
}
use sshd.Wire.{put_u8, put_u32, put_cstring, big_endian_32, value_32}
use sshd.Platform.{Platform, Event, sent, disconnected}
use sshd.Crypto.{cc20p1305_length, cc20p1305_seal, cc20p1305_open}
use sshd.Session.{Session, World, Phase, closed, phase_eq, note, with_session}
use sshd.Session.Msg

-- `pad` in `send_packet`, with encryption on or off, for a payload of the length.
unfoldable pub padding : Bool → ℕ → ℕ
padding enc_outbound pay_len =
    let pad = 8 - (1 + pay_len) % 8 in
    let wide = if ltb pad 4 then pad + 8 else pad in
    if not enc_outbound && not ((4 + 1 + pay_len + wide) % 8 == 0) then wide + 4 else wide

abbrev pub no_tcp : Option ℕ → Bool
no_tcp none = true
no_tcp (some handle) = false

unfoldable pub send_raw_tcp : World → Bytes → World
send_raw_tcp w bytes = if no_tcp w.session.tcp then w else note w (sent w.session.tcp bytes)

module _ (env : Platform) where
  -- The bytes of the packet: `pad_bytes` came from `randomBytes`.
  unfoldable pub framed : Bool → Bytes → ℕ → Bytes → Bytes → Bytes
  framed enc_outbound key seq pad_bytes payload =
      let pad = length pad_bytes in
      let len_be = big_endian_32 ((1 + length payload + pad) % 2 ^ 32) in
      let inner = pad % 256 ∷ (payload ++ pad_bytes) in
      if enc_outbound
      then (let enc_len = cc20p1305_length env (drop 32 key) seq len_be in
          let (_, enc_inner, tag) = cc20p1305_seal env (take 32 key) seq enc_len inner in
          enc_len ++ (enc_inner ++ tag))
      else len_be ++ inner

  unfoldable pub send_packet : World → Bytes → World
  send_packet w payload =
      let s = w.session in
      let pad = padding s.enc_outbound (length payload) in
      let pad_bytes = out_array pad (env.random w.draws pad) in
      let packet = framed s.enc_outbound s.s2c_key s.seq_out pad_bytes payload in
      if phase_eq s.phase closed || no_tcp s.tcp
      then w
      else (let w1 = send_raw_tcp (record w { draws = w.draws + 1 }) packet in
          with_session w1 (record w1.session { seq_out = (s.seq_out + 1) % 2 ^ 64 }))

  unfoldable pub send_disconnect : World → ℕ → Bytes → World
  send_disconnect w reason msg =
      let p = put_cstring (put_cstring (put_u32 (put_u8 [] Msg.disconnect) reason) msg) [] in
      let w1 = send_packet w p in
      let w2 = with_session w1 (record w1.session { phase = closed }) in
      note w2 (disconnected w2.session.tcp)

-- 1, 0 and -1.
pub data Parsed : Type 0 where
  got : Bytes → Parsed
  need_more : Parsed
  broken : Parsed

abbrev pub next_seq : ℕ → ℕ
next_seq n = (n + 1) % 2 ^ 64

-- The first four bytes as the length field.
unfoldable pub length_field : Bytes → ℕ
length_field b = value_32 (get_or b 0 0) (get_or b 1 0) (get_or b 2 0) (get_or b 3 0)

unfoldable pub parse_plain : Session → Parsed × Session
parse_plain s =
    let plen = length_field s.rx_buf in
    let pad_len = get_or s.rx_buf 4 0 in
    if ltb (length s.rx_buf) 5
    then (need_more, s)
    else (if ltb plen 8 || ltb 35000 plen
        then (broken, s)
        else (if ltb (length s.rx_buf) (4 + plen)
            then (need_more, s)
            else (if ltb plen (pad_len + 1) then (broken, s) else (
              got (take (plen - pad_len - 1) (drop 5 s.rx_buf)),
              record s { rx_buf = drop (4 + plen) s.rx_buf; seq_in = next_seq s.seq_in },
            ))))

-- The last step of `parse_packet` on an opened packet.
unfoldable pub parse_opened : ℕ → Bytes → Session → Parsed × Session
parse_opened plen plain s =
    let pad_len = get_or plain 0 0 in
    if ltb plen (pad_len + 1) then (broken, s) else (
      got (take (plen - pad_len - 1) (drop 1 plain)),
      record s { rx_buf = drop (4 + plen + 16) s.rx_buf; seq_in = next_seq s.seq_in },
    )

module _ (env : Platform) where
  unfoldable pub parse_sealed : Session → Parsed × Session
  parse_sealed s =
      let enc_len = take 4 s.rx_buf in
      let plen = length_field (cc20p1305_length env (drop 32 s.c2s_key) s.seq_in enc_len) in
      let ct = take plen (drop 4 s.rx_buf) in
      let tag = take 16 (drop (4 + plen) s.rx_buf) in
      if ltb (length s.rx_buf) 4
      then (need_more, s)
      else (if ltb plen 8 || ltb 35000 plen
          then (broken, s)
          else (if ltb (length s.rx_buf) (4 + plen + 16)
              then (need_more, s)
              else elim (cc20p1305_open env (take 32 s.c2s_key) s.seq_in enc_len ct tag) [
                | none ↦ (broken, s)
                | some plain ↦ parse_opened plen plain s
              ]))

  unfoldable pub parse_packet : Session → Parsed × Session
  parse_packet s = if not s.enc_inbound then parse_plain s else parse_sealed s
