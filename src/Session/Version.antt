-- ===== src/Session/Version.antt =====
-- The phase VERSION of esp-idf/src/sshd_session.cpp: the version lines of both sides, and the
-- KEXINIT that follows them.
use sshd.Base.{
  ℕ, suc, ◌+◌, ◌-◌, Bool, true, false, not, ◌&&◌, ◌==◌, Option, none, some, Bytes, [], ◌∷◌, ◌++◌,
  ltb, if◌then◌else◌, length, take, drop, get_or, out_array, bytes_eq, codes,
}
use sshd.Platform.{Platform}
use sshd.Session.{World, kex_wait_kexinit, with_session, our_version_str}
use sshd.Session.Packet.{send_raw_tcp, send_packet, send_disconnect}
use sshd.Session.Names.{build_kexinit_payload}

unfoldable pub send_our_version : World → World
send_our_version w =
    let w1 = with_session w (record w.session { our_version = our_version_str }) in
    send_raw_tcp w1 (our_version_str ++ (13 ∷ 10 ∷ []))

module _ (env : Platform) where
  unfoldable pub send_our_kexinit : World → World
  send_our_kexinit w =
      let payload = build_kexinit_payload (out_array 16 (env.random w.draws 16)) in
      let w1 = record w {
        session = record w.session { our_kex_init = payload };
        draws = w.draws + 1;
      } in
      send_packet env w1 payload

-- `rxBuf.find('\n')`
unfoldable pub find_byte : ℕ → Bytes → Option ℕ
find_byte b [] = none
find_byte b (x ∷ r) =
    let rest = find_byte b r in
    if x == b then some 0 else elim rest [ none ↦ none | some i ↦ some (suc i) ]

unfoldable pub version_line : Bytes → ℕ → Bytes
version_line buf nl =
    if ltb 0 nl && get_or buf (nl - 1) 0 == 13 then take (nl - 1) buf else take nl buf

unfoldable pub accept_version : Platform → World → ℕ → Bool × World
accept_version env w nl =
    let line = version_line w.session.rx_buf nl in
    let w1 =
      with_session w
        (record w.session { peer_version = line; rx_buf = drop (nl + 1) w.session.rx_buf }) in
    if not (bytes_eq (take 4 line) (codes "SSH-"))
    then (false, send_disconnect env w1 2 (codes "not an SSH client"))
    else (if not (bytes_eq (take 8 line) (codes "SSH-2.0-"))
        then (false, send_disconnect env w1 2 (codes "SSH protocol version must be 2.0"))
        else (let w2 = send_our_kexinit env w1 in
            (true, with_session w2 (record w2.session { phase = kex_wait_kexinit }))))

unfoldable pub consume_version : Platform → World → Bool × World
consume_version env w = elim (find_byte 10 w.session.rx_buf) [
  | none ↦
      if ltb 1024 (length w.session.rx_buf)
      then (false, send_disconnect env w 2 (codes "preamble too long"))
      else (false, w)
  | some nl ↦ accept_version env w nl
]
