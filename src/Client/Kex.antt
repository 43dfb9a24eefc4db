-- ===== src/Client/Kex.antt =====
-- The version exchange and the key exchange of esp-idf/src/ssh_client.cpp: `do_version` and `do_kex`.
pub mod Parts
pub mod Keys
pub mod Trusted
pub mod Trust
use sshd.Base.{
  ℕ, zero, suc, ◌+◌, ◌-◌, ◌%◌, ◌^◌, Bool, true, false, not, ◌&&◌, ◌||◌, ◌==◌, Option, none, some,
  Bytes, List, [], ◌∷◌, ◌++◌, ltb, if◌then◌else◌, length, take, drop, out_array, bytes_eq, codes,
}
use sshd.Wire.{view_init, get_string, put_u8, put_string}
use sshd.Platform.{Platform}
use sshd.Crypto.{x25519_base, x25519_scalar, ed25519_verify}
use sshd.Session.{ssh_ed25519}
use sshd.Session.Msg
use sshd.Session.Version.{find_byte, version_line}
use sshd.Client.{
  Csess, Outbound, Device, Answer, ok, waiting, Action, with_cs, our_client_version_str, ◌>>=◌,
  ◌>>◌, pure, get, modify, fail, fail_if, or_fail,
}
use sshd.Client.Packet.{
  send_raw, send_packet, fill_rx, is_over, is_negative, is_number, for_ever, recv_packet,
}
use sshd.Client.Hash.{compute_exchange_hash, derive_key}
use sshd.Client.KnownHosts.{hostkey_fingerprint, known_hosts_check}
use sshd.Client.Kexinit.{put_kexinit, Checked, good, unreadable, missing, check_kexinit}

-- ---- do_version ----

-- A line that begins with "SSH-".
unfoldable pub accept_banner : Bytes → Action Unit
accept_banner line w =
    if not (bytes_eq (take 8 line) (codes "SSH-2.0-"))
      && not (bytes_eq (take 8 line) (codes "SSH-1.99"))
    then fail (codes "server is not SSH-2.0") w
    else (ok tt, with_cs w (record w.cs { peer_version = line }))

-- The end of a round: one read, with the rounds behind it.
unfoldable pub read_line : Action Unit → Action Unit
read_line next w = elim w.script [
  | [] ↦ (waiting, w)
  | r ∷ rest ↦
      let w1 = fill_rx w r rest in
      elim (length (take 1024 r.bytes) == 0 && not r.connected && length w1.cs.rx_buf == 0) [
        | true ↦ fail (codes "connection closed during banner") w1
        | false ↦ next w1
      ]
]

-- The `for (;;)`.
unfoldable pub version_round : ℕ → Action Unit → Action Unit
version_round deadline next w = elim (find_byte 10 w.cs.rx_buf) [
  | some nl ↦
      let line = version_line w.cs.rx_buf nl in
      let w1 = with_cs w (record w.cs { rx_buf = drop (nl + 1) w.cs.rx_buf }) in
      elim (bytes_eq (take 4 line) (codes "SSH-")) [
        | true ↦ accept_banner line w1
        | false ↦ next w1
      ]
  | none ↦ elim (is_over deadline w.ticks) [
    | true ↦ fail (codes "no SSH banner from server") w
    | false ↦ read_line next w
  ]
]

unfoldable pub do_version : Device → Action Unit
do_version dev w =
    let w1 = with_cs w (record w.cs { our_version = our_client_version_str }) in
    let w2 = send_raw w1 (our_client_version_str ++ (13 ∷ 10 ∷ [])) in
    for_ever (version_round ((w2.ticks + dev.ms_to_ticks 10000) % 2 ^ 32)) w2

-- ---- do_kex ----

-- KEX_ECDH_REPLY: K_S, Q_S and the signature blob; the text of the failure where one is missing.
pub record Reply : Type 0 where
  pub k_blob : Bytes
  pub q_s : Bytes
  pub sig_blob : Bytes

-- Two strings, the first of them `ssh-ed25519`: the second. `none` with no first string or another
-- name, `some none` with no second string.
unfoldable pub ed25519_blob : Bytes → Option (Option Bytes)
ed25519_blob blob =
    let (alg, v) = get_string (view_init blob) in
    elim alg [
      | none ↦ none
      | some name ↦ if not (bytes_eq name ssh_ed25519) then none else some (get_string v).0
    ]

-- The second string, where it has the length.
abbrev pub sized : ℕ → Option Bytes → Option Bytes
sized n none = none
sized n (some d) = if not (length d == n) then none else some d

module _ (env : Platform) (dev : Device) where
  -- The next packet, which must have the number.
  unfoldable pub expect : ℕ → ℕ → Bytes → Bytes → Action Bytes
  expect overall_ms n lost other = do
    (t, pkt) ← recv_packet env dev overall_ms
    fail_if (is_negative t) lost
    fail_if (not (is_number t n)) other
    pure pkt

  unfoldable pub send_kexinit : Outbound → Outbound
  send_kexinit w =
      let payload = put_kexinit [] (out_array 16 (env.random w.draws 16)) in
      let w1 = record w { cs = record w.cs { our_kex_init = payload }; draws = w.draws + 1 } in
      send_packet env w1 payload

  -- The failure's text, where `e` is an array of 120 bytes that nothing has written.
  unfoldable pub accept_kexinit : Bytes → Action Unit
  accept_kexinit pkt w =
      let w1 = with_cs w (record w.cs { peer_kex_init = pkt }) in
      elim (check_kexinit pkt) [
        | good ↦ (ok tt, w1)
        | unreadable ↦ fail (env.stale 120) w1
        | missing text ↦ fail text w1
      ]

  unfoldable pub send_kex_init : Action Unit
  send_kex_init w =
      let eph_priv = out_array 32 (env.random w.draws 32) in
      let w1 = record w { cs = record w.cs { eph_priv = eph_priv }; draws = w.draws + 1 } in
      elim (x25519_base env eph_priv) [
        | none ↦ fail (codes "x25519 base failed") w1
        | some eph_pub ↦
            let w2 = with_cs w1 (record w1.cs { eph_pub = eph_pub }) in
            (ok tt, send_packet env w2 (put_string (put_u8 [] Msg.kex_ecdh_init) eph_pub))
      ]

  unfoldable pub parse_reply : Bytes → Action Reply
  parse_reply pkt =
      let (ks, v1) = get_string (view_init (drop 1 pkt)) in
      let (qs, v2) = get_string v1 in
      do
        k_blob ← or_fail ks (codes "bad REPLY (K_S)")
        q_s ← or_fail (sized 32 qs) (codes "bad REPLY (Q_S)")
        sig_blob ← or_fail (get_string v2).0 (codes "bad REPLY (sig)")
        modify (λ w. with_cs w (record w.cs { peer_eph_pub = q_s }))
        pure (record { k_blob = k_blob; q_s = q_s; sig_blob = sig_blob })

  -- K and H.
  unfoldable pub compute_secret : Bytes → Action Unit
  compute_secret k_blob w = elim (x25519_scalar env w.cs.eph_priv w.cs.peer_eph_pub) [
    | none ↦ fail (codes "x25519 scalar failed") w
    | some k ↦
        let c = record w.cs { shared_k = k } in
        (ok tt, with_cs w (record c { session_id = compute_exchange_hash env c k_blob }))
  ]

  unfoldable pub check_known_host : Bytes → Action Unit
  check_known_host k_blob w =
      let (good_key, text, entries) =
        known_hosts_check w.job.host (hostkey_fingerprint env k_blob) w.known_hosts in
      let w1 = record w { known_hosts = entries } in if good_key then (ok tt, w1) else fail text w1

  -- The host key and the signature of the reply, up to the known hosts.
  unfoldable pub accept_reply : Reply → Action Unit
  accept_reply reply = do
    host_key ← or_fail (ed25519_blob reply.k_blob) (codes "host key not ssh-ed25519")
    hpub ← or_fail (sized 32 host_key) (codes "bad host pubkey")
    signature ← or_fail (ed25519_blob reply.sig_blob) (codes "host sig not ssh-ed25519")
    sig64 ← or_fail (sized 64 signature) (codes "bad host signature")
    compute_secret reply.k_blob
    w ← get
    fail_if (not (ed25519_verify env hpub w.cs.session_id sig64))
        (codes "HOST SIGNATURE VERIFY FAILED")
    check_known_host reply.k_blob

  -- NEWKEYS of this side, and the keys.
  unfoldable pub switch_out : Outbound → Outbound
  switch_out w =
      let w1 = send_packet env w (put_u8 [] Msg.newkeys) in
      let c1 = record w1.cs { send_key = derive_key env w1.cs b'C' 64 } in
      with_cs w1 (record c1 { recv_key = derive_key env c1 b'D' 64; enc_out = true })

  -- Both KEXINITs, and this side's ephemeral key.
  unfoldable pub start_kex : Action Unit
  start_kex = do
    modify send_kexinit
    kexinit ← expect 15000 Msg.kexinit (codes "no KEXINIT from server") (codes "expected KEXINIT")
    accept_kexinit kexinit
    send_kex_init

  unfoldable pub take_reply : Action Unit
  take_reply = do
    pkt ←
        expect 15000 Msg.kex_ecdh_reply (codes "no KEX_ECDH_REPLY")
          (codes "expected KEX_ECDH_REPLY")
    reply ← parse_reply pkt
    accept_reply reply

  unfoldable pub switch_keys : Action Unit
  switch_keys = do
    modify switch_out
    expect 15000 Msg.newkeys (codes "no NEWKEYS from server") (codes "expected NEWKEYS")
    modify (λ w. with_cs w (record w.cs { enc_in = true }))

  unfoldable pub do_kex : Action Unit
  do_kex = do start_kex; take_reply; switch_keys
