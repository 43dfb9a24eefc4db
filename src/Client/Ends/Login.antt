-- ===== src/Client/Ends/Login.antt =====
-- The version exchange, the key exchange and the login of the client end, but for waits.
use sshd.Base.{
  ℕ, ◌+◌, ◌<◌, ◌≡◌, inl, inr, sym, subst, not, ◌&&◌, ◌==◌, Bytes, some, [], ◌∷◌, length, take, drop,
  codes, bytes_eq, Bool-cases, Option-cases, length-drop, arith,
}
use sshd.Platform.{Platform}
use sshd.Session.Version.{find_byte, version_line}
use sshd.Client.{Outbound, Device, waiting, Action, fail, with_cs}
use sshd.Client.Packet.{to_come, fill_rx, is_over}
use sshd.Client.Packet.Progress.{List-cases, fill_rx_smaller, with_cs_smaller}
use sshd.Client.Ends.{
  Waits, Ends, for_ever_property, >>=-Ends, >>-Ends, pure-Ends, get-Ends, modify-Ends, fail_if-Ends,
  or_fail-Ends, recv_packet-Ends,
}
use sshd.Client.Kex.{
  Reply, accept_banner, read_line, version_round, do_version, expect, accept_kexinit, send_kex_init,
  parse_reply, compute_secret, check_known_host, accept_reply, start_kex, take_reply, switch_keys,
  do_kex,
}

read_line-Waits :
    (next : Action Unit) (w : Outbound)
    → ((v : Outbound) → to_come v < to_come w → Waits (next v))
    → Waits (read_line next w)
unfolding read_line fail
read_line-Waits next w later = elim (List-cases w.script) [
  | inl none_left ↦
      let e : read_line next w ≡ (waiting, w) = ground (arith, none_left) in
      subst Waits (sym e) (λ _. none_left)
  | inr (r, rest, e) ↦
      let w1 = fill_rx w r rest in
      let gone = length (take 1024 r.bytes) == 0 && not r.connected && length w1.cs.rx_buf == 0 in
      elim (Bool-cases gone) [
        | inl lost ↦ λ h. absurd (ground (arith, e, lost, h))
        | inr stays ↦
            let f : read_line next w ≡ next w1 = ground (arith, e, stays) in
            subst Waits (sym f) (later w1 (fill_rx_smaller w r rest e))
      ]
]

find_byte_bound : (b : ℕ) (t : Bytes) (i : ℕ) → find_byte b t ≡ some i → i < length t
unfolding find_byte
find_byte_bound b [] i e = cc
find_byte_bound b (x ∷ r) i e = elim (Option-cases (find_byte b r)) [
  | inl nowhere ↦ ground (arith, nowhere)
  | inr (j, there) ↦ ground (arith, there, find_byte_bound b r j there)
]

accept_banner-Ends : (line : Bytes) → Ends (accept_banner line)
unfolding accept_banner fail
accept_banner-Ends line w h = ground arith

version_round-Waits :
    (deadline : ℕ) (next : Action Unit) (w : Outbound)
    → ((v : Outbound) → to_come v < to_come w → Waits (next v))
    → Waits (version_round deadline next w)
unfolding version_round fail
version_round-Waits deadline next w later = elim (Option-cases (find_byte 10 w.cs.rx_buf)) [
  | inl no_line ↦ elim (Bool-cases (is_over deadline w.ticks)) [
    | inl past ↦ λ h. absurd (ground (arith, no_line, past, h))
    | inr before ↦
        let f : version_round deadline next w ≡ read_line next w =
          ground (arith, no_line, before) in
        subst Waits (sym f) (read_line-Waits next w later)
  ]
  | inr (nl, there) ↦
      let line = version_line w.cs.rx_buf nl in
      let c = record w.cs { rx_buf = drop (nl + 1) w.cs.rx_buf } in
      let less : length c.rx_buf < length w.cs.rx_buf =
        omega (arith, length-drop (nl + 1) w.cs.rx_buf, find_byte_bound 10 w.cs.rx_buf nl there) in
      elim (Bool-cases (bytes_eq (take 4 line) (codes "SSH-"))) [
        | inl banner ↦
            let f : version_round deadline next w ≡ accept_banner line (with_cs w c) =
              ground (arith, there, banner) in
            subst Waits (sym f) (accept_banner-Ends line (with_cs w c))
        | inr other ↦
            let f : version_round deadline next w ≡ next (with_cs w c) =
              ground (arith, there, other) in
            subst Waits (sym f) (later (with_cs w c) (with_cs_smaller w c less))
      ]
]

pub do_version-Ends : (dev : Device) → Ends (do_version dev)
unfolding do_version
do_version-Ends dev w = for_ever_property (λ _. Waits) (version_round _) (version_round-Waits _) _

module _ (env : Platform) (dev : Device) where
  pub expect-Ends :
      (overall_ms n : ℕ) (lost other : Bytes) → Ends (expect env dev overall_ms n lost other)
  unfolding expect
  expect-Ends overall_ms n lost other =
      >>=-Ends _ _ (recv_packet-Ends env dev overall_ms) (λ x.
        >>-Ends _ _ (fail_if-Ends _ lost) (>>-Ends _ _ (fail_if-Ends _ other) (pure-Ends x.1)))

  accept_kexinit-Ends : (pkt : Bytes) → Ends (accept_kexinit env dev pkt)
  unfolding accept_kexinit fail
  accept_kexinit-Ends pkt w h = absurd (ground (arith, h))

  send_kex_init-Ends : Ends (send_kex_init env dev)
  unfolding send_kex_init fail
  send_kex_init-Ends w h = absurd (ground (arith, h))

  parse_reply-Ends : (pkt : Bytes) → Ends (parse_reply env dev pkt)
  unfolding parse_reply
  parse_reply-Ends pkt = >>=-Ends _ _ (or_fail-Ends _ _) (λ k_blob.
      >>=-Ends _ _ (or_fail-Ends _ _) (λ q_s.
        >>=-Ends _ _ (or_fail-Ends _ _) (λ sig_blob. >>-Ends _ _ (modify-Ends _) (pure-Ends _))))

  compute_secret-Ends : (k_blob : Bytes) → Ends (compute_secret env dev k_blob)
  unfolding compute_secret fail
  compute_secret-Ends k_blob w h = absurd (ground (arith, h))

  check_known_host-Ends : (k_blob : Bytes) → Ends (check_known_host env dev k_blob)
  unfolding check_known_host fail
  check_known_host-Ends k_blob w h = absurd (ground (arith, h))

  accept_reply-Ends : (reply : Reply) → Ends (accept_reply env dev reply)
  unfolding accept_reply
  accept_reply-Ends reply = >>=-Ends _ _ (or_fail-Ends _ _) (λ host_key.
      >>=-Ends _ _ (or_fail-Ends _ _) (λ hpub. >>=-Ends _ _ (or_fail-Ends _ _) (λ signature.
        >>=-Ends _ _ (or_fail-Ends _ _) (λ sig64. >>-Ends _ _ (compute_secret-Ends reply.k_blob) (
          >>=-Ends _ _ get-Ends
            (λ w. >>-Ends _ _ (fail_if-Ends _ _) (check_known_host-Ends reply.k_blob)))))))

  pub do_kex-Ends : Ends (do_kex env dev)
  unfolding do_kex start_kex take_reply switch_keys
  do_kex-Ends =
      >>-Ends _ _
        (>>-Ends _ _ (modify-Ends _) (
          >>=-Ends _ _ (expect-Ends _ _ _ _)
            (λ kexinit. >>-Ends _ _ (accept_kexinit-Ends kexinit) send_kex_init-Ends)))
        (>>-Ends _ _
          (>>=-Ends _ _ (expect-Ends _ _ _ _)
            (λ pkt. >>=-Ends _ _ (parse_reply-Ends pkt) accept_reply-Ends))
          (>>-Ends _ _ (modify-Ends _) (>>-Ends _ _ (expect-Ends _ _ _ _) (modify-Ends _))))
