-- ===== src/Client/Kex/Parts.antt =====
-- The parts of the client's key exchange, where they succeed.
use sshd.Base.{
  ℕ, ◌+◌, ◌≡◌, ◌⊎◌, inl, inr, refl, sym, ap, ap₂, subst, ◌∙◌, Bool, true, false, not, ◌==◌, Bytes,
  [], Option, none, some, Bool-cases, Option-cases, arith, length, out_array,
}
use sshd.Platform.{Platform}
use sshd.Crypto.{x25519_base, x25519_scalar}
use sshd.Wire.{put_u8, put_string}
use sshd.Session.Msg
use sshd.Client.{Outbound, Device, ok, fail, fail_if, with_cs}
use sshd.Client.Steps.{>>=-ok, >>-ok, fail_if-ok, or_fail-ok, pure-ok, modify-ok}
use sshd.Client.Packet.{Code, is_negative, is_number, recv_packet, send_packet}
use sshd.Client.Packet.Frame.{Moved, send_packet-Moved}
use sshd.Client.Packet.Receive.{recv_packet-Moved}
use sshd.Client.Hash.{compute_exchange_hash}
use sshd.Client.KnownHosts.{hostkey_fingerprint, known_hosts_check}
use sshd.Client.Kexinit.{Checked, good, unreadable, missing, check_kexinit}
use sshd.Client.Kex.{
  Reply, sized, expect, accept_kexinit, send_kex_init, parse_reply, compute_secret,
  check_known_host,
}

Checked-cases :
    (c : Checked) → (c ≡ good) ⊎ ((c ≡ unreadable) ⊎ ((text : Bytes) × (c ≡ missing text)))
Checked-cases good = inl refl
Checked-cases unreadable = inr (inl refl)
Checked-cases (missing text) = inr (inr (text, refl))

pub sized-some :
    (n : ℕ) (o : Option Bytes) (d : Bytes) → sized n o ≡ some d → (o ≡ some d) × (length d ≡ n)
sized-some n none d e = cc
sized-some n (some x) d e = elim (Bool-cases (length x == n)) [
  | inl same ↦ (ground (arith, same, e), ground (arith, same, e))
  | inr other ↦ absurd (ground (arith, other, e))
]

pub bool_of_not : (b : Bool) → not b ≡ false → b ≡ true
bool_of_not true e = refl
bool_of_not false e = cc

module _ (env : Platform) (dev : Device) where
  -- The packet that was received.
  pub expect-ok :
      (overall_ms n : ℕ) (lost other : Bytes) (w v : Outbound) (pkt : Bytes)
      → expect env dev overall_ms n lost other w ≡ (ok pkt, v)
      → (t : Code) × (recv_packet env dev overall_ms w ≡ (ok (t, pkt), v)) × (is_number t n ≡ true)
  unfolding expect
  expect-ok overall_ms n lost other w v pkt e =
      let ((t, got), u, received, e1) = >>=-ok (recv_packet env dev overall_ms) _ w v pkt e in
      let (_, u1, first, e2) = >>-ok (fail_if (is_negative t) lost) _ u v pkt e1 in
      let (_, u2, second, e3) = >>-ok (fail_if (not (is_number t n)) other) _ u1 v pkt e2 in
      let (_, at1) = fail_if-ok (is_negative t) lost u u1 tt first in
      let (matches, at2) = fail_if-ok (not (is_number t n)) other u1 u2 tt second in
      let (same, last) = pure-ok got pkt u2 v e3 in
      let at : v ≡ u = last ∙ at2 ∙ at1 in
      let moved : (ok (t, got), u) ≡ (ok (t, pkt), v) =
        ap₂ (λ (g : Bytes) (x : Outbound). (ok (t, g), x)) (sym same) (sym at) in
      (t, received ∙ moved, bool_of_not (is_number t n) matches)

  pub expect-Moved :
      (overall_ms n : ℕ) (lost other : Bytes) (w v : Outbound) (pkt : Bytes)
      → expect env dev overall_ms n lost other w ≡ (ok pkt, v)
      → Moved w v
  expect-Moved overall_ms n lost other w v pkt e =
      let (t, received, _) = expect-ok overall_ms n lost other w v pkt e in
      subst (Moved w) (ap (λ x. x.1) received) (recv_packet-Moved env dev overall_ms w)

  pub accept_kexinit-ok :
      (pkt : Bytes) (w v : Outbound) (b : Unit)
      → accept_kexinit env dev pkt w ≡ (ok b, v)
      → (check_kexinit pkt ≡ good) × (v ≡ with_cs w (record w.cs { peer_kex_init = pkt }))
  unfolding accept_kexinit fail
  accept_kexinit-ok pkt w v b e = elim (Checked-cases (check_kexinit pkt)) [
    | inl fine ↦ (fine, ground (arith, fine, e))
    | inr (inl bad) ↦ absurd (ground (arith, bad, e))
    | inr (inr (text, bad)) ↦ absurd (ground (arith, bad, e))
  ]

  -- The new ephemeral key, before it is sent.
  unfoldable pub with_ephemeral : Outbound → Bytes → Outbound
  with_ephemeral w eph_pub = record w {
    cs = record w.cs { eph_priv = out_array 32 (env.random w.draws 32); eph_pub = eph_pub };
    draws = w.draws + 1;
  }

  pub send_kex_init-ok :
      (w v : Outbound) (b : Unit)
      → send_kex_init env dev w ≡ (ok b, v)
      → (eph_pub : Bytes) × (x25519_base env (out_array 32 (env.random w.draws 32)) ≡ some eph_pub)
        × Moved (with_ephemeral w eph_pub) v
  unfolding send_kex_init fail with_ephemeral
  send_kex_init-ok w v b e =
      elim (Option-cases (x25519_base env (out_array 32 (env.random w.draws 32)))) [
        | inl none_made ↦ absurd (ground (arith, none_made, e))
        | inr (eph_pub, made) ↦
            let w2 = with_ephemeral w eph_pub in
            let p = put_string (put_u8 [] Msg.kex_ecdh_init) eph_pub in
            let sent : v ≡ send_packet env w2 p = ground (arith, made, e) in
            (eph_pub, made, subst (Moved w2) (sym sent) (send_packet-Moved env w2 p))
      ]

  pub parse_reply-ok :
      (pkt : Bytes) (w v : Outbound) (reply : Reply)
      → parse_reply env dev pkt w ≡ (ok reply, v)
      → v ≡ with_cs w (record w.cs { peer_eph_pub = reply.q_s })
  unfolding parse_reply
  parse_reply-ok pkt w v reply e =
      let (k_blob, w1, first, e1) = >>=-ok _ _ w v reply e in
      let (q_s, w2, second, e2) = >>=-ok _ _ w1 v reply e1 in
      let (sig_blob, w3, third, e3) = >>=-ok _ _ w2 v reply e2 in
      let (_, w4, stored, e4) = >>-ok _ _ w3 v reply e3 in
      let (same, at4) = pure-ok _ reply w4 v e4 in
      let at3 = modify-ok _ tt w3 w4 stored in
      let at2 = (or_fail-ok _ _ w2 w3 sig_blob third).1 in
      let at1 = (or_fail-ok _ _ w1 w2 q_s second).1 in
      let at0 = (or_fail-ok _ _ w w1 k_blob first).1 in
      let store = λ (q : Bytes) (x : Outbound). with_cs x (record x.cs { peer_eph_pub = q }) in
      at4
      ∙ at3
      ∙ ap (store q_s) (at2 ∙ at1 ∙ at0)
      ∙ ap (λ (q : Bytes). store q w) (sym (ap (λ (r : Reply). r.q_s) same))

  pub compute_secret-ok :
      (k_blob : Bytes) (w v : Outbound) (b : Unit)
      → compute_secret env dev k_blob w ≡ (ok b, v)
      → (k : Bytes) × (x25519_scalar env w.cs.eph_priv w.cs.peer_eph_pub ≡ some k)
        × (v
            ≡ with_cs w (record w.cs {
              shared_k = k;
              session_id = compute_exchange_hash env (record w.cs { shared_k = k }) k_blob;
            }))
  unfolding compute_secret fail
  compute_secret-ok k_blob w v b e =
      elim (Option-cases (x25519_scalar env w.cs.eph_priv w.cs.peer_eph_pub)) [
        | inl no_secret ↦ absurd (ground (arith, no_secret, e))
        | inr (k, made) ↦ (k, made, ground (arith, made, e))
      ]

  pub check_known_host-ok :
      (k_blob : Bytes) (w v : Outbound) (b : Unit)
      → check_known_host env dev k_blob w ≡ (ok b, v)
      → let fp = hostkey_fingerprint env k_blob in
        ((known_hosts_check w.job.host fp w.known_hosts).0 ≡ true)
        × (v ≡ record w { known_hosts = (known_hosts_check w.job.host fp w.known_hosts).2 })
  unfolding check_known_host fail
  check_known_host-ok k_blob w v b e =
      let fp = hostkey_fingerprint env k_blob in
      elim (Bool-cases (known_hosts_check w.job.host fp w.known_hosts).0) [
        | inl known ↦ (known, ground (arith, known, e))
        | inr changed ↦ absurd (ground (arith, changed, e))
      ]
