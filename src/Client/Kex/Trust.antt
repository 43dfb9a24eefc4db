-- ===== src/Client/Kex/Trust.antt =====
-- What a key exchange of the client has established when it succeeds.
use sshd.Base.{◌+◌, ◌≡◌, refl, sym, ap, subst, ◌∙◌, true, Bytes, List, [], some, out_array}
use sshd.Platform.{Platform}
use sshd.Crypto.{x25519_base}
use sshd.Wire.{put_u8}
use sshd.Session.Msg
use sshd.Client.{Outbound, Device, ok, with_cs}
use sshd.Client.Steps.{>>=-ok, >>-ok, modify-ok}
use sshd.Client.Packet.{send_packet}
use sshd.Client.Packet.Frame.{Moved, moved_to, Moved-trans, send_packet-Moved}
use sshd.Client.Hash.{compute_exchange_hash, derive_key}
use sshd.Client.Kexinit.{put_kexinit, good, check_kexinit}
use sshd.Client.Kex.Parts.{
  expect-Moved, accept_kexinit-ok, with_ephemeral, send_kex_init-ok, parse_reply-ok,
}
use sshd.Client.Kex.{send_kexinit, switch_out, start_kex, take_reply, switch_keys, do_kex}
use sshd.Client.Kex.Trusted.{Trusted, accept_reply-ok}
use sshd.Client.Kex.Keys.{derive_key_same}

-- What holds when the reply comes.
Ready : Platform → List Bytes → Outbound → Type 0
Ready env entries v =
    (check_kexinit v.cs.peer_kex_init ≡ good)
    × (x25519_base env v.cs.eph_priv ≡ some v.cs.eph_pub)
    × (v.known_hosts ≡ entries)

-- The state of a successful key exchange, with the known hosts that the client had before.
pub record Established (env : Platform) (entries : List Bytes) (v : Outbound) : Type 0 where
  pub trusted : Trusted env entries v
  pub algorithms : check_kexinit v.cs.peer_kex_init ≡ good
  pub ephemeral : x25519_base env v.cs.eph_priv ≡ some v.cs.eph_pub
  pub send_key : v.cs.send_key ≡ derive_key env v.cs b'C' 64
  pub recv_key : v.cs.recv_key ≡ derive_key env v.cs b'D' 64
  pub encrypts : v.cs.enc_out ≡ true
  pub decrypts : v.cs.enc_in ≡ true

module _ (env : Platform) (dev : Device) where
  send_kexinit-Moved :
      (w : Outbound)
      → (payload : Bytes) × Moved
          (record w { cs = record w.cs { our_kex_init = payload } })
          (send_kexinit env dev w)
  unfolding send_kexinit
  send_kexinit-Moved w =
      let payload = put_kexinit [] (out_array 16 (env.random w.draws 16)) in
      let w1 = record w { cs = record w.cs { our_kex_init = payload }; draws = w.draws + 1 } in
      (
        payload,
        Moved-trans (record w { cs = record w.cs { our_kex_init = payload } }) w1 _ refl
            (send_packet-Moved env w1 payload),
      )

  Ready-Moved :
      (entries : List Bytes) (w v : Outbound)
      → Ready env entries w
      → Moved w v
      → Ready env entries v
  unfolding Ready
  Ready-Moved entries w v h moved = subst (Ready env entries) (sym moved) h

  -- `v` with what the exchange made from `w`.
  abbrev with_exchange : Outbound → Outbound → Outbound
  with_exchange w v = record v {
    cs = record v.cs {
      our_version = w.cs.our_version;
      peer_version = w.cs.peer_version;
      our_kex_init = w.cs.our_kex_init;
      peer_kex_init = w.cs.peer_kex_init;
      eph_priv = w.cs.eph_priv;
      eph_pub = w.cs.eph_pub;
      peer_eph_pub = w.cs.peer_eph_pub;
      shared_k = w.cs.shared_k;
      session_id = w.cs.session_id;
    };
    job = record v.job { host = w.job.host };
    known_hosts = w.known_hosts;
  }

  Trusted-with_exchange :
      (entries : List Bytes) (w v : Outbound)
      → Trusted env entries w
      → Trusted env entries (with_exchange w v)
  unfolding compute_exchange_hash
  Trusted-with_exchange entries w v h = record {
    k_blob = h.k_blob;
    hpub = h.hpub;
    sig_blob = h.sig_blob;
    sig64 = h.sig64;
    host_key = h.host_key;
    host_key_size = h.host_key_size;
    signature = h.signature;
    signature_size = h.signature_size;
    secret = h.secret;
    hash = h.hash;
    verified = h.verified;
    known = h.known;
    remembered = h.remembered;
  }

  -- A state that has all this but for `enc_in`, after reads and with `enc_in` set.
  Established-end :
      (entries : List Bytes) (w v : Outbound)
      → Established env entries (with_cs w (record w.cs { enc_in = true }))
      → Moved w v
      → Established env entries (with_cs v (record v.cs { enc_in = true }))
  Established-end entries w v h moved =
      let fin = λ (x : Outbound). with_cs x (record x.cs { enc_in = true }) in
      let u = fin (moved_to w v) in
      subst (λ x. Established env entries (fin x)) (sym moved)
        (record {
          trusted = Trusted-with_exchange entries (fin w) u h.trusted;
          algorithms = h.algorithms;
          ephemeral = h.ephemeral;
          send_key = h.send_key ∙ derive_key_same env (fin w).cs u.cs b'C' 64 refl refl;
          recv_key = h.recv_key ∙ derive_key_same env (fin w).cs u.cs b'D' 64 refl refl;
          encrypts = h.encrypts;
          decrypts = refl;
        })

  switch_out-Established :
      (entries : List Bytes) (w : Outbound)
      → Trusted env entries w
      → check_kexinit w.cs.peer_kex_init ≡ good
      → x25519_base env w.cs.eph_priv ≡ some w.cs.eph_pub
      → let v = switch_out env dev w in
        Established env entries (with_cs v (record v.cs { enc_in = true }))
  unfolding switch_out
  switch_out-Established entries w trusted algorithms ephemeral =
      let x = send_packet env w (put_u8 [] Msg.newkeys) in
      let moved = send_packet-Moved env w (put_u8 [] Msg.newkeys) in
      let c1 = record x.cs { send_key = derive_key env x.cs b'C' 64 } in
      let c2 = record c1 { recv_key = derive_key env c1 b'D' 64; enc_out = true; enc_in = true } in
      let at_x =
        subst (Trusted env entries) (sym moved)
          (Trusted-with_exchange entries w (moved_to w x) trusted) in
      record {
        trusted = Trusted-with_exchange entries x (with_cs x c2) at_x;
        algorithms =
            subst (λ (y : Outbound). check_kexinit y.cs.peer_kex_init ≡ good) (sym moved)
              algorithms;
        ephemeral =
            subst (λ (y : Outbound). x25519_base env y.cs.eph_priv ≡ some y.cs.eph_pub) (sym moved)
              ephemeral;
        send_key = derive_key_same env x.cs c2 b'C' 64 refl refl;
        recv_key = derive_key_same env c1 c2 b'D' 64 refl refl;
        encrypts = refl;
        decrypts = refl;
      }

module _ (env : Platform) (dev : Device) where
  start_kex-Ready : (w v : Outbound) → start_kex env dev w ≡ (ok tt, v) → Ready env w.known_hosts v
  unfolding start_kex with_ephemeral Ready
  start_kex-Ready w v e =
      let (_, w1, first, e1) = >>-ok _ _ w v tt e in
      let (kexinit, w2, received, e2) = >>=-ok _ _ w1 v tt e1 in
      let (_, w3, accepted, e3) = >>-ok _ _ w2 v tt e2 in
      let made1 = send_kexinit-Moved env dev w in
      let hosts1 : w1.known_hosts ≡ w.known_hosts =
        ap (λ (x : Outbound). x.known_hosts) (modify-ok _ tt w w1 first ∙ made1.1) in
      let moved2 = expect-Moved env dev _ _ _ _ w1 w2 kexinit received in
      let (fine, at3) = accept_kexinit-ok env dev kexinit w2 w3 tt accepted in
      let (eph_pub, made, moved4) = send_kex_init-ok env dev w3 v tt e3 in
      let prepared3 : Ready env w.known_hosts (with_ephemeral env dev w3 eph_pub) = (
        ap (λ (x : Outbound). check_kexinit x.cs.peer_kex_init) at3 ∙ fine,
        made,
        ap (λ (x : Outbound). x.known_hosts) at3
            ∙ ap (λ (x : Outbound). x.known_hosts) moved2
            ∙ hosts1,
      ) in
      Ready-Moved env dev w.known_hosts (with_ephemeral env dev w3 eph_pub) v prepared3 moved4

  take_reply-Trusted :
      (entries : List Bytes) (w v : Outbound)
      → Ready env entries w
      → take_reply env dev w ≡ (ok tt, v)
      → Trusted env entries v
        × (check_kexinit v.cs.peer_kex_init ≡ good)
        × (x25519_base env v.cs.eph_priv ≡ some v.cs.eph_pub)
  unfolding take_reply Ready
  take_reply-Trusted entries w v prepared e =
      let (pkt, w1, replied, e1) = >>=-ok _ _ w v tt e in
      let (reply, w2, parsed, e2) = >>=-ok _ _ w1 v tt e1 in
      let prepared1 =
        Ready-Moved env dev entries w w1 prepared (expect-Moved env dev _ _ _ _ w w1 pkt replied) in
      let (checked, ephemeral, hosts) : Ready env entries w2 =
        subst (Ready env entries) (sym (parse_reply-ok env dev pkt w1 w2 reply parsed)) prepared1 in
      let (trust, at) = accept_reply-ok env dev reply w2 v tt e2 in
      (
        subst (λ (h : List Bytes). Trusted env h v) hosts trust,
        ap (λ (x : Outbound). check_kexinit x.cs.peer_kex_init) at ∙ checked,
        subst (λ (x : Outbound). x25519_base env x.cs.eph_priv ≡ some x.cs.eph_pub) (sym at)
            ephemeral,
      )

  switch_keys-Established :
      (entries : List Bytes) (w v : Outbound)
      → Trusted env entries w
      → check_kexinit w.cs.peer_kex_init ≡ good
      → x25519_base env w.cs.eph_priv ≡ some w.cs.eph_pub
      → switch_keys env dev w ≡ (ok tt, v)
      → Established env entries v
  unfolding switch_keys
  switch_keys-Established entries w v trust checked ephemeral e =
      let (_, w1, switched, e1) = >>-ok _ _ w v tt e in
      let (newkeys, w2, received, e2) = >>-ok _ _ w1 v tt e1 in
      let fin = λ (x : Outbound). with_cs x (record x.cs { enc_in = true }) in
      let at1 : Established env entries (fin w1) =
        subst (λ (x : Outbound). Established env entries (fin x))
          (sym (modify-ok _ tt w w1 switched))
          (switch_out-Established env dev entries w trust checked ephemeral) in
      subst (Established env entries) (sym (modify-ok _ tt w2 v e2)) (
        Established-end env dev entries w1 w2 at1
          (expect-Moved env dev _ _ _ _ w1 w2 newkeys received))

-- When `do_kex` succeeds, the client has checked its server and switched to the keys of this exchange:
-- the server's KEXINIT has the algorithms; the host key is an ed25519 key, its signature is verified
-- over the session id, which is the exchange hash with this key, and the known hosts accept it and
-- remember it; the shared secret is that of the ephemeral keys; both keys come from it; and both
-- directions are encrypted.
pub do_kex-Established :
    (env : Platform) (dev : Device) (w v : Outbound)
    → do_kex env dev w ≡ (ok tt, v)
    → Established env w.known_hosts v
unfolding do_kex
do_kex-Established env dev w v e =
    let (_, w1, started, e1) = >>-ok _ _ w v tt e in
    let (_, w2, replied, e2) = >>-ok _ _ w1 v tt e1 in
    let (trust, checked, ephemeral) =
      take_reply-Trusted env dev w.known_hosts w1 w2 (start_kex-Ready env dev w w1 started)
        replied in
    switch_keys-Established env dev w.known_hosts w2 v trust checked ephemeral e2
