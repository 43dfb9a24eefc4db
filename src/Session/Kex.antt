-- ===== src/Session/Kex.antt =====
-- The key exchange of esp-idf/src/sshd_session.cpp, from the client's KEXINIT to its NEWKEYS.
use sshd.Base.{
  ◌+◌, Bool, true, false, not, ◌==◌, Option, none, some, Bytes, [], ◌++◌, if◌then◌else◌, length,
  take, drop, out_array, codes,
}
use sshd.Wire.{view_init, get_string, put_u8, put_string, put_cstring}
use sshd.Platform.{Platform}
use sshd.Crypto.{
  sha256, x25519_base, x25519_scalar, mlkem768_encap, ed25519_pub_from_seed, ed25519_sign,
}
use sshd.Session.{
  Session, World, kex_wait_ecdh, kex_wait_newkeys, auth, KexAlg, curve25519_sha256, mlkem768_x25519,
  with_session, ssh_ed25519,
}
use sshd.Session.Msg
use sshd.Session.Packet.{send_packet, send_disconnect}
use sshd.Session.Hash.{build_host_key_blob, compute_exchange_hash, derive_key}
use sshd.Session.Names.{select_kex_alg}

module _ (env : Platform) where
  -- The seed and the public key.
  unfoldable pub load_host_key : Option (Bytes × Bytes)
  load_host_key =
      if length env.host_seed == 0 then none else elim (env.base64_decode env.host_seed 32) [
        | none ↦ none
        | some seed ↦
            if not (length seed == 32) then none else elim (ed25519_pub_from_seed env seed) [
              | none ↦ none
              | some pub32 ↦ some (seed, pub32)
            ]
      ]

  abbrev pub fresh_ephemeral : World → World
  fresh_ephemeral w = record w {
    session = record w.session { eph_priv = out_array 32 (env.random w.draws 32) };
    draws = w.draws + 1;
  }

  unfoldable pub kex_compute_classical : World → Bool × World
  kex_compute_classical w =
      let w1 = fresh_ephemeral w in
      let s1 = w1.session in
      elim (x25519_base env s1.eph_priv) [
        | none ↦ (false, w1)
        | some eph ↦ elim (x25519_scalar env s1.eph_priv s1.peer_eph_pub) [
          | none ↦ (false, with_session w1 (record s1 { eph_pub = eph }))
          | some k ↦ (true, with_session w1 (record s1 { eph_pub = eph; shared_k = k }))
        ]
      ]

  -- `kex_compute_pq` from the key pair on, with the KEM's ciphertext and secret.
  unfoldable pub kex_pq_ephemeral : Bytes → Bytes → World → Bool × World
  kex_pq_ephemeral ct ml_ss w =
      let w1 = fresh_ephemeral w in
      let s1 = w1.session in
      elim (x25519_base env s1.eph_priv) [
        | none ↦ (false, w1)
        | some eph ↦ elim (x25519_scalar env s1.eph_priv (drop 1184 s1.peer_kex_blob)) [
          | none ↦ (false, with_session w1 (record s1 { eph_pub = eph }))
          | some x_ss ↦ (
            true,
            with_session w1 (record s1 {
              eph_pub = eph;
              shared_k = sha256 env (ml_ss ++ x_ss);
              our_kex_blob = ct ++ eph;
            }),
          )
        ]
      ]

  unfoldable pub kex_compute_pq : World → Bool × World
  kex_compute_pq w =
      if not (length w.session.peer_kex_blob == 1184 + 32)
      then (false, w)
      else elim (mlkem768_encap env (take 1184 w.session.peer_kex_blob)) [
        | none ↦ (false, w)
        | some (ct, ml_ss) ↦ kex_pq_ephemeral ct ml_ss w
      ]

  abbrev pub kex_compute : KexAlg → World → Bool × World
  kex_compute mlkem768_x25519 w = kex_compute_pq w
  kex_compute curve25519_sha256 w = kex_compute_classical w

  -- Q_S in the reply.
  abbrev pub reply_ephemeral : KexAlg → Session → Bytes
  reply_ephemeral mlkem768_x25519 s = s.our_kex_blob
  reply_ephemeral curve25519_sha256 s = s.eph_pub

  -- `send_kex_ecdh_reply` from the exchange hash on.
  unfoldable pub sign_and_reply : Bytes → Bytes → World → Bool × World
  sign_and_reply seed k_blob w =
      let s = w.session in
      let h = compute_exchange_hash env s k_blob in
      let w1 =
        if not s.have_session_id
        then with_session w (record s { session_id = h; have_session_id = true })
        else w in
      elim (ed25519_sign env seed h) [
        | none ↦ (false, w1)
        | some sig ↦
            let sig_blob = put_string (put_cstring [] ssh_ed25519) sig in
            let p1 = put_string (put_u8 [] Msg.kex_ecdh_reply) k_blob in
            let p2 = put_string p1 (reply_ephemeral s.kex_alg s) in
            (true, send_packet env w1 (put_string p2 sig_blob))
      ]

  unfoldable pub reply_if_computed : Bytes → Bytes → Bool × World → Bool × World
  reply_if_computed seed k_blob (false, w) = (false, w)
  reply_if_computed seed k_blob (true, w) = sign_and_reply seed k_blob w

  unfoldable pub send_kex_ecdh_reply : World → Bool × World
  send_kex_ecdh_reply w = elim load_host_key [
    | none ↦ (false, w)
    | some (seed, host_pub) ↦
        reply_if_computed seed (build_host_key_blob host_pub) (kex_compute w.session.kex_alg w)
  ]

  unfoldable pub derive_session_keys : World → World
  derive_session_keys w =
      let s1 = record w.session { c2s_key = derive_key env w.session b'C' 64 } in
      with_session w (record s1 { s2c_key = derive_key env s1 b'D' 64 })

  unfoldable pub handle_kexinit : World → Bytes → World
  handle_kexinit w payload =
      let w1 = with_session w (record w.session { peer_kex_init = payload }) in
      elim (select_kex_alg payload) [
        | none ↦ send_disconnect env w1 3 (codes "no common KEX algorithm")
        | some alg ↦ with_session w1 (record w1.session { kex_alg = alg; phase = kex_wait_ecdh })
      ]

  -- `handle_kex_ecdh_init` once the client's blob is stored.
  unfoldable pub finish_kex : Bool × World → Bool × World
  finish_kex (false, w) = (false, send_disconnect env w 2 (codes "KEX failed"))
  finish_kex (true, w) =
      let w1 = send_packet env w (put_u8 [] Msg.newkeys) in
      let w2 = derive_session_keys w1 in
      (true, with_session w2 (record w2.session { enc_outbound = true; phase = kex_wait_newkeys }))

  unfoldable pub take_client_blob : KexAlg → World → Bytes → Bool × World
  take_client_blob mlkem768_x25519 w blob =
      if not (length blob == 1184 + 32)
      then (false, send_disconnect env w 2 (codes "bad PQ KEX_ECDH_INIT size"))
      else finish_kex
          (send_kex_ecdh_reply (with_session w (record w.session { peer_kex_blob = blob })))
  take_client_blob curve25519_sha256 w blob =
      if not (length blob == 32)
      then (false, send_disconnect env w 2 (codes "bad KEX_ECDH_INIT size"))
      else finish_kex
          (send_kex_ecdh_reply (with_session w (record w.session { peer_eph_pub = blob })))

  unfoldable pub handle_kex_ecdh_init : World → Bytes → Bool × World
  handle_kex_ecdh_init w payload = elim (get_string (view_init payload)).0 [
    | none ↦ (false, send_disconnect env w 2 (codes "bad KEX_ECDH_INIT"))
    | some blob ↦ take_client_blob w.session.kex_alg w blob
  ]

unfoldable pub handle_newkeys : World → World
handle_newkeys w = with_session w (record w.session { enc_inbound = true; phase = auth })
