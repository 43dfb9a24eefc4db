-- ===== src/Session/Safety/Exchange.antt =====
-- The version and key exchange handlers keep `Safe`.
use sshd.Base.{◌≡◌, Bool, true, false, Bytes, arith}
use sshd.Platform.{Platform}
use sshd.Session.{World, version, kex_wait_newkeys, KexAlg, curve25519_sha256, mlkem768_x25519}
use sshd.Session.Packet.{send_disconnect}
use sshd.Session.Packet.Frame.{send_packet_lem}
use sshd.Session.Version.{send_our_kexinit, accept_version, consume_version}
use sshd.Session.Kex.{
  kex_compute_classical, kex_pq_ephemeral, kex_compute_pq, sign_and_reply, reply_if_computed,
  send_kex_ecdh_reply, derive_session_keys, handle_kexinit, finish_kex, take_client_blob,
  handle_kex_ecdh_init, handle_newkeys, kex_compute,
}
use sshd.Session.Safety.{Safe}

module _ (env : Platform) where
  pub consume_version-Safe :
      (w : World) (h : Safe w.session)
      → w.session.phase ≡ version
      → Safe (consume_version env w).1.session
  unfolding consume_version accept_version send_disconnect send_our_kexinit
  consume_version-Safe w h v = grind (arith, send_packet_lem)

  pub handle_kexinit-Safe :
      (w : World) (p : Bytes) → Safe w.session → Safe (handle_kexinit env w p).session
  unfolding handle_kexinit send_disconnect
  handle_kexinit-Safe w p h = grind (arith, send_packet_lem)

  pub kex_compute_classical-Safe :
      (w : World) → Safe w.session → Safe (kex_compute_classical env w).1.session
  unfolding kex_compute_classical
  kex_compute_classical-Safe w h = ground arith

  pub kex_pq_ephemeral-Safe :
      (ct ss : Bytes) (w : World) → Safe w.session → Safe (kex_pq_ephemeral env ct ss w).1.session
  unfolding kex_pq_ephemeral
  kex_pq_ephemeral-Safe ct ss w h = ground arith

  pub kex_compute_pq-Safe : (w : World) → Safe w.session → Safe (kex_compute_pq env w).1.session
  unfolding kex_compute_pq
  kex_compute_pq-Safe w h = grind (arith, kex_pq_ephemeral-Safe)

  pub kex_compute-Safe :
      (alg : KexAlg) (w : World) → Safe w.session → Safe (kex_compute env alg w).1.session
  kex_compute-Safe mlkem768_x25519 w h = kex_compute_pq-Safe w h
  kex_compute-Safe curve25519_sha256 w h = kex_compute_classical-Safe w h

  pub sign_and_reply-Safe :
      (seed k_blob : Bytes) (w : World)
      → Safe w.session
      → Safe (sign_and_reply env seed k_blob w).1.session
  unfolding sign_and_reply
  sign_and_reply-Safe seed k_blob w h = grind (arith, send_packet_lem)

  pub reply_if_computed-Safe :
      (seed k_blob : Bytes) (r : Bool × World)
      → Safe r.1.session
      → Safe (reply_if_computed env seed k_blob r).1.session
  unfolding reply_if_computed
  reply_if_computed-Safe seed k_blob (true, w) h = sign_and_reply-Safe seed k_blob w h
  reply_if_computed-Safe seed k_blob (false, w) h = h

  pub send_kex_ecdh_reply-Safe :
      (w : World) → Safe w.session → Safe (send_kex_ecdh_reply env w).1.session
  unfolding send_kex_ecdh_reply
  send_kex_ecdh_reply-Safe w h =
      grind (arith, reply_if_computed-Safe, kex_compute-Safe w.session.kex_alg w h)

  pub finish_kex-Safe : (r : Bool × World) → Safe r.1.session → Safe (finish_kex env r).1.session
  unfolding finish_kex send_disconnect derive_session_keys
  finish_kex-Safe (false, w) h = grind (arith, send_packet_lem)
  finish_kex-Safe (true, w) h = grind (arith, send_packet_lem)

  pub take_client_blob-Safe :
      (alg : KexAlg) (w : World) (blob : Bytes)
      → Safe w.session
      → Safe (take_client_blob env alg w blob).1.session
  unfolding take_client_blob send_disconnect
  take_client_blob-Safe mlkem768_x25519 w blob h =
      grind (arith, send_packet_lem, finish_kex-Safe, send_kex_ecdh_reply-Safe)
  take_client_blob-Safe curve25519_sha256 w blob h =
      grind (arith, send_packet_lem, finish_kex-Safe, send_kex_ecdh_reply-Safe)

  pub handle_kex_ecdh_init-Safe :
      (w : World) (p : Bytes) → Safe w.session → Safe (handle_kex_ecdh_init env w p).1.session
  unfolding handle_kex_ecdh_init send_disconnect
  handle_kex_ecdh_init-Safe w p h = grind (arith, send_packet_lem, take_client_blob-Safe)

  pub handle_newkeys-Safe :
      (w : World)
      → Safe w.session
      → w.session.phase ≡ kex_wait_newkeys
      → Safe (handle_newkeys w).session
  unfolding handle_newkeys
  handle_newkeys-Safe w h n = ground arith
