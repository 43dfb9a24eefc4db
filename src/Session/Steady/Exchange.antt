-- ===== src/Session/Steady/Exchange.antt =====
-- The version and key exchange handlers keep `Steady`.
use sshd.Base.{Bool, true, false, Bytes, arith}
use sshd.Platform.{Platform}
use sshd.Session.{Session, World, KexAlg, curve25519_sha256, mlkem768_x25519}
use sshd.Session.Packet.{send_disconnect}
use sshd.Session.Packet.Frame.{send_packet_lem}
use sshd.Session.Kex.{
  kex_compute_classical, kex_pq_ephemeral, kex_compute_pq, sign_and_reply, reply_if_computed,
  send_kex_ecdh_reply, derive_session_keys, handle_kexinit, finish_kex, take_client_blob,
  handle_kex_ecdh_init, handle_newkeys, kex_compute,
}
use sshd.Session.Steady.{Steady}

module _ (env : Platform) (s : Session) where
  pub handle_kexinit-Steady :
      (w : World) (p : Bytes) → Steady s w.session → Steady s (handle_kexinit env w p).session
  unfolding handle_kexinit send_disconnect
  handle_kexinit-Steady w p h = grind (arith, send_packet_lem)

  pub kex_compute_classical-Steady :
      (w : World) → Steady s w.session → Steady s (kex_compute_classical env w).1.session
  unfolding kex_compute_classical
  kex_compute_classical-Steady w h = ground arith

  pub kex_pq_ephemeral-Steady :
      (ct ss : Bytes) (w : World)
      → Steady s w.session
      → Steady s (kex_pq_ephemeral env ct ss w).1.session
  unfolding kex_pq_ephemeral
  kex_pq_ephemeral-Steady ct ss w h = ground arith

  pub kex_compute_pq-Steady :
      (w : World) → Steady s w.session → Steady s (kex_compute_pq env w).1.session
  unfolding kex_compute_pq
  kex_compute_pq-Steady w h = grind (arith, kex_pq_ephemeral-Steady)

  pub kex_compute-Steady :
      (alg : KexAlg) (w : World) → Steady s w.session → Steady s (kex_compute env alg w).1.session
  kex_compute-Steady mlkem768_x25519 w h = kex_compute_pq-Steady w h
  kex_compute-Steady curve25519_sha256 w h = kex_compute_classical-Steady w h

  pub sign_and_reply-Steady :
      (seed k_blob : Bytes) (w : World)
      → Steady s w.session
      → Steady s (sign_and_reply env seed k_blob w).1.session
  unfolding sign_and_reply
  sign_and_reply-Steady seed k_blob w h = grind (arith, send_packet_lem)

  pub reply_if_computed-Steady :
      (seed k_blob : Bytes) (r : Bool × World)
      → Steady s r.1.session
      → Steady s (reply_if_computed env seed k_blob r).1.session
  unfolding reply_if_computed
  reply_if_computed-Steady seed k_blob (true, w) h = sign_and_reply-Steady seed k_blob w h
  reply_if_computed-Steady seed k_blob (false, w) h = h

  pub send_kex_ecdh_reply-Steady :
      (w : World) → Steady s w.session → Steady s (send_kex_ecdh_reply env w).1.session
  unfolding send_kex_ecdh_reply
  send_kex_ecdh_reply-Steady w h =
      grind (arith, reply_if_computed-Steady, kex_compute-Steady w.session.kex_alg w h)

  pub finish_kex-Steady :
      (r : Bool × World) → Steady s r.1.session → Steady s (finish_kex env r).1.session
  unfolding finish_kex send_disconnect derive_session_keys
  finish_kex-Steady (false, w) h = grind (arith, send_packet_lem)
  finish_kex-Steady (true, w) h = grind (arith, send_packet_lem)

  pub take_client_blob-Steady :
      (alg : KexAlg) (w : World) (blob : Bytes)
      → Steady s w.session
      → Steady s (take_client_blob env alg w blob).1.session
  unfolding take_client_blob send_disconnect
  take_client_blob-Steady mlkem768_x25519 w blob h =
      grind (arith, send_packet_lem, finish_kex-Steady, send_kex_ecdh_reply-Steady)
  take_client_blob-Steady curve25519_sha256 w blob h =
      grind (arith, send_packet_lem, finish_kex-Steady, send_kex_ecdh_reply-Steady)

  pub handle_kex_ecdh_init-Steady :
      (w : World) (p : Bytes)
      → Steady s w.session
      → Steady s (handle_kex_ecdh_init env w p).1.session
  unfolding handle_kex_ecdh_init send_disconnect
  handle_kex_ecdh_init-Steady w p h = grind (arith, send_packet_lem, take_client_blob-Steady)

  pub handle_newkeys-Steady : (w : World) → Steady s w.session → Steady s (handle_newkeys w).session
  unfolding handle_newkeys
  handle_newkeys-Steady w h = ground arith
