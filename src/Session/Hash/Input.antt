-- ===== src/Session/Hash/Input.antt =====
-- The input of the exchange hash against the encoders of esp-idf/src/sshd_wire.h.
use sshd.Base.{
  ◌+◌, ◌≡◌, refl, sym, ap, ◌∙◌, Bool, true, false, Bytes, [], ◌∷◌, ◌++◌, length, append_assoc,
  if◌then◌else◌, ◌%◌, ◌^◌,
}
use sshd.Wire.{
  put_u8, put_u32, put_bytes, put_string, put_mpint_positive, strip_zeros, needs_pad, big_endian_32,
}
use sshd.Session.{Session, KexAlg, curve25519_sha256, mlkem768_x25519}
use sshd.Session.Hash.{hash_update_k, hash_put_string, hash_put_ephemerals, exchange_hash_input}

hash_put_string_lem : (h d : Bytes) → hash_put_string h d ≡ put_string h d
unfolding hash_put_string put_string put_u32 put_bytes
hash_put_string_lem h d = sym (append_assoc h (big_endian_32 (length d % 2 ^ 32)) d)

mpint_parts :
    (b : Bool) (h t : Bytes)
    → (if b
        then h ++ (big_endian_32 ((length t + 1) % 2 ^ 32) ++ (0 ∷ t))
        else h ++ (big_endian_32 (length t % 2 ^ 32) ++ t))
      ≡ (if b
          then put_bytes (put_u8 (put_u32 h ((length t + 1) % 2 ^ 32)) 0) t
          else put_bytes (put_u32 h (length t % 2 ^ 32)) t)
unfolding put_u32 put_u8 put_bytes
mpint_parts true h t =
    let size = big_endian_32 ((length t + 1) % 2 ^ 32) in
    sym (append_assoc (h ++ size) (0 ∷ []) t ∙ append_assoc h size (0 ∷ t))
mpint_parts false h t = sym (append_assoc h (big_endian_32 (length t % 2 ^ 32)) t)

mpint_lem : (h k : Bytes) → hash_update_k h curve25519_sha256 k ≡ put_mpint_positive h k
unfolding hash_update_k put_mpint_positive
mpint_lem h k = mpint_parts (needs_pad (strip_zeros k)) h (strip_zeros k)

-- The context before the strings that depend on the algorithm.
abbrev before_ephemerals : Session → Bytes → Bytes
before_ephemerals s k_blob =
    let h2 = hash_put_string (hash_put_string [] s.peer_version) s.our_version in
    hash_put_string (hash_put_string (hash_put_string h2 s.peer_kex_init) s.our_kex_init) k_blob

string_lem : (h k : Bytes) → length k ≡ 32 → hash_update_k h mlkem768_x25519 k ≡ put_string h k
unfolding hash_update_k put_string put_u32 put_bytes
string_lem h k size =
    sym (append_assoc h (big_endian_32 32) k)
    ∙ ap (λ n. (h ++ big_endian_32 (n % 2 ^ 32)) ++ k) (sym size)

-- The strings of the exchange and the encoding of K: Q_C, Q_S and the mpint K in a classical exchange,
-- the two blobs and the string K in a hybrid one.
abbrev pub from_client : KexAlg → Session → Bytes
from_client mlkem768_x25519 s = s.peer_kex_blob
from_client curve25519_sha256 s = s.peer_eph_pub

abbrev pub from_server : KexAlg → Session → Bytes
from_server mlkem768_x25519 s = s.our_kex_blob
from_server curve25519_sha256 s = s.eph_pub

abbrev pub put_secret : KexAlg → Bytes → Bytes → Bytes
put_secret mlkem768_x25519 h k = put_string h k
put_secret curve25519_sha256 h k = put_mpint_positive h k

pub secret_lem :
    (alg : KexAlg) (h k : Bytes) → length k ≡ 32 → hash_update_k h alg k ≡ put_secret alg h k
secret_lem mlkem768_x25519 h k size = string_lem h k size
secret_lem curve25519_sha256 h k size = mpint_lem h k

-- Both algorithms at once.
by_algorithm :
    (alg : KexAlg) (h : Bytes) (s : Session)
    → length s.shared_k ≡ 32
    → hash_update_k (hash_put_ephemerals h alg s) alg s.shared_k
      ≡ put_secret alg
          (put_string (put_string h (from_client alg s)) (from_server alg s))
          s.shared_k
unfolding hash_put_ephemerals
by_algorithm mlkem768_x25519 h s size =
    string_lem (hash_put_string (hash_put_string h s.peer_kex_blob) s.our_kex_blob) s.shared_k size
    ∙ ap (λ t. put_string t s.shared_k) (simp (hash_put_string_lem) refl)
by_algorithm curve25519_sha256 h s size =
    mpint_lem (hash_put_string (hash_put_string h s.peer_eph_pub) s.eph_pub) s.shared_k
    ∙ ap (λ t. put_mpint_positive t s.shared_k) (simp (hash_put_string_lem) refl)

-- What both sides sign, for a shared secret of 32 bytes: the strings V_C, V_S, I_C, I_S and K_S, then in a
-- classical exchange the strings Q_C and Q_S and the mpint K, and in a hybrid one the two blobs and K as
-- strings, as the encoders of the wire format write them.
pub exchange_hash_input_lem :
    (s : Session) (k_blob : Bytes)
    → length s.shared_k ≡ 32
    → exchange_hash_input s k_blob
      ≡ put_secret s.kex_alg
          (put_string
            (put_string
              (put_string
                (put_string
                  (put_string
                    (put_string (put_string [] s.peer_version) s.our_version)
                    s.peer_kex_init)
                  s.our_kex_init)
                k_blob)
              (from_client s.kex_alg s))
            (from_server s.kex_alg s))
          s.shared_k
unfolding exchange_hash_input
exchange_hash_input_lem s k_blob size =
    by_algorithm s.kex_alg (before_ephemerals s k_blob) s size
    ∙ ap
        (λ h.
          put_secret s.kex_alg
            (put_string (put_string h (from_client s.kex_alg s)) (from_server s.kex_alg s))
            s.shared_k)
        (simp (hash_put_string_lem) refl)
