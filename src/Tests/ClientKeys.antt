-- ===== src/Tests/ClientKeys.antt =====
-- The theorems on the keys, known hosts and typed keys of the client at concrete values.
use sshd.Base.{◌≡◌, ◌↔◌, inl, refl, true, some, Bytes, List, [], ◌∷◌, ◌++◌, replicate, codes, arith}
use sshd.Session.Names.{build_kexinit_payload}
use sshd.Client.{new_csess}
use sshd.Session.{curve25519_sha256}
use sshd.Session.Kex.{derive_session_keys}
use sshd.Session.Hash
use sshd.Session.Names.{select_kex_alg}
use sshd.Client.Kexinit.{good}
use sshd.Client.Hash.Agree.{SameExchange, compute_exchange_hash_agrees, derive_session_keys_agree}
use sshd.Client.KnownHosts.Trust.{
  known_hosts_check-refines, known_hosts_check_again, is_trusted, remember, fingerprint_of,
}
use sshd.Client.Kexinit.Meets.{check_kexinit-select_kex_alg}
use sshd.Client.Relay.{new_relay, relay_keys}
use sshd.Client.Relay.Escape.{Follows, Relayed, relay_keys-Relayed}
use sshd.Tests.{test_env, test_blob}
use sshd.Tests.Sessions.{blank, blank_world}
use sshd.Client.Hash.{compute_exchange_hash, derive_key}
use sshd.Client.KnownHosts.{entry_verdict, known_hosts_from, known_hosts_check}
use sshd.Client.Kexinit.{put_kexinit, check_kexinit}
use sshd.Base.{bytes_eq}
use sshd.Session.Version.{find_byte}

same_exchange : SameExchange new_csess (record blank { peer_version = []; our_version = [] })
same_exchange = record {
  alg = refl;
  client_version = refl;
  server_version = refl;
  client_kex_init = refl;
  server_kex_init = refl;
  client_eph = refl;
  server_eph = refl;
  secret = refl;
}

compute_exchange_hash_agrees_example :
    compute_exchange_hash test_env new_csess test_blob
    ≡ Hash.compute_exchange_hash test_env
        (record blank { peer_version = []; our_version = [] })
        test_blob
compute_exchange_hash_agrees_example =
    compute_exchange_hash_agrees test_env new_csess
      (record blank { peer_version = []; our_version = [] }) test_blob same_exchange

derive_session_keys_agree_example :
    (derive_key test_env new_csess b'C' 64
      ≡ (derive_session_keys test_env blank_world).session.c2s_key)
    × (derive_key test_env new_csess b'D' 64
        ≡ (derive_session_keys test_env blank_world).session.s2c_key)
derive_session_keys_agree_example =
    derive_session_keys_agree test_env new_csess blank_world refl refl refl

check_kexinit-select_kex_alg_example :
    (check_kexinit (build_kexinit_payload (replicate 16 1)) ≡ good)
    × (select_kex_alg (put_kexinit [] (replicate 16 2)) ≡ some curve25519_sha256)
check_kexinit-select_kex_alg_example =
    check_kexinit-select_kex_alg (replicate 16 1) (replicate 16 2) refl refl

abbrev one_host : List Bytes
one_host = codes "other SHA256:aa" ∷ []

known_hosts_check-refines_example :
    ((known_hosts_check (codes "host") (codes "SHA256:bb") one_host).0
      ≡ is_trusted (fingerprint_of one_host) (codes "host") (codes "SHA256:bb"))
    × (fingerprint_of
          (known_hosts_check (codes "host") (codes "SHA256:bb") one_host).2
          (codes "other")
        ≡ remember (fingerprint_of one_host) (codes "host") (codes "SHA256:bb") (codes "other"))
known_hosts_check-refines_example =
    known_hosts_check-refines (codes "host") (codes "SHA256:bb") (codes "other") one_host
      (ground arith) (ground arith)

first_contact_accepted : (known_hosts_check (codes "host") (codes "SHA256:bb") one_host).0 ≡ true
unfolding known_hosts_check known_hosts_from entry_verdict find_byte bytes_eq
first_contact_accepted = refl

known_hosts_check_again_example :
    ((known_hosts_check
        (codes "host")
        (codes "SHA256:cc")
        (known_hosts_check (codes "host") (codes "SHA256:bb") one_host).2).0
      ≡ true)
    ↔ (codes "SHA256:cc" ≡ codes "SHA256:bb")
known_hosts_check_again_example =
    known_hosts_check_again (codes "host") (codes "SHA256:bb") (codes "SHA256:cc") one_host
      (ground arith) (ground arith) (ground arith) first_contact_accepted

-- ---- keys of the user ----

new_relay-Follows : Follows [] new_relay
new_relay-Follows = record { part = omega arith; line = refl; withheld = inl refl }

abbrev typed_keys : Bytes
typed_keys = codes "a" ++ (13 ∷ []) ++ codes "..x" ++ (10 ∷ []) ++ codes "..!b"

relay_keys-Relayed_example :
    Relayed [] typed_keys new_relay
      (relay_keys new_relay typed_keys).0
      (relay_keys new_relay typed_keys).1
relay_keys-Relayed_example = relay_keys-Relayed [] typed_keys new_relay new_relay-Follows
