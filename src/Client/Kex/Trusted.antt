-- ===== src/Client/Kex/Trusted.antt =====
-- What the client has about its server when it has accepted a reply, `accept_reply` of
-- esp-idf/src/ssh_client.cpp.
use sshd.Base.{◌≡◌, refl, sym, ap, subst, ◌∙◌, true, Bytes, List, some, length}
use sshd.Platform.{Platform}
use sshd.Crypto.{x25519_scalar, ed25519_verify}
use sshd.Client.{Outbound, Device, ok, with_cs}
use sshd.Client.Steps.{>>=-ok, >>-ok, fail_if-ok, or_fail-ok, get-ok}
use sshd.Client.Hash.{compute_exchange_hash}
use sshd.Client.KnownHosts.{hostkey_fingerprint, known_hosts_check}
use sshd.Client.Kex.Parts.{sized-some, bool_of_not, compute_secret-ok, check_known_host-ok}
use sshd.Client.Kex.{Reply, ed25519_blob, compute_secret, accept_reply}

-- What the client has about its server, in the state `v`, with the known hosts that it had before: the
-- exchange hash is signed by the host key, the host key is accepted, and the secret is that of the
-- exchange.
pub record Trusted (env : Platform) (entries : List Bytes) (v : Outbound) : Type 0 where
  pub k_blob : Bytes
  pub hpub : Bytes
  pub sig_blob : Bytes
  pub sig64 : Bytes
  pub host_key : ed25519_blob k_blob ≡ some (some hpub)
  pub host_key_size : length hpub ≡ 32
  pub signature : ed25519_blob sig_blob ≡ some (some sig64)
  pub signature_size : length sig64 ≡ 64
  pub secret : x25519_scalar env v.cs.eph_priv v.cs.peer_eph_pub ≡ some v.cs.shared_k
  pub hash : v.cs.session_id ≡ compute_exchange_hash env v.cs k_blob
  pub verified : ed25519_verify env hpub v.cs.session_id sig64 ≡ true
  pub known : (known_hosts_check v.job.host (hostkey_fingerprint env k_blob) entries).0 ≡ true
  pub remembered :
      v.known_hosts ≡ (known_hosts_check v.job.host (hostkey_fingerprint env k_blob) entries).2

module _ (env : Platform) (dev : Device) where
  -- The state after a reply was accepted: all but the secret, the session id and the known hosts stay.
  abbrev pub after_reply : Outbound → Outbound → Outbound
  after_reply w v = record w {
    cs = record w.cs { shared_k = v.cs.shared_k; session_id = v.cs.session_id };
    known_hosts = v.known_hosts;
  }

  pub accept_reply-ok :
      (reply : Reply) (w v : Outbound) (b : Unit)
      → accept_reply env dev reply w ≡ (ok b, v)
      → Trusted env w.known_hosts v × (v ≡ after_reply w v)
  unfolding accept_reply compute_exchange_hash
  accept_reply-ok reply w v b e =
      let (host_key, w1, first, e1) = >>=-ok _ _ w v b e in
      let (hpub, w2, second, e2) = >>=-ok _ _ w1 v b e1 in
      let (signature, w3, third, e3) = >>=-ok _ _ w2 v b e2 in
      let (sig64, w4, fourth, e4) = >>=-ok _ _ w3 v b e3 in
      let (_, w5, computed, e5) = >>-ok _ _ w4 v b e4 in
      let (w6, w7, got, e6) = >>=-ok _ _ w5 v b e5 in
      let (_, w8, verified, e7) = >>-ok _ _ w7 v b e6 in
      let (named, at1) = or_fail-ok _ _ w w1 host_key first in
      let (sized_key, at2) = or_fail-ok _ _ w1 w2 hpub second in
      let (named_sig, at3) = or_fail-ok _ _ w2 w3 signature third in
      let (sized_sig, at4) = or_fail-ok _ _ w3 w4 sig64 fourth in
      let at : w4 ≡ w = at4 ∙ at3 ∙ at2 ∙ at1 in
      let (k, made, at5) =
        compute_secret-ok env dev reply.k_blob w w5 tt
          (ap (λ x. compute_secret env dev reply.k_blob x) (sym at) ∙ computed) in
      let (accepted, at8) = fail_if-ok _ _ w7 w8 tt verified in
      let (known, at9) = check_known_host-ok env dev reply.k_blob w8 v b e7 in
      let (w6_is, w7_is) = get-ok w6 w5 w7 got in
      let fp = hostkey_fingerprint env reply.k_blob in
      let c1 = record w.cs { shared_k = k } in
      let c2 = record c1 { session_id = compute_exchange_hash env c1 reply.k_blob } in
      let w8_is : w8 ≡ with_cs w c2 = at8 ∙ w7_is ∙ at5 in
      let (key, key_size) = sized-some 32 host_key hpub sized_key in
      let (sig, sig_size) = sized-some 64 signature sig64 sized_sig in
      let fin : Outbound = record w {
        cs = c2;
        known_hosts = (known_hosts_check w.job.host fp w.known_hosts).2;
      } in
      let end : v ≡ fin =
        at9
        ∙ ap
            (λ (x : Outbound). record x {
              known_hosts = (known_hosts_check x.job.host fp x.known_hosts).2;
            })
            w8_is in
      subst (λ x. Trusted env w.known_hosts x × (x ≡ after_reply w x)) (sym end)
        (
          record {
            k_blob = reply.k_blob;
            hpub = hpub;
            sig_blob = reply.sig_blob;
            sig64 = sig64;
            host_key = named ∙ ap (λ o. some o) key;
            host_key_size = key_size;
            signature = named_sig ∙ ap (λ o. some o) sig;
            signature_size = sig_size;
            secret = made;
            hash = refl;
            verified =
                ap (λ (x : Outbound). ed25519_verify env hpub x.cs.session_id sig64)
                  (sym (w6_is ∙ at5))
                ∙ bool_of_not _ accepted;
            known =
                ap (λ (x : Outbound). (known_hosts_check x.job.host fp x.known_hosts).0) (sym w8_is)
                ∙ known;
            remembered = refl;
          },
          refl,
        )
