-- ===== src/Client/Command/UserKey.antt =====
-- The keys of `cmd_ssh_keygen` in esp-idf/src/ssh_client.cpp with the functions that read them.
use sshd.Base.{
  ℕ, ◌≤◌, ◌≡◌, refl, inl, inr, true, false, ◌==◌, none, some, Bytes, All, [], ◌∷◌, ◌++◌, length,
  take, codes, bytes_eq, bytes_eq_refl, out_array, length-out_array, arith, Option-cases,
}
use sshd.Platform.{Platform}
use sshd.Wire.{put_string, put_cstring}
use sshd.Wire.RoundTrip.{length-put_string}
use sshd.Crypto.{ed25519_pub_from_seed}
use sshd.Crypto.Base64.{Base64}
use sshd.Session.{ssh_ed25519}
use sshd.Session.Version.{find_byte}
use sshd.Session.Auth.{key_text, key_line_matches}
use sshd.Client.Auth.{public_blob}
use sshd.Client.Auth.Accepted.{second_of_blob}
use sshd.Host.{load_host_seed}
use sshd.Host.Fingerprint.{fresh_loaded}
use sshd.Client.Command.{openssh_pubkey_line, load_user_seed, UserKeys, cmd_ssh_keygen}

no_space_found : (t : Bytes) → All (λ c. (c == b' ') ≡ false) t → find_byte b' ' t ≡ none
unfolding find_byte
no_space_found [] h = refl
no_space_found (c ∷ r) h = ground (arith, h.0, no_space_found r h.1)

abbrev line_of : Bytes → Bytes
line_of b64 = codes "ssh-ed25519 " ++ b64

first_space : (b64 : Bytes) → find_byte b' ' (line_of b64) ≡ some 11
unfolding find_byte
first_space b64 = refl

first_word : (b64 : Bytes) → bytes_eq (take 12 (line_of b64)) (codes "ssh-ed25519 ") ≡ true
unfolding bytes_eq
first_word b64 = refl

key_text_line : (b64 : Bytes) → find_byte b' ' b64 ≡ none → key_text (line_of b64) 11 ≡ b64
unfolding key_text
key_text_line b64 h = ground (arith, h)

blob_fits : (pub32 : Bytes) → length pub32 ≡ 32 → length (public_blob pub32) ≤ 80
unfolding public_blob put_cstring
blob_fits pub32 h = omega (
  arith,
  length-put_string (put_string [] ssh_ed25519) pub32 (omega arith),
  length-put_string [] ssh_ed25519 (omega arith),
)

module _ (env : Platform) (laws : Base64 env) where
  -- The line of a key is one by which the server accepts the key.
  line_matches :
      (pub32 b64 : Bytes) (n : ℕ)
      → length pub32 ≡ 32
      → env.base64_encode (public_blob pub32) n ≡ some b64
      → key_line_matches env pub32 (line_of b64) ≡ true
  unfolding key_line_matches
  line_matches pub32 b64 n size e =
      let text = key_text_line b64 (no_space_found b64 (laws.no_space _ b64 n e)) in
      let decoded = laws.decode-encode _ b64 n 80 e (blob_fits pub32 size) in
      ground (
        arith,
        first_word b64,
        first_space b64,
        text,
        decoded,
        second_of_blob pub32 (omega (arith, size)),
        size,
        bytes_eq_refl pub32,
      )

  seed_back :
      (seed b64 : Bytes)
      → length seed ≡ 32
      → env.base64_encode seed 64 ≡ some b64
      → load_user_seed env b64 ≡ some seed
  unfolding load_user_seed load_host_seed
  seed_back seed b64 size e = fresh_loaded env laws seed b64 size e

  -- With a base64 that decodes what it encodes: when `cmd_ssh_keygen` stores keys, `load_user_seed`
  -- of the stored text is the seed that was drawn, and by the stored line the server accepts the
  -- public key of this seed.
  pub cmd_ssh_keygen_lem :
      (drawn : Bytes) (keys : UserKeys)
      → cmd_ssh_keygen env drawn ≡ some keys
      → (load_user_seed env keys.privkey ≡ some (out_array 32 drawn))
        × ((pub32 : Bytes) × (ed25519_pub_from_seed env (out_array 32 drawn) ≡ some pub32)
            × (key_line_matches env pub32 keys.pubkey ≡ true))
  unfolding cmd_ssh_keygen openssh_pubkey_line ed25519_pub_from_seed public_blob
  cmd_ssh_keygen_lem drawn keys e =
      let seed = out_array 32 drawn in
      let pub32 = out_array 32 (env.ed25519_keypair seed).0 in
      elim (Option-cases (env.base64_encode seed 64)) [
        | inl none_made ↦ ground (arith, none_made, e)
        | inr (b64, made) ↦ elim (Option-cases (env.base64_encode (public_blob pub32) 120)) [
          | inl no_line ↦ ground (arith, made, no_line, e)
          | inr (line64, line) ↦
              let is : keys ≡ record { privkey = b64; pubkey = line_of line64 } =
                ground (arith, made, line, e) in
              rw is (
                seed_back seed b64 (length-out_array 32 drawn) made,
                (pub32, refl, line_matches pub32 line64 120 (length-out_array 32 _) line),
              )
        ]
      ]
