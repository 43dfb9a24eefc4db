-- ===== src/Host/Fingerprint.antt =====
-- The host key as the server's commands show it and as its clients see it.
use sshd.Base.{
  ℕ, ◌-◌, ◌≤◌, ◌≡◌, refl, sym, ap, ◌∙◌, inl, inr, ◌⊎◌, false, ◌==◌, none, some, Bytes, [], ◌++◌,
  length, codes, out_array, length-out_array, Option-cases, arith,
}
use sshd.Platform.{Platform}
use sshd.Wire.{put_string, put_cstring, big_endian_32}
use sshd.Wire.RoundTrip.{put_string_lem}
use sshd.Crypto.{sha256, ed25519_pub_from_seed, base64_nopad}
use sshd.Crypto.Base64.{Base64}
use sshd.Session.{ssh_ed25519}
use sshd.Session.Hash.{build_host_key_blob}
use sshd.Session.Kex.{load_host_key}
use sshd.Client.KnownHosts.{hostkey_fingerprint}
use sshd.Host.{
  load_host_seed, generate_host_seed, init_host_seed, key_blob_array, print_fingerprint,
  sshd_host_fingerprint,
}

key_blob_array_lem :
    (pub32 : Bytes) → length pub32 ≡ 32 → key_blob_array pub32 ≡ build_host_key_blob pub32
unfolding key_blob_array build_host_key_blob put_cstring put_string big_endian_32
key_blob_array_lem pub32 size = sym (
    put_string_lem (put_string [] ssh_ed25519) pub32 (omega (arith, size))
    ∙ ap (λ n. put_string [] ssh_ed25519 ++ (big_endian_32 n ++ pub32)) size)

-- With more room there is the same text.
base64_nopad_more :
    (env : Platform) (laws : Base64 env) (bytes : Bytes) (n m : ℕ)
    → n ≤ m
    → (length (base64_nopad env bytes n) == 0) ≡ false
    → base64_nopad env bytes n ≡ base64_nopad env bytes m
unfolding base64_nopad
base64_nopad_more env laws bytes n m le some_text =
    elim (Option-cases (env.base64_encode bytes n)) [
      | inl no_room ↦ ground (arith, no_room, some_text)
      | inr (text, made) ↦ ground (arith, made, laws.more_room bytes text n m made le)
    ]

-- The text for a public key is that of a client for the blob of the key.
print_fingerprint_lem :
    (env : Platform) (laws : Base64 env) (buf_len : ℕ) (pub32 text : Bytes)
    → buf_len ≤ 80
    → length pub32 ≡ 32
    → print_fingerprint env buf_len pub32 ≡ some text
    → text ≡ hostkey_fingerprint env (build_host_key_blob pub32)
unfolding print_fingerprint hostkey_fingerprint
print_fingerprint_lem env laws buf_len pub32 text small size e =
    let digest = sha256 env (key_blob_array pub32) in
    let short = base64_nopad env digest (buf_len - 7) in
    let shown : ((length short == 0) ≡ false) × (text ≡ codes "SHA256:" ++ short) =
      ground (arith, e) in
    shown.1
    ∙ ap (λ t. codes "SHA256:" ++ t)
        (base64_nopad_more env laws digest (buf_len - 7) (80 - 7) (omega (arith, small)) shown.0
          ∙ ap (λ blob. base64_nopad env (sha256 env blob) (80 - 7))
              (key_blob_array_lem pub32 size))

-- With a base64 that gives the same text in an output with more room: a fingerprint that
-- `sshdHostFingerprint` shows from the stored seed, in an array of at most 80 bytes, is the one that a
-- client computes from the key blob which the server sends in its key exchange.
pub sshd_host_fingerprint_lem :
    (env : Platform) (laws : Base64 env) (buf_len : ℕ) (text : Bytes)
    → buf_len ≤ 80
    → sshd_host_fingerprint env buf_len env.host_seed ≡ some text
    → (seed pub32 : Bytes) × (load_host_key env ≡ some (seed, pub32))
      × (text ≡ hostkey_fingerprint env (build_host_key_blob pub32))
unfolding sshd_host_fingerprint load_host_key load_host_seed ed25519_pub_from_seed
sshd_host_fingerprint_lem env laws buf_len text small e =
    elim (Option-cases (load_host_seed env env.host_seed)) [
      | inl nothing ↦ ground (arith, nothing, e)
      | inr (seed, loaded) ↦
          let pub32 = out_array 32 (env.ed25519_keypair seed).0 in
          (
            seed,
            pub32,
            ground (arith, loaded),
            print_fingerprint_lem env laws buf_len pub32 text small (length-out_array 32 _)
                (ground (arith, loaded, e)),
          )
    ]

-- A stored seed is loaded back.
pub fresh_loaded :
    (env : Platform) (laws : Base64 env) (seed b64 : Bytes)
    → length seed ≡ 32
    → env.base64_encode seed 64 ≡ some b64
    → load_host_seed env b64 ≡ some seed
unfolding load_host_seed
fresh_loaded env laws seed b64 size made =
    let decoded = laws.decode-encode seed b64 64 32 made (omega (arith, size)) in
    let some_text = laws.not_empty seed b64 64 made (omega (arith, size)) in
    ground (arith, decoded, size, some_text)

-- With a base64 that decodes what it encodes: after the step of `onInit`, where a drawn seed is
-- encoded, a seed can be loaded; it is the one that could be loaded before, or, where none could,
-- the drawn one.
pub init_host_seed_lem :
    (env : Platform) (laws : Base64 env) (drawn stored b64 : Bytes)
    → env.base64_encode (out_array 32 drawn) 64 ≡ some b64
    → (seed : Bytes) × (load_host_seed env (init_host_seed env drawn stored) ≡ some seed)
      × ((load_host_seed env stored ≡ some seed)
          ⊎ ((load_host_seed env stored ≡ none) × (seed ≡ out_array 32 drawn)))
unfolding init_host_seed generate_host_seed
init_host_seed_lem env laws drawn stored b64 made =
    let fresh = out_array 32 drawn in
    elim (Option-cases (load_host_seed env stored)) [
      | inl nothing ↦ (
        fresh,
        ground (
          arith,
          nothing,
          made,
          fresh_loaded env laws fresh b64 (length-out_array 32 drawn) made,
        ),
        inr (nothing, refl),
      )
      | inr (seed, loaded) ↦ (seed, ground (arith, loaded), inl loaded)
    ]
