-- ===== src/Tests/UserKeys.antt =====
-- The theorem on the user's keys on a platform whose base64 adds 33 to each byte.
use sshd.Base.{
  ℕ, ◌+◌, ◌-◌, ◌≡◌, refl, sym, subst, ◌∙◌, suc, ap, ap₂, some, Bytes, All, [], ◌∷◌, ◌++◌, false,
  true, ◌==◌, length, replicate, codes, out_array, arith,
}
use sshd.Platform.{Platform}
use sshd.Wire.{put_u32, big_endian_32, put_string, put_cstring}
use sshd.Crypto.{ed25519_pub_from_seed}
use sshd.Session.Auth.{key_line_matches}
use sshd.Client.Command.{load_user_seed, openssh_pubkey_line, UserKeys, cmd_ssh_keygen}
use sshd.Crypto.Base64.{Base64}
use sshd.Client.Command.UserKey.{cmd_ssh_keygen_lem}
use sshd.Tests.{test_env, test_blob}

abbrev pub plus_33 : Bytes → Bytes
plus_33 [] = []
plus_33 (x ∷ r) = (x + 33) ∷ plus_33 r

abbrev pub minus_33 : Bytes → Bytes
minus_33 [] = []
minus_33 (x ∷ r) = (x - 33) ∷ minus_33 r

abbrev pub key_env : Platform
key_env = record test_env {
  base64_encode = λ bytes capacity. some (plus_33 bytes);
  base64_decode = λ text capacity. some (minus_33 text);
}

minus_33-plus_33 : (s : Bytes) → minus_33 (plus_33 s) ≡ s
minus_33-plus_33 [] = refl
minus_33-plus_33 (x ∷ r) = ap₂ (λ (a : ℕ) (t : Bytes). a ∷ t) (omega arith) (minus_33-plus_33 r)

no_space_plus_33 : (s : Bytes) → All (λ c. (c == b' ') ≡ false) (plus_33 s)
no_space_plus_33 [] = tt
no_space_plus_33 (x ∷ r) = (ground arith, no_space_plus_33 r)

length-plus_33 : (s : Bytes) → length (plus_33 s) ≡ length s
length-plus_33 [] = refl
length-plus_33 (x ∷ r) = ap suc (length-plus_33 r)

some_text : (s t : Bytes) → some (plus_33 s) ≡ some t → plus_33 s ≡ t
some_text s t e = cc

pub key_laws : Base64 key_env
key_laws = record {
  decode-encode = λ bytes text n m e room.
      ap some (ap minus_33 (sym (some_text bytes text e)) ∙ minus_33-plus_33 bytes);
  no_space = λ bytes text n e.
      subst (All (λ c. (c == b' ') ≡ false)) (some_text bytes text e) (no_space_plus_33 bytes);
  not_empty = λ bytes text n e h.
      omega (arith, h, length-plus_33 bytes, ap length (some_text bytes text e));
  more_room = λ bytes text n m e le. e;
}

abbrev made_keys : UserKeys
made_keys = record { privkey = replicate 32 33; pubkey = codes "ssh-ed25519 " ++ plus_33 test_blob }

keys_made : cmd_ssh_keygen key_env [] ≡ some made_keys
unfolding cmd_ssh_keygen openssh_pubkey_line ed25519_pub_from_seed out_array put_string put_cstring
    put_u32 big_endian_32
keys_made = refl

cmd_ssh_keygen_lem_example :
    (load_user_seed key_env (replicate 32 33) ≡ some (out_array 32 []))
    × ((pub32 : Bytes) × (ed25519_pub_from_seed key_env (out_array 32 []) ≡ some pub32)
        × (key_line_matches key_env pub32 (codes "ssh-ed25519 " ++ plus_33 test_blob) ≡ true))
cmd_ssh_keygen_lem_example = cmd_ssh_keygen_lem key_env key_laws [] made_keys keys_made
