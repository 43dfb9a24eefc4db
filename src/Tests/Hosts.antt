-- ===== src/Tests/Hosts.antt =====
-- The theorems on the host key and the listener at concrete settings.
use sshd.Base.{
  ◌≡◌, ◌⊎◌, refl, true, none, some, if◌then◌else◌, Bytes, [], ◌∷◌, ◌++◌, replicate, codes,
  out_array, arith,
}
use sshd.Crypto.{sha256, ed25519_pub_from_seed, base64_nopad, strip_equals, strip_last}
use sshd.Session.Hash.{build_host_key_blob}
use sshd.Session.Kex.{load_host_key}
use sshd.Client.KnownHosts.{hostkey_fingerprint}
use sshd.Host.{
  Settings, sshd_port_tcp, storage_get_int, cmd_sshd_enable, load_host_seed, init_host_seed,
  key_blob_array, print_fingerprint, sshd_host_fingerprint,
}
use sshd.Host.Listener.{cmd_sshd_enable_lem}
use sshd.Host.Fingerprint.{sshd_host_fingerprint_lem, init_host_seed_lem}
use sshd.Tests.UserKeys.{key_env, key_laws}

abbrev shown_text : Bytes
shown_text = codes "SHA256:" ++ replicate 32 84

is_shown : sshd_host_fingerprint key_env 64 key_env.host_seed ≡ some shown_text
unfolding sshd_host_fingerprint load_host_seed ed25519_pub_from_seed print_fingerprint
    key_blob_array sha256 base64_nopad strip_equals strip_last out_array
is_shown = refl

sshd_host_fingerprint_lem_example :
    (seed pub32 : Bytes) × (load_host_key key_env ≡ some (seed, pub32))
    × (shown_text ≡ hostkey_fingerprint key_env (build_host_key_blob pub32))
sshd_host_fingerprint_lem_example =
    sshd_host_fingerprint_lem key_env key_laws 64 shown_text (omega arith) is_shown

seed_is_encoded : key_env.base64_encode (out_array 32 (1 ∷ [])) 64 ≡ some (34 ∷ replicate 31 33)
unfolding out_array
seed_is_encoded = refl

init_host_seed_lem_example :
    (seed : Bytes) × (load_host_seed key_env (init_host_seed key_env (1 ∷ []) []) ≡ some seed)
    × ((load_host_seed key_env [] ≡ some seed)
        ⊎ ((load_host_seed key_env [] ≡ none) × (seed ≡ out_array 32 (1 ∷ []))))
init_host_seed_lem_example =
    init_host_seed_lem key_env key_laws (1 ∷ []) [] (34 ∷ replicate 31 33) seed_is_encoded

abbrev first_settings : Settings
first_settings = record { enabled = none; port = some 2222; net_port = none }

cmd_sshd_enable_lem_example :
    let v = (cmd_sshd_enable true first_settings).1 in
    (v.net_port ≡ some (if true then storage_get_int (some 2222) sshd_port_tcp else 0))
    × (cmd_sshd_enable true v ≡ (0, v))
cmd_sshd_enable_lem_example =
    cmd_sshd_enable_lem true first_settings (unfold storage_get_int in ground arith)
