-- ===== src/Tests.antt =====
-- Concrete platforms, sessions and packets, on which the theorems are applied.
pub mod Codecs
pub mod Sessions
pub mod Login
pub mod Logins
pub mod Servers
pub mod Clients
pub mod ClientPackets
pub mod ClientKeys
pub mod UserKeys
pub mod Hosts
use sshd.Base.{
  ℕ, zero, suc, ◌-◌, ◌≡◌, refl, ap, ap₂, Bool, true, false, Option, none, some, Bytes, [], ◌∷◌,
  IsByte, All, length, replicate, codes, arith, bytes_eq, ◌++◌, if◌then◌else◌,
}
use sshd.Platform.{Platform}
use sshd.Crypto.Aead.{StreamCipher}
use sshd.Session.{Session, World, reset}

-- A stream cipher with the constant key stream 255.
abbrev pub complement : Bytes → Bytes
complement [] = []
complement (x ∷ r) = (255 - x) ∷ complement r

-- The blob of the key whose 32 bytes are 1.
abbrev pub test_blob : Bytes
test_blob = (0 ∷ 0 ∷ 0 ∷ 11 ∷ codes "ssh-ed25519") ++ (0 ∷ 0 ∷ 0 ∷ 32 ∷ replicate 32 1)

-- A platform that computes: it draws zeros, accepts every signature and password and the one stored
-- key, and its streams take and give as many bytes as are wanted.
abbrev pub test_env : Platform
test_env = record {
  sha256 = λ message. replicate 32 (length message);
  chacha20 = λ k nonce ctr s. complement s;
  chacha20_fails = λ k nonce ctr s. false;
  poly1305 = λ k s. replicate 16 7;
  poly1305_fails = λ k s. false;
  curve25519_mul = λ scalar point. some (replicate 32 9);
  kem_enc = λ pk. some (replicate 1088 3, replicate 32 4);
  ed25519_keypair = λ seed. (replicate 32 1, replicate 64 2);
  ed25519_sign = λ msg public private. replicate 64 5;
  ed25519_verify = λ sig msg public. true;
  base64_decode = λ text capacity. some (if bytes_eq text (codes "key") then test_blob else text);
  base64_encode = λ bytes capacity. some (codes "key==");
  stale = λ n. replicate n 0;
  random = λ call n. replicate n 0;
  its_send = λ trace handle bytes. length bytes;
  its_connect = λ trace backend. some 8;
  its_recv_more = λ want waiting. 1024;
  host_seed = replicate 32 6;
  authorized_count = 1;
  authorized_line = λ i. codes "ssh-ed25519 key";
  color = false;
  log_color = false;
  auth_login = λ pw. true;
}

length-complement : (s : Bytes) → length (complement s) ≡ length s
length-complement [] = refl
length-complement (x ∷ r) = ap suc (length-complement r)

complement-IsByte : (s : Bytes) → All IsByte s → All IsByte (complement s)
complement-IsByte [] h = h
complement-IsByte (x ∷ r) h = (omega arith, complement-IsByte r h.1)

complement-complement : (s : Bytes) → All IsByte s → complement (complement s) ≡ s
complement-complement [] h = refl
complement-complement (x ∷ r) h =
    ap₂ (λ (a : ℕ) (t : Bytes). a ∷ t) (omega (arith, h.0)) (complement-complement r h.1)

pub test_laws : StreamCipher test_env
test_laws = record {
  chacha20_succeeds = λ k nonce ctr s. refl;
  poly1305_succeeds = λ k s. refl;
  length-chacha20 = λ k nonce ctr s. length-complement s;
  chacha20-IsByte = λ k nonce ctr s h. complement-IsByte s h;
  chacha20-chacha20 = λ k nonce ctr s h. complement-complement s h;
}
