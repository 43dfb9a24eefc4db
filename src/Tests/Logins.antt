-- ===== src/Tests/Logins.antt =====
-- The theorems on logins and on the choice of the key exchange at concrete requests.
use sshd.Base.{
  ℕ, ◌≡◌, ◌≢◌, refl, true, false, some, Bytes, List, All, [], ◌∷◌, ◌++◌, length, replicate, codes,
  bytes_eq, arith,
}
use sshd.Wire.{View, view_init, get_string}
use sshd.Session.Version.{find_byte}
use sshd.Session.Auth.{
  authorized_pub_matches, matches_from, key_line_matches, key_text, second_of_ed25519,
}
use sshd.Session.Accept.{Request}
use sshd.Session.Names.{choose_kex, mlkem_name, curve_name}
use sshd.Session.Names.Csv.{joined_by_commas, IsName, Choice, choose_kex-Choice}
use sshd.Tests.{test_env, test_blob}

-- A string as it is sent, of fewer than 256 bytes.
abbrev short_string : Bytes → Bytes
short_string s = (0 ∷ 0 ∷ 0 ∷ length s ∷ []) ++ s

abbrev head_of : Bytes → Bytes
head_of method =
    short_string (codes "admin") ++ short_string (codes "ssh-connection") ++ short_string method

abbrev view_at : Bytes → ℕ → View
view_at p pos = record { p = p; n = length p; pos = pos; bad = false }

-- ---- password ----

abbrev password_request : Bytes
password_request = head_of (codes "password") ++ (0 ∷ short_string (codes "pw"))

password_named :
    Request password_request
      (codes "admin")
      (codes "ssh-connection")
      (codes "password")
      (view_at password_request 39)
unfolding view_init get_string
password_named = record { reads_user = refl; reads_svc = refl; reads_method = refl }

-- ---- public key ----

abbrev test_signature : Bytes
test_signature = short_string (codes "ssh-ed25519") ++ short_string (replicate 64 5)

abbrev publickey_request : Bytes
publickey_request =
    head_of (codes "publickey")
    ++ (1 ∷ short_string (codes "ssh-ed25519"))
    ++ short_string test_blob
    ++ short_string test_signature

publickey_named :
    Request publickey_request
      (codes "admin")
      (codes "ssh-connection")
      (codes "publickey")
      (view_at publickey_request 40)
unfolding view_init get_string
publickey_named = record { reads_user = refl; reads_svc = refl; reads_method = refl }

test_key_known : authorized_pub_matches test_env (replicate 32 1) ≡ true
unfolding authorized_pub_matches matches_from key_line_matches key_text second_of_ed25519 find_byte
    get_string view_init bytes_eq
test_key_known = refl

blob_read : second_of_ed25519 test_blob ≡ some (replicate 32 1)
unfolding second_of_ed25519 get_string view_init bytes_eq
blob_read = refl

signature_read : second_of_ed25519 test_signature ≡ some (replicate 64 5)
unfolding second_of_ed25519 get_string view_init bytes_eq
signature_read = refl

-- ---- name-lists ----

abbrev client_names : List Bytes
client_names = curve_name ∷ mlkem_name ∷ []

client_names-IsName : All IsName client_names
client_names-IsName = ground arith

mlkem_some : mlkem_name ≢ []
mlkem_some e = cc

choose_kex-Choice_example : Choice client_names (choose_kex (joined_by_commas client_names))
choose_kex-Choice_example = choose_kex-Choice client_names client_names-IsName
