-- ===== src/Session/Names.antt =====
-- The KEXINIT message of esp-idf/src/sshd_session.cpp: the lists of algorithm names.
pub mod Csv
use sshd.Base.{
  ℕ, zero, suc, ◌+◌, Bool, true, false, ◌||◌, ◌==◌, Option, none, some, Bytes, [], ◌∷◌, ◌++◌, ltb,
  if◌then◌else◌, length, drop, bytes_eq, codes,
}
use sshd.Wire.{view_init, get_string, put_u8, put_u32, put_namelist}
use sshd.Session.{KexAlg, curve25519_sha256, mlkem768_x25519, ssh_ed25519}
use sshd.Session.Msg

abbrev pub our_kex_names : Bytes
our_kex_names = codes "mlkem768x25519-sha256,curve25519-sha256,curve25519-sha256@libssh.org"

abbrev pub chacha_name : Bytes
chacha_name = codes "chacha20-poly1305@openssh.com"

-- The appended string; `cookie` came from `randomBytes`.
unfoldable pub build_kexinit_payload : Bytes → Bytes
build_kexinit_payload cookie =
    let p0 = put_u8 [] Msg.kexinit ++ cookie in
    let p1 = put_namelist p0 our_kex_names in
    let p2 = put_namelist p1 ssh_ed25519 in
    let p3 = put_namelist (put_namelist p2 chacha_name) chacha_name in
    let p4 = put_namelist (put_namelist p3 []) [] in
    let p5 = put_namelist (put_namelist p4 (codes "none")) (codes "none") in
    let p6 = put_namelist (put_namelist p5 []) [] in put_u32 (put_u8 p6 0) 0

-- One name off the front of a list, and what is behind its comma.
unfoldable pub first_name : Bytes → Bytes × Bytes
first_name [] = ([], [])
first_name (x ∷ r) =
    let (name, rest) = first_name r in if x == b',' then ([], r) else (x ∷ name, rest)

-- The `while (i < csvLen)` of `name_in_csv`, on what is not yet read, with fuel.
unfoldable pub name_in_csv_loop : ℕ → Bytes → Bytes → Bool
name_in_csv_loop fuel needle [] = false
name_in_csv_loop zero needle (x ∷ r) = false
name_in_csv_loop (suc fuel) needle (x ∷ r) =
    let (name, rest) = first_name (x ∷ r) in
    let again = name_in_csv_loop fuel needle rest in if bytes_eq name needle then true else again

-- Each round reads a byte at least.
unfoldable pub name_in_csv : Bytes → Bytes → Bool
name_in_csv needle csv = name_in_csv_loop (length csv) needle csv

abbrev pub mlkem_name : Bytes
mlkem_name = codes "mlkem768x25519-sha256"

abbrev pub curve_name : Bytes
curve_name = codes "curve25519-sha256"

abbrev pub curve_libssh_name : Bytes
curve_libssh_name = codes "curve25519-sha256@libssh.org"

unfoldable pub choose_kex : Bytes → Option KexAlg
choose_kex list =
    if name_in_csv mlkem_name list
    then some mlkem768_x25519
    else (if name_in_csv curve_name list || name_in_csv curve_libssh_name list
        then some curve25519_sha256
        else none)

unfoldable pub select_kex_alg : Bytes → Option KexAlg
select_kex_alg payload =
    if ltb (length payload) (17 + 4)
    then none
    else elim (get_string (view_init (drop 17 payload))).0 [
      | none ↦ none
      | some list ↦ choose_kex list
    ]
