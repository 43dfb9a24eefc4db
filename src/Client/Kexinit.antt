-- ===== src/Client/Kexinit.antt =====
-- The two KEXINIT messages in esp-idf/src/ssh_client.cpp: `put_kexinit` and `check_kexinit`.
pub mod Meets
use sshd.Base.{
  ◌+◌, Bool, true, false, not, ◌&&◌, ◌||◌, Option, none, some, Bytes, [], ◌++◌, ltb, if◌then◌else◌,
  length, take, drop, codes,
}
use sshd.Wire.{View, view_init, get_string, put_u8, put_u32, put_namelist}
use sshd.Session.{ssh_ed25519}
use sshd.Session.Msg
use sshd.Session.Names.{name_in_csv, chacha_name, curve_name, curve_libssh_name}

-- The appended string; `cookie` came from `randomBytes`.
unfoldable pub put_kexinit : Bytes → Bytes → Bytes
put_kexinit out cookie =
    let p0 = put_u8 out Msg.kexinit ++ cookie in
    let p1 = put_namelist p0 (codes "curve25519-sha256,curve25519-sha256@libssh.org") in
    let p2 = put_namelist p1 ssh_ed25519 in
    let p3 = put_namelist (put_namelist p2 chacha_name) chacha_name in
    let p4 = put_namelist (put_namelist p3 []) [] in
    let p5 = put_namelist (put_namelist p4 (codes "none")) (codes "none") in
    let p6 = put_namelist (put_namelist p5 []) [] in put_u32 (put_u8 p6 0) 0

-- What `check_kexinit` writes to `errOut`, which it leaves as it was where it cannot read a list.
pub data Checked : Type 0 where
  good : Checked
  unreadable : Checked
  missing : Bytes → Checked

unfoldable pub check_lists : Bytes → Bytes → Bytes → Bytes → Checked
check_lists kex hk enc_cs enc_sc =
    if not (name_in_csv curve_name kex) && not (name_in_csv curve_libssh_name kex)
    then missing (codes "server offers no curve25519-sha256 KEX")
    else (if not (name_in_csv ssh_ed25519 hk)
        then missing (codes "server has no ssh-ed25519 host key")
        else (if not (name_in_csv chacha_name enc_cs) || not (name_in_csv chacha_name enc_sc)
            then missing (codes "server lacks chacha20-poly1305 cipher")
            else good))

-- The lists behind the cookie.
unfoldable pub read_lists : View → Checked
read_lists v =
    let (kex, v1) = get_string v in
    let (hk, v2) = get_string v1 in
    let (enc_cs, v3) = get_string v2 in
    let (enc_sc, v4) = get_string v3 in
    elim kex [
      | none ↦ unreadable
      | some kex_list ↦ elim hk [
        | none ↦ unreadable
        | some hk_list ↦ elim enc_cs [
          | none ↦ unreadable
          | some cs_list ↦ elim enc_sc [
            | none ↦ unreadable
            | some sc_list ↦ check_lists kex_list hk_list cs_list sc_list
          ]
        ]
      ]
    ]

unfoldable pub check_kexinit : Bytes → Checked
check_kexinit payload =
    if ltb (length payload) (17 + 4) then unreadable else read_lists (view_init (drop 17 payload))
