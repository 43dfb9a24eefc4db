-- ===== src/Client/Kexinit/Meets.antt =====
-- The KEXINIT of each side, read by the other.
use sshd.Base.{
  ◌≡◌, refl, sym, ap, ◌∙◌, Bytes, some, [], ◌∷◌, ◌++◌, length, drop, drop_at, length-append,
  append_assoc, replicate, arith, bytes_eq,
}
use sshd.Wire.{
  put_u8, put_u32, put_bytes, put_string, put_cstring, put_namelist, view_init, get_string, get_u32,
  get_slice, lacks, value_32, big_endian_32,
}
use sshd.Session.{curve25519_sha256}
use sshd.Session.Names.{
  build_kexinit_payload, select_kex_alg, choose_kex, name_in_csv, name_in_csv_loop, first_name,
}
use sshd.Client.Kexinit.{put_kexinit, check_kexinit, read_lists, check_lists, good}

zero_cookie : Bytes
zero_cookie = replicate 16 0

-- What stands behind the cookie does not depend on it.
payload_split :
    (cookie : Bytes)
    → build_kexinit_payload cookie
      ≡ (20 ∷ cookie) ++ drop 17 (build_kexinit_payload (replicate 16 0))
unfolding build_kexinit_payload put_u8 put_u32 put_bytes put_string put_cstring put_namelist
    big_endian_32
payload_split cookie = simp append_assoc

client_payload_split :
    (cookie : Bytes)
    → put_kexinit [] cookie ≡ (20 ∷ cookie) ++ drop 17 (put_kexinit [] (replicate 16 0))
unfolding put_kexinit put_u8 put_u32 put_bytes put_string put_cstring put_namelist big_endian_32
client_payload_split cookie = simp append_assoc

-- Behind the cookie stand the same lists, and the payload is as long, for every cookie.
same_lists : (cookie tail : Bytes) → length cookie ≡ 16 → drop 17 ((20 ∷ cookie) ++ tail) ≡ tail
same_lists cookie tail h = drop_at 16 cookie tail h

server_lists :
    (cookie : Bytes)
    → length cookie ≡ 16
    → (drop 17 (build_kexinit_payload cookie) ≡ drop 17 (build_kexinit_payload (replicate 16 0)))
      × (length (build_kexinit_payload cookie) ≡ length (build_kexinit_payload (replicate 16 0)))
server_lists cookie h =
    let tail = drop 17 (build_kexinit_payload (replicate 16 0)) in
    (
      ap (drop 17) (payload_split cookie) ∙ same_lists cookie tail h,
      ap length (payload_split cookie)
          ∙ omega (arith, length-append cookie tail, h)
          ∙ ap length (sym (payload_split (replicate 16 0))),
    )

client_lists :
    (cookie : Bytes)
    → length cookie ≡ 16
    → (drop 17 (put_kexinit [] cookie) ≡ drop 17 (put_kexinit [] (replicate 16 0)))
      × (length (put_kexinit [] cookie) ≡ length (put_kexinit [] (replicate 16 0)))
client_lists cookie h =
    let tail = drop 17 (put_kexinit [] (replicate 16 0)) in
    (
      ap (drop 17) (client_payload_split cookie) ∙ same_lists cookie tail h,
      ap length (client_payload_split cookie)
          ∙ omega (arith, length-append cookie tail, h)
          ∙ ap length (sym (client_payload_split (replicate 16 0))),
    )

check_kexinit_same :
    (p q : Bytes) → drop 17 p ≡ drop 17 q → length p ≡ length q → check_kexinit p ≡ check_kexinit q
unfolding check_kexinit
check_kexinit_same p q lists size = rw (lists, size) refl

select_kex_alg_same :
    (p q : Bytes)
    → drop 17 p ≡ drop 17 q
    → length p ≡ length q
    → select_kex_alg p ≡ select_kex_alg q
unfolding select_kex_alg
select_kex_alg_same p q lists size = rw (lists, size) refl

zero_check : check_kexinit (build_kexinit_payload (replicate 16 0)) ≡ good
unfolding check_kexinit read_lists check_lists build_kexinit_payload put_u8 put_u32 put_bytes
    put_string put_cstring put_namelist big_endian_32 view_init get_string get_u32 get_slice lacks
    value_32 name_in_csv name_in_csv_loop first_name bytes_eq
zero_check = refl

zero_choice : select_kex_alg (put_kexinit [] (replicate 16 0)) ≡ some curve25519_sha256
unfolding select_kex_alg choose_kex put_kexinit put_u8 put_u32 put_bytes put_string put_cstring
    put_namelist big_endian_32 view_init get_string get_u32 get_slice lacks value_32 name_in_csv
    name_in_csv_loop first_name bytes_eq
zero_choice = refl

-- The two KEXINITs meet: for all cookies of 16 bytes, the client's check accepts the server's KEXINIT,
-- and of the client's KEXINIT the server chooses curve25519-sha256, which is what the client speaks.
pub check_kexinit-select_kex_alg :
    (server_cookie client_cookie : Bytes)
    → length server_cookie ≡ 16
    → length client_cookie ≡ 16
    → (check_kexinit (build_kexinit_payload server_cookie) ≡ good)
      × (select_kex_alg (put_kexinit [] client_cookie) ≡ some curve25519_sha256)
check_kexinit-select_kex_alg server_cookie client_cookie hs hc =
    let (server_same, server_size) = server_lists server_cookie hs in
    let (client_same, client_size) = client_lists client_cookie hc in
    (
      check_kexinit_same _ _ server_same server_size ∙ zero_check,
      select_kex_alg_same _ _ client_same client_size ∙ zero_choice,
    )
