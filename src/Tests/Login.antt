-- ===== src/Tests/Login.antt =====
-- A whole login: from the connection to the session's shell, on the test platform.
use sshd.Base.{
  ◌≡◌, refl, Bool, true, false, Option, none, some, Bytes, [], ◌∷◌, ◌++◌, length, replicate, codes,
  bytes_eq, out_array,
}
use sshd.Session.{World}
use sshd.Wire.{
  put_u8, big_endian_32, put_u32, put_bytes, put_string, put_cstring, put_namelist, strip_zeros,
  needs_pad, put_mpint_positive, view_init, lacks, get_u8, value_32, get_u32, get_slice, get_string,
  skip_string,
}
use sshd.Crypto.{
  ct_memcmp_from, ct_memcmp16, seq_to_nonce, clamp_last, clamp_scalar, mask_last, sha256,
  x25519_compute, x25519_base, x25519_scalar, mlkem768_encap, ed25519_pub_from_seed, ed25519_sign,
  cc20p1305_length, poly1305_tag, cc20p1305_seal, cc20p1305_open,
}
use sshd.Session.{reset}
use sshd.Session.Packet.{
  padding, send_raw_tcp, framed, send_packet, send_disconnect, length_field, parse_plain,
  parse_opened, parse_sealed, parse_packet,
}
use sshd.Session.Hash.{
  build_host_key_blob, hash_update_k, hash_put_string, hash_put_ephemerals, exchange_hash_input,
  compute_exchange_hash, block_input, derive_loop, derive_key,
}
use sshd.Session.Names.{
  build_kexinit_payload, first_name, name_in_csv_loop, name_in_csv, choose_kex, select_kex_alg,
}
use sshd.Session.Version.{
  send_our_version, send_our_kexinit, find_byte, version_line, accept_version, consume_version,
}
use sshd.Session.Kex.{
  load_host_key, kex_compute_classical, kex_pq_ephemeral, kex_compute_pq, sign_and_reply,
  reply_if_computed, send_kex_ecdh_reply, derive_session_keys, handle_kexinit, finish_kex,
  take_client_blob, handle_kex_ecdh_init, handle_newkeys,
}
use sshd.Session.Auth.{
  second_of_ed25519, key_text, key_line_matches, matches_from, authorized_pub_matches, signed_data,
  c_str, send_userauth_failure, send_userauth_success, handle_service_request, bad_userauth,
  refuse_userauth, check_signature, ask_for_signature, check_key, publickey_method, password_method,
  userauth_method, handle_userauth_request,
}
use sshd.Session.Channel.{
  channel_data, wanted, send_channel_open_failure, send_channel_open_confirm,
  send_channel_request_reply, send_channel_data, send_channel_window_adjust, send_channel_close,
  send_channel_eof, send_exit_status, open_backend_with_mode, received, forward, forward_loop,
  session_on_backend_data,
}
use sshd.Session.Requests.{
  handle_channel_open, reply_if, start_backend, exec_request, request_of_type,
  handle_channel_request, replenish, handle_channel_data, handle_channel_window_adjust,
  handle_channel_close,
}
use sshd.Session.Machine.{
  peer_disconnects, session_open, session_close, handle_global_request, dispatch_guarded,
  dispatch_channel, send_unimplemented, dispatch_type, dispatch_packet, session_on_backend_close,
  drain_step, drain_tcp, after_parse, round, run_rounds, session_on_tcp_data,
}
use sshd.Session.Reach.{Reach, Reach-authed, tcp_arrives, on_tcp_data, opened, then, logged_in}
use sshd.Tests.{test_env}
use sshd.Tests.Sessions.{blank_world}

abbrev plain_packet : Bytes → Bytes
plain_packet payload =
    framed test_env false [] 0 (replicate (padding false (length payload)) 0) payload

abbrev sealed_packet : Bytes → Bytes
sealed_packet payload =
    framed test_env true [] 0 (replicate (padding true (length payload)) 0) payload

abbrev kexinit_message : Bytes
kexinit_message =
    let none_listed = λ (s : Bytes). put_namelist s [] in
    let p = put_namelist (20 ∷ replicate 16 0) (codes "curve25519-sha256") in
    none_listed (none_listed p)

-- The client's bytes: version, KEXINIT, KEX_ECDH_INIT, NEWKEYS, and then, encrypted, the service request
-- and a password.
abbrev pub login_bytes : Bytes
login_bytes =
    codes "SSH-2.0-client"
    ++ (13 ∷ 10 ∷ [])
    ++ plain_packet kexinit_message
    ++ plain_packet (put_string (30 ∷ []) (replicate 32 9))
    ++ plain_packet (21 ∷ [])
    ++ sealed_packet (put_cstring (5 ∷ []) (codes "ssh-userauth"))
    ++ sealed_packet (
        put_cstring
          (put_u8
            (put_cstring
              (put_cstring (put_cstring (50 ∷ []) (codes "admin")) (codes "ssh-connection"))
              (codes "password"))
            0)
          (codes "pw"))

abbrev connected_world : World
connected_world = session_open (record blank_world { tcp_in = [] }) 5 0

abbrev arrived : World
arrived = record connected_world { tcp_in = connected_world.tcp_in ++ login_bytes }

abbrev authed_after : Option World → Bool
authed_after none = false
authed_after (some v) = v.session.authed

login_runs : authed_after (session_on_tcp_data test_env arrived) ≡ true
unfolding put_u8 big_endian_32 put_u32 put_bytes put_string put_cstring put_namelist strip_zeros
    needs_pad put_mpint_positive view_init lacks get_u8 value_32 get_u32 get_slice get_string
    skip_string ct_memcmp_from ct_memcmp16 seq_to_nonce clamp_last clamp_scalar mask_last sha256
    x25519_compute x25519_base x25519_scalar mlkem768_encap ed25519_pub_from_seed ed25519_sign
    cc20p1305_length poly1305_tag cc20p1305_seal cc20p1305_open reset padding send_raw_tcp framed
    send_packet send_disconnect length_field parse_plain parse_opened parse_sealed parse_packet
    build_host_key_blob hash_update_k hash_put_string hash_put_ephemerals exchange_hash_input
    compute_exchange_hash block_input derive_loop derive_key build_kexinit_payload first_name
    name_in_csv_loop name_in_csv choose_kex select_kex_alg send_our_version send_our_kexinit
    find_byte version_line accept_version consume_version load_host_key kex_compute_classical
    kex_pq_ephemeral kex_compute_pq sign_and_reply reply_if_computed send_kex_ecdh_reply
    derive_session_keys handle_kexinit finish_kex take_client_blob handle_kex_ecdh_init
    handle_newkeys second_of_ed25519 key_text key_line_matches matches_from authorized_pub_matches
    signed_data c_str send_userauth_failure send_userauth_success handle_service_request
    bad_userauth refuse_userauth check_signature ask_for_signature check_key publickey_method
    password_method userauth_method handle_userauth_request channel_data wanted
    send_channel_open_failure send_channel_open_confirm send_channel_request_reply send_channel_data
    send_channel_window_adjust send_channel_close send_channel_eof send_exit_status
    open_backend_with_mode received forward forward_loop session_on_backend_data handle_channel_open
    reply_if start_backend exec_request request_of_type handle_channel_request replenish
    handle_channel_data handle_channel_window_adjust handle_channel_close peer_disconnects
    session_open session_close handle_global_request dispatch_guarded dispatch_channel
    send_unimplemented dispatch_type dispatch_packet session_on_backend_close drain_step drain_tcp
    after_parse round run_rounds session_on_tcp_data bytes_eq out_array
login_runs = refl

abbrev world_after : Option World → World
world_after none = connected_world
world_after (some v) = v

abbrev logged_in_world : World
logged_in_world = world_after (session_on_tcp_data test_env arrived)

returned :
    (o : Option World)
    → authed_after o ≡ true
    → (o ≡ some (world_after o)) × ((world_after o).session.authed ≡ true)
returned none e = cc
returned (some v) e = (refl, e)

login_returned :
    (session_on_tcp_data test_env arrived ≡ some logged_in_world)
    × (logged_in_world.session.authed ≡ true)
login_returned = returned (session_on_tcp_data test_env arrived) login_runs

login_reached : Reach test_env logged_in_world
login_reached =
    then (then (opened (record blank_world { tcp_in = [] }) 5 0) (tcp_arrives login_bytes refl))
      (on_tcp_data login_returned.0)

Reach-authed_example :
    (logged_in_world.session.authed ≡ true)
    × (logged_in_world.session.enc_inbound ≡ true)
    × (logged_in_world.session.enc_outbound ≡ true)
Reach-authed_example =
    Reach-authed test_env logged_in_world login_reached (logged_in login_returned.1)
