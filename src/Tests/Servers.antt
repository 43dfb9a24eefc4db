-- ===== src/Tests/Servers.antt =====
-- The theorems on the slots and the key store at concrete states.
use sshd.Base.{
  zero, suc, ◌≡◌, ◌≢◌, ◌↔◌, refl, Bool, true, false, Option, none, some, Bytes, List, [], ◌∷◌, ◌++◌,
  length, codes, bytes_eq, out_array, All, ◌<◌, arith,
}
use sshd.Wire.{
  put_u8, big_endian_32, put_u32, put_bytes, put_string, put_cstring, put_namelist, strip_zeros,
  needs_pad, put_mpint_positive, view_init, lacks, get_u8, value_32, get_u32, get_slice, get_string,
  skip_string,
}
use sshd.Crypto.{
  ct_memcmp_from, ct_memcmp16, seq_to_nonce, clamp_last, clamp_scalar, mask_last, sha256,
  x25519_compute, x25519_base, x25519_scalar, mlkem768_encap, ed25519_pub_from_seed, ed25519_sign,
  cc20p1305_length, poly1305_tag, cc20p1305_seal, cc20p1305_open,
}
use sshd.Session.{reset}
use sshd.Session.Packet.{
  padding, send_raw_tcp, framed, send_packet, send_disconnect, length_field, parse_plain,
  parse_opened, parse_sealed, parse_packet,
}
use sshd.Session.Hash.{
  build_host_key_blob, hash_update_k, hash_put_string, hash_put_ephemerals, exchange_hash_input,
  compute_exchange_hash, block_input, derive_loop, derive_key,
}
use sshd.Session.Names.{
  build_kexinit_payload, first_name, name_in_csv_loop, name_in_csv, choose_kex, select_kex_alg,
}
use sshd.Session.Version.{
  send_our_version, send_our_kexinit, find_byte, version_line, accept_version, consume_version,
}
use sshd.Session.Kex.{
  load_host_key, kex_compute_classical, kex_pq_ephemeral, kex_compute_pq, sign_and_reply,
  reply_if_computed, send_kex_ecdh_reply, derive_session_keys, handle_kexinit, finish_kex,
  take_client_blob, handle_kex_ecdh_init, handle_newkeys,
}
use sshd.Session.Auth.{
  second_of_ed25519, key_text, key_line_matches, matches_from, authorized_pub_matches, signed_data,
  c_str, send_userauth_failure, send_userauth_success, handle_service_request, bad_userauth,
  refuse_userauth, check_signature, ask_for_signature, check_key, publickey_method, password_method,
  userauth_method, handle_userauth_request,
}
use sshd.Session.Channel.{
  channel_data, wanted, send_channel_open_failure, send_channel_open_confirm,
  send_channel_request_reply, send_channel_data, send_channel_window_adjust, send_channel_close,
  send_channel_eof, send_exit_status, open_backend_with_mode, received, forward, forward_loop,
  session_on_backend_data,
}
use sshd.Session.Requests.{
  handle_channel_open, reply_if, start_backend, exec_request, request_of_type,
  handle_channel_request, replenish, handle_channel_data, handle_channel_window_adjust,
  handle_channel_close,
}
use sshd.Session.Machine.{
  peer_disconnects, session_open, session_close, handle_global_request, dispatch_guarded,
  dispatch_channel, send_unimplemented, dispatch_type, dispatch_packet, session_on_backend_close,
  drain_step, drain_tcp, after_parse, round, run_rounds, session_on_tcp_data,
}
use sshd.Session.Slot.{Held}
use sshd.Server.{
  Slot, Server, max_sessions, slot_at, set_slot, find_free_slot, store, sshd_slot_free,
  on_tcp_connect, sshd_session_at, on_tcp_recv, active_sessions,
}
use sshd.Server.Reach.{
  AllZeroed, Reach, Reach-slot_at, started, then, connects, bytes_arrive, receives,
}
use sshd.Server.Connect.{on_tcp_connect-none, on_tcp_connect-some, Taken}
use sshd.Keys.{
  Key, Store, key_add, key_remove, atoi, max_int, trim_front, signed_value, digits_value,
}
use sshd.Keys.Add.{Added, key_add-Added}
use sshd.Session.{version}
use sshd.Keys.Remove.{Removed, key_remove_lem}
use sshd.Tests.{test_env}
use sshd.Tests.Sessions.{blank}
use sshd.Tests.Login.{login_bytes}

abbrev idle : Slot
idle = record {
  in_use = false;
  session = record blank { phase = version };
  tcp_in = [];
  backend_in = [];
}

abbrev idle_server : Server
idle_server = record { slots = idle ∷ idle ∷ []; trace = []; draws = 0 }

abbrev connected_server : Server
connected_server = (on_tcp_connect idle_server 5).1

abbrev slot_of : Option Slot → Slot
slot_of none = idle
slot_of (some sl) = sl

abbrev connected_slot : Slot
connected_slot = slot_of (slot_at 0 connected_server.slots)

connected_at : slot_at 0 connected_server.slots ≡ some connected_slot
unfolding on_tcp_connect find_free_slot slot_at set_slot
connected_at = refl

abbrev arrived_server : Server
arrived_server = record connected_server {
  slots =
      set_slot 0
        (record connected_slot {
          tcp_in = connected_slot.tcp_in ++ login_bytes;
          backend_in = connected_slot.backend_in ++ [];
        })
        connected_server.slots;
}

abbrev server_after : Option Server → Server
server_after none = idle_server
server_after (some sv) = sv

abbrev busy_server : Server
busy_server = server_after (on_tcp_recv test_env arrived_server 0)

abbrev returns : Option Server → Bool
returns none = false
returns (some sv) = true

busy_returns : returns (on_tcp_recv test_env arrived_server 0) ≡ true
unfolding put_u8 big_endian_32 put_u32 put_bytes put_string put_cstring put_namelist strip_zeros
    needs_pad put_mpint_positive view_init lacks get_u8 value_32 get_u32 get_slice get_string
    skip_string ct_memcmp_from ct_memcmp16 seq_to_nonce clamp_last clamp_scalar mask_last sha256
    x25519_compute x25519_base x25519_scalar mlkem768_encap ed25519_pub_from_seed ed25519_sign
    cc20p1305_length poly1305_tag cc20p1305_seal cc20p1305_open reset padding send_raw_tcp framed
    send_packet send_disconnect length_field parse_plain parse_opened parse_sealed parse_packet
    build_host_key_blob hash_update_k hash_put_string hash_put_ephemerals exchange_hash_input
    compute_exchange_hash block_input derive_loop derive_key build_kexinit_payload first_name
    name_in_csv_loop name_in_csv choose_kex select_kex_alg send_our_version send_our_kexinit
    find_byte version_line accept_version consume_version load_host_key kex_compute_classical
    kex_pq_ephemeral kex_compute_pq sign_and_reply reply_if_computed send_kex_ecdh_reply
    derive_session_keys handle_kexinit finish_kex take_client_blob handle_kex_ecdh_init
    handle_newkeys second_of_ed25519 key_text key_line_matches matches_from authorized_pub_matches
    signed_data c_str send_userauth_failure send_userauth_success handle_service_request
    bad_userauth refuse_userauth check_signature ask_for_signature check_key publickey_method
    password_method userauth_method handle_userauth_request channel_data wanted
    send_channel_open_failure send_channel_open_confirm send_channel_request_reply send_channel_data
    send_channel_window_adjust send_channel_close send_channel_eof send_exit_status
    open_backend_with_mode received forward forward_loop session_on_backend_data handle_channel_open
    reply_if start_backend exec_request request_of_type handle_channel_request replenish
    handle_channel_data handle_channel_window_adjust handle_channel_close peer_disconnects
    session_open session_close handle_global_request dispatch_guarded dispatch_channel
    send_unimplemented dispatch_type dispatch_packet session_on_backend_close drain_step drain_tcp
    after_parse round run_rounds session_on_tcp_data bytes_eq out_array on_tcp_connect
    find_free_slot slot_at set_slot store sshd_slot_free sshd_session_at on_tcp_recv
busy_returns = refl

returned : (o : Option Server) → returns o ≡ true → o ≡ some (server_after o)
returned none e = cc
returned (some sv) e = refl

all_zeroed : AllZeroed idle_server.slots
all_zeroed = ((refl, refl), ((refl, refl), tt))

busy_reached : Reach test_env busy_server
busy_reached =
    then
      (then (then (started idle_server refl all_zeroed) (connects 5 refl))
        (bytes_arrive 0 connected_slot login_bytes [] connected_at refl))
      (receives 0 (returned (on_tcp_recv test_env arrived_server 0) busy_returns))

abbrev busy_slot : Slot
busy_slot = slot_of (slot_at 0 busy_server.slots)

abbrev is_there : Option Slot → Bool
is_there none = false
is_there (some sl) = sl.in_use

busy_there : is_there (slot_at 0 busy_server.slots) ≡ true
unfolding put_u8 big_endian_32 put_u32 put_bytes put_string put_cstring put_namelist strip_zeros
    needs_pad put_mpint_positive view_init lacks get_u8 value_32 get_u32 get_slice get_string
    skip_string ct_memcmp_from ct_memcmp16 seq_to_nonce clamp_last clamp_scalar mask_last sha256
    x25519_compute x25519_base x25519_scalar mlkem768_encap ed25519_pub_from_seed ed25519_sign
    cc20p1305_length poly1305_tag cc20p1305_seal cc20p1305_open reset padding send_raw_tcp framed
    send_packet send_disconnect length_field parse_plain parse_opened parse_sealed parse_packet
    build_host_key_blob hash_update_k hash_put_string hash_put_ephemerals exchange_hash_input
    compute_exchange_hash block_input derive_loop derive_key build_kexinit_payload first_name
    name_in_csv_loop name_in_csv choose_kex select_kex_alg send_our_version send_our_kexinit
    find_byte version_line accept_version consume_version load_host_key kex_compute_classical
    kex_pq_ephemeral kex_compute_pq sign_and_reply reply_if_computed send_kex_ecdh_reply
    derive_session_keys handle_kexinit finish_kex take_client_blob handle_kex_ecdh_init
    handle_newkeys second_of_ed25519 key_text key_line_matches matches_from authorized_pub_matches
    signed_data c_str send_userauth_failure send_userauth_success handle_service_request
    bad_userauth refuse_userauth check_signature ask_for_signature check_key publickey_method
    password_method userauth_method handle_userauth_request channel_data wanted
    send_channel_open_failure send_channel_open_confirm send_channel_request_reply send_channel_data
    send_channel_window_adjust send_channel_close send_channel_eof send_exit_status
    open_backend_with_mode received forward forward_loop session_on_backend_data handle_channel_open
    reply_if start_backend exec_request request_of_type handle_channel_request replenish
    handle_channel_data handle_channel_window_adjust handle_channel_close peer_disconnects
    session_open session_close handle_global_request dispatch_guarded dispatch_channel
    send_unimplemented dispatch_type dispatch_packet session_on_backend_close drain_step drain_tcp
    after_parse round run_rounds session_on_tcp_data bytes_eq out_array on_tcp_connect
    find_free_slot slot_at set_slot store sshd_slot_free sshd_session_at on_tcp_recv
busy_there = refl

there : (o : Option Slot) → is_there o ≡ true → (o ≡ some (slot_of o)) × ((slot_of o).in_use ≡ true)
there none e = cc
there (some sl) e = (refl, e)

busy_at : (slot_at 0 busy_server.slots ≡ some busy_slot) × (busy_slot.in_use ≡ true)
busy_at = there (slot_at 0 busy_server.slots) busy_there

Reach-slot_at_example : (length busy_server.slots ≡ max_sessions) × Held 0 busy_slot.session
Reach-slot_at_example =
    Reach-slot_at test_env busy_server 0 busy_slot busy_reached busy_at.0 busy_at.1

on_tcp_connect-none_example :
    ((on_tcp_connect connected_server 6).0 ≡ none)
    ↔ (active_sessions connected_server.slots ≡ length connected_server.slots)
on_tcp_connect-none_example = on_tcp_connect-none connected_server 6

let_in : (on_tcp_connect idle_server 5).0 ≡ some 0
unfolding on_tcp_connect find_free_slot slot_at
let_in = refl

zero_one : zero ≢ suc zero
zero_one e = cc

on_tcp_connect-some_example : Taken idle_server connected_server 5 0 1
on_tcp_connect-some_example = on_tcp_connect-some idle_server 5 0 1 let_in zero_one

-- ---- keys ----

abbrev two_keys : List Key
two_keys =
    record { id = codes "1"; line = codes "a b"; label = [] }
    ∷ record { id = codes "2"; line = codes "c d"; label = [] }
    ∷ []

abbrev two_keys_store : Store
two_keys_store = record { keys = two_keys; error = []; done = 4 }

abbrev key_text_typed : Bytes
key_text_typed =
    codes
      "  ssh-ed25519 AAAAC3NzaC1lZDI1NTE5AAAAIAAAAAAAAAAAAAAAAAAAAAAAAAAAAAAAAAAAAAAAAAAAAA== laptop "

ids_below : All (λ (k : Key). atoi k.id < max_int) two_keys
unfolding atoi trim_front signed_value digits_value
ids_below = (ground arith, (ground arith, tt))

key_add-Added_example : Added key_text_typed two_keys_store (key_add key_text_typed two_keys_store)
key_add-Added_example = key_add-Added key_text_typed two_keys_store ids_below

key_remove_lem_example : Removed (codes "1") two_keys_store (key_remove (codes "1") two_keys_store)
key_remove_lem_example = key_remove_lem (codes "1") two_keys_store
