-- ===== src/Tests/Clients.antt =====
-- The theorems on the client at concrete devices, scripts and states.
use sshd.Base.{
  ◌≡◌, drop, refl, ap, true, false, some, Bytes, List, [], ◌∷◌, length, replicate, codes, arith,
}
use sshd.Wire.{put_u8, put_string, put_cstring}
use sshd.Session.Names.{build_kexinit_payload}
use sshd.Client.{SshJob, Read, Device, Outbound, ok, new_csess}
use sshd.Session.Auth.{
  handle_userauth_request, send_userauth_success, authorized_pub_matches, matches_from,
  key_line_matches, second_of_ed25519, key_text,
}
use sshd.Client.Kex.Trust.{Established, do_kex-Established}
use sshd.Client.Auth.Seen.{LoggedIn, do_auth-LoggedIn}
use sshd.Client.Auth.Accepted.{
  SignatureScheme, handle_userauth_request-password_request,
  handle_userauth_request-publickey_request,
}
use sshd.Session.{with_session}
use sshd.Tests.{test_env, test_blob}
use sshd.Tests.Sessions.{login_world}
use sshd.Client.{
  pure, continue_with, ◌>>=◌, ◌>>◌, get, modify, safe_strncpy, fail, fail_if, or_fail,
}
use sshd.Client.Packet.{
  send_raw, send_packet, fill_rx, try_plain, try_opened, is_over, packet_code, is_skipped,
  try_sealed, try_parse, read_more, recv_round, recv_rounds, script_size, to_come, recv_packet,
  loop, for_ever,
}
use sshd.Client.Hash.{hash_k, hash_string, compute_exchange_hash, derive_rounds, derive_key}
use sshd.Client.KnownHosts.{
  hostkey_fingerprint, print_number, changed_note, entry_verdict, known_hosts_from,
  known_hosts_check,
}
use sshd.Client.Kexinit.{put_kexinit, check_lists, read_lists, check_kexinit}
use sshd.Client.Kex.{
  accept_banner, read_line, version_round, do_version, ed25519_blob, expect, send_kexinit,
  accept_kexinit, send_kex_init, parse_reply, compute_secret, check_known_host, accept_reply,
  switch_out, start_kex, take_reply, switch_keys, do_kex,
}
use sshd.Client.Auth.{
  request_head, public_blob, signed_text, publickey_request, password_request, interactive_request,
  skip_prompts, put_answers, prompts_of, info_response, note_failure_methods, auth_recv_round,
  auth_recv, auth_answer, auth_simple_result, auth_publickey, auth_password, answer_prompts,
  interactive_round, auth_keyboard_interactive, probe_answer, auth_probe, try_method, no_login_text,
  give_up, or_else, request_service, try_methods, do_auth,
}
use sshd.Client.Channel.{
  answer_global, adjust_window, write_rounds, out_write, keys_read, pump_keys, pump_input,
  open_message, request_message, pty_message, run_message, channel_message, take_confirm,
  channel_answer, channel_recv_round, channel_recv, open_channel, request_pty,
}
use sshd.Client.Run.{
  set_msg, take_data, take_extended_data, take_request, take_message, close_channel, finish_job,
  pump_message, pump_answer, idle_ms, pump_receive, pump_round, no_success_text, request_run, pump,
  end_input, do_channel, session_steps, dial_text, hang_up, converse, run_session,
}
use sshd.Wire.{
  put_u8, big_endian_32, put_u32, put_bytes, put_string, put_cstring, put_namelist, strip_zeros,
  needs_pad, put_mpint_positive, view_init, lacks, get_u8, value_32, get_u32, get_slice, get_string,
  skip_string,
}
use sshd.Crypto.{
  ct_memcmp_from, ct_memcmp16, seq_to_nonce, clamp_last, clamp_scalar, mask_last, strip_last,
  strip_equals, sha256, x25519_compute, x25519_base, x25519_scalar, mlkem768_encap,
  ed25519_pub_from_seed, ed25519_sign, ed25519_verify, cc20p1305_length, poly1305_tag,
  cc20p1305_seal, cc20p1305_open, base64_nopad,
}
use sshd.Base.{bytes_eq, out_array}
use sshd.Session.Packet.{padding, framed, length_field}
use sshd.Session.Names.{first_name, name_in_csv_loop, name_in_csv}
use sshd.Session.Version.{find_byte, version_line}
use sshd.Session.Auth.{c_str}
use sshd.Keys.{decimal_from, decimal}

abbrev pub test_dev : Device
test_dev = record {
  ms_to_ticks = λ ms. ms;
  dial = λ text. some 3;
  cli_term_size = (80, 24);
  stream_send = λ taken bytes. length bytes;
  stream_more = λ want waiting. 255;
}

abbrev pub test_job : SshJob
test_job = record {
  host = codes "host";
  port = 22;
  user = codes "me";
  have_cmd = false;
  command = [];
  have_password = true;
  password = codes "pw";
  try_pubkey = true;
  seed = replicate 32 6;
  out = true;
  input = true;
  user_close = false;
  rc = 1;
  msg = [];
  have_exit = false;
  exit_status = 0;
}

-- A read of some bytes that takes ten ticks.
abbrev pub read_of : Bytes → Read
read_of bytes = record {
  bytes = bytes;
  elapsed = 10;
  connected = true;
  typed = [];
  closing = false;
}

abbrev pub client_with : List Read → Outbound
client_with script = record {
  job = test_job;
  cs = record new_csess { handle = some 3 };
  trace = [];
  draws = 0;
  script = script;
  ticks = 7;
  screen = [];
  keys = codes "ls";
  known_hosts = [];
  offered_methods = [];
}

abbrev pub plain : Bytes → Bytes
plain payload = framed test_env false [] 0 (replicate (padding false (length payload)) 0) payload

abbrev server_reply : Bytes
server_reply =
    let sig_blob = put_string (put_cstring [] (codes "ssh-ed25519")) (replicate 64 5) in
    put_string (put_string (put_string (31 ∷ []) test_blob) (replicate 32 9)) sig_blob

abbrev kex_start : Outbound
kex_start = client_with (
    read_of (plain (build_kexinit_payload (replicate 16 0)))
    ∷ read_of (plain server_reply)
    ∷ read_of (plain (21 ∷ []))
    ∷ [])

kex_runs : (do_kex test_env test_dev kex_start).0 ≡ ok tt
unfolding pure continue_with ◌>>=◌ ◌>>◌ get modify safe_strncpy fail fail_if or_fail send_raw
    send_packet fill_rx try_plain try_opened is_over packet_code is_skipped try_sealed try_parse
    read_more recv_round recv_rounds script_size to_come recv_packet loop for_ever hash_k
    hash_string compute_exchange_hash derive_rounds derive_key hostkey_fingerprint print_number
    changed_note entry_verdict known_hosts_from known_hosts_check put_kexinit check_lists read_lists
    check_kexinit accept_banner read_line version_round do_version ed25519_blob expect send_kexinit
    accept_kexinit send_kex_init parse_reply compute_secret check_known_host accept_reply switch_out
    start_kex take_reply switch_keys do_kex request_head public_blob signed_text publickey_request
    password_request interactive_request skip_prompts put_answers prompts_of info_response
    note_failure_methods auth_recv_round auth_recv auth_answer auth_simple_result auth_publickey
    auth_password answer_prompts interactive_round auth_keyboard_interactive probe_answer auth_probe
    try_method no_login_text give_up or_else request_service try_methods do_auth answer_global
    adjust_window write_rounds out_write keys_read pump_keys pump_input open_message request_message
    pty_message run_message channel_message take_confirm channel_answer channel_recv_round
    channel_recv open_channel request_pty set_msg take_data take_extended_data take_request
    take_message close_channel finish_job pump_message pump_answer idle_ms pump_receive pump_round
    no_success_text request_run pump end_input do_channel session_steps dial_text hang_up converse
    run_session put_u8 big_endian_32 put_u32 put_bytes put_string put_cstring put_namelist
    strip_zeros needs_pad put_mpint_positive view_init lacks get_u8 value_32 get_u32 get_slice
    get_string skip_string ct_memcmp_from ct_memcmp16 seq_to_nonce clamp_last clamp_scalar mask_last
    strip_last strip_equals sha256 x25519_compute x25519_base x25519_scalar mlkem768_encap
    ed25519_pub_from_seed ed25519_sign ed25519_verify cc20p1305_length poly1305_tag cc20p1305_seal
    cc20p1305_open base64_nopad bytes_eq out_array padding framed length_field first_name
    name_in_csv_loop name_in_csv find_byte version_line c_str decimal_from decimal
    build_kexinit_payload
kex_runs = refl

do_kex-Established_example : Established test_env [] (do_kex test_env test_dev kex_start).1
do_kex-Established_example =
    do_kex-Established test_env test_dev kex_start (do_kex test_env test_dev kex_start).1
      (ap (λ r. (r, (do_kex test_env test_dev kex_start).1)) kex_runs)

-- ---- the login ----

abbrev auth_start : Outbound
auth_start = client_with (
    read_of (plain (put_cstring (6 ∷ []) (codes "ssh-userauth")))
    ∷ read_of (plain (put_u8 (put_cstring (51 ∷ []) (codes "password")) 0))
    ∷ read_of (plain (52 ∷ []))
    ∷ [])

auth_runs : (do_auth test_env test_dev auth_start).0 ≡ ok tt
unfolding pure continue_with ◌>>=◌ ◌>>◌ get modify safe_strncpy fail fail_if or_fail send_raw
    send_packet fill_rx try_plain try_opened is_over packet_code is_skipped try_sealed try_parse
    read_more recv_round recv_rounds script_size to_come recv_packet loop for_ever hash_k
    hash_string compute_exchange_hash derive_rounds derive_key hostkey_fingerprint print_number
    changed_note entry_verdict known_hosts_from known_hosts_check put_kexinit check_lists read_lists
    check_kexinit accept_banner read_line version_round do_version ed25519_blob expect send_kexinit
    accept_kexinit send_kex_init parse_reply compute_secret check_known_host accept_reply switch_out
    start_kex take_reply switch_keys do_kex request_head public_blob signed_text publickey_request
    password_request interactive_request skip_prompts put_answers prompts_of info_response
    note_failure_methods auth_recv_round auth_recv auth_answer auth_simple_result auth_publickey
    auth_password answer_prompts interactive_round auth_keyboard_interactive probe_answer auth_probe
    try_method no_login_text give_up or_else request_service try_methods do_auth answer_global
    adjust_window write_rounds out_write keys_read pump_keys pump_input open_message request_message
    pty_message run_message channel_message take_confirm channel_answer channel_recv_round
    channel_recv open_channel request_pty set_msg take_data take_extended_data take_request
    take_message close_channel finish_job pump_message pump_answer idle_ms pump_receive pump_round
    no_success_text request_run pump end_input do_channel session_steps dial_text hang_up converse
    run_session put_u8 big_endian_32 put_u32 put_bytes put_string put_cstring put_namelist
    strip_zeros needs_pad put_mpint_positive view_init lacks get_u8 value_32 get_u32 get_slice
    get_string skip_string ct_memcmp_from ct_memcmp16 seq_to_nonce clamp_last clamp_scalar mask_last
    strip_last strip_equals sha256 x25519_compute x25519_base x25519_scalar mlkem768_encap
    ed25519_pub_from_seed ed25519_sign ed25519_verify cc20p1305_length poly1305_tag cc20p1305_seal
    cc20p1305_open base64_nopad bytes_eq out_array padding framed length_field first_name
    name_in_csv_loop name_in_csv find_byte version_line c_str decimal_from decimal
auth_runs = refl

do_auth-LoggedIn_example :
    LoggedIn test_env test_dev auth_start (do_auth test_env test_dev auth_start).1
do_auth-LoggedIn_example =
    do_auth-LoggedIn test_env test_dev auth_start (do_auth test_env test_dev auth_start).1
      (ap (λ r. (r, (do_auth test_env test_dev auth_start).1)) auth_runs)

handle_userauth_request-password_request_example :
    handle_userauth_request test_env login_world
      (drop 1 (password_request (codes "me") (codes "pw")))
    ≡ (
      true,
      send_userauth_success test_env
          (with_session login_world (record login_world.session { user = codes "me" })),
    )
handle_userauth_request-password_request_example =
    handle_userauth_request-password_request test_env login_world (codes "me") (codes "pw")
      (omega arith) (omega arith) refl

test_signatures : SignatureScheme test_env
unfolding ed25519_verify
test_signatures = record { verify-sign = λ seed msg pub32 sig key signed. refl }

key_is_authorized : authorized_pub_matches test_env (replicate 32 1) ≡ true
unfolding authorized_pub_matches matches_from key_line_matches second_of_ed25519 key_text find_byte
    get_string get_u32 get_slice lacks value_32 view_init bytes_eq
key_is_authorized = refl

client_key : ed25519_pub_from_seed test_env (replicate 32 6) ≡ some (replicate 32 1)
unfolding ed25519_pub_from_seed out_array
client_key = refl

client_signature :
    ed25519_sign test_env
      (replicate 32 6)
      (signed_text login_world.session.session_id (codes "me") (public_blob (replicate 32 1)))
    ≡ some (replicate 64 5)
unfolding ed25519_sign out_array
client_signature = refl

handle_userauth_request-publickey_request_example :
    handle_userauth_request test_env login_world
      (drop 1 (publickey_request (codes "me") (public_blob (replicate 32 1)) (replicate 64 5)))
    ≡ (
      true,
      send_userauth_success test_env
          (with_session login_world (record login_world.session { user = codes "me" })),
    )
handle_userauth_request-publickey_request_example =
    handle_userauth_request-publickey_request test_env login_world (replicate 32 6) (codes "me")
      (replicate 32 1) (replicate 64 5) test_signatures (omega arith) client_key client_signature
      key_is_authorized
