-- ===== src/Tests/ClientPackets.antt =====
-- The theorems on packets, reads and the session of the client at concrete scripts.
use sshd.Base.{◌≡◌, ◌≢◌, refl, true, some, Bytes, [], ◌∷◌, ◌++◌, replicate, codes, arith}
use sshd.Platform.{sent}
use sshd.Wire.{put_u8, put_string, put_cstring}
use sshd.Client.{Csess, Outbound, waiting, new_csess}
use sshd.Session.Packet
use sshd.Session.Packet.{got, Parsed, no_tcp, parse_packet, next_seq}
use sshd.Session.Packet.{send_raw_tcp}
use sshd.Client.Packet.Mirror.{try_parse-send_packet, parse_packet-send_packet}
use sshd.Client.Packet.Progress.{total_elapsed}
use sshd.Client.Packet.Receive.{recv_packet_in_time}
use sshd.Client.Ends.Whole.{run_session_ends}
use sshd.Tests.{test_env, test_laws}
use sshd.Tests.Sessions.{blank, blank_world}
use sshd.Client.{
  pure, continue_with, ◌>>=◌, ◌>>◌, get, modify, safe_strncpy, fail, fail_if, or_fail,
}
use sshd.Client.Packet.{
  send_raw, send_packet, fill_rx, try_plain, is_over, packet_code, is_skipped, try_sealed,
  try_parse, read_more, recv_round, recv_rounds, script_size, to_come, recv_packet, loop, for_ever,
}
use sshd.Client.Kexinit.{put_kexinit}
use sshd.Client.Kex.{
  accept_banner, read_line, version_round, do_version, expect, send_kexinit, accept_kexinit,
  send_kex_init, start_kex, do_kex,
}
use sshd.Client.Run.{session_steps, dial_text, hang_up, converse, run_session}
use sshd.Wire.{
  put_u8, big_endian_32, put_u32, put_bytes, put_string, put_cstring, put_namelist, view_init,
  value_32,
}
use sshd.Crypto.{
  seq_to_nonce, clamp_last, clamp_scalar, mask_last, x25519_compute, x25519_base, x25519_scalar,
  poly1305_tag, cc20p1305_seal,
}
use sshd.Base.{bytes_eq, out_array}
use sshd.Session.Packet.{padding, framed, length_field}
use sshd.Session.Version.{find_byte, version_line}
use sshd.Session.Auth.{c_str}
use sshd.Keys.{decimal_from, decimal}
use sshd.Tests.Clients.{test_dev, read_of, client_with}

abbrev ping : Bytes
ping = 80 ∷ 1 ∷ 2 ∷ []

abbrev server_bytes : Bytes
server_bytes = framed test_env true (replicate 64 0) 4 (replicate 4 0) ping

abbrev receiving_client : Csess
receiving_client = record new_csess {
  rx_buf = server_bytes ++ (1 ∷ []);
  recv_key = replicate 64 0;
  enc_in = true;
  seq_in = 4;
}

server_sends :
    (Packet.send_packet test_env blank_world ping).trace ≡ sent (some 5) server_bytes ∷ []
unfolding Packet.send_packet send_raw_tcp framed padding put_u8 put_u32 big_endian_32 put_bytes
    cc20p1305_seal poly1305_tag seq_to_nonce out_array
server_sends = refl

try_parse-send_packet_example : try_parse test_env receiving_client ≡ (
  got ping,
  record receiving_client {
    rx_buf = 1 ∷ [];
    seq_in = (Packet.send_packet test_env blank_world ping).session.seq_out;
  },
)
try_parse-send_packet_example =
    try_parse-send_packet test_env blank_world receiving_client ping server_bytes (1 ∷ []) test_laws
      (ground arith) (omega arith) refl refl refl refl refl server_sends refl

abbrev sending_client : Outbound
sending_client = record (client_with []) {
  cs = record new_csess { handle = some 3; send_key = replicate 64 0; enc_out = true; seq_out = 3 };
}

abbrev client_bytes : Bytes
client_bytes = framed test_env true (replicate 64 0) 3 (replicate 4 0) ping

client_sends : (send_packet test_env sending_client ping).trace ≡ sent (some 3) client_bytes ∷ []
unfolding send_packet send_raw pure continue_with ◌>>=◌ ◌>>◌ get modify framed padding put_u8
    put_u32 big_endian_32 put_bytes cc20p1305_seal poly1305_tag seq_to_nonce out_array
client_sends = refl

parse_packet-send_packet_example :
    parse_packet test_env (record blank { rx_buf = client_bytes ++ [] }) ≡ (
      got ping,
      record blank { rx_buf = []; seq_in = (send_packet test_env sending_client ping).cs.seq_out },
    )
parse_packet-send_packet_example =
    parse_packet-send_packet test_env sending_client (record blank { rx_buf = client_bytes ++ [] })
      ping client_bytes [] test_laws (ground arith) (omega arith) refl refl refl refl client_sends
      refl

recv_packet_in_time_example :
    (recv_packet test_env test_dev 15 (client_with (read_of (1 ∷ []) ∷ read_of (0 ∷ []) ∷ []))).0
    ≢ waiting
unfolding total_elapsed
recv_packet_in_time_example =
    recv_packet_in_time test_env test_dev 15
      (client_with (read_of (1 ∷ []) ∷ read_of (0 ∷ []) ∷ [])) (omega arith) (omega arith)
      (omega arith)

abbrev cut_off : Outbound
cut_off = client_with (read_of (codes "SSH-2.0-x" ++ (13 ∷ 10 ∷ [])) ∷ [])

session_waits : (run_session test_env test_dev cut_off).0 ≡ waiting
unfolding run_session session_steps converse dial_text hang_up do_version read_line version_round
    accept_banner fill_rx start_kex send_kex_init send_kexinit put_kexinit do_kex accept_kexinit
    expect recv_packet recv_rounds recv_round read_more try_parse try_plain try_sealed is_over
    packet_code is_skipped script_size to_come loop for_ever pure continue_with ◌>>=◌ ◌>>◌ get
    modify safe_strncpy fail fail_if or_fail send_raw send_packet framed padding put_u8 put_u32
    big_endian_32 put_bytes put_namelist put_string put_cstring x25519_base x25519_scalar
    x25519_compute clamp_scalar clamp_last mask_last out_array find_byte version_line length_field
    value_32 view_init bytes_eq c_str decimal decimal_from
session_waits = refl

run_session_ends_example : (run_session test_env test_dev cut_off).1.script ≡ []
run_session_ends_example =
    run_session_ends test_env test_dev cut_off (omega arith) (omega arith) session_waits
