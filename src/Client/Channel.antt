-- ===== src/Client/Channel.antt =====
-- The channel of esp-idf/src/ssh_client.cpp: what `do_channel` is made of before its pump, and the
-- streams to and from the command line.
use sshd.Base.{
  ℕ, zero, suc, ◌+◌, ◌%◌, ◌^◌, Bool, not, ◌&&◌, ◌||◌, ◌==◌, none, some, Bytes, [], ◌∷◌, ◌++◌,
  if◌then◌else◌, length, take, drop, codes, min,
}
use sshd.Wire.{
  View, view_init, get_u8, get_u32, skip_string, put_u8, put_u32, put_string, put_cstring,
}
use sshd.Platform.{Platform}
use sshd.Session.Msg
use sshd.Client.{SshJob, Outbound, Device, Action, ◌>>=◌, ◌>>◌, pure, modify, fail_if, with_cs}
use sshd.Client.Packet.{Code, is_negative, is_number, for_ever, recv_packet, send_packet}

abbrev pub client_channel_id : ℕ
client_channel_id = 0

abbrev pub client_window : ℕ
client_window = 0x100000

abbrev pub client_max_packet : ℕ
client_max_packet = 32768

-- The answer to a GLOBAL_REQUEST, for a view behind its first byte.
unfoldable pub answer_global : Platform → Outbound → View → Outbound
answer_global env w v =
    let (name, v1) = skip_string v in
    elim name [
      | none ↦ w
      | some _ ↦ if (get_u8 v1).0 == 0 then w else send_packet env w (put_u8 [] Msg.request_failure)
    ]

-- A WINDOW_ADJUST, for a view behind its first byte.
unfoldable pub adjust_window : Outbound → View → Outbound
adjust_window w v =
    let added = (get_u32 (get_u32 v).1).0 in
    with_cs w (record w.cs { peer_window = (w.cs.peer_window + added) % 2 ^ 32 })

-- The loop of `out_write`, with fuel: the stream takes some of what is left, or none.
unfoldable pub write_rounds : Device → ℕ → Outbound → Bytes → Outbound
write_rounds dev zero w left = w
write_rounds dev (suc fuel) w left =
    let n = min (length left) (dev.stream_send (length w.screen) left) in
    let more =
      write_rounds dev fuel (record w { screen = w.screen ++ take n left }) (drop n left) in
    if length left == 0 then w else (if n == 0 then w else more)

unfoldable pub out_write : Device → Outbound → Bytes → Outbound
out_write dev w bytes =
    if not w.job.out || length bytes == 0 then w else write_rounds dev (length bytes) w bytes

-- How many bytes a read of keys into 256 bytes returns.
unfoldable pub keys_read : Device → Bytes → ℕ
keys_read dev waiting = min (min 256 (length waiting)) (suc (dev.stream_more 256 (length waiting)))

-- The loop of `pump_input`, with fuel.
unfoldable pub pump_keys : Platform → Device → ℕ → Outbound → Outbound
pump_keys env dev zero w = w
pump_keys env dev (suc fuel) w =
    let n = keys_read dev w.keys in
    let p = put_string (put_u32 (put_u8 [] Msg.channel_data) w.cs.peer_channel) (take n w.keys) in
    let more = pump_keys env dev fuel (send_packet env (record w { keys = drop n w.keys }) p) in
    if n == 0 then w else more

-- Each round takes a key.
unfoldable pub pump_input : Platform → Device → Outbound → Outbound
pump_input env dev w = if not w.job.input then w else pump_keys env dev (suc (length w.keys)) w

-- Whether the session is an interactive login.
abbrev pub is_interactive : SshJob → Bool
is_interactive job = not job.have_cmd

unfoldable pub open_message : Bytes
open_message =
    let p1 = put_cstring (put_u8 [] Msg.channel_open) (codes "session") in
    put_u32 (put_u32 (put_u32 p1 client_channel_id) client_window) client_max_packet

-- The head of a CHANNEL_REQUEST that wants a reply.
unfoldable pub request_message : ℕ → Bytes → Bytes
request_message peer_channel type =
    put_u8 (put_cstring (put_u32 (put_u8 [] Msg.channel_request) peer_channel) type) 1

unfoldable pub pty_message : Device → ℕ → Bytes
pty_message dev peer_channel =
    let p1 = put_cstring (request_message peer_channel (codes "pty-req")) (codes "xterm") in
    let p2 = put_u32 (put_u32 p1 dev.cli_term_size.0) dev.cli_term_size.1 in
    put_string (put_u32 (put_u32 p2 0) 0) (0 ∷ [])

unfoldable pub run_message : SshJob → ℕ → Bytes
run_message job peer_channel =
    if job.have_cmd
    then put_string (request_message peer_channel (codes "exec")) job.command
    else request_message peer_channel (codes "shell")

-- A message of a number and the peer's channel.
unfoldable pub channel_message : ℕ → Outbound → Bytes
channel_message n w = put_u32 (put_u8 [] n) w.cs.peer_channel

-- The three numbers of a CHANNEL_OPEN_CONFIRM behind our own channel.
unfoldable pub take_confirm : Bytes → Outbound → Outbound
take_confirm pkt w =
    let (_, v1) = get_u32 (view_init (drop 1 pkt)) in
    let (peer_channel, v2) = get_u32 v1 in
    let (peer_window, v3) = get_u32 v2 in
    with_cs w (record w.cs {
      peer_channel = peer_channel;
      peer_window = peer_window;
      peer_max_packet = (get_u32 v3).0;
      local_window = client_window;
    })

module _ (env : Platform) (dev : Device) where
  unfoldable pub channel_answer : Code → Bytes → Action (Code × Bytes) → Action (Code × Bytes)
  channel_answer t pkt next =
      if is_number t Msg.global_request
      then (modify (λ w. answer_global env w (view_init (drop 1 pkt))) >> next)
      else (if is_number t Msg.channel_window_adjust
          then (modify (λ w. adjust_window w (view_init (drop 1 pkt))) >> next)
          else pure (t, pkt))

  unfoldable pub channel_recv_round : ℕ → Action (Code × Bytes) → Action (Code × Bytes)
  channel_recv_round ms next = do (t, pkt) ← recv_packet env dev ms; channel_answer t pkt next

  unfoldable pub channel_recv : ℕ → Action (Code × Bytes)
  channel_recv ms = for_ever (channel_recv_round ms)

  unfoldable pub open_channel : Action Unit
  open_channel = do
    modify (λ w. send_packet env w open_message)
    (t, pkt) ← channel_recv 15000
    fail_if (is_negative t) (codes "channel open: connection lost")
    fail_if (is_number t Msg.channel_open_failure) (codes "server refused session channel")
    fail_if (not (is_number t Msg.channel_open_confirm)) (codes "expected channel confirm")
    modify (take_confirm pkt)

  unfoldable pub request_pty : Action Unit
  request_pty = do
    modify (λ w. send_packet env w (pty_message dev w.cs.peer_channel))
    (t, pkt) ← channel_recv 15000
    fail_if (is_negative t) (codes "pty-req: connection lost")
    fail_if (not (is_number t Msg.channel_failure) && not (is_number t Msg.channel_success))
        (codes "expected pty-req reply")
