-- ===== src/Client/Run.antt =====
-- The pump of `do_channel` in esp-idf/src/ssh_client.cpp, and `run_session`.
use sshd.Base.{
  ℕ, zero, suc, ◌+◌, ◌-◌, ◌/◌, ◌%◌, ◌^◌, Bool, true, false, not, ◌==◌, none, some, Bytes, [], ◌∷◌,
  ◌++◌, ltb, if◌then◌else◌, length, take, drop, codes, bytes_eq,
}
use sshd.Wire.{View, view_init, get_u8, get_u32, get_string, put_u8, put_u32}
use sshd.Platform.{Platform, disconnected, dialed}
use sshd.Session.Msg
use sshd.Client
use sshd.Client.{
  SshJob, Csess, Outbound, Device, Answer, ok, failed, waiting, Action, ◌>>=◌, ◌>>◌, pure, get,
  modify, fail, fail_if, with_cs, with_job, log_event, new_csess, safe_strncpy,
}
use sshd.Client.Packet.{
  Code, number, bad_framing, connection_closed, is_negative, is_number, for_ever, recv_packet,
  send_packet,
}
use sshd.Client.KnownHosts.{print_number}
use sshd.Client.Kex.{do_version, do_kex}
use sshd.Client.Auth.{do_auth}
use sshd.Client.Channel.{
  client_window, answer_global, adjust_window, out_write, pump_input, is_interactive, run_message,
  channel_message, channel_recv, open_channel, request_pty,
}

unfoldable pub set_msg : Bytes → Outbound → Outbound
set_msg text w = with_job w (record w.job { msg = safe_strncpy 200 text })

-- CHANNEL_DATA, for a view behind its first byte.
unfoldable pub take_data : Platform → Device → Outbound → View → Outbound
take_data env dev w v = elim (get_string (get_u32 v).1).0 [
  | none ↦ w
  | some d ↦
      let w1 = out_write dev w d in
      let n = length d in
      let left = if ltb n w1.cs.local_window then w1.cs.local_window - n % 2 ^ 32 else 0 in
      let w2 = with_cs w1 (record w1.cs { local_window = left }) in
      let add = client_window - left in
      let p = put_u32 (put_u32 (put_u8 [] Msg.channel_window_adjust) w2.cs.peer_channel) add in
      let w3 = send_packet env w2 p in
      if ltb left (client_window / 2)
      then with_cs w3 (record w3.cs { local_window = (left + add) % 2 ^ 32 })
      else w2
]

unfoldable pub take_extended_data : Device → Outbound → View → Outbound
take_extended_data dev w v = elim (get_string (get_u32 (get_u32 v).1).1).0 [
  | none ↦ w
  | some d ↦ out_write dev w d
]

unfoldable pub take_request : Outbound → View → Outbound
take_request w v =
    let (type, v1) = get_string (get_u32 v).1 in
    let (want_reply, v2) = get_u8 v1 in
    elim type [
      | none ↦ w
      | some name ↦
          if bytes_eq name (codes "exit-status")
          then with_job w (record w.job { exit_status = (get_u32 v2).0; have_exit = true })
          else w
    ]

-- The `switch`: whether the loop ends, and the state. `sentClose` is false in every round, since it is
-- set only where the loop ends.
unfoldable pub take_message : Platform → Device → ℕ → Bytes → Outbound → Bool × Outbound
take_message env dev t pkt w =
    let v = view_init (drop 1 pkt) in
    if t == Msg.channel_data
    then (false, take_data env dev w v)
    else (if t == Client.Msg.channel_extended_data
        then (false, take_extended_data dev w v)
        else (if t == Msg.channel_window_adjust
            then (false, adjust_window w v)
            else (if t == Msg.channel_request
                then (false, take_request w v)
                else (if t == Msg.channel_close
                    then (true, send_packet env w (channel_message Msg.channel_close w))
                    else (if t == Msg.disconnect
                        then (true, w)
                        else (if t == Msg.global_request
                            then (false, answer_global env w v)
                            else (false, w)))))))

-- The end that the user asks for.
unfoldable pub close_channel : Platform → Outbound → Outbound
close_channel env w =
    let w1 = send_packet env w (channel_message Msg.channel_eof w) in
    send_packet env w1 (channel_message Msg.channel_close w1)

-- The end of `do_channel`.
unfoldable pub finish_job : Outbound → Outbound
finish_job w =
    let closing = take 199 (codes "Connection to " ++ (w.job.host ++ codes " closed.")) in
    with_job w (record w.job { rc = 0; msg = if length w.job.msg == 0 then closing else w.job.msg })

module _ (env : Platform) (dev : Device) where
  unfoldable pub pump_message : ℕ → Bytes → Action Unit → Action Unit
  pump_message t pkt next w =
      let (ends, w1) = take_message env dev t pkt w in
      elim ends [ true ↦ pure tt w1 | false ↦ next w1 ]

  -- What the pump does with the result of `recv_packet`.
  unfoldable pub pump_answer : Code → Bytes → Action Unit → Action Unit
  pump_answer bad_framing pkt next = modify (set_msg (codes "(protocol/decrypt error)"))
  pump_answer connection_closed pkt next = pure tt
  pump_answer (number zero) pkt next = do
    w ← get
    if is_interactive w.job then next else modify (set_msg (codes "(timed out waiting for output)"))
  pump_answer (number (suc t)) pkt next = pump_message (suc t) pkt next

  unfoldable pub idle_ms : SshJob → ℕ
  idle_ms job = if is_interactive job then 60 else (if job.have_cmd then 30000 else 8000)

  unfoldable pub pump_receive : Action Unit → Action Unit
  pump_receive next = do
    w ← get
    (t, pkt) ← recv_packet env dev (idle_ms w.job)
    pump_answer t pkt next

  unfoldable pub pump_round : Action Unit → Action Unit
  pump_round next w =
      let w1 = pump_input env dev w in
      if is_interactive w.job
      then (if w1.job.user_close then pure tt (close_channel env w1) else pump_receive next w1)
      else pump_receive next w

  -- The text of a failure with the message's number.
  unfoldable pub no_success_text : Code → Bytes
  no_success_text (number t) =
      take 63 (codes "expected channel success (got msg " ++ (print_number t ++ codes ")"))
  no_success_text bad_framing = []
  no_success_text connection_closed = []

  unfoldable pub request_run : Action Unit
  request_run = do
    modify (λ w. send_packet env w (run_message w.job w.cs.peer_channel))
    (t, pkt) ← channel_recv env dev 15000
    w ← get
    fail_if (is_negative t) (codes "channel request: connection lost")
    fail_if (is_number t Msg.channel_failure)
        (if w.job.have_cmd then codes "exec refused" else codes "shell refused")
    fail_if (not (is_number t Msg.channel_success)) (no_success_text t)

  unfoldable pub pump : Action Unit
  pump = for_ever pump_round

  -- EOF of an exec session, which has no input.
  unfoldable pub end_input : Outbound → Outbound
  end_input w = if w.job.have_cmd then send_packet env w (channel_message Msg.channel_eof w) else w

  unfoldable pub do_channel : Action Unit
  do_channel = do
    open_channel env dev
    w ← get
    if is_interactive w.job then request_pty env dev else pure tt
    request_run
    modify end_input
    pump
    modify finish_job

  unfoldable pub session_steps : Action Unit
  session_steps = do do_version dev; do_kex env dev; do_auth env dev; do_channel

  -- "host:port", in an array of 110 bytes.
  unfoldable pub dial_text : SshJob → Bytes
  dial_text job = take 109 (job.host ++ (b':' ∷ print_number job.port))

  unfoldable pub hang_up : Outbound → Outbound
  hang_up w = with_cs (log_event w (disconnected w.cs.handle)) (record w.cs { handle = none })

  -- The session on its handle, to its end unless the script ends first.
  unfoldable pub converse : Action Unit
  converse w =
      let (r, w1) = session_steps w in
      elim r [ waiting ↦ (waiting, w1) | failed ↦ (ok tt, hang_up w1) | ok _ ↦ (ok tt, hang_up w1) ]

  unfoldable pub run_session : Action Unit
  run_session w =
      let handle = dev.dial (dial_text w.job) in
      let w1 =
        with_cs (log_event w (dialed (dial_text w.job) handle))
          (record new_csess { handle = handle }) in
      elim handle [
        | none ↦ (
          ok tt,
          (fail {A = Unit} (codes "dial failed (host unreachable / DNS / net down)") w1).1,
        )
        | some h ↦ converse w1
      ]
