-- ===== src/Session/Requests.antt =====
-- The handlers of channel messages in esp-idf/src/sshd_session.cpp.
use sshd.Base.{
  ℕ, ◌+◌, ◌-◌, ◌/◌, ◌%◌, ◌^◌, Bool, true, false, not, ◌==◌, none, some, Bytes, [], ◌∷◌, ◌++◌, ltb,
  if◌then◌else◌, length, bytes_eq, codes,
}
use sshd.Wire.{View, view_init, get_u8, get_u32, get_string}
use sshd.Platform.{Platform, CliMode, cli_ansi, cli_line, sent}
use sshd.Session.{
  World, closed, cli_channel, log_channel, ChanKind, note, with_session, full_local_window,
  local_channel_id,
}
use sshd.Session.Channel.{
  no_handle, send_channel_open_failure, send_channel_open_confirm, send_channel_request_reply,
  send_channel_window_adjust, send_channel_close, open_backend_with_mode, session_on_backend_data,
  drop_backend,
}

module _ (env : Platform) where
  unfoldable pub handle_channel_open : World → Bytes → Bool × World
  handle_channel_open w payload =
      let (type, v1) = get_string (view_init payload) in
      let (peer_ch, v2) = get_u32 v1 in
      let (peer_win, v3) = get_u32 v2 in
      let (peer_max, v4) = get_u32 v3 in
      elim type [
        | none ↦ (false, w)
        | some type_str ↦
            if v4.bad
            then (false, w)
            else (if w.session.chan_open
                then (
                  true,
                  send_channel_open_failure env w peer_ch 2 (codes "only one channel allowed"),
                )
                else (if not (bytes_eq type_str (codes "session"))
                    then (
                      true,
                      send_channel_open_failure env w peer_ch 3 (codes "only session channels"),
                    )
                    else (
                      true,
                      send_channel_open_confirm env (
                          with_session w (record w.session {
                            peer_channel = peer_ch;
                            local_channel = local_channel_id;
                            peer_window = peer_win;
                            peer_max_packet = peer_max;
                            local_window = full_local_window;
                            chan_open = true;
                          })),
                    )))
      ]

  -- The lambda `reply`.
  unfoldable pub reply_if : Bool → World → Bool → World
  reply_if want_reply w ok = if want_reply then send_channel_request_reply env w ok else w

  -- `s.chanKind = kind`, the backend opened, and the answer: what `shell`, `exec` and `log` share.
  unfoldable pub start_backend : World → ChanKind → CliMode → Bool → Bool × World
  start_backend w kind mode want_reply =
      let (opened, w1) =
        open_backend_with_mode env (with_session w (record w.session { chan_kind = kind })) mode in
      (opened, reply_if want_reply w1 opened)

  -- The command with `;\n` goes to the backend.
  unfoldable pub exec_request : World → Bytes → Bool → World
  exec_request w cmd want_reply =
      let (opened, w1) = start_backend w cli_channel cli_line want_reply in
      if ltb 256 (length cmd)
      then reply_if want_reply w false
      else (if not opened
          then w1
          else note w1 (sent w1.session.backend_handle (cmd ++ (b';' ∷ 10 ∷ []))))

  unfoldable pub request_of_type : World → Bytes → Bool → View → World
  request_of_type w type want_reply v =
      if bytes_eq type (codes "pty-req")
      then reply_if want_reply w true
      else (if bytes_eq type (codes "shell")
          then (start_backend w cli_channel cli_ansi want_reply).1
          else (if bytes_eq type (codes "exec")
              then elim (get_string v).0 [
                | none ↦ reply_if want_reply w false
                | some cmd ↦ exec_request w cmd want_reply
              ]
              else (if bytes_eq type (codes "subsystem")
                  then elim (get_string v).0 [
                    | none ↦ reply_if want_reply w false
                    | some sub ↦
                        if bytes_eq sub (codes "log")
                        then (start_backend w log_channel cli_ansi want_reply).1
                        else reply_if want_reply w false
                  ]
                  else reply_if want_reply w (bytes_eq type (codes "env")))))

  unfoldable pub handle_channel_request : World → Bytes → Bool × World
  handle_channel_request w payload =
      let (recipient, v1) = get_u32 (view_init payload) in
      let (type, v2) = get_string v1 in
      let (want_reply, v3) = get_u8 v2 in
      elim type [
        | none ↦ (false, w)
        | some type_str ↦ (true, request_of_type w type_str (not (want_reply == 0)) v3)
      ]

  -- `handle_channel_data` once the backend took `written` bytes.
  unfoldable pub replenish : World → ℕ → World
  replenish w written =
      let window = (w.session.local_window + 2 ^ 32 - written % 2 ^ 32) % 2 ^ 32 in
      let add = (full_local_window + 2 ^ 32 - window) % 2 ^ 32 in
      if not (ltb 0 written)
      then w
      else (if ltb window (full_local_window / 2)
          then send_channel_window_adjust env
              (with_session w (record w.session { local_window = (window + add) % 2 ^ 32 })) add
          else with_session w (record w.session { local_window = window }))

  unfoldable pub handle_channel_data : World → Bytes → World
  handle_channel_data w payload =
      let (recipient, v1) = get_u32 (view_init payload) in
      elim (get_string v1).0 [
        | none ↦ w
        | some d ↦
            if no_handle w.session.backend_handle
            then w
            else replenish (note w (sent w.session.backend_handle d))
                (env.its_send w.trace w.session.backend_handle d)
      ]

  unfoldable pub handle_channel_window_adjust : World → Bytes → World
  handle_channel_window_adjust w payload =
      let (recipient, v1) = get_u32 (view_init payload) in
      let (add, v2) = get_u32 v1 in
      session_on_backend_data env
        (with_session w (record w.session { peer_window = (w.session.peer_window + add) % 2 ^ 32 }))

  unfoldable pub handle_channel_close : World → World
  handle_channel_close w =
      let w1 = send_channel_close env (drop_backend w) in
      if not w.session.chan_open
      then w
      else with_session w1 (record w1.session { chan_open = false; phase = closed })
