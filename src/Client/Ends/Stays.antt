-- ===== src/Client/Ends/Stays.antt =====
-- What the channel of the client does to its state leaves the bytes and reads to come.
use sshd.Base.{
  ℕ, zero, suc, ◌+◌, ◌-◌, ◌/◌, ◌%◌, ◌^◌, ◌∙◌, ◌||◌, ◌==◌, ◌++◌, ltb, min, take, drop, ◌≡◌, inl, inr,
  refl, Bool, true, false, not, Bytes, [], if◌then◌else◌, length, codes, bytes_eq, Option-cases,
  arith,
}
use sshd.Platform.{Platform}
use sshd.Wire.{
  View, view_init, skip_string, get_string, get_u8, get_u32, put_u8, put_u32, put_string,
}
use sshd.Session.Msg
use sshd.Client.{Outbound, Device, with_cs, with_job}
use sshd.Client.Packet.{to_come, send_packet}
use sshd.Client.Ends.Methods.{to_come-send_packet}
use sshd.Client.Channel.{
  answer_global, adjust_window, out_write, write_rounds, pump_keys, pump_input, client_window,
  keys_read, channel_message,
}
use sshd.Client.Run.{take_data, take_extended_data, take_request, take_message}

if_stays :
    (b : Bool) (x y : Outbound) (n : ℕ)
    → to_come x ≡ n
    → to_come y ≡ n
    → to_come (if b then x else y) ≡ n
if_stays true x y n on off = on
if_stays false x y n on off = off

pub to_come-answer_global :
    (env : Platform) (w : Outbound) (v : View) → to_come (answer_global env w v) ≡ to_come w
unfolding answer_global
to_come-answer_global env w v = elim (Option-cases (skip_string v).0) [
  | inl unread ↦ ground (arith, unread)
  | inr (name, read) ↦ ground (
    arith,
    read,
    if_stays ((get_u8 (skip_string v).1).0 == 0) w
        (send_packet env w (put_u8 [] Msg.request_failure)) (to_come w) refl
        (to_come-send_packet env w (put_u8 [] Msg.request_failure)),
  )
]

pub to_come-adjust_window : (w : Outbound) (v : View) → to_come (adjust_window w v) ≡ to_come w
unfolding adjust_window to_come
to_come-adjust_window w v = refl

-- More on the screen.
shown : (w : Outbound) (text : Bytes) → to_come (record w { screen = text }) ≡ to_come w
unfolding to_come
shown w text = refl

to_come-write_rounds :
    (dev : Device) (fuel : ℕ) (w : Outbound) (left : Bytes)
    → to_come (write_rounds dev fuel w left) ≡ to_come w
unfolding write_rounds
to_come-write_rounds dev zero w left = refl
to_come-write_rounds dev (suc fuel) w left =
    let n = min (length left) (dev.stream_send (length w.screen) left) in
    let w1 = record w { screen = w.screen ++ take n left } in
    if_stays (length left == 0) w _ (to_come w) refl (
      if_stays (n == 0) w (write_rounds dev fuel w1 (drop n left)) (to_come w) refl
        (to_come-write_rounds dev fuel w1 (drop n left) ∙ shown w (w.screen ++ take n left)))

to_come-out_write :
    (dev : Device) (w : Outbound) (bytes : Bytes) → to_come (out_write dev w bytes) ≡ to_come w
unfolding out_write
to_come-out_write dev w bytes =
    if_stays (not w.job.out || length bytes == 0) w (write_rounds dev (length bytes) w bytes)
      (to_come w) refl (to_come-write_rounds dev (length bytes) w bytes)

typed_in : (w : Outbound) (keys : Bytes) → to_come (record w { keys = keys }) ≡ to_come w
unfolding to_come
typed_in w keys = refl

to_come-pump_keys :
    (env : Platform) (dev : Device) (fuel : ℕ) (w : Outbound)
    → to_come (pump_keys env dev fuel w) ≡ to_come w
unfolding pump_keys
to_come-pump_keys env dev zero w = refl
to_come-pump_keys env dev (suc fuel) w =
    let n = keys_read dev w.keys in
    let w1 = record w { keys = drop n w.keys } in
    let p = put_string (put_u32 (put_u8 [] Msg.channel_data) w.cs.peer_channel) (take n w.keys) in
    if_stays (n == 0) w (pump_keys env dev fuel (send_packet env w1 p)) (to_come w) refl (
      to_come-pump_keys env dev fuel (send_packet env w1 p)
      ∙ to_come-send_packet env w1 p
      ∙ typed_in w (drop n w.keys))

pub to_come-pump_input :
    (env : Platform) (dev : Device) (w : Outbound) → to_come (pump_input env dev w) ≡ to_come w
unfolding pump_input
to_come-pump_input env dev w =
    if_stays (not w.job.input) w (pump_keys env dev (suc (length w.keys)) w) (to_come w) refl
      (to_come-pump_keys env dev (suc (length w.keys)) w)

windowed :
    (w : Outbound) (n : ℕ) → to_come (with_cs w (record w.cs { local_window = n })) ≡ to_come w
unfolding to_come
windowed w n = refl

to_come-take_data :
    (env : Platform) (dev : Device) (w : Outbound) (v : View)
    → to_come (take_data env dev w v) ≡ to_come w
unfolding take_data
to_come-take_data env dev w v = elim (Option-cases (get_string (get_u32 v).1).0) [
  | inl unread ↦ ground (arith, unread)
  | inr (d, read) ↦
      let w1 = out_write dev w d in
      let left =
        if ltb (length d) w1.cs.local_window then w1.cs.local_window - length d % 2 ^ 32 else 0 in
      let w2 = with_cs w1 (record w1.cs { local_window = left }) in
      let add = client_window - left in
      let p = put_u32 (put_u32 (put_u8 [] Msg.channel_window_adjust) w2.cs.peer_channel) add in
      let w3 = send_packet env w2 p in
      let whole : to_come w2 ≡ to_come w = windowed w1 left ∙ to_come-out_write dev w d in
      ground (
        arith,
        read,
        if_stays (ltb left (client_window / 2))
            (with_cs w3 (record w3.cs { local_window = (left + add) % 2 ^ 32 })) w2 (to_come w)
            (windowed w3 ((left + add) % 2 ^ 32) ∙ to_come-send_packet env w2 p ∙ whole) whole,
      )
]

to_come-take_extended_data :
    (dev : Device) (w : Outbound) (v : View) → to_come (take_extended_data dev w v) ≡ to_come w
unfolding take_extended_data
to_come-take_extended_data dev w v = elim (Option-cases (get_string (get_u32 (get_u32 v).1).1).0) [
  | inl unread ↦ ground (arith, unread)
  | inr (d, read) ↦ ground (arith, read, to_come-out_write dev w d)
]

exited :
    (w : Outbound) (n : ℕ)
    → to_come (with_job w (record w.job { exit_status = n; have_exit = true })) ≡ to_come w
unfolding to_come
exited w n = refl

to_come-take_request : (w : Outbound) (v : View) → to_come (take_request w v) ≡ to_come w
unfolding take_request
to_come-take_request w v =
    let v1 = (get_string (get_u32 v).1).1 in
    let n = (get_u32 (get_u8 v1).1).0 in
    elim (Option-cases (get_string (get_u32 v).1).0) [
      | inl unread ↦ ground (arith, unread)
      | inr (name, read) ↦ ground (
        arith,
        read,
        if_stays (bytes_eq name (codes "exit-status"))
            (with_job w (record w.job { exit_status = n; have_exit = true })) w (to_come w)
            (exited w n) refl,
      )
    ]

pub to_come-take_message :
    (env : Platform) (dev : Device) (t : ℕ) (pkt : Bytes) (w : Outbound)
    → to_come (take_message env dev t pkt w).1 ≡ to_come w
unfolding take_message
to_come-take_message env dev t pkt w =
    let v = view_init (drop 1 pkt) in
    ground (
      arith,
      to_come-take_data env dev w v,
      to_come-take_extended_data dev w v,
      to_come-adjust_window w v,
      to_come-take_request w v,
      to_come-send_packet env w (channel_message Msg.channel_close w),
      to_come-answer_global env w v,
    )
