-- ===== src/Session/Window.antt =====
-- The window that the server grants to the client.
use sshd.Base.{
  ℕ, ltb, ap₂, ◌/◌, ◌+◌, ◌-◌, ◌<◌, ◌^◌, ◌%◌, not, inl, inr, Bool-cases, subst, sym, ap, refl, ◌∙◌,
  [], if◌then◌else◌, ◌≤◌, ◌≡◌, some, Bytes, length, arith,
}
use sshd.Platform.{Platform, sent}
use sshd.Wire.{put_u8, put_u32, view_init, get_u32, get_string}
use sshd.Session.{Session, World, note, full_local_window}
use sshd.Session.{with_session}
use sshd.Session.Packet.{send_packet}
use sshd.Session.Packet.Frame.{send_packet_lem}
use sshd.Session.Channel.{send_channel_window_adjust}
use sshd.Session.Requests.{replenish, handle_channel_data}

-- At least half of the full window, and at most all of it.
pub record Granted (s : Session) : Type 0 where
  pub half : 16384 ≤ s.local_window
  pub full : s.local_window ≤ full_local_window

replenish-Granted :
    (env : Platform) (w : World) (written : ℕ)
    → Granted w.session
    → written ≤ w.session.local_window
    → Granted (replenish env w written).session
unfolding replenish send_channel_window_adjust
replenish-Granted env w written h fits = grind (arith, send_packet_lem)

-- What the server has done with its window when the backend took `n` bytes of the data: it has taken them
-- off and half of the full window is left; or less was left, and it has told the client by one
-- WINDOW_ADJUST just the bytes that fill the window up, and counts the full window.
pub data Accounted (env : Platform) (w v : World) (d : Bytes) (n : ℕ) : Type 0 where
  taken_off :
      16384 ≤ w.session.local_window - n
      → v
        ≡ with_session
            (note w (sent w.session.backend_handle d))
            (record w.session { local_window = w.session.local_window - n })
      → Accounted env w v d n
  filled_up :
      (add : ℕ)
      → w.session.local_window - n < 16384
      → w.session.local_window - n + add ≡ 32768
      → v
        ≡ send_packet env
            (with_session
              (note w (sent w.session.backend_handle d))
              (record w.session { local_window = 32768 }))
            (put_u32 (put_u32 (put_u8 [] 93) w.session.peer_channel) add)
      → Accounted env w v d n

window_set : World → Bytes → ℕ → World
window_set w d window =
    with_session (note w (sent w.session.backend_handle d))
      (record w.session { local_window = window })

-- `replenish` on the window that is left.
replenished : Platform → World → Bytes → ℕ → ℕ → World
replenished env w d n left =
    let add = (full_local_window + 2 ^ 32 - left) % 2 ^ 32 in
    if not (ltb 0 n)
    then note w (sent w.session.backend_handle d)
    else (if ltb left (full_local_window / 2)
        then send_channel_window_adjust env (window_set w d ((left + add) % 2 ^ 32)) add
        else window_set w d left)

replenish_lem :
    (env : Platform) (w : World) (d : Bytes) (n : ℕ)
    → n ≤ w.session.local_window
    → w.session.local_window ≤ 32768
    → replenish env (note w (sent w.session.backend_handle d)) n
      ≡ replenished env w d n (w.session.local_window - n)
unfolding replenish replenished window_set
replenish_lem env w d n fits full = ap (replenished env w d n) (
    let e : (w.session.local_window + 2 ^ 32 - n % 2 ^ 32) % 2 ^ 32 ≡ w.session.local_window - n =
      omega (arith, fits, full) in
    e)

adjust_told :
    (env : Platform) (w : World) (d : Bytes) (window add : ℕ)
    → send_channel_window_adjust env (window_set w d window) add
      ≡ send_packet env
          (window_set w d window)
          (put_u32 (put_u32 (put_u8 [] 93) w.session.peer_channel) add)
unfolding send_channel_window_adjust window_set
adjust_told env w d window add = refl

replenish-Accounted :
    (env : Platform) (w : World) (d : Bytes) (n : ℕ)
    → Granted w.session
    → n ≤ w.session.local_window
    → Accounted env w (replenish env (note w (sent w.session.backend_handle d)) n) d n
unfolding window_set replenished
replenish-Accounted env w d n h fits =
    let left = w.session.local_window - n in
    let add = 32768 - left in
    let v = replenish env (note w (sent w.session.backend_handle d)) n in
    let is : v ≡ replenished env w d n left = replenish_lem env w d n fits h.full in
    elim (Bool-cases (ltb 0 n)) [
      | inr nothing ↦
          let same : w.session.local_window ≡ left = ground (arith, nothing) in
          taken_off (ground (arith, nothing, h.half))
            (is ∙ ground (arith, nothing) ∙ ap (window_set w d) same)
      | inl some_taken ↦ elim (Bool-cases (ltb left 16384)) [
        | inr enough ↦ taken_off (ground (arith, enough)) (is ∙ ground (arith, some_taken, enough))
        | inl short ↦
            let whole : (left + (32768 + 2 ^ 32 - left) % 2 ^ 32) % 2 ^ 32 ≡ 32768 =
              omega (arith, h.full, fits) in
            let just : (32768 + 2 ^ 32 - left) % 2 ^ 32 ≡ add = omega (arith, h.full, fits) in
            let branch : replenished env w d n left
                ≡ send_channel_window_adjust env
                    (window_set w d ((left + (32768 + 2 ^ 32 - left) % 2 ^ 32) % 2 ^ 32))
                    ((32768 + 2 ^ 32 - left) % 2 ^ 32) =
              ground (arith, some_taken, short) in
            filled_up add (ground (arith, short)) (omega (arith, h.full, fits)) (
              is
              ∙ branch
              ∙ ap₂ (λ x y. send_channel_window_adjust env (window_set w d x) y) whole just
              ∙ adjust_told env w d 32768 add)
      ]
    ]

-- On CHANNEL_DATA of a client that keeps to its window, for an open backend that takes no more bytes
-- than it is given: the server takes just the bytes that the backend took off its window and tells the
-- client by a WINDOW_ADJUST just the bytes by which it fills the window up, which it does where less than
-- half is left; and the window stays between half of the full window and all of it.
pub handle_channel_data-Granted :
    (env : Platform) (w : World) (payload d : Bytes) (handle : ℕ)
    → Granted w.session
    → (get_string (get_u32 (view_init payload)).1).0 ≡ some d
    → length d ≤ w.session.local_window
    → w.session.backend_handle ≡ some handle
    → env.its_send w.trace w.session.backend_handle d ≤ length d
    → Accounted env w
        (handle_channel_data env w payload)
        d
        (env.its_send w.trace w.session.backend_handle d)
      × Granted (handle_channel_data env w payload).session
unfolding handle_channel_data
handle_channel_data-Granted env w payload d handle h carries fits opened takes =
    let told = note w (sent w.session.backend_handle d) in
    let n = env.its_send w.trace w.session.backend_handle d in
    let is : handle_channel_data env w payload ≡ replenish env told n =
      ground (arith, carries, opened) in
    let small : n ≤ w.session.local_window = omega (arith, takes, fits) in
    subst (λ v. Accounted env w v d n × Granted v.session) (sym is)
      (replenish-Accounted env w d n h small, replenish-Granted env told n h small)
