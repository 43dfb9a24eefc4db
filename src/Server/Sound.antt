-- ===== src/Server/Sound.antt =====
-- The server's invariant, callback by callback.
use sshd.Base.{
  ℕ, ◌+◌, suc, zero, none, ◌≡◌, sym, ap, ap₂, subst, ◌∙◌, ◌⊎◌, inl, inr, true, false, not, some, [],
  length, Bool-cases, Option-cases, arith,
}
use sshd.Platform.{Platform}
use sshd.Session.{Session, World, closed, phase_eq}
use sshd.Session.Channel.{session_on_backend_data}
use sshd.Session.Machine.{
  session_open, session_close, session_on_tcp_data, session_on_backend_close,
}
use sshd.Session.Slot.{
  Held, Released, session_open-Held, session_close-Released, session_on_tcp_data-slot,
  session_on_backend_data-Held, session_on_backend_close-slot,
}
use sshd.Server.{
  Slot, Server, max_sessions, slot_at, set_slot, find_free_slot, world_of, release, store,
  on_tcp_connect, on_tcp_disconnect, sshd_session_at, on_tcp_recv, on_backend_recv_cb,
  on_backend_disconnect_cb, close_from, reset_all,
}
use sshd.Server.Slots.{
  some_slot, Unused, slot_at-Live, Live, length-set_slot, length-sshd_slot_free, Live-set_slot,
  Live-freed, Live-slot_at,
}

-- The server's invariant: two slots, and `Live`.
pub record Sound (sv : Server) : Type 0 where
  pub two : length sv.slots ≡ max_sessions
  pub slots_live : Live 0 sv.slots

from_zero : (i : ℕ) (s : Session) → Held i s → Held (0 + i) s
from_zero i s h = subst (λ k. Held k s) (let e : i ≡ 0 + i = omega arith in e) h

-- The table after a callback of a session that held the slot.
store-Sound :
    (sv : Server) (i : ℕ) (sl : Slot) (w : World)
    → Sound sv
    → sl.session.slot ≡ some i
    → Held i w.session ⊎ Released w.session
    → Sound (store sv i sl w)
unfolding store
store-Sound sv i sl w h e (inl held) =
    let new = record sl { session = w.session; tcp_in = w.tcp_in; backend_in = w.backend_in } in
    let kept = ap₂ (λ b a. release b a (set_slot i new sv.slots)) e held.in_slot in
    record {
      two = ap length kept ∙ length-set_slot i new sv.slots ∙ h.two;
      slots_live =
          subst (Live 0) (sym kept)
            (Live-set_slot 0 i new sv.slots (inr (from_zero i w.session held)) h.slots_live);
    }
store-Sound sv i sl w h e (inr gone) =
    let new = record sl { session = w.session; tcp_in = w.tcp_in; backend_in = w.backend_in } in
    let freed = ap₂ (λ b a. release b a (set_slot i new sv.slots)) e gone.no_longer in
    record {
      two =
          ap length freed
          ∙ length-sshd_slot_free i (set_slot i new sv.slots)
          ∙ length-set_slot i new sv.slots
          ∙ h.two;
      slots_live =
          subst (Live 0) (sym freed) (Live-freed 0 i new sv.slots gone.no_longer h.slots_live);
    }

pub slot-Held :
    (sv : Server) (i : ℕ) (sl : Slot)
    → Sound sv
    → slot_at i sv.slots ≡ some sl
    → sl.in_use ≡ true
    → Held i sl.session
slot-Held sv i sl h found used =
    subst (λ k. Held k sl.session) (let e : 0 + i ≡ i = omega arith in e)
      (Live-slot_at 0 i sv.slots sl h.slots_live found used)

carry_over : {v w : Server} → v ≡ w → Sound w → Sound v
carry_over e h = subst Sound (sym e) h

session_at_some :
    (sv : Server) (i : ℕ) (sl : Slot)
    → Sound sv
    → sshd_session_at sv i ≡ some sl
    → Held i sl.session
unfolding sshd_session_at
session_at_some sv i sl h e = elim (Option-cases (slot_at i sv.slots)) [
  | inl missing ↦ absurd (ground (arith, missing))
  | inr (t, found) ↦ elim (Bool-cases t.in_use) [
    | inr unused ↦ absurd (ground (arith, found, unused))
    | inl used ↦
        let same_slot = some_slot t sl (ground (arith, found, used)) in
        subst (λ (x : Slot). Held i x.session) same_slot (slot-Held sv i t h found used)
  ]
]

-- The slot of a connection that is let in.
new_slot : Server → Slot → ℕ → ℕ → Slot
new_slot sv sl handle i =
    let w = session_open (record (world_of sv sl) { tcp_in = []; backend_in = [] }) handle i in
    record { in_use = true; session = w.session; tcp_in = w.tcp_in; backend_in = w.backend_in }

new_slot-Held :
    (sv : Server) (sl : Slot) (handle i : ℕ)
    → Unused (new_slot sv sl handle i) ⊎ Held (0 + i) (new_slot sv sl handle i).session
unfolding new_slot
new_slot-Held sv sl handle i =
    let w = record (world_of sv sl) { tcp_in = []; backend_in = [] } in
    inr (
      subst (λ k. Held k (session_open w handle i).session) (let e : i ≡ 0 + i = omega arith in e)
        (session_open-Held w handle i))

pub with_slots :
    (sv v : Server) (i : ℕ) (new : Slot)
    → Sound sv
    → v.slots ≡ set_slot i new sv.slots
    → Unused new ⊎ Held (0 + i) new.session
    → Sound v
with_slots sv v i new h e held = record {
  two = ap length e ∙ length-set_slot i new sv.slots ∙ h.two;
  slots_live = subst (Live 0) (sym e) (Live-set_slot 0 i new sv.slots held h.slots_live);
}

pub on_tcp_connect-Sound :
    (sv : Server) (handle : ℕ) → Sound sv → Sound (on_tcp_connect sv handle).1
unfolding on_tcp_connect new_slot
on_tcp_connect-Sound sv handle h = elim (Option-cases (find_free_slot sv.slots)) [
  | inl full ↦ carry_over (ground (arith, full)) h
  | inr (i, free) ↦ elim (Option-cases (slot_at i sv.slots)) [
    | inl missing ↦ carry_over (ground (arith, free, missing)) h
    | inr (sl, found) ↦
        with_slots sv (on_tcp_connect sv handle).1 i (new_slot sv sl handle i) h
          (ground (arith, free, found)) (new_slot-Held sv sl handle i)
  ]
]

session_close-none : (w : World) → w.session.slot ≡ none → (session_close w).session.slot ≡ none
unfolding session_close
session_close-none w e = ground (arith, e)

-- A session that has given its index up before is ended once more, and no slot changes hands.
unused-Sound :
    (sv : Server) (i : ℕ) (sl : Slot)
    → Sound sv
    → sl.in_use ≡ false
    → sl.session.slot ≡ none
    → Sound (store sv i sl (session_close (world_of sv sl)))
unfolding store
unused-Sound sv i sl h unused given_up =
    let w = session_close (world_of sv sl) in
    let new = record sl { session = w.session; tcp_in = w.tcp_in; backend_in = w.backend_in } in
    let kept = ap (λ b. release b w.session.slot (set_slot i new sv.slots)) given_up in
    let still = session_close-none (world_of sv sl) given_up in
    record {
      two = ap length kept ∙ length-set_slot i new sv.slots ∙ h.two;
      slots_live =
          subst (Live 0) (sym kept)
            (Live-set_slot 0 i new sv.slots (inl (unused, λ ended. still)) h.slots_live);
    }

-- The end of the session in a slot that a connection has had.
close-Sound :
    (sv : Server) (i : ℕ) (sl : Slot)
    → Sound sv
    → slot_at i sv.slots ≡ some sl
    → (sl.in_use ≡ true) ⊎ (phase_eq sl.session.phase closed ≡ true)
    → Sound (store sv i sl (session_close (world_of sv sl)))
close-Sound sv i sl h found had = elim (slot_at-Live 0 i sv.slots sl h.slots_live found) [
  | inl (unused, given_up) ↦ elim had [
    | inl used ↦ absurd (cc)
    | inr ended ↦ unused-Sound sv i sl h unused (given_up ended)
  ]
  | inr at_zero ↦
      let held = subst (λ k. Held k sl.session) (let e : 0 + i ≡ i = omega arith in e) at_zero in
      store-Sound sv i sl (session_close (world_of sv sl)) h held.in_slot
        (inr (session_close-Released (world_of sv sl) i held.in_slot))
]

pub on_tcp_disconnect-Sound :
    (sv : Server) (ref : ℕ) (sl : Slot)
    → Sound sv
    → slot_at ref sv.slots ≡ some sl
    → (sl.in_use ≡ true) ⊎ (phase_eq sl.session.phase closed ≡ true)
    → Sound (on_tcp_disconnect sv ref)
unfolding on_tcp_disconnect
on_tcp_disconnect-Sound sv ref sl h found had =
    carry_over (ground (arith, found)) (close-Sound sv ref sl h found had)

session_at_found :
    (sv : Server) (i : ℕ) (sl : Slot)
    → sshd_session_at sv i ≡ some sl
    → (slot_at i sv.slots ≡ some sl) × (sl.in_use ≡ true)
unfolding sshd_session_at
session_at_found sv i sl e = elim (Option-cases (slot_at i sv.slots)) [
  | inl missing ↦ absurd (ground (arith, missing))
  | inr (t, found) ↦ elim (Bool-cases t.in_use) [
    | inr unused ↦ absurd (ground (arith, found, unused))
    | inl used ↦
        let same_slot = some_slot t sl (ground (arith, found, used)) in
        (found ∙ ap (λ x. some x) same_slot, ap (λ (x : Slot). x.in_use) (sym same_slot) ∙ used)
  ]
]

close_from-Sound : (left i : ℕ) (sv : Server) → Sound sv → Sound (close_from left i sv).1
unfolding close_from
close_from-Sound zero i sv h = h
close_from-Sound (suc left) i sv h = elim (Option-cases (sshd_session_at sv i)) [
  | inl missing ↦ carry_over (ground (arith, missing)) (close_from-Sound left (i + 1) sv h)
  | inr (sl, found) ↦
      let sv1 = store sv i sl (session_close (world_of sv sl)) in
      carry_over (ground (arith, found)) (
        let (there, used) = session_at_found sv i sl found in
        close_from-Sound left (i + 1) sv1 (close-Sound sv i sl h there (inl used)))
]

pub reset_all-Sound : (sv : Server) → Sound sv → Sound (reset_all sv).1
unfolding reset_all
reset_all-Sound sv h = close_from-Sound max_sessions 0 sv h

module _ (env : Platform) where
  pub on_tcp_recv-Sound :
      (sv v : Server) (ref : ℕ) → Sound sv → on_tcp_recv env sv ref ≡ some v → Sound v
  unfolding on_tcp_recv
  on_tcp_recv-Sound sv v ref h e = elim (Option-cases (sshd_session_at sv ref)) [
    | inl missing ↦ carry_over (ground (arith, missing)) h
    | inr (sl, found) ↦ elim (Option-cases (session_on_tcp_data env (world_of sv sl))) [
      | inl out ↦ absurd (ground (arith, found, out))
      | inr (w, ran) ↦
          let held = session_at_some sv ref sl h found in
          carry_over (ground (arith, found, ran)) (
            store-Sound sv ref sl w h held.in_slot
              (session_on_tcp_data-slot env (world_of sv sl) w ref held.in_slot ran))
    ]
  ]

  pub on_backend_recv_cb-Sound :
      (sv : Server) (ref : ℕ) → Sound sv → Sound (on_backend_recv_cb env sv ref)
  unfolding on_backend_recv_cb
  on_backend_recv_cb-Sound sv ref h = elim (Option-cases (sshd_session_at sv ref)) [
    | inl missing ↦ carry_over (ground (arith, missing)) h
    | inr (sl, found) ↦
        let held = session_at_some sv ref sl h found in
        elim (Bool-cases (not sl.session.chan_open)) [
          | inl shut ↦ carry_over (ground (arith, found, shut)) h
          | inr opened ↦ carry_over (ground (arith, found, opened)) (
              store-Sound sv ref sl (session_on_backend_data env (world_of sv sl)) h held.in_slot
                (inl (session_on_backend_data-Held env (world_of sv sl) ref held)))
        ]
  ]

  pub on_backend_disconnect_cb-Sound :
      (sv : Server) (ref : ℕ) → Sound sv → Sound (on_backend_disconnect_cb env sv ref)
  unfolding on_backend_disconnect_cb
  on_backend_disconnect_cb-Sound sv ref h = elim (Option-cases (sshd_session_at sv ref)) [
    | inl missing ↦ carry_over (ground (arith, missing)) h
    | inr (sl, found) ↦
        let held = session_at_some sv ref sl h found in
        carry_over (ground (arith, found)) (
          store-Sound sv ref sl (session_on_backend_close env (world_of sv sl)) h held.in_slot
            (session_on_backend_close-slot env (world_of sv sl) ref held))
  ]
