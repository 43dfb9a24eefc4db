-- ===== src/Server/Reach.antt =====
-- The life of the server: from two empty slots through any callbacks.
use sshd.Base.{
  ℕ, suc, ◌≡◌, ◌⊎◌, inl, true, false, some, Bytes, List, All, [], ◌∷◌, ◌++◌, length, arith,
}
use sshd.Platform.{Platform}
use sshd.Session.{version, closed, phase_eq}
use sshd.Session.Slot.{Held}
use sshd.Server.{
  Slot, Server, max_sessions, slot_at, set_slot, on_tcp_connect, on_tcp_disconnect, on_tcp_recv,
  on_backend_recv_cb, on_backend_disconnect_cb, reset_all,
}
use sshd.Server.Slots.{Live, slot_at-Live}
use sshd.Server.Sound.{
  Sound, slot-Held, with_slots, on_tcp_connect-Sound, on_tcp_disconnect-Sound, on_tcp_recv-Sound,
  on_backend_recv_cb-Sound, on_backend_disconnect_cb-Sound, reset_all-Sound,
}

-- One step: a callback, `sshd reset`, or bytes that arrive in a stream. ITS reports the end of a
-- connection for an index that `onTcpConnect` gave: the slot is in use, or its session has ended and
-- the slot is free since.
pub data Step (env : Platform) (sv v : Server) : Type 0 where
  connects : (handle : ℕ) → v ≡ (on_tcp_connect sv handle).1 → Step env sv v
  disconnects :
      (ref : ℕ) (sl : Slot)
      → slot_at ref sv.slots ≡ some sl
      → (sl.in_use ≡ true) ⊎ (phase_eq sl.session.phase closed ≡ true)
      → v ≡ on_tcp_disconnect sv ref
      → Step env sv v
  resets : v ≡ (reset_all sv).1 → Step env sv v
  receives : (ref : ℕ) → on_tcp_recv env sv ref ≡ some v → Step env sv v
  backend_receives : (ref : ℕ) → v ≡ on_backend_recv_cb env sv ref → Step env sv v
  backend_disconnects : (ref : ℕ) → v ≡ on_backend_disconnect_cb env sv ref → Step env sv v
  bytes_arrive :
      (i : ℕ) (sl : Slot) (from_tcp from_backend : Bytes)
      → slot_at i sv.slots ≡ some sl
      → v.slots
        ≡ set_slot i
            (record sl {
              tcp_in = sl.tcp_in ++ from_tcp;
              backend_in = sl.backend_in ++ from_backend;
            })
            sv.slots
      → Step env sv v

-- The tables at the start: no slot is in use, and the sessions are zeroed.
abbrev pub AllZeroed : List Slot → Type 0
AllZeroed slots = All (λ (sl : Slot). (sl.in_use ≡ false) × (sl.session.phase ≡ version)) slots

pub data Reach (env : Platform) : Server → Type 0 where
  started : (sv : Server) → length sv.slots ≡ max_sessions → AllZeroed sv.slots → Reach env sv
  then : {sv v : Server} → Reach env sv → Step env sv v → Reach env v

idle-Live : (base : ℕ) (slots : List Slot) → AllZeroed slots → Live base slots
unfolding Live
idle-Live base [] zeroed = tt
idle-Live base (sl ∷ r) zeroed = (
  inl (zeroed.0.0, λ ended. absurd (let e = zeroed.0.1 in ground (arith, e, ended))),
  idle-Live (suc base) r zeroed.1,
)

Step-Sound : (env : Platform) (sv v : Server) → Step env sv v → Sound sv → Sound v
Step-Sound env sv v (connects handle e) h = rw e (on_tcp_connect-Sound sv handle h)
Step-Sound env sv v (disconnects ref sl found had e) h =
    rw e (on_tcp_disconnect-Sound sv ref sl h found had)
Step-Sound env sv v (resets e) h = rw e (reset_all-Sound sv h)
Step-Sound env sv v (receives ref e) h = on_tcp_recv-Sound env sv v ref h e
Step-Sound env sv v (backend_receives ref e) h = rw e (on_backend_recv_cb-Sound env sv ref h)
Step-Sound env sv v (backend_disconnects ref e) h =
    rw e (on_backend_disconnect_cb-Sound env sv ref h)
Step-Sound env sv v (bytes_arrive i sl from_tcp from_backend found e) h =
    with_slots sv v i
      (record sl { tcp_in = sl.tcp_in ++ from_tcp; backend_in = sl.backend_in ++ from_backend }) h e
      (slot_at-Live 0 i sv.slots sl h.slots_live found)

pub Reach-Sound : (env : Platform) {sv : Server} → Reach env sv → Sound sv
Reach-Sound env (started sv two idle) = record { two = two; slots_live = idle-Live 0 sv.slots idle }
Reach-Sound env (then {sv = sv} {v = v} r s) = Step-Sound env sv v s (Reach-Sound env r)

-- From two zeroed slots on, through any callbacks of ITS, any `sshd reset` and any bytes, where the end
-- of a connection may also be reported after its slot was freed: there are two slots, and a slot that
-- is in use holds a session that knows its index and is not closed, so that no slot is lost to a
-- session that has ended.
pub Reach-slot_at :
    (env : Platform) (sv : Server) (i : ℕ) (sl : Slot)
    → Reach env sv
    → slot_at i sv.slots ≡ some sl
    → sl.in_use ≡ true
    → (length sv.slots ≡ max_sessions) × Held i sl.session
Reach-slot_at env sv i sl r found used =
    let h = Reach-Sound env r in (h.two, slot-Held sv i sl h found used)
