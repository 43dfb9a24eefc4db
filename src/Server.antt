-- ===== src/Server.antt =====
-- The session slots of esp-idf/src/sshd.cpp with the ITS callbacks on them, and the two callbacks of
-- the backends in esp-idf/src/sshd_session.cpp.
pub mod Slots
pub mod Sound
pub mod Connect
pub mod Reach
pub mod Reset
use sshd.Base.{
  ℕ, zero, suc, ◌+◌, Bool, true, false, not, Option, none, some, Bytes, List, [], ◌∷◌,
  if◌then◌else◌,
}
use sshd.Platform.{Platform, Event}
use sshd.Session.{Session, World}
use sshd.Session.Channel.{session_on_backend_data}
use sshd.Session.Machine.{
  session_open, session_close, session_on_tcp_data, session_on_backend_close,
}

-- `s_slotInUse[i]` and `s_sessions[i]`, with the streams of the session's two handles.
pub record Slot : Type 0 where
  pub in_use : Bool
  pub session : Session
  pub tcp_in : Bytes
  pub backend_in : Bytes

-- The two arrays as one, and what the sessions share.
pub record Server : Type 0 where
  pub slots : List Slot
  pub trace : List Event
  pub draws : ℕ

abbrev pub max_sessions : ℕ
max_sessions = 2

unfoldable pub slot_at : ℕ → List Slot → Option Slot
slot_at i [] = none
slot_at zero (sl ∷ r) = some sl
slot_at (suc i) (sl ∷ r) = slot_at i r

-- Out of range nothing happens.
unfoldable pub set_slot : ℕ → Slot → List Slot → List Slot
set_slot i new [] = []
set_slot zero new (sl ∷ r) = new ∷ r
set_slot (suc i) new (sl ∷ r) = sl ∷ set_slot i new r

unfoldable pub sshd_slot_free : ℕ → List Slot → List Slot
sshd_slot_free i [] = []
sshd_slot_free zero (sl ∷ r) = record sl { in_use = false } ∷ r
sshd_slot_free (suc i) (sl ∷ r) = sl ∷ sshd_slot_free i r

-- The loop of `findFreeSlot`.
unfoldable pub find_free_slot : List Slot → Option ℕ
find_free_slot [] = none
find_free_slot (sl ∷ r) =
    let rest = find_free_slot r in
    if not sl.in_use then some 0 else elim rest [ none ↦ none | some i ↦ some (suc i) ]

-- The world that a callback of the session in a slot runs in.
abbrev pub world_of : Server → Slot → World
world_of sv sl = record {
  session = sl.session;
  trace = sv.trace;
  draws = sv.draws;
  tcp_in = sl.tcp_in;
  backend_in = sl.backend_in;
}

-- `sshdSlotFree` as `session_close` calls it: when the session gives its index up.
abbrev pub release : Option ℕ → Option ℕ → List Slot → List Slot
release none after slots = slots
release (some i) none slots = sshd_slot_free i slots
release (some i) (some j) slots = slots

-- The server after a callback of the session in slot `i`.
unfoldable pub store : Server → ℕ → Slot → World → Server
store sv i sl w = record {
  slots = release sl.session.slot w.session.slot (
      set_slot i (record sl { session = w.session; tcp_in = w.tcp_in; backend_in = w.backend_in })
        sv.slots);
  trace = w.trace;
  draws = w.draws;
}

-- The slot's index, or -1.
unfoldable pub on_tcp_connect : Server → ℕ → Option ℕ × Server
on_tcp_connect sv handle = elim (find_free_slot sv.slots) [
  | none ↦ (none, sv)
  | some i ↦ elim (slot_at i sv.slots) [
    | none ↦ (none, sv)
    | some sl ↦
        let w = session_open (record (world_of sv sl) { tcp_in = []; backend_in = [] }) handle i in
        let opened : Slot = record {
          in_use = true;
          session = w.session;
          tcp_in = w.tcp_in;
          backend_in = w.backend_in;
        } in
        (some i, record { slots = set_slot i opened sv.slots; trace = w.trace; draws = w.draws })
  ]
]

unfoldable pub on_tcp_disconnect : Server → ℕ → Server
on_tcp_disconnect sv ref = elim (slot_at ref sv.slots) [
  | none ↦ sv
  | some sl ↦ store sv ref sl (session_close (world_of sv sl))
]

-- `sshdSessionAt`
unfoldable pub sshd_session_at : Server → ℕ → Option Slot
sshd_session_at sv i = elim (slot_at i sv.slots) [
  | none ↦ none
  | some sl ↦ if not sl.in_use then none else some sl
]

module _ (env : Platform) where
  -- `ref` is `itsRef(handle)`; `none` means that the fuel of the session ran out.
  unfoldable pub on_tcp_recv : Server → ℕ → Option Server
  on_tcp_recv sv ref = elim (sshd_session_at sv ref) [
    | none ↦ some sv
    | some sl ↦ elim (session_on_tcp_data env (world_of sv sl)) [
      | none ↦ none
      | some w ↦ some (store sv ref sl w)
    ]
  ]

  unfoldable pub on_backend_recv_cb : Server → ℕ → Server
  on_backend_recv_cb sv ref = elim (sshd_session_at sv ref) [
    | none ↦ sv
    | some sl ↦
        if not sl.session.chan_open
        then sv
        else store sv ref sl (session_on_backend_data env (world_of sv sl))
  ]

  unfoldable pub on_backend_disconnect_cb : Server → ℕ → Server
  on_backend_disconnect_cb sv ref = elim (sshd_session_at sv ref) [
    | none ↦ sv
    | some sl ↦ store sv ref sl (session_on_backend_close env (world_of sv sl))
  ]

-- The `sshd reset` command: the loop, with `left` slots to go from the index `i` on, and how many
-- sessions it ended.
unfoldable pub close_from : ℕ → ℕ → Server → ℕ × Server
close_from zero i sv = (0, sv)
close_from (suc left) i sv = elim (sshd_session_at sv i) [
  | none ↦ close_from left (i + 1) sv
  | some sl ↦
      let (killed, sv1) =
        close_from left (i + 1) (store sv i sl (session_close (world_of sv sl))) in
      (killed + 1, sv1)
]

unfoldable pub reset_all : Server → ℕ × Server
reset_all sv = close_from max_sessions 0 sv

-- `sshdActiveSessions`
unfoldable pub active_sessions : List Slot → ℕ
active_sessions [] = 0
active_sessions (sl ∷ r) = (if sl.in_use then 1 else 0) + active_sessions r
