-- ===== src/Server/Reset.antt =====
-- `sshd reset` in `cmdSshd` of esp-idf/src/sshd.cpp.
use sshd.Base.{ℕ, ◌≡◌, false, List, [], ◌∷◌}
use sshd.Platform.{Platform, Event}
use sshd.Session.Machine.{session_close}
use sshd.Server.{Slot, Server, world_of, store, active_sessions}
use sshd.Server.Reach.{Reach}

-- The slot after its session was ended, with the slot given back.
freed : Server → Slot → Slot
freed sv sl =
    let w = session_close (world_of sv sl) in
    record { in_use = false; session = w.session; tcp_in = w.tcp_in; backend_in = w.backend_in }

with_two : List Event → ℕ → Slot → Slot → Server
with_two trace draws a b = record { slots = a ∷ b ∷ []; trace = trace; draws = draws }

-- The server after the session in a slot was ended.
after_close : Server → ℕ → Slot → Server
after_close sv i sl = store sv i sl (session_close (world_of sv sl))

-- What the loop makes of a server: how many sessions it ends, and none is left.
abbrev Ends : ℕ → ℕ × Server → Type 0
Ends n r = (r.0 ≡ n) × (active_sessions r.1.slots ≡ 0)
