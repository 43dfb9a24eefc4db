-- ===== src/Session/Reach.antt =====
-- The life of a session: from `session_open` through any callbacks, with any bytes arriving between
-- them.
use sshd.Base.{ℕ, ◌≡◌, true, false, some, Bytes, ◌++◌, arith}
use sshd.Platform.{Platform}
use sshd.Session.{Session, World, run}
use sshd.Session.Channel.{no_handle, session_on_backend_data}
use sshd.Session.Machine.{
  session_open, session_close, session_on_tcp_data, session_on_backend_close,
}
use sshd.Session.Safety.{Safe}
use sshd.Session.Safety.Channels.{session_on_backend_data-Safe}
use sshd.Session.Safety.Dispatch.{
  session_open-Safe, session_close-Safe, session_on_tcp_data-Safe, session_on_backend_close-Safe,
}

-- One step: bytes arrive in a stream, or a callback runs.
pub data Step (env : Platform) (w v : World) : Type 0 where
  tcp_arrives : (bytes : Bytes) → v ≡ record w { tcp_in = w.tcp_in ++ bytes } → Step env w v
  backend_arrives :
      (bytes : Bytes) → v ≡ record w { backend_in = w.backend_in ++ bytes } → Step env w v
  on_tcp_data : session_on_tcp_data env w ≡ some v → Step env w v
  on_backend_data : v ≡ session_on_backend_data env w → Step env w v
  on_backend_close : v ≡ session_on_backend_close env w → Step env w v
  on_close : v ≡ session_close w → Step env w v

-- The worlds that a session can be in.
pub data Reach (env : Platform) : World → Type 0 where
  opened : (w : World) (handle slot : ℕ) → Reach env (session_open w handle slot)
  then : {w v : World} → Reach env w → Step env w v → Reach env v

pub Step-Safe : (env : Platform) (w v : World) → Step env w v → Safe w.session → Safe v.session
Step-Safe env w v (tcp_arrives bytes e) h = rw e (ground arith)
Step-Safe env w v (backend_arrives bytes e) h = rw e (ground arith)
Step-Safe env w v (on_tcp_data e) h = session_on_tcp_data-Safe env w v h e
Step-Safe env w v (on_backend_data e) h = rw e (session_on_backend_data-Safe env w h)
Step-Safe env w v (on_backend_close e) h = rw e (session_on_backend_close-Safe env w h)
Step-Safe env w v (on_close e) h = rw e (session_close-Safe env w h)

pub Reach-Safe : (env : Platform) {w : World} → Reach env w → Safe w.session
Reach-Safe env (opened w handle slot) = session_open-Safe env w handle slot
Reach-Safe env (then {w = w} {v = v} r s) = Step-Safe env w v s (Reach-Safe env r)

-- The marks of a session that has been let in: the phase RUN, a channel, a backend, or the flag.
pub data LetIn (s : Session) : Type 0 where
  in_run : s.phase ≡ run → LetIn s
  has_channel : s.chan_open ≡ true → LetIn s
  has_backend : no_handle s.backend_handle ≡ false → LetIn s
  logged_in : s.authed ≡ true → LetIn s

LetIn-authed : (s : Session) → Safe s → LetIn s → s.authed ≡ true
LetIn-authed s h (in_run e) = h.run_authed e
LetIn-authed s h (has_channel e) = h.open_authed e
LetIn-authed s h (has_backend e) = h.backend_authed e
LetIn-authed s h (logged_in e) = e

-- Whatever the client and the backends send, in whatever order the callbacks run: a session in the
-- phase RUN, with an open channel, with a backend or marked authenticated is authenticated, and it is
-- encrypted in both directions.
pub Reach-authed :
    (env : Platform) (w : World)
    → Reach env w
    → LetIn w.session
    → (w.session.authed ≡ true) × (w.session.enc_inbound ≡ true) × (w.session.enc_outbound ≡ true)
Reach-authed env w r l =
    let s = Reach-Safe env r in
    let on = LetIn-authed w.session s l in (on, (s.authed_sealed on).0, (s.authed_sealed on).1)
