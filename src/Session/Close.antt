-- ===== src/Session/Close.antt =====
-- The end of a session: `session_close` in esp-idf/src/sshd_session.cpp.
use sshd.Base.{◌≡◌, arith}
use sshd.Session.{World}
use sshd.Session.Machine.{session_close}

-- A second call of `session_close` changes nothing, and makes no call.
pub session_close-session_close : (w : World) → session_close (session_close w) ≡ session_close w
unfolding session_close
session_close-session_close w = ground arith
