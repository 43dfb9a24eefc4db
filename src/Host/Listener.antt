-- ===== src/Host/Listener.antt =====
-- The port on which net listens for `applyListenerState` of esp-idf/src/sshd.cpp.
use sshd.Base.{
  ℕ, ◌≡◌, ◌≢◌, refl, sym, ap, subst, Bool, true, false, Option, none, some, ◌==◌, if◌then◌else◌,
  Bool-cases, inl, inr, arith,
}
use sshd.Host.{
  Settings, sshd_port_tcp, storage_get_int, wanted_port, apply_listener_state, cmd_sshd_enable,
}

-- What is stored where another value than that of a missing key is read.
stored_int : (o : Option ℕ) (n : ℕ) → n ≢ 0xffffffff → storage_get_int o 0xffffffff ≡ n → o ≡ some n
unfolding storage_get_int
stored_int none n h e = absurd (h (sym e))
stored_int (some m) n h e = ap some e

abbrev pub listening : Settings → Settings
listening s = record s { net_port = some (wanted_port s) }

apply_listener_state_lem :
    (s : Settings) → wanted_port s ≢ 0xffffffff → (apply_listener_state s).1 ≡ listening s
unfolding apply_listener_state
apply_listener_state_lem s h =
    elim (Bool-cases (storage_get_int s.net_port 0xffffffff == wanted_port s)) [
      | inl same ↦
          let at = stored_int s.net_port (wanted_port s) h (ground (arith, same)) in
          rw same (ap (λ o. record s { net_port = o }) at)
      | inr differs ↦ rw differs refl
    ]

apply_listener_state_twice : (s : Settings) → apply_listener_state (listening s) ≡ (0, listening s)
unfolding apply_listener_state storage_get_int wanted_port
apply_listener_state_twice s =
    let same : (wanted_port s == wanted_port s) ≡ true = ground arith in rw same refl

-- `sshd enable` and `sshd disable`: unless the port is the pattern of -1, by which a missing value of
-- net is read, net has the port of the settings or 0 afterwards, whatever was stored before, and a
-- second run of the same command sets nothing.
pub cmd_sshd_enable_lem :
    (on : Bool) (s : Settings)
    → storage_get_int s.port sshd_port_tcp ≢ 0xffffffff
    → let v = (cmd_sshd_enable on s).1 in
      (v.net_port ≡ some (if on then storage_get_int s.port sshd_port_tcp else 0))
      × (cmd_sshd_enable on v ≡ (0, v))
unfolding cmd_sshd_enable wanted_port storage_get_int
cmd_sshd_enable_lem false s h =
    let w = record s { enabled = some 0 } in
    let done = apply_listener_state_lem w (ground arith) in
    subst (λ (v : Settings). (v.net_port ≡ some 0) × (cmd_sshd_enable false v ≡ (0, v))) (sym done)
      (refl, apply_listener_state_twice w)
cmd_sshd_enable_lem true s h =
    let w = record s { enabled = some 1 } in
    let done = apply_listener_state_lem w h in
    let port = storage_get_int s.port sshd_port_tcp in
    subst (λ (v : Settings). (v.net_port ≡ some port) × (cmd_sshd_enable true v ≡ (0, v)))
      (sym done) (refl, apply_listener_state_twice w)
