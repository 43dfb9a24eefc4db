-- ===== src/Client/Packet/Frame.antt =====
-- What sends and reads of the client leave alone.
use sshd.Base.{◌≡◌, refl, ap, ◌∙◌, Bytes, List, arith}
use sshd.Platform.{Platform}
use sshd.Client.{Csess, Outbound, Read, with_cs}
use sshd.Client.Packet.{fill_rx, send_raw, send_packet}

-- The state with another buffer and other numbers.
abbrev pub SameBut : Csess → Csess → Type 0
SameBut c d = d ≡ record c { rx_buf = d.rx_buf; seq_in = d.seq_in; seq_out = d.seq_out }

-- What sends and reads leave alone: all but the buffer, the two numbers, the calls, the draws and what
-- the reads bring.
abbrev pub Moved : Outbound → Outbound → Type 0
Moved w v = v ≡ record w {
  cs = record w.cs { rx_buf = v.cs.rx_buf; seq_in = v.cs.seq_in; seq_out = v.cs.seq_out };
  job = record w.job { user_close = v.job.user_close };
  trace = v.trace;
  draws = v.draws;
  script = v.script;
  ticks = v.ticks;
  keys = v.keys;
}

abbrev pub moved_to : Outbound → Outbound → Outbound
moved_to w v = record w {
  cs = record w.cs { rx_buf = v.cs.rx_buf; seq_in = v.cs.seq_in; seq_out = v.cs.seq_out };
  job = record w.job { user_close = v.job.user_close };
  trace = v.trace;
  draws = v.draws;
  script = v.script;
  ticks = v.ticks;
  keys = v.keys;
}

pub Moved-refl : (w : Outbound) → Moved w w
Moved-refl w = refl

pub Moved-trans : (w v u : Outbound) → Moved w v → Moved v u → Moved w u
Moved-trans w v u p q = q ∙ ap (λ x. moved_to x u) p

pub send_packet-Moved :
    (env : Platform) (w : Outbound) (payload : Bytes) → Moved w (send_packet env w payload)
unfolding send_packet send_raw
send_packet-Moved env w payload = ground arith

pub fill_rx-Moved : (w : Outbound) (r : Read) (rest : List Read) → Moved w (fill_rx w r rest)
unfolding fill_rx
fill_rx-Moved w r rest = refl

pub with_cs-Moved : (w : Outbound) (c : Csess) → SameBut w.cs c → Moved w (with_cs w c)
with_cs-Moved w c e = ap (λ d. record w { cs = d }) e
