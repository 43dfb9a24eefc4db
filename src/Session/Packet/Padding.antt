-- ===== src/Session/Packet/Padding.antt =====
-- The padding that `send_packet` chooses.
use sshd.Base.{ℕ, ◌+◌, ◌%◌, ◌≤◌, ◌≡◌, Bool, true, false, arith}
use sshd.Session.Packet.{padding}

pub padding_bounds :
    (enc : Bool) (n : ℕ)
    → (4 ≤ padding enc n)
      × (padding enc n ≤ 15)
      × (enc ≡ true → (1 + n + padding enc n) % 8 ≡ 0)
      × (enc ≡ false → ((4 + 1 + n + padding enc n) % 8 ≡ 0) × (16 ≤ 4 + 1 + n + padding enc n))
unfolding padding
padding_bounds enc n = ground arith

-- The part of the packet that is aligned, and the least length of the packet.
abbrev pub aligned_part : Bool → ℕ → ℕ
aligned_part true n = 1 + n + padding true n
aligned_part false n = 4 + 1 + n + padding false n

abbrev pub least_size : Bool → ℕ
least_size true = 12
least_size false = 16

-- RFC 4253 and OpenSSH's chacha20-poly1305 on every payload length: at least 4 and at most 15 bytes of
-- padding; in the clear the whole packet, length field included, is a multiple of 8 bytes and has at
-- least 16, and encrypted the part behind the length field is a multiple of 8, and the packet has at
-- least 12.
pub padding_aligned :
    (enc : Bool) (n : ℕ)
    → (4 ≤ padding enc n)
      × (padding enc n ≤ 15)
      × (aligned_part enc n % 8 ≡ 0)
      × (least_size enc ≤ 4 + 1 + n + padding enc n)
padding_aligned true n = ground (arith, padding_bounds true n)
padding_aligned false n = ground (arith, padding_bounds false n)
