-- ===== src/Client/Relay.antt =====
-- The relay of keys in `cmd_ssh` of esp-idf/src/ssh_client.cpp, with its escape at the start of a
-- line.
pub mod Escape
use sshd.Base.{
  ℕ, zero, suc, ◌+◌, Bool, true, false, ◌&&◌, ◌||◌, ◌==◌, Bytes, [], ◌∷◌, ◌++◌, if◌then◌else◌, take,
  get_or, codes,
}

-- `kEsc`
abbrev pub k_esc : Bytes
k_esc = codes "..!"

pub record Relay : Type 0 where
  pub at_line_start : Bool
  pub esc_match : ℕ

abbrev pub new_relay : Relay
new_relay = record { at_line_start = true; esc_match = 0 }

-- What a key does: whether the user closes, what goes to `fwd`, and the state.
pub record Keyed : Type 0 where
  pub closing : Bool
  pub fwd : Bytes
  pub relay : Relay

abbrev pub is_line_end : ℕ → Bool
is_line_end c = c == 13 || c == 10

-- The end of a round, where nothing is withheld any more; `flushed` is already in `fwd`.
unfoldable pub plain_key : Bytes → Bool → ℕ → Keyed
plain_key flushed at_line_start c =
    if at_line_start && c == b'.'
    then record {
      closing = false;
      fwd = flushed;
      relay = record { at_line_start = at_line_start; esc_match = 1 };
    }
    else record {
      closing = false;
      fwd = flushed ++ (c ∷ []);
      relay = record { at_line_start = is_line_end c; esc_match = 0 };
    }

unfoldable pub relay_key : Relay → ℕ → Keyed
relay_key s c =
    let more = record s { esc_match = s.esc_match + 1 } in
    if s.esc_match == 0
    then plain_key [] s.at_line_start c
    else (if c == get_or k_esc s.esc_match 0
        then record { closing = s.esc_match + 1 == 3; fwd = []; relay = more }
        else plain_key (take s.esc_match k_esc) false c)

-- The keys of one read: what they do together, and the keys behind the escape.
unfoldable pub relay_keys : Relay → Bytes → Keyed × Bytes
relay_keys s [] = (record { closing = false; fwd = []; relay = s }, [])
relay_keys s (c ∷ r) =
    let k = relay_key s c in
    let (more, unread) = relay_keys k.relay r in
    if k.closing then (k, r) else (record more { fwd = k.fwd ++ more.fwd }, unread)
