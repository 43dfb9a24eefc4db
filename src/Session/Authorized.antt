-- ===== src/Session/Authorized.antt =====
-- The list of authorized keys, as `authorized_pub_matches` searches it.
use sshd.Base.{
  ℕ, zero, suc, ◌+◌, ◌≤◌, ◌<◌, ◌≡◌, ap, ◌↔◌, inl, inr, true, ◌==◌, Bytes, Bool-cases, ==_iff, arith,
}
use sshd.Platform.{Platform}
use sshd.Session.KeyLine.{HoldsKey, key_line_matches_iff}
use sshd.Session.Auth.{key_line_matches, matches_from, authorized_pub_matches}

matches_from_some :
    (env : Platform) (pub32 : Bytes) (i left : ℕ)
    → matches_from env pub32 i left ≡ true
    → (k : ℕ) × (i ≤ k)
      × (k < i + left)
      × (key_line_matches env pub32 (env.authorized_line k) ≡ true)
unfolding matches_from
matches_from_some env pub32 i zero e = cc
matches_from_some env pub32 i (suc left) e =
    elim (Bool-cases (key_line_matches env pub32 (env.authorized_line i))) [
      | inl here ↦ (i, omega arith, omega arith, here)
      | inr other ↦
          let (k, lo, hi, there) = matches_from_some env pub32 (i + 1) left (ground arith) in
          (k, omega arith, omega arith, there)
    ]

matches_from_here :
    (env : Platform) (pub32 : Bytes) (i left k : ℕ)
    → i ≤ k
    → k < i + left
    → key_line_matches env pub32 (env.authorized_line k) ≡ true
    → matches_from env pub32 i left ≡ true
unfolding matches_from
matches_from_here env pub32 i zero k lo hi e = absurd (omega arith)
matches_from_here env pub32 i (suc left) k lo hi e = elim (Bool-cases (i == k)) [
  | inl here ↦
      ground (
        arith,
        ap (λ j. key_line_matches env pub32 (env.authorized_line j)) ((==_iff i k).0 here),
        e,
      )
  | inr later ↦
      ground (arith, matches_from_here env pub32 (i + 1) left k (ground arith) (omega arith) e)
]

-- A public key is accepted exactly when some line of the stored list, at an index below its length, holds
-- it: the line is "ssh-ed25519", a space and a base64 text up to a further space or the end, and the
-- text decodes, into at most 80 bytes, to the strings "ssh-ed25519" and the key of 32 bytes, with
-- anything behind them.
pub authorized_pub_matches_iff :
    (env : Platform) (pub32 : Bytes)
    → (authorized_pub_matches env pub32 ≡ true)
      ↔ ((k : ℕ) × (k < env.authorized_count) × HoldsKey env pub32 (env.authorized_line k))
unfolding authorized_pub_matches
authorized_pub_matches_iff env pub32 = (
  λ e.
      let (k, lo, hi, here) = matches_from_some env pub32 0 env.authorized_count e in
      (k, omega arith, (key_line_matches_iff env pub32 (env.authorized_line k)).0 here),
  λ found.
      matches_from_here env pub32 0 env.authorized_count found.0 (omega arith) (omega arith)
        ((key_line_matches_iff env pub32 (env.authorized_line found.0)).1 found.2),
)
