-- ===== src/Server/Slots.antt =====
-- The table of slots as a function of the index.
use sshd.Base.{
  ℕ, zero, suc, ◌+◌, ◌≡◌, refl, ap, subst, ◌⊎◌, inl, inr, true, false, Option, none, some, List, [],
  ◌∷◌, length, arith,
}
use sshd.Session.{Session, closed, phase_eq}
use sshd.Session.Slot.{Held}
use sshd.Server.{Slot, slot_at, set_slot, sshd_slot_free}

-- ---- the table as a function of the index ----

pub length-set_slot :
    (i : ℕ) (new : Slot) (slots : List Slot) → length (set_slot i new slots) ≡ length slots
unfolding set_slot
length-set_slot i new [] = refl
length-set_slot zero new (sl ∷ r) = refl
length-set_slot (suc i) new (sl ∷ r) = ap suc (length-set_slot i new r)

pub length-sshd_slot_free :
    (i : ℕ) (slots : List Slot) → length (sshd_slot_free i slots) ≡ length slots
unfolding sshd_slot_free
length-sshd_slot_free i [] = refl
length-sshd_slot_free zero (sl ∷ r) = refl
length-sshd_slot_free (suc i) (sl ∷ r) = ap suc (length-sshd_slot_free i r)

-- A slot that is not in use. A session that has ended has given its index up; one that was never
-- opened is zeroed memory, with the phase VERSION and the index 0.
abbrev pub Unused : Slot → Type 0
Unused sl = (sl.in_use ≡ false) × (phase_eq sl.session.phase closed ≡ true → sl.session.slot ≡ none)

-- Every slot, at an index from `base` on, is unused or holds a live session that knows this index.
unfoldable pub Live : ℕ → List Slot → Type 0
Live base [] = Unit
Live base (sl ∷ r) = (Unused sl ⊎ Held base sl.session) × Live (suc base) r

pub Live-set_slot :
    (base i : ℕ) (new : Slot) (slots : List Slot)
    → Unused new ⊎ Held (base + i) new.session
    → Live base slots
    → Live base (set_slot i new slots)
unfolding Live set_slot
Live-set_slot base i new [] n h = h
Live-set_slot base zero new (sl ∷ r) n h = (
  subst (λ k. Unused new ⊎ Held k new.session) (let e : base + 0 ≡ base = omega arith in e) n,
  h.1,
)
Live-set_slot base (suc i) new (sl ∷ r) n h = (
  h.0,
  Live-set_slot (suc base) i new r
      (subst (λ k. Unused new ⊎ Held k new.session)
        (let e : base + suc i ≡ suc base + i = omega arith in e) n)
      h.1,
)

-- A slot that is set and freed at once may hold any session that has given its index up.
pub Live-freed :
    (base i : ℕ) (new : Slot) (slots : List Slot)
    → new.session.slot ≡ none
    → Live base slots
    → Live base (sshd_slot_free i (set_slot i new slots))
unfolding Live set_slot sshd_slot_free
Live-freed base i new [] n h = h
Live-freed base zero new (sl ∷ r) n h = (inl (refl, λ ended. n), h.1)
Live-freed base (suc i) new (sl ∷ r) n h = (h.0, Live-freed (suc base) i new r n h.1)

live_if_used : (k : ℕ) (t : Slot) → Unused t ⊎ Held k t.session → t.in_use ≡ true → Held k t.session
live_if_used k t (inl unused) u = absurd (let e = unused.0 in cc)
live_if_used k t (inr held) u = held

pub some_slot : (t sl : Slot) → some t ≡ some sl → t ≡ sl
some_slot t sl e = ap (λ (o : Option Slot). elim o [ none ↦ t | some x ↦ x ]) e

same_base : (base i : ℕ) (s : Session) → Held (suc base + i) s → Held (base + suc i) s
same_base base i s h =
    subst (λ k. Held k s) (let e : suc base + i ≡ base + suc i = omega arith in e) h

-- What a slot holds, in use or not.
pub slot_at-Live :
    (base i : ℕ) (slots : List Slot) (sl : Slot)
    → Live base slots
    → slot_at i slots ≡ some sl
    → Unused sl ⊎ Held (base + i) sl.session
unfolding Live slot_at
slot_at-Live base i [] sl h e = cc
slot_at-Live base zero (t ∷ r) sl h e =
    subst (λ k. Unused sl ⊎ Held k sl.session) (let e0 : base ≡ base + 0 = omega arith in e0)
      (subst (λ (x : Slot). Unused x ⊎ Held base x.session) (some_slot t sl e) h.0)
slot_at-Live base (suc i) (t ∷ r) sl h e =
    subst (λ k. Unused sl ⊎ Held k sl.session)
      (let e1 : suc base + i ≡ base + suc i = omega arith in e1)
      (slot_at-Live (suc base) i r sl h.1 e)

pub Live-slot_at :
    (base i : ℕ) (slots : List Slot) (sl : Slot)
    → Live base slots
    → slot_at i slots ≡ some sl
    → sl.in_use ≡ true
    → Held (base + i) sl.session
unfolding Live slot_at
Live-slot_at base i [] sl h e u = cc
Live-slot_at base zero (t ∷ r) sl h e u =
    let same_slot = some_slot t sl e in
    subst (λ k. Held k sl.session) (let e0 : base ≡ base + 0 = omega arith in e0)
      (live_if_used base sl (subst (λ (x : Slot). Unused x ⊎ Held base x.session) same_slot h.0) u)
Live-slot_at base (suc i) (t ∷ r) sl h e u =
    same_base base i sl.session (Live-slot_at (suc base) i r sl h.1 e u)
