-- ===== src/Client/Ends.antt =====
-- What parts of the client wait for: the loops and blocks of the client's actions, by the reads and
-- bytes to come.
pub mod Login
pub mod Methods
pub mod Stays
pub mod Whole
use sshd.Base.{
  ℕ, zero, suc, ◌+◌, ◌<◌, ◌≡◌, ◌⊎◌, inl, inr, refl, sym, subst, ◌∙◌, Bool, true, false, Bytes,
  Option, none, some, [], if◌then◌else◌, ◌==◌, ==_iff, arith,
}
use sshd.Platform.{Platform}
use sshd.Client.{
  Outbound, Device, Answer, ok, failed, waiting, Action, ◌>>=◌, ◌>>◌, pure, get, modify, fail,
  fail_if, or_fail, continue_with,
}
use sshd.Client.Packet.{
  Code, number, bad_framing, connection_closed, is_number, loop, for_ever, to_come, recv_packet,
}
use sshd.Client.Packet.Progress.{Progress}
use sshd.Client.Packet.Receive.{recv_packet-Progress, recv_packet_waits}

-- What an action gives from a state is a wait only where the script is used up.
abbrev pub Waits : {A : Type 0} → Answer A × Outbound → Type 0
Waits (r, v) = r ≡ waiting → v.script ≡ []

abbrev pub Ends : {A : Type 0} → Action A → Type 0
Ends m = (w : Outbound) → Waits (m w)

-- A property of every round that may take it from the rounds behind it, which have less to come, holds
-- of the loop.
loop_property :
    {A : Type 0} (P : Outbound → Answer A × Outbound → Type 0) (body : Action A → Action A)
    → ((next : Action A) (w : Outbound)
        → ((v : Outbound) → to_come v < to_come w → P v (next v))
        → P w (body next w))
    → (fuel : ℕ) (w : Outbound) → to_come w < fuel
    → P w (loop fuel body w)
unfolding loop
loop_property P body keep zero w h = absurd (omega arith)
loop_property P body keep (suc fuel) w h =
    keep (loop fuel body) w (λ v less. loop_property P body keep fuel v (omega arith))

pub for_ever_property :
    {A : Type 0} (P : Outbound → Answer A × Outbound → Type 0) (body : Action A → Action A)
    → ((next : Action A) (w : Outbound)
        → ((v : Outbound) → to_come v < to_come w → P v (next v))
        → P w (body next w))
    → (w : Outbound) → P w (for_ever body w)
unfolding for_ever
for_ever_property P body keep w = loop_property P body keep (suc (to_come w)) w (omega arith)

continue_cases :
    {A B : Type 0} (P : Answer B × Outbound → Type 0) (f : A → Action B) (x : Answer A × Outbound)
    → ((a : A) (u : Outbound) → x ≡ (ok a, u) → P (f a u))
    → ((u : Outbound) → x ≡ (failed, u) → P (failed, u))
    → ((u : Outbound) → x ≡ (waiting, u) → P (waiting, u))
    → P (continue_with f x)
unfolding continue_with
continue_cases P f (ok a, u) done lost stuck = done a u refl
continue_cases P f (failed, u) done lost stuck = lost u refl
continue_cases P f (waiting, u) done lost stuck = stuck u refl

-- A property of what a block gives.
pub bind_cases :
    {A B : Type 0} (P : Answer B × Outbound → Type 0) (m : Action A) (f : A → Action B)
    (w : Outbound)
    → ((a : A) (u : Outbound) → m w ≡ (ok a, u) → P (f a u))
    → ((u : Outbound) → m w ≡ (failed, u) → P (failed, u))
    → ((u : Outbound) → m w ≡ (waiting, u) → P (waiting, u))
    → P ((m >>= f) w)
unfolding ◌>>=◌
bind_cases P m f w done lost stuck = continue_cases P f (m w) done lost stuck

pub bind-Waits :
    {A B : Type 0} (m : Action A) (f : A → Action B) (w : Outbound)
    → Waits (m w)
    → ((a : A) (u : Outbound) → m w ≡ (ok a, u) → Waits (f a u))
    → Waits ((m >>= f) w)
bind-Waits m f w first later =
    bind_cases Waits m f w later (λ u e h. cc) (λ u e h. (subst Waits e first) refl)

pub >>=-Ends :
    {A B : Type 0} (m : Action A) (f : A → Action B)
    → Ends m
    → ((a : A) → Ends (f a))
    → Ends (m >>= f)
>>=-Ends m f first later w = bind-Waits m f w (first w) (λ a u e. later a u)

pub >>-Ends : {A B : Type 0} (m : Action A) (k : Action B) → Ends m → Ends k → Ends (m >> k)
unfolding ◌>>◌
>>-Ends m k first later = >>=-Ends m (λ _. k) first (λ _. later)

pub pure-Ends : {A : Type 0} (a : A) → Ends (pure a)
unfolding pure
pure-Ends a w h = cc

pub get-Ends : Ends get
unfolding get
get-Ends w h = cc

pub modify-Ends : (f : Outbound → Outbound) → Ends (modify f)
unfolding modify
modify-Ends f w h = cc

pub fail-Ends : {A : Type 0} (text : Bytes) → Ends (fail {A = A} text)
unfolding fail
fail-Ends text w h = cc

pub fail_if-Ends : (test : Bool) (text : Bytes) → Ends (fail_if test text)
unfolding fail_if
fail_if-Ends true text w h = fail-Ends text w h
fail_if-Ends false text w h = cc

pub or_fail-Ends : {A : Type 0} (o : Option A) (text : Bytes) → Ends (or_fail o text)
unfolding or_fail
or_fail-Ends none text w h = fail-Ends text w h
or_fail-Ends (some a) text w h = cc

pub if_cases :
    {A : Type 0} (P : Answer A × Outbound → Type 0) (b : Bool) (m k : Action A) (w : Outbound)
    → (b ≡ true → P (m w))
    → (b ≡ false → P (k w))
    → P ((if b then m else k) w)
if_cases P true m k w on off = on refl
if_cases P false m k w on off = off refl

pub if-Waits :
    {A : Type 0} (b : Bool) (m k : Action A) (w : Outbound)
    → (b ≡ true → Waits (m w))
    → (b ≡ false → Waits (k w))
    → Waits ((if b then m else k) w)
if-Waits b m k w on off = if_cases Waits b m k w on off

pub if-Ends : {A : Type 0} (b : Bool) (m k : Action A) → Ends m → Ends k → Ends (if b then m else k)
if-Ends b m k on off w = if-Waits b m k w (λ _. on w) (λ _. off w)

pub recv_packet-Ends :
    (env : Platform) (dev : Device) (overall_ms : ℕ) → Ends (recv_packet env dev overall_ms)
recv_packet-Ends env dev overall_ms w = recv_packet_waits env dev overall_ms w

-- A message with a number other than 0 was in the bytes to come.
pub number_smaller :
    (t : Code) (pkt : Bytes) (u : Outbound) (size n : ℕ) (over : Bool)
    → Progress size over (ok (t, pkt), u)
    → is_number t (suc n) ≡ true
    → to_come u < size
unfolding Progress
number_smaller (number t) pkt u size n over (most, inl less) h = less
number_smaller (number t) pkt u size n over (most, inr (none_came, past)) h =
    absurd (ground (arith, none_came))
number_smaller bad_framing pkt u size n over p h = cc
number_smaller connection_closed pkt u size n over p h = cc

pub recv_packet_smaller :
    (env : Platform) (dev : Device) (overall_ms n : ℕ) (w u : Outbound) (t : Code) (pkt : Bytes)
    → recv_packet env dev overall_ms w ≡ (ok (t, pkt), u)
    → is_number t (suc n) ≡ true
    → to_come u < to_come w
recv_packet_smaller env dev overall_ms n w u t pkt e h =
    number_smaller t pkt u (to_come w) n _
      (subst (Progress (to_come w) _) e (recv_packet-Progress env dev overall_ms w)) h

pub modify_then :
    {A : Type 0} (f : Outbound → Outbound) (k : Action A) (w : Outbound)
    → Waits (k (f w))
    → Waits ((modify f >> k) w)
unfolding ◌>>◌ ◌>>=◌ modify continue_with
modify_then f k w h = h
