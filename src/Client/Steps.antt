-- ===== src/Client/Steps.antt =====
-- The do blocks of the client: what a block that gives a value has gone through.
use sshd.Base.{
  ◌≡◌, ◌⊎◌, inl, inr, refl, sym, ap, Bool, true, false, if◌then◌else◌, Bytes, Option, none, some,
}
use sshd.Client.{
  Outbound, Answer, ok, failed, waiting, Action, ◌>>=◌, ◌>>◌, pure, get, modify, fail, fail_if,
  or_fail, continue_with,
}

continue_ok :
    {A B : Type 0} (f : A → Action B) (p : Answer A × Outbound) (v : Outbound) (b : B)
    → continue_with f p ≡ (ok b, v)
    → (a : A) × (u : Outbound) × (p ≡ (ok a, u)) × (f a u ≡ (ok b, v))
unfolding continue_with
continue_ok f (ok a, u) v b e = (a, u, refl, e)
continue_ok f (failed, u) v b e = cc
continue_ok f (waiting, u) v b e = cc

pub >>=-ok :
    {A B : Type 0} (m : Action A) (f : A → Action B) (w v : Outbound) (b : B)
    → (m >>= f) w ≡ (ok b, v)
    → (a : A) × (u : Outbound) × (m w ≡ (ok a, u)) × (f a u ≡ (ok b, v))
unfolding ◌>>=◌
>>=-ok m f w v b e = continue_ok f (m w) v b e

pub >>-ok :
    {A B : Type 0} (m : Action A) (k : Action B) (w v : Outbound) (b : B)
    → (m >> k) w ≡ (ok b, v)
    → (a : A) × (u : Outbound) × (m w ≡ (ok a, u)) × (k u ≡ (ok b, v))
unfolding ◌>>◌
>>-ok m k w v b e = >>=-ok m (λ _. k) w v b e

pub fail_if-ok :
    (test : Bool) (text : Bytes) (w v : Outbound) (b : Unit)
    → fail_if test text w ≡ (ok b, v)
    → (test ≡ false) × (v ≡ w)
unfolding fail_if fail
fail_if-ok true text w v b e = cc
fail_if-ok false text w v b e = (refl, sym (ap (λ x. x.1) e))

pub or_fail-ok :
    {A : Type 0} (o : Option A) (text : Bytes) (w v : Outbound) (a : A)
    → or_fail o text w ≡ (ok a, v)
    → (o ≡ some a) × (v ≡ w)
unfolding or_fail fail
or_fail-ok none text w v a e = cc
or_fail-ok (some x) text w v a e = (cc, sym (ap (λ x. x.1) e))

pub pure-ok : {A : Type 0} (a b : A) (w v : Outbound) → pure a w ≡ (ok b, v) → (b ≡ a) × (v ≡ w)
unfolding pure
pure-ok a b w v e = (cc, sym (ap (λ x. x.1) e))

pub modify-ok :
    (f : Outbound → Outbound) (b : Unit) (w v : Outbound) → modify f w ≡ (ok b, v) → v ≡ f w
unfolding modify
modify-ok f b w v e = sym (ap (λ x. x.1) e)

pub get-ok : (a w v : Outbound) → get w ≡ (ok a, v) → (a ≡ w) × (v ≡ w)
unfolding get
get-ok a w v e = (cc, sym (ap (λ x. x.1) e))

pub if-ok :
    {A : Type 0} (test : Bool) (m k : Action A) (w : Outbound) (x : Answer A × Outbound)
    → (if test then m else k) w ≡ x
    → ((test ≡ true) × (m w ≡ x)) ⊎ ((test ≡ false) × (k w ≡ x))
if-ok true m k w x e = inl (refl, e)
if-ok false m k w x e = inr (refl, e)
