-- ===== src/Client/Relay/Escape.antt =====
-- The relay loses no key and takes only an escape at the start of a line.
use sshd.Base.{
  ℕ, zero, suc, ◌+◌, ◌≤◌, ◌≡◌, ◌⊎◌, inl, inr, refl, sym, ap, subst, ◌∙◌, Bool, true, false, ◌&&◌,
  ◌==◌, Bytes, [], ◌∷◌, ◌++◌, take, append_assoc, append-nil, Bool-cases, arith,
}
use sshd.Client.Relay.{k_esc, Relay, Keyed, is_line_end, plain_key, relay_key, relay_keys}

-- Whether a text ends where a line starts: it is empty, or its last byte ends a line.
abbrev pub ends_line : Bytes → Bool
ends_line [] = true
ends_line (c ∷ []) = is_line_end c
ends_line (c ∷ d ∷ r) = ends_line (d ∷ r)

-- The state of the relay when `sent` has been forwarded so far: it knows whether a line starts, and
-- withholds a part of the escape only where one does.
pub record Follows (sent : Bytes) (s : Relay) : Type 0 where
  pub part : s.esc_match ≤ 2
  pub line : s.at_line_start ≡ ends_line sent
  pub withheld : (s.esc_match ≡ 0) ⊎ (s.at_line_start ≡ true)

ends_line_key : (t : Bytes) (c : ℕ) → ends_line (t ++ (c ∷ [])) ≡ is_line_end c
ends_line_key [] c = refl
ends_line_key (x ∷ []) c = refl
ends_line_key (x ∷ y ∷ r) c = ends_line_key (y ∷ r) c

-- What a key or several have done: no key is lost, and the state follows what is forwarded, or the
-- whole escape is at the start of a line.
pub record Relayed (sent typed : Bytes) (s : Relay) (k : Keyed) (unread : Bytes) : Type 0 where
  pub lossless :
      take s.esc_match k_esc ++ typed ≡ k.fwd ++ (take (k.relay).esc_match k_esc ++ unread)
  pub after :
      ((k.closing ≡ false) × (unread ≡ []) × Follows (sent ++ k.fwd) (k.relay))
      ⊎ ((k.closing ≡ true) × ((k.relay).esc_match ≡ 3) × (ends_line (sent ++ k.fwd) ≡ true))

no_more : (sent : Bytes) → ends_line (sent ++ []) ≡ ends_line sent
no_more sent = ap ends_line (append-nil sent)

-- A key that is forwarded behind what was withheld.
plain_key-Relayed :
    (sent : Bytes) (b : Bool) (m c : ℕ) (flushed : Bytes)
    → take m k_esc ≡ flushed
    → Relayed sent
        (c ∷ [])
        (record { at_line_start = b; esc_match = m })
        (record {
          closing = false;
          fwd = flushed ++ (c ∷ []);
          relay = record { at_line_start = is_line_end c; esc_match = 0 };
        })
        []
plain_key-Relayed sent b m c flushed e = record {
  lossless = ap (λ t. t ++ (c ∷ [])) e ∙ sym (append-nil (flushed ++ (c ∷ [])));
  after = inl (
    refl,
    refl,
    record {
      part = omega arith;
      line = sym (
          ap ends_line (sym (append_assoc sent flushed (c ∷ [])))
          ∙ ends_line_key (sent ++ flushed) c);
      withheld = inl refl;
    },
  );
}

-- A key of the escape that is withheld.
withheld-Relayed :
    (sent : Bytes) (b : Bool) (m c : ℕ)
    → b ≡ ends_line sent
    → b ≡ true
    → m ≤ 1
    → take m k_esc ++ (c ∷ []) ≡ take (m + 1) k_esc
    → Relayed sent
        (c ∷ [])
        (record { at_line_start = b; esc_match = m })
        (record {
          closing = false;
          fwd = [];
          relay = record { at_line_start = b; esc_match = m + 1 };
        })
        []
withheld-Relayed sent b m c line start small e = record {
  lossless = e ∙ sym (append-nil (take (m + 1) k_esc));
  after = inl (
    refl,
    refl,
    record { part = omega arith; line = line ∙ sym (no_more sent); withheld = inr start },
  );
}

one_key :
    (sent : Bytes) (b : Bool) (m c : ℕ)
    → Follows sent (record { at_line_start = b; esc_match = m })
    → Relayed sent
        (c ∷ [])
        (record { at_line_start = b; esc_match = m })
        (relay_key (record { at_line_start = b; esc_match = m }) c)
        []
unfolding relay_key plain_key
one_key sent b zero c h = elim (Bool-cases (b && c == b'.')) [
  | inl dot ↦
      let at : c ≡ 46 = ground (arith, dot) in
      let start : b ≡ true = ground (arith, dot) in
      rw dot (withheld-Relayed sent b 0 c h.line start (omega arith) (ap (λ x. x ∷ []) at))
  | inr other ↦ rw other (plain_key-Relayed sent b 0 c [] refl)
]
one_key sent b (suc zero) c h = elim (Bool-cases (c == b'.')) [
  | inl dot ↦
      let at : c ≡ 46 = ground (arith, dot) in
      let start : b ≡ true = ground (arith, h.withheld) in
      rw dot (withheld-Relayed sent b 1 c h.line start (omega arith) (ap (λ x. b'.' ∷ x ∷ []) at))
  | inr other ↦ rw other (plain_key-Relayed sent b 1 c (b'.' ∷ []) refl)
]
one_key sent b (suc (suc zero)) c h = elim (Bool-cases (c == b'!')) [
  | inl bang ↦
      let at : c ≡ 33 = ground (arith, bang) in
      let start : b ≡ true = ground (arith, h.withheld) in
      rw bang (record {
        lossless = ap (λ x. b'.' ∷ b'.' ∷ x ∷ []) at;
        after = inr (refl, refl, no_more sent ∙ sym (h.line) ∙ start);
      })
  | inr other ↦ rw other (plain_key-Relayed sent b 2 c (b'.' ∷ b'.' ∷ []) refl)
]
one_key sent b (suc (suc (suc m))) c h = absurd (omega (arith, h.part))

-- The first key, with the others behind it.
first_key :
    (sent r : Bytes) (c : ℕ) (s : Relay) (k : Keyed)
    → Relayed sent (c ∷ []) s k []
    → take s.esc_match k_esc ++ (c ∷ r) ≡ k.fwd ++ (take (k.relay).esc_match k_esc ++ r)
first_key sent r c s k first =
    let part = take (k.relay).esc_match k_esc in
    sym (append_assoc (take s.esc_match k_esc) (c ∷ []) r)
    ∙ ap (λ t. t ++ r) (first.lossless ∙ ap (λ t. k.fwd ++ t) (append-nil part))
    ∙ append_assoc k.fwd part r

key_and_rest :
    (sent r unread : Bytes) (c : ℕ) (s : Relay) (k more : Keyed)
    → Relayed sent (c ∷ []) s k []
    → Relayed (sent ++ k.fwd) r (k.relay) more unread
    → Relayed sent (c ∷ r) s (record more { fwd = k.fwd ++ more.fwd }) unread
key_and_rest sent r unread c s k more first rest = record {
  lossless =
      first_key sent r c s k first
      ∙ ap (λ t. k.fwd ++ t) (rest.lossless)
      ∙ sym (append_assoc k.fwd more.fwd (take (more.relay).esc_match k_esc ++ unread));
  after =
      subst
        (λ t.
          ((more.closing ≡ false) × (unread ≡ []) × Follows t (more.relay))
          ⊎ ((more.closing ≡ true) × ((more.relay).esc_match ≡ 3) × (ends_line t ≡ true)))
        (append_assoc sent k.fwd more.fwd) (rest.after);
}

-- From any state that follows what was forwarded before: of the keys of one read, in this order, come
-- those that are forwarded, those withheld as a part of the escape and, behind the escape, those not
-- read any more, with none lost or changed; and either nothing is unread and the state follows what is
-- forwarded, or the user closes by the whole escape, which stands at the start of a line.
pub relay_keys-Relayed :
    (sent typed : Bytes) (s : Relay)
    → Follows sent s
    → Relayed sent typed s (relay_keys s typed).0 (relay_keys s typed).1
unfolding relay_keys
relay_keys-Relayed sent [] s h = record {
  lossless = refl;
  after = inl (
    refl,
    refl,
    record { part = h.part; line = h.line ∙ sym (no_more sent); withheld = h.withheld },
  );
}
relay_keys-Relayed sent (c ∷ r) s h =
    let k = relay_key s c in
    let first : Relayed sent (c ∷ []) s k [] = one_key sent s.at_line_start s.esc_match c h in
    let more = (relay_keys (k.relay) r).0 in
    let unread = (relay_keys (k.relay) r).1 in
    let both = record more { fwd = k.fwd ++ more.fwd } in
    let given = λ (x : Keyed × Bytes). Relayed sent (c ∷ r) s x.0 x.1 in
    elim (first.after) [
      | inl (goes_on, _, follows) ↦
          let e : relay_keys s (c ∷ r) ≡ (both, unread) = ground (arith, goes_on) in
          subst given (sym e) (
            key_and_rest sent r unread c s k more first
              (relay_keys-Relayed (sent ++ k.fwd) r (k.relay) follows))
      | inr (shut, whole, line) ↦
          let e : relay_keys s (c ∷ r) ≡ (k, r) = ground (arith, shut) in
          subst given (sym e)
            (record { lossless = first_key sent r c s k first; after = inr (shut, whole, line) })
    ]
