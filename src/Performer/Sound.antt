-- ===== src/Performer/Sound.antt =====
-- containerPerformer.go: no slot dangles, and no container is in both slots, whatever the methods and
-- the goroutines do.
use hourglass_monorepo.Prelude.{
  ℕ, ◌≡◌, ◌≤◌, refl, ap, sym, ◌∙◌, none, some, arith, inl, inr, Option-cases, Bool-cases, nat_beq,
  nat_beq_iff, if◌then◌else◌,
}
use hourglass_monorepo.Dict.{get, put, nat_eq, get-put, bytes_eq}
use hourglass_monorepo.Performer.{PerformerContainer, Performer, deref, modify, stored}
use hourglass_monorepo.Performer.Frames.{Extends}

module _ {M Client : Type 0} where
  -- References below the counter, slots that point to containers, and to different ones.
  pub record IsSound (p : Performer M Client) : Type 0 where
    pub fresh_above : (r : ℕ) → p.counter ≤ r → deref p r ≡ none
    pub current_live :
        (r : ℕ)
        → p.current_container ≡ stored r
        → (c : PerformerContainer Client) × (deref p r ≡ some c)
    pub next_live :
        (r : ℕ) → p.next_container ≡ some r → (c : PerformerContainer Client) × (deref p r ≡ some c)
    pub apart : (r : ℕ) → p.current_container ≡ stored r → p.next_container ≡ some r → ⊥

  -- A change that takes no container away and uses fresh references only.
  pub record Grows (p q : Performer M Client) : Type 0 where
    pub keeps_live :
        (r : ℕ) (c : PerformerContainer Client)
        → deref p r ≡ some c
        → (c' : PerformerContainer Client) × (deref q r ≡ some c')
    pub keeps_free : (r : ℕ) → q.counter ≤ r → deref p r ≡ none → deref q r ≡ none
    pub counter_up : p.counter ≤ q.counter

  pub Grows-trans : {p q r : Performer M Client} → Grows p q → Grows q r → Grows p r
  Grows-trans a b = record {
    keeps_live = λ x c e. let l = a.keeps_live x c e in b.keeps_live x l.0 l.1;
    keeps_free = λ x h e. b.keeps_free x h (a.keeps_free x (omega (arith, b.counter_up)) e);
    counter_up = omega (arith, a.counter_up, b.counter_up);
  }

  pub same-Grows :
      {p q : Performer M Client} → q.containers ≡ p.containers → p.counter ≤ q.counter → Grows p q
  same-Grows same up = record {
    keeps_live = λ r c e. (c, ap (get r) same ∙ e);
    keeps_free = λ r h e. ap (get r) same ∙ e;
    counter_up = up;
  }

  pub Extends-Grows : {p q : Performer M Client} → Extends p q → Grows p q
  Extends-Grows e = same-Grows e.same_containers e.counts_up

  pub modify-none :
      (r : ℕ) (f : PerformerContainer Client → PerformerContainer Client) (p : Performer M Client)
      → deref p r ≡ none
      → modify r f p ≡ p
  unfolding modify
  modify-none r f p e = rw (e, modify) refl

  pub modify-some :
      (r : ℕ) (f : PerformerContainer Client → PerformerContainer Client) (p : Performer M Client)
      (c : PerformerContainer Client)
      → deref p r ≡ some c
      → modify r f p ≡ record p { containers = put r (f c) p.containers }
  unfolding modify
  modify-some r f p c e = rw (e, modify) refl

  -- What is behind a reference after a write.
  pub deref-modify :
      (r j : ℕ) (f : PerformerContainer Client → PerformerContainer Client) (p : Performer M Client)
      (c : PerformerContainer Client)
      → deref p r ≡ some c
      → deref (modify r f p) j ≡ (if nat_beq r j then some (f c) else deref p j)
  deref-modify r j f p c e =
      ap (λ q. deref q j) (modify-some r f p c e) ∙ get-put r j (f c) p.containers

  pub modify-Grows :
      (r : ℕ) (f : PerformerContainer Client → PerformerContainer Client) (p : Performer M Client)
      → Grows p (modify r f p)
  modify-Grows r f p = elim (Option-cases (deref p r)) [
    | inl e ↦ rw (modify-none r f p e) (same-Grows refl (omega arith))
    | inr (c, e) ↦ rw (modify-some r f p c e) (record {
      keeps_live = λ j b h. elim (Bool-cases (nat_beq r j)) [
        | inl same ↦ (f c, get-put r j (f c) p.containers ∙ rw same refl)
        | inr other ↦ (b, get-put r j (f c) p.containers ∙ rw other h)
      ];
      keeps_free = λ j b h. elim (Bool-cases (nat_beq r j)) [
        | inl same ↦
            absurd (ground (arith, e, ap (λ i. get i p.containers) ((nat_beq_iff r j).0 same), h))
        | inr other ↦ get-put r j (f c) p.containers ∙ rw other h
      ];
      counter_up = omega arith;
    })
  ]

  -- The slots of a sound performer stay sound where nothing is taken away and they are kept, or emptied.
  pub kept-IsSound :
      {p q : Performer M Client}
      → IsSound p
      → Grows p q
      → ((r : ℕ) → q.current_container ≡ stored r → p.current_container ≡ stored r)
      → ((r : ℕ) → q.next_container ≡ some r → p.next_container ≡ some r)
      → IsSound q
  kept-IsSound s g current next = record {
    fresh_above = λ r h. g.keeps_free r h (s.fresh_above r (omega (arith, g.counter_up)));
    current_live = λ r e. let l = s.current_live r (current r e) in g.keeps_live r l.0 l.1;
    next_live = λ r e. let l = s.next_live r (next r e) in g.keeps_live r l.0 l.1;
    apart = λ r e h. s.apart r (current r e) (next r h);
  }

  -- A change that also keeps both slots.
  pub record Stays (p q : Performer M Client) : Type 0 where
    pub grows : Grows p q
    pub current_same : q.current_container ≡ p.current_container
    pub next_same : q.next_container ≡ p.next_container

  pub Stays-trans : {p q r : Performer M Client} → Stays p q → Stays q r → Stays p r
  Stays-trans a b = record {
    grows = Grows-trans a.grows b.grows;
    current_same = b.current_same ∙ a.current_same;
    next_same = b.next_same ∙ a.next_same;
  }

  pub Extends-Stays : {p q : Performer M Client} → Extends p q → Stays p q
  Extends-Stays e = record {
    grows = Extends-Grows e;
    current_same = e.same_current;
    next_same = e.same_next;
  }

  pub modify-Stays :
      (r : ℕ) (f : PerformerContainer Client → PerformerContainer Client) (p : Performer M Client)
      → Stays p (modify r f p)
  modify-Stays r f p = record {
    grows = modify-Grows r f p;
    current_same = elim (Option-cases (deref p r)) [
      | inl e ↦ ap (λ q. q.current_container) (modify-none r f p e)
      | inr (c, e) ↦ ap (λ q. q.current_container) (modify-some r f p c e)
    ];
    next_same = elim (Option-cases (deref p r)) [
      | inl e ↦ ap (λ q. q.next_container) (modify-none r f p e)
      | inr (c, e) ↦ ap (λ q. q.next_container) (modify-some r f p c e)
    ];
  }

  pub Stays-IsSound : {p q : Performer M Client} → IsSound p → Stays p q → IsSound q
  Stays-IsSound s k =
      kept-IsSound s k.grows (λ r e. sym k.current_same ∙ e) (λ r e. sym k.next_same ∙ e)
