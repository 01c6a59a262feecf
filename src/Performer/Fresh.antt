-- ===== src/Performer/Fresh.antt =====
-- What a change of one slot does to the soundness of both: a fresh container, an emptied slot, or one
-- that moves.
use hourglass_monorepo.Prelude.{
  ℕ, ◌+◌, ◌≡◌, ◌⊎◌, refl, ap, ◌∙◌, Option, none, some, arith, inl, inr, Bool-cases, nat_beq,
}
use hourglass_monorepo.Dict.{get, put, nat_eq, get-put, get-put_self, bytes_eq}
use hourglass_monorepo.Performer.{PerformerContainer, Performer, Outcome, nil_stored, stored}
use hourglass_monorepo.Performer.Frames.{Extends}
use hourglass_monorepo.Performer.Sound.{IsSound, Grows, kept-IsSound}

module _ {M Client : Type 0} where
  -- The container of a fresh reference.
  abbrev pub with_container : PerformerContainer Client → Performer M Client → Performer M Client
  with_container c p = record p {
    counter = p.counter + 1;
    containers = put p.counter c p.containers;
  }

  with_container-Grows :
      (c : PerformerContainer Client) (p : Performer M Client) → Grows p (with_container c p)
  with_container-Grows c p = record {
    keeps_live = λ j b h. elim (Bool-cases (nat_beq p.counter j)) [
      | inl same ↦ (c, get-put p.counter j c p.containers ∙ rw same refl)
      | inr other ↦ (b, get-put p.counter j c p.containers ∙ rw other h)
    ];
    keeps_free = λ j b h. elim (Bool-cases (nat_beq p.counter j)) [
      | inl same ↦ absurd (ground (arith, same, b))
      | inr other ↦ get-put p.counter j c p.containers ∙ rw other h
    ];
    counter_up = omega arith;
  }

  -- A fresh container in the next slot, which was empty.
  pub staged-IsSound :
      (c : PerformerContainer Client) (p : Performer M Client)
      → IsSound p
      → IsSound (record (with_container c p) { next_container = some p.counter })
  staged-IsSound c p s = record {
    fresh_above = λ r h. (with_container-Grows c p).keeps_free r h (s.fresh_above r (omega arith));
    current_live =
        λ r e. let l = s.current_live r e in (with_container-Grows c p).keeps_live r l.0 l.1;
    next_live = λ r e. (c, rw (← (fresh r e)) (get-put_self p.counter c p.containers));
    apart = λ r e h.
        let l = s.current_live r e in
        absurd (
          ground (
            arith,
            fresh r h,
            l.1,
            s.fresh_above p.counter (omega arith),
            ap (λ i. get i p.containers) (fresh r h),
          ));
  }
    where
      fresh : {n : ℕ} (r : ℕ) → ◌≡◌ {A = Option ℕ} (some n) (some r) → n ≡ r
      fresh r e = ground (arith, e)

  -- A fresh container in the current slot.
  pub current-IsSound :
      (c : PerformerContainer Client) (p : Performer M Client)
      → IsSound p
      → IsSound (record (with_container c p) { current_container = stored p.counter })
  current-IsSound c p s = record {
    fresh_above = λ r h. (with_container-Grows c p).keeps_free r h (s.fresh_above r (omega arith));
    current_live = λ r e. (c, rw (← (fresh r e)) (get-put_self p.counter c p.containers));
    next_live = λ r e. let l = s.next_live r e in (with_container-Grows c p).keeps_live r l.0 l.1;
    apart = λ r e h.
        let l = s.next_live r h in
        absurd (
          ground (
            arith,
            fresh r e,
            l.1,
            s.fresh_above p.counter (omega arith),
            ap (λ i. get i p.containers) (fresh r e),
          ));
  }
    where
      fresh : {n : ℕ} (r : ℕ) → stored n ≡ stored r → n ≡ r
      fresh r e = ground (arith, e)

  pub by_equation : {p q : Performer M Client} → p ≡ q → IsSound q → IsSound p
  by_equation e s = rw e s

  pub first_of :
      {A : Type 0} {m : Performer M Client × Outcome A} {q : Performer M Client} {o : Outcome A}
      {p : Performer M Client}
      → m ≡ (q, o)
      → Extends p m.0
      → Extends p q
  first_of e h = rw (← (ap (λ t. t.0) e)) h

  -- A change of one slot: it is emptied, or kept.
  module _ {p q : Performer M Client} (s : IsSound p) (g : Grows p q) where
    pub cleared-IsSound :
        (q.current_container ≡ nil_stored) ⊎ (q.current_container ≡ p.current_container)
        → (q.next_container ≡ none) ⊎ (q.next_container ≡ p.next_container)
        → IsSound q
    cleared-IsSound (inl c) (inl n) = kept-IsSound s g (λ r e. cc) (λ r e. cc)
    cleared-IsSound (inl c) (inr n) = kept-IsSound s g (λ r e. cc) (λ r e. cc)
    cleared-IsSound (inr c) (inl n) = kept-IsSound s g (λ r e. cc) (λ r e. cc)
    cleared-IsSound (inr c) (inr n) = kept-IsSound s g (λ r e. cc) (λ r e. cc)

    -- The next slot moves to the current one.
    pub moved-IsSound :
        (r : ℕ)
        → p.next_container ≡ some r
        → q.current_container ≡ stored r
        → q.next_container ≡ none
        → IsSound q
    moved-IsSound r was now empty = record {
      fresh_above = λ j h. g.keeps_free j h (s.fresh_above j (omega (arith, g.counter_up)));
      current_live = λ j e.
          let l = s.next_live r was in
          let same : r ≡ j = ground (arith, now, e) in rw (← same) (g.keeps_live r l.0 l.1);
      next_live = λ j e. cc;
      apart = λ j e h. cc;
    }
