-- ===== src/Performer/Deployed/Calm.antt =====
-- containerPerformer.go: the periodic checks leave slots, ids and contexts alone.
use hourglass_monorepo.Prelude.{
  ℕ, ◌≡◌, refl, ap, ◌∙◌, Bool, List, [], ◌∷◌, ◌++◌, arith, inl, inr, Option-cases, Bool-cases,
  nat_beq, nat_beq_iff,
}
use hourglass_monorepo.Dict.{get, nat_eq}
use hourglass_monorepo.Performer.{
  PerformerConfig, Ctx, Docker, PerformerContainer, Performer, Outcome, done, failed, deref, modify,
  CurrentSlot, never_stored, nil_stored, stored, nil_dereference,
}
use hourglass_monorepo.Performer.Health.{
  check_container, check_all, checked, ask_health, checkable, staged_checks,
  perform_periodic_application_health_checks,
}
use hourglass_monorepo.Performer.Sound.{deref-modify, modify-Stays, modify-none}
use hourglass_monorepo.Performer.Deployed.Parts.{IsCalm}

module _ {M Client : Type 0} where
  same-IsCalm :
      {p q : Performer M Client}
      → q.containers ≡ p.containers
      → q.current_container ≡ p.current_container
      → q.next_container ≡ p.next_container
      → IsCalm p q
  same-IsCalm a b c = record {
    same_current = b;
    same_next = c;
    same_containers = λ r x e. (x, ap (get r) a ∙ e, refl, refl);
  }

  pub IsCalm-trans : {p q t : Performer M Client} → IsCalm p q → IsCalm q t → IsCalm p t
  IsCalm-trans a b = record {
    same_current = b.same_current ∙ a.same_current;
    same_next = b.same_next ∙ a.same_next;
    same_containers = λ r c e.
        let x = a.same_containers r c e in
        let y = b.same_containers r x.0 x.1 in (y.0, y.1, y.2 ∙ x.2, y.3 ∙ x.3);
  }

  -- A write that keeps the id and the context.
  modify-IsCalm :
      (r : ℕ) (f : PerformerContainer Client → PerformerContainer Client) (p : Performer M Client)
      → ((c : PerformerContainer Client)
          → ((f c).performer_id ≡ c.performer_id) × ((f c).status_context ≡ c.status_context))
      → IsCalm p (modify r f p)
  modify-IsCalm r f p keeps = record {
    same_current = (modify-Stays r f p).current_same;
    same_next = (modify-Stays r f p).next_same;
    same_containers = λ j c e. elim (Option-cases (deref p r)) [
      | inl gone ↦ (c, ap (λ q. deref q j) (modify-none r f p gone) ∙ e, refl, refl)
      | inr (b, found) ↦ elim (Bool-cases (nat_beq r j)) [
        | inr other ↦ (c, deref-modify r j f p b found ∙ rw other e, refl, refl)
        | inl same ↦
            let one : b ≡ c =
              ground (arith, found, e, ap (λ i. deref p i) ((nat_beq_iff r j).0 same)) in
            (
              f b,
              deref-modify r j f p b found ∙ rw same refl,
              (keeps b).0 ∙ ap (λ x. x.performer_id) one,
              (keeps b).1 ∙ ap (λ x. x.status_context) one,
            )
      ]
    ];
  }

module _ {M Client : Type 0} (d : Docker M Client) (config : PerformerConfig) where
  checked_keeps :
      (fine : Bool) (now : ℕ) (c : PerformerContainer Client)
      → ((checked d config fine now c).performer_id ≡ c.performer_id)
        × ((checked d config fine now c).status_context ≡ c.status_context)
  checked_keeps fine now c = ground arith

  check_container-IsCalm :
      (ctx : Ctx) (now r : ℕ) (p : Performer M Client)
      → IsCalm p (check_container d config ctx now r p)
  unfolding check_container
  check_container-IsCalm ctx now r p = elim (Option-cases (deref p r)) [
    | inl gone ↦ rw (gone, check_container) (same-IsCalm refl refl refl)
    | inr (c, found) ↦
        rw (found, check_container)
          (IsCalm-trans (same-IsCalm refl refl refl) (
            modify-IsCalm r (checked d config (ask_health d config ctx c p).1 now)
              (ask_health d config ctx c p).0 (checked_keeps (ask_health d config ctx c p).1 now)))
  ]

  check_all-IsCalm :
      (ctx : Ctx) (now : ℕ) (rs : List ℕ) (p : Performer M Client)
      → IsCalm p (check_all d config ctx now rs p)
  check_all-IsCalm ctx now [] p = same-IsCalm refl refl refl
  check_all-IsCalm ctx now (r ∷ rs) p =
      IsCalm-trans (check_container-IsCalm ctx now r p)
        (check_all-IsCalm ctx now rs (check_container d config ctx now r p))

  -- A round of periodic checks is calm.
  pub checks-IsCalm :
      (ctx : Ctx) (now : ℕ) (p : Performer M Client)
      → IsCalm p (perform_periodic_application_health_checks d config ctx now p).0
  unfolding perform_periodic_application_health_checks
  checks-IsCalm ctx now p = by_slot p.current_container p (staged_checks d config p)
    where
      by_slot :
          (slot : CurrentSlot) (p : Performer M Client) (l : List ℕ)
          → IsCalm p
              (elim slot as (λ _. Performer M Client × Outcome (Unit {0})) [
                | never_stored ↦ (check_all d config ctx now l p, done tt)
                | nil_stored ↦ (p, failed nil_dereference)
                | stored r ↦ (check_all d config ctx now (checkable d config p r ++ l) p, done tt)
              ]).0
      by_slot never_stored p l = check_all-IsCalm ctx now l p
      by_slot nil_stored p l = same-IsCalm refl refl refl
      by_slot (stored r) p l = check_all-IsCalm ctx now (checkable d config p r ++ l) p
