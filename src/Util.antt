-- ===== src/Util.antt =====
-- The generic slice helpers of ponos/pkg/util/utils.go that the program uses.
use mathlib.Core.List.{Memᴰ}
use hourglass_monorepo.Prelude.{
  refl, inl, inr, Bool-cases, ◌≡◌, Bool, true, Option, none, some, List, [], ◌∷◌, arith,
  if◌then◌else◌,
}

module _ {A : Type 0} where
  -- `util.Find`
  unfoldable pub find : List A → (A → Bool) → Option A
  find [] criteria = none
  find (x ∷ xs) criteria = if criteria x then some x else find xs criteria

  -- `util.Filter`
  unfoldable pub filter : List A → (A → Bool) → List A
  filter [] criteria = []
  filter (x ∷ xs) criteria = let rest = filter xs criteria in if criteria x then x ∷ rest else rest

  -- What `find` returns satisfies the criteria.
  pub find-criteria :
      (xs : List A) (criteria : A → Bool) (a : A) → find xs criteria ≡ some a → criteria a ≡ true
  unfolding find
  find-criteria [] criteria a h = ground arith
  find-criteria (x ∷ xs) criteria a h = ground (arith, find-criteria xs criteria a)

-- What satisfies the criteria stays.
pub Memᴰ-filter :
    {A : Type 0} (xs : List A) (criteria : A → Bool) (x : A)
    → Memᴰ x xs
    → criteria x ≡ true
    → Memᴰ x (filter xs criteria)
unfolding filter
Memᴰ-filter [] criteria x m h = elim m [ ]
Memᴰ-filter (y ∷ ys) criteria x (Memᴰ.head e) h = rw (← e, h) (Memᴰ.head refl)
Memᴰ-filter (y ∷ ys) criteria x (Memᴰ.tail m) h = elim (Bool-cases (criteria y)) [
  | inl k ↦ rw k (Memᴰ.tail (Memᴰ-filter ys criteria x m h))
  | inr k ↦ rw k (Memᴰ-filter ys criteria x m h)
]

-- What `find` returns is in the list.
pub find-Memᴰ :
    {A : Type 0} (xs : List A) (criteria : A → Bool) (x : A) → find xs criteria ≡ some x → Memᴰ x xs
unfolding find
find-Memᴰ [] criteria x h = absurd (ground arith)
find-Memᴰ (y ∷ ys) criteria x h = elim (Bool-cases (criteria y)) [
  | inl k ↦ Memᴰ.head (ground (arith, h, k))
  | inr k ↦ Memᴰ.tail (find-Memᴰ ys criteria x (ground (arith, h, k)))
]
