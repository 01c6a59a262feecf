-- ===== src/Dict.antt =====
-- Go maps as association lists in one iteration order, over keys with a decidable equality.
-- A nil map and an empty map read alike, so both are the empty list.
use hourglass_monorepo.Prelude.{
  ℕ, ◌+◌, ◌≡◌, refl, ◌↔◌, Bool, true, Option, none, some, List, [], ◌∷◌, arith, nat_beq,
  nat_beq_iff, if◌then◌else◌, not_empty,
}
use hourglass_monorepo.Text.{Bytes, bytes_beq, bytes_beq_iff}

-- Keys that `==` compares.
pub record Eq {ℓ} (K : Type ℓ) : Type ℓ where
  pub beq : K → K → Bool
  pub beq_iff : (a b : K) → (beq a b ≡ true) ↔ (a ≡ b)

infix 50 ◌==◌
abbrev pub ◌==◌ {ℓ} : {K : Type ℓ} ⦃e : Eq K⦄ → K → K → Bool
◌==◌ ⦃e⦄ = e.beq

instance abbrev pub nat_eq : Eq ℕ
nat_eq = record { beq = nat_beq; beq_iff = nat_beq_iff }

instance abbrev pub bytes_eq : Eq Bytes
bytes_eq = record { beq = bytes_beq; beq_iff = bytes_beq_iff }

abbrev pub Dict : Type 0 → Type 0 → Type 0
Dict K V = List (K × V)

module _ {K V : Type 0} ⦃e : Eq K⦄ where
  -- `v, ok := m[k]`
  unfoldable pub get : K → Dict K V → Option V
  get k [] = none
  get k ((j, v) ∷ m) = if j == k then some v else get k m

  -- `m[k] = v`
  unfoldable pub put : K → V → Dict K V → Dict K V
  put k v [] = (k, v) ∷ []
  put k v ((j, w) ∷ m) = if j == k then (j, v) ∷ m else (j, w) ∷ put k v m

  -- `delete(m, k)`
  unfoldable pub remove : K → Dict K V → Dict K V
  remove k [] = []
  remove k ((j, w) ∷ m) = let rest = remove k m in if j == k then rest else (j, w) ∷ rest

  pub get-put :
      (k j : K) (v : V) (m : Dict K V) → get j (put k v m) ≡ (if k == j then some v else get j m)
  unfolding get put
  get-put k j v [] = refl
  get-put k j v ((i, w) ∷ m) =
      ground (arith, e.beq_iff i k, e.beq_iff k j, e.beq_iff i j, get-put k j v m)

  pub get-remove :
      (k j : K) (m : Dict K V) → get j (remove k m) ≡ (if k == j then none else get j m)
  unfolding get remove
  get-remove k j [] = ground arith
  get-remove k j ((i, w) ∷ m) =
      ground (arith, e.beq_iff i k, e.beq_iff k j, e.beq_iff i j, get-remove k j m)

  pub get-put_self : (k : K) (v : V) (m : Dict K V) → get k (put k v m) ≡ some v
  get-put_self k v m = ground (arith, get-put k k v m, e.beq_iff k k)

  pub get-remove_self : (k : K) (m : Dict K V) → get k (remove k m) ≡ none
  get-remove_self k m = ground (arith, get-remove k k m, e.beq_iff k k)

  -- The sum of a measure over the values.
  abbrev pub total : (V → ℕ) → Dict K V → ℕ
  total f [] = 0
  total f ((j, v) ∷ m) = f v + total f m

  pub total-put_fresh :
      (f : V → ℕ) (k : K) (v : V) (m : Dict K V)
      → get k m ≡ none
      → total f (put k v m) ≡ total f m + f v
  unfolding get put
  total-put_fresh f k v [] h = omega arith
  total-put_fresh f k v ((j, w) ∷ m) h = ground (arith, total-put_fresh f k v m)

  pub put-not_empty : (k : K) (v : V) (m : Dict K V) → not_empty (put k v m) ≡ true
  unfolding put
  put-not_empty k v [] = refl
  put-not_empty k v ((j, w) ∷ m) = ground arith
