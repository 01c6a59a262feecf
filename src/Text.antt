-- ===== src/Text.antt =====
-- Go strings and byte slices as lists of bytes: literals, `strings.EqualFold`, `strings.ToLower`
-- and the `%d` of `fmt.Sprintf`. Case folding is that of ASCII, which covers hex addresses.
use Prim.Native.Char.{code}
use Prim.Native.String.{String}
use mathlib.Core.List.{reverse-reverse}
use hourglass_monorepo.Prelude.{
  ℕ, zero, suc, ◌+◌, ◌-◌, ◌*◌, ◌/◌, ◌%◌, ◌<◌, ◌≡◌, refl, sym, ap, ◌∙◌, ◌↔◌, Bool, true, false, ◌&&◌,
  List, [], ◌∷◌, ◌++◌, map, reverse, arith, ltb, leb, nat_beq, if◌then◌else◌, inl, inr, Bool-cases,
  All, All-reverse,
}

-- A Go string or byte slice.
abbrev pub Bytes : Type 0
Bytes = List ℕ

-- The code points of a literal.
abbrev pub codes : String → Bytes
codes String.[] = []
codes (String.◌∷◌ c s) = code c ∷ codes s

-- Equality of strings.
abbrev pub bytes_beq : Bytes → Bytes → Bool
bytes_beq [] [] = true
bytes_beq (x ∷ xs) (y ∷ ys) = nat_beq x y && bytes_beq xs ys
bytes_beq _ _ = false

pub bytes_beq_iff : (a b : Bytes) → (bytes_beq a b ≡ true) ↔ (a ≡ b)
bytes_beq_iff [] [] = ground arith
bytes_beq_iff [] (y ∷ ys) = ground arith
bytes_beq_iff (x ∷ xs) [] = ground arith
bytes_beq_iff (x ∷ xs) (y ∷ ys) = ground (arith, bytes_beq_iff xs ys)

pub bytes_beq-false : (a b : Bytes) → ¬ (a ≡ b) → bytes_beq a b ≡ false
bytes_beq-false a b h = elim (Bool-cases (bytes_beq a b)) [
  | inl e ↦ absurd (h ((bytes_beq_iff a b).0 e))
  | inr e ↦ e
]

-- `unicode.ToLower` on an ASCII byte.
pub lower_byte : ℕ → ℕ
lower_byte c = if leb b'A' c && leb c b'Z' then c + 32 else c

-- `strings.ToLower`.
unfoldable pub to_lower : Bytes → Bytes
unfolding lower_byte
to_lower = map lower_byte

-- `strings.EqualFold`.
unfoldable pub equal_fold : Bytes → Bytes → Bool
unfolding to_lower
equal_fold a b = bytes_beq (to_lower a) (to_lower b)

-- Two strings fold alike exactly when their lower-case forms are equal.
pub equal_fold_iff : (a b : Bytes) → (equal_fold a b ≡ true) ↔ (to_lower a ≡ to_lower b)
unfolding equal_fold
equal_fold_iff a b = bytes_beq_iff (to_lower a) (to_lower b)

lower_byte-lower_byte : (c : ℕ) → lower_byte (lower_byte c) ≡ lower_byte c
unfolding lower_byte
lower_byte-lower_byte c = ground arith

pub to_lower-to_lower : (a : Bytes) → to_lower (to_lower a) ≡ to_lower a
unfolding to_lower
to_lower-to_lower [] = refl
to_lower-to_lower (x ∷ xs) = ground (arith, lower_byte-lower_byte x, to_lower-to_lower xs)

-- The decimal digits of a number, the last digit first; `fuel` bounds their count.
digits_back : ℕ → ℕ → Bytes
digits_back zero n = []
digits_back (suc fuel) n =
    let rest = digits_back fuel (n / 10) in (48 + n % 10) ∷ (if ltb n 10 then [] else rest)

-- `fmt.Sprintf("%d", n)` of an unsigned number.
unfoldable pub decimal : ℕ → Bytes
unfolding digits_back
decimal n = reverse (digits_back (suc n) n)

value_back : Bytes → ℕ
value_back [] = 0
value_back (d ∷ ds) = (d - 48) + 10 * value_back ds

value_back-digits_back : (fuel n : ℕ) → n < fuel → value_back (digits_back fuel n) ≡ n
unfolding value_back digits_back
value_back-digits_back zero n h = elim h [ ]
value_back-digits_back (suc fuel) n h = elim (Bool-cases (ltb n 10)) [
  | inl small ↦ ground arith
  | inr big ↦ ground (arith, value_back-digits_back fuel (n / 10))
]

-- Two numbers with the same decimal form are equal.
pub decimal_injective : (m n : ℕ) → decimal m ≡ decimal n → m ≡ n
unfolding decimal
decimal_injective m n e =
    sym (value_back-digits_back (suc m) m (omega arith))
    ∙ ap value_back (sym (reverse-reverse _) ∙ ap reverse e ∙ reverse-reverse _)
    ∙ value_back-digits_back (suc n) n (omega arith)

-- A common prefix can be dropped.
pub append_cancel : (p : Bytes) {a b : Bytes} → p ++ a ≡ p ++ b → a ≡ b
append_cancel [] e = e
append_cancel (x ∷ p) e = append_cancel p (ground arith)

-- A decimal form has no colon.
digits_back-All : (fuel n : ℕ) → All (λ d. d < 58) (digits_back fuel n)
unfolding digits_back
digits_back-All zero n = tt
digits_back-All (suc fuel) n = elim (Bool-cases (ltb n 10)) [
  | inl small ↦ rw small (omega arith, tt)
  | inr big ↦ rw big (omega arith, digits_back-All fuel (n / 10))
]

pub decimal-All : (n : ℕ) → All (λ d. d < 58) (decimal n)
unfolding decimal
decimal-All n = All-reverse (λ d. d < 58) (digits_back (suc n) n) (digits_back-All (suc n) n)

-- A string splits in one way at its first colon.
pub split_colon :
    (a a' b b' : Bytes)
    → All (λ d. d < 58) a
    → All (λ d. d < 58) a'
    → a ++ (58 ∷ b) ≡ a' ++ (58 ∷ b')
    → (a ≡ a') × (b ≡ b')
split_colon [] [] b b' h h' e = ground arith
split_colon [] (x ∷ a') b b' h h' e = absurd (ground arith)
split_colon (x ∷ a) [] b b' h h' e = absurd (ground arith)
split_colon (x ∷ a) (x' ∷ a') b b' h h' e =
    let ih = split_colon a a' b b' h.1 h'.1 (ground arith) in (ground (arith, ih), ih.1)

-- `strings.HasPrefix(s, prefix)`, and the test of an iterator's `Prefix`.
abbrev pub has_prefix : Bytes → Bytes → Bool
has_prefix [] s = true
has_prefix (x ∷ prefix) [] = false
has_prefix (x ∷ prefix) (y ∷ s) = nat_beq x y && has_prefix prefix s

-- `s[n:]`
abbrev pub drop : ℕ → Bytes → Bytes
drop zero s = s
drop (suc n) [] = []
drop (suc n) (x ∷ s) = drop n s
