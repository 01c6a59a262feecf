-- ===== src/Messages/Numbers.antt =====
-- The number encodings of utils.go: round trips and bounds.
use mathlib.Core.List.{reverse-reverse, reverse-cons}
use hourglass_monorepo.Prelude.{
  ℕ, zero, suc, ◌+◌, ◌-◌, ◌*◌, ◌/◌, ◌%◌, ◌≤◌, ◌<◌, ◌≡◌, refl, ap, ◌∙◌, ◌⊎◌, inl, inr, some, [], ◌∷◌,
  ◌++◌, arith, ltb, nat_beq, length, All, Bool-cases, ok, err, if◌then◌else◌, reverse,
}
use hourglass_monorepo.Text.{Bytes, drop}
use hourglass_monorepo.Messages.{
  be_uint16, abi_encode_uint16, abi_decode_uint16, uint16_of, encoded_too_short, hex_back, hex_text,
  hex_digit, big_int_to_hex,
}

-- Decoding takes an encoded number back.
pub abi_decode_uint16-abi_encode_uint16 :
    (value : ℕ) → value < 65536 → abi_decode_uint16 (abi_encode_uint16 value) ≡ ok value
unfolding abi_decode_uint16 abi_encode_uint16 be_uint16
abi_decode_uint16-abi_encode_uint16 value h = ground arith

uint16_of_bound : (s : Bytes) → All (λ d. d < 256) s → uint16_of s < 65536
uint16_of_bound [] h = omega arith
uint16_of_bound (x ∷ []) h = omega arith
uint16_of_bound (x ∷ y ∷ s) h = omega (arith, h.0, h.1.0)

All-drop : (n : ℕ) (s : Bytes) → All (λ d. d < 256) s → All (λ d. d < 256) (drop n s)
All-drop zero s h = h
All-drop (suc n) [] h = h
All-drop (suc n) (x ∷ s) h = All-drop n s h.1

-- Decoding bytes fails below 32 of them, and otherwise gives a number below 2 ^ 16.
pub abi_decode_uint16_bounds :
    (encoded : Bytes)
    → All (λ d. d < 256) encoded
    → ((length encoded < 32) × (abi_decode_uint16 encoded ≡ err encoded_too_short))
      ⊎ ((32 ≤ length encoded)
          × ((value : ℕ) × (abi_decode_uint16 encoded ≡ ok value) × (value < 65536)))
unfolding abi_decode_uint16
abi_decode_uint16_bounds encoded h = elim (Bool-cases (ltb (length encoded) 32)) [
  | inl short ↦ inl (ground (arith, short), rw short refl)
  | inr long ↦ inr (
    ground (arith, long),
    (
      uint16_of (drop 30 encoded),
      rw long refl,
      uint16_of_bound (drop 30 encoded) (All-drop 30 encoded h),
    ),
  )
]

-- The number that hexadecimal digits stand for, the last digit first.
abbrev hex_digit_value : ℕ → ℕ
hex_digit_value c = if ltb c 58 then c - 48 else c - 87

abbrev value_back : Bytes → ℕ
value_back [] = 0
value_back (d ∷ ds) = hex_digit_value d + 16 * value_back ds

hex_digit-value : (d : ℕ) → d < 16 → hex_digit_value (hex_digit d) ≡ d
hex_digit-value d h = ground arith

value_back-hex_back : (fuel n : ℕ) → n < fuel → value_back (hex_back fuel n) ≡ n
unfolding hex_back
value_back-hex_back zero n h = absurd (omega arith)
value_back-hex_back (suc fuel) n h = elim (Bool-cases (ltb n 16)) [
  | inl small ↦ rw small (ground (arith, hex_digit-value (n % 16)))
  | inr big ↦ rw big (
      ground
        (arith, hex_digit-value (n % 16), value_back-hex_back fuel (n / 16) (ground (arith, big))))
]

-- The number that a text of hexadecimal digits behind `0x` stands for.
abbrev pub hex_value : Bytes → ℕ
hex_value s = value_back (reverse (drop 2 s))

value_back-append : (a b : Bytes) → value_back b ≡ 0 → value_back (a ++ b) ≡ value_back a
value_back-append [] b h = h
value_back-append (x ∷ a) b h = omega (arith, value_back-append a b h)

hex_text-value : (n : ℕ) → value_back (reverse (hex_text n)) ≡ n
unfolding hex_text
hex_text-value n =
    ap value_back (reverse-reverse (hex_back (suc n) n))
    ∙ value_back-hex_back (suc n) n (omega arith)

hex_text-value_zero : (n : ℕ) → value_back (reverse (48 ∷ hex_text n)) ≡ n
hex_text-value_zero n =
    ap value_back (reverse-cons 48 (hex_text n))
    ∙ value_back-append (reverse (hex_text n)) (48 ∷ []) refl
    ∙ hex_text-value n

-- A number in hexadecimal is read back as that number, and its text has an even length.
pub hex_value-big_int_to_hex :
    (n : ℕ) → (hex_value (big_int_to_hex (some n)) ≡ n) × (length (big_int_to_hex (some n)) % 2 ≡ 0)
unfolding big_int_to_hex
hex_value-big_int_to_hex n = elim (Bool-cases (nat_beq (length (hex_text n) % 2) 0)) [
  | inl even ↦ rw even (hex_text-value n, ground (arith, even))
  | inr odd ↦ rw odd (hex_text-value_zero n, ground (arith, odd))
]
