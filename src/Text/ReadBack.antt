-- ===== src/Text/ReadBack.antt =====
-- Reading the numbers that Text.Numerals writes.
use mathlib.Core.List.{foldl}
use sawos.Prelude.{
  ℕ, zero, suc, ◌+◌, ◌-◌, ◌*◌, ◌/◌, ◌%◌, ◌≤◌, ◌<◌, ◌≡◌, ap, ◌∙◌, [], ◌∷◌, arith, ltb, ◌==◌,
  Bool-cases, inl, inr, if◌then◌else◌, ==→eq, drop,
}
use sawos.Text.{Text}
use sawos.Text.Numerals.{digit, digits, numeral, hex, decimal}

abbrev pub digit_value : ℕ → ℕ
digit_value c = if ltb c b'a' then c - b'0' else c - b'a' + 10

-- The number that digits spell behind `n`.
abbrev pub value_from : ℕ → ℕ → Text → ℕ
value_from base = foldl (λ n c. n * base + digit_value c)

-- A base in which `digits` writes: a digit is read back, and a round loses nothing.
record IsBase (base : ℕ) : Type 0 where
  read : (n : ℕ) → digit_value (digit (n % base)) ≡ n % base
  split : (n : ℕ) → n / base * base + n % base ≡ n
  less : (n f : ℕ) → n ≤ suc f → n / base ≤ f

module _ (base : ℕ) (b : IsBase base) where
  value-digits :
      (fuel n : ℕ) (out : Text)
      → n ≤ fuel
      → value_from base 0 (digits base fuel n out) ≡ value_from base n out
  unfolding digits
  value-digits zero n out h = ap (λ k. value_from base k out) (omega arith)
  value-digits (suc fuel) n out h = elim (Bool-cases (n == 0)) [
    | inl e ↦ rw e (ap (λ k. value_from base k out) (omega (arith, ==→eq n 0 e)))
    | inr e ↦ rw e (
        value-digits fuel (n / base) (digit (n % base) ∷ out) (b.less n fuel h)
        ∙ ap (λ k. value_from base k out) (ap (λ d. n / base * base + d) (b.read n) ∙ b.split n))
  ]

  value-numeral : (n : ℕ) → value_from base 0 (numeral base n) ≡ n
  unfolding numeral
  value-numeral n = elim (Bool-cases (n == 0)) [
    | inl e ↦ rw e (omega (arith, ==→eq n 0 e))
    | inr e ↦ rw e (value-digits n n [] (omega arith))
  ]

ten : IsBase 10
ten = record {
  read = λ n. let h : n % 10 < 10 = omega arith in ground arith;
  split = λ n. omega arith;
  less = λ n f h. omega arith;
}

sixteen : IsBase 16
sixteen = record {
  read = λ n. let h : n % 16 < 16 = omega arith in ground arith;
  split = λ n. omega arith;
  less = λ n f h. omega arith;
}

pub value-decimal : (n : ℕ) → value_from 10 0 (decimal n) ≡ n
unfolding decimal
value-decimal = value-numeral 10 ten

-- The digits behind the `0x` prefix.
pub value-hex : (n : ℕ) → value_from 16 0 (drop 2 (hex n)) ≡ n
unfolding hex
value-hex = value-numeral 16 sixteen
