-- ===== src/Text/Numerals.antt =====
-- `f"{n:#x}"`, `f"{n:0{width}x}"` and `f"{n}"`: numbers written in hexadecimal and in decimal.
use sawos.Prelude.{
  ℕ, zero, suc, ◌+◌, ◌-◌, ◌/◌, ◌%◌, ◌≡◌, refl, [], ◌∷◌, ◌++◌, ltb, ◌==◌, if◌then◌else◌, length,
  replicate,
}
use sawos.Text.{Text, codes}

-- A digit below ten, or a lower-case letter.
abbrev pub digit : ℕ → ℕ
digit d = if ltb d 10 then b'0' + d else b'a' + (d - 10)

-- The digits of `n` before `out`; the fuel `n` is enough, since each round divides by two or more.
unfoldable pub digits : ℕ → ℕ → ℕ → Text → Text
digits base zero n out = out
digits base (suc fuel) n out =
    let rest = digits base fuel (n / base) (digit (n % base) ∷ out) in if n == 0 then out else rest

unfoldable pub numeral : ℕ → ℕ → Text
unfolding digits
numeral base n = if n == 0 then b'0' ∷ [] else digits base n n []

-- `f"{n}"`
unfoldable pub decimal : ℕ → Text
unfolding numeral
decimal = numeral 10

-- `f"{n:0{width}x}"`: padded with zeros on the left
unfoldable pub hex_padded : ℕ → ℕ → Text
unfolding numeral
hex_padded width n = let ds = numeral 16 n in replicate (width - length ds) b'0' ++ ds

-- `f"{n:#x}"`
unfoldable pub hex : ℕ → Text
unfolding numeral
hex n = codes "0x" ++ numeral 16 n

-- `f"{n:#0{width}x}"`, where the width counts the prefix
unfoldable pub hex_prefixed : ℕ → ℕ → Text
unfolding hex_padded
hex_prefixed width n = codes "0x" ++ hex_padded (width - 2) n

hex_region_len : hex 0x40000 ≡ codes "0x40000"
unfolding hex
hex_region_len = refl

hex_padded_prio : hex_padded 16 0x01010100 ≡ codes "0000000001010100"
unfolding hex_padded
hex_padded_prio = refl

decimal_status : (decimal 65591 ≡ codes "65591") × (decimal 0 ≡ codes "0")
unfolding decimal
decimal_status = (refl, refl)
