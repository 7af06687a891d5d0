-- ===== src/Toolchain/Pin.antt =====
-- `_read_pin` of tools/toolchain.py: the file `sawlang.pin`, given by its lines.
use sawos.Prelude.{ℕ, suc, ◌≡◌, refl, List, [], ◌∷◌, Option, none, some, arith, ◌==◌, if◌then◌else◌}
use sawos.Text.{Text, text_eq}
use sawos.Text.Equality.{text_eq_iff}
use sawos.Text.Format.{Fields, field}
use sawos.Text.Split.{strip, strip_of, before, behind, has}
use sawos.Toolchain.{Result, ok, err, malformed_pin, ◌>>=◌}

-- `pin[key] = value`
unfoldable pub put : Text → Text → Fields → Fields
unfolding text_eq
put k v [] = (k, v) ∷ []
put k v ((j, w) ∷ fs) = let rest = (j, w) ∷ put k v fs in if text_eq j k then (j, v) ∷ fs else rest

-- What a line says, once its comment and the space round it are gone.
pub data Line : Type 0 where
  nothing : Line
  malformed : Text → Line
  entry : Text → Text → Line

abbrev pub line_of : Text → Line
line_of [] = nothing
line_of (c ∷ s) =
    if has b'=' (c ∷ s)
    then entry (strip (before b'=' (c ∷ s)))
        (strip_of (λ d. d == b'"') (strip (behind b'=' (c ∷ s))))
    else malformed (c ∷ s)

unfoldable pub read_line : Text → Line
unfolding strip strip_of before behind has
read_line raw = line_of (strip (before b'#' raw))

abbrev pub apply_line : ℕ → Line → Fields → Result Fields
apply_line lineno nothing pin = ok pin
apply_line lineno (malformed line) pin = err (malformed_pin lineno line)
apply_line lineno (entry k v) pin = ok (put k v pin)

-- The loop over `enumerate(f, 1)`.
unfoldable pub read_lines : ℕ → List Text → Fields → Result Fields
read_lines lineno [] pin = ok pin
read_lines lineno (raw ∷ raws) pin = do
  pin' ← apply_line lineno (read_line raw) pin
  read_lines (suc lineno) raws pin'

-- `none` for a file that is not there.
unfoldable pub read_pin : Option (List Text) → Result (Option Fields)
unfolding read_lines
read_pin none = ok none
read_pin (some raws) = do pin ← read_lines 1 raws []; ok (some pin)

pub field-put :
    (k v j : Text) (fs : Fields)
    → field (put k v fs) j ≡ (if text_eq k j then some v else field fs j)
unfolding field put
field-put k v j [] = refl
field-put k v j ((i, w) ∷ fs) =
    ground (arith, field-put k v j fs, text_eq_iff i k, text_eq_iff i j, text_eq_iff k j)
