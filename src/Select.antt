-- ===== src/Select.antt =====
-- The case filter of `main` in tools/sos_runner.py.
pub mod Chosen
use sawos.Prelude.{
  ℕ, Bool, true, false, ◌||◌, List, [], ◌∷◌, ◌++◌, Option, none, some, if◌then◌else◌,
}
use sawos.Text.{Text, text_eq, elem, replace}
use sawos.Text.Split.{split_on, strip}
use sawos.Case.{Case}

-- `name.replace("-", "_")`
unfoldable pub plain_name : Text → Text
unfolding replace
plain_name = replace b'-' b'_'

-- The names that one value of `--case` holds.
abbrev pub names_in : List Text → List Text
names_in [] = []
names_in (w ∷ ws) = elim (strip w) [ [] ↦ names_in ws | c ∷ s ↦ plain_name (c ∷ s) ∷ names_in ws ]

-- `wanted`
unfoldable pub wanted : List Text → List Text
unfolding split_on strip
wanted [] = []
wanted (value ∷ values) = names_in (split_on b',' value) ++ wanted values

-- `by_name[w]`: the last case of that name, as a dictionary keeps it.
unfoldable pub by_name : List Case → Text → Option Case
by_name [] w = none
by_name (c ∷ cs) w = elim (by_name cs w) [
  | some d ↦ some d
  | none ↦ if text_eq (plain_name c.name) w then some c else none
]

-- `unknown`
unfoldable pub unknown_names : List Case → List Text → List Text
unknown_names table [] = []
unknown_names table (w ∷ ws) = elim (by_name table w) [
  | some c ↦ unknown_names table ws
  | none ↦ w ∷ unknown_names table ws
]

-- `names`: each at its first place, where `seen` were met before.
unfoldable pub first_names : List Text → List Text → List Text
first_names seen [] = []
first_names seen (w ∷ ws) =
    let again = first_names seen ws in
    let fresh = w ∷ first_names (w ∷ seen) ws in if elem w seen then again else fresh

-- `[by_name[w] for w in names]`; a missing key does not occur behind the check.
unfoldable pub cases_of : List Case → List Text → List Case
cases_of table [] = []
cases_of table (w ∷ ws) = elim (by_name table w) [
  | some c ↦ c ∷ cases_of table ws
  | none ↦ cases_of table ws
]

-- Exit status 2 with the unknown names, or the cases to run.
pub data Selection : Type 0 where
  refused : List Text → Selection
  selected : List Case → Selection

-- `--case` with the values; none of them is no filter.
unfoldable pub select_cases : List Case → List Text → Selection
select_cases table [] = selected table
select_cases table (v ∷ vs) = elim (unknown_names table (wanted (v ∷ vs))) [
  | [] ↦ selected (cases_of table (first_names [] (wanted (v ∷ vs))))
  | u ∷ us ↦ refused (u ∷ us)
]
