-- ===== src/Cases/Passable.antt =====
-- Each case of `TEST_CASES` against the verdict and the region table of tools/sos_runner.py.
use sawos.Prelude.{
  ◌≡◌, ◌≢◌, refl, Bool, true, false, List, [], ◌∷◌, Option, none, some, All, All-map, all,
  if◌then◌else◌,
}
use sawos.Prelude.Int.{ℤ, pos}
use sawos.Text.{Text, codes, join, find}
use sawos.Check.Strip.{strip_kernel_diagnostics}
use mathlib.Core.Bool.{false≢true}
use sawos.Text.Format.{Fields, format}
use sawos.Arch.{Arch, expectations}
use sawos.Arch.Table.{arches}
use sawos.Case.{Case}
use sawos.Check.{Verdict, passed, raised, failed, check, expected_list}
use sawos.Regions.{region_rows}
use sawos.Cases.{test_cases}
use sawos.Cases.Formats.{all-All}

-- A status and a transcript that a case asks for: its texts, one on each line.
asked_status : Case → ℤ
asked_status c = elim c.expect_status [
  | some n ↦ n
  | none ↦ if c.expect_clean_exit then pos 0 else pos 1
]

formatted : Fields → List Text → List Text
unfolding format
formatted fs [] = []
formatted fs (raw ∷ raws) = elim (format fs raw) [
  | none ↦ formatted fs raws
  | some t ↦ t ∷ formatted fs raws
]

asked_output : Arch → Case → Text
unfolding formatted join expectations
asked_output arch c = join (codes "\n") (formatted (expectations arch) (expected_list c.expect_out))

is_passed : Verdict → Bool
is_passed passed = true
is_passed raised = false
is_passed (failed r) = false

passes : Arch → Case → Bool
unfolding is_passed asked_status asked_output check
passes arch c = is_passed (check c arch (some (asked_status c)) (asked_output arch c) false)

test_cases-passes :
    (root : Text) → All (λ arch. all (passes arch) (test_cases root) ≡ true) (arches root)
unfolding passes find strip_kernel_diagnostics
test_cases-passes root = (refl, (refl, (refl, tt)))

is_passed-passed : (v : Verdict) → is_passed v ≡ true → v ≡ passed
unfolding is_passed
is_passed-passed passed h = refl
is_passed-passed raised h = cc
is_passed-passed (failed r) h = cc

-- There are an exit status and a transcript with which the case passes.
abbrev pub Passable : Arch → Case → Type 0
Passable arch case =
    (status : Option ℤ) × (out : Text) × (check case arch status out false ≡ passed)

passes-Passable : (arch : Arch) (case : Case) → passes arch case ≡ true → Passable arch case
unfolding passes
passes-Passable arch case h =
    let status = some (asked_status case) in
    let out = asked_output arch case in
    (status, out, is_passed-passed (check case arch status out false) h)

-- No case of the table asks for what no run can give: on every architecture there are an exit status
-- and a transcript with which it passes.
pub test_cases-Passable :
    (root : Text) → All (λ arch. All (Passable arch) (test_cases root)) (arches root)
test_cases-Passable root =
    All-map
      (λ arch h.
        All-map (passes-Passable arch) (test_cases root)
          (all-All (passes arch) (test_cases root) h))
      (arches root) (test_cases-passes root)

has_rows : Arch → Case → Bool
unfolding region_rows
has_rows arch c = elim (region_rows c arch) [ none ↦ false | some rows ↦ true ]

test_cases-has_rows :
    (root : Text) → All (λ arch. all (has_rows arch) (test_cases root) ≡ true) (arches root)
unfolding has_rows
test_cases-has_rows root = (refl, (refl, (refl, tt)))

has_rows-some : (arch : Arch) (c : Case) → has_rows arch c ≡ true → region_rows c arch ≢ none
unfolding has_rows
has_rows-some arch c h e = false≢true (rw (e, has_rows) at h)

-- No case of the table has its region rows refused, on any architecture.
pub test_cases-rows :
    (root : Text)
    → All (λ arch. All (λ case. region_rows case arch ≢ none) (test_cases root)) (arches root)
test_cases-rows root =
    All-map
      (λ arch h.
        All-map (λ case g. has_rows-some arch case g) (test_cases root)
          (all-All (has_rows arch) (test_cases root) h))
      (arches root) (test_cases-has_rows root)
