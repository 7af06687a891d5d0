-- ===== src/Check.antt =====
-- `_check` of tools/sos_runner.py: the verdict on one run of one case.
pub mod Strip
pub mod Matching
pub mod Accept
use sawos.Prelude.{ℕ, ◌+◌, Bool, true, false, List, [], ◌∷◌, Option, none, some, if◌then◌else◌, not}
use sawos.Prelude.Int.{ℤ, pos, int_eq}
use sawos.Text.{Text, contains, find}
use sawos.Text.Format.{Fields, format}
use sawos.Arch.{Arch, expectations}
use sawos.Case.{Case, Expected, anything, one_text, texts}
use Strip.{strip_kernel_diagnostics}
use Matching.{Matched, placed, out_of_order, missing, advance}

-- Why a case fails; the values are those that the message shows.
pub data Reason : Type 0 where
  hung clean_exit : Reason
  unmatched : Matched → Text → Reason
  unclean_exit : Option ℤ → Reason
  wrong_status : ℤ → Option ℤ → Reason

-- `(ok, reason)`, or the exception of a template that cannot be formatted.
pub data Verdict : Type 0 where
  passed raised : Verdict
  failed : Reason → Verdict

-- `status == n`, where `None` is no number.
abbrev pub status_is : ℤ → Option ℤ → Bool
status_is n none = false
status_is n (some k) = int_eq k n

-- The loop over `expected`: each template is formatted when its turn comes.
unfoldable pub match_expected : Fields → Bool → Text → List Text → ℕ → Option Matched
match_expected fmt step_one hay [] cursor = some placed
match_expected fmt step_one hay (raw ∷ raws) cursor = elim (format fmt raw) [
  | none ↦ none
  | some want ↦ elim (find want hay cursor) [
    | none ↦ some (if contains want hay then out_of_order want else missing want)
    | some at ↦ match_expected fmt step_one hay raws (at + advance step_one want)
  ]
]

-- `expected` as a list.
abbrev pub expected_list : Expected → List Text
expected_list anything = []
expected_list (one_text t) = t ∷ []
expected_list (texts ts) = ts

-- What the texts are sought in.
abbrev pub haystack : Case → Text → Text
haystack case out = if case.strip_kernel_lines then strip_kernel_diagnostics out else out

unfoldable pub check_status : Case → Option ℤ → Verdict
check_status case status = elim case.expect_status [
  | none ↦ passed
  | some want ↦ if status_is want status then passed else failed (wrong_status want status)
]

unfoldable pub check_exit : Case → Option ℤ → Verdict
unfolding check_status
check_exit case status =
    if case.expect_clean_exit
    then (if status_is (pos 0) status
        then check_status case status
        else failed (unclean_exit status))
    else if status_is (pos 0) status
    then failed clean_exit
    else check_status case status

abbrev pub after_match : Case → Text → Option ℤ → Option Matched → Verdict
after_match case out status none = raised
after_match case out status (some placed) = check_exit case status
after_match case out status (some m) = failed (unmatched m out)

unfoldable pub check : Case → Arch → Option ℤ → Text → Bool → Verdict
unfolding match_expected check_exit
check case arch status out timed_out =
    if timed_out
    then failed hung
    else after_match case out status (
        match_expected (expectations arch) case.overlapping_matches (haystack case out)
          (expected_list case.expect_out) 0)
