-- ===== src/Cases/Formats.antt =====
-- The templates of `TEST_CASES` under the expectations of each architecture.
use sawos.Prelude.{
  ℕ, ◌≡◌, ◌≢◌, refl, Bool, true, false, ◌&&◌, List, [], ◌∷◌, Option, none, some, arith, All, all,
  Option-cases, All-map, inl, inr, ◌+◌,
}
use sawos.Text.{Text}
use sawos.Text.Format.{Fields, format}
use sawos.Arch.{Arch, expectations}
use sawos.Arch.Table.{arches}
use sawos.Case.{Case}
use sawos.Text.{find}
use sawos.Check.Matching.{Matched, placed, out_of_order, missing, advance}
use sawos.Check.{
  raised, expected_list, match_expected, check, check_exit, check_status, haystack, after_match,
}
use sawos.Prelude.Int.{ℤ}
use sawos.Cases.{test_cases}

is_some {ℓ} : {A : Type ℓ} → Option A → Bool
is_some none = false
is_some (some t) = true

all_format : Fields → List Case → Bool
unfolding format is_some
all_format fs = all (λ c. all (λ raw. is_some (format fs raw)) (expected_list c.expect_out))

test_cases-format :
    (root : Text)
    → All (λ arch. all_format (expectations arch) (test_cases root) ≡ true) (arches root)
unfolding all_format expectations
test_cases-format root = (refl, (refl, (refl, tt)))

is_some-some {ℓ} : {A : Type ℓ} (o : Option A) → is_some o ≡ true → (a : A) × (o ≡ some a)
unfolding is_some
is_some-some none h = cc
is_some-some (some a) h = (a, refl)

&&-both : (a b : Bool) → (a && b) ≡ true → (a ≡ true) × (b ≡ true)
&&-both true b h = (refl, h)
&&-both false b h = cc

pub all-All {ℓ} :
    {A : Type ℓ} (p : A → Bool) (xs : List A) → all p xs ≡ true → All (λ x. p x ≡ true) xs
all-All p [] h = tt
all-All p (x ∷ xs) h = let (here, rest) = &&-both (p x) (all p xs) h in (here, all-All p xs rest)

match_expected-answers :
    (fs : Fields) (step_one : Bool) (hay : Text) (raws : List Text) (cursor : ℕ)
    → All (λ raw. is_some (format fs raw) ≡ true) raws
    → (m : Matched) × (match_expected fs step_one hay raws cursor ≡ some m)
unfolding match_expected
match_expected-answers fs step_one hay [] cursor h = (placed, refl)
match_expected-answers fs step_one hay (raw ∷ raws) cursor (here, rest) =
    let (want, e) = is_some-some (format fs raw) here in
    elim (Option-cases (find want hay cursor)) [
      | inl q ↦ rw (e, match_expected) (rw (q, match_expected) (_, refl))
      | inr (at, q) ↦
          rw (e, match_expected)
            (rw (q, match_expected)
              (match_expected-answers fs step_one hay raws (at + advance step_one want) rest))
    ]

check_status-answers : (case : Case) (status : Option ℤ) → check_status case status ≢ raised
unfolding check_status
check_status-answers case status h = elim (Option-cases case.expect_status) [
  | inl e ↦ ground arith
  | inr (want, e) ↦ ground arith
]

check_exit-answers : (case : Case) (status : Option ℤ) → check_exit case status ≢ raised
unfolding check_exit
check_exit-answers case status h = ground (arith, check_status-answers case status)

check-answers :
    (case : Case) (arch : Arch) (status : Option ℤ) (out : Text) (timed_out : Bool)
    → All (λ raw. is_some (format (expectations arch) raw) ≡ true) (expected_list case.expect_out)
    → check case arch status out timed_out ≢ raised
unfolding check
check-answers case arch status out true f h = ground arith
check-answers case arch status out false f h =
    let (m, e) =
      match_expected-answers (expectations arch) case.overlapping_matches (haystack case out)
        (expected_list case.expect_out) 0 f in
    after_match-answers case out status m (rw e at h)
  where
    after_match-answers :
        (case : Case) (out : Text) (status : Option ℤ) (m : Matched)
        → after_match case out status (some m) ≢ raised
    after_match-answers case out status placed g = check_exit-answers case status g
    after_match-answers case out status (out_of_order want) g = ground arith
    after_match-answers case out status (missing want) g = ground arith

-- Every test case has a verdict on every architecture, whatever QEMU did: each template of the table
-- names only fields that the architecture has, so that no check ends in an exception.
pub test_cases-answer :
    (root : Text) (status : Option ℤ) (out : Text) (timed_out : Bool)
    → All
        (λ arch. All (λ case. check case arch status out timed_out ≢ raised) (test_cases root))
        (arches root)
unfolding all_format
test_cases-answer root status out timed_out =
    All-map
      (λ arch h.
        All-map
          (λ case g. check-answers case arch status out timed_out (
            all-All (λ raw. is_some (format (expectations arch) raw))
              (expected_list case.expect_out) g))
          (test_cases root)
          (all-All
            (λ c.
              all (λ raw. is_some (format (expectations arch) raw)) (expected_list c.expect_out))
            (test_cases root) h))
      (arches root) (test_cases-format root)
