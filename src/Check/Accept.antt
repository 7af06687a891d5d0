-- ===== src/Check/Accept.antt =====
-- The verdict of `_check`, and what it stands for.
use sawos.Prelude.{
  ℕ, ◌+◌, ◌≡◌, ◌≢◌, ◌↔◌, refl, Bool, true, false, List, [], ◌∷◌, Option, none, some, arith,
  Option-cases, Bool-cases, inl, inr,
}
use sawos.Prelude.Int.{ℤ, pos, int_eq_iff}
use sawos.Text.{Text, find}
use sawos.Text.Format.{Fields, format}
use sawos.Arch.{Arch, expectations}
use sawos.Case.{Case}
use sawos.Check.{
  passed, status_is, after_match, match_expected, check, check_exit, check_status, haystack,
  expected_list,
}
use sawos.Check.Matching.{Matched, placed, match_in_order, Placed, match-Placed, advance}

-- Every template formats, to these texts.
abbrev pub Formats : Fields → List Text → List Text → Type 0
Formats fmt [] [] = Unit
Formats fmt (raw ∷ raws) (want ∷ wants) = (format fmt raw ≡ some want) × Formats fmt raws wants
Formats fmt _ _ = ⊥

match_expected-Formats :
    (fmt : Fields) (step_one : Bool) (hay : Text) (raws wants : List Text) (cursor : ℕ)
    → Formats fmt raws wants
    → match_expected fmt step_one hay raws cursor ≡ some (match_in_order step_one hay wants cursor)
unfolding match_expected match_in_order
match_expected-Formats fmt step_one hay [] [] cursor h = refl
match_expected-Formats fmt step_one hay [] (w ∷ ws) cursor h = elim h [ ]
match_expected-Formats fmt step_one hay (r ∷ rs) [] cursor h = elim h [ ]
match_expected-Formats fmt step_one hay (r ∷ rs) (w ∷ ws) cursor (e, h) =
    elim (Option-cases (find w hay cursor)) [
      | inl q ↦ rw (e, match_expected) (rw (q, match_in_order, match_expected))
      | inr (at, q) ↦
          rw (e, match_expected)
            (rw (q, match_in_order, match_expected)
              (match_expected-Formats fmt step_one hay rs ws (at + advance step_one w) h))
    ]

-- The exit status that a case asks for.
pub record ExitIs (case : Case) (status : Option ℤ) : Type 0 where
  pub clean : case.expect_clean_exit ≡ true → status ≡ some (pos 0)
  pub failing : case.expect_clean_exit ≡ false → status ≢ some (pos 0)
  pub exact : (n : ℤ) → case.expect_status ≡ some n → status ≡ some n

status_is_iff : (n : ℤ) (status : Option ℤ) → (status_is n status ≡ true) ↔ (status ≡ some n)
status_is_iff n none = ground arith
status_is_iff n (some k) = ground (arith, int_eq_iff k n)

status-passed :
    (case : Case) (status : Option ℤ)
    → check_status case status ≡ passed
    → (n : ℤ) → case.expect_status ≡ some n
    → status ≡ some n
unfolding check_status
status-passed case status h n e = ground (arith, status_is_iff n status)

exit-passed :
    (case : Case) (status : Option ℤ) → check_exit case status ≡ passed → ExitIs case status
unfolding check_exit
exit-passed case status h = record {
  clean = λ c. ground (arith, status_is_iff (pos 0) status);
  failing = λ c e. ground (arith, status_is_iff (pos 0) status);
  exact = λ n e. status-passed case status (ground (arith, status_is_iff (pos 0) status)) n e;
}

passed-status :
    (case : Case) (status : Option ℤ)
    → ((n : ℤ) → case.expect_status ≡ some n → status ≡ some n)
    → check_status case status ≡ passed
unfolding check_status
passed-status case status h = elim (Option-cases case.expect_status) [
  | inl e ↦ ground arith
  | inr (n, e) ↦ ground (arith, status_is_iff n status, h n e)
]

passed-exit :
    (case : Case) (status : Option ℤ) → ExitIs case status → check_exit case status ≡ passed
unfolding check_exit
passed-exit case status h = elim (Bool-cases case.expect_clean_exit) [
  | inl c ↦
      ground (arith, passed-status case status h.exact, status_is_iff (pos 0) status, h.clean c)
  | inr c ↦
      ground (arith, passed-status case status h.exact, status_is_iff (pos 0) status, h.failing c)
]

after-passed :
    (case : Case) (status : Option ℤ) (out : Text) (m : Matched)
    → (after_match case out status (some m) ≡ passed) ↔ ((m ≡ placed) × ExitIs case status)
after-passed case status out placed =
    (λ h. (refl, exit-passed case status h), λ h. passed-exit case status h.1)
after-passed case status out _ = (λ h. cc, λ h. absurd (cc (h.0)))

-- A case whose templates format to these texts passes exactly when the run ended by itself, the
-- texts have places in order in the console (without the kernel's lines, if the case asks), and the exit status is as asked.
pub check-passed :
    (case : Case) (arch : Arch) (status : Option ℤ) (out : Text) (timed_out : Bool)
    (wants : List Text)
    → Formats (expectations arch) (expected_list case.expect_out) wants
    → (check case arch status out timed_out ≡ passed) ↔ (
        (timed_out ≡ false)
        × Placed case.overlapping_matches (haystack case out) wants 0
        × ExitIs case status)
check-passed case arch status out true wants h = unfold check in (λ e. cc, λ e. absurd (cc (e.0)))
check-passed case arch status out false wants h =
    let hay = haystack case out in
    let step_one = case.overlapping_matches in
    let raws = expected_list case.expect_out in
    let m = match_expected-Formats (expectations arch) step_one hay raws wants 0 h in
    let after = after-passed case status out (match_in_order step_one hay wants 0) in
    let places = match-Placed step_one hay wants 0 in
    unfold check in
    rw m (λ e. (refl, places.0 (after.0 e).0, (after.0 e).1), λ e. after.1 (places.1 e.1, e.2))
