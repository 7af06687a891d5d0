-- ===== src/Toolchain/Report.antt =====
-- `main` of tools/toolchain.py: the report of what would be resolved.
use sawos.Prelude.{
  ℕ, ◌-◌, ◌≡◌, ◌↔◌, refl, List, [], ◌∷◌, ◌++◌, Option, none, some, arith, length, replicate,
  Option-cases, inl, inr,
}
use sawos.Text.{Text, codes, text_eq}
use sawos.Text.Format.{field}
use sawos.Toolchain.{
  Result, ok, err, os_error, truthy, Toolchain, sawc_env_value, require_root, module_source,
}

-- `f"{name:<11}"`
abbrev padded : ℕ → Text → Text
padded width s = s ++ replicate (width - length s) b' '

abbrev shown : Option Text → Text → Text
shown (some s) default = s
shown none default = default

-- `sorted(MODULE_DIRS)`
abbrev pub module_names : List Text
module_names = codes "imgformat" ∷ codes "semver" ∷ codes "toml" ∷ []

module _ (tc : Toolchain) where
  abbrev and_line : Text → Result Text → Result (List Text) → Result (List Text)
  and_line name (ok dir) (ok rest) =
      ok ((codes "  " ++ (padded 11 name ++ (codes ": " ++ dir))) ∷ rest)
  and_line name (ok dir) failed = failed
  and_line name (err e) rest = err e
  and_line name os_error rest = os_error

  unfoldable pub module_lines : List Text → Result (List Text)
  unfolding module_source
  module_lines [] = ok []
  module_lines (name ∷ names) = and_line name (module_source tc name) (module_lines names)

  abbrev lines_with : Result (List Text) → Result (List Text)
  lines_with (ok modules) = ok (
      tc.notes
      ++ (codes "resolved via : " ++ tc.source)
        ∷ (codes "sawc         : " ++ sawc_env_value tc)
        ∷ (codes "blade        : " ++ shown (truthy tc.blade_bin) (codes "(build from source)"))
        ∷ (codes "root         : " ++ shown (truthy tc.root) (codes "(none — executables only)"))
        ∷ modules)
  lines_with (err e) = err e
  lines_with os_error = os_error

  abbrev if_root : Option Text → Result (List Text)
  if_root none = ok []
  if_root (some _) = module_lines module_names

  -- What is printed for a toolchain.
  unfoldable pub report_lines : Result (List Text)
  unfolding module_lines sawc_env_value
  report_lines = lines_with (if_root (truthy tc.root))

-- The exit status: 1 for a refusal, and for another exception; else the lines are printed.
abbrev pub status_of_lines : Result (List Text) → ℕ
status_of_lines (ok _) = 0
status_of_lines (err _) = 1
status_of_lines os_error = 1

unfoldable pub report_status : Result Toolchain → ℕ
unfolding report_lines
report_status (ok tc) = status_of_lines (report_lines tc)
report_status (err _) = 1
report_status os_error = 1

module _ (tc : Toolchain) (root : Text) (e : truthy tc.root ≡ some root) where
  all_modules : (lines : List Text) × (module_lines tc module_names ≡ ok lines)
  unfolding module_lines module_source require_root field text_eq
  all_modules = rw (e, require_root) (_, refl)

never_fails : (tc : Toolchain) → status_of_lines (report_lines tc) ≡ 0
unfolding report_lines
never_fails tc = elim (Option-cases (truthy tc.root)) [
  | inl e ↦ rw (e, report_lines) refl
  | inr (root, e) ↦
      let (lines, q) = all_modules tc root e in rw (e, report_lines) (rw (q, lines_with) refl)
]

-- The report of a toolchain never fails: one with a checkout owns every package that is listed.
pub report_status-ok :
    (r : Result Toolchain) → (report_status r ≡ 0) ↔ ((tc : Toolchain) × (r ≡ ok tc))
unfolding report_status
report_status-ok (ok tc) = (λ _. (tc, refl), λ _. never_fails tc)
report_status-ok (err x) = (λ h. absurd (omega (arith, h)), λ (tc, q). absurd (cc (q)))
report_status-ok os_error = (λ h. absurd (omega (arith, h)), λ (tc, q). absurd (cc (q)))
