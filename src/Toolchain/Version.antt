-- ===== src/Toolchain/Version.antt =====
-- `_probe_version` and `_check_version` of tools/toolchain.py.
use sawos.Prelude.{
  ◌≡◌, ◌≢◌, ◌↔◌, inl, inr, List, [], ◌∷◌, ◌++◌, Option, none, some, arith, if◌then◌else◌,
  Option-cases,
}
use sawos.Prelude.Int.{pos, int_eq}
use sawos.Text.{Text, codes, text_eq}
use sawos.Text.Equality.{text_eq_iff}
use sawos.Text.Format.{Fields, field}
use sawos.Text.Split.{strip, words}
use sawos.Toolchain.{Result, ok, err, truthy, silent_sawc, wrong_version}
use sawos.Toolchain.Os.{Os, Finished}

-- Two words, of which the first is the compiler's name.
abbrev version_in : List Text → Option Text
version_in (name ∷ version ∷ []) = if text_eq name (codes "sawc") then some version else none
version_in _ = none

-- `r.stdout or r.stderr`
abbrev output_of : Finished → Text
output_of r = elim r.stdout [ [] ↦ r.stderr | c ∷ s ↦ c ∷ s ]

unfoldable pub probe_version : {C : Type 0} → Os C → List Text → Option Text
unfolding words strip text_eq
probe_version os argv = elim (os.version_run (argv ++ codes "--version" ∷ [])) [
  | none ↦ none
  | some r ↦ if int_eq r.returncode (pos 0) then version_in (words (strip (output_of r))) else none
]

-- The version that the pin asks for, if there is a pin and it has one.
abbrev pub required : Option Fields → Option Text
required none = none
required (some pin) = field pin (codes "version")

abbrev unpinned_note : Text → Option Text → Text
unpinned_note where_ found =
    codes "note: using the unpinned `sawc` at "
    ++ (where_
        ++ ((elim (truthy found) [ none ↦ [] | some v ↦ codes " (version " ++ (v ++ codes ")") ])
            ++ codes " — no sawlang.pin states which version is required."))

-- The notes with what this check adds, or the refusal.
unfoldable pub check_version :
    {C : Type 0} → Os C → List Text → Option Fields → Text → List Text → Result (List Text)
check_version os argv pin where_ notes = elim (required pin) [
  | none ↦ ok (notes ++ unpinned_note where_ (probe_version os argv) ∷ [])
  | some want ↦ elim (probe_version os argv) [
    | none ↦ err (silent_sawc where_ want)
    | some found ↦ if text_eq found want then ok notes else err (wrong_version found want where_)
  ]
]

-- A pinned version is accepted exactly when the compiler names itself so, and then without a note.
pub check_version-pinned :
    {C : Type 0} (os : Os C) (argv : List Text) (pin : Option Fields) (where_ : Text)
    (notes out : List Text) (want : Text)
    → required pin ≡ some want
    → (check_version os argv pin where_ notes ≡ ok out)
      ↔ ((probe_version os argv ≡ some want) × (out ≡ notes))
unfolding check_version
check_version-pinned os argv pin where_ notes out want e =
    elim (Option-cases (probe_version os argv)) [
      | inl q ↦ ground arith
      | inr (found, q) ↦ ground (arith, text_eq_iff found want)
    ]

-- Where the compiler names another version than the pinned one, it is refused, with both versions.
pub check_version_mismatch :
    {C : Type 0} (os : Os C) (argv : List Text) (pin : Option Fields) (where_ : Text)
    (notes : List Text) (want found : Text)
    → required pin ≡ some want
    → probe_version os argv ≡ some found
    → found ≢ want
    → check_version os argv pin where_ notes ≡ err (wrong_version found want where_)
unfolding check_version
check_version_mismatch os argv pin where_ notes want found e q n =
    ground (arith, text_eq_iff found want)
