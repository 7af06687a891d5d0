-- ===== src/Check/Matching.antt =====
-- The ordered match of `_check`: each expected text is sought where the previous one ended.
use sawos.Prelude.{
  ℕ, ◌+◌, ◌≤◌, ◌≡◌, ◌↔◌, refl, Bool, true, false, List, [], ◌∷◌, none, some, arith, length,
  if◌then◌else◌, ◌∙◌, sym, inl, inr, ◌≢◌, Option-cases,
}
use sawos.Text.{Text, contains, find}
use sawos.Text.Find.{OccursAt, find-FirstAt}

-- How far the cursor moves past a match.
abbrev pub advance : Bool → Text → ℕ
advance step_one want = if step_one then 1 else length want

-- Either every text was placed, or this one was not, and it stands elsewhere in the output or not.
pub data Matched : Type 0 where
  placed : Matched
  out_of_order missing : Text → Matched

-- The loop over `expected`.
unfoldable pub match_in_order : Bool → Text → List Text → ℕ → Matched
match_in_order step_one hay [] cursor = placed
match_in_order step_one hay (want ∷ wants) cursor = elim (find want hay cursor) [
  | none ↦ if contains want hay then out_of_order want else missing want
  | some at ↦ match_in_order step_one hay wants (at + advance step_one want)
]

-- What the loop decides: the texts have places in the output, each at or after the cursor that the
-- one before it leaves.
abbrev pub Placed : Bool → Text → List Text → ℕ → Type 0
Placed step_one hay [] cursor = Unit
Placed step_one hay (want ∷ wants) cursor =
    (i : ℕ) × (cursor ≤ i)
    × OccursAt want hay i
    × Placed step_one hay wants (i + advance step_one want)

-- An earlier cursor loses no placement.
Placed-earlier :
    (step_one : Bool) (hay : Text) (wants : List Text) (c d : ℕ)
    → c ≤ d
    → Placed step_one hay wants d
    → Placed step_one hay wants c
Placed-earlier step_one hay [] c d le h = tt
Placed-earlier step_one hay (w ∷ ws) c d le (i, ci, o, p) = (i, omega arith, o, p)

module _ (step_one : Bool) (hay : Text) where
  -- One round, by what `find` returned.
  round_none :
      (want : Text) (wants : List Text) (cursor : ℕ)
      → find want hay cursor ≡ none
      → match_in_order step_one hay (want ∷ wants) cursor
        ≡ (if contains want hay then out_of_order want else missing want)
  unfolding match_in_order
  round_none want wants cursor e = rw (e, match_in_order)

  round_some :
      (want : Text) (wants : List Text) (cursor at : ℕ)
      → find want hay cursor ≡ some at
      → match_in_order step_one hay (want ∷ wants) cursor
        ≡ match_in_order step_one hay wants (at + advance step_one want)
  unfolding match_in_order
  round_some want wants cursor at e = rw (e, match_in_order)

  not_placed :
      (want : Text) (found : Bool) → (if found then out_of_order want else missing want) ≢ placed
  not_placed want found = ground arith

  -- The match, which takes the first place for each text, succeeds exactly when the texts have places
  -- in order at all: each at or after the place of the one before it and what that moves the cursor.
  pub match-Placed :
      (wants : List Text) (cursor : ℕ)
      → (match_in_order step_one hay wants cursor ≡ placed) ↔ Placed step_one hay wants cursor
  match-Placed [] cursor = unfold match_in_order in (λ _. tt, λ _. refl)
  match-Placed (w ∷ ws) cursor = elim (Option-cases (find w hay cursor)) [
    | inl e ↦ (
      λ h. absurd (not_placed w (contains w hay) (sym (round_none w ws cursor e) ∙ h)),
      λ (i, ci, o, p). absurd ((rw e at (find-FirstAt w hay cursor)) i ci o),
    )
    | inr (at, e) ↦
        let (ca, oa, least) = rw e at (find-FirstAt w hay cursor) in
        let ih = match-Placed ws (at + advance step_one w) in
        (
          λ h. (at, ca, oa, ih.0 (sym (round_some w ws cursor at e) ∙ h)),
          λ (i, ci, o, p).
              round_some w ws cursor at e
              ∙ ih.1 (
                  Placed-earlier step_one hay ws (at + advance step_one w) (i + advance step_one w)
                    (omega (arith, least i ci o)) p),
        )
  ]

  -- What the report of a failed match says of the text that it names.
  abbrev pub BlameIsRight : Matched → Type 0
  BlameIsRight placed = Unit
  BlameIsRight (out_of_order want) = (i : ℕ) × OccursAt want hay i
  BlameIsRight (missing want) = (i : ℕ) → ¬ OccursAt want hay i

  blame :
      (want : Text) → BlameIsRight (if contains want hay then out_of_order want else missing want)
  unfolding contains
  blame want = elim (Option-cases (find want hay 0)) [
    | inl e ↦ rw (contains-none e) (λ i o. (rw e at (find-FirstAt want hay 0)) i (omega arith) o)
    | inr (i, e) ↦ rw (contains-some i e) (i, (rw e at (find-FirstAt want hay 0)).1)
  ]
    where
      contains-none : find want hay 0 ≡ none → contains want hay ≡ false
      contains-none e = ground arith

      contains-some : (i : ℕ) → find want hay 0 ≡ some i → contains want hay ≡ true
      contains-some i e = ground arith

  -- A text reported `out of order` stands somewhere in the output; one reported `missing` does not.
  pub match-BlameIsRight :
      (wants : List Text) (cursor : ℕ) → BlameIsRight (match_in_order step_one hay wants cursor)
  match-BlameIsRight [] cursor = unfold match_in_order in tt
  match-BlameIsRight (w ∷ ws) cursor = elim (Option-cases (find w hay cursor)) [
    | inl e ↦ rw (round_none w ws cursor e) (blame w)
    | inr (at, e) ↦
        rw (round_some w ws cursor at e) (match-BlameIsRight ws (at + advance step_one w))
  ]
