-- ===== src/Text/Find.antt =====
-- The places that `find` looks for.
use sawos.Prelude.{
  ℕ, zero, suc, ◌+◌, ◌-◌, ◌≤◌, ◌<◌, ◌≡◌, true, false, [], ◌∷◌, Option, none, some, arith, leb, inl,
  inr, Bool-cases, length, drop, length-drop, drop-drop,
}
use sawos.Text.{Text, starts_with, find_at, find}

-- The text `p` stands in `s` at position `i`.
pub record OccursAt (p : Text) (s : Text) (i : ℕ) : Type 0 where
  pub inside : i ≤ length s
  pub here : starts_with p (drop i s) ≡ true

pub OccursAt-cons :
    (p : Text) (c : ℕ) (s : Text) (i : ℕ) → OccursAt p s i → OccursAt p (c ∷ s) (suc i)
OccursAt-cons p c s i o = record { inside = omega arith; here = o.here }

pub OccursAt-uncons :
    (p : Text) (c : ℕ) (s : Text) (i : ℕ) → OccursAt p (c ∷ s) (suc i) → OccursAt p s i
OccursAt-uncons p c s i o = record { inside = omega arith; here = o.here }

-- What a search from position `start` promises of its result.
abbrev pub FirstAt : Text → Text → ℕ → Option ℕ → Type 0
FirstAt p s start none = (j : ℕ) → start ≤ j → ¬ OccursAt p s j
FirstAt p s start (some i) =
    (start ≤ i) × OccursAt p s i × ((j : ℕ) → start ≤ j → OccursAt p s j → i ≤ j)

-- The same, for a search that counts positions from `at`.
abbrev FoundFrom : Text → Text → ℕ → Option ℕ → Type 0
FoundFrom p s at none = (j : ℕ) → ¬ OccursAt p s j
FoundFrom p s at (some i) =
    (at ≤ i) × OccursAt p s (i - at) × ((j : ℕ) → OccursAt p s j → i ≤ at + j)

module _ (p : Text) (c : ℕ) (s : Text) (at : ℕ) (no_head : starts_with p (c ∷ s) ≡ false) where
  none_cons : ((j : ℕ) → ¬ OccursAt p s j) → (j : ℕ) → ¬ OccursAt p (c ∷ s) j
  none_cons h zero = λ o. ground (arith, o.here)
  none_cons h (suc j) = λ o. h j (OccursAt-uncons p c s j o)

  least_cons :
      (i : ℕ)
      → ((j : ℕ) → OccursAt p s j → i ≤ suc at + j)
      → (j : ℕ) → OccursAt p (c ∷ s) j
      → i ≤ at + j
  least_cons i least zero o = ground (arith, o.here)
  least_cons i least (suc j) o = omega (arith, least j (OccursAt-uncons p c s j o))

  FoundFrom-cons : (r : Option ℕ) → FoundFrom p s (suc at) r → FoundFrom p (c ∷ s) at r
  FoundFrom-cons none h = none_cons h
  FoundFrom-cons (some i) (le, o, least) =
      let e : i - at ≡ suc (i - suc at) = omega arith in
      (omega arith, rw e (OccursAt-cons p c s (i - suc at) o), least_cons i least)

FoundFrom-head : (p s : Text) (at : ℕ) → starts_with p s ≡ true → FoundFrom p s at (some at)
FoundFrom-head p s at e =
    let z : at - at ≡ 0 = omega arith in
    (omega arith, rw z (record { inside = omega arith; here = e }), λ j o. omega arith)

not-OccursAt-nil : (p : Text) → starts_with p [] ≡ false → (j : ℕ) → ¬ OccursAt p [] j
not-OccursAt-nil p e zero = λ o. ground (arith, o.here)
not-OccursAt-nil p e (suc j) = λ o. absurd (omega (arith, o.inside))

find_at-FoundFrom : (p s : Text) (at : ℕ) → FoundFrom p s at (find_at p s at)
unfolding find_at
find_at-FoundFrom p [] at = elim (Bool-cases (starts_with p [])) [
  | inl e ↦ rw e (FoundFrom-head p [] at e)
  | inr e ↦ rw e (not-OccursAt-nil p e)
]
find_at-FoundFrom p (c ∷ s) at = elim (Bool-cases (starts_with p (c ∷ s))) [
  | inl e ↦ rw e (FoundFrom-head p (c ∷ s) at e)
  | inr e ↦ rw e (FoundFrom-cons p c s at e (find_at p s (suc at)) (find_at-FoundFrom p s (suc at)))
]

OccursAt-drop : (p s : Text) (n j : ℕ) → n ≤ j → OccursAt p s j → OccursAt p (drop n s) (j - n)
OccursAt-drop p s n j le o = record {
  inside = omega (arith, length-drop n s);
  here = rw (drop-drop s (j - n) n j (omega arith)) o.here;
}

OccursAt-undrop :
    (p s : Text) (n i : ℕ) → n ≤ i → n ≤ length s → OccursAt p (drop n s) (i - n) → OccursAt p s i
OccursAt-undrop p s n i le fits o = record {
  inside = omega (arith, o.inside, length-drop n s);
  here = rw (drop-drop s (i - n) n i (omega arith)) at o.here;
}

FirstAt-drop :
    (p s : Text) (n : ℕ) (r : Option ℕ)
    → n ≤ length s
    → FoundFrom p (drop n s) n r
    → FirstAt p s n r
FirstAt-drop p s n none fits h = λ j le o. h (j - n) (OccursAt-drop p s n j le o)
FirstAt-drop p s n (some i) fits (le, o, least) = (
  le,
  OccursAt-undrop p s n i le fits o,
  λ j lj oj. omega (arith, least (j - n) (OccursAt-drop p s n j lj oj)),
)

-- `find` returns the first place at or after the start, and nothing exactly when there is none.
pub find-FirstAt : (p s : Text) (start : ℕ) → FirstAt p s start (find p s start)
unfolding find
find-FirstAt p s start = elim (Bool-cases (leb start (length s))) [
  | inl e ↦ rw e (
      FirstAt-drop p s start (find_at p (drop start s) start) (ground arith)
        (find_at-FoundFrom p (drop start s) start))
  | inr e ↦ rw e (λ j le o. absurd (omega (arith, o.inside, past e)))
]
  where
    past : leb start (length s) ≡ false → length s < start
    past e = ground arith
