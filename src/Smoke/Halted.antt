-- ===== src/Smoke/Halted.antt =====
-- When `c3_run` of tools/sos_runner.py says that the kernel halted.
use mathlib.Core.Bool.{false≢true}
use sawos.Prelude.{
  ℕ, zero, suc, ◌≡◌, ◌↔◌, inl, inr, refl, sym, ◌∙◌, Bool, true, false, List, [], ◌∷◌, ◌++◌, arith,
  Bool-cases, Option-cases,
}
use sawos.Text.{Text, contains, starts_with, find}
use sawos.Text.Find.{OccursAt, OccursAt-cons, OccursAt-uncons, find-FirstAt}
use sawos.Smoke.Console.{Poll, ready, quiet, gone, halt_line, drained, collect, c3_run}

starts_with-append : (p s t : Text) → starts_with p s ≡ true → starts_with p (s ++ t) ≡ true
unfolding starts_with
starts_with-append [] s t h = refl
starts_with-append (c ∷ p) [] t h = absurd (false≢true h)
starts_with-append (c ∷ p) (d ∷ s) t h = ground (arith, starts_with-append p s t)

OccursAt-append : (p s t : Text) (i : ℕ) → OccursAt p s i → OccursAt p (s ++ t) i
OccursAt-append p s t zero o = record {
  inside = omega arith;
  here = starts_with-append p s t o.here;
}
OccursAt-append p [] t (suc i) o = absurd (omega (arith, o.inside))
OccursAt-append p (c ∷ s) t (suc i) o =
    OccursAt-cons p c (s ++ t) i (OccursAt-append p s t i (OccursAt-uncons p c s i o))

contains-OccursAt : (p s : Text) → contains p s ≡ true → (i : ℕ) × OccursAt p s i
unfolding contains
contains-OccursAt p s h = elim (Option-cases (find p s 0)) [
  | inl e ↦ absurd (false≢true (rw (e, contains) at h))
  | inr (i, e) ↦ (i, (rw e at (find-FirstAt p s 0)).1)
]

OccursAt-contains : (p s : Text) (i : ℕ) → OccursAt p s i → contains p s ≡ true
unfolding contains
OccursAt-contains p s i o = elim (Option-cases (find p s 0)) [
  | inl e ↦ absurd ((rw e at (find-FirstAt p s 0)) i (omega arith) o)
  | inr (j, e) ↦ rw (e, contains) refl
]

contains-append : (p s t : Text) → contains p s ≡ true → contains p (s ++ t) ≡ true
contains-append p s t h =
    let (i, o) = contains-OccursAt p s h in
    OccursAt-contains p (s ++ t) i (OccursAt-append p s t i o)

drained-contains :
    (p out : Text) (polls : List Poll)
    → contains p out ≡ true
    → contains p (drained out polls) ≡ true
unfolding drained
drained-contains p out [] h = h
drained-contains p out (ready [] ∷ polls) h = h
drained-contains p out (ready (c ∷ chunk) ∷ polls) h =
    drained-contains p (out ++ c ∷ chunk) polls (contains-append p out (c ∷ chunk) h)
drained-contains p out (quiet ∷ polls) h = drained-contains p out polls h
drained-contains p out (gone ∷ polls) h = drained-contains p out polls h

-- The answer says what the console holds.
abbrev Tells : Text × Bool → Type 0
Tells (out, halted) = (halted ≡ true) ↔ (contains halt_line out ≡ true)

not_yet-Tells : (out : Text) → contains halt_line out ≡ false → Tells (out, false)
not_yet-Tells out h = (λ e. absurd (false≢true e), λ e. absurd (false≢true (sym h ∙ e)))

collect-Tells :
    (drain : List Poll) (out : Text) (polls : List Poll)
    → contains halt_line out ≡ false
    → Tells (collect drain out polls)
unfolding collect
collect-Tells drain out [] h = not_yet-Tells out h
collect-Tells drain out (ready [] ∷ polls) h = not_yet-Tells out h
collect-Tells drain out (ready (c ∷ chunk) ∷ polls) h =
    elim (Bool-cases (contains halt_line (out ++ c ∷ chunk))) [
      | inl e ↦
          rw (e, collect) ((λ _. drained-contains halt_line (out ++ c ∷ chunk) drain e), λ _. refl)
      | inr e ↦ rw (e, collect) (collect-Tells drain (out ++ c ∷ chunk) polls e)
    ]
collect-Tells drain out (quiet ∷ polls) h = collect-Tells drain out polls h
collect-Tells drain out (gone ∷ polls) h = not_yet-Tells out h

-- However the guest's output is cut into chunks, and wherever the deadline falls: the run is reported
-- as halted exactly when the console that it returns holds the kernel's halt line.
pub c3_run-halted :
    (polls drain : List Poll)
    → ((c3_run polls drain).1 ≡ true) ↔ (contains halt_line (c3_run polls drain).0 ≡ true)
unfolding c3_run
c3_run-halted polls drain = collect-Tells drain [] polls no_halt
  where
    no_halt : contains halt_line [] ≡ false
    no_halt = refl
