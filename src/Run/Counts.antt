-- ===== src/Run/Counts.antt =====
-- The counts of tools/sos_runner.py, one verdict, one build phase and one architecture at a time.
use sawos.Prelude.{
  ℕ, suc, ◌+◌, ◌≡◌, ◌≢◌, ◌↔◌, refl, All-map, All-zip, Bool, true, false, List, [], ◌∷◌, Option,
  none, some, arith, length, All,
}
use sawos.Case.{Case}
use sawos.Build.{Built, built, tool_error, escaped}
use sawos.Check.{Verdict, passed, raised, failed}
use sawos.Run.{Counts, tally, total, with_images, phases, status_of, verdict_of}

-- The run ended with no failure counted.
abbrev pub Clean : Option Counts → Type 0
Clean o = (p : ℕ) × (o ≡ some (p, 0))

pub tally-Clean :
    (r : Option Bool) (rest : Option Counts) → Clean (tally r rest) ↔ ((r ≡ some true) × Clean rest)
tally-Clean none rest = ground arith
tally-Clean (some ok) none = ground arith
tally-Clean (some true) (some (p, f)) =
    (λ (q, e). (refl, (p, ground arith)), λ (_, (q, e)). (suc p, ground arith))
tally-Clean (some false) (some (p, f)) = ground arith

pub total-Clean : (n rest : Option Counts) → Clean (total n rest) ↔ (Clean n × Clean rest)
total-Clean none rest = ground arith
total-Clean (some n) none = ground arith
total-Clean (some (p, f)) (some (q, g)) =
    (λ (r, e). ((p, ground arith), (q, ground arith)), λ ((r, e), (t, i)). (p + q, ground arith))

pub status_of-Clean : (o : Option Counts) → (status_of o ≡ 0) ↔ Clean o
status_of-Clean none = ground arith
status_of-Clean (some (p, f)) = (λ h. (p, ground arith), λ (q, e). ground arith)

pub verdict_of-passed : (v : Verdict) → (verdict_of v ≡ some true) ↔ (v ≡ passed)
verdict_of-passed passed = (λ _. refl, λ _. refl)
verdict_of-passed raised = ground arith
verdict_of-passed (failed r) = ground arith

pub length-tally :
    (r : Option Bool) (rest : Option Counts) (k : ℕ) (n : Counts)
    → ((m : Counts) → rest ≡ some m → m.0 + m.1 ≡ k)
    → tally r rest ≡ some n
    → n.0 + n.1 ≡ suc k
length-tally none rest k n ih h = ground arith
length-tally (some ok) none k n ih h = ground arith
length-tally (some true) (some m) k n ih h = ground (arith, ih m refl)
length-tally (some false) (some m) k n ih h = ground (arith, ih m refl)

pub with_images-length :
    (images : Built (Unit {0})) (k : ℕ) (counts : Option Counts)
    → ((m : Counts) → counts ≡ some m → m.0 + m.1 ≡ k)
    → (m : Counts) → with_images images counts ≡ some m
    → m.0 + m.1 ≡ k
with_images-length (built _) k counts ih m h = ih m h
with_images-length tool_error k counts ih m h = cc
with_images-length escaped k counts ih m h = cc

pub with_images-Clean :
    (images : Built (Unit {0})) (counts : Option Counts)
    → Clean (with_images images counts) ↔ ((images ≡ built tt) × Clean counts)
with_images-Clean (built _) counts = (λ h. (refl, h), λ (_, h). h)
with_images-Clean tool_error counts = (λ (p, e). absurd (cc (e)), λ (e, _). absurd (cc (e)))
with_images-Clean escaped counts = (λ (p, e). absurd (cc (e)), λ (e, _). absurd (cc (e)))

pub phases-length :
    (shared packages : Built (Unit {0})) (cs : List Case) (counts : Option Counts) (n : Counts)
    → ((m : Counts) → counts ≡ some m → m.0 + m.1 ≡ length cs)
    → phases shared packages cs counts ≡ some n
    → n.0 + n.1 ≡ length cs
phases-length (built _) (built _) cs counts n ih h = ih n h
phases-length (built _) tool_error cs counts n ih h = ground arith
phases-length (built _) escaped cs counts n ih h = cc
phases-length tool_error packages cs counts n ih h = ground arith
phases-length escaped packages cs counts n ih h = cc

pub phases-Clean :
    (shared packages : Built (Unit {0})) (cs : List Case) (counts : Option Counts)
    (Q R : Case → Type 0)
    → (packages ≡ built tt) ↔ All Q cs
    → Clean counts ↔ All R cs
    → Clean (phases shared packages cs counts)
      ↔ ((shared ≢ escaped) × All (λ c. (shared ≡ built tt) × Q c × R c) cs)
phases-Clean (built _) (built _) cs counts Q R b ran = (
  λ h. ((λ e. cc), All-zip (λ c q r. (refl, q, r)) cs (b.0 refl) (ran.0 h)),
  λ (_, h). ran.1 (All-map (λ c (_, _, r). r) cs h),
)
phases-Clean (built _) tool_error [] counts Q R b ran = (λ _. ((λ e. cc), tt), λ _. (0, refl))
phases-Clean (built _) tool_error (c ∷ cs) counts Q R b ran = (
  λ (p, e). absurd (ground arith),
  λ (_, h).
      let e : tool_error ≡ built tt = b.1 (All-map (λ d (_, q, _). q) (c ∷ cs) h) in
      absurd (cc (e)),
)
phases-Clean (built _) escaped cs counts Q R b ran = (
  λ (p, e). absurd (cc (e)),
  λ (_, h). let e : escaped ≡ built tt = b.1 (All-map (λ d (_, q, _). q) cs h) in absurd (cc (e)),
)
phases-Clean tool_error packages [] counts Q R b ran = (λ _. ((λ e. cc), tt), λ _. (0, refl))
phases-Clean tool_error packages (c ∷ cs) counts Q R b ran =
    (λ (p, e). absurd (ground arith), λ (_, ((s, _, _), _)). absurd (cc (s)))
phases-Clean escaped packages cs counts Q R b ran =
    (λ (p, e). absurd (cc (e)), λ (n, _). absurd (n refl))
