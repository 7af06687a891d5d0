-- ===== src/Emulator/Judged.antt =====
-- The verdict of `run_case` on what `_run_qemu` returns: from the guest's own run to the verdict.
use sawos.Prelude.{◌≡◌, ◌↔◌, Bool, false, List, Option, none, some}
use sawos.Prelude.Int.{ℤ}
use sawos.Text.{Text}
use sawos.Arch.{Arch, expectations}
use sawos.Case.{Case}
use sawos.Build.{built}
use sawos.Check.{passed, check, haystack, expected_list}
use sawos.Check.Matching.{Placed}
use sawos.Check.Accept.{Formats, ExitIs, check-passed}
use sawos.Run.{Ran, Output, judge, transcript}
use sawos.Emulator.{Guest, ended, State, start, Steps}
use sawos.Emulator.Answers.{IsAnswer}
use sawos.Emulator.Typed.{Steps-IsRun}

-- The guest ended by itself, as the case asks, and has written the texts in their order.
abbrev pub Earned : (Text → Option Text) → Case → List Text → Text → Guest → Type 0
Earned decode case wants written guest =
    (status : ℤ) × (t : Text) × (guest ≡ ended status)
    × (decode written ≡ some t)
    × Placed case.overlapping_matches (haystack case t) wants 0
    × ExitIs case (some status)

same_end :
    (o : Option Text) (guest : Guest) (s t : ℤ) (x y : Text)
    → guest ≡ ended s
    → guest ≡ ended t
    → o ≡ some x
    → o ≡ some y
    → (s ≡ t) × (x ≡ y)
same_end o guest s t x y e f p q = (cc, cc)

module _ (case : Case) (arch : Arch) (wants : List Text)
    (h : Formats (expectations arch) (expected_list case.expect_out) wants)
    (decode : Text → Option Text) where
  answer-Earned :
      (status : Option ℤ) (out : Output) (timed_out : Bool) (written : Text) (guest : Guest)
      → IsAnswer decode case.stdin written guest
          (some (built (record { status = status; out = out; timed_out = timed_out })))
      → (check case arch status (transcript out) timed_out ≡ passed)
        ↔ ((timed_out ≡ false) × Earned decode case wants written guest)
  answer-Earned none out timed_out written guest (n, (late, _)) =
      let iff = check-passed case arch none (transcript out) timed_out wants h in
      (λ e. absurd (cc (late, (iff.0 e).0)), λ (e, _). absurd (cc (late, e)))
  answer-Earned (some status) out timed_out written guest (n, (f, g, t, d, o)) =
      let iff = check-passed case arch (some status) (transcript out) timed_out wants h in
      (
        λ e. let (f, p, x) = iff.0 e in (f, (status, t, g, d, rw o at p, x)),
        λ (e, (other, u, q, c, p, x)).
            let (es, et) = same_end (decode written) guest status other t u g q d c in
            iff.1 (e, rw (o, et) p, rw es x),
      )

  -- On a case whose templates format to these texts, a run of QEMU that types the case's input, in any
  -- order of the typist, the guest and the deadline, and that raises nothing, is judged as passed
  -- exactly when it was not out of time, the guest ended by itself with an exit status that the case
  -- asks for, and all that the guest wrote, decoded (without the kernel's lines, if the case asks),
  -- holds the texts in order.
  pub judge-Earned :
      (s : State) (ran : Ran)
      → Steps decode (start case.stdin) s
      → s.returned ≡ some (built ran)
      → (judge arch case ran ≡ passed)
        ↔ ((ran.timed_out ≡ false) × Earned decode case wants s.written s.guest)
  judge-Earned s ran steps e =
      answer-Earned ran.status ran.out ran.timed_out s.written s.guest
        (rw e at (Steps-IsRun decode case.stdin s steps).answer)
