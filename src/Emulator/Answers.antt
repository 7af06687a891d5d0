-- ===== src/Emulator/Answers.antt =====
-- What `_run_qemu` of tools/sos_runner.py returns, in terms of the guest.
use sawos.Prelude.{◌≡◌, ◌≢◌, refl, true, false, ◌++◌, Option, none, some}
use sawos.Prelude.Int.{ℤ}
use sawos.Text.{Text}
use sawos.Build.{Built, built, tool_error, escaped}
use sawos.Run.{Ran, Output, decoded}
use sawos.Emulator.{Typist, absent, Guest, running, ended, killed, communicated, partial_output}

-- Without input there is no typist, and so no end of the console.
abbrev pub SameKind : Option Text → Typist → Type 0
SameKind none t = t ≡ absent
SameKind (some _) t = t ≢ absent

-- The output of a run that was out of time. With input it is all that the guest wrote, decoded; without,
-- what it wrote first, not decoded, or nothing.
abbrev pub IsLate : (Text → Option Text) → Option Text → Text → Output → Type 0
IsLate decode (some _) written out = (t : Text) × (decode written ≡ some t) × (out ≡ decoded t)
IsLate decode none written out =
    (got : Text) × (unread : Text) × (written ≡ got ++ unread) × (out ≡ partial_output got)

-- What is returned, once the guest is gone: a status is the guest's own and comes with all that it
-- wrote, decoded; without one the time was over; and an exception says that what it wrote is no text.
abbrev pub IsAnswer :
    (Text → Option Text) → Option Text → Text → Guest → Option (Built Ran) → Type 0
IsAnswer decode feed written guest none = guest ≢ killed
IsAnswer decode feed written guest (some tool_error) = ⊥
IsAnswer decode feed written guest (some escaped) = (guest ≢ running) × (decode written ≡ none)
IsAnswer decode feed written guest (some (built ran)) = (guest ≢ running) × elim ran.status [
  | none ↦ (ran.timed_out ≡ true) × IsLate decode feed written ran.out
  | some status ↦
      (ran.timed_out ≡ false)
      × (guest ≡ ended status)
      × (t : Text) × (decode written ≡ some t)
      × (ran.out ≡ decoded t)
]

-- While the guest runs, nothing has been returned.
pub running-IsAnswer :
    (decode : Text → Option Text) (feed : Option Text) (w w' : Text) (g g' : Guest)
    (r : Option (Built Ran))
    → g ≡ running
    → IsAnswer decode feed w g r
    → g' ≢ killed
    → IsAnswer decode feed w' g' r
running-IsAnswer decode feed w w' g g' none e h n = n
running-IsAnswer decode feed w w' g g' (some (built ran)) e (n, _) _ = absurd (n e)
running-IsAnswer decode feed w w' g g' (some tool_error) e h _ = elim h [ ]
running-IsAnswer decode feed w w' g g' (some escaped) e (n, _) _ = absurd (n e)

-- The guest's own end, and the deadline with input and without.
pub returned-IsAnswer :
    (decode : Text → Option Text) (feed : Option Text) (w : Text) (g : Guest) (status : ℤ)
    (o : Option Text)
    → decode w ≡ o
    → g ≡ ended status
    → IsAnswer decode feed w g (some (communicated (some status) false o))
returned-IsAnswer decode feed w g status none e q = (rw q (λ k. cc), e)
returned-IsAnswer decode feed w g status (some t) e q = (rw q (λ k. cc), (refl, q, t, e, refl))

pub expired-IsAnswer :
    (decode : Text → Option Text) (feed : Option Text) (typist : Typist) (w : Text) (g : Guest)
    (o : Option Text)
    → decode w ≡ o
    → SameKind feed typist
    → typist ≢ absent
    → g ≢ running
    → IsAnswer decode feed w g (some (communicated none true o))
expired-IsAnswer decode none typist w g o e k n q = absurd (n k)
expired-IsAnswer decode (some feed) typist w g none e k n q = (q, e)
expired-IsAnswer decode (some feed) typist w g (some t) e k n q = (q, (refl, (t, e, refl)))

pub quiet-IsLate :
    (decode : Text → Option Text) (feed : Option Text) (typist : Typist) (w got unread : Text)
    → SameKind feed typist
    → typist ≡ absent
    → w ≡ got ++ unread
    → IsLate decode feed w (partial_output got)
quiet-IsLate decode none typist w got unread k a e = (got, unread, e, refl)
quiet-IsLate decode (some feed) typist w got unread k a e = absurd (k a)
