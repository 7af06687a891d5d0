-- ===== src/Smoke/Console.antt =====
-- `c3_run` of tools/sos_runner.py: the console of the ESP32 board, read until the kernel halts.
use sawos.Prelude.{Bool, true, false, List, [], ◌∷◌, ◌++◌, if◌then◌else◌}
use sawos.Text.{Text, codes, contains}

-- What one round of the loop finds: a chunk to read, which is empty at the end of the stream, nothing
-- yet, or nothing from a process that has ended.
pub data Poll : Type 0 where
  ready : Text → Poll
  quiet gone : Poll

-- `C3_HALT`
abbrev pub halt_line : Text
halt_line = codes "SOS-C3: halt"

-- The rounds after the halt line; whether the process has ended is not asked.
unfoldable pub drained : Text → List Poll → Text
drained out [] = out
drained out (ready [] ∷ polls) = out
drained out (ready (c ∷ chunk) ∷ polls) = drained (out ++ c ∷ chunk) polls
drained out (quiet ∷ polls) = drained out polls
drained out (gone ∷ polls) = drained out polls

-- The rounds before the deadline, with those of the drain: the console, and whether the kernel halted.
unfoldable pub collect : List Poll → Text → List Poll → Text × Bool
unfolding drained contains
collect drain out [] = (out, false)
collect drain out (ready [] ∷ polls) = (out, false)
collect drain out (ready (c ∷ chunk) ∷ polls) =
    let more = out ++ c ∷ chunk in
    let rest = collect drain more polls in
    if contains halt_line more then (drained more drain, true) else rest
collect drain out (quiet ∷ polls) = collect drain out polls
collect drain out (gone ∷ polls) = (out, false)

-- `c3_run`
unfoldable pub c3_run : List Poll → List Poll → Text × Bool
unfolding collect
c3_run polls drain = collect drain [] polls
