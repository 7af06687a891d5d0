-- ===== src/Examples/Checks.antt =====
-- The check of a run and the seam scan at concrete inputs.
use sawos.Prelude.{◌≡◌, ◌↔◌, refl, true, false, List, [], ◌∷◌, some, arith, All}
use sawos.Prelude.Int.{pos}
use sawos.Text.{Text, codes, contains}
use sawos.Text.Format.{format}
use sawos.Arch.{expectations}
use sawos.Arch.Table.{riscv32}
use sawos.Case.{Case, plain_case, texts}
use sawos.Check.{check, passed}
use sawos.Build.{built}
use sawos.Run.{Ran, decoded, judge}
use sawos.Emulator.{
  State, start, Steps, begin, later, typing, ended, types, reads, writes, ends, returns,
}
use sawos.Emulator.Judged.{Earned, judge-Earned}
use sawos.Check.Accept.{check-passed, ExitIs}
use sawos.Check.Matching.{
  match_in_order, placed, Placed, match-Placed, match-BlameIsRight, BlameIsRight,
}
use sawos.Check.Strip.{Chunk, console, user_stream, strip_kernel_diagnostics, strip-console}
use sawos.Seam.{check_arch_free, Source}
use sawos.Seam.Scan.{LineIsClean, check_arch_free-clean}

abbrev boot_case : Case
boot_case =
    plain_case (codes "boot") (codes "kernel/main.saw")
      (texts (codes "{banner}" ∷ codes "segments={two}" ∷ [])) true

abbrev boot_output : Text
boot_output = codes "SOS M1: kernel up on riscv32\nroot image ok segments=0x00000002\n"

abbrev boot_wants : List Text
boot_wants = codes "SOS M1: kernel up on riscv32" ∷ codes "segments=0x00000002" ∷ []

check-passed_example :
    (check boot_case (riscv32 (codes "/r")) (some (pos 0)) boot_output false ≡ passed)
    ↔ ((false ≡ false) × Placed false boot_output boot_wants 0 × ExitIs boot_case (some (pos 0)))
unfolding expectations format
check-passed_example =
    check-passed boot_case (riscv32 (codes "/r")) (some (pos 0)) boot_output false boot_wants
      (refl, (refl, tt))

-- The same case with a character of input: the guest reads it, boots and ends.
abbrev typed_case : Case
typed_case = record boot_case { stdin = some (codes "a") }

abbrev booted : Ran
booted = record { status = some (pos 0); out = decoded boot_output; timed_out = false }

abbrev booted_state : State
booted_state = record {
  typist = typing [];
  pipe = [];
  received = codes "a";
  written = boot_output;
  guest = ended (pos 0);
  returned = some (built booted);
}

boots : Steps some (start (some (codes "a"))) booted_state
boots =
    later
      (later
        (later (later (later begin (types b'a' [] refl refl)) (reads b'a' [] refl refl))
          (writes boot_output refl))
        (ends (pos 0) refl))
      (returns (pos 0) refl refl)

judge-Earned_example :
    (judge (riscv32 (codes "/r")) typed_case booted ≡ passed)
    ↔ ((false ≡ false) × Earned some typed_case boot_wants boot_output (ended (pos 0)))
unfolding expectations format
judge-Earned_example =
    judge-Earned typed_case (riscv32 (codes "/r")) boot_wants (refl, (refl, tt)) some booted_state
      booted boots refl

match-Placed_example :
    (match_in_order true (codes "ABAB") (codes "AB" ∷ codes "BA" ∷ []) 0 ≡ placed)
    ↔ Placed true (codes "ABAB") (codes "AB" ∷ codes "BA" ∷ []) 0
match-Placed_example = match-Placed true (codes "ABAB") (codes "AB" ∷ codes "BA" ∷ []) 0

match-BlameIsRight_example :
    BlameIsRight false
      (codes "BA")
      (match_in_order false (codes "BA") (codes "A" ∷ codes "B" ∷ []) 0)
match-BlameIsRight_example = match-BlameIsRight false (codes "BA") (codes "A" ∷ codes "B" ∷ []) 0

abbrev ticks : List Chunk
ticks = record { user = codes "AAB"; report = codes " timer tick 3"; crlf = true } ∷ []

strip-console_example :
    strip_kernel_diagnostics (console ticks (codes "AB")) ≡ user_stream ticks (codes "AB")
unfolding contains
strip-console_example =
    strip-console ticks (codes "AB") (record { quiet = refl; one_line = ground arith }, tt) refl

abbrev one_source : List Source
one_source = record { path = codes "kernel/core/a.saw"; lines = codes "let csr = 1" ∷ [] } ∷ []

check_arch_free-clean_example :
    (check_arch_free one_source ≡ true) ↔ All (λ f. All LineIsClean f.lines) one_source
check_arch_free-clean_example = check_arch_free-clean one_source
