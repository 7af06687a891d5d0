-- ===== src/Examples/Harness.antt =====
-- The harness and the console loop of the smoke run at concrete inputs.
use sawos.Prelude.{◌≡◌, ◌↔◌, true, [], List, ◌∷◌, none, some}
use sawos.Prelude.Int.{pos}
use sawos.Text.{codes, contains}
use sawos.Toolchain.{ok}
use sawos.Smoke.Console.{Poll, ready, quiet, gone, halt_line, c3_run}
use sawos.Smoke.Halted.{c3_run-halted}
use sawos.Main.{Args, Setting, main}
use sawos.Main.Passes.{HarnessPasses, main-HarnessPasses}
use sawos.Examples.Builds.{gathering, checkout}
use sawos.Examples.Hosts.{bare_host}
use sawos.Examples.Runs.{good_tools}
use sawos.Examples.Boards.{test_board}

abbrev setting : Setting
setting = record {
  root = codes "/r";
  machine = bare_host;
  sources = [];
  toolchain = ok checkout;
  host = gathering;
  files = λ p. none;
  tools = λ qs l c blade tc. good_tools;
  qemu_hits = codes "/e/8" ∷ codes "/e/9" ∷ [];
  clang_hits = codes "/e/clang" ∷ [];
  smoke_board = λ qemu clang blade objs kernel. test_board;
}

abbrev one_case : Args
one_case = record {
  board = codes "virt";
  jobs = pos 4;
  arch = some (codes "riscv32");
  cases = codes "trap-fault" ∷ [];
}

main-HarnessPasses_example : (main setting one_case ≡ 0) ↔ HarnessPasses setting one_case
main-HarnessPasses_example = main-HarnessPasses setting one_case

-- The halt line in two chunks, and more behind it.
abbrev chunks : List Poll
chunks = quiet ∷ ready (codes "SOS-C3: h") ∷ ready (codes "alt ") ∷ gone ∷ []

c3_run-halted_example :
    ((c3_run chunks (ready (codes "pass\n") ∷ [])).1 ≡ true)
    ↔ (contains halt_line (c3_run chunks (ready (codes "pass\n") ∷ [])).0 ≡ true)
c3_run-halted_example = c3_run-halted chunks (ready (codes "pass\n") ∷ [])
