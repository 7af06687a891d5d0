-- ===== src/Examples/Runs.antt =====
-- The case filter, the totals, the table and the pool at concrete inputs.
use sawos.Prelude.{
  ℕ, ◌+◌, ◌≡◌, ◌≢◌, ◌↔◌, refl, true, false, List, [], ◌∷◌, none, some, arith, All, In, map, length,
}
use sawos.Prelude.Int.{pos}
use sawos.Text.{Text, codes, text_eq, elem, find}
use sawos.Text.Format.{format}
use sawos.Arch.Table.{riscv32_flat, arches}
use sawos.Case.{Case, plain_case, one_text}
use sawos.Check.{check, raised}
use sawos.Select.{select_cases, plain_name, wanted, by_name, unknown_names, cases_of, first_names}
use sawos.Select.Chosen.{select_cases-Chosen, Distinct}
use sawos.Build.{built}
use sawos.Run.{Tools, decoded, run_arch, exit_status}
use sawos.Run.Totals.{runnable, ArchPasses, run_arch-length, exit_status-Passes}
use sawos.Cases.{test_cases}
use sawos.Cases.Formats.{test_cases-answer}
use sawos.Cases.Passable.{Passable, test_cases-Passable}
use sawos.Pool.{
  Pool, submitted, running, done, submit_all, begins, ends, yields, Steps, stop, next, run_inline,
  pooled,
}
use sawos.Pool.Order.{MapOrdered-run_inline}
use sawos.Pool.Progress.{Steps-finish}

abbrev root_dir : Text
root_dir = codes "/r"

abbrev first_case : Case
first_case = plain_case (codes "trap_fault") (codes "a.saw") (one_text (codes "ok")) true

abbrev second_case : Case
second_case =
    record (plain_case (codes "echo_ns16550") (codes "b.saw") (one_text (codes "ok")) true) {
      arches = some (codes "riscv32" ∷ []);
    }

abbrev small_table : List Case
small_table = first_case ∷ second_case ∷ []

select_cases-Chosen_example :
    All (λ c. In c small_table) (second_case ∷ [])
    × Distinct (map (λ c. plain_name c.name) (second_case ∷ []))
    × ((w : Text)
        → elem w (map (λ c. plain_name c.name) (second_case ∷ []))
          ≡ elem w (wanted (codes "echo-ns16550, echo_ns16550" ∷ [])))
unfolding select_cases unknown_names wanted by_name text_eq plain_name cases_of first_names elem
select_cases-Chosen_example =
    select_cases-Chosen small_table (codes "echo-ns16550, echo_ns16550") [] (second_case ∷ []) refl

-- Every build works, and the guest writes what is expected and ends.
abbrev pub good_tools : Tools
good_tools = record {
  build_shared = λ arch. built tt;
  build_package = λ arch p. built tt;
  build_elf = λ arch c. built c.name;
  root_image_path = λ arch p. built tt;
  run_qemu = λ arch elf stdin.
      built (record { status = some (pos 0); out = decoded (codes "ok\n"); timed_out = false });
}

run_arch-length_example : 1 + 0 ≡ length (runnable (riscv32_flat root_dir) small_table)
unfolding run_arch check format find
run_arch-length_example = run_arch-length good_tools (riscv32_flat root_dir) small_table (1, 0) refl

exit_status-Passes_example :
    (exit_status good_tools (arches root_dir) small_table ≡ 0)
    ↔ All (ArchPasses good_tools small_table) (arches root_dir)
exit_status-Passes_example = exit_status-Passes good_tools (arches root_dir) small_table

test_cases-answer_example :
    All
      (λ arch.
        All (λ case. check case arch none (codes "panic") true ≢ raised) (test_cases root_dir))
      (arches root_dir)
test_cases-answer_example = test_cases-answer root_dir none (codes "panic") true

-- Two workers, of which the second ends first.
abbrev double : ℕ → ℕ
double n = n + n

abbrev items : List ℕ
items = 1 ∷ 2 ∷ []

abbrev both_run : Pool ℕ ℕ
both_run = record { yielded = []; futures = running 1 ∷ running 2 ∷ [] }

both_start : Steps double 2 (submit_all double items) both_run
both_start =
    next _ _ _ (begins [] [] (submitted 2 ∷ []) 1 (omega arith))
      (next _ _ _ (begins [] (running 1 ∷ []) [] 2 (omega arith)) (stop _))

whole_run : Steps double 2 (submit_all double items) (record { yielded = 2 ∷ 4 ∷ []; futures = [] })
whole_run = next _ _ _ (begins [] [] (submitted 2 ∷ []) 1 (omega arith)) (
    next _ _ _ (begins [] (running 1 ∷ []) [] 2 (omega arith)) (
      next _ _ _ (ends [] (running 1 ∷ []) [] 2) (
        next _ _ _ (ends [] [] (done 4 ∷ []) 1)
          (next _ _ _ (yields [] (done 4 ∷ []) 2) (next _ _ _ (yields (2 ∷ []) [] 4) (stop _))))))

MapOrdered-run_inline_example : 2 ∷ 4 ∷ [] ≡ run_inline double items
MapOrdered-run_inline_example =
    MapOrdered-run_inline double 2 items (2 ∷ 4 ∷ []) (pooled (2 ∷ 4 ∷ []) refl whole_run)

Steps-finish_example :
    Steps double 2 both_run (record { yielded = run_inline double items; futures = [] })
Steps-finish_example = Steps-finish double 2 items both_run (omega arith) both_start

test_cases-Passable_example :
    All (λ arch. All (Passable arch) (test_cases root_dir)) (arches root_dir)
test_cases-Passable_example = test_cases-Passable root_dir
