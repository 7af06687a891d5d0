-- ===== src/Main.antt =====
-- `main` of tools/sos_runner.py: the arguments, the order of its refusals, and the exit status.
pub mod Passes
use sawos.Prelude.{
  ℕ, zero, suc, Bool, true, false, ◌||◌, ◌&&◌, List, [], ◌∷◌, Option, none, some, any,
  if◌then◌else◌, ◌==◌, ltb,
}
use sawos.Prelude.Int.{ℤ, pos, negsuc}
use sawos.Text.{Text, codes, text_eq}
use sawos.Paths.{◌/+◌, dirname}
use sawos.Arch.{Arch}
use sawos.Arch.Table.{arches}
use sawos.Case.{Case}
use sawos.Cases.{test_cases}
use sawos.Select.{Selection, refused, selected, select_cases}
use sawos.Seam.{Source, check_arch_free}
use sawos.Toolchain.{Toolchain, Result, ok, err, os_error, truthy}
use sawos.Build.{Files, Host, Built, built, tool_error, escaped, run_build}
use sawos.Build.Shared.{build_blade}
use sawos.Discover.{Machine, Probed, found, missing, key_error, probe_tools}
use sawos.Run.{Tools, exit_status}
use sawos.Smoke.Builds.{c3_setup}
use sawos.Smoke.{Board, smoke_cases, smoke_status}

-- The command line, after argparse.
pub record Args : Type 0 where
  pub board : Text
  pub jobs : ℤ
  pub arch : Option Text
  pub cases : List Text

-- What the run finds: the machine, the sources of the arch-free kernel, what the resolver answers, the
-- disk, and what the builds and the emulator do with the tools.
pub record Setting : Type 0 where
  pub root : Text
  pub machine : Machine
  pub sources : List Source
  pub toolchain : Result Toolchain
  pub host : Host
  pub files : Files
  pub tools : List (Text × Option Text) → Text → Text → Option Text → Toolchain → Tools
  -- the paths that match the patterns of the smoke run, and its builds
  pub qemu_hits : List Text
  pub clang_hits : List Text
  pub smoke_board : Text → Text → Text → List Text → Text → Board

-- `s < t` on texts
unfoldable pub text_lt : Text → Text → Bool
text_lt s [] = false
text_lt [] (d ∷ t) = true
text_lt (c ∷ s) (d ∷ t) = ltb c d || ((c == d) && text_lt s t)

-- `sorted(hits, reverse=True)[0]`, `none` if there is no hit: `c3_tool` exits with 2 then.
unfoldable pub c3_tool : List Text → Option Text
unfolding text_lt
c3_tool [] = none
c3_tool (h ∷ hits) = elim (c3_tool hits) [
  | none ↦ some h
  | some best ↦ some (if text_lt h best then best else h)
]

-- `args.jobs < 1` refuses.
abbrev pub has_jobs : ℤ → Bool
has_jobs (pos (suc _)) = true
has_jobs (pos zero) = false
has_jobs (negsuc _) = false

unfoldable named : Text → List Arch → List Arch
unfolding text_eq
named name [] = []
named name (a ∷ rest) = if text_eq a.name name then a ∷ named name rest else named name rest

-- `--arch`; an empty name is no filter.
unfoldable pub arches_of : Text → Option Text → List Arch
unfolding named
arches_of root arch = elim (truthy arch) [
  | none ↦ arches root
  | some name ↦ named name (arches root)
]

-- Whether a case has a package that Blade builds.
unfoldable pub needs_blade : List Case → Bool
needs_blade = any λ c. elim (truthy c.root_pkg) [
  | some _ ↦ true
  | none ↦ elim c.children [ [] ↦ false | _ ∷ _ ↦ true ]
]

module _ (s : Setting) where
  -- `_build_blade`, in a directory of its own, if some selected case needs it.
  unfoldable pub blade_for : Toolchain → List Case → Built (Option Text)
  unfolding build_blade run_build needs_blade
  blade_for tc cases =
      if needs_blade cases
      then blade_path
          (run_build s.host (build_blade tc (s.root /+ codes ".build" /+ codes "sos-host"))
            s.files).0
      else built none
    where
      blade_path : Built Text → Built (Option Text)
      blade_path (built b) = built (some b)
      blade_path tool_error = tool_error
      blade_path escaped = escaped

  module _ (run_arches : List Arch) (cases : List Case) where
    abbrev pub after_blade :
        List (Text × Option Text) → Text → Text → Toolchain → Built (Option Text) → ℕ
    after_blade qs l c tc (built blade) = exit_status (s.tools qs l c blade tc) run_arches cases
    after_blade qs l c tc tool_error = 1
    after_blade qs l c tc escaped = 1

    -- `tc()`: a refusal of the resolver exits with 1, and so does another exception.
    abbrev pub after_seam : List (Text × Option Text) → Text → Text → Bool → Result Toolchain → ℕ
    after_seam qs l c true (ok tc) = after_blade qs l c tc (blade_for tc cases)
    after_seam qs l c true (err _) = 1
    after_seam qs l c true os_error = 1
    after_seam qs l c false _ = 1

    abbrev pub after_probe : Built Probed → ℕ
    after_probe (built (found qs l c)) = after_seam qs l c (check_arch_free s.sources) s.toolchain
    after_probe (built (missing _)) = 2
    after_probe (built key_error) = 1
    after_probe tool_error = 1
    after_probe escaped = 1

  abbrev pub after_select : List Arch → Selection → ℕ
  after_select run_arches (refused _) = 2
  after_select run_arches (selected cases) =
      after_probe run_arches cases (probe_tools s.root s.machine run_arches)

  abbrev pub after_arch : List Text → List Arch → ℕ
  after_arch filters [] = 2
  after_arch filters (a ∷ others) =
      after_select (a ∷ others) (select_cases (test_cases s.root) filters)

  abbrev pub after_jobs : Args → Bool → ℕ
  after_jobs args true = after_arch args.cases (arches_of s.root args.arch)
  after_jobs args false = 2

  -- The builds before the first case of the smoke run are in no `try`: any exception ends the run.
  abbrev pub after_setup : Text → Text → Built (Text × List Text × Text) → ℕ
  after_setup qemu clang (built (blade, shared, kobj)) =
      smoke_status (s.smoke_board qemu clang blade shared kobj) (smoke_cases s.root)
  after_setup qemu clang tool_error = 1
  after_setup qemu clang escaped = 1

  -- `ld.lld` and `llvm-objcopy` stand beside the compiler.
  abbrev pub smoke_setup : Text → Toolchain → Built (Text × List Text × Text)
  smoke_setup clang tc =
      (run_build s.host
        (c3_setup s.root clang (dirname clang /+ codes "ld.lld")
          (dirname clang /+ codes "llvm-objcopy") tc)
        s.files).0

  abbrev pub after_smoke_tc : Text → Text → Result Toolchain → ℕ
  after_smoke_tc qemu clang (ok tc) = after_setup qemu clang (smoke_setup clang tc)
  after_smoke_tc qemu clang (err _) = 1
  after_smoke_tc qemu clang os_error = 1

  abbrev pub after_hits : Option Text → Option Text → ℕ
  after_hits (some qemu) (some clang) = after_smoke_tc qemu clang s.toolchain
  after_hits _ _ = 2

  abbrev pub after_board : Args → Bool → Bool → ℕ
  after_board args true _ = after_jobs args (has_jobs args.jobs)
  after_board args false true = after_hits (c3_tool s.qemu_hits) (c3_tool s.clang_hits)
  after_board args false false = 2

  -- The exit status of the harness.
  unfoldable pub main : Args → ℕ
  unfolding arches_of select_cases probe_tools check_arch_free blade_for exit_status c3_tool
      smoke_status text_eq c3_setup run_build dirname
  main args =
      after_board args (text_eq args.board (codes "virt")) (text_eq args.board (codes "esp32c3"))
