-- ===== src/Run/Series.antt =====
-- The cases of `_run_arch` of tools/sos_runner.py one after another, with the builds on the files that
-- the cases before have left.
use sawos.Prelude.{Bool, false, List, [], ◌∷◌, Option, none, some}
use sawos.Text.{Text}
use sawos.Arch.{Arch}
use sawos.Case.{Case}
use sawos.Toolchain.{Toolchain}
use sawos.Build.{Files, Host, Build, Built, built, tool_error, escaped, run_build}
use sawos.Build.Elf.{build_elf}
use sawos.Run.{Ran, Counts, ran_verdict, tally}

-- What `_run_arch` holds when the packages are built: the tools, the shared objects, and for each case
-- its images. QEMU reads the ELF of its path, and what the case types.
pub record Workshop : Type 0 where
  pub root : Text
  pub arch : Arch
  pub clang : Text
  pub lld : Text
  pub toolchain : Toolchain
  pub shared_objs : List Text
  pub host : Host
  pub root_image : Case → Text
  pub child_images : Case → List Text
  pub qemu : Text → Option Text → Option Text → Built Ran

module _ (w : Workshop) where
  abbrev pub build_of : Case → Build Text
  build_of case =
      build_elf w.root w.arch w.clang w.toolchain w.lld w.shared_objs case (w.root_image case)
        (w.child_images case)

  abbrev pub run_built : Case → Built Text × Files → Option Bool × Files
  run_built case (built elf, files) =
      (ran_verdict w.arch case (w.qemu elf (files elf) case.stdin), files)
  run_built case (tool_error, files) = (some false, files)
  run_built case (escaped, files) = (none, files)

  -- `run_case`
  unfoldable pub case_on : Case → Files → Option Bool × Files
  unfolding build_elf run_build
  case_on case files = run_built case (run_build w.host (build_of case) files)

  -- The loop over the cases with one job: an exception ends it.
  unfoldable pub run_series : List Case → Files → Option Counts
  unfolding case_on
  run_series [] files = some (0, 0)
  run_series (c ∷ cs) files = tally (case_on c files).0 (run_series cs (case_on c files).1)
