-- ===== src/Run.antt =====
-- `_run_arch` and the totals of `main` in tools/sos_runner.py. The builds and the emulator are
-- parameters here: what they are is in Build and Emulator.
pub mod Packages
pub mod Images
pub mod Counts
pub mod Totals
pub mod Series
pub mod Alone
use sawos.Prelude.{
  ℕ, suc, ◌+◌, Bool, true, false, ◌&&◌, List, [], ◌∷◌, ◌++◌, Option, none, some, if◌then◌else◌,
  length, ◌==◌,
}
use sawos.Prelude.Int.{ℤ}
use sawos.Text.{Text, text_eq, elem}
use sawos.Arch.{Arch, Tier, tier_eq}
use sawos.Case.{Case}
use sawos.Build.{Built, built, tool_error, escaped}
use sawos.Check.{Verdict, passed, raised, failed, check}

-- `arch["name"] in c.get("arches", (arch["name"],))`
unfoldable pub names_arch : Arch → Case → Bool
unfolding elem
names_arch arch case = elim case.arches [ none ↦ true | some names ↦ elem arch.name names ]

-- `need is None or need == arch["tier"]`
unfoldable pub fits_tier : Arch → Case → Bool
unfolding tier_eq
fits_tier arch case = elim case.tier [ none ↦ true | some need ↦ tier_eq need arch.tier ]

unfoldable pub keep : (Case → Bool) → List Case → List Case
keep p [] = []
keep p (c ∷ cs) = if p c then c ∷ keep p cs else keep p cs

-- `cases`, before the tiers are looked at.
unfoldable pub cases_on : Arch → List Case → List Case
unfolding keep names_arch
cases_on arch = keep (names_arch arch)

-- `runnable, excluded`, in one pass.
unfoldable pub partition_tier : Arch → List Case → List Case × List Case
unfolding fits_tier
partition_tier arch [] = ([], [])
partition_tier arch (c ∷ cs) =
    let rest = partition_tier arch cs in
    if fits_tier arch c then (c ∷ rest.0, rest.1) else (rest.0, c ∷ rest.1)

-- An append unless it is there.
abbrev pub add_new : List Text → Text → List Text
add_new pkgs p = if elem p pkgs then pkgs else pkgs ++ p ∷ []

unfoldable pub add_all : List Text → List Text → List Text
add_all pkgs [] = pkgs
add_all pkgs (p ∷ ps) = add_all (add_new pkgs p) ps

-- `root_pkgs`; an empty name is no package.
abbrev pub add_root : List Text → Option Text → List Text
add_root pkgs (some (c ∷ s)) = add_new pkgs (c ∷ s)
add_root pkgs _ = pkgs

unfoldable pub packages_of : List Text → List Case → List Text
unfolding add_all
packages_of pkgs [] = pkgs
packages_of pkgs (c ∷ cs) = packages_of (add_all (add_root pkgs c.root_pkg) c.children) cs

-- A transcript as `str`, or as the bytes that were read.
pub data Output : Type 0 where
  decoded undecoded : Text → Output

-- What QEMU did: exit status, transcript, and whether it ran out of time.
pub record Ran : Type 0 where
  pub status : Option ℤ
  pub out : Output
  pub timed_out : Bool

-- What `_check` looks at: bytes come only with `timed_out`, where it returns before it looks.
abbrev pub transcript : Output → Text
transcript (decoded t) = t
transcript (undecoded t) = t

-- The builds, the search for a package's image and the emulator, with the exceptions that they raise.
pub record Tools : Type 0 where
  pub build_shared : Arch → Built (Unit {0})
  pub build_package : Arch → Text → Built (Unit {0})
  pub build_elf : Arch → Case → Built Text
  pub root_image_path : Arch → Text → Built (Unit {0})
  pub run_qemu : Arch → Text → Option Text → Built Ran

-- Passed and failed.
abbrev pub Counts : Type 0
Counts = ℕ × ℕ

abbrev pub judge : Arch → Case → Ran → Verdict
judge arch case ran = check case arch ran.status (transcript ran.out) ran.timed_out

abbrev pub verdict_of : Verdict → Option Bool
verdict_of passed = some true
verdict_of (failed _) = some false
verdict_of raised = none

-- The verdict on a run; the emulator is in no `try`, so its exceptions go on.
abbrev pub ran_verdict : Arch → Case → Built Ran → Option Bool
ran_verdict arch case (built ran) = verdict_of (judge arch case ran)
ran_verdict arch case tool_error = none
ran_verdict arch case escaped = none

-- A verdict counted before the others.
abbrev pub tally : Option Bool → Option Counts → Option Counts
tally none rest = none
tally (some ok) none = none
tally (some true) (some (p, f)) = some (suc p, f)
tally (some false) (some (p, f)) = some (p, suc f)

-- The counts of one architecture added to those of the others.
abbrev pub total : Option Counts → Option Counts → Option Counts
total none rest = none
total (some n) none = none
total (some (p, f)) (some (q, g)) = some (p + q, f + g)

-- The paths of the images are looked for in no `try`.
abbrev pub with_images : Built (Unit {0}) → Option Counts → Option Counts
with_images (built _) counts = counts
with_images tool_error counts = none
with_images escaped counts = none

-- The two build phases, and what follows them: a ToolError of a phase fails all cases that would run,
-- another exception ends the run.
abbrev pub phases : Built (Unit {0}) → Built (Unit {0}) → List Case → Option Counts → Option Counts
phases (built _) (built _) cases counts = counts
phases (built _) tool_error cases counts = some (0, length cases)
phases (built _) escaped cases counts = none
phases tool_error packages cases counts = some (0, length cases)
phases escaped packages cases counts = none

abbrev pub and_built : Built (Unit {0}) → Built (Unit {0}) → Built (Unit {0})
and_built (built _) rest = rest
and_built tool_error rest = tool_error
and_built escaped rest = escaped

module _ (tools : Tools) (arch : Arch) where
  -- The packages are built in order, up to the first that fails.
  unfoldable pub packages_built : List Text → Built (Unit {0})
  packages_built [] = built tt
  packages_built (p ∷ ps) = and_built (tools.build_package arch p) (packages_built ps)

  -- The paths of the images of some packages.
  unfoldable pub paths_found : List Text → Built (Unit {0})
  paths_found [] = built tt
  paths_found (p ∷ ps) = and_built (tools.root_image_path arch p) (paths_found ps)

  -- `case.get("root_pkg")`: an empty name is none.
  abbrev pub root_path_found : Option Text → Built (Unit {0})
  root_path_found (some (c ∷ s)) = tools.root_image_path arch (c ∷ s)
  root_path_found _ = built tt

  -- The loop that puts the paths of the images into the cases.
  unfoldable pub images_found : List Case → Built (Unit {0})
  unfolding paths_found
  images_found [] = built tt
  images_found (c ∷ cs) =
      and_built (root_path_found c.root_pkg) (and_built (paths_found c.children) (images_found cs))

  -- `run_case`: a case whose build raises a ToolError has failed.
  unfoldable pub run_case : Case → Option Bool
  run_case case = elim (tools.build_elf arch case) [
    | tool_error ↦ some false
    | escaped ↦ none
    | built elf ↦ ran_verdict arch case (tools.run_qemu arch elf case.stdin)
  ]

  -- The loop over the verdicts; `none` is an exception that ends the run.
  unfoldable pub run_cases : List Case → Option Counts
  unfolding run_case
  run_cases [] = some (0, 0)
  run_cases (c ∷ cs) = tally (run_case c) (run_cases cs)

  unfoldable pub run_arch : List Case → Option Counts
  unfolding cases_on partition_tier packages_of packages_built images_found run_cases
  run_arch selected =
      let cases = (partition_tier arch (cases_on arch selected)).0 in
      phases (tools.build_shared arch) (packages_built (packages_of [] cases)) cases
        (with_images (images_found cases) (run_cases cases))

-- The loop over the architectures, with the totals.
unfoldable pub run_all : Tools → List Arch → List Case → Option Counts
unfolding run_arch
run_all tools [] selected = some (0, 0)
run_all tools (a ∷ others) selected =
    total (run_arch tools a selected) (run_all tools others selected)

-- The exit status; an exception ends Python with 1.
abbrev pub status_of : Option Counts → ℕ
status_of none = 1
status_of (some (p, f)) = if f == 0 then 0 else 1

unfoldable pub exit_status : Tools → List Arch → List Case → ℕ
unfolding run_all
exit_status tools arches selected = status_of (run_all tools arches selected)
