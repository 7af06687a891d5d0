-- ===== src/Discover.antt =====
-- The search for the host's programs: `_find_clang` and `_probe_tools` of tools/sos_runner.py.
pub mod First
pub mod Missing
use sawos.Prelude.{Bool, true, false, List, [], ◌∷◌, ◌++◌, Option, none, some, if◌then◌else◌}
use sawos.Text.{Text, codes, text_eq}
use sawos.Text.Format.{Fields, field}
use sawos.Paths.{◌/+◌}
use sawos.Arch.{Arch, arch_dirs}
use sawos.Toolchain.{truthy}
use sawos.Build.{Built, built, tool_error, escaped}
use sawos.Build.Shared.{clang_argv}

-- `INSTALL_HINTS`
abbrev pub install_hints : Fields
install_hints =
    (
      codes "qemu-system-riscv32",
      codes "brew install qemu   (macOS)  |  apt install qemu-system-misc   (Debian/Ubuntu)",
    )
    ∷ (
      codes "qemu-system-aarch64",
      codes "brew install qemu   (macOS)  |  apt install qemu-system-arm    (Debian/Ubuntu)",
    )
    ∷ (
      codes "ld.lld",
      codes "brew install lld    (macOS)  |  apt install lld                (Debian/Ubuntu)",
    )
    ∷ (
      codes "clang",
      codes "install Xcode/`brew install llvm` (macOS)  |  apt install clang  (Debian/Ubuntu)",
    )
    ∷ []

pub record Machine : Type 0 where
  -- `os.environ.get("SOS_CLANG")`, `shutil.which`, `os.path.exists`
  pub sos_clang : Option Text
  pub which : Text → Option Text
  pub exists : Text → Bool
  -- `_run` on a probe's arguments
  pub probe : List Text → Built (Unit {0})

-- What follows a probe: the next one, the next candidate, or the exception.
abbrev pub and_then : Built (Unit {0}) → Built Bool → Built Bool
and_then (built _) rest = rest
and_then tool_error rest = built false
and_then escaped rest = escaped

abbrev pub or_next : Text → Built Bool → Built (Option Text) → Built (Option Text)
or_next path (built true) next = built (some path)
or_next path (built false) next = next
or_next path tool_error next = tool_error
or_next path escaped next = escaped

abbrev pub missing_if_none : Text → Option Text → List Text
missing_if_none tool none = tool ∷ []
missing_if_none tool (some _) = []

-- The lines below the heading; no hint for a tool is a KeyError.
unfoldable pub hint_lines : List Text → Option (List Text)
unfolding field
hint_lines [] = some []
hint_lines (tool ∷ tools) = elim (field install_hints tool) [
  | none ↦ none
  | some hint ↦ elim (hint_lines tools) [
    | none ↦ none
    | some lines ↦ some ((codes "  - " ++ (tool ++ (codes ": " ++ hint))) ∷ lines)
  ]
]

module _ (root : Text) (m : Machine) where
  unfoldable pub candidates : List Text
  candidates =
      elim (truthy m.sos_clang) [ none ↦ [] | some c ↦ c ∷ [] ]
      ++ codes "clang"
        ∷ codes "/opt/homebrew/opt/llvm/bin/clang"
        ∷ codes "/usr/local/opt/llvm/bin/clang"
        ∷ []

  abbrev existing : Text → Option Text
  existing cand = if m.exists cand then truthy (some cand) else none

  -- `shutil.which(cand) or (cand if os.path.exists(cand) else None)`, where an empty path is none.
  unfoldable pub located : Text → Option Text
  located cand = elim (truthy (m.which cand)) [ some path ↦ some path | none ↦ existing cand ]

  unfoldable pub probe_argv : Text → Arch → List Text
  unfolding arch_dirs
  probe_argv path arch =
      clang_argv path arch
      ++ codes "-nostdlib"
        ∷ codes "-c"
        ∷ ((arch_dirs root arch).hal_board /+ codes "boot.S")
        ∷ codes "-o"
        ∷ ((arch_dirs root arch).build /+ codes "_probe.o")
        ∷ []

  unfoldable pub probe_all : Text → List Arch → Built Bool
  unfolding probe_argv
  probe_all path [] = built true
  probe_all path (a ∷ arches) = and_then (m.probe (probe_argv path a)) (probe_all path arches)

  abbrev pub try_candidate : List Arch → Option Text → Built (Option Text) → Built (Option Text)
  try_candidate arches none next = next
  try_candidate arches (some path) next = or_next path (probe_all path arches) next

  unfoldable pub first_clang : List Arch → List Text → Built (Option Text)
  unfolding located probe_all
  first_clang arches [] = built none
  first_clang arches (c ∷ cs) = try_candidate arches (located c) (first_clang arches cs)

  -- `_find_clang`
  unfoldable pub find_clang : List Arch → Built (Option Text)
  unfolding candidates first_clang
  find_clang arches = first_clang arches candidates

  -- The emulators that are not found, one entry for each architecture.
  unfoldable pub missing_qemus : List Arch → List Text
  missing_qemus [] = []
  missing_qemus (a ∷ arches) =
      missing_if_none a.qemu (truthy (m.which a.qemu)) ++ missing_qemus arches

  unfoldable pub qemus : List Arch → List (Text × Option Text)
  qemus [] = []
  qemus (a ∷ arches) = (a.name, m.which a.qemu) ∷ qemus arches

-- The tools, or what is missing and the exit with 2.
pub data Probed : Type 0 where
  found : List (Text × Option Text) → Text → Text → Probed
  missing : List Text → Probed
  key_error : Probed

abbrev pub told : Option (List Text) → Probed
told none = key_error
told (some lines) = missing lines

module _ (root : Text) (m : Machine) (arches : List Arch) where
  abbrev pub lld : Option Text
  lld = truthy (m.which (codes "ld.lld"))

  -- `if missing: ...`
  abbrev pub decide : List Text → Option Text → Option Text → Probed
  decide [] (some l) (some c) = found (qemus root m arches) l c
  decide tools _ _ = told (hint_lines tools)

  abbrev pub after_clang : Built (Option Text) → Built Probed
  after_clang (built clang) = built (
      decide
        (missing_qemus root m arches
          ++ (missing_if_none (codes "ld.lld") lld ++ missing_if_none (codes "clang") clang))
        lld clang)
  after_clang tool_error = tool_error
  after_clang escaped = escaped

  -- `_probe_tools`
  unfoldable pub probe_tools : Built Probed
  unfolding find_clang missing_qemus qemus hint_lines
  probe_tools = after_clang (find_clang root m arches)
