-- ===== src/Paths.antt =====
-- `os.path` as tools/sos_runner.py and tools/toolchain.py use it, and the repository's directories.
-- The repository root is a parameter: it is computed from the place of the file.
use sawos.Prelude.{◌-◌, take, length, [], ◌∷◌, ◌++◌, ◌≡◌, refl, ◌==◌, if◌then◌else◌}
use sawos.Text.{Text, codes, starts_with, ends_with}

-- `os.path.join(a, b)`: an absolute second part wins, and a separator is put where none stands.
infixl 60 ◌/+◌
unfoldable pub ◌/+◌ : Text → Text → Text
unfolding starts_with ends_with
[] /+ b = b
(c ∷ a) /+ b =
    if starts_with (codes "/") b
    then b
    else if ends_with (codes "/") (c ∷ a)
    then (c ∷ a) ++ b
    else (c ∷ a) ++ (codes "/" ++ b)

-- `os.path.basename(p)`, with what stands since the last separator.
unfoldable pub base_from : Text → Text → Text
base_from since [] = since
base_from since (c ∷ s) = if c == b'/' then base_from [] s else base_from (since ++ c ∷ []) s

unfoldable pub basename : Text → Text
unfolding base_from
basename = base_from []

unfoldable without_slashes : Text → Text
without_slashes [] = []
without_slashes (c ∷ s) = elim (without_slashes s) [
  | [] ↦ if c == b'/' then [] else c ∷ []
  | d ∷ rest ↦ c ∷ d ∷ rest
]

-- `os.path.dirname(p)`: what stands before the name, without the separators at its end unless there is
-- nothing else.
unfoldable pub dirname : Text → Text
unfolding basename without_slashes
dirname p =
    let head = take (length p - length (basename p)) p in
    elim (without_slashes head) [ [] ↦ head | c ∷ rest ↦ c ∷ rest ]

-- The module constants that name directories, under the repository root.
module _ (repo_root : Text) where
  abbrev pub kernel_dir : Text
  kernel_dir = repo_root /+ codes "kernel"

  abbrev pub core_dir : Text
  core_dir = kernel_dir /+ codes "core"

  abbrev pub tests_dir : Text
  tests_dir = repo_root /+ codes "tests"

  abbrev pub hal_dir : Text
  hal_dir = repo_root /+ codes "hal"

  abbrev pub sosrt_dir : Text
  sosrt_dir = repo_root /+ codes "rt" /+ codes "common" /+ codes "src"

  abbrev pub sosabi_dir : Text
  sosabi_dir = kernel_dir /+ codes "abi" /+ codes "src"

  abbrev pub rt_common_c_dir : Text
  rt_common_c_dir = repo_root /+ codes "rt" /+ codes "common_c"

  abbrev pub rv32_common_dir : Text
  rv32_common_dir = hal_dir /+ codes "riscv32-common"

  -- The `NAME=DIR` values of `--module-path`.
  abbrev pub core_module : Text
  core_module = codes "kcore=" ++ core_dir

  abbrev pub sosrt_module : Text
  sosrt_module = codes "sosrt=" ++ sosrt_dir

  abbrev pub sosabi_module : Text
  sosabi_module = codes "sosabi=" ++ sosabi_dir

  abbrev pub rv32_core_module : Text
  rv32_core_module = codes "rv32core=" ++ (rv32_common_dir /+ codes "kernel")

  abbrev pub rv32_virt_module : Text
  rv32_virt_module = codes "rv32virt=" ++ (hal_dir /+ codes "riscv32" /+ codes "kernel")

kernel_dir_example : core_dir (codes "/r") ≡ codes "/r/kernel/core"
unfolding ◌/+◌
kernel_dir_example = refl

dirname_example :
    (dirname (codes "/e/bin/clang") ≡ codes "/e/bin") × (dirname (codes "/clang") ≡ codes "/")
unfolding dirname
dirname_example = (refl, refl)
