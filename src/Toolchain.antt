-- ===== src/Toolchain.antt =====
-- tools/toolchain.py: the resolved toolchain, its errors and its methods.
pub mod Pin
pub mod Written
pub mod Os
pub mod Fetch
pub mod Atomic
pub mod Commands
pub mod Ends
pub mod Complete
pub mod Version
pub mod Resolve
pub mod Steps
pub mod Report
use sawos.Prelude.{
  ℕ, ◌≡◌, refl, Bool, true, false, List, [], ◌∷◌, ◌++◌, Option, none, some, if◌then◌else◌,
}
use sawos.Text.{Text, codes, text_eq, join}
use sawos.Text.Format.{Fields, field}
use sawos.Paths.{◌/+◌}

-- `ToolchainError`, by the place that raises it; the values are those that its message shows.
pub data ToolchainError : Type 0 where
  malformed_pin : ℕ → Text → ToolchainError
  not_owned : Text → ToolchainError
  no_checkout : Text → Text → ToolchainError
  not_a_checkout : Text → ToolchainError
  silent_sawc : Text → Text → ToolchainError
  wrong_version : Text → Text → Text → ToolchainError
  fetch_needs : Text → ToolchainError
  fetch_failed : List Text → ToolchainError
  no_toolchain : Text → Text → Text → ToolchainError

-- `os_error` is an exception that is no ToolchainError.
pub data Result {ℓ} (A : Type ℓ) : Type ℓ where
  ok : A → Result A
  err : ToolchainError → Result A
  os_error : Result A

infixl 5 ◌>>=◌
abbrev pub ◌>>=◌ {ℓ κ} : {A : Type ℓ} {B : Type κ} → Result A → (A → Result B) → Result B
ok a >>= f = f a
err e >>= f = err e
os_error >>= f = os_error

-- An empty text is false.
abbrev pub truthy : Option Text → Option Text
truthy (some (c ∷ s)) = some (c ∷ s)
truthy _ = none

pub record Toolchain : Type 0 where
  pub sawc_argv : List Text
  pub source : Text
  pub root : Option Text
  pub blade_bin : Option Text
  pub notes : List Text

-- `Toolchain.sawc_env_value`
unfoldable pub sawc_env_value : Toolchain → Text
sawc_env_value tc = join (codes " ") tc.sawc_argv

-- `Toolchain._require_root`
unfoldable pub require_root : Toolchain → Text → Result Text
require_root tc what = elim (truthy tc.root) [
  | some root ↦ ok root
  | none ↦ err (no_checkout what tc.source)
]

-- `MODULE_DIRS`
abbrev pub module_dirs : Fields
module_dirs =
    (codes "imgformat", codes "libs" /+ codes "imgformat" /+ codes "src")
    ∷ (codes "toml", codes "libs" /+ codes "toml" /+ codes "src")
    ∷ (codes "semver", codes "libs" /+ codes "semver" /+ codes "src")
    ∷ []

-- `Toolchain.module_source`; joining the parts one by one is joining them to the root.
unfoldable pub module_source : Toolchain → Text → Result Text
unfolding require_root
module_source tc name = elim (field module_dirs name) [
  | none ↦ err (not_owned name)
  | some dir ↦ do
    root ← require_root tc (codes "the `" ++ (name ++ codes "` package's sources"))
    ok (root /+ dir)
]

-- `Toolchain.module_path_arg`
unfoldable pub module_path_arg : Toolchain → Text → Result Text
unfolding module_source
module_path_arg tc name = do dir ← module_source tc name; ok (name ++ (codes "=" ++ dir))

-- `Toolchain.blade_package_dir`
unfoldable pub blade_package_dir : Toolchain → Result Text
unfolding require_root
blade_package_dir tc = do
  root ← require_root tc (codes "Blade's own sources")
  ok (root /+ codes "blade")
