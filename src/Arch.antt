-- ===== src/Arch.antt =====
-- The architectures of tools/sos_runner.py: a row of `ARCHES`, and what is computed from one.
pub mod Table
use Prim.Native.String.{String}
use sawos.Prelude.{
  ℕ, ◌≡◌, refl, Bool, true, false, List, [], ◌∷◌, ◌++◌, Option, none, some, if◌then◌else◌, map,
}
use sawos.Text.{Text, codes}
use sawos.Text.Numerals.{hex_padded}
use sawos.Text.Format.{Fields}
use sawos.Paths.{◌/+◌, tests_dir, hal_dir}

-- `TIER_ISOLATED` and `TIER_FLAT`.
pub data Tier : Type 0 where
  isolated flat : Tier

unfoldable pub tier_eq : Tier → Tier → Bool
tier_eq isolated isolated = true
tier_eq flat flat = true
tier_eq _ _ = false

-- One dictionary of `ARCHES`; a key that a row may leave out is an `Option`.
pub record Arch : Type 0 where
  pub name : Text
  pub triple : Text
  pub qemu : Text
  pub tier : Tier
  pub qemu_args : List Text
  pub cc_args : List Text
  pub features : Option Text
  pub hal_native : Text
  pub hal_modules : List Text
  pub hal_asm : List Text
  pub hal_board : Option Text
  pub tests_arch : Option Text
  pub build_tag : Option Text
  pub banner_arch : Option Text
  pub hex_width : ℕ
  pub root_entry : ℕ
  pub child_region_base : ℕ
  pub selftest_line : ℕ
  pub pool_base : ℕ
  pub pool_len : ℕ
  pub device_base : ℕ
  pub device_len : ℕ

-- `arch.get(key, default)`
abbrev pub get_or {ℓ} : {A : Type ℓ} → Option A → A → A
get_or none d = d
get_or (some a) d = a

pub record ArchDirs : Type 0 where
  pub hal_kernel : Text
  pub hal_board : Text
  pub hal_native : Text
  pub tests : Text
  pub build : Text

unfoldable pub arch_dirs : Text → Arch → ArchDirs
arch_dirs repo_root arch = record {
  hal_kernel = hal_dir repo_root /+ arch.name /+ codes "kernel";
  hal_board = hal_dir repo_root /+ get_or arch.hal_board (arch.name /+ codes "kernel");
  hal_native = hal_dir repo_root /+ arch.hal_native;
  tests = tests_dir repo_root /+ get_or arch.tests_arch arch.name;
  build = repo_root /+ codes ".build" /+ get_or arch.build_tag arch.triple /+ codes "sos";
}

-- `f"0x{n:0{width}x}"`
abbrev pub word : ℕ → ℕ → Text
word width n = codes "0x" ++ hex_padded width n

unfoldable pub expectations : Arch → Fields
unfolding hex_padded
expectations arch =
    let w = word arch.hex_width in
    (codes "banner", codes "SOS M1: kernel up on " ++ get_or arch.banner_arch arch.name)
    ∷ (codes "tier", elim arch.tier [ isolated ↦ codes "Isolated" | flat ↦ codes "Flat" ])
    ∷ (codes "entry", w arch.root_entry)
    ∷ (codes "zero", w 0)
    ∷ (codes "one", w 1)
    ∷ (codes "two", w 2)
    ∷ (codes "three", w 3)
    ∷ (codes "four", w 4)
    ∷ (codes "five", w 5)
    ∷ (codes "six", w 6)
    ∷ (codes "seven", w 7)
    ∷ (codes "eight", w 8)
    ∷ (codes "nine", w 9)
    ∷ (codes "ten", w 10)
    ∷ (codes "prio", w 0x01010100)
    ∷ (codes "irq_line", w arch.selftest_line)
    ∷ (codes "touch_mark", w 0x3C)
    ∷ (codes "pingpong_mark", w 0x21)
    ∷ (codes "caller_mark", w 0x33)
    ∷ (codes "orphan_mark", w 0x3D)
    ∷ (codes "resolve_orphan_mark", w 0x47)
    ∷ (codes "share_mark", w 0xA5)
    ∷ []
