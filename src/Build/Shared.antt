-- ===== src/Build/Shared.antt =====
-- `_build_shared`, `_build_blade` and `_blade_env` of tools/sos_runner.py.
use sawos.Prelude.{◌≡◌, refl, ◌&&◌, List, [], ◌∷◌, ◌++◌, some, ◌==◌, if◌then◌else◌}
use sawos.Text.{Text, codes}
use sawos.Text.Format.{Fields}
use sawos.Paths.{◌/+◌, hal_dir, rt_common_c_dir, basename}
use sawos.Arch.{Arch, arch_dirs}
use sawos.Toolchain.{Toolchain, sawc_env_value, module_path_arg, blade_package_dir}
use sawos.Build.{Build, pure, does, lift, ◌>>=◌, ◌>>◌, run, make_dir}

-- `s.replace(".S", ".o")`
unfoldable pub object_name : Text → Text
object_name [] = []
object_name (c ∷ []) = c ∷ []
object_name (c ∷ d ∷ s) =
    let here = object_name s in
    let later = object_name (d ∷ s) in
    if (c == b'.') && (d == b'S') then b'.' ∷ b'o' ∷ here else c ∷ later

-- `[clang, f"--target={arch['triple']}", *arch["cc_args"]]`
abbrev pub clang_argv : Text → Arch → List Text
clang_argv clang arch = clang ∷ (codes "--target=" ++ arch.triple) ∷ arch.cc_args

module _ (repo_root : Text) (arch : Arch) (clang : Text) where
  -- `[..., "-nostdlib", "-c", src, "-o", obj]`
  abbrev assemble : Text → Text → Build (Unit {0})
  assemble src obj =
      run (clang_argv clang arch ++ codes "-nostdlib" ∷ codes "-c" ∷ src ∷ codes "-o" ∷ obj ∷ []) []
        obj

  abbrev compile : Text → Text → Build (Unit {0})
  compile src obj =
      run
        (clang_argv clang arch
          ++ codes "-ffreestanding"
            ∷ codes "-fno-builtin"
            ∷ codes "-ffunction-sections"
            ∷ codes "-fdata-sections"
            ∷ codes "-nostdlib"
            ∷ codes "-O2"
            ∷ codes "-c"
            ∷ src
            ∷ codes "-o"
            ∷ obj
            ∷ [])
        [] obj

  -- The object of a file of `hal_asm`.
  abbrev pub asm_object : Text → Text
  asm_object rel = (arch_dirs repo_root arch).build /+ object_name (basename rel)

  unfoldable pub build_asm : List Text → Build (List Text)
  build_asm [] = pure []
  build_asm (rel ∷ rels) = do
    assemble (hal_dir repo_root /+ rel) (asm_object rel)
    objs ← build_asm rels
    pure (asm_object rel ∷ objs)

  -- `_build_shared`
  unfoldable pub build_shared : Build (List Text)
  unfolding arch_dirs build_asm
  build_shared = do
    let dirs = arch_dirs repo_root arch
    let boot_o = dirs.build /+ codes "boot.o"
    let sink_o = dirs.build /+ codes "sink.o"
    let support_o = dirs.build /+ codes "support.o"
    does (make_dir dirs.build)
    assemble (dirs.hal_board /+ codes "boot.S") boot_o
    asm_objs ← build_asm arch.hal_asm
    compile (dirs.hal_native /+ codes "sink.c") sink_o
    compile (rt_common_c_dir repo_root /+ codes "support.c") support_o
    pure (boot_o ∷ (asm_objs ++ sink_o ∷ support_o ∷ []))

-- `_build_blade`: the resolved Blade, or the one that is built into the directory; an empty path is
-- no Blade.
unfoldable pub build_blade : Toolchain → Text → Build Text
unfolding module_path_arg blade_package_dir
build_blade tc build_dir = elim tc.blade_bin [
  | some (c ∷ path) ↦ pure (c ∷ path)
  | _ ↦ do
    let blade_bin = build_dir /+ codes "blade"
    blade_dir ← lift (blade_package_dir tc)
    toml ← lift (module_path_arg tc (codes "toml"))
    semver ← lift (module_path_arg tc (codes "semver"))
    imgformat ← lift (module_path_arg tc (codes "imgformat"))
    run
        (tc.sawc_argv
          ++ (blade_dir /+ codes "src" /+ codes "main.saw")
            ∷ codes "-o"
            ∷ blade_bin
            ∷ codes "--module-path"
            ∷ toml
            ∷ codes "--module-path"
            ∷ semver
            ∷ codes "--module-path"
            ∷ imgformat
            ∷ [])
        [] blade_bin
    pure blade_bin
]

-- `_blade_env`: what is added to the environment of the harness.
unfoldable pub blade_env : Toolchain → Text → Fields
unfolding sawc_env_value
blade_env tc clang =
    (codes "SAWC", sawc_env_value tc ++ codes " -Oz") ∷ (codes "SOS_CLANG", clang) ∷ []

object_name_example : object_name (codes "trap.S") ≡ codes "trap.o"
unfolding object_name
object_name_example = refl
