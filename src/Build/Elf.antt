-- ===== src/Build/Elf.antt =====
-- `_stitch_root_image`, `_stitch_regions` and `_build_elf` of tools/sos_runner.py.
use sawos.Prelude.{ℕ, suc, ◌||◌, Bool, true, false, List, [], ◌∷◌, ◌++◌, Option, none, some}
use sawos.Text.{Text, codes, join}
use sawos.Text.Numerals.{decimal}
use sawos.Paths.{◌/+◌, kernel_dir, tests_dir, core_module, sosrt_module, sosabi_module}
use sawos.Arch.{Arch, arch_dirs}
use sawos.Case.{Case}
use sawos.Regions.{stub_lines}
use sawos.Toolchain.{Toolchain, truthy, module_path_arg}
use sawos.Build.{
  Build, tool_error, escaped, pure, does, lift, ◌>>=◌, ◌>>◌, run, make_dir, copy_file, write_file,
}
use sawos.Build.Shared.{clang_argv}

-- `os.path.join(dirs["build"], f"{name}.{kind}")`: the files that a case's build makes.
abbrev pub artifact : Text → Text → Text → Text
artifact build name kind = build /+ (name ++ codes "." ++ kind)

abbrev pub child_kind : ℕ → Text
child_kind i = codes "child" ++ (decimal i ++ codes ".sosimg")

-- `if x: ...`, with nothing to link otherwise; an empty text is false.
abbrev pub optional : Option Text → (Text → Build (List Text)) → Build (List Text)
optional none m = pure []
optional (some x) m = m x

abbrev pub when : Bool → Build (List Text) → Build (List Text)
when true m = m
when false m = pure []

-- Whether there is anything for the case in the boot region table.
abbrev pub has_regions : Case → Bool
has_regions case = elim case.children [ [] ↦ case.pool || case.device | _ ∷ _ ↦ true ]

module _ (repo_root : Text) (arch : Arch) (clang : Text) where
  abbrev build_dir : Text
  build_dir = (arch_dirs repo_root arch).build

  abbrev pub staging : Text → Text
  staging name = artifact build_dir name (codes "rootimg")

  -- `_stitch_root_image`: the stub names `root.sosimg`, found through `-I`.
  unfoldable pub stitch_root_image : Text → Text → Build Text
  unfolding arch_dirs
  stitch_root_image image name = do
    let staged = staging name /+ codes "root.sosimg"
    let stub_o = artifact build_dir name (codes "rootimg.o")
    does (make_dir (staging name))
    does (copy_file image staged)
    run
        (clang_argv clang arch
          ++ codes "-nostdlib"
            ∷ codes "-I"
            ∷ staging name
            ∷ codes "-c"
            ∷ (kernel_dir repo_root /+ codes "rootimg.S")
            ∷ codes "-o"
            ∷ stub_o
            ∷ [])
        (staged ∷ []) stub_o
    pure stub_o

  -- The loop that copies the child images: the paths that it wrote. A list that is too short is an
  -- IndexError.
  unfoldable pub stage_children : Text → ℕ → List Text → List Text → Build (List Text)
  stage_children name i [] images = pure []
  stage_children name i (_ ∷ pkgs) [] = ([], escaped)
  stage_children name i (_ ∷ pkgs) (image ∷ images) = do
    let staged = artifact build_dir name (child_kind i)
    does (copy_file image staged)
    others ← stage_children name (suc i) pkgs images
    pure (staged ∷ others)

  abbrev pub accepted : Option (List Text) → Build (List Text)
  accepted none = ([], tool_error)
  accepted (some lines) = pure lines

  -- `_stitch_regions`
  unfoldable pub stitch_regions : Case → List Text → Build Text
  unfolding arch_dirs stage_children stub_lines
  stitch_regions case child_images = do
    let stub_s = artifact build_dir case.name (codes "regions.S")
    let stub_o = artifact build_dir case.name (codes "regions.o")
    does (make_dir build_dir)
    staged ← stage_children case.name 0 case.children child_images
    lines ← accepted (stub_lines case arch)
    does (write_file stub_s (join (b'\n' ∷ []) lines))
    run
        (clang_argv clang arch
          ++ codes "-nostdlib"
            ∷ codes "-I"
            ∷ build_dir
            ∷ codes "-c"
            ∷ stub_s
            ∷ codes "-o"
            ∷ stub_o
            ∷ [])
        (stub_s ∷ staged) stub_o
    pure stub_o

  abbrev features_args : Option Text → List Text
  features_args features = elim (truthy features) [
    | none ↦ []
    | some f ↦ codes "--target-features" ∷ f ∷ []
  ]

  abbrev module_args : List Text → List Text
  module_args [] = []
  module_args (m ∷ ms) = codes "--module-path" ∷ m ∷ module_args ms

  -- The command that compiles the case's kernel.
  abbrev pub compile_kernel : Toolchain → Case → Build (Unit {0})
  compile_kernel tc case = do
    let dirs = arch_dirs repo_root arch
    let obj = artifact build_dir case.name (codes "o")
    imgformat ← lift (module_path_arg tc (codes "imgformat"))
    run
        (tc.sawc_argv
          ++ case.src
            ∷ codes "-o"
            ∷ obj
            ∷ codes "-Oz"
            ∷ codes "--freestanding"
            ∷ codes "--no-hidden-alloc"
            ∷ codes "--runtime-provider"
            ∷ codes "--target"
            ∷ arch.triple
            ∷ (features_args arch.features
                ++ module_args (
                    core_module repo_root
                    ∷ (codes "hal=" ++ dirs.hal_kernel)
                    ∷ imgformat
                    ∷ sosrt_module repo_root
                    ∷ sosabi_module repo_root
                    ∷ arch.hal_modules)))
        [] obj

  -- The case's own C file, its payload, its root image and its regions: the objects, if it has them.
  abbrev pub stubs_object : Case → Build (List Text)
  stubs_object case = optional (truthy case.csrc) λ c. do
    let c_obj = artifact build_dir case.name (codes "stubs.o")
    run
        (clang_argv clang arch
          ++ codes "-nostdlib"
            ∷ codes "-ffreestanding"
            ∷ codes "-O2"
            ∷ codes "-c"
            ∷ (tests_dir repo_root /+ c)
            ∷ codes "-o"
            ∷ c_obj
            ∷ [])
        [] c_obj
    pure (c_obj ∷ [])

  abbrev pub payload_object : Case → Build (List Text)
  payload_object case = optional (truthy case.asm) λ s. do
    let payload_o = artifact build_dir case.name (codes "payload.o")
    run
        (clang_argv clang arch
          ++ codes "-nostdlib"
            ∷ codes "-c"
            ∷ ((arch_dirs repo_root arch).tests /+ s)
            ∷ codes "-o"
            ∷ payload_o
            ∷ [])
        [] payload_o
    pure (payload_o ∷ [])

  abbrev pub root_object : Case → Text → Build (List Text)
  root_object case root_image =
      optional (truthy case.root_pkg)
        λ _. do stub_o ← stitch_root_image root_image case.name; pure (stub_o ∷ [])

  abbrev pub regions_object : Case → List Text → Build (List Text)
  regions_object case child_images =
      when (has_regions case) do stub_o ← stitch_regions case child_images; pure (stub_o ∷ [])

  -- `_build_elf`: `root_image` and `child_images` are what the case's dictionary holds for the
  -- architecture.
  unfoldable pub build_elf : Toolchain → Text → List Text → Case → Text → List Text → Build Text
  unfolding arch_dirs module_path_arg stitch_root_image stitch_regions
  build_elf tc lld shared_objs case root_image child_images = do
    let elf = artifact build_dir case.name (codes "elf")
    does (make_dir build_dir)
    compile_kernel tc case
    stubs ← stubs_object case
    payload ← payload_object case
    root ← root_object case root_image
    regions ← regions_object case child_images
    let own = artifact build_dir case.name (codes "o")
    let objs = shared_objs ++ own ∷ (stubs ++ (payload ++ (root ++ regions)))
    run
        (lld
          ∷ codes "-T"
          ∷ ((arch_dirs repo_root arch).hal_board /+ codes "virt.ld")
          ∷ codes "--gc-sections"
          ∷ codes "-o"
          ∷ elf
          ∷ objs)
        objs elf
    pure elf
