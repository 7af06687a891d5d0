-- ===== src/Build/Links.antt =====
-- The link of `_build_elf` of tools/sos_runner.py, and its refusal.
use sawos.Prelude.{
  ℕ, suc, ◌≡◌, ◌⊎◌, inl, inr, refl, sym, ap, ◌∙◌, Bool, true, false, List, [], ◌∷◌, ◌++◌, Option,
  none, some, arith, Option-cases, length, append_assoc,
}
use sawos.Text.{Text, codes}
use sawos.Paths.{◌/+◌}
use sawos.Arch.{Arch, arch_dirs}
use sawos.Case.{Case}
use sawos.Regions.{Row, region_rows, stub_lines}
use sawos.Toolchain.{Toolchain, ok, truthy, module_path_arg}
use sawos.Build.{Build, Built, built, tool_error, lift, ◌>>=◌, Op, make_dir, command, one_file}
use sawos.Build.Elf.{
  artifact, optional, when, has_regions, stitch_root_image, stage_children, accepted,
  stitch_regions, compile_kernel, stubs_object, payload_object, root_object, regions_object,
  build_elf,
}

-- The build ends with the operation, and returns the value.
abbrev pub EndsWith {ℓ} : {A : Type ℓ} → Op → A → Build A → Type ℓ
EndsWith op a m = (m.1 ≡ built a) × (before : List Op) × (m.0 ≡ before ++ op ∷ [])

module _ {ℓ κ} {A : Type ℓ} {B : Type κ} (m : Build A) (f : A → Build B) where
  bind-EndsWith :
      (a : A) (op : Op) (v : B) → m.1 ≡ built a → EndsWith op v (f a) → EndsWith op v (m >>= f)
  bind-EndsWith a op v e (r, before, q) =
      rw (e, ◌>>=◌)
        (r, m.0 ++ before, ap (λ ops. m.0 ++ ops) q ∙ sym (append_assoc m.0 before (op ∷ [])))

  bind-result : (a : A) (r : Built B) → m.1 ≡ built a → (f a).1 ≡ r → (m >>= f).1 ≡ r
  bind-result a r e q = rw (e, ◌>>=◌) q

  bind-tool_error : m.1 ≡ tool_error → (m >>= f).1 ≡ tool_error
  bind-tool_error e = rw (e, ◌>>=◌) refl

List-cases : {A : Type 0} (xs : List A) → (xs ≡ []) ⊎ ((x : A) × (ys : List A) × (xs ≡ x ∷ ys))
List-cases [] = inl refl
List-cases (x ∷ xs) = inr (x, xs, refl)

-- An object that is linked if it is asked for.
abbrev pub asked : Option Text → Text → List Text
asked none o = []
asked (some _) o = o ∷ []

abbrev pub asked_if : Bool → Text → List Text
asked_if true o = o ∷ []
asked_if false o = []

optional-result :
    (o : Option Text) (m : Text → Build (List Text)) (x : Text)
    → ((t : Text) → (m t).1 ≡ built (x ∷ []))
    → (optional o m).1 ≡ built (asked o x)
optional-result none m x h = refl
optional-result (some t) m x h = h t

when-result :
    (c : Bool) (m : Build (List Text)) (x : Text)
    → m.1 ≡ built (x ∷ [])
    → (when c m).1 ≡ built (asked_if c x)
when-result true m x h = h
when-result false m x h = refl

module _ (root : Text) (arch : Arch) (clang : Text) where
  stub_lines-accepted :
      (case : Case) (rows : List Row)
      → region_rows case arch ≡ some rows
      → (lines : List Text) × (stub_lines case arch ≡ some lines)
  unfolding stub_lines
  stub_lines-accepted case rows e = rw (e, stub_lines) (_, refl)

  stub_lines-refused : (case : Case) → region_rows case arch ≡ none → stub_lines case arch ≡ none
  unfolding stub_lines
  stub_lines-refused case e = rw (e, stub_lines) refl

  -- A table is refused only to a case that has one.
  refused-has_regions : (case : Case) → region_rows case arch ≡ none → has_regions case ≡ true
  unfolding region_rows
  refused-has_regions case e = elim (List-cases case.children) [
    | inl q ↦ absurd (cc (rw (q, region_rows) at e))
    | inr (p, ps, q) ↦ rw (q, has_regions) refl
  ]

  stage_children-result :
      (name : Text) (i : ℕ) (pkgs images : List Text)
      → length images ≡ length pkgs
      → (staged : List Text) × ((stage_children root arch clang name i pkgs images).1
          ≡ built staged)
  unfolding stage_children
  stage_children-result name i [] images e = ([], refl)
  stage_children-result name i (p ∷ pkgs) [] e = absurd (omega (arith, e))
  stage_children-result name i (p ∷ pkgs) (image ∷ images) e =
      let (staged, h) = stage_children-result name (suc i) pkgs images (omega (arith, e)) in
      (_, bind-result (stage_children root arch clang name (suc i) pkgs images) _ staged _ h refl)

  stitch_regions-accepted :
      (case : Case) (images lines : List Text)
      → length images ≡ length case.children
      → stub_lines case arch ≡ some lines
      → (stitch_regions root arch clang case images).1
        ≡ built (artifact (arch_dirs root arch).build case.name (codes "regions.o"))
  unfolding stitch_regions
  stitch_regions-accepted case images lines e q =
      let (staged, h) = stage_children-result case.name 0 case.children images e in
      bind-result (stage_children root arch clang case.name 0 case.children images) _ staged _ h
        (rw (q, accepted) refl)

  stitch_regions-refused :
      (case : Case) (images : List Text)
      → length images ≡ length case.children
      → stub_lines case arch ≡ none
      → (stitch_regions root arch clang case images).1 ≡ tool_error
  unfolding stitch_regions
  stitch_regions-refused case images e q =
      let (staged, h) = stage_children-result case.name 0 case.children images e in
      bind-result (stage_children root arch clang case.name 0 case.children images) _ staged _ h
        (rw (q, accepted) refl)

  regions_object-accepted :
      (case : Case) (images : List Text) (rows : List Row)
      → length images ≡ length case.children
      → region_rows case arch ≡ some rows
      → (regions_object root arch clang case images).1
        ≡ built (
            asked_if
              (has_regions case)
              (artifact (arch_dirs root arch).build case.name (codes "regions.o")))
  regions_object-accepted case images rows e q =
      let (lines, h) = stub_lines-accepted case rows q in
      when-result (has_regions case) _ _ (
        bind-result (stitch_regions root arch clang case images) _ _ _
          (stitch_regions-accepted case images lines e h) refl)

  regions_object-refused :
      (case : Case) (images : List Text)
      → length images ≡ length case.children
      → region_rows case arch ≡ none
      → (regions_object root arch clang case images).1 ≡ tool_error
  regions_object-refused case images e q =
      rw (refused-has_regions case q, when)
        (bind-tool_error (stitch_regions root arch clang case images) _
          (stitch_regions-refused case images e (stub_lines-refused case q)))

  -- The objects of a link, in their order.
  abbrev pub linked : Case → List Text → List Text
  linked case shared =
      let own = artifact (arch_dirs root arch).build case.name in
      shared
      ++ own (codes "o")
        ∷ (asked (truthy case.csrc) (own (codes "stubs.o"))
            ++ (asked (truthy case.asm) (own (codes "payload.o"))
                ++ (asked (truthy case.root_pkg) (own (codes "rootimg.o"))
                    ++ asked_if (has_regions case) (own (codes "regions.o")))))

  abbrev pub link_command : Text → Case → List Text → Op
  link_command lld case shared =
      let elf = artifact (arch_dirs root arch).build case.name (codes "elf") in
      command (record {
        argv =
            lld
            ∷ codes "-T"
            ∷ ((arch_dirs root arch).hal_board /+ codes "virt.ld")
            ∷ codes "--gc-sections"
            ∷ codes "-o"
            ∷ elf
            ∷ linked case shared;
        cwd = none;
        env = [];
        reads = linked case shared;
        writes = one_file elf;
      })

  module _ (tc : Toolchain) (lld m : Text) (shared : List Text) (case : Case) (image : Text)
      (images : List Text) (found : module_path_arg tc (codes "imgformat") ≡ ok m)
      (all_images : length images ≡ length case.children) where
    compile_kernel-result : (compile_kernel root arch clang tc case).1 ≡ built tt
    compile_kernel-result =
        bind-result (lift (module_path_arg tc (codes "imgformat"))) _ m _ (rw (found, lift) refl)
          refl

    stubs-result :
        (stubs_object root arch clang case).1
        ≡ built (
            asked
              (truthy case.csrc)
              (artifact (arch_dirs root arch).build case.name (codes "stubs.o")))
    stubs-result = optional-result (truthy case.csrc) _ _ λ t. refl

    payload-result :
        (payload_object root arch clang case).1
        ≡ built (
            asked
              (truthy case.asm)
              (artifact (arch_dirs root arch).build case.name (codes "payload.o")))
    payload-result = optional-result (truthy case.asm) _ _ λ t. refl

    root-result :
        (root_object root arch clang case image).1
        ≡ built (
            asked
              (truthy case.root_pkg)
              (artifact (arch_dirs root arch).build case.name (codes "rootimg.o")))
    unfolding stitch_root_image
    root-result = optional-result (truthy case.root_pkg) _ _ λ t. refl

    abbrev built_elf : Build Text
    built_elf = build_elf root arch clang tc lld shared case image images

    -- Where the table is refused, so is the build; else its last step is the link.
    abbrev pub IsLinked : Option (List Row) → Type 0
    IsLinked none = built_elf.1 ≡ tool_error
    IsLinked (some _) =
        EndsWith (link_command lld case shared)
          (artifact (arch_dirs root arch).build case.name (codes "elf")) built_elf

    accepted-IsLinked : (rows : List Row) → region_rows case arch ≡ some rows → IsLinked (some rows)
    unfolding build_elf
    accepted-IsLinked rows q =
        let (r, before, e) =
          bind-EndsWith (compile_kernel root arch clang tc case) _ tt _ _ compile_kernel-result (
            bind-EndsWith (stubs_object root arch clang case) _ _ _ _ stubs-result (
              bind-EndsWith (payload_object root arch clang case) _ _ _ _ payload-result (
                bind-EndsWith (root_object root arch clang case image) _ _ _ _ root-result (
                  bind-EndsWith (regions_object root arch clang case images) _ _ _ _
                    (regions_object-accepted case images rows all_images q) (refl, [], refl))))) in
        (
          r,
          make_dir (arch_dirs root arch).build ∷ before,
          ap (λ ops. make_dir (arch_dirs root arch).build ∷ ops) e,
        )

    refused-IsLinked : region_rows case arch ≡ none → IsLinked none
    unfolding build_elf
    refused-IsLinked q =
        bind-result (compile_kernel root arch clang tc case) _ tt _ compile_kernel-result (
          bind-result (stubs_object root arch clang case) _ _ _ stubs-result (
            bind-result (payload_object root arch clang case) _ _ _ payload-result (
              bind-result (root_object root arch clang case image) _ _ _ root-result (
                bind-tool_error (regions_object root arch clang case images) _
                  (regions_object-refused case images all_images q)))))

    -- With a toolchain that has its sources, and an image for each child: where the case's region rows
    -- are refused, `_build_elf` raises a ToolError; else its last step links, into the case's ELF that
    -- it returns, the shared objects, the kernel, and the stubs, the payload, the root image and the
    -- regions that the case asks for, in this order and nothing else.
    pub build_elf-IsLinked : IsLinked (region_rows case arch)
    build_elf-IsLinked = elim (Option-cases (region_rows case arch)) [
      | inl q ↦ rw q (refused-IsLinked q)
      | inr (rows, q) ↦ rw q (accepted-IsLinked rows q)
    ]
