-- ===== src/Build/Footprint.antt =====
-- The files that `_build_elf` of tools/sos_runner.py reads and writes.
use sawos.Prelude.{
  ℕ, suc, ◌≡◌, ◌⊎◌, inl, inr, refl, Bool, true, false, List, [], ◌∷◌, ◌++◌, Option, none, some, All,
  All-append, All-map, In,
}
use sawos.Text.{Text, codes, starts_with}
use sawos.Text.Equality.{text_eq-eq}
use sawos.Paths.{◌/+◌}
use sawos.Arch.{Arch, arch_dirs}
use sawos.Case.{Case}
use sawos.Regions.{stub_lines}
use sawos.Toolchain.{Toolchain, Result, ok, err, os_error, truthy, module_path_arg}
use sawos.Build.{
  Build, Built, built, tool_error, escaped, lift, run, ◌>>=◌, Op, make_dir, command, copy_file,
  write_file, one_file,
}
use sawos.Build.Elf.{
  artifact, optional, when, has_regions, staging, stitch_root_image, stage_children, accepted,
  stitch_regions, compile_kernel, stubs_object, payload_object, root_object, regions_object,
  build_elf,
}
use sawos.Build.Names.{is_stem, ArtifactOf, artifact-ArtifactOf, staged-ArtifactOf}
use sawos.Build.Apart.{may_write}

abbrev pub Outcome {ℓ} : {A : Type ℓ} → (A → Type 0) → Built A → Type 0
Outcome Q (built a) = Q a
Outcome Q _ = Unit

pub Outcome-map {ℓ} :
    {A : Type ℓ} {P Q : A → Type 0}
    → ((a : A) → P a → Q a)
    → (r : Built A) → Outcome P r
    → Outcome Q r
Outcome-map f (built a) h = f a h
Outcome-map f tool_error h = tt
Outcome-map f escaped h = tt

-- Every operation of a build has one property, and its value another.
abbrev pub Makes {ℓ} : {A : Type ℓ} → (Op → Type 0) → (A → Type 0) → Build A → Type 0
Makes P Q m = All P m.0 × Outcome Q m.1

pub bind-Makes {ℓ κ} :
    {A : Type ℓ} {B : Type κ} (P : Op → Type 0) (Q : A → Type 0) (R : B → Type 0) (m : Build A)
    (f : A → Build B)
    → Makes P Q m
    → ((a : A) → Q a → Makes P R (f a))
    → Makes P R (m >>= f)
bind-Makes P Q R (ops, built a) f (h, q) k =
    let (h', r) = k a q in (All-append P ops (f a).0 h h', r)
bind-Makes P Q R (ops, tool_error) f (h, q) k = (h, tt)
bind-Makes P Q R (ops, escaped) f (h, q) k = (h, tt)

-- The builds of one case: its directory, its name, and the files that it is given.
module _ (b n : Text) (given : List Text) where
  abbrev pub Known : Text → Type 0
  Known p = ArtifactOf b n p ⊎ In p given

  -- The operation writes only what is the case's, and reads only that and what it is given.
  abbrev pub Within : Op → Type 0
  Within (make_dir _) = Unit
  Within (command c) =
      ((p : Text) → may_write c.writes p ≡ true → ArtifactOf b n p) × All Known c.reads
  Within (copy_file src dst) = ArtifactOf b n dst × Known src
  Within (write_file path _) = ArtifactOf b n path

  run-Within :
      (output : Text)
      → ArtifactOf b n output
      → (p : Text) → may_write (one_file output) p ≡ true
      → ArtifactOf b n p
  unfolding may_write
  run-Within output h p w = rw (← text_eq-eq output p w) h

  lift-Makes {ℓ} : {A : Type ℓ} (r : Result A) → Makes Within (λ _. Unit) (lift r)
  lift-Makes (ok a) = (tt, tt)
  lift-Makes (err e) = (tt, tt)
  lift-Makes os_error = (tt, tt)

module _ (repo_root : Text) (arch : Arch) (clang : Text) (case : Case) (given : List Text)
    (stem : is_stem case.name ≡ true) where
  abbrev name : Text
  name = case.name

  abbrev b : Text
  b = (arch_dirs repo_root arch).build

  abbrev W : Op → Type 0
  W = Within b name given

  -- Every object of the list is the case's.
  abbrev Ours : List Text → Type 0
  Ours = All (ArtifactOf b name)

  own : (kind : Text) → ArtifactOf b name (artifact b name kind)
  own kind = artifact-ArtifactOf b name kind stem

  staged : ArtifactOf b name (staging repo_root arch clang name /+ codes "root.sosimg")
  unfolding starts_with
  staged = staged-ArtifactOf b name (codes "rootimg") (codes "root.sosimg") stem refl

  stitch_root_image-Makes :
      (image : Text)
      → In image given
      → Makes W (ArtifactOf b name) (stitch_root_image repo_root arch clang image name)
  unfolding stitch_root_image
  stitch_root_image-Makes image i =
      ((tt, ((staged, inr i), ((run-Within b name given _ (own _), (inl staged, tt)), tt))), own _)

  stage_children-Makes :
      (i : ℕ) (pkgs images : List Text)
      → All (λ p. In p given) images
      → Makes W Ours (stage_children repo_root arch clang name i pkgs images)
  unfolding stage_children
  stage_children-Makes i [] images h = (tt, tt)
  stage_children-Makes i (_ ∷ pkgs) [] h = (tt, tt)
  stage_children-Makes i (_ ∷ pkgs) (image ∷ images) (h, hs) =
      let rest =
        bind-Makes W Ours Ours (stage_children repo_root arch clang name (suc i) pkgs images) _
          (stage_children-Makes (suc i) pkgs images hs) (λ others os. (tt, (own _, os))) in
      (((own _, inr h), rest.0), rest.1)

  accepted-Makes :
      (lines : Option (List Text)) → Makes W (λ _. Unit) (accepted repo_root arch clang lines)
  accepted-Makes none = (tt, tt)
  accepted-Makes (some lines) = (tt, tt)

  Known-All : (ps : List Text) → Ours ps → All (Known b name given) ps
  Known-All ps = All-map (λ p h. inl h) ps

  run-Makes :
      (argv reads : List Text) (kind : Text)
      → All (Known b name given) reads
      → Makes W (λ _. Unit) (run argv reads (artifact b name kind))
  run-Makes argv reads kind h = (((run-Within b name given _ (own kind), h), tt), tt)

  stitch_regions-Makes :
      (child_images : List Text)
      → All (λ p. In p given) child_images
      → Makes W (ArtifactOf b name) (stitch_regions repo_root arch clang case child_images)
  unfolding stitch_regions
  stitch_regions-Makes child_images h =
      let rest =
        bind-Makes W Ours (ArtifactOf b name)
          (stage_children repo_root arch clang name 0 case.children child_images) _
          (stage_children-Makes 0 case.children child_images h)
          (λ staged os.
            bind-Makes W (λ _. Unit) (ArtifactOf b name)
              (accepted repo_root arch clang (stub_lines case arch)) _
              (accepted-Makes (stub_lines case arch))
              (λ lines _. (
                (
                  own _,
                  ((run-Within b name given _ (own _), (inl (own _), Known-All staged os)), tt),
                ),
                own _,
              ))) in
      ((tt, rest.0), rest.1)

  optional-Makes :
      (o : Option Text) (m : Text → Build (List Text))
      → ((x : Text) → Makes W Ours (m x))
      → Makes W Ours (optional o m)
  optional-Makes none m h = (tt, tt)
  optional-Makes (some x) m h = h x

  when-Makes : (c : Bool) (m : Build (List Text)) → Makes W Ours m → Makes W Ours (when c m)
  when-Makes true m h = h
  when-Makes false m h = (tt, tt)

  -- A build of one object, put into a list.
  one_object :
      (m : Build Text)
      → Makes W (ArtifactOf b name) m
      → Makes W Ours (m >>= λ o. ([], built (o ∷ [])))
  one_object m h = bind-Makes W (ArtifactOf b name) Ours m _ h (λ o q. (tt, (q, tt)))

  stubs_object-Makes : Makes W Ours (stubs_object repo_root arch clang case)
  stubs_object-Makes =
      optional-Makes (truthy case.csrc) _
        λ c. (((run-Within b name given _ (own _), tt), tt), (own _, tt))

  payload_object-Makes : Makes W Ours (payload_object repo_root arch clang case)
  payload_object-Makes =
      optional-Makes (truthy case.asm) _
        λ s. (((run-Within b name given _ (own _), tt), tt), (own _, tt))

  root_object-Makes :
      (image : Text) → In image given → Makes W Ours (root_object repo_root arch clang case image)
  root_object-Makes image h =
      optional-Makes (truthy case.root_pkg) _ λ _. one_object _ (stitch_root_image-Makes image h)

  regions_object-Makes :
      (images : List Text)
      → All (λ p. In p given) images
      → Makes W Ours (regions_object repo_root arch clang case images)
  regions_object-Makes images h =
      when-Makes (has_regions case) _ (one_object _ (stitch_regions-Makes images h))

  compile_kernel-Makes :
      (tc : Toolchain) → Makes W (λ _. Unit) (compile_kernel repo_root arch clang tc case)
  compile_kernel-Makes tc =
      bind-Makes W (λ _. Unit) (λ _. Unit) (lift (module_path_arg tc (codes "imgformat"))) _
        (lift-Makes b name given (module_path_arg tc (codes "imgformat")))
        (λ m _. (((run-Within b name given _ (own _), tt), tt), tt))

  -- `_build_elf` writes only files of its case, and returns one. It reads those and what it is given:
  -- the shared objects, the root image and the child images.
  pub build_elf-Makes :
      (tc : Toolchain) (lld : Text) (shared : List Text) (image : Text) (images : List Text)
      → All (λ p. In p given) shared
      → In image given
      → All (λ p. In p given) images
      → Makes W (ArtifactOf b name) (build_elf repo_root arch clang tc lld shared case image images)
  unfolding build_elf
  build_elf-Makes tc lld shared image images hs hi his =
      let R = ArtifactOf b name in
      let rest =
        bind-Makes W (λ _. Unit) R (compile_kernel repo_root arch clang tc case) _
          (compile_kernel-Makes tc)
          λ _ _.
            bind-Makes W Ours R (stubs_object repo_root arch clang case) _ stubs_object-Makes
              λ stubs os.
                bind-Makes W Ours R (payload_object repo_root arch clang case) _
                  payload_object-Makes
                  λ pay op.
                    bind-Makes W Ours R (root_object repo_root arch clang case image) _
                      (root_object-Makes image hi)
                      λ root or.
                        bind-Makes W Ours R (regions_object repo_root arch clang case images) _
                          (regions_object-Makes images his)
                          λ regions og.
                            let objs = stubs ++ (pay ++ (root ++ regions)) in
                            let ours : Ours objs =
                              All-append _ stubs _ os
                                (All-append _ pay _ op (All-append _ root regions or og)) in
                            (
                              (
                                (
                                  run-Within b name given _ (own _),
                                  All-append _ shared _ (All-map (λ p i. inr i) shared hs)
                                      (inl (own _), Known-All objs ours),
                                ),
                                tt,
                              ),
                              own _,
                            ) in
      ((tt, rest.0), rest.1)
