-- ===== src/Run/Totals.antt =====
-- The counts and the exit status of a run of tools/sos_runner.py, read back to its cases.
use sawos.Prelude.{
  ◌+◌, ◌≡◌, ◌≢◌, ◌⊎◌, ◌↔◌, inl, inr, refl, sym, ap, ◌∙◌, All-map, All-zip, true, false, ◌&&◌, List,
  [], ◌∷◌, none, some, arith, length, All, Bool-cases,
}
use sawos.Text.{Text}
use sawos.Arch.{Arch}
use sawos.Case.{Case}
use sawos.Build.{Built, built, tool_error, escaped}
use sawos.Check.{passed}
use sawos.Run.Packages.{OfPackages, packages_of-All}
use sawos.Run.{
  Tools, Ran, Counts, ran_verdict, with_images, images_found, cases_on, partition_tier, packages_of,
  packages_built, run_case, run_cases, run_arch, run_all, exit_status, judge, keep, names_arch,
  fits_tier,
}
use sawos.Run.Images.{IsFound, and_built_iff, images_found-OfPackages}
use sawos.Run.Counts.{
  Clean, tally-Clean, total-Clean, status_of-Clean, verdict_of-passed, length-tally, phases-length,
  phases-Clean, with_images-length, with_images-Clean,
}

-- The selected cases that name the architecture and fit its tier.
abbrev pub runnable : Arch → List Case → List Case
runnable arch = keep (λ c. names_arch arch c && fits_tier arch c)

Built-cases : (r : Built Text) → ((a : Text) × (r ≡ built a)) ⊎ ((r ≡ tool_error) ⊎ (r ≡ escaped))
Built-cases (built a) = inl (a, refl)
Built-cases tool_error = inr (inl refl)
Built-cases escaped = inr (inr refl)

built-injective : {a b : Text} → built a ≡ built b → a ≡ b
built-injective e = cc

ran_verdict-passed :
    (arch : Arch) (c : Case) (r : Built Ran)
    → (ran_verdict arch c r ≡ some true)
      ↔ ((ran : Ran) × (r ≡ built ran) × (judge arch c ran ≡ passed))
ran_verdict-passed arch c (built ran) =
    let v = verdict_of-passed (judge arch c ran) in
    (λ h. (ran, refl, v.0 h), λ (other, e, h). v.1 (rw (built_run e) h))
  where
    built_run : {a b : Ran} → built a ≡ built b → a ≡ b
    built_run e = cc
ran_verdict-passed arch c tool_error = (λ h. absurd (cc (h)), λ (ran, e, _). absurd (cc (e)))
ran_verdict-passed arch c escaped = (λ h. absurd (cc (h)), λ (ran, e, _). absurd (cc (e)))

module _ (tools : Tools) (arch : Arch) where
  run_cases-length :
      (cs : List Case) (n : Counts) → run_cases tools arch cs ≡ some n → n.0 + n.1 ≡ length cs
  unfolding run_cases
  run_cases-length [] n h = ground arith
  run_cases-length (c ∷ cs) n h =
      length-tally (run_case tools arch c) (run_cases tools arch cs) (length cs) n
        (run_cases-length cs) h

  run_cases-Clean :
      (cs : List Case)
      → Clean (run_cases tools arch cs) ↔ All (λ c. run_case tools arch c ≡ some true) cs
  unfolding run_cases
  run_cases-Clean [] = (λ _. tt, λ _. (0, refl))
  run_cases-Clean (c ∷ cs) =
      let one = tally-Clean (run_case tools arch c) (run_cases tools arch cs) in
      let rest = run_cases-Clean cs in
      (λ h. ((one.0 h).0, rest.0 (one.0 h).1), λ (h, hs). one.1 (h, rest.1 hs))

  partition_tier-runnable :
      (cs : List Case) → (partition_tier arch (cases_on arch cs)).0 ≡ runnable arch cs
  unfolding partition_tier cases_on keep
  partition_tier-runnable [] = refl
  partition_tier-runnable (c ∷ cs) = elim (Bool-cases (names_arch arch c)) [
    | inl e ↦ elim (Bool-cases (fits_tier arch c)) [
      | inl q ↦ rw (e, q) (ap (λ xs. c ∷ xs) (partition_tier-runnable cs))
      | inr q ↦ rw (e, q) (partition_tier-runnable cs)
    ]
    | inr e ↦ rw e (partition_tier-runnable cs)
  ]

  -- The case builds, QEMU runs it with no exception, and the check accepts what it did.
  abbrev pub CasePasses : Case → Type 0
  CasePasses c =
      (elf : Text) × (tools.build_elf arch c ≡ built elf)
      × (ran : Ran) × (tools.run_qemu arch elf c.stdin ≡ built ran)
      × (judge arch c ran ≡ passed)

  -- What a case that may run here needs: the HAL and the packages that it names are built, their images
  -- are found, and it passes.
  abbrev pub Passes : Case → Type 0
  Passes c =
      (tools.build_shared arch ≡ built tt)
      × OfPackages (λ p. tools.build_package arch p ≡ built tt) c
      × (OfPackages (λ p. tools.root_image_path arch p ≡ built tt) c × CasePasses c)

  run_case_unbuilt :
      (c : Case) → tools.build_elf arch c ≡ tool_error → run_case tools arch c ≡ some false
  unfolding run_case
  run_case_unbuilt c e = rw (e, run_case) refl

  run_case_escaped : (c : Case) → tools.build_elf arch c ≡ escaped → run_case tools arch c ≡ none
  unfolding run_case
  run_case_escaped c e = rw (e, run_case) refl

  run_case_built :
      (c : Case) (elf : Text)
      → tools.build_elf arch c ≡ built elf
      → run_case tools arch c ≡ ran_verdict arch c (tools.run_qemu arch elf c.stdin)
  unfolding run_case
  run_case_built c elf e = rw (e, run_case) refl

  run_case-CasePasses : (c : Case) → (run_case tools arch c ≡ some true) ↔ CasePasses c
  run_case-CasePasses c = elim (Built-cases (tools.build_elf arch c)) [
    | inl (elf, e) ↦
        let v = ran_verdict-passed arch c (tools.run_qemu arch elf c.stdin) in
        let step = run_case_built c elf e in
        (
          λ h. let (ran, q, p) = v.0 (sym step ∙ h) in (elf, e, ran, q, p),
          λ (other, q, ran, r, p). step ∙ v.1 (ran, rw (built-injective (sym e ∙ q)) r, p),
        )
    | inr (inl e) ↦
        let step = run_case_unbuilt c e in
        (λ h. absurd (cc (step, h)), λ (elf, q, _, _, _). absurd (cc (e, q)))
    | inr (inr e) ↦
        let step = run_case_escaped c e in
        (λ h. absurd (cc (step, h)), λ (elf, q, _, _, _). absurd (cc (e, q)))
  ]

  packages_built-All :
      (ps : List Text)
      → (packages_built tools arch ps ≡ built tt)
        ↔ All (λ p. tools.build_package arch p ≡ built tt) ps
  unfolding packages_built
  packages_built-All [] = (λ _. tt, λ _. refl)
  packages_built-All (p ∷ ps) =
      let one = and_built_iff (tools.build_package arch p) (packages_built tools arch ps) in
      let rest = packages_built-All ps in
      (λ h. ((one.0 h).0, rest.0 (one.0 h).1), λ (h, hs). one.1 (h, rest.1 hs))

  IsBuilt : Text → Type 0
  IsBuilt p = tools.build_package arch p ≡ built tt

  packages_built-OfPackages :
      (cs : List Case)
      → (packages_built tools arch (packages_of [] cs) ≡ built tt) ↔ All (OfPackages IsBuilt) cs
  unfolding IsBuilt
  packages_built-OfPackages cs =
      let built = packages_built-All (packages_of [] cs) in
      let each = packages_of-All IsBuilt [] cs in
      (λ h. (each.0 (built.0 h)).1, λ h. built.1 (each.1 (tt, h)))

  run_cases-CasePasses : (cs : List Case) → Clean (run_cases tools arch cs) ↔ All CasePasses cs
  run_cases-CasePasses cs =
      let iff = run_cases-Clean cs in
      (
        λ h. All-map (λ c. (run_case-CasePasses c).0) cs (iff.0 h),
        λ h. iff.1 (All-map (λ c. (run_case-CasePasses c).1) cs h),
      )

  images-Clean :
      (cs : List Case)
      → Clean (with_images (images_found tools arch cs) (run_cases tools arch cs))
        ↔ All (λ c. OfPackages (IsFound tools arch) c × CasePasses c) cs
  images-Clean cs =
      let found = images_found-OfPackages tools arch cs in
      let ran = run_cases-CasePasses cs in
      let both = with_images-Clean (images_found tools arch cs) (run_cases tools arch cs) in
      (
        λ h. All-zip (λ c f p. (f, p)) cs (found.0 (both.0 h).0) (ran.0 (both.0 h).1),
        λ h. both.1 (found.1 (All-map (λ c (f, _). f) cs h), ran.1 (All-map (λ c (_, p). p) cs h)),
      )

  -- The passed and the failed cases of one architecture are together the cases that may run there,
  -- whichever step of the build fails, unless an exception ends the run.
  pub run_arch-length :
      (selected : List Case) (n : Counts)
      → run_arch tools arch selected ≡ some n
      → n.0 + n.1 ≡ length (runnable arch selected)
  unfolding run_arch
  run_arch-length selected n h =
      let cases = (partition_tier arch (cases_on arch selected)).0 in
      rw (← partition_tier-runnable selected) (
        phases-length (tools.build_shared arch) (packages_built tools arch (packages_of [] cases))
          cases (with_images (images_found tools arch cases) (run_cases tools arch cases)) n
          (with_images-length (images_found tools arch cases) (length cases)
            (run_cases tools arch cases) (run_cases-length cases))
          h)

  run_arch-Clean :
      (selected : List Case)
      → Clean (run_arch tools arch selected)
        ↔ ((tools.build_shared arch ≢ escaped) × All Passes (runnable arch selected))
  unfolding run_arch IsBuilt
  run_arch-Clean selected =
      let cases = (partition_tier arch (cases_on arch selected)).0 in
      rw (← partition_tier-runnable selected) (
        phases-Clean (tools.build_shared arch) (packages_built tools arch (packages_of [] cases))
          cases (with_images (images_found tools arch cases) (run_cases tools arch cases))
          (OfPackages IsBuilt) (λ c. OfPackages (IsFound tools arch) c × CasePasses c)
          (packages_built-OfPackages cases) (images-Clean cases))

-- The build of the HAL raises nothing but a ToolError, and what may run here passes. (Where nothing
-- may run, the HAL may fail.)
abbrev pub ArchPasses : Tools → List Case → Arch → Type 0
ArchPasses tools selected a =
    (tools.build_shared a ≢ escaped) × All (Passes tools a) (runnable a selected)

run_all-Clean :
    (tools : Tools) (arches : List Arch) (selected : List Case)
    → Clean (run_all tools arches selected) ↔ All (ArchPasses tools selected) arches
unfolding run_all
run_all-Clean tools [] selected = (λ _. tt, λ _. (0, refl))
run_all-Clean tools (a ∷ others) selected =
    let one = total-Clean (run_arch tools a selected) (run_all tools others selected) in
    let here = run_arch-Clean tools a selected in
    let rest = run_all-Clean tools others selected in
    (λ h. (here.0 (one.0 h).0, rest.0 (one.0 h).1), λ (h, hs). one.1 (here.1 h, rest.1 hs))

-- A run exits with 0 exactly when, on every architecture of the run, the build of the kernel HAL raises
-- nothing but a ToolError, and each case that may run there has the HAL and the packages that it names
-- built, the packages' images found and its own image built, and is run by the emulator with no
-- exception and passed by the check.
pub exit_status-Passes :
    (tools : Tools) (arches : List Arch) (selected : List Case)
    → (exit_status tools arches selected ≡ 0) ↔ All (ArchPasses tools selected) arches
unfolding exit_status
exit_status-Passes tools arches selected =
    let s = status_of-Clean (run_all tools arches selected) in
    let r = run_all-Clean tools arches selected in (λ h. r.0 (s.0 h), λ h. s.1 (r.1 h))
