-- ===== src/Build/Concurrent.antt =====
-- Two builds of cases of the table of tools/sos_runner.py at a time, on one architecture.
use mathlib.Core.Path.{subst}
use sawos.Prelude.{◌≡◌, List, ◌∷◌, All, All-append, All-map, All-In, In}
use sawos.Text.{Text}
use sawos.Arch.{Arch, arch_dirs}
use sawos.Arch.Table.{arches}
use sawos.Case.{Case}
use sawos.Cases.{test_cases}
use sawos.Toolchain.{Toolchain}
use sawos.Build.{Files, built, Host, run_ops}
use sawos.Build.Shared.{build_shared}
use sawos.Build.Elf.{build_elf}
use sawos.Build.Names.{ArtifactOf}
use sawos.Build.Apart.{IsTool, Turn, run_among}
use sawos.Build.Footprint.{Outcome}
use sawos.Build.Objects.{
  IsShared, TrapOnly, arches-TrapOnly, test_cases-is_case_name, build_shared-Makes,
}
use sawos.Build.Undisturbed.{
  Artifact, Foreign, IsStepOfAnother, own-native, shared-native, undisturbed,
}

-- The objects that `_build_shared` returns are no files of a case of the table.
pub build_shared-native :
    (root : Text) (arch : Arch)
    → In arch (arches root)
    → (clang lld : Text) (tc : Toolchain) (shared : List Text)
    → (build_shared root arch clang).1 ≡ built shared
    → (c : Case) → In c (test_cases root)
    → All (λ p. ¬ Foreign (arch_dirs root arch).build (test_cases root) c p) shared
build_shared-native root arch ai clang lld tc shared e c i =
    let names = test_cases-is_case_name root in
    let are_shared =
      subst (Outcome (All (IsShared (arch_dirs root arch).build))) e
        (build_shared-Makes root arch clang
          (All-In TrapOnly (arches root) arch (arches-TrapOnly root) ai)).1 in
    All-map (shared-native root arch clang lld tc shared (test_cases root) names c i) shared
      are_shared

-- On every architecture of the table, with the objects that `_build_shared` returns, and with images
-- that are no files of other cases: however the steps of builds of other cases are mixed in, the build
-- of a case ends as it does alone, and each file of the case has the content that it has then.
pub build_elf-ArtifactOf :
    (root : Text) (arch : Arch)
    → In arch (arches root)
    → (clang lld : Text) (tc : Toolchain) (shared : List Text)
    → (build_shared root arch clang).1 ≡ built shared
    → (c : Case) → In c (test_cases root)
    → (host : Host) → IsTool host (Artifact (arch_dirs root arch).build (test_cases root))
    → (image : Text) (images : List Text)
    → All (λ p. ¬ Foreign (arch_dirs root arch).build (test_cases root) c p) (image ∷ images)
    → (s : List Turn) → All (IsStepOfAnother root arch clang lld tc shared (test_cases root) c) s
    → (f : Files)
    → let ops = (build_elf root arch clang tc lld shared c image images).0 in
      ((run_among host ops s f).0 ≡ (run_ops host ops f).0)
      × ((p : Text)
          → ArtifactOf (arch_dirs root arch).build c.name p
          → (run_among host ops s f).1 p ≡ (run_ops host ops f).1 p)
build_elf-ArtifactOf root arch ai clang lld tc shared e c i host tool image images h s t f =
    let cs = test_cases root in
    let names = test_cases-is_case_name root in
    let native = build_shared-native root arch ai clang lld tc shared e c i in
    let (same, files) =
      undisturbed root arch clang lld tc shared cs names c i host tool image images
        (All-append _ shared (image ∷ images) native h) s t f in
    (same, λ p a. files p (own-native root arch clang lld tc shared cs names c i p a))
