-- ===== src/Examples/Builds.antt =====
-- The builds of two cases at a time, the build of a package, the link, the emulator and the search
-- for the tools, at concrete inputs.
use sawos.Prelude.{
  ◌≡◌, ap, ◌∙◌, arith, inl, inr, refl, true, false, List, [], ◌∷◌, ◌++◌, Option, none, some, In,
  if◌then◌else◌, map,
}
use sawos.Text.{Text, codes, elem, text_eq, ends_with, starts_with}
use sawos.Text.Format.{field}
use sawos.Paths.{◌/+◌, basename, base_from}
use sawos.Arch.{arch_dirs}
use sawos.Arch.Table.{riscv32}
use sawos.Case.{Case}
use sawos.Cases.{test_cases}
use sawos.Cases.Kernel.{no_root_image, trap_fault}
use sawos.Regions.{region_rows}
use sawos.Prelude.Int.{pos}
use sawos.Select.{plain_name}
use sawos.Run.{decoded}
use sawos.Run.Series.{Workshop, run_series}
use sawos.Run.Alone.{run_alone, run_series-alone}
use sawos.Build.Links.{IsLinked, build_elf-IsLinked}
use sawos.Toolchain.{Toolchain, ok, module_path_arg, module_source, require_root}
use sawos.Build.{Files, Build, make_dir, Target, one_file, tree, built, Host, Op, run_ops}
use sawos.Build.Apart.{IsTool, may_write, Turn, mine, theirs, run_among}
use sawos.Build.Shared.{build_shared, build_asm, object_name}
use sawos.Build.Elf.{build_elf}
use sawos.Build.Names.{as_prefix, ArtifactOf}
use sawos.Build.Undisturbed.{Foreign}
use sawos.Build.Concurrent.{build_elf-ArtifactOf}

abbrev pub content : Option Text → Text
content none = codes "-"
content (some t) = t

-- A program that writes what it has read.
abbrev pub gathered : List Text → Files → Text
gathered [] f = []
gathered (p ∷ ps) f = content (f p) ++ gathered ps f

-- A tree that is written to is left empty.
abbrev pub left_in : Target → Text → Option Text
left_in (one_file _) x = some x
left_in (tree _) x = none

unfoldable pub written_to : Target → Text → Files → Files
unfolding may_write
written_to t x f p = if may_write t p then left_in t x else f p

abbrev pub gathering : Host
gathering = record {
  exec = λ c f. (built tt, written_to c.writes (gathered c.reads f) f);
  list_dir = λ dir f. [];
}

gathered-same :
    (ps : List Text) (f g : Files)
    → ((p : Text) → In p ps → f p ≡ g p)
    → gathered ps f ≡ gathered ps g
gathered-same [] f g h = refl
gathered-same (p ∷ ps) f g h =
    rw (h p (inl refl)) (rw (gathered-same ps f g (λ q i. h q (inr i))) refl)

gathering-IsTool : (A : Text → Type 0) → IsTool gathering A
unfolding written_to
gathering-IsTool A = record {
  confined = λ c f p w. rw (w, if◌then◌else◌) refl;
  declared = λ c f g h.
      (refl, λ p w. rw (w, if◌then◌else◌) (rw (gathered-same c.reads f g λ q i. h q λ a. i) refl));
}

abbrev root : Text
root = codes "/r"

abbrev pub checkout : Toolchain
checkout = record {
  sawc_argv = codes "sawc" ∷ [];
  source = codes "SAWLANG_ROOT";
  root = some (codes "/s");
  blade_bin = none;
  notes = [];
}

abbrev objects : List Text
objects =
    map (λ o. (arch_dirs root (riscv32 root)).build /+ o)
      (codes "boot.o" ∷ codes "trap.o" ∷ codes "sink.o" ∷ codes "support.o" ∷ [])

objects_shared : (build_shared root (riscv32 root) (codes "clang")).1 ≡ built objects
unfolding build_shared build_asm object_name basename base_from ◌/+◌ starts_with ends_with arch_dirs
objects_shared = refl

-- The directory of the builds, which starts with the root.
build_prefix :
    (rest : Text) × (as_prefix (arch_dirs root (riscv32 root)).build ≡ codes "/r" ++ rest)
unfolding as_prefix ◌/+◌ starts_with ends_with arch_dirs
build_prefix = (_, refl)

image-native :
    (c : Case) → ¬ Foreign (arch_dirs root (riscv32 root)).build (test_cases root) c (codes "/x")
image-native c (d, i, ne, (rest, e)) =
    let (tail, q) = build_prefix in
    let same : codes "/x" ≡ codes "/r" ++ (tail ++ (d.name ++ codes "." ++ rest)) =
      e ∙ (ap (λ b. b ++ (d.name ++ codes "." ++ rest)) q) in
    absurd (ground (arith, same))

abbrev plan_of : Case → Text → Build Text
plan_of case image =
    build_elf root (riscv32 root) (codes "clang") checkout (codes "ld.lld") objects case image []

-- The command that compiles another case's kernel.
abbrev compiles : Op
compiles = elim (plan_of (trap_fault root) (codes "/x")).0 [ _ ∷ (op ∷ _) ↦ op | _ ↦ make_dir [] ]

compiles_theirs : In compiles (plan_of (trap_fault root) (codes "/x")).0
unfolding build_elf module_path_arg module_source require_root field text_eq
compiles_theirs = inr (inl refl)

abbrev turns : List Turn
turns = mine ∷ theirs compiles ∷ mine ∷ []

abbrev no_files : Files
no_files p = none

build_elf-ArtifactOf_example :
    ((run_among gathering (plan_of (no_root_image root) (codes "/x")).0 turns no_files).0
      ≡ (run_ops gathering (plan_of (no_root_image root) (codes "/x")).0 no_files).0)
    × ((p : Text)
        → ArtifactOf (arch_dirs root (riscv32 root)).build (no_root_image root).name p
        → (run_among gathering (plan_of (no_root_image root) (codes "/x")).0 turns no_files).1 p
          ≡ (run_ops gathering (plan_of (no_root_image root) (codes "/x")).0 no_files).1 p)
build_elf-ArtifactOf_example =
    build_elf-ArtifactOf root (riscv32 root) (inl refl) (codes "clang") (codes "ld.lld") checkout
      objects objects_shared (no_root_image root) (inl refl) gathering (gathering-IsTool _)
      (codes "/x") [] (image-native (no_root_image root), tt) turns
      (
        tt,
        ((trap_fault root, inr (inl refl), (λ e. cc), codes "/x", [], compiles_theirs), (tt, tt)),
      )
      no_files

abbrev with_root : Case
with_root = record (no_root_image root) { root_pkg = some (codes "/r/root"); pool = true }

found_source :
    module_path_arg checkout (codes "imgformat") ≡ ok (codes "imgformat=/s/libs/imgformat/src")
unfolding module_path_arg module_source require_root field text_eq ◌/+◌ starts_with ends_with
found_source = refl

build_elf-IsLinked_example :
    IsLinked root
      (riscv32 root)
      (codes "clang")
      checkout
      (codes "ld.lld")
      (codes "imgformat=/s/libs/imgformat/src")
      objects
      with_root
      (codes "/x")
      []
      found_source
      refl
      (region_rows with_root (riscv32 root))
build_elf-IsLinked_example =
    build_elf-IsLinked root (riscv32 root) (codes "clang") checkout (codes "ld.lld")
      (codes "imgformat=/s/libs/imgformat/src") objects with_root (codes "/x") [] found_source refl

-- A machine that prints the ELF that it is given.
abbrev workshop : Workshop
workshop = record {
  root = root;
  arch = riscv32 root;
  clang = codes "clang";
  lld = codes "ld.lld";
  toolchain = checkout;
  shared_objs = objects;
  host = gathering;
  root_image = λ c. codes "/x";
  child_images = λ c. [];
  qemu = λ elf text stdin.
      built (record { status = some (pos 0); out = decoded (content text); timed_out = false });
}

abbrev two_cases : List Case
two_cases = no_root_image root ∷ trap_fault root ∷ []

run_series-alone_example :
    run_series workshop two_cases no_files ≡ run_alone workshop two_cases no_files
unfolding elem plain_name
run_series-alone_example =
    run_series-alone workshop (inl refl) objects_shared (gathering-IsTool _) two_cases no_files
      (
        (inl refl, (image-native (no_root_image root), tt)),
        ((inr (inl refl), (image-native (trap_fault root), tt)), tt),
      )
      (refl, (refl, tt))
