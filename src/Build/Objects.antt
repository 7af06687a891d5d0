-- ===== src/Build/Objects.antt =====
-- The objects that `_build_shared` of tools/sos_runner.py makes, and the names of the cases.
use sawos.Prelude.{
  ◌≡◌, refl, ap, Bool, true, ◌&&◌, not, List, [], ◌∷◌, arith, all, All, All-append, inl, inr,
  Bool-cases,
}
use sawos.Text.{Text, codes, elem, text_eq, starts_with, ends_with}
use sawos.Text.Equality.{text_eq-eq}
use sawos.Paths.{◌/+◌, basename, base_from}
use sawos.Arch.{Arch, arch_dirs}
use sawos.Arch.Table.{arches}
use sawos.Cases.{test_cases}
use sawos.Build.Shared.{object_name, build_asm, build_shared}
use sawos.Build.Elf.{artifact}
use sawos.Build.Names.{is_stem}
use sawos.Build.Footprint.{Makes, bind-Makes}

-- The stems of the objects that all cases of an architecture share.
abbrev pub reserved : List Text
reserved = codes "boot" ∷ codes "sink" ∷ codes "support" ∷ codes "trap" ∷ []

-- A name of a case: no dot, no separator, and not the name of a shared object.
unfoldable pub is_case_name : Text → Bool
unfolding is_stem elem
is_case_name n = is_stem n && not (elem n reserved)

pub test_cases-is_case_name :
    (root : Text) → all (λ c. is_case_name c.name) (test_cases root) ≡ true
unfolding is_case_name
test_cases-is_case_name root = refl

abbrev pub IsShared : Text → Text → Type 0
IsShared b p = (stem : Text) × (elem stem reserved ≡ true) × (p ≡ artifact b stem (codes "o"))

-- The objects of `hal_asm` are those of the trap entry.
abbrev pub TrapOnly : Arch → Type 0
TrapOnly arch = All (λ rel. object_name (basename rel) ≡ codes "trap.o") arch.hal_asm

pub arches-TrapOnly : (root : Text) → All TrapOnly (arches root)
unfolding object_name basename base_from ◌/+◌ starts_with ends_with
arches-TrapOnly root = ((refl, tt), (tt, ((refl, tt), tt)))

module _ (root : Text) (arch : Arch) (clang : Text) where
  abbrev b : Text
  b = (arch_dirs root arch).build

  build_asm-Makes :
      (rels : List Text)
      → All (λ rel. object_name (basename rel) ≡ codes "trap.o") rels
      → Makes (λ _. Unit) (All (IsShared b)) (build_asm root arch clang rels)
  unfolding build_asm elem text_eq
  build_asm-Makes [] h = (tt, tt)
  build_asm-Makes (rel ∷ rels) (h, hs) =
      let rest =
        bind-Makes (λ _. Unit) (All (IsShared b)) (All (IsShared b))
          (build_asm root arch clang rels) _ (build_asm-Makes rels hs)
          λ objs os. (tt, ((codes "trap", refl, ap (λ o. b /+ o) h), os)) in
      ((tt, rest.0), rest.1)

  pub build_shared-Makes :
      TrapOnly arch → Makes (λ _. Unit) (All (IsShared b)) (build_shared root arch clang)
  unfolding build_shared elem text_eq
  build_shared-Makes h =
      let rest =
        bind-Makes (λ _. Unit) (All (IsShared b)) (All (IsShared b))
          (build_asm root arch clang arch.hal_asm) _ (build_asm-Makes arch.hal_asm h)
          λ objs os. (
            (tt, (tt, tt)),
            (
              (codes "boot", refl, refl),
              All-append _ objs _ os
                  ((codes "sink", refl, refl), ((codes "support", refl, refl), tt)),
            ),
          ) in
      ((tt, (tt, rest.0)), rest.1)

elem-all :
    (p : Text → Bool) (xs : List Text) (x : Text) → elem x xs ≡ true → all p xs ≡ true → p x ≡ true
unfolding elem
elem-all p [] x e h = cc
elem-all p (y ∷ ys) x e h = elim (Bool-cases (text_eq x y)) [
  | inl q ↦ rw (text_eq-eq x y q) (ground (arith, h))
  | inr q ↦ elem-all p ys x (ground (arith, e, q)) (ground (arith, h))
]

pub reserved-is_stem : (stem : Text) → elem stem reserved ≡ true → is_stem stem ≡ true
unfolding is_stem elem
reserved-is_stem stem r = elem-all is_stem reserved stem r refl
