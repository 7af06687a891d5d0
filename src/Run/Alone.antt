-- ===== src/Run/Alone.antt =====
-- The cases of tools/sos_runner.py in series, against each of them alone.
use sawos.Prelude.{
  ◌≡◌, ◌≢◌, refl, ap, ◌∙◌, false, List, [], ◌∷◌, Option, some, arith, In, inl, inr, map, All,
  All-append, ◌++◌,
}
use sawos.Text.{Text, elem}
use sawos.Text.Equality.{text_eq_iff}
use sawos.Arch.{arch_dirs}
use sawos.Arch.Table.{arches}
use sawos.Case.{Case}
use sawos.Cases.{test_cases}
use sawos.Select.{plain_name}
use sawos.Select.Chosen.{Distinct}
use sawos.Build.{Files, Built, built, tool_error, escaped, run_ops, run_build, proceed, stay}
use sawos.Build.Apart.{IsTool, Agree, Same, run_ops-Agree, run_ops_theirs}
use sawos.Build.Shared.{build_shared}
use sawos.Build.Concurrent.{build_shared-native}
use sawos.Build.Objects.{test_cases-is_case_name}
use sawos.Build.Footprint.{Outcome}
use sawos.Build.Undisturbed.{Artifact, Foreign, build-IsOwn, build-IsTheirs, build-own_elf}
use sawos.Run.{Counts, tally}
use sawos.Run.Series.{Workshop, build_of, run_built, case_on, run_series}

-- Each case on the same files, as if it were the only one.
unfoldable pub run_alone : Workshop → List Case → Files → Option Counts
run_alone w [] files = some (0, 0)
run_alone w (c ∷ cs) files = tally (case_on w c files).0 (run_alone w cs files)

-- The name that `--case` finds the case by.
abbrev key : Case → Text
key c = plain_name c.name

-- The name of a case stands in no other place of the list.
others_named :
    (c : Case) (ds : List Case)
    → elem (key c) (map key ds) ≡ false
    → (d : Case) → In d ds
    → c.name ≢ d.name
unfolding elem
others_named c [] h d i e = absurd i
others_named c (x ∷ ds) h d (inl q) e =
    let same : key c ≡ key x = ap plain_name (e ∙ ap (λ y. y.name) q) in
    ground (arith, (text_eq_iff (key c) (key x)).1 same)
others_named c (x ∷ ds) h d (inr i) e = others_named c ds (ground arith) d i e

module _ (w : Workshop) where
  abbrev b : Text
  b = (arch_dirs w.root w.arch).build

  abbrev table : List Case
  table = test_cases w.root

  abbrev Others : Case → Text → Type 0
  Others c = Foreign b table c

  -- The images of the case, and the shared objects, are no files of other cases.
  abbrev pub HasOwnImages : Case → Type 0
  HasOwnImages c = All (λ p. ¬ Others c p) (w.root_image c ∷ w.child_images c)

  -- The same files, as far as the case can see, give it the same verdict.
  proceed-verdict :
      (c : Case) (result : Built Text) (r : Built (Unit {0})) (f g : Files)
      → Agree (Others c) f g
      → Outcome (λ elf. ¬ Others c elf) result
      → (run_built w c (proceed r f (λ after. (result, after)) stay)).0
        ≡ (run_built w c (proceed r g (λ after. (result, after)) stay)).0
  proceed-verdict c (built elf) (built _) f g h o = rw (h elf o) refl
  proceed-verdict c tool_error (built _) f g h o = refl
  proceed-verdict c escaped (built _) f g h o = refl
  proceed-verdict c result tool_error f g h o = refl
  proceed-verdict c result escaped f g h o = refl

  Same-verdict :
      (c : Case) (result : Built Text) (x y : Built (Unit {0}) × Files)
      → Same (Others c) x y
      → Outcome (λ elf. ¬ Others c elf) result
      → (run_built w c (proceed x.0 x.1 (λ after. (result, after)) stay)).0
        ≡ (run_built w c (proceed y.0 y.1 (λ after. (result, after)) stay)).0
  Same-verdict c result (r, f) (s, g) (e, h) o = rw e (proceed-verdict c result s f g h o)

  proceed-files :
      (c : Case) (result : Built Text) (r : Built (Unit {0})) (f : Files)
      → (run_built w c (proceed r f (λ after. (result, after)) stay)).1 ≡ f
  proceed-files c (built elf) (built _) f = refl
  proceed-files c tool_error (built _) f = refl
  proceed-files c escaped (built _) f = refl
  proceed-files c result tool_error f = refl
  proceed-files c result escaped f = refl

  case_on-files : (c : Case) (f : Files) → (case_on w c f).1 ≡ (run_ops w.host (build_of w c).0 f).1
  unfolding case_on run_build
  case_on-files c f =
      let after = run_ops w.host (build_of w c).0 f in
      proceed-files c (build_of w c).1 after.0 after.1

module _ (w : Workshop) (ai : In w.arch (arches w.root))
    (e : (build_shared w.root w.arch w.clang).1 ≡ built w.shared_objs)
    (tool : IsTool w.host (Artifact (arch_dirs w.root w.arch).build (test_cases w.root))) where
  abbrev cs : List Case
  cs = test_cases w.root

  given-native :
      (c : Case)
      → In c cs
      → HasOwnImages w c
      → All
          (λ p. ¬ Foreign (arch_dirs w.root w.arch).build cs c p)
          (w.shared_objs ++ w.root_image c ∷ w.child_images c)
  given-native c i own =
      All-append _ w.shared_objs _
        (build_shared-native w.root w.arch ai w.clang w.lld w.toolchain w.shared_objs e c i) own

  -- A case that sees the same files has the same verdict.
  case_on-verdict :
      (c : Case)
      → In c cs
      → HasOwnImages w c
      → (f g : Files) → Agree (Foreign (arch_dirs w.root w.arch).build cs c) f g
      → (case_on w c f).0 ≡ (case_on w c g).0
  unfolding case_on run_build
  case_on-verdict c i own f g h =
      let names = test_cases-is_case_name w.root in
      let p =
        build-IsOwn w.root w.arch w.clang w.lld w.toolchain w.shared_objs cs names c i
          (w.root_image c) (w.child_images c) (given-native c i own) in
      let o =
        build-own_elf w.root w.arch w.clang w.lld w.toolchain w.shared_objs cs names c i
          (w.root_image c) (w.child_images c) in
      Same-verdict w c (build_of w c).1 (run_ops w.host (build_of w c).0 f)
        (run_ops w.host (build_of w c).0 g)
        (run_ops-Agree w.host (Artifact _ cs) tool _ (λ q (d, j, _, a). (d, j, a)) (build_of w c).0
          f g p h)
        o

  -- The files that a case sees stay as they are while another one runs.
  case_on-Agree :
      (c d : Case)
      → In c cs
      → In d cs
      → d.name ≢ c.name
      → (f g : Files) → Agree (Foreign (arch_dirs w.root w.arch).build cs c) f g
      → Agree (Foreign (arch_dirs w.root w.arch).build cs c) (case_on w d f).1 g
  case_on-Agree c d i j ne f g h = rw (case_on-files w d f) (
      run_ops_theirs w.host (Artifact _ cs) tool _ (λ q (x, k, _, a). (x, k, a)) (build_of w d).0 f
        g
        (build-IsTheirs w.root w.arch w.clang w.lld w.toolchain w.shared_objs cs
          (test_cases-is_case_name w.root) c i d j ne (w.root_image d) (w.child_images d))
        h)

  rest-Agree :
      (c : Case)
      → In c cs
      → (f g : Files) (ds : List Case) → ((d : Case) → In d ds → c.name ≢ d.name)
      → All (λ d. In d cs × HasOwnImages w d) ds
      → All (λ d. Agree (Foreign (arch_dirs w.root w.arch).build cs d) f g) ds
      → All (λ d. Agree (Foreign (arch_dirs w.root w.arch).build cs d) (case_on w c f).1 g) ds
  rest-Agree c i f g [] ne ins hs = tt
  rest-Agree c i f g (d ∷ ds) ne ((j, _), ins) (h, hs) = (
    case_on-Agree d c j i (ne d (inl refl)) f g h,
    rest-Agree c i f g ds (λ x k. ne x (inr k)) ins hs,
  )

  series_from :
      (ds : List Case)
      → All (λ c. In c cs × HasOwnImages w c) ds
      → Distinct (map key ds)
      → (f g : Files) → All (λ c. Agree (Foreign (arch_dirs w.root w.arch).build cs c) f g) ds
      → run_series w ds f ≡ run_alone w ds g
  unfolding run_series run_alone
  series_from [] ins distinct f g h = refl
  series_from (c ∷ ds) ((i, own), ins) (apart, distinct) f g (h, hs) =
      rw (case_on-verdict c i own f g h, run_series)
        (rw
          (series_from ds ins distinct (case_on w c f).1 g
            (rest-Agree c i f g ds (others_named c ds apart) ins hs))
          refl)

  All-Agree :
      (ds : List Case) (f : Files)
      → All (λ c. Agree (Foreign (arch_dirs w.root w.arch).build cs c) f f) ds
  All-Agree [] f = tt
  All-Agree (d ∷ ds) f = (λ p np. refl, All-Agree ds f)

  -- On an architecture of the table, with the objects that `_build_shared` returns, and for cases of
  -- the table of which no two have one name, whose images are no files of other cases: one after
  -- another, each on the files that those before it have left, they end and are counted as each of
  -- them alone, on the files at the start.
  pub run_series-alone :
      (ds : List Case) (f : Files)
      → All (λ c. In c cs × HasOwnImages w c) ds
      → Distinct (map (λ c. plain_name c.name) ds)
      → run_series w ds f ≡ run_alone w ds f
  run_series-alone ds f ins distinct = series_from ds ins distinct f f (All-Agree ds f)
