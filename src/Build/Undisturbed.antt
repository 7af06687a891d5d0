-- ===== src/Build/Undisturbed.antt =====
-- The builds of two cases of tools/sos_runner.py at a time.
use sawos.Prelude.{
  ◌≡◌, ◌≢◌, inl, inr, refl, true, List, ◌∷◌, ◌++◌, arith, all, All, All-map, All-In, all-All, In,
  In-All, In-right, In-left,
}
use sawos.Text.{Text, codes, elem}
use sawos.Arch.{Arch, arch_dirs}
use sawos.Case.{Case}
use sawos.Toolchain.{Toolchain}
use sawos.Build.{Files, Host, Op, make_dir, command, copy_file, write_file, run_ops}
use sawos.Build.Elf.{build_elf}
use sawos.Build.Names.{is_stem, ArtifactOf, artifact-ArtifactOf, ArtifactOf-unique}
use sawos.Build.Apart.{
  IsTool, Turn, mine, theirs, run_among, IsOwn, IsTheirs, TurnIsTheirs, run_among-Agree,
}
use sawos.Build.Footprint.{Known, Within, Outcome, Outcome-map, Makes, build_elf-Makes}
use sawos.Build.Objects.{reserved, IsShared, is_case_name, reserved-is_stem}

-- The path belongs to some case of the table.
abbrev pub Artifact : Text → List Case → Text → Type 0
Artifact build cs p = (d : Case) × In d cs × ArtifactOf build d.name p

-- The path belongs to a case of another name.
abbrev pub Foreign : Text → List Case → Case → Text → Type 0
Foreign build cs c p = (d : Case) × In d cs × (d.name ≢ c.name) × ArtifactOf build d.name p

module _ (root : Text) (arch : Arch) (clang lld : Text) (tc : Toolchain) (shared : List Text) where
  abbrev b : Text
  b = (arch_dirs root arch).build

  -- A step of the build of a case of the table with another name, whatever images that one has.
  abbrev pub IsStepOfAnother : List Case → Case → Turn → Type 0
  IsStepOfAnother cs c mine = Unit
  IsStepOfAnother cs c (theirs op) =
      (d : Case) × In d cs
      × (d.name ≢ c.name)
      × (image : Text) × (images : List Text) × In op
          (build_elf root arch clang tc lld shared d image images).0

  module _ (cs : List Case) (names : all (λ c. is_case_name c.name) cs ≡ true) (c : Case)
      (i : In c cs) where
    named : (d : Case) → In d cs → is_case_name d.name ≡ true
    named d j = All-In _ cs d (all-All _ cs names) j

    stem_of : (d : Case) → In d cs → is_stem d.name ≡ true
    unfolding is_case_name
    stem_of d j = let h = named d j in ground arith

    pub own-native : (p : Text) → ArtifactOf b c.name p → ¬ Foreign b cs c p
    own-native p h (d, j, ne, g) =
        ne (ArtifactOf-unique b d.name c.name p (stem_of d j) (stem_of c i) g h)

    pub shared-native : (p : Text) → IsShared b p → ¬ Foreign b cs c p
    unfolding is_case_name elem is_stem
    shared-native p (stem, r, e) (d, j, ne, g) =
        let same : d.name ≡ stem =
          ArtifactOf-unique b d.name stem p (stem_of d j) (reserved-is_stem stem r) g
            (rw e (artifact-ArtifactOf b stem (codes "o") (reserved-is_stem stem r))) in
        let h = named d j in
        let r' : elem d.name reserved ≡ true = rw same r in ground (arith, h, r')

    abbrev given : Text → List Text → List Text
    given image images = shared ++ image ∷ images

    makes :
        (d : Case)
        → In d cs
        → (image : Text) (images : List Text)
        → Makes
            (Within b d.name (given image images))
            (ArtifactOf b d.name)
            (build_elf root arch clang tc lld shared d image images)
    makes d j image images =
        build_elf-Makes root arch clang d (given image images) (stem_of d j) tc lld shared image
          images (All-map (λ p k. In-left shared (image ∷ images) p k) shared (In-All shared))
          (In-right shared (image ∷ images) image (inl refl))
          (All-map (λ p k. In-right shared (image ∷ images) p (inr k)) images (In-All images))

    Known-native :
        (image : Text) (images : List Text)
        → All (λ p. ¬ Foreign b cs c p) (given image images)
        → (p : Text) → Known b c.name (given image images) p
        → ¬ Foreign b cs c p
    Known-native image images h p (inl g) = own-native p g
    Known-native image images h p (inr k) = All-In _ (given image images) p h k

    Within-IsOwn :
        (image : Text) (images : List Text)
        → All (λ p. ¬ Foreign b cs c p) (given image images)
        → (op : Op) → Within b c.name (given image images) op
        → IsOwn (Foreign b cs c) op
    Within-IsOwn image images h (make_dir _) w = tt
    Within-IsOwn image images h (write_file _ _) w = tt
    Within-IsOwn image images h (copy_file src _) (_, w) = Known-native image images h src w
    Within-IsOwn image images h (command cmd) (_, w) =
        All-map (Known-native image images h) cmd.reads w

    Within-IsTheirs :
        (image : Text) (images : List Text) (d : Case) (j : In d cs) (ne : d.name ≢ c.name)
        (op : Op)
        → Within b d.name (given image images) op
        → IsTheirs (Foreign b cs c) op
    Within-IsTheirs image images d j ne (make_dir _) w = tt
    Within-IsTheirs image images d j ne (write_file _ _) w = (d, j, ne, w)
    Within-IsTheirs image images d j ne (copy_file _ _) (w, _) = (d, j, ne, w)
    Within-IsTheirs image images d j ne (command cmd) (w, _) = λ p q. (d, j, ne, w p q)

    turn-IsTheirs : (t : Turn) → IsStepOfAnother cs c t → TurnIsTheirs (Foreign b cs c) t
    turn-IsTheirs mine h = tt
    turn-IsTheirs (theirs op) (d, j, ne, image, images, k) =
        Within-IsTheirs image images d j ne op (All-In _ _ op (makes d j image images).0 k)

    pub build-IsOwn :
        (image : Text) (images : List Text)
        → All (λ p. ¬ Foreign b cs c p) (given image images)
        → All (IsOwn (Foreign b cs c)) (build_elf root arch clang tc lld shared c image images).0
    build-IsOwn image images h = All-map (Within-IsOwn image images h) _ (makes c i image images).0

    pub build-IsTheirs :
        (d : Case)
        → In d cs
        → d.name ≢ c.name
        → (image : Text) (images : List Text)
        → All (IsTheirs (Foreign b cs c)) (build_elf root arch clang tc lld shared d image images).0
    build-IsTheirs d j ne image images =
        All-map (Within-IsTheirs image images d j ne) _ (makes d j image images).0

    pub build-own_elf :
        (image : Text) (images : List Text)
        → Outcome
            (λ elf. ¬ Foreign b cs c elf)
            (build_elf root arch clang tc lld shared c image images).1
    build-own_elf image images =
        Outcome-map own-native (build_elf root arch clang tc lld shared c image images).1
          (makes c i image images).1

    -- With other builds' steps mixed in, the build of a case ends as it does alone, and leaves the
    -- same in every file that is not another case's.
    pub undisturbed :
        (host : Host)
        → IsTool host (Artifact b cs)
        → (image : Text) (images : List Text) → All (λ p. ¬ Foreign b cs c p) (given image images)
        → (s : List Turn) → All (IsStepOfAnother cs c) s
        → (f : Files)
        → let ops = (build_elf root arch clang tc lld shared c image images).0 in
          ((run_among host ops s f).0 ≡ (run_ops host ops f).0)
          × ((p : Text)
              → ¬ Foreign b cs c p
              → (run_among host ops s f).1 p ≡ (run_ops host ops f).1 p)
    undisturbed host tool image images h s t f =
        run_among-Agree host (Artifact b cs) tool (Foreign b cs c) (λ p (d, j, _, g). (d, j, g))
          (build_elf root arch clang tc lld shared c image images).0 s f f
          (build-IsOwn image images h) (All-map turn-IsTheirs s t) (λ p np. refl)
