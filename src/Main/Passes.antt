-- ===== src/Main/Passes.antt =====
-- When the harness tools/sos_runner.py exits with 0.
use mathlib.Core.Bool.{false≢true}
use sawos.Prelude.{
  ◌≡◌, ◌⊎◌, ◌↔◌, inl, inr, refl, ◌∙◌, sym, Bool, true, false, List, [], ◌∷◌, Option, none, some,
  All, arith,
}
use sawos.Text.{Text, codes, text_eq}
use sawos.Text.Equality.{text_eq_iff}
use sawos.Arch.{Arch}
use sawos.Case.{Case}
use sawos.Cases.{test_cases}
use sawos.Select.{Selection, refused, selected, select_cases}
use sawos.Seam.{check_arch_free}
use sawos.Toolchain.{Toolchain, Result, ok, err, os_error}
use sawos.Build.{Built, built, tool_error, escaped}
use sawos.Discover.{Probed, found, missing, key_error, probe_tools}
use sawos.Run.Totals.{ArchPasses, exit_status-Passes}
use sawos.Smoke.{smoke_cases}
use sawos.Smoke.Status.{SmokePasses, smoke_status-SmokePasses}
use sawos.Main.{
  Args, Setting, has_jobs, arches_of, blade_for, after_blade, after_seam, after_probe, after_select,
  after_arch, after_jobs, after_board, after_hits, after_setup, after_smoke_tc, smoke_setup, main,
  c3_tool,
}

module _ (s : Setting) where
  module _ (run_arches : List Arch) (cases : List Case) where
    -- The builds and the runs, with the tools that were found.
    abbrev pub SuitePasses :
        List (Text × Option Text) → Text → Text → Toolchain → Option Text → Type 0
    SuitePasses qs l c tc blade = All (ArchPasses (s.tools qs l c blade tc) cases) run_arches

    -- The tools are found, no source of the arch-free kernel names an architecture, a toolchain is
    -- resolved, Blade is there if it is needed, and the suite passes.
    pub record Ready : Type 0 where
      pub emulators : List (Text × Option Text)
      pub linker : Text
      pub compiler : Text
      pub tools_found :
          probe_tools s.root s.machine run_arches ≡ built (found emulators linker compiler)
      pub seam_clean : check_arch_free s.sources ≡ true
      pub tc : Toolchain
      pub resolved : s.toolchain ≡ ok tc
      pub blade : Option Text
      pub blade_built : blade_for s tc cases ≡ built blade
      pub suite : SuitePasses emulators linker compiler tc blade

    module _ (qs : List (Text × Option Text)) (l c : Text)
        (ep : probe_tools s.root s.machine run_arches ≡ built (found qs l c)) where
      blade-Ready :
          (tc : Toolchain) (b : Built (Option Text))
          → check_arch_free s.sources ≡ true
          → s.toolchain ≡ ok tc
          → blade_for s tc cases ≡ b
          → after_blade s run_arches cases qs l c tc b ≡ 0
          → Ready
      blade-Ready tc (built blade) es et eb h = record {
        emulators = qs;
        linker = l;
        compiler = c;
        tools_found = ep;
        seam_clean = es;
        tc = tc;
        resolved = et;
        blade = blade;
        blade_built = eb;
        suite = (exit_status-Passes (s.tools qs l c blade tc) run_arches cases).0 h;
      }
      blade-Ready tc tool_error es et eb h = absurd (omega (arith, h))
      blade-Ready tc escaped es et eb h = absurd (omega (arith, h))

      seam-Ready :
          (clean : Bool) (r : Result Toolchain)
          → check_arch_free s.sources ≡ clean
          → s.toolchain ≡ r
          → after_seam s run_arches cases qs l c clean r ≡ 0
          → Ready
      seam-Ready true (ok tc) es et h = blade-Ready tc (blade_for s tc cases) es et refl h
      seam-Ready true (err _) es et h = absurd (omega (arith, h))
      seam-Ready true os_error es et h = absurd (omega (arith, h))
      seam-Ready false _ es et h = absurd (omega (arith, h))

    probe-Ready :
        (p : Built Probed)
        → probe_tools s.root s.machine run_arches ≡ p
        → after_probe s run_arches cases p ≡ 0
        → Ready
    probe-Ready (built (found qs l c)) e h =
        seam-Ready qs l c e (check_arch_free s.sources) s.toolchain refl refl h
    probe-Ready (built (missing _)) e h = absurd (omega (arith, h))
    probe-Ready (built key_error) e h = absurd (omega (arith, h))
    probe-Ready tool_error e h = absurd (omega (arith, h))
    probe-Ready escaped e h = absurd (omega (arith, h))

    Ready-probe :
        Ready → after_probe s run_arches cases (probe_tools s.root s.machine run_arches) ≡ 0
    Ready-probe r =
        rw (r.tools_found, after_probe)
          (rw (r.seam_clean, r.resolved, after_seam)
            (rw (r.blade_built, after_blade)
              ((exit_status-Passes (s.tools r.emulators r.linker r.compiler r.blade r.tc) run_arches
                  cases).1
                r.suite)))

  -- The gate: the arguments are accepted, and all is ready for what they select.
  pub record GatePasses (args : Args) : Type 0 where
    pub enough_jobs : has_jobs args.jobs ≡ true
    pub first : Arch
    pub others : List Arch
    pub named_arches : arches_of s.root args.arch ≡ first ∷ others
    pub cases : List Case
    pub selection : select_cases (test_cases s.root) args.cases ≡ selected cases
    pub ready : Ready (first ∷ others) cases

  -- The smoke run: its tools are there, Blade, the shared objects and the kernel are built, and every
  -- case of the board passes.
  pub record SmokeRuns : Type 0 where
    pub emulator : Text
    pub compiler : Text
    pub emulator_found : c3_tool s.qemu_hits ≡ some emulator
    pub compiler_found : c3_tool s.clang_hits ≡ some compiler
    pub smoke_tc : Toolchain
    pub smoke_resolved : s.toolchain ≡ ok smoke_tc
    pub smoke_blade : Text
    pub shared : List Text
    pub kernel : Text
    pub set_up : smoke_setup s compiler smoke_tc ≡ built (smoke_blade, shared, kernel)
    pub board_passes :
        All
          (SmokePasses (s.smoke_board emulator compiler smoke_blade shared kernel))
          (smoke_cases s.root)

  module _ (args : Args) (first : Arch) (others : List Arch)
      (ea : arches_of s.root args.arch ≡ first ∷ others) (ej : has_jobs args.jobs ≡ true) where
    select-GatePasses :
        (r : Selection)
        → select_cases (test_cases s.root) args.cases ≡ r
        → after_select s (first ∷ others) r ≡ 0
        → GatePasses args
    select-GatePasses (refused _) e h = absurd (omega (arith, h))
    select-GatePasses (selected cases) e h = record {
      enough_jobs = ej;
      first = first;
      others = others;
      named_arches = ea;
      cases = cases;
      selection = e;
      ready = probe-Ready (first ∷ others) cases _ refl h;
    }

  arch-GatePasses :
      (args : Args) (xs : List Arch)
      → arches_of s.root args.arch ≡ xs
      → has_jobs args.jobs ≡ true
      → after_arch s args.cases xs ≡ 0
      → GatePasses args
  arch-GatePasses args [] ea ej h = absurd (omega (arith, h))
  arch-GatePasses args (a ∷ others) ea ej h = select-GatePasses args a others ea ej _ refl h

  jobs-GatePasses :
      (args : Args) (b : Bool) → has_jobs args.jobs ≡ b → after_jobs s args b ≡ 0 → GatePasses args
  jobs-GatePasses args true e h = arch-GatePasses args (arches_of s.root args.arch) refl e h
  jobs-GatePasses args false e h = absurd (omega (arith, h))

  GatePasses-jobs : (args : Args) → GatePasses args → after_jobs s args (has_jobs args.jobs) ≡ 0
  GatePasses-jobs args g =
      rw (g.enough_jobs, after_jobs)
        (rw (g.named_arches, after_arch)
          (rw (g.selection, after_select) (Ready-probe (g.first ∷ g.others) g.cases g.ready)))

  module _ (q c : Text) (eq : c3_tool s.qemu_hits ≡ some q)
      (ec : c3_tool s.clang_hits ≡ some c) where
    setup-SmokeRuns :
        (tc : Toolchain)
        → s.toolchain ≡ ok tc
        → (r : Built (Text × List Text × Text)) → smoke_setup s c tc ≡ r
        → after_setup s q c r ≡ 0
        → SmokeRuns
    setup-SmokeRuns tc et (built (blade, objs, kobj)) er h = record {
      emulator = q;
      compiler = c;
      emulator_found = eq;
      compiler_found = ec;
      smoke_tc = tc;
      smoke_resolved = et;
      smoke_blade = blade;
      shared = objs;
      kernel = kobj;
      set_up = er;
      board_passes =
          (smoke_status-SmokePasses (s.smoke_board q c blade objs kobj) (smoke_cases s.root)).0 h;
    }
    setup-SmokeRuns tc et tool_error er h = absurd (omega (arith, h))
    setup-SmokeRuns tc et escaped er h = absurd (omega (arith, h))

    tc-SmokeRuns : (r : Result Toolchain) → s.toolchain ≡ r → after_smoke_tc s q c r ≡ 0 → SmokeRuns
    tc-SmokeRuns (ok tc) e h = setup-SmokeRuns tc e (smoke_setup s c tc) refl h
    tc-SmokeRuns (err _) e h = absurd (omega (arith, h))
    tc-SmokeRuns os_error e h = absurd (omega (arith, h))

  hits-SmokeRuns :
      (q c : Option Text)
      → c3_tool s.qemu_hits ≡ q
      → c3_tool s.clang_hits ≡ c
      → after_hits s q c ≡ 0
      → SmokeRuns
  hits-SmokeRuns none c eq ec h = absurd (omega (arith, h))
  hits-SmokeRuns (some q) none eq ec h = absurd (omega (arith, h))
  hits-SmokeRuns (some q) (some c) eq ec h = tc-SmokeRuns q c eq ec s.toolchain refl h

  SmokeRuns-hits : SmokeRuns → after_hits s (c3_tool s.qemu_hits) (c3_tool s.clang_hits) ≡ 0
  SmokeRuns-hits r =
      rw (r.emulator_found, r.compiler_found, after_hits)
        (rw (r.smoke_resolved, after_smoke_tc)
          (rw (r.set_up, after_setup)
            ((smoke_status-SmokePasses
                (s.smoke_board r.emulator r.compiler r.smoke_blade r.shared r.kernel)
                (smoke_cases s.root)).1
              r.board_passes)))

  -- What a run of the harness with exit status 0 has shown.
  abbrev pub HarnessPasses : Args → Type 0
  HarnessPasses args =
      ((args.board ≡ codes "virt") × GatePasses args) ⊎ ((args.board ≡ codes "esp32c3") × SmokeRuns)

  board-Passes :
      (args : Args) (v e : Bool)
      → text_eq args.board (codes "virt") ≡ v
      → text_eq args.board (codes "esp32c3") ≡ e
      → (after_board s args v e ≡ 0) ↔ HarnessPasses args
  board-Passes args true e ev ee = (
    λ h. inl ((text_eq_iff args.board (codes "virt")).0 ev, jobs-GatePasses args _ refl h),
    λ h. elim h [
      | inl (_, g) ↦ GatePasses-jobs args g
      | inr (q, _) ↦
          let both : codes "virt" ≡ codes "esp32c3" =
            sym ((text_eq_iff args.board (codes "virt")).0 ev) ∙ q in
          absurd (cc (both))
    ],
  )
  board-Passes args false true ev ee = (
    λ h. inr ((text_eq_iff args.board (codes "esp32c3")).0 ee, hits-SmokeRuns _ _ refl refl h),
    λ h. elim h [
      | inl (q, _) ↦ absurd (false≢true (sym ev ∙ (text_eq_iff args.board (codes "virt")).1 q))
      | inr (_, r) ↦ SmokeRuns-hits r
    ],
  )
  board-Passes args false false ev ee = (
    λ h. absurd (omega (arith, h)),
    λ h. elim h [
      | inl (q, _) ↦ absurd (false≢true (sym ev ∙ (text_eq_iff args.board (codes "virt")).1 q))
      | inr (q, _) ↦ absurd (false≢true (sym ee ∙ (text_eq_iff args.board (codes "esp32c3")).1 q))
    ],
  )

  -- The harness exits with 0 exactly in two cases. On the gate's board: with one job or more, an
  -- architecture that exists and case names that exist; all host tools found, no architecture named in
  -- the arch-free kernel, a toolchain resolved, Blade there if a case needs it; and every case that may
  -- run on each architecture built and passed by the check. On the smoke board: with its tools found,
  -- a toolchain resolved, what the cases share built, and each of them passing.
  pub main-HarnessPasses : (args : Args) → (main s args ≡ 0) ↔ HarnessPasses args
  unfolding main
  main-HarnessPasses args = board-Passes args _ _ refl refl
