-- ===== src/Toolchain/Commands.antt =====
-- The commands of `_fetch` in tools/toolchain.py: all done, or stopped at one of them.
use sawos.Prelude.{◌≡◌, refl, ap, List, [], ◌∷◌, ◌++◌, Option, none, some, map}
use sawos.Text.{Text}
use sawos.Text.Equality.{text_eq_refl}
use sawos.Toolchain.Os.{Os, Disk, Exit, succeeded, exited, unstarted, write}
use sawos.Toolchain.Fetch.{Action, run, Outcome, done, refused, failed, step, run_plan}

-- The tree that the commands make of one, if none of them fails.
abbrev pub build : {C : Type 0} → Os C → List (List Text) → C → Option C
build os [] tree = some tree
build os (argv ∷ argvs) tree = elim (os.command argv tree).0 [
  | succeeded ↦ build os argvs (os.command argv tree).1
  | _ ↦ none
]

-- How the commands stop at one of them: those before it are done and made the tree that it found.
pub record StopsAt {C : Type 0} (os : Os C) (argvs : List (List Text)) (tree : C) (argv : List Text)
    (end : Exit) (found left : C) : Type 0 where
  pub before : List (List Text)
  pub after : List (List Text)
  pub split : argvs ≡ before ++ argv ∷ after
  pub built : build os before tree ≡ some found
  pub at : os.command argv found ≡ (end, left)

module _ {C : Type 0} (os : Os C) (tmp dest : Text) where
  second : (r : Exit × C) (end : Exit) (left : C) → r ≡ (end, left) → r.1 ≡ left
  second r end left e = ap (λ (x : Exit × C). x.1) e

  pub write_self : (disk : Disk C) (t : Option C) → write disk tmp t tmp ≡ t
  unfolding write
  write_self disk t = rw (text_eq_refl tmp)

  -- The commands' steps: all done with the tree that they build; or one failed, and the partial tree
  -- is removed as far as that goes; or one could not be started, and the partial tree stays.
  pub data Built (argvs : List (List Text)) (tree : C) (r : Outcome × Disk C) : Type 0 where
    all_done :
        (t : C) → r.0 ≡ done → build os argvs tree ≡ some t → r.1 tmp ≡ some t → Built argvs tree r
    one_failed :
        (argv : List Text) (found left : C)
        → r.0 ≡ failed argv
        → StopsAt os argvs tree argv exited found left
        → r.1 tmp ≡ os.remains left
        → Built argvs tree r
    one_unstarted :
        (argv : List Text) (found left : C)
        → r.0 ≡ refused
        → StopsAt os argvs tree argv unstarted found left
        → r.1 tmp ≡ some found
        → Built argvs tree r

  pub run_plan_done :
      (a : Action) (actions : List Action) (disk d : Disk C)
      → ◌≡◌ {A = Outcome × Disk C} (step os tmp dest a disk) (done, d)
      → run_plan os tmp dest (a ∷ actions) disk ≡ run_plan os tmp dest actions d
  unfolding run_plan
  run_plan_done a actions disk d e =
      rw (e, run_plan) (ap (λ (r : Outcome × Disk C). run_plan os tmp dest actions r.1) e)

  run_plan_failed :
      (a : Action) (actions : List Action) (argv : List Text) (disk d : Disk C)
      → ◌≡◌ {A = Outcome × Disk C} (step os tmp dest a disk) (failed argv, d)
      → run_plan os tmp dest (a ∷ actions) disk ≡ (failed argv, d)
  unfolding run_plan
  run_plan_failed a actions argv disk d e = rw (e, run_plan) e

  pub run_plan_refused :
      (a : Action) (actions : List Action) (disk d : Disk C)
      → ◌≡◌ {A = Outcome × Disk C} (step os tmp dest a disk) (refused, d)
      → run_plan os tmp dest (a ∷ actions) disk ≡ (refused, d)
  unfolding run_plan
  run_plan_refused a actions disk d e = rw (e, run_plan) e

  module _ (argv : List Text) (disk : Disk C) (tree left : C) (e : disk tmp ≡ some tree) where
    step_succeeded :
        os.command argv tree ≡ (succeeded, left)
        → step os tmp dest (run argv) disk ≡ (done, write disk tmp (some left))
    unfolding step
    step_succeeded q = rw (e, step) (rw (q, step) (rw (second _ succeeded left q)))

    step_exited :
        os.command argv tree ≡ (exited, left)
        → step os tmp dest (run argv) disk ≡ (failed argv, write disk tmp (os.remains left))
    unfolding step
    step_exited q = rw (e, step) (rw (q, step) (rw (second _ exited left q)))

    step_unstarted :
        os.command argv tree ≡ (unstarted, left)
        → step os tmp dest (run argv) disk ≡ (refused, disk)
    unfolding step
    step_unstarted q = rw (e, step) (rw (q, step))

  StopsAt-cons :
      (a argv : List Text) (argvs : List (List Text)) (tree next found left : C) (end : Exit)
      → os.command a tree ≡ (succeeded, next)
      → StopsAt os argvs next argv end found left
      → StopsAt os (a ∷ argvs) tree argv end found left
  StopsAt-cons a argv argvs tree next found left end q s = record {
    before = a ∷ s.before;
    after = s.after;
    split = ap (λ l. a ∷ l) s.split;
    built = rw (q, build) (rw (second _ succeeded next q) s.built);
    at = s.at;
  }

  Built-cons :
      (argv : List Text) (argvs : List (List Text)) (tree next : C) (r : Outcome × Disk C)
      → os.command argv tree ≡ (succeeded, next)
      → Built argvs next r
      → Built (argv ∷ argvs) tree r
  Built-cons argv argvs tree next r q (all_done t d b m) =
      all_done t d (rw (q, build) (rw (second _ succeeded next q) b)) m
  Built-cons argv argvs tree next r q (one_failed a f l o s m) =
      one_failed a f l o (StopsAt-cons argv a argvs tree next f l exited q s) m
  Built-cons argv argvs tree next r q (one_unstarted a f l o s m) =
      one_unstarted a f l o (StopsAt-cons argv a argvs tree next f l unstarted q s) m

  here :
      (argv : List Text) (argvs : List (List Text)) (tree left : C) (end : Exit)
      → os.command argv tree ≡ (end, left)
      → StopsAt os (argv ∷ argvs) tree argv end tree left
  here argv argvs tree left end q = record {
    before = [];
    after = argvs;
    split = refl;
    built = refl;
    at = q;
  }

  pub runs-Built :
      (argvs : List (List Text)) (disk : Disk C) (tree : C)
      → disk tmp ≡ some tree
      → Built argvs tree (run_plan os tmp dest (map run argvs) disk)
  runs-Built [] disk tree e = unfold run_plan in all_done tree refl refl e
  runs-Built (argv ∷ argvs) disk tree e =
      by_exit (os.command argv tree).0 (os.command argv tree).1 refl
        (λ d left m. runs-Built argvs d left m)
    where
      by_exit :
          (end : Exit) (left : C)
          → os.command argv tree ≡ (end, left)
          → ((d : Disk C) (next : C)
              → d tmp ≡ some next
              → Built argvs next (run_plan os tmp dest (map run argvs) d))
          → Built (argv ∷ argvs) tree (run_plan os tmp dest (map run (argv ∷ argvs)) disk)
      by_exit succeeded left q ih =
          let d = write disk tmp (some left) in
          rw
            (run_plan_done (run argv) (map run argvs) disk d
              (step_succeeded argv disk tree left e q))
            (Built-cons argv argvs tree left (run_plan os tmp dest (map run argvs) d) q
              (ih d left (write_self disk (some left))))
      by_exit exited left q ih =
          rw
            (run_plan_failed (run argv) (map run argvs) argv disk (write disk tmp (os.remains left))
              (step_exited argv disk tree left e q))
            (one_failed argv tree left refl (here argv argvs tree left exited q)
              (write_self disk (os.remains left)))
      by_exit unstarted left q ih =
          rw
            (run_plan_refused (run argv) (map run argvs) disk disk
              (step_unstarted argv disk tree left e q))
            (one_unstarted argv tree left refl (here argv argvs tree left unstarted q) e)
