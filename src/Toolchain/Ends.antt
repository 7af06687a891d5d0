-- ===== src/Toolchain/Ends.antt =====
-- The ends of the plan of `_fetch` in tools/toolchain.py: what it did, and the trees that it leaves.
use sawos.Prelude.{
  ◌≡◌, ◌≢◌, ◌⊎◌, inl, inr, refl, sym, ◌∙◌, false, List, [], ◌∷◌, ◌++◌, Option, none, some, map,
  Bool-cases, Option-cases,
}
use sawos.Text.{Text, text_eq}
use sawos.Text.Equality.{text_eq_refl}
use sawos.Toolchain.Os.{Os, Disk, exited, unstarted, write}
use sawos.Toolchain.Fetch.{
  remove_tmp, make_tmp, publish, run, Outcome, done, refused, failed, step, run_plan, plan,
  commands,
}
use sawos.Toolchain.Atomic.{run_plan-append}
use sawos.Toolchain.Commands.{
  build, StopsAt, write_self, Built, all_done, one_failed, one_unstarted, run_plan_done,
  run_plan_refused, runs-Built,
}

module _ {C : Type 0} (os : Os C) (tmp dest : Text) (apart : text_eq tmp dest ≡ false) where
  -- The end of the plan: the checkout is what the commands built of an empty tree, and there is no
  -- partial tree; or a command failed, or could not be started; or an old partial tree could not be
  -- removed; or the checkout's place was taken.
  pub data Ended (sha : Text) (disk : Disk C) (r : Outcome × Disk C) : Type 0 where
    complete :
        (t : C)
        → r.0 ≡ done
        → build os (commands sha tmp) os.empty_tree ≡ some t
        → r.1 dest ≡ some t
        → r.1 tmp ≡ none
        → Ended sha disk r
    command_failed :
        (argv : List Text) (found left : C)
        → r.0 ≡ failed argv
        → StopsAt os (commands sha tmp) os.empty_tree argv exited found left
        → r.1 tmp ≡ os.remains left
        → Ended sha disk r
    not_started :
        (argv : List Text) (found left : C)
        → r.0 ≡ refused
        → StopsAt os (commands sha tmp) os.empty_tree argv unstarted found left
        → r.1 tmp ≡ some found
        → Ended sha disk r
    leftover :
        (old kept : C)
        → r.0 ≡ refused
        → disk tmp ≡ some old
        → os.remains old ≡ some kept
        → r.1 tmp ≡ some kept
        → Ended sha disk r
    occupied :
        (t there : C)
        → r.0 ≡ refused
        → build os (commands sha tmp) os.empty_tree ≡ some t
        → r.1 dest ≡ some there
        → os.is_empty there ≡ false
        → r.1 tmp ≡ some t
        → Ended sha disk r

  published : (disk : Disk C) (t : Option C) → write (write disk dest t) tmp none dest ≡ t
  unfolding write
  published disk t = rw (apart, text_eq_refl dest)

  publish-Ended :
      (sha : Text) (old disk : Disk C) (t : C)
      → build os (commands sha tmp) os.empty_tree ≡ some t
      → disk tmp ≡ some t
      → Ended sha old (step os tmp dest publish disk)
  unfolding step
  publish-Ended sha old disk t b e = elim (Option-cases (disk dest)) [
    | inl n ↦
        rw (n, step)
          (complete t refl b (published disk (disk tmp) ∙ e)
            (write_self os tmp dest (write disk dest (disk tmp)) none))
    | inr (there, n) ↦ elim (Bool-cases (os.is_empty there)) [
      | inl q ↦
          rw (n, step)
            (rw (q, step)
              (complete t refl b (published disk (disk tmp) ∙ e)
                (write_self os tmp dest (write disk dest (disk tmp)) none)))
      | inr q ↦ rw (n, step) (rw (q, step) (occupied t there refl b n q e))
    ]
  ]

  stopped : (o p : Outcome) → o ≡ p → p ≢ done → o ≢ done
  stopped o p e n d = n (sym e ∙ d)

  end_of :
      (sha : Text) (disk : Disk C) (r whole : Outcome × Disk C)
      → Built os tmp dest (commands sha tmp) os.empty_tree r
      → ((r.0 ≡ done) × (whole ≡ step os tmp dest publish r.1)) ⊎ ((r.0 ≢ done) × (whole ≡ r))
      → Ended sha disk whole
  end_of sha disk r whole (all_done t d b m) (inl (_, w)) = rw w (publish-Ended sha disk r.1 t b m)
  end_of sha disk r whole (all_done t d b m) (inr (n, w)) = absurd (n d)
  end_of sha disk r whole (one_failed a f l o s m) (inl (d, w)) =
      absurd (stopped r.0 (failed a) o (λ e. cc) d)
  end_of sha disk r whole (one_failed a f l o s m) (inr (n, w)) = rw w (command_failed a f l o s m)
  end_of sha disk r whole (one_unstarted a f l o s m) (inl (d, w)) =
      absurd (stopped r.0 refused o (λ e. cc) d)
  end_of sha disk r whole (one_unstarted a f l o s m) (inr (n, w)) = rw w (not_started a f l o s m)

  -- The disk without the old partial tree, or with what is left of it.
  cleared : Disk C → Disk C
  cleared disk = write disk tmp (elim (disk tmp) [ none ↦ none | some old ↦ os.remains old ])

  step_make :
      (disk : Disk C)
      → disk tmp ≡ none
      → ◌≡◌ {A = Outcome × Disk C}
          (step os tmp dest make_tmp disk)
          (done, write disk tmp (some os.empty_tree))
  unfolding step
  step_make disk e = rw (e, step)

  step_exists :
      (disk : Disk C) (kept : C)
      → disk tmp ≡ some kept
      → ◌≡◌ {A = Outcome × Disk C} (step os tmp dest make_tmp disk) (refused, disk)
  unfolding step
  step_exists disk kept e = rw (e, step)

  start :
      (sha : Text) (disk : Disk C)
      → run_plan os tmp dest (plan sha tmp) disk
        ≡ run_plan os tmp dest
            (make_tmp ∷ (map run (commands sha tmp) ++ publish ∷ []))
            (cleared disk)
  unfolding plan cleared
  start sha disk = run_plan_done os tmp dest remove_tmp _ disk (cleared disk) (unfold step in refl)

  fresh-Ended :
      (sha : Text) (old disk : Disk C)
      → disk tmp ≡ none
      → Ended sha old
          (run_plan os tmp dest (make_tmp ∷ (map run (commands sha tmp) ++ publish ∷ [])) disk)
  fresh-Ended sha old disk e =
      let runs = map run (commands sha tmp) in
      let fresh = write disk tmp (some os.empty_tree) in
      rw (run_plan_done os tmp dest make_tmp (runs ++ publish ∷ []) disk fresh (step_make disk e)) (
        end_of sha old (run_plan os tmp dest runs fresh) _
          (runs-Built os tmp dest (commands sha tmp) fresh os.empty_tree
            (write_self os tmp dest disk (some os.empty_tree)))
          (run_plan-append os tmp dest apart runs publish fresh))

  kept_tree :
      (disk : Disk C) (kept : C)
      → cleared disk tmp ≡ some kept
      → (old : C) × (disk tmp ≡ some old) × (os.remains old ≡ some kept)
  unfolding cleared
  kept_tree disk kept e =
      let q =
        sym (
          write_self os tmp dest disk (elim (disk tmp) [ none ↦ none | some old ↦ os.remains old ]))
        ∙ e in
      elim (Option-cases (disk tmp)) [
        | inl n ↦ absurd (no_tree (sym (rw n) ∙ q))
        | inr (old, n) ↦ (old, n, rw n at q)
      ]
    where
      no_tree : ◌≢◌ {A = Option C} none (some kept)
      no_tree e = cc

  pub plan-Ended :
      (sha : Text) (disk : Disk C) → Ended sha disk (run_plan os tmp dest (plan sha tmp) disk)
  plan-Ended sha disk = rw (start sha disk) (elim (Option-cases (cleared disk tmp)) [
    | inl e ↦ fresh-Ended sha disk (cleared disk) e
    | inr (kept, e) ↦
        let (old, n, q) = kept_tree disk kept e in
        rw
          (run_plan_refused os tmp dest make_tmp (map run (commands sha tmp) ++ publish ∷ [])
            (cleared disk) (cleared disk) (step_exists (cleared disk) kept e))
          (leftover old kept refl n q e)
  ])
