-- ===== src/Build/Apart.antt =====
-- What the builds of tools/sos_runner.py ask of the programs that they run, and builds whose steps
-- are mixed with the steps of others.
use sawos.Prelude.{
  ◌≡◌, refl, sym, ◌∙◌, Bool, true, false, List, [], ◌∷◌, ◌++◌, Option, none, some, if◌then◌else◌,
  All, In, inl, inr, Bool-cases, Option-cases,
}
use sawos.Text.{Text, codes, text_eq, starts_with}
use sawos.Text.Equality.{text_eq-eq}
use sawos.Build.{
  Files, put_file, Target, one_file, tree, Command, Built, built, tool_error, escaped, Host, Op,
  make_dir, command, copy_file, write_file, run_op, run_ops, proceed, copied, stay,
}

unfoldable pub may_write : Target → Text → Bool
unfolding text_eq starts_with
may_write (one_file q) p = text_eq q p
may_write (tree d) p = starts_with (d ++ codes "/") p

-- A command changes only what it may write. Of the files that builds make, what it does depends only
-- on those that it reads.
pub record IsTool (host : Host) (Artifact : Text → Type 0) : Type 0 where
  pub confined :
      (c : Command) (f : Files) (p : Text)
      → may_write c.writes p ≡ false
      → (host.exec c f).1 p ≡ f p
  pub declared :
      (c : Command) (f g : Files)
      → ((p : Text) → (Artifact p → In p c.reads) → f p ≡ g p)
      → ((host.exec c f).0 ≡ (host.exec c g).0)
        × ((p : Text) → may_write c.writes p ≡ true → (host.exec c f).1 p ≡ (host.exec c g).1 p)

-- The next step is the build's own, or another's.
pub data Turn : Type 0 where
  mine : Turn
  theirs : Op → Turn

module _ (host : Host) where
  -- The steps of the others alone: theirs that fail end nothing here.
  unfoldable pub others : List Turn → Files → Files
  unfolding run_op
  others [] f = f
  others (mine ∷ s) f = others s f
  others (theirs op ∷ s) f = others s (run_op host op f).1

  -- A build among the steps of others; when the schedule is over, it goes on alone.
  unfoldable pub run_among : List Op → List Turn → Files → Built (Unit {0}) × Files
  unfolding run_op run_ops others
  run_among ops [] f = run_ops host ops f
  run_among ops (theirs op ∷ s) f = run_among ops s (run_op host op f).1
  run_among [] (mine ∷ s) f = (built tt, others s f)
  run_among (op ∷ ops) (mine ∷ s) f =
      proceed (run_op host op f).0 (run_op host op f).1 (λ after. run_among ops s after) (others s)

-- `Foreign` are the paths of the others.
module _ (Foreign : Text → Type 0) where
  -- The operation reads nothing of the others.
  abbrev pub IsOwn : Op → Type 0
  IsOwn (command c) = All (λ p. ¬ Foreign p) c.reads
  IsOwn (copy_file src _) = ¬ Foreign src
  IsOwn _ = Unit

  -- The operation writes only what is the others'.
  abbrev pub IsTheirs : Op → Type 0
  IsTheirs (command c) = (p : Text) → may_write c.writes p ≡ true → Foreign p
  IsTheirs (copy_file _ dst) = Foreign dst
  IsTheirs (write_file path _) = Foreign path
  IsTheirs (make_dir _) = Unit

  abbrev pub TurnIsTheirs : Turn → Type 0
  TurnIsTheirs mine = Unit
  TurnIsTheirs (theirs op) = IsTheirs op

  -- The files are the same, but for those of the others.
  abbrev pub Agree : Files → Files → Type 0
  Agree f g = (p : Text) → ¬ Foreign p → f p ≡ g p

  -- The outcome is the same, and the files agree.
  abbrev pub Same : Built (Unit {0}) × Files → Built (Unit {0}) × Files → Type 0
  Same (r, f) (r', g) = (r ≡ r') × Agree f g

module _ (host : Host) (Artifact : Text → Type 0) (tool : IsTool host Artifact)
    (Foreign : Text → Type 0) (made : (p : Text) → Foreign p → Artifact p) where
  none-Foreign : (ps : List Text) (p : Text) → All (λ q. ¬ Foreign q) ps → In p ps → ¬ Foreign p
  none-Foreign [] p _ i = absurd i
  none-Foreign (q ∷ ps) p (h, hs) (inl e) = rw e h
  none-Foreign (q ∷ ps) p (h, hs) (inr i) = none-Foreign ps p hs i

  put-Agree :
      (path : Text) (content : Option Text) (f g : Files)
      → Agree Foreign f g
      → Agree Foreign (put_file path content f) (put_file path content g)
  unfolding put_file
  put-Agree path content f g h p np = elim (Bool-cases (text_eq path p)) [
    | inl e ↦ rw (e, if◌then◌else◌) refl
    | inr e ↦ rw (e, if◌then◌else◌) (h p np)
  ]

  put_theirs :
      (path : Text) (content : Option Text) (f g : Files)
      → Foreign path
      → Agree Foreign f g
      → Agree Foreign (put_file path content f) g
  unfolding put_file
  put_theirs path content f g hp h p np = elim (Bool-cases (text_eq path p)) [
    | inl e ↦ absurd (np (rw (← text_eq-eq path p e) hp))
    | inr e ↦ rw (e, if◌then◌else◌) (h p np)
  ]

  copied-Same :
      (content : Option Text) (dst : Text) (f g : Files)
      → Agree Foreign f g
      → Same Foreign (copied content dst f) (copied content dst g)
  copied-Same none dst f g h = (refl, h)
  copied-Same (some content) dst f g h = (refl, put-Agree dst (some content) f g h)

  own-Agree :
      (op : Op) (f g : Files)
      → IsOwn Foreign op
      → Agree Foreign f g
      → Same Foreign (run_op host op f) (run_op host op g)
  unfolding run_op
  own-Agree (make_dir d) f g o h = (refl, h)
  own-Agree (write_file path content) f g o h = (refl, put-Agree path (some content) f g h)
  own-Agree (copy_file src dst) f g o h = rw (h src o, run_op) (copied-Same (g src) dst f g h)
  own-Agree (command c) f g o h =
      let same = tool.declared c f g λ p r. h p λ x. none-Foreign c.reads p o (r (made p x)) x in
      (
        same.0,
        λ p np. elim (Bool-cases (may_write c.writes p)) [
          | inl w ↦ same.1 p w
          | inr w ↦ tool.confined c f p w ∙ (h p np ∙ sym (tool.confined c g p w))
        ],
      )

  theirs-Agree :
      (op : Op) (f g : Files)
      → IsTheirs Foreign op
      → Agree Foreign f g
      → Agree Foreign (run_op host op f).1 g
  unfolding run_op
  theirs-Agree (make_dir d) f g o h = h
  theirs-Agree (write_file path content) f g o h = put_theirs path (some content) f g o h
  theirs-Agree (copy_file src dst) f g o h = elim (Option-cases (f src)) [
    | inl e ↦ rw (e, run_op) h
    | inr (content, e) ↦ rw (e, run_op) (put_theirs dst (some content) f g o h)
  ]
  theirs-Agree (command c) f g o h = λ p np. elim (Bool-cases (may_write c.writes p)) [
    | inl w ↦ absurd (np (o p w))
    | inr w ↦ tool.confined c f p w ∙ h p np
  ]

  others-Agree :
      (s : List Turn) (f g : Files)
      → All (TurnIsTheirs Foreign) s
      → Agree Foreign f g
      → Agree Foreign (others host s f) g
  unfolding others
  others-Agree [] f g t h = h
  others-Agree (mine ∷ s) f g (_, t) h = others-Agree s f g t h
  others-Agree (theirs op ∷ s) f g (o, t) h =
      others-Agree s (run_op host op f).1 g t (theirs-Agree op f g o h)

  proceed-Same :
      (r : Built (Unit {0})) (f g : Files) (go go' : Files → Built (Unit {0}) × Files)
      (stop : Files → Files)
      → Agree Foreign f g
      → Same Foreign (go f) (go' g)
      → Agree Foreign (stop f) g
      → Same Foreign (proceed r f go stop) (proceed r g go' stay)
  proceed-Same (built _) f g go go' stop h same stopped = same
  proceed-Same tool_error f g go go' stop h same stopped = (refl, stopped)
  proceed-Same escaped f g go go' stop h same stopped = (refl, stopped)

  proceed_theirs :
      (r : Built (Unit {0})) (f g : Files) (go : Files → Built (Unit {0}) × Files)
      → Agree Foreign f g
      → Agree Foreign (go f).1 g
      → Agree Foreign (proceed r f go stay).1 g
  proceed_theirs (built _) f g go h k = k
  proceed_theirs tool_error f g go h k = h
  proceed_theirs escaped f g go h k = h

  pub run_ops-Agree :
      (ops : List Op) (f g : Files)
      → All (IsOwn Foreign) ops
      → Agree Foreign f g
      → Same Foreign (run_ops host ops f) (run_ops host ops g)
  unfolding run_ops
  run_ops-Agree [] f g os h = (refl, h)
  run_ops-Agree (op ∷ ops) f g (o, os) h =
      let (e, a) = own-Agree op f g o h in
      rw (e, run_ops)
        (proceed-Same (run_op host op g).0 _ _ _ _ stay a
          (run_ops-Agree ops (run_op host op f).1 (run_op host op g).1 os a) a)

  pub run_ops_theirs :
      (ops : List Op) (f g : Files)
      → All (IsTheirs Foreign) ops
      → Agree Foreign f g
      → Agree Foreign (run_ops host ops f).1 g
  unfolding run_ops
  run_ops_theirs [] f g os h = h
  run_ops_theirs (op ∷ ops) f g (o, os) h =
      let a = theirs-Agree op f g o h in
      proceed_theirs (run_op host op f).0 (run_op host op f).1 g _ a
        (run_ops_theirs ops (run_op host op f).1 g os a)

  -- Among the steps of others, whatever they are and however they are mixed in, a build ends as it
  -- does alone, and leaves the same files.
  pub run_among-Agree :
      (ops : List Op) (s : List Turn) (f g : Files)
      → All (IsOwn Foreign) ops
      → All (TurnIsTheirs Foreign) s
      → Agree Foreign f g
      → Same Foreign (run_among host ops s f) (run_ops host ops g)
  unfolding run_among run_ops
  run_among-Agree ops [] f g os t h = run_ops-Agree ops f g os h
  run_among-Agree ops (theirs op ∷ s) f g os (o, t) h =
      run_among-Agree ops s (run_op host op f).1 g os t (theirs-Agree op f g o h)
  run_among-Agree [] (mine ∷ s) f g os (_, t) h = (refl, others-Agree s f g t h)
  run_among-Agree (op ∷ ops) (mine ∷ s) f g (o, os) (_, t) h =
      let (e, a) = own-Agree op f g o h in
      rw (e, run_among)
        (proceed-Same (run_op host op g).0 _ _ _ _ (others host s) a
          (run_among-Agree ops s (run_op host op f).1 (run_op host op g).1 os t a)
          (others-Agree s (run_op host op f).1 (run_op host op g).1 t a))
