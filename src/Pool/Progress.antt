-- ===== src/Pool/Progress.antt =====
-- `_map_ordered` always comes to an end: the steps that a pool has left, and its next step.
use sawos.Prelude.{
  ℕ, zero, suc, ◌+◌, ◌<◌, ◌≤◌, ◌≡◌, ◌⊎◌, inl, inr, refl, ap, List, [], ◌∷◌, ◌++◌, arith,
}
use sawos.Pool.{
  Future, submitted, running, done, Pool, busy, submit_all, Step, begins, ends, yields, Steps, stop,
  next, run_inline,
}
use sawos.Pool.Order.{Steps-run_inline}

module _ {ℓ κ} {A : Type ℓ} {B : Type κ} (work : A → B) where
  -- How many steps are left.
  abbrev steps_left : List (Future A B) → ℕ
  steps_left [] = 0
  steps_left (submitted a ∷ fs) = 3 + steps_left fs
  steps_left (running a ∷ fs) = 2 + steps_left fs
  steps_left (done b ∷ fs) = 1 + steps_left fs

  steps_left-append :
      (fs gs : List (Future A B)) → steps_left (fs ++ gs) ≡ steps_left fs + steps_left gs
  steps_left-append [] gs = omega arith
  steps_left-append (submitted a ∷ fs) gs = omega (arith, steps_left-append fs gs)
  steps_left-append (running a ∷ fs) gs = omega (arith, steps_left-append fs gs)
  steps_left-append (done b ∷ fs) gs = omega (arith, steps_left-append fs gs)

  -- Each step is one of the steps that are left: three for each item that is submitted, two for each
  -- that runs, one for each that is done.
  Step-steps_left :
      (jobs : ℕ) (p q : Pool A B)
      → Step work jobs p q
      → steps_left p.futures ≡ suc (steps_left q.futures)
  Step-steps_left jobs _ _ (begins ys before after a free) = omega (
    arith,
    steps_left-append before (submitted a ∷ after),
    steps_left-append before (running a ∷ after),
  )
  Step-steps_left jobs _ _ (ends ys before after a) = omega (
    arith,
    steps_left-append before (running a ∷ after),
    steps_left-append before (done (work a) ∷ after),
  )
  Step-steps_left jobs _ _ (yields ys after b) = omega arith

  -- A busy worker somewhere.
  abbrev BusyAt : List (Future A B) → Type (ℓ ⊔ κ)
  BusyAt fs = (before after : List (Future A B)) × (a : A) × (fs ≡ before ++ running a ∷ after)

  busy-BusyAt : (fs : List (Future A B)) → 1 ≤ busy fs → BusyAt fs
  busy-BusyAt [] h = absurd (omega (arith, h))
  busy-BusyAt (running a ∷ fs) h = ([], fs, a, refl)
  busy-BusyAt (submitted a ∷ fs) h =
      let (before, after, b, e) = busy-BusyAt fs h in
      (submitted a ∷ before, after, b, ap (λ gs. submitted a ∷ gs) e)
  busy-BusyAt (done b ∷ fs) h =
      let (before, after, a, e) = busy-BusyAt fs h in
      (done b ∷ before, after, a, ap (λ gs. done b ∷ gs) e)

  -- A pool that has not come to its end has a step to take.
  progress :
      (jobs : ℕ) (ys : List B) (f : Future A B) (fs : List (Future A B))
      → 1 ≤ jobs
      → (q : Pool A B) × Step work jobs (record { yielded = ys; futures = f ∷ fs }) q
  progress jobs ys (done b) fs h = (_, yields ys fs b)
  progress jobs ys (running a) fs h = (_, ends ys [] fs a)
  progress jobs ys (submitted a) fs h = elim (lt_or_le (busy fs) jobs) [
    | inl free ↦ (_, begins ys [] fs a free)
    | inr full ↦
        let (before, after, b, e) = busy-BusyAt fs (omega (arith, full)) in
        rw e (_, ends ys (submitted a ∷ before) after b)
  ]
    where
      lt_or_le : (m n : ℕ) → (m < n) ⊎ (n ≤ m)
      lt_or_le m n = ground arith

  finish :
      (jobs n : ℕ) (ys : List B) (fs : List (Future A B))
      → 1 ≤ jobs
      → steps_left fs ≤ n
      → (zs : List B) × Steps work jobs
          (record { yielded = ys; futures = fs })
          (record { yielded = zs; futures = [] })
  finish jobs n ys [] h le = (ys, stop _)
  finish jobs zero ys (submitted a ∷ fs) h le = absurd (omega (arith, le))
  finish jobs zero ys (running a ∷ fs) h le = absurd (omega (arith, le))
  finish jobs zero ys (done b ∷ fs) h le = absurd (omega (arith, le))
  finish jobs (suc n) ys (f ∷ fs) h le =
      let (q, s) = progress jobs ys f fs h in
      let (zs, ss) =
        finish jobs n q.yielded q.futures h (omega (arith, le, Step-steps_left jobs _ q s)) in
      (zs, next _ q _ s ss)

  -- With one worker or more, a pool can always be brought to its end from where it stands, and what
  -- it has yielded there is what the thread itself would have, in the order of the items.
  pub Steps-finish :
      (jobs : ℕ) (items : List A) (p : Pool A B)
      → 1 ≤ jobs
      → Steps work jobs (submit_all work items) p
      → Steps work jobs p (record { yielded = run_inline work items; futures = [] })
  Steps-finish jobs items p h ss =
      let (zs, rest) = finish jobs (steps_left p.futures) p.yielded p.futures h (omega arith) in
      rw (← Steps-run_inline work jobs items zs (Steps-append jobs _ p _ ss rest)) rest
    where
      Steps-append :
          (jobs : ℕ) (p q r : Pool A B)
          → Steps work jobs p q
          → Steps work jobs q r
          → Steps work jobs p r
      Steps-append jobs _ _ r (stop p) more = more
      Steps-append jobs _ _ r (next p q t s ss) more =
          next p q r s (Steps-append jobs q t r ss more)
