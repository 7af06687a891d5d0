-- ===== src/Toolchain/Atomic.antt =====
-- The fetch of tools/toolchain.py cut off at any step: what stands at the place of the checkout.
use native.Mathlib.Decide.{dec_lt}
use sawos.Prelude.{
  ℕ, zero, suc, ◌≤◌, ◌≡◌, ◌≢◌, ◌⊎◌, inl, inr, refl, ap, ◌∙◌, false, List, [], ◌∷◌, ◌++◌, Option,
  some, arith, length, take, Bool-cases, Option-cases, All, length-append,
}
use sawos.Text.{Text, codes, text_eq}
use sawos.Text.Equality.{text_eq_iff}
use sawos.Toolchain.Os.{Os, Disk, Exit, succeeded, exited, unstarted, write}
use sawos.Toolchain.Fetch.{
  Action, remove_tmp, make_tmp, publish, run, Outcome, done, refused, failed, step, run_plan, plan,
  partial_of,
}

pub partial-ne : (dest : Text) → text_eq (partial_of dest) dest ≡ false
partial-ne dest = elim (Bool-cases (text_eq (partial_of dest) dest)) [
  | inl e ↦ absurd (
      omega (
        arith,
        ap (λ (t : Text). length t) ((text_eq_iff (partial_of dest) dest).0 e),
        length-append {0} dest (codes ".partial"),
      ))
  | inr e ↦ e
]

-- Not the publishing step.
abbrev Works : Action → Type 0
Works publish = ⊥
Works _ = Unit

one_step :
    {C : Type 0} (r : Outcome × Disk C)
    → ◌≡◌ {A = Outcome × Disk C} (elim r.0 [ done ↦ (done, r.1) | _ ↦ r ]) r
one_step (done, d) = refl
one_step (refused, d) = refl
one_step (failed argv, d) = refl

All-take {ℓ κ} : {A : Type ℓ} (P : A → Type κ) (n : ℕ) (xs : List A) → All P xs → All P (take n xs)
All-take P zero xs h = tt
All-take P (suc n) [] h = tt
All-take P (suc n) (x ∷ xs) (h, hs) = (h, All-take P n xs hs)

take-append_left {ℓ} :
    {A : Type ℓ} (n : ℕ) (xs ys : List A) → n ≤ length xs → take n (xs ++ ys) ≡ take n xs
take-append_left zero xs ys h = refl
take-append_left (suc n) [] ys h = absurd (omega arith)
take-append_left (suc n) (x ∷ xs) ys h = ap (λ t. x ∷ t) (take-append_left n xs ys (omega arith))

take-all {ℓ} : {A : Type ℓ} (n : ℕ) (xs : List A) → length xs ≤ n → take n xs ≡ xs
take-all zero [] h = refl
take-all zero (x ∷ xs) h = absurd (omega arith)
take-all (suc n) [] h = refl
take-all (suc n) (x ∷ xs) h = ap (λ t. x ∷ t) (take-all n xs (omega arith))

-- The steps before the last.
unpublished : Text → Text → List Action
unpublished sha tmp = take 8 (plan sha tmp)

plan-unpublished : (sha tmp : Text) → plan sha tmp ≡ unpublished sha tmp ++ publish ∷ []
unfolding plan unpublished
plan-unpublished sha tmp = refl

length-unpublished : (sha tmp : Text) → length (unpublished sha tmp) ≡ 8
unfolding plan unpublished
length-unpublished sha tmp = refl

unpublished-Works : (sha tmp : Text) → All Works (unpublished sha tmp)
unfolding plan unpublished
unpublished-Works sha tmp = (tt, (tt, (tt, (tt, (tt, (tt, (tt, (tt, tt))))))))

module _ {C : Type 0} (os : Os C) (tmp dest : Text) (apart : text_eq tmp dest ≡ false) where
  write_tmp : (disk : Disk C) (t : Option C) → write disk tmp t dest ≡ disk dest
  unfolding write
  write_tmp disk t = rw apart

  step-keeps : (a : Action) (disk : Disk C) → Works a → (step os tmp dest a disk).1 dest ≡ disk dest
  unfolding step
  step-keeps remove_tmp disk h = write_tmp disk _
  step-keeps make_tmp disk h = ground (arith, write_tmp disk (some os.empty_tree))
  step-keeps (run argv) disk h = elim (Option-cases (disk tmp)) [
    | inl e ↦ ground arith
    | inr (tree, e) ↦ rw (e, step) (exit-keeps (os.command argv tree))
  ]
    where
      exit-keeps :
          (r : Exit × C)
          → (elim r.0 as (λ x. Outcome × Disk C) [
            | succeeded ↦ (done, write disk tmp (some r.1))
            | exited ↦ (failed argv, write disk tmp (os.remains r.1))
            | unstarted ↦ (refused, disk)
          ]).1
              dest
            ≡ disk dest
      exit-keeps (succeeded, left) = write_tmp disk (some left)
      exit-keeps (exited, left) = write_tmp disk (os.remains left)
      exit-keeps (unstarted, left) = refl
  step-keeps publish disk h = elim h [ ]

  run_plan-keeps :
      (actions : List Action) (disk : Disk C)
      → All Works actions
      → (run_plan os tmp dest actions disk).1 dest ≡ disk dest
  unfolding run_plan
  run_plan-keeps [] disk h = refl
  run_plan-keeps (a ∷ actions) disk (h, hs) =
      ground (arith, step-keeps a disk h, run_plan-keeps actions (step os tmp dest a disk).1 hs)

  -- What a plan with one more step does.
  pub run_plan-append :
      (xs : List Action) (a : Action) (disk : Disk C)
      → ((run_plan os tmp dest xs disk).0 ≡ done)
          × (run_plan os tmp dest (xs ++ a ∷ []) disk
              ≡ step os tmp dest a (run_plan os tmp dest xs disk).1)
        ⊎ ((run_plan os tmp dest xs disk).0 ≢ done)
          × (run_plan os tmp dest (xs ++ a ∷ []) disk ≡ run_plan os tmp dest xs disk)
  unfolding run_plan
  run_plan-append [] a disk = inl (refl, one_step (step os tmp dest a disk))
  run_plan-append (x ∷ xs) a disk = ground (arith, run_plan-append xs a (step os tmp dest x disk).1)

  publish-keeps :
      (disk : Disk C)
      → ((step os tmp dest publish disk).1 dest ≡ disk dest)
        ⊎ ((step os tmp dest publish disk).0 ≡ done)
  unfolding step
  publish-keeps disk = elim (Option-cases (disk dest)) [
    | inl e ↦ inr (rw e)
    | inr (tree, e) ↦ elim (Bool-cases (os.is_empty tree)) [
      | inl q ↦ inr (rw e (rw q))
      | inr q ↦ inl (rw (e, q) e)
    ]
  ]

  pub whole-keeps :
      (sha : Text) (disk : Disk C)
      → ((run_plan os tmp dest (plan sha tmp) disk).1 dest ≡ disk dest)
        ⊎ ((run_plan os tmp dest (plan sha tmp) disk).0 ≡ done)
  whole-keeps sha disk =
      let ws = unpublished sha tmp in
      let keeps = run_plan-keeps ws disk (unpublished-Works sha tmp) in
      rw (plan-unpublished sha tmp) (elim (run_plan-append ws publish disk) [
        | inl (d, e) ↦ rw e (elim (publish-keeps (run_plan os tmp dest ws disk).1) [
          | inl k ↦ inl (k ∙ keeps)
          | inr k ↦ inr k
        ])
        | inr (d, e) ↦ rw e (inl keeps)
      ])

  -- However far a fetch gets before it dies, the place of the checkout, which is not the place of the
  -- partial tree, holds what it held before, unless every step was done.
  pub interrupted-keeps :
      (sha : Text) (disk : Disk C) (n : ℕ)
      → ((run_plan os tmp dest (take n (plan sha tmp)) disk).1 dest ≡ disk dest)
        ⊎ ((length (plan sha tmp) ≤ n)
            × ((run_plan os tmp dest (take n (plan sha tmp)) disk).0 ≡ done))
  interrupted-keeps sha disk n =
      let ws = unpublished sha tmp in
      let size : length (plan sha tmp) ≡ 9 =
        ap length (plan-unpublished sha tmp)
        ∙ length-append ws (publish ∷ [])
        ∙ omega (arith, length-unpublished sha tmp) in
      elim (dec_lt 8 n) [
        | yes more ↦
            rw (take-all n (plan sha tmp) (omega (arith, size)))
              (elim (whole-keeps sha disk) [ inl k ↦ inl k | inr k ↦ inr (omega (arith, size), k) ])
        | no few ↦ inl (
            rw (plan-unpublished sha tmp) (
              rw (take-append_left n ws (publish ∷ []) (omega (arith, length-unpublished sha tmp)))
                (run_plan-keeps (take n ws) disk
                  (All-take Works n ws (unpublished-Works sha tmp)))))
      ]
