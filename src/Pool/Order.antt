-- ===== src/Pool/Order.antt =====
-- The order of the results of `_map_ordered`.
use sawos.Prelude.{ℕ, ◌≡◌, refl, sym, ap, ◌∙◌, List, [], ◌∷◌, ◌++◌, map, append-nil, append_assoc}
use sawos.Pool.{
  Future, submitted, running, done, Pool, submit_all, Step, begins, ends, yields, Steps, stop, next,
  run_inline, MapOrdered, inline, pooled,
}

module _ {ℓ κ} {A : Type ℓ} {B : Type κ} (work : A → B) where
  -- What a future will have given.
  outcome : Future A B → B
  outcome (submitted a) = work a
  outcome (running a) = work a
  outcome (done b) = b

  -- The results in the order in which they will be yielded.
  owed : Pool A B → List B
  owed p = p.yielded ++ map outcome p.futures

  map-swap :
      (before after : List (Future A B)) (f g : Future A B)
      → outcome f ≡ outcome g
      → map outcome (before ++ f ∷ after) ≡ map outcome (before ++ g ∷ after)
  map-swap [] after f g e = ap (λ b. b ∷ map outcome after) e
  map-swap (b ∷ before) after f g e = ap (λ bs. outcome b ∷ bs) (map-swap before after f g e)

  Step-owed : (jobs : ℕ) (p q : Pool A B) → Step work jobs p q → owed q ≡ owed p
  unfolding owed outcome
  Step-owed jobs _ _ (begins ys before after a free) =
      ap (λ bs. ys ++ bs) (map-swap before after (running a) (submitted a) refl)
  Step-owed jobs _ _ (ends ys before after a) =
      ap (λ bs. ys ++ bs) (map-swap before after (done (work a)) (running a) refl)
  Step-owed jobs _ _ (yields ys after b) = append_assoc ys (b ∷ []) (map outcome after)

  Steps-owed : (jobs : ℕ) (p q : Pool A B) → Steps work jobs p q → owed q ≡ owed p
  Steps-owed jobs _ _ (stop p) = refl
  Steps-owed jobs _ _ (next p q r s ss) = Steps-owed jobs q r ss ∙ Step-owed jobs p q s

  owed-submit_all : (items : List A) → owed (submit_all work items) ≡ run_inline work items
  unfolding owed outcome run_inline
  owed-submit_all [] = refl
  owed-submit_all (a ∷ items) = ap (λ bs. work a ∷ bs) (owed-submit_all items)

  pub Steps-run_inline :
      (jobs : ℕ) (items : List A) (ys : List B)
      → Steps work jobs (submit_all work items) (record { yielded = ys; futures = [] })
      → ys ≡ run_inline work items
  unfolding owed
  Steps-run_inline jobs items ys ss =
      sym (append-nil ys) ∙ (Steps-owed jobs _ _ ss ∙ owed-submit_all items)

  -- With any number of jobs, and however the workers of a pool interleave, the results come in the
  -- order of the items, and are those of the loop on the thread itself.
  pub MapOrdered-run_inline :
      (jobs : ℕ) (items : List A) (ys : List B)
      → MapOrdered work jobs items ys
      → ys ≡ run_inline work items
  MapOrdered-run_inline jobs items _ (inline e) = refl
  MapOrdered-run_inline jobs items _ (pooled ys e ss) = Steps-run_inline jobs items ys ss
