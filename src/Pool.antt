-- ===== src/Pool.antt =====
-- `_map_ordered` of tools/sos_runner.py: a pool of workers, and a consumer that takes the results in
-- the order of the items. A step is one thing that the pool or the consumer does.
pub mod Order
pub mod Progress
use sawos.Prelude.{
  ℕ, zero, suc, ◌+◌, ◌<◌, ◌≤◌, ◌≡◌, refl, Bool, true, false, ◌||◌, List, [], ◌∷◌, ◌++◌, map, length,
  leb,
}

-- A future: submitted, on a worker, or with its result.
pub data Future {ℓ κ} (A : Type ℓ) (B : Type κ) : Type (ℓ ⊔ κ) where
  submitted running : A → Future A B
  done : B → Future A B

-- What was yielded, and the futures that the consumer has not reached.
pub record Pool {ℓ κ} (A : Type ℓ) (B : Type κ) : Type (ℓ ⊔ κ) where
  pub yielded : List B
  pub futures : List (Future A B)

-- The workers that are busy.
abbrev pub busy {ℓ κ} : {A : Type ℓ} {B : Type κ} → List (Future A B) → ℕ
busy [] = 0
busy (running a ∷ fs) = suc (busy fs)
busy (_ ∷ fs) = busy fs

module _ {ℓ κ} {A : Type ℓ} {B : Type κ} (work : A → B) where
  -- Every item is submitted before the first result is awaited.
  abbrev pub submit_all : List A → Pool A B
  submit_all items = record { yielded = []; futures = map submitted items }

  -- A free worker takes an item (here any that is submitted), a worker ends, or the consumer gets the result that it waits for,
  -- which is always the first.
  pub data Step (jobs : ℕ) : Pool A B → Pool A B → Type (ℓ ⊔ κ) where
    begins :
        (ys : List B) (before after : List (Future A B)) (a : A)
        → busy (before ++ submitted a ∷ after) < jobs
        → Step jobs
            (record { yielded = ys; futures = before ++ submitted a ∷ after })
            (record { yielded = ys; futures = before ++ running a ∷ after })
    ends :
        (ys : List B) (before after : List (Future A B)) (a : A)
        → Step jobs
            (record { yielded = ys; futures = before ++ running a ∷ after })
            (record { yielded = ys; futures = before ++ done (work a) ∷ after })
    yields :
        (ys : List B) (after : List (Future A B)) (b : B)
        → Step jobs
            (record { yielded = ys; futures = done b ∷ after })
            (record { yielded = ys ++ b ∷ []; futures = after })

  pub data Steps (jobs : ℕ) : Pool A B → Pool A B → Type (ℓ ⊔ κ) where
    stop : (p : Pool A B) → Steps jobs p p
    next : (p q r : Pool A B) → Step jobs p q → Steps jobs q r → Steps jobs p r

  -- `jobs <= 1 or len(items) <= 1`
  abbrev pub is_inline : ℕ → List A → Bool
  is_inline jobs items = leb jobs 1 || leb (length items) 1

  -- The loop on the thread itself.
  unfoldable pub run_inline : List A → List B
  run_inline [] = []
  run_inline (a ∷ items) = work a ∷ run_inline items

  -- What a consumer that takes everything gets: from the loop on the thread itself, or from a pool
  -- that has come to its end.
  pub data MapOrdered (jobs : ℕ) (items : List A) : List B → Type (ℓ ⊔ κ) where
    inline : is_inline jobs items ≡ true → MapOrdered jobs items (run_inline items)
    pooled :
        (ys : List B)
        → is_inline jobs items ≡ false
        → Steps jobs (submit_all items) (record { yielded = ys; futures = [] })
        → MapOrdered jobs items ys
