-- ===== src/Prelude.antt =====
-- The names that every module shares: the libraries', passed on, and those of the children.
mod Tests
mod Lists
pub mod Int
pub use Tests.*
pub use Lists.*
pub use Prim.Native.Nat.{ℕ, zero, suc, ◌+◌, ◌-◌, ◌*◌, ◌/◌, ◌%◌, ◌^◌, ◌≤◌, ◌<◌}
use mathlib.Core.Path.{subst}
pub use mathlib.Core.Path.{◌≡◌, refl, sym, ap, ◌∙◌}
pub use mathlib.Core.Logic.{◌≢◌, ◌↔◌, ◌⊎◌, inl, inr}
pub use mathlib.Core.Bool.{Bool, true, false, ◌&&◌, ◌||◌, not}
pub use mathlib.Core.Option.{Option, none, some}
pub use mathlib.Core.List.{List, [], ◌∷◌, ◌++◌, map, append-nil, append_assoc}
pub use native.Mathlib.Omega.{arith}

-- Every element of a list has the property: computes to a tuple.
abbrev pub All {ℓ κ} : {A : Type ℓ} → (A → Type κ) → List A → Type κ
All P [] = Unit
All P (x ∷ xs) = P x × All P xs

pub All-append {ℓ κ} :
    {A : Type ℓ} (P : A → Type κ) (xs ys : List A) → All P xs → All P ys → All P (xs ++ ys)
All-append P [] ys hx hy = hy
All-append P (x ∷ xs) ys hx hy = (hx.0, All-append P xs ys hx.1 hy)

-- The element stands in the list: computes to a sum of equations.
abbrev pub In : {A : Type 0} → A → List A → Type 0
In x [] = ⊥
In x (y ∷ ys) = (x ≡ y) ⊎ In x ys

pub All-map {ℓ κ μ} :
    {A : Type ℓ} {P : A → Type κ} {Q : A → Type μ}
    → ((x : A) → P x → Q x)
    → (xs : List A) → All P xs
    → All Q xs
All-map f [] h = tt
All-map f (x ∷ xs) (h, hs) = (f x h, All-map f xs hs)

pub All-zip {ℓ κ μ ν} :
    {A : Type ℓ} {P : A → Type κ} {Q : A → Type μ} {R : A → Type ν}
    → ((x : A) → P x → Q x → R x)
    → (xs : List A) → All P xs
    → All Q xs
    → All R xs
All-zip f [] h g = tt
All-zip f (x ∷ xs) (h, hs) (g, gs) = (f x h g, All-zip f xs hs gs)

pub All-In {κ} : {A : Type 0} (P : A → Type κ) (xs : List A) (x : A) → All P xs → In x xs → P x
All-In P [] x h i = absurd i
All-In P (y ∷ ys) x (h, hs) (inl e) = subst P (sym e) h
All-In P (y ∷ ys) x (h, hs) (inr i) = All-In P ys x hs i

pub all-All : {A : Type 0} (p : A → Bool) (xs : List A) → all p xs ≡ true → All (λ x. p x ≡ true) xs
all-All p [] h = tt
all-All p (x ∷ xs) h = (ground arith, all-All p xs (ground arith))

pub In-All : {A : Type 0} (xs : List A) → All (λ x. In x xs) xs
In-All [] = tt
In-All (x ∷ xs) = (inl refl, All-map (λ y i. inr i) xs (In-All xs))

pub In-right : {A : Type 0} (xs ys : List A) (y : A) → In y ys → In y (xs ++ ys)
In-right [] ys y i = i
In-right (x ∷ xs) ys y i = inr (In-right xs ys y i)

pub In-left : {A : Type 0} (xs ys : List A) (x : A) → In x xs → In x (xs ++ ys)
In-left [] ys x i = absurd i
In-left (y ∷ xs) ys x (inl e) = inl e
In-left (y ∷ xs) ys x (inr i) = inr (In-left xs ys x i)

-- The numbers below a bound, the largest first.
abbrev pub below : ℕ → List ℕ
below zero = []
below (suc n) = n ∷ below n

pub all-below : (p : ℕ → Bool) (k n : ℕ) → n < k → all p (below k) ≡ true → p n ≡ true
all-below p zero n h q = absurd (omega (arith, h))
all-below p (suc k) n h q = elim (Bool-cases (n == k)) [
  | inl e ↦ rw (==→eq n k e) (ground arith)
  | inr e ↦ all-below p k n (ground arith) (ground arith)
]
