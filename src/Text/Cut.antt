-- ===== src/Text/Cut.antt =====
-- `strip`, `split` and `partition` of Python on texts that are put together from parts.
use sawos.Prelude.{
  ◌≡◌, inl, inr, refl, sym, ap, ◌∙◌, Bool, true, false, [], ◌∷◌, ◌++◌, ℕ, arith, if◌then◌else◌, All,
  append_assoc, append-nil, Bool-cases,
}
use sawos.Text.{Text}
use sawos.Text.Split.{drop_while, drop_end, cons_unless, strip_of, before, behind, has}

-- The last character, after a first.
abbrev pub last_of : ℕ → Text → ℕ
last_of c [] = c
last_of c (d ∷ s) = last_of d s

-- A text that `strip` leaves as it is: it is empty, or neither end is one of the characters.
abbrev pub IsSolid : (ℕ → Bool) → Text → Type 0
IsSolid p [] = Unit
IsSolid p (c ∷ s) = (p c ≡ false) × (p (last_of c s) ≡ false)

cons_unless-cons :
    (b : Bool) (c : ℕ) (a : Text) (d : ℕ) (u : Text)
    → cons_unless b c (a ++ d ∷ u) ≡ c ∷ (a ++ d ∷ u)
cons_unless-cons b c [] d u = refl
cons_unless-cons b c (x ∷ a) d u = refl

cons_unless_kept : (c : ℕ) (s : Text) → cons_unless false c s ≡ c ∷ s
cons_unless_kept c [] = refl
cons_unless_kept c (d ∷ s) = refl

module _ (p : ℕ → Bool) where
  abbrev pub Only : Text → Type 0
  Only = All (λ c. p c ≡ true)

  drop_while-Only : (l s : Text) → Only l → drop_while p (l ++ s) ≡ drop_while p s
  unfolding drop_while
  drop_while-Only [] s h = refl
  drop_while-Only (c ∷ l) s (e, h) = rw (e, if◌then◌else◌) (drop_while-Only l s h)

  drop_while_kept : (c : ℕ) (s : Text) → p c ≡ false → drop_while p (c ∷ s) ≡ c ∷ s
  unfolding drop_while
  drop_while_kept c s e = rw (e, if◌then◌else◌) refl

  pub drop_end-Only : (s r : Text) → Only r → drop_end p (s ++ r) ≡ drop_end p s
  unfolding drop_end
  drop_end-Only [] [] h = refl
  drop_end-Only [] (c ∷ r) (e, h) = rw (drop_end-Only [] r h, e, cons_unless) refl
  drop_end-Only (c ∷ s) r h = ap (cons_unless (p c) c) (drop_end-Only s r h)

  drop_end-append :
      (a t : Text) (d : ℕ) (u : Text) → drop_end p t ≡ d ∷ u → drop_end p (a ++ t) ≡ a ++ d ∷ u
  unfolding drop_end
  drop_end-append [] t d u e = e
  drop_end-append (c ∷ a) t d u e =
      ap (cons_unless (p c) c) (drop_end-append a t d u e) ∙ cons_unless-cons (p c) c a d u

  drop_end_kept : (c : ℕ) (s : Text) → p (last_of c s) ≡ false → drop_end p (c ∷ s) ≡ c ∷ s
  unfolding drop_end
  drop_end_kept c [] e = rw e refl
  drop_end_kept c (d ∷ s) e = ap (cons_unless (p c) c) (drop_end_kept d s e)

  pub strip_of-Only : (l : Text) → Only l → strip_of p l ≡ []
  unfolding strip_of drop_end drop_while
  strip_of-Only [] h = refl
  strip_of-Only (c ∷ l) (e, h) = rw (e, if◌then◌else◌) (strip_of-Only l h)

  pub strip_of-IsSolid :
      (l t r : Text) → Only l → IsSolid p t → Only r → strip_of p (l ++ (t ++ r)) ≡ t
  unfolding strip_of
  strip_of-IsSolid l [] r hl ht hr =
      ap (drop_end p) (drop_while-Only l r hl) ∙ (unfold strip_of in strip_of-Only r hr)
  strip_of-IsSolid l (c ∷ s) r hl (first, end) hr =
      ap (drop_end p) (drop_while-Only l (c ∷ s ++ r) hl ∙ drop_while_kept c (s ++ r) first)
      ∙ (drop_end-Only (c ∷ s) r hr ∙ drop_end_kept c s end)

  drop_while-around :
      (a : Text) (c : ℕ) (b : Text)
      → p c ≡ false
      → drop_while p (a ++ c ∷ b) ≡ drop_while p a ++ c ∷ b
  unfolding drop_while
  drop_while-around [] c b e = rw (e, if◌then◌else◌) refl
  drop_while-around (d ∷ a) c b e = elim (Bool-cases (p d)) [
    | inl q ↦ rw (q, if◌then◌else◌) (drop_while-around a c b e)
    | inr q ↦ rw (q, if◌then◌else◌) refl
  ]

  drop_while_all : (r : Text) → Only r → drop_while p r ≡ []
  unfolding drop_while
  drop_while_all [] h = refl
  drop_while_all (c ∷ r) (e, h) = rw (e, if◌then◌else◌) (drop_while_all r h)

  -- The stripping of a text with a character inside that is none of those leaves the character there.
  pub strip_of-around :
      (a : Text) (c : ℕ) (b : Text)
      → p c ≡ false
      → strip_of p (a ++ c ∷ b) ≡ drop_while p a ++ c ∷ drop_end p b
  unfolding strip_of
  strip_of-around a c b e =
      ap (drop_end p) (drop_while-around a c b e)
      ∙ drop_end-append (drop_while p a) (c ∷ b) c (drop_end p b)
          (unfold drop_end in rw e (cons_unless_kept c (drop_end p b)))

  pub strip_of_front :
      (l t r : Text) → Only l → IsSolid p t → Only r → strip_of p (drop_while p (l ++ (t ++ r))) ≡ t
  unfolding strip_of
  strip_of_front l [] r hl ht hr =
      rw (drop_while-Only l r hl) (rw (drop_while_all r hr) (unfold drop_while drop_end in refl))
  strip_of_front l (c ∷ s) r hl (first, end) hr = rw (drop_while-Only l (c ∷ s ++ r) hl) (
      rw (drop_while_kept c (s ++ r) first) (
        rw (drop_while_kept c (s ++ r) first) (drop_end-Only (c ∷ s) r hr ∙ drop_end_kept c s end)))

  pub strip_of_back :
      (l t r : Text) → Only l → IsSolid p t → Only r → strip_of p (drop_end p (l ++ (t ++ r))) ≡ t
  strip_of_back l [] r hl ht hr =
      rw (drop_end-Only l r hr)
        (rw (drop_end-Only [] l hl) (unfold strip_of drop_while drop_end in refl))
  strip_of_back l (c ∷ s) r hl (first, end) hr = rw (sym (append_assoc l (c ∷ s) r)) (
      rw (drop_end-Only (l ++ c ∷ s) r hr) (
        rw (drop_end-append l (c ∷ s) c s (drop_end_kept c s end)) (
          ap (strip_of p) (ap (λ x. l ++ x) (sym (append-nil (c ∷ s))))
          ∙ strip_of-IsSolid l (c ∷ s) [] hl (first, end) tt)))

module _ (c : ℕ) where
  pub before_none : (a : Text) → has c a ≡ false → before c a ≡ a
  unfolding before has
  before_none [] h = refl
  before_none (d ∷ a) h = ground (arith, before_none a)

  pub before-append : (a b : Text) → has c a ≡ false → before c (a ++ c ∷ b) ≡ a
  unfolding before has
  before-append [] b h = ground arith
  before-append (d ∷ a) b h = ground (arith, before-append a b)

  pub behind-append : (a b : Text) → has c a ≡ false → behind c (a ++ c ∷ b) ≡ b
  unfolding behind has
  behind-append [] b h = ground arith
  behind-append (d ∷ a) b h = ground (arith, behind-append a b)

  pub has-append : (a b : Text) → has c (a ++ c ∷ b) ≡ true
  unfolding has
  has-append [] b = ground arith
  has-append (d ∷ a) b = ground (arith, has-append a b)
