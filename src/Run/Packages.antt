-- ===== src/Run/Packages.antt =====
-- The packages that `_run_arch` of tools/sos_runner.py collects from its cases.
use mathlib.Core.Bool.{false≢true}
use sawos.Prelude.{
  ◌≡◌, ◌↔◌, inl, inr, true, List, [], ◌∷◌, ◌++◌, Option, none, some, All, Bool-cases,
}
use sawos.Text.{Text, text_eq, elem}
use sawos.Text.Equality.{text_eq_iff}
use sawos.Case.{Case}
use sawos.Run.{add_new, add_all, add_root, packages_of}

module _ (B : Text → Type 0) where
  -- The property of a root package, if there is one; an empty name is none.
  abbrev pub OfRoot : Option Text → Type 0
  OfRoot (some (c ∷ s)) = B (c ∷ s)
  OfRoot _ = Unit

  -- The property of the packages that a case names.
  abbrev pub OfPackages : Case → Type 0
  OfPackages c = OfRoot c.root_pkg × All B c.children

  All-elem : (p : Text) (ps : List Text) → elem p ps ≡ true → All B ps → B p
  unfolding elem
  All-elem p [] h b = absurd (false≢true h)
  All-elem p (q ∷ ps) h (b, bs) = elim (Bool-cases (text_eq p q)) [
    | inl e ↦ rw ((text_eq_iff p q).0 e) b
    | inr e ↦ All-elem p ps (rw e at h) bs
  ]

  All-snoc : (ps : List Text) (p : Text) → All B (ps ++ p ∷ []) ↔ (All B ps × B p)
  All-snoc [] p = (λ h. (tt, h.0), λ h. (h.1, tt))
  All-snoc (q ∷ ps) p =
      let rest = All-snoc ps p in
      (λ h. ((h.0, (rest.0 h.1).0), (rest.0 h.1).1), λ h. (h.0.0, rest.1 (h.0.1, h.1)))

  add_new-All : (ps : List Text) (p : Text) → All B (add_new ps p) ↔ (All B ps × B p)
  add_new-All ps p = elim (Bool-cases (elem p ps)) [
    | inl e ↦ rw e (λ h. (h, All-elem p ps e h), λ h. h.0)
    | inr e ↦ rw e (All-snoc ps p)
  ]

  add_all-All : (ps qs : List Text) → All B (add_all ps qs) ↔ (All B ps × All B qs)
  unfolding add_all
  add_all-All ps [] = (λ h. (h, tt), λ h. h.0)
  add_all-All ps (q ∷ qs) =
      let rest = add_all-All (add_new ps q) qs in
      let here = add_new-All ps q in
      (
        λ h. ((here.0 (rest.0 h).0).0, ((here.0 (rest.0 h).0).1, (rest.0 h).1)),
        λ h. rest.1 (here.1 (h.0, h.1.0), h.1.1),
      )

  add_root-All : (ps : List Text) (o : Option Text) → All B (add_root ps o) ↔ (All B ps × OfRoot o)
  add_root-All ps none = (λ h. (h, tt), λ h. h.0)
  add_root-All ps (some []) = (λ h. (h, tt), λ h. h.0)
  add_root-All ps (some (c ∷ s)) = add_new-All ps (c ∷ s)

  -- What holds of all collected packages holds of those of each case.
  pub packages_of-All :
      (ps : List Text) (cs : List Case) → All B (packages_of ps cs) ↔ (All B ps × All OfPackages cs)
  unfolding packages_of
  packages_of-All ps [] = (λ h. (h, tt), λ h. h.0)
  packages_of-All ps (c ∷ cs) =
      let rest = packages_of-All (add_all (add_root ps c.root_pkg) c.children) cs in
      let children = add_all-All (add_root ps c.root_pkg) c.children in
      let root = add_root-All ps c.root_pkg in
      (
        λ h.
            let (front, behind) = rest.0 h in
            let (start, kids) = children.0 front in
            let (old, own) = root.0 start in (old, ((own, kids), behind)),
        λ (old, ((own, kids), behind)). rest.1 (children.1 (root.1 (old, own), kids), behind),
      )
