-- ===== src/Build/Names.antt =====
-- The paths that the builds of tools/sos_runner.py make, by the case's name.
use sawos.Prelude.{
  ◌≡◌, refl, sym, ap, ◌∙◌, Bool, true, false, ◌&&◌, not, [], ◌∷◌, ◌++◌, arith, all, append_assoc,
  ◌==◌, if◌then◌else◌, inl, inr, Bool-cases,
}
use sawos.Text.{Text, codes, starts_with, ends_with}
use sawos.Paths.{◌/+◌}
use sawos.Build.Elf.{artifact}

-- A name with no dot and no separator, as the cases have.
unfoldable pub is_stem : Text → Bool
is_stem = all λ c. not (c == b'.') && not (c == b'/')

-- A directory with its separator.
unfoldable pub as_prefix : Text → Text
unfolding ends_with
as_prefix [] = []
as_prefix (c ∷ d) = if ends_with (codes "/") (c ∷ d) then c ∷ d else (c ∷ d) ++ codes "/"

-- The path belongs to the case: it is one of its files, or stands in one of its directories.
abbrev pub ArtifactOf : Text → Text → Text → Type 0
ArtifactOf build name p = (rest : Text) × (p ≡ as_prefix build ++ (name ++ codes "." ++ rest))

pub join-as_prefix : (d x : Text) → starts_with (codes "/") x ≡ false → (d /+ x) ≡ as_prefix d ++ x
unfolding ◌/+◌ as_prefix
join-as_prefix [] x h = refl
join-as_prefix (c ∷ d) x h =
    rw (h, if◌then◌else◌)
      (elim (Bool-cases (ends_with (codes "/") (c ∷ d))) [
        | inl e ↦ rw (e, if◌then◌else◌) refl
        | inr e ↦ rw (e, if◌then◌else◌) (sym (append_assoc (c ∷ d) (codes "/") x))
      ])

-- Joining only adds to a path.
join-longer :
    (d x : Text) → starts_with (codes "/") x ≡ false → (rest : Text) × ((d /+ x) ≡ d ++ rest)
unfolding ◌/+◌
join-longer [] x h = (x, refl)
join-longer (c ∷ d) x h =
    rw (h, if◌then◌else◌)
      (elim (Bool-cases (ends_with (codes "/") (c ∷ d))) [
        | inl e ↦ (x, rw (e, if◌then◌else◌) refl)
        | inr e ↦ (codes "/" ++ x, rw (e, if◌then◌else◌) refl)
      ])

stem-relative :
    (n s : Text) → is_stem n ≡ true → starts_with (codes "/") (n ++ codes "." ++ s) ≡ false
unfolding is_stem starts_with
stem-relative [] s h = refl
stem-relative (c ∷ n) s h = ground arith

artifact-prefix :
    (b n kind : Text)
    → is_stem n ≡ true
    → artifact b n kind ≡ as_prefix b ++ (n ++ codes "." ++ kind)
artifact-prefix b n kind h = join-as_prefix b (n ++ codes "." ++ kind) (stem-relative n kind h)

pub artifact-ArtifactOf : (b n kind : Text) → is_stem n ≡ true → ArtifactOf b n (artifact b n kind)
artifact-ArtifactOf b n kind h = (kind, artifact-prefix b n kind h)

pub staged-ArtifactOf :
    (b n kind x : Text)
    → is_stem n ≡ true
    → starts_with (codes "/") x ≡ false
    → ArtifactOf b n (artifact b n kind /+ x)
staged-ArtifactOf b n kind x h hx =
    let (rest, e) = join-longer (artifact b n kind) x hx in
    let at = artifact-prefix b n kind h in
    (
      kind ++ rest,
      e
          ∙ (ap (λ s. s ++ rest) at
              ∙ (append_assoc (as_prefix b) (n ++ codes "." ++ kind) rest
                  ∙ ap (λ s. as_prefix b ++ s) (append_assoc (n ++ codes ".") kind rest))),
    )

pub append-cancel : (p s t : Text) → p ++ s ≡ p ++ t → s ≡ t
append-cancel [] s t e = e
append-cancel (c ∷ p) s t e = append-cancel p s t cc

stem_unique :
    (m n s t : Text)
    → is_stem m ≡ true
    → is_stem n ≡ true
    → m ++ codes "." ++ s ≡ n ++ codes "." ++ t
    → m ≡ n
unfolding is_stem
stem_unique [] [] s t hm hn e = refl
stem_unique [] (c ∷ n) s t hm hn e = let q : b'.' ≡ c = cc in absurd (ground (arith, q, hn))
stem_unique (c ∷ m) [] s t hm hn e = let q : c ≡ b'.' = cc in absurd (ground (arith, q, hm))
stem_unique (c ∷ m) (d ∷ n) s t hm hn e =
    let q : c ≡ d = cc in
    let r : m ++ codes "." ++ s ≡ n ++ codes "." ++ t = cc in
    let tail = stem_unique m n s t (ground arith) (ground arith) r in cc

-- No path belongs to two cases.
pub ArtifactOf-unique :
    (b m n p : Text)
    → is_stem m ≡ true
    → is_stem n ≡ true
    → ArtifactOf b m p
    → ArtifactOf b n p
    → m ≡ n
ArtifactOf-unique b m n p hm hn (s, e) (t, f) =
    stem_unique m n s t hm hn (append-cancel (as_prefix b) _ _ (sym e ∙ f))
