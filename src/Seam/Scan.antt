-- ===== src/Seam/Scan.antt =====
-- The reports of `_check_arch_free`, and the words that they are about.
use mathlib.Core.Bool.{false≢true}
use native.Mathlib.Decide.{ℕ_discrete}
use sawos.Prelude.{
  some-injective, ℕ, zero, suc, ◌+◌, ◌≤◌, ◌<◌, ◌≡◌, ◌↔◌, ◌⊎◌, Option, get_elem?, Bool, ◌&&◌, inl,
  inr, refl, sym, ◌∙◌, true, false, List, [], ◌∷◌, ◌++◌, none, some, arith, map, length, All,
  Bool-cases, Option-cases,
}
use sawos.Text.{Text, find}
use sawos.Text.Find.{OccursAt, find-FirstAt}
use sawos.Seam.{
  is_alpha, alpha_at, is_english_embedding, leak_from, leaks, to_lower, Leak, no_leak, scan_words,
  scan_lines, scan_sources, check_arch_free, arch_words, Source,
}

-- A letter of the Latin alphabet.
abbrev pub IsLetter : ℕ → Type 0
IsLetter c = ((97 ≤ c) × (c ≤ 122)) ⊎ ((65 ≤ c) × (c ≤ 90))

-- The word, which stands at the position, has a letter right before it and one right behind it.
abbrev pub InsideWord : Text → Text → ℕ → Type 0
InsideWord line word i =
    (j c d : ℕ) × (i ≡ suc j)
    × (get_elem? line j ≡ some c)
    × IsLetter c
    × (get_elem? line (i + length word) ≡ some d)
    × IsLetter d

-- The word stands in the line, at or after a position, and not inside a longer word.
abbrev pub LeaksAfter : Text → Text → ℕ → Type 0
LeaksAfter line word start = (i : ℕ) × (start ≤ i) × OccursAt word line i × ¬ InsideWord line word i

is_alpha-IsLetter : (c : ℕ) → (is_alpha c ≡ true) ↔ IsLetter c
is_alpha-IsLetter c = ground arith

alpha_at-IsLetter : (o : Option ℕ) → (alpha_at o ≡ true) ↔ ((c : ℕ) × (o ≡ some c) × IsLetter c)
alpha_at-IsLetter none = ground arith
alpha_at-IsLetter (some c) = (
  λ h. (c, refl, (is_alpha-IsLetter c).0 h),
  λ (d, e, l). (is_alpha-IsLetter c).1 (rw (some-injective e) l),
)

is_english_embedding-InsideWord :
    (line word : Text) (i : ℕ) → (is_english_embedding line word i ≡ true) ↔ InsideWord line word i
unfolding is_english_embedding
is_english_embedding-InsideWord line word zero =
    (λ h. absurd (false≢true h), λ (j, c, d, e, _, _, _, _). absurd (omega (arith, e)))
is_english_embedding-InsideWord line word (suc j) =
    let here = alpha_at-IsLetter (get_elem? line j) in
    let behind = alpha_at-IsLetter (get_elem? line (suc j + length word)) in
    let split =
      both (alpha_at (get_elem? line j)) (alpha_at (get_elem? line (suc j + length word))) in
    (
      λ h.
          let (c, ec, lc) = here.0 (split.0 h).0 in
          let (d, ed, ld) = behind.0 (split.0 h).1 in (j, c, d, refl, ec, lc, ed, ld),
      λ (k, c, d, e, ec, lc, ed, ld).
          let same : j ≡ k = omega (arith, e) in
          split.1 (here.1 (c, rw same ec, lc), behind.1 (d, ed, ld)),
    )
  where
    both : (a b : Bool) → ((a && b) ≡ true) ↔ ((a ≡ true) × (b ≡ true))
    both true b = (λ h. (refl, h), λ h. h.1)
    both false b = (λ h. absurd (false≢true h), λ h. h.0)

-- The same with the test of the code.
abbrev ReportsAfter : Text → Text → ℕ → Type 0
ReportsAfter line word start =
    (i : ℕ) × (start ≤ i) × OccursAt word line i × (is_english_embedding line word i ≡ false)

module _ (line word : Text) (fuel start : ℕ) where
  -- One round of the loop, by what `find` returned and what stands round the word.
  round_none : find word line start ≡ none → leak_from (suc fuel) line word start ≡ false
  unfolding leak_from
  round_none e = rw (e, leak_from)

  round_leak :
      (at : ℕ)
      → find word line start ≡ some at
      → is_english_embedding line word at ≡ false
      → leak_from (suc fuel) line word start ≡ true
  unfolding leak_from
  round_leak at e q = rw (e, leak_from) (rw (q, leak_from))

  round_english :
      (at : ℕ)
      → find word line start ≡ some at
      → is_english_embedding line word at ≡ true
      → leak_from (suc fuel) line word start ≡ leak_from fuel line word (at + 1)
  unfolding leak_from
  round_english at e q = rw (e, leak_from) (rw (q, leak_from))

ReportsAfter-earlier :
    (line word : Text) (s t : ℕ) → s ≤ t → ReportsAfter line word t → ReportsAfter line word s
ReportsAfter-earlier line word s t le (i, ti, o, q) = (i, omega arith, o, q)

-- Past an embedded occurrence, which is the first, the search may go on one position further.
ReportsAfter-skip :
    (line word : Text) (start at : ℕ)
    → ((j : ℕ) → start ≤ j → OccursAt word line j → at ≤ j)
    → is_english_embedding line word at ≡ true
    → ReportsAfter line word start
    → ReportsAfter line word (at + 1)
ReportsAfter-skip line word start at least q (i, si, o, n) = (i, later (ℕ_discrete at i), o, n)
  where
    later : Dec (at ≡ i) → at + 1 ≤ i
    later (yes e) = absurd (false≢true (sym n ∙ rw (sym e) q))
    later (no e) = omega (arith, least i si o, e)

module _ (line word : Text) where
  leak_from-ReportsAfter :
      (fuel start : ℕ)
      → length line + 1 < fuel + start
      → (leak_from fuel line word start ≡ true) ↔ ReportsAfter line word start
  leak_from-ReportsAfter zero start big = (
    λ h. absurd (false≢true (unfold leak_from in h)),
    λ (i, si, o, q). absurd (omega (arith, o.inside)),
  )
  leak_from-ReportsAfter (suc fuel) start big = elim (Option-cases (find word line start)) [
    | inl e ↦ (
      λ h. absurd (false≢true (sym (round_none line word fuel start e) ∙ h)),
      λ (i, si, o, q). absurd ((rw e at (find-FirstAt word line start)) i si o),
    )
    | inr (at, e) ↦
        let (sa, oa, least) = rw e at (find-FirstAt word line start) in
        elim (Bool-cases (is_english_embedding line word at)) [
          | inl q ↦
              let ih = leak_from-ReportsAfter fuel (at + 1) (omega arith) in
              let step = round_english line word fuel start at e q in
              (
                λ h.
                    ReportsAfter-earlier line word start (at + 1) (omega arith)
                      (ih.0 (sym step ∙ h)),
                λ l. step ∙ ih.1 (ReportsAfter-skip line word start at least q l),
              )
          | inr q ↦ (λ h. (at, sa, oa, q), λ l. round_leak line word fuel start at e q)
        ]
  ]

  ReportsAfter-LeaksAfter : (start : ℕ) → ReportsAfter line word start ↔ LeaksAfter line word start
  ReportsAfter-LeaksAfter start = (
    λ (i, si, o, n).
        (i, si, o, λ w. false≢true (sym n ∙ (is_english_embedding-InsideWord line word i).1 w)),
    λ (i, si, o, n). (i, si, o, not_inside i n),
  )
    where
      not_inside : (i : ℕ) → ¬ InsideWord line word i → is_english_embedding line word i ≡ false
      not_inside i n = elim (Bool-cases (is_english_embedding line word i)) [
        | inl e ↦ absurd (n ((is_english_embedding-InsideWord line word i).0 e))
        | inr e ↦ e
      ]

  -- The scan of a line for a word reports exactly when the word stands somewhere in it without a
  -- letter on both sides.
  pub leaks-LeaksAfter : (leaks line word ≡ true) ↔ LeaksAfter line word 0
  unfolding leaks
  leaks-LeaksAfter =
      let run = leak_from-ReportsAfter (length line + 2) 0 (omega arith) in
      let same = ReportsAfter-LeaksAfter 0 in (λ h. same.0 (run.0 h), λ l. run.1 (same.1 l))

-- No architecture word leaks from the line.
abbrev pub LineIsClean : Text → Type 0
LineIsClean line = All (λ w. ¬ LeaksAfter (map to_lower line) w 0) arch_words

nil-append :
    (xs ys : List Leak) → (no_leak (xs ++ ys) ≡ true) ↔ ((no_leak xs ≡ true) × (no_leak ys ≡ true))
nil-append [] ys = (λ h. (refl, h), λ h. h.1)
nil-append (x ∷ xs) ys = (λ h. absurd (false≢true h), λ h. h.0)

scan_words-clean :
    (file : Text) (lineno : ℕ) (line : Text) (ws : List Text)
    → (no_leak (scan_words file lineno line ws) ≡ true)
      ↔ All (λ w. ¬ LeaksAfter (map to_lower line) w 0) ws
unfolding scan_words
scan_words-clean file lineno line [] = (λ _. tt, λ _. refl)
scan_words-clean file lineno line (w ∷ ws) = elim (Bool-cases (leaks (map to_lower line) w)) [
  | inl e ↦ rw e (
    λ h. absurd (false≢true h),
    λ (hw, hs). absurd (hw ((leaks-LeaksAfter (map to_lower line) w).0 e)),
  )
  | inr e ↦ rw e (
    λ h. (
      λ l. false≢true (sym e ∙ (leaks-LeaksAfter (map to_lower line) w).1 l),
      (scan_words-clean file lineno line ws).0 h,
    ),
    λ (hw, hs). (scan_words-clean file lineno line ws).1 hs,
  )
]

scan_lines-clean :
    (file : Text) (lineno : ℕ) (ls : List Text)
    → (no_leak (scan_lines file lineno ls) ≡ true) ↔ All LineIsClean ls
unfolding scan_lines
scan_lines-clean file lineno [] = (λ _. tt, λ _. refl)
scan_lines-clean file lineno (l ∷ ls) =
    let split =
      nil-append (scan_words file lineno l arch_words) (scan_lines file (suc lineno) ls) in
    let here = scan_words-clean file lineno l arch_words in
    let rest = scan_lines-clean file (suc lineno) ls in
    (λ h. (here.0 (split.0 h).0, rest.0 (split.0 h).1), λ h. split.1 (here.1 h.0, rest.1 h.1))

scan_sources-clean :
    (fs : List Source) → (no_leak (scan_sources fs) ≡ true) ↔ All (λ f. All LineIsClean f.lines) fs
unfolding scan_sources
scan_sources-clean [] = (λ _. tt, λ _. refl)
scan_sources-clean (f ∷ fs) =
    let split = nil-append (scan_lines f.path 1 f.lines) (scan_sources fs) in
    let here = scan_lines-clean f.path 1 f.lines in
    let rest = scan_sources-clean fs in
    (λ h. (here.0 (split.0 h).0, rest.0 (split.0 h).1), λ h. split.1 (here.1 h.0, rest.1 h.1))

-- The seam check passes exactly when no line of no source holds an architecture word that is not
-- the middle of a longer word.
pub check_arch_free-clean :
    (fs : List Source) → (check_arch_free fs ≡ true) ↔ All (λ f. All LineIsClean f.lines) fs
unfolding check_arch_free
check_arch_free-clean = scan_sources-clean
