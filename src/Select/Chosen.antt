-- ===== src/Select/Chosen.antt =====
-- The cases that the filter of `main` chooses, and the names asked for.
use mathlib.Core.Bool.{false≢true}
use sawos.Prelude.{
  ◌≡◌, inl, inr, refl, sym, ap, ◌∙◌, true, false, ◌||◌, List, [], ◌∷◌, some, arith, map, All, In,
  Option-cases, Bool-cases,
}
use sawos.Text.{Text, text_eq, elem}
use sawos.Text.Equality.{text_eq_iff, text_eq_refl}
use sawos.Case.{Case}
use sawos.Select.{
  plain_name, wanted, by_name, unknown_names, first_names, cases_of, Selection, refused, selected,
  select_cases,
}

-- The case of the table that has the name.
by_name-In :
    (cs : List Case) (w : Text) (c : Case)
    → by_name cs w ≡ some c
    → In c cs × (plain_name c.name ≡ w)
unfolding by_name
by_name-In [] w c h = ground arith
by_name-In (d ∷ cs) w c h = elim (Option-cases (by_name cs w)) [
  | inl e ↦ ground (arith, text_eq_iff (plain_name d.name) w)
  | inr (x, e) ↦ ground (arith, by_name-In cs w c)
]

-- No text of the list stands in it twice.
abbrev pub Distinct : List Text → Type 0
Distinct [] = Unit
Distinct (w ∷ ws) = (elem w ws ≡ false) × Distinct ws

elem_head : (w x : Text) (ws : List Text) → elem x (w ∷ ws) ≡ (text_eq x w || elem x ws)
unfolding elem
elem_head w x ws = refl

elem_same : (x w : Text) (ws : List Text) → text_eq x w ≡ true → elem x ws ≡ elem w ws
elem_same x w ws e = ap (λ v. elem v ws) ((text_eq_iff x w).0 e)

first_names_again :
    (seen ws : List Text) (w : Text)
    → elem w seen ≡ true
    → first_names seen (w ∷ ws) ≡ first_names seen ws
unfolding first_names
first_names_again seen ws w e = rw e refl

first_names_fresh :
    (seen ws : List Text) (w : Text)
    → elem w seen ≡ false
    → first_names seen (w ∷ ws) ≡ w ∷ first_names (w ∷ seen) ws
unfolding first_names
first_names_fresh seen ws w e = rw e refl

elem-first_names :
    (seen ws : List Text) (x : Text)
    → elem x seen ≡ false
    → elem x (first_names seen ws) ≡ elem x ws
unfolding first_names elem
elem-first_names seen [] x h = refl
elem-first_names seen (w ∷ ws) x h = elim (Bool-cases (elem w seen)) [
  | inl e ↦ elim (Bool-cases (text_eq x w)) [
    | inl q ↦ absurd (false≢true (sym h ∙ (elem_same x w seen q ∙ e)))
    | inr q ↦ rw (first_names_again seen ws w e, elem_head w x ws, q) (elem-first_names seen ws x h)
  ]
  | inr e ↦ elim (Bool-cases (text_eq x w)) [
    | inl q ↦ rw (first_names_fresh seen ws w e, elem_head w x, q) refl
    | inr q ↦
        rw (first_names_fresh seen ws w e, elem_head w x, q)
          (elem-first_names (w ∷ seen) ws x (rw (elem_head w x seen, q) h))
  ]
]

elem-first_names_seen :
    (seen ws : List Text) (x : Text) → elem x seen ≡ true → elem x (first_names seen ws) ≡ false
unfolding first_names elem
elem-first_names_seen seen [] x h = refl
elem-first_names_seen seen (w ∷ ws) x h = elim (Bool-cases (elem w seen)) [
  | inl e ↦ rw (first_names_again seen ws w e) (elem-first_names_seen seen ws x h)
  | inr e ↦ elim (Bool-cases (text_eq x w)) [
    | inl q ↦ absurd (false≢true (sym e ∙ (sym (elem_same x w seen q) ∙ h)))
    | inr q ↦
        rw (first_names_fresh seen ws w e, elem_head w x, q)
          (elem-first_names_seen (w ∷ seen) ws x (rw (elem_head w x seen, q) h))
  ]
]

first_names-Distinct : (seen ws : List Text) → Distinct (first_names seen ws)
unfolding first_names
first_names-Distinct seen [] = tt
first_names-Distinct seen (w ∷ ws) = elim (Bool-cases (elem w seen)) [
  | inl e ↦ rw e (first_names-Distinct seen ws)
  | inr e ↦ rw e (
    elem-first_names_seen (w ∷ seen) ws w (rw (elem_head w w seen, text_eq_refl w) refl),
    first_names-Distinct (w ∷ seen) ws,
  )
]

-- The table has a case of the name.
abbrev Known : List Case → Text → Type 0
Known table w = (c : Case) × (by_name table w ≡ some c)

abbrev key : Case → Text
key c = plain_name c.name

unknown_names-Known :
    (table : List Case) (ws : List Text) → unknown_names table ws ≡ [] → All (Known table) ws
unfolding unknown_names
unknown_names-Known table [] h = tt
unknown_names-Known table (w ∷ ws) h = elim (Option-cases (by_name table w)) [
  | inl e ↦ ground arith
  | inr (c, e) ↦ ((c, e), unknown_names-Known table ws (ground arith))
]

first_names-Known :
    (table : List Case) (seen ws : List Text)
    → All (Known table) ws
    → All (Known table) (first_names seen ws)
unfolding first_names
first_names-Known table seen [] h = tt
first_names-Known table seen (w ∷ ws) (k, ks) = elim (Bool-cases (elem w seen)) [
  | inl e ↦ rw e (first_names-Known table seen ws ks)
  | inr e ↦ rw e (k, first_names-Known table (w ∷ seen) ws ks)
]

cases_of_step :
    (table : List Case) (n : Text) (ns : List Text) (c : Case)
    → by_name table n ≡ some c
    → cases_of table (n ∷ ns) ≡ c ∷ cases_of table ns
unfolding cases_of
cases_of_step table n ns c e = rw (e, cases_of) refl

cases_of-keys :
    (table : List Case) (ns : List Text)
    → All (Known table) ns
    → (map key (cases_of table ns) ≡ ns) × All (λ c. In c table) (cases_of table ns)
unfolding cases_of
cases_of-keys table [] h = (refl, tt)
cases_of-keys table (n ∷ ns) ((c, e), ks) =
    let (here, k) = by_name-In table n c e in
    let (keys, ins) = cases_of-keys table ns ks in
    rw (cases_of_step table n ns c e) (rw (k, keys) refl, (here, ins))

selected_step :
    (table : List Case) (v : Text) (vs : List Text) (cs : List Case) (us : List Text)
    → unknown_names table (wanted (v ∷ vs)) ≡ us
    → select_cases table (v ∷ vs) ≡ selected cs
    → (unknown_names table (wanted (v ∷ vs)) ≡ [])
      × (cs ≡ cases_of table (first_names [] (wanted (v ∷ vs))))
unfolding select_cases
selected_step table v vs cs [] q h =
    let e : ◌≡◌ {A = Selection} (selected (cases_of table (first_names [] (wanted (v ∷ vs)))))
        (selected cs) =
      rw (q, select_cases) at h in
    (q, ground arith)
selected_step table v vs cs (u ∷ us) q h =
    let e : ◌≡◌ {A = Selection} (refused (u ∷ us)) (selected cs) = rw (q, select_cases) at h in cc

-- The cases that a `--case` filter runs are cases of the table, no two of one name, and their names are
-- exactly the names asked for, with `-` and `_` taken for one another.
pub select_cases-Chosen :
    (table : List Case) (v : Text) (vs : List Text) (cs : List Case)
    → select_cases table (v ∷ vs) ≡ selected cs
    → All (λ c. In c table) cs
      × Distinct (map (λ c. plain_name c.name) cs)
      × ((w : Text) → elem w (map (λ c. plain_name c.name) cs) ≡ elem w (wanted (v ∷ vs)))
unfolding elem
select_cases-Chosen table v vs cs h =
    let ws = wanted (v ∷ vs) in
    let (none_unknown, e) = selected_step table v vs cs (unknown_names table ws) refl h in
    let known = first_names-Known table [] ws (unknown_names-Known table ws none_unknown) in
    let (keys, ins) = cases_of-keys table (first_names [] ws) known in
    rw e (ins, rw keys (first_names-Distinct [] ws), λ w. rw keys (elem-first_names [] ws w refl))
