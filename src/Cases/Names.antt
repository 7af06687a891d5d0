-- ===== src/Cases/Names.antt =====
-- The names of the table, by which `--case` finds a case.
use mathlib.Core.Bool.{false≢true}
use sawos.Prelude.{
  ◌≡◌, refl, sym, ◌∙◌, Bool, true, false, ◌&&◌, not, List, [], ◌∷◌, none, some, arith, In, map, inl,
  inr, Bool-cases,
}
use sawos.Text.{Text, text_eq, elem}
use sawos.Text.Equality.{text_eq_iff}
use sawos.Case.{Case}
use sawos.Select.{plain_name, by_name}
use sawos.Cases.{test_cases}

keys : List Case → List Text
keys = map (λ c. plain_name c.name)

distinct : List Text → Bool
unfolding elem
distinct [] = true
distinct (w ∷ ws) = not (elem w ws) && distinct ws

test_cases-distinct : (root : Text) → distinct (keys (test_cases root)) ≡ true
unfolding distinct keys plain_name
test_cases-distinct root = refl

distinct_head :
    (w : Text) (ws : List Text)
    → distinct (w ∷ ws) ≡ true
    → (elem w ws ≡ false) × (distinct ws ≡ true)
unfolding distinct
distinct_head w ws h = ground (arith, Bool-cases (elem w ws))

by_name_found :
    (d : Case) (cs : List Case) (w : Text) (c : Case)
    → by_name cs w ≡ some c
    → by_name (d ∷ cs) w ≡ some c
unfolding by_name
by_name_found d cs w c e = rw (e, by_name) refl

by_name_head :
    (d : Case) (cs : List Case) (w : Text)
    → by_name cs w ≡ none
    → plain_name d.name ≡ w
    → by_name (d ∷ cs) w ≡ some d
unfolding by_name
by_name_head d cs w e q = rw (e, by_name) (rw ((text_eq_iff (plain_name d.name) w).1 q) refl)

by_name_skip :
    (d : Case) (cs : List Case) (w : Text)
    → by_name cs w ≡ none
    → text_eq w (plain_name d.name) ≡ false
    → by_name (d ∷ cs) w ≡ none
unfolding by_name
by_name_skip d cs w e q =
    ground (arith, e, q, text_eq_iff (plain_name d.name) w, text_eq_iff w (plain_name d.name))

by_name_absent : (cs : List Case) (w : Text) → elem w (keys cs) ≡ false → by_name cs w ≡ none
unfolding keys elem
by_name_absent [] w h = unfold by_name in refl
by_name_absent (c ∷ cs) w h = elim (Bool-cases (text_eq w (plain_name c.name))) [
  | inl e ↦ absurd (false≢true (sym h ∙ rw e refl))
  | inr e ↦ by_name_skip c cs w (by_name_absent cs w (rw e at h)) e
]

by_name-distinct :
    (cs : List Case) (c : Case)
    → distinct (keys cs) ≡ true
    → In c cs
    → by_name cs (plain_name c.name) ≡ some c
unfolding keys
by_name-distinct [] c h i = absurd i
by_name-distinct (d ∷ cs) c h (inl e) =
    let (absent, _) = distinct_head (plain_name d.name) (keys cs) h in
    rw e (by_name_head d cs (plain_name d.name) (by_name_absent cs (plain_name d.name) absent) refl)
by_name-distinct (d ∷ cs) c h (inr i) =
    let (_, rest) = distinct_head (plain_name d.name) (keys cs) h in
    by_name_found d cs (plain_name c.name) c (by_name-distinct cs c rest i)

-- Each case of the table is found by its name, with `-` and `_` taken for one another: no later case
-- takes its place in the dictionary.
pub test_cases-by_name :
    (root : Text) (c : Case)
    → In c (test_cases root)
    → by_name (test_cases root) (plain_name c.name) ≡ some c
test_cases-by_name root c i = by_name-distinct (test_cases root) c (test_cases-distinct root) i
