-- ===== src/Text.antt =====
-- Python's `str` as the tools use it: a text is the list of its code points.
pub mod Find
pub mod Format
pub mod Numerals
pub mod ReadBack
pub mod Split
pub mod Cut
pub mod Equality
use Prim.Native.Char.{code}
use Prim.Native.String.{String}
use sawos.Prelude.{
  ℕ, suc, ◌-◌, ◌++◌, map, any, Bool, true, false, ◌&&◌, List, [], ◌∷◌, Option, none, some, leb,
  ◌==◌, if◌then◌else◌, length, drop,
}

abbrev pub Text : Type 0
Text = List ℕ

-- The code points of a literal.
abbrev pub codes : String → Text
codes String.[] = []
codes (String.◌∷◌ c s) = code c ∷ codes s

-- `a == b` on texts.
unfoldable pub text_eq : Text → Text → Bool
text_eq [] [] = true
text_eq (a ∷ s) (b ∷ t) = (a == b) && text_eq s t
text_eq _ _ = false

-- `s.startswith(p)`
unfoldable pub starts_with : Text → Text → Bool
starts_with [] s = true
starts_with (p ∷ ps) [] = false
starts_with (p ∷ ps) (c ∷ s) = (p == c) && starts_with ps s

-- `s.find(p)` from a position on, where `at` is the position of the head of `s`.
unfoldable pub find_at : Text → Text → ℕ → Option ℕ
unfolding starts_with
find_at p [] at = if starts_with p [] then some at else none
find_at p (c ∷ s) at =
    let rest = find_at p s (suc at) in if starts_with p (c ∷ s) then some at else rest

-- `s.find(p, start)`: the least position at or after `start` where `p` stands, `none` for -1. A
-- start past the end finds nothing, not even the empty text.
unfoldable pub find : Text → Text → ℕ → Option ℕ
unfolding find_at
find p s start = if leb start (length s) then find_at p (drop start s) start else none

-- `p in s`
unfoldable pub contains : Text → Text → Bool
unfolding find
contains p s = elim (find p s 0) [ none ↦ false | some _ ↦ true ]

-- `s.endswith(p)`
unfoldable pub ends_with : Text → Text → Bool
unfolding starts_with
ends_with p s = leb (length p) (length s) && starts_with p (drop (length s - length p) s)

-- `sep.join(parts)`
unfoldable pub join : Text → List Text → Text
join sep [] = []
join sep (p ∷ []) = p
join sep (p ∷ q ∷ ps) = p ++ (sep ++ join sep (q ∷ ps))

-- `s.replace(a, b)` for single characters
unfoldable pub replace : ℕ → ℕ → Text → Text
replace a b = map (λ c. if c == a then b else c)

-- `x in xs` on a list of texts
unfoldable pub elem : Text → List Text → Bool
unfolding text_eq
elem x = any (text_eq x)
