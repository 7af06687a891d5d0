-- ===== src/Text/Split.antt =====
-- Cutting texts: `strip`, `split` and `partition` as the tools call them.
use sawos.Prelude.{
  ℕ, Bool, true, false, ◌&&◌, ◌||◌, List, [], ◌∷◌, ◌++◌, leb, ◌==◌, if◌then◌else◌, ◌≡◌, refl,
}
use sawos.Text.{Text, codes}

-- Python's whitespace below 256.
abbrev pub is_space : ℕ → Bool
is_space c = (leb 9 c && leb c 13) || (leb 28 c && leb c 32) || (c == 0x85) || (c == 0xA0)

unfoldable pub drop_while : (ℕ → Bool) → Text → Text
drop_while p [] = []
drop_while p (c ∷ s) = let rest = drop_while p s in if p c then rest else c ∷ s

abbrev pub cons_unless : Bool → ℕ → Text → Text
cons_unless drop c (d ∷ s) = c ∷ d ∷ s
cons_unless true c [] = []
cons_unless false c [] = c ∷ []

unfoldable pub drop_end : (ℕ → Bool) → Text → Text
drop_end p [] = []
drop_end p (c ∷ s) = cons_unless (p c) c (drop_end p s)

-- `s.strip(chars)`; with no argument the characters are whitespace.
unfoldable pub strip_of : (ℕ → Bool) → Text → Text
unfolding drop_while drop_end
strip_of p s = drop_end p (drop_while p s)

unfoldable pub strip : Text → Text
unfolding strip_of
strip = strip_of is_space

-- `s.split(c, 1)[0]`
unfoldable pub before : ℕ → Text → Text
before c [] = []
before c (d ∷ s) = if d == c then [] else d ∷ before c s

-- `s.partition(c)`, the third part
unfoldable pub behind : ℕ → Text → Text
behind c [] = []
behind c (d ∷ s) = let rest = behind c s in if d == c then s else rest

-- `c in s`
unfoldable pub has : ℕ → Text → Bool
has c [] = false
has c (d ∷ s) = (d == c) || has c s

-- `s.split(c)`: the pieces, of which there is always one.
split_from : ℕ → Text → Text → List Text
split_from c [] cur = cur ∷ []
split_from c (d ∷ s) cur =
    let cut = cur ∷ split_from c s [] in
    let more = split_from c s (cur ++ d ∷ []) in if d == c then cut else more

unfoldable pub split_on : ℕ → Text → List Text
unfolding split_from
split_on c s = split_from c s []

-- `s.split()`: the runs of other characters than whitespace.
words_from : Text → Text → List Text
words_from [] [] = []
words_from [] (c ∷ cur) = (c ∷ cur) ∷ []
words_from (d ∷ s) [] =
    let more = words_from s (d ∷ []) in
    let skip = words_from s [] in if is_space d then skip else more
words_from (d ∷ s) (c ∷ cur) =
    let cut = (c ∷ cur) ∷ words_from s [] in
    let more = words_from s ((c ∷ cur) ++ d ∷ []) in if is_space d then cut else more

unfoldable pub words : Text → List Text
unfolding words_from
words s = words_from s []

strip_example : strip (codes "  a b \n") ≡ codes "a b"
unfolding strip
strip_example = refl

words_example : words (codes "sawc 0.8.0\n") ≡ codes "sawc" ∷ codes "0.8.0" ∷ []
unfolding words
words_example = refl
