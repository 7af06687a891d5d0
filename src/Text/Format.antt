-- ===== src/Text/Format.antt =====
-- `s.format(**fields)` with plain `{name}` fields, which is all that the cases write.
use sawos.Prelude.{
  ℕ, ◌≡◌, ◌≢◌, refl, ◌||◌, List, [], ◌∷◌, ◌++◌, Option, none, some, arith, ◌==◌, ◌∙◌, append-nil,
  append_assoc, if◌then◌else◌, All,
}
use sawos.Text.{Text, text_eq}

-- A dictionary of texts.
abbrev pub Fields : Type 0
Fields = List (Text × Text)

unfoldable pub field : Fields → Text → Option Text
unfolding text_eq
field [] name = none
field ((k, v) ∷ fs) name = if text_eq k name then some v else field fs name

-- Where the reader stands: outside a field, behind a `{`, in a name, or behind a `}`.
pub data Mode : Type 0 where
  plain opened closed : Mode
  naming : Text → Mode

-- An unknown name is a KeyError; an empty name, a lone brace and an unfinished field are refused
-- too. All of these are `none`.
pub scan : Fields → Text → Mode → Text → Option Text
unfolding field
scan fs [] plain out = some out
scan fs [] _ out = none
scan fs (c ∷ s) plain out =
    scan fs s (if c == b'{' then opened else if c == b'}' then closed else plain)
      (if (c == b'{') || (c == b'}') then out else out ++ c ∷ [])
scan fs (c ∷ s) opened out =
    let literal = scan fs s plain (out ++ c ∷ []) in
    let name = scan fs s (naming (c ∷ [])) out in
    if c == b'{' then literal else if c == b'}' then none else name
scan fs (c ∷ s) closed out =
    let literal = scan fs s plain (out ++ c ∷ []) in if c == b'}' then literal else none
scan fs (c ∷ s) (naming name) out =
    let more = scan fs s (naming (name ++ c ∷ [])) out in
    let done = λ (v : Text). scan fs s plain (out ++ v) in
    if c == b'}'
    then (elim (field fs name) [ none ↦ none | some v ↦ done v ])
    else if c == b'{'
    then none
    else more

unfoldable pub format : Fields → Text → Option Text
unfolding scan
format fs s = scan fs s plain []

-- No brace in a text.
abbrev pub IsPlain : Text → Type 0
IsPlain = All (λ c. (c ≢ b'{') × (c ≢ b'}'))

-- A template taken apart: what it writes itself, and the fields that it names.
pub data Piece : Type 0 where
  literal : Text → Piece
  named : ℕ → Text → Piece

abbrev pub PieceIsPlain : Piece → Type 0
PieceIsPlain (literal s) = IsPlain s
PieceIsPlain (named c s) = IsPlain (c ∷ s)

-- The template that the pieces spell; a named piece has a name of one character or more.
abbrev pub spell : List Piece → Text
spell [] = []
spell (literal s ∷ ps) = s ++ spell ps
spell (named c s ∷ ps) = b'{' ∷ (c ∷ s) ++ b'}' ∷ spell ps

-- What the template stands for, read piece by piece.
abbrev pub expand : Fields → List Piece → Text → Option Text
expand fs [] out = some out
expand fs (literal s ∷ ps) out = expand fs ps (out ++ s)
expand fs (named c s ∷ ps) out = elim (field fs (c ∷ s)) [
  | none ↦ none
  | some v ↦ expand fs ps (out ++ v)
]

module _ (fs : Fields) where
  scan_literal :
      (s rest out : Text)
      → IsPlain s
      → scan fs (s ++ rest) plain out ≡ scan fs rest plain (out ++ s)
  unfolding scan
  scan_literal [] rest out h = rw append-nil
  scan_literal (c ∷ s) rest out (hc, hs) =
      ground (arith, scan_literal s rest (out ++ c ∷ []) hs, append_assoc out (c ∷ []) s)

  scan_naming :
      (s rest name out : Text)
      → IsPlain s
      → scan fs (s ++ b'}' ∷ rest) (naming name) out
        ≡ (elim (field fs (name ++ s)) [ none ↦ none | some v ↦ scan fs rest plain (out ++ v) ])
  unfolding scan
  scan_naming [] rest name out h = rw append-nil
  scan_naming (c ∷ s) rest name out (hc, hs) =
      ground (arith, scan_naming s rest (name ++ c ∷ []) out hs, append_assoc name (c ∷ []) s)

  scan_open :
      (c : ℕ) (s out : Text)
      → c ≢ b'{'
      → c ≢ b'}'
      → scan fs (b'{' ∷ c ∷ s) plain out ≡ scan fs s (naming (c ∷ [])) out
  unfolding scan
  scan_open c s out h k = ground arith

  scan-spell :
      (ps : List Piece) (out : Text)
      → All PieceIsPlain ps
      → scan fs (spell ps) plain out ≡ expand fs ps out
  scan-spell [] out h = unfold scan in refl
  scan-spell (literal s ∷ ps) out (hp, hs) =
      scan_literal s (spell ps) out hp ∙ scan-spell ps (out ++ s) hs
  scan-spell (named c s ∷ ps) out ((hc, hp), hs) =
      scan_open c (s ++ b'}' ∷ spell ps) out hc.0 hc.1
      ∙ scan_naming s (spell ps) (c ∷ []) out hp
      ∙ (λ i. elim (field fs (c ∷ s)) [ none ↦ none | some v ↦ scan-spell ps (out ++ v) hs i ])

  -- Formatting a template replaces each field by its value, and fails exactly when one is unknown.
  pub format-spell :
      (ps : List Piece) → All PieceIsPlain ps → format fs (spell ps) ≡ expand fs ps []
  unfolding format
  format-spell ps h = scan-spell ps [] h
