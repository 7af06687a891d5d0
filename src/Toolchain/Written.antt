-- ===== src/Toolchain/Written.antt =====
-- Lines of `sawlang.pin` as they are written, and what `_read_pin` of tools/toolchain.py makes of them.
use sawos.Prelude.{
  ℕ, zero, suc, ◌≡◌, refl, ap, ◌∙◌, Bool, true, false, ◌||◌, List, [], ◌∷◌, ◌++◌, Option, none,
  some, map, append-nil, arith, ◌==◌, if◌then◌else◌, All, Bool-cases, inl, inr,
}
use sawos.Text.{Text, text_eq}
use sawos.Text.Format.{Fields, field}
use sawos.Text.Split.{is_space, drop_while, strip_of, strip, before, behind, has, drop_end}
use sawos.Text.Cut.{
  IsSolid, Only, strip_of-Only, strip_of-IsSolid, strip_of-around, strip_of_front, strip_of_back,
  before_none, before-append, behind-append, has-append,
}
use sawos.Toolchain.{Result, ok, err, malformed_pin, ◌>>=◌}
use sawos.Toolchain.Pin.{
  Line, nothing, malformed, entry, line_of, read_line, read_lines, read_pin, put, field-put,
  apply_line,
}

-- What stands before the comment: space; `key = value`, with space round each of them and quotes next
-- to the value; or other text.
pub data Content : Type 0 where
  blank : (space : Text) → Content
  says : (lead key mid gap : Text) (left : ℕ) (value : Text) (right : ℕ) (trail : Text) → Content
  other : (lead text trail : Text) → Content

pub record PinLine : Type 0 where
  pub content : Content
  -- what follows the `#`
  pub comment : Option Text

abbrev pub quotes : ℕ → Text
quotes zero = []
quotes (suc n) = b'"' ∷ quotes n

abbrev pub quoted : ℕ → Text → ℕ → Text
quoted left value right = quotes left ++ (value ++ quotes right)

abbrev pub body_of : Content → Text
body_of (blank space) = space
body_of (says lead key mid gap left value right trail) =
    (lead ++ (key ++ mid)) ++ b'=' ∷ (gap ++ (quoted left value right ++ trail))
body_of (other lead text trail) = lead ++ (text ++ trail)

abbrev pub comment_of : Option Text → Text
comment_of none = []
comment_of (some t) = b'#' ∷ t

abbrev pub written : PinLine → Text
written l = body_of l.content ++ comment_of l.comment

abbrev pub is_quote : ℕ → Bool
is_quote d = d == b'"'

-- Space is space; a key and what is quoted have no space at their ends, a key no `=`, a value no quote
-- at its ends; and other text has no `=` and is not empty.
abbrev pub IsContent : Content → Type 0
IsContent (blank space) = Only is_space space
IsContent (says lead key mid gap left value right trail) =
    (Only is_space lead × Only is_space mid × Only is_space gap × Only is_space trail)
    × IsSolid is_space key
    × (has b'=' key ≡ false)
    × IsSolid is_space (quoted left value right)
    × IsSolid is_quote value
IsContent (other lead text trail) = elim text [
  | [] ↦ ⊥
  | c ∷ s ↦
      Only is_space lead
      × Only is_space trail
      × IsSolid is_space (c ∷ s)
      × (has b'=' (c ∷ s) ≡ false)
]

abbrev pub IsPinLine : PinLine → Type 0
IsPinLine l = IsContent l.content × (has b'#' (body_of l.content) ≡ false)

-- The number and the text of the first line that says nothing of a key.
abbrev pub first_other : ℕ → List PinLine → Option (ℕ × Text)
first_other n [] = none
first_other n (l ∷ ls) = elim l.content [
  | other _ text _ ↦ some (n, text)
  | _ ↦ first_other (suc n) ls
]

-- The last value that the lines say of the key, after one found before.
abbrev pub said : Text → List PinLine → Option Text → Option Text
said k [] found = found
said k (l ∷ ls) found = said k ls (elim l.content [
  | says _ key _ _ _ value _ _ ↦ if text_eq key k then some value else found
  | _ ↦ found
])

has-++ : (c : ℕ) (a b : Text) → has c (a ++ b) ≡ (has c a || has c b)
unfolding has
has-++ c [] b = refl
has-++ c (d ∷ a) b = ground (arith, has-++ c a b)

space_without : (c : ℕ) (l : Text) → is_space c ≡ false → Only is_space l → has c l ≡ false
unfolding has
space_without c [] n h = refl
space_without c (d ∷ l) n (e, h) = elim (Bool-cases (d == c)) [
  | inl q ↦ ground arith
  | inr q ↦ ground (arith, space_without c l n h)
]

has-drop_while :
    (p : ℕ → Bool) (c : ℕ) (a : Text) → has c a ≡ false → has c (drop_while p a) ≡ false
unfolding has drop_while
has-drop_while p c [] h = refl
has-drop_while p c (d ∷ a) h = elim (Bool-cases (p d)) [
  | inl e ↦ rw (e, if◌then◌else◌) (has-drop_while p c a (ground arith))
  | inr e ↦ rw (e, if◌then◌else◌) h
]

quotes-Only : (n : ℕ) → Only is_quote (quotes n)
quotes-Only zero = tt
quotes-Only (suc n) = (refl, quotes-Only n)

unquoted :
    (left : ℕ) (value : Text) (right : ℕ)
    → IsSolid is_quote value
    → strip_of is_quote (quoted left value right) ≡ value
unquoted left value right h =
    strip_of-IsSolid is_quote (quotes left) value (quotes right) (quotes-Only left) h
      (quotes-Only right)

uncommented :
    (body : Text) (comment : Option Text)
    → has b'#' body ≡ false
    → before b'#' (body ++ comment_of comment) ≡ body
uncommented body none h = ap (before b'#') (append-nil body) ∙ before_none b'#' body h
uncommented body (some t) h = before-append b'#' body t h

line_of-entry :
    (s : Text)
    → has b'=' s ≡ true
    → line_of s ≡ entry (strip (before b'=' s)) (strip_of is_quote (strip (behind b'=' s)))
unfolding has
line_of-entry [] h = absurd (ground arith)
line_of-entry (c ∷ s) h = rw (h, if◌then◌else◌) refl

line_of-malformed :
    (c : ℕ) (s : Text) → has b'=' (c ∷ s) ≡ false → line_of (c ∷ s) ≡ malformed (c ∷ s)
line_of-malformed c s h = rw (h, if◌then◌else◌) refl

-- What a line says.
abbrev meaning : Content → Line
meaning (blank space) = nothing
meaning (says lead key mid gap left value right trail) = entry key value
meaning (other lead text trail) = malformed text

body-meaning : (c : Content) → IsContent c → line_of (strip (body_of c)) ≡ meaning c
unfolding strip
body-meaning (blank space) h = ap line_of (strip_of-Only is_space space h)
body-meaning (says lead key mid gap left value right trail) ((hl, hm, hg, ht), hk, no_eq, hq, hv) =
    let front = lead ++ (key ++ mid) in
    let back = gap ++ (quoted left value right ++ trail) in
    let a = drop_while is_space front in
    let b = drop_end is_space back in
    let none_in : has b'=' front ≡ false = ground (
      arith,
      has-++ b'=' lead (key ++ mid),
      has-++ b'=' key mid,
      space_without b'=' lead refl hl,
      space_without b'=' mid refl hm,
    ) in
    let none_left = has-drop_while is_space b'=' front none_in in
    rw (strip_of-around is_space front b'=' back refl) (
      rw (line_of-entry (a ++ b'=' ∷ b) (has-append b'=' a b)) (
        rw (before-append b'=' a b none_left) (
          rw (behind-append b'=' a b none_left) (
            rw (strip_of_front is_space lead key mid hl hk hm) (
              rw (strip_of_back is_space gap (quoted left value right) trail hg hq ht)
                (ap (entry key) (unquoted left value right hv)))))))
body-meaning (other lead [] trail) h = elim h [ ]
body-meaning (other lead (c ∷ s) trail) (hl, ht, solid, no_eq) =
    ap line_of (strip_of-IsSolid is_space lead (c ∷ s) trail hl solid ht)
    ∙ line_of-malformed c s no_eq

read_line-meaning : (l : PinLine) → IsPinLine l → read_line (written l) ≡ meaning l.content
unfolding read_line
read_line-meaning l (h, no_hash) =
    ap (λ x. line_of (strip x)) (uncommented (body_of l.content) l.comment no_hash)
    ∙ body-meaning l.content h

-- The line is refused, if there is one, or the keys have these values.
abbrev Reads : Option (ℕ × Text) → Result Fields → (Text → Option Text) → Type 0
Reads (some (at, text)) r value = r ≡ err (malformed_pin at text)
Reads none r value = (out : Fields) × (r ≡ ok out) × ((k : Text) → field out k ≡ value k)

-- The same for a file, which may be missing.
abbrev pub ReadsPin : Option (ℕ × Text) → Result (Option Fields) → (Text → Option Text) → Type 0
ReadsPin (some (at, text)) r value = r ≡ err (malformed_pin at text)
ReadsPin none r value = (out : Fields) × (r ≡ ok (some out)) × ((k : Text) → field out k ≡ value k)

after_put :
    (key value : Text) (ls : List PinLine) (first : Option (ℕ × Text)) (pin : Fields)
    (r : Result Fields)
    → Reads first r (λ k. said k ls (field (put key value pin) k))
    → Reads first r (λ k. said k ls (if text_eq key k then some value else field pin k))
after_put key value ls (some (at, text)) pin r h = h
after_put key value ls none pin r (out, e, f) =
    (out, e, λ k. f k ∙ ap (said k ls) (field-put key value k pin))

read_lines_next :
    (n : ℕ) (raw : Text) (raws : List Text) (pin : Fields) (m : Line)
    → read_line raw ≡ m
    → read_lines n (raw ∷ raws) pin ≡ (apply_line n m pin >>= λ pin'. read_lines (suc n) raws pin')
unfolding read_lines
read_lines_next n raw raws pin m e = rw e refl

read_lines-Reads :
    (n : ℕ) (ls : List PinLine) (pin : Fields)
    → All IsPinLine ls
    → Reads (first_other n ls) (read_lines n (map written ls) pin) (λ k. said k ls (field pin k))
read_lines-Reads n [] pin h = unfold read_lines in (pin, refl, λ k. refl)
read_lines-Reads n (l ∷ ls) pin (h, hs) =
    by_content l.content l.comment h (λ pin'. read_lines-Reads (suc n) ls pin' hs)
  where
    by_content :
        (c : Content) (comment : Option Text)
        → IsPinLine (record { content = c; comment = comment })
        → ((pin' : Fields)
            → Reads
                (first_other (suc n) ls)
                (read_lines (suc n) (map written ls) pin')
                (λ k. said k ls (field pin' k)))
        → Reads
            (first_other n (record { content = c; comment = comment } ∷ ls))
            (read_lines n
              (written (record { content = c; comment = comment }) ∷ map written ls)
              pin)
            (λ k. said k (record { content = c; comment = comment } ∷ ls) (field pin k))
    by_content (blank space) comment h ih =
        rw
          (read_lines_next n _ (map written ls) pin nothing
            (read_line-meaning (record { content = blank space; comment = comment }) h))
          (ih pin)
    by_content (says lead key mid gap left value right trail) comment h ih =
        let c = says lead key mid gap left value right trail in
        rw
          (read_lines_next n _ (map written ls) pin (entry key value)
            (read_line-meaning (record { content = c; comment = comment }) h))
          (after_put key value ls (first_other (suc n) ls) pin _ (ih (put key value pin)))
    by_content (other lead text trail) comment h ih =
        read_lines_next n _ (map written ls) pin (malformed text)
          (read_line-meaning (record { content = other lead text trail; comment = comment }) h)

whole :
    (first : Option (ℕ × Text)) (r : Result Fields) (value : Text → Option Text)
    → Reads first r value
    → ReadsPin first (r >>= λ pin. ok (some pin)) value
whole (some (at, text)) r value h = rw h refl
whole none r value (out, e, f) = (out, rw e refl, f)

-- A pin file of lines as they are written: if one of them says nothing of a key and is not blank, the
-- first such line is refused with its number and its text; else the file is read, and each key has the
-- last value that a line says of it, without the space and the quotes round it and without comments.
pub read_pin-ReadsPin :
    (ls : List PinLine)
    → All IsPinLine ls
    → ReadsPin (first_other 1 ls) (read_pin (some (map written ls))) (λ k. said k ls none)
unfolding read_pin field
read_pin-ReadsPin ls h =
    whole (first_other 1 ls) (read_lines 1 (map written ls) []) _ (read_lines-Reads 1 ls [] h)
