-- ===== src/Regions/Assembly.antt =====
-- What the assembler makes of the region table's lines. The assembler and the linker are not part
-- of the repository: they are parameters, with what the generated stub relies on as laws.
use mathlib.Core.Path.{ap₂}
use sawos.Prelude.{
  ℕ, ◌^◌, ◌<◌, ◌≡◌, refl, ap, sym, ◌∙◌, true, false, List, [], ◌∷◌, ◌++◌, arith, ◌==◌,
  if◌then◌else◌, replicate, append_assoc, Bool-cases, inl, inr, append-nil, not, all, below,
  all-below,
}
use sawos.Text.{Text, codes, contains}
use sawos.Text.Numerals.{decimal, hex_prefixed}
use sawos.Bytes.{Bytes, to_le}
use sawos.Arch.{Arch}
use sawos.Regions.{Row, emit_word64, emit_row, region_table_magic}

-- An operand is one expression, and a comment text does not end its comment.
abbrev pub IsExpr : Text → Type 0
IsExpr e = contains (codes ",") e ≡ false

abbrev pub IsRemark : Text → Type 0
IsRemark t = contains (codes "*/") t ≡ false

-- `value e` is what the linker resolves an expression to, `assemble l` the bytes that a line puts
-- into its section.
pub record Assembles (value : Text → ℕ) (assemble : Text → Bytes) : Type 0 where
  pub blank : assemble [] ≡ []
  pub section_line : assemble (codes "    .section .regions, \"a\", @progbits") ≡ []
  pub balign : assemble (codes "    .balign 8") ≡ []
  pub comment :
      (i : ℕ) (t : Text)
      → IsRemark t
      → assemble (codes "    /* row " ++ (decimal i ++ (codes ": " ++ (t ++ codes " */")))) ≡ []
  pub byte8 : (e : Text) → IsExpr e → assemble (codes "    .8byte " ++ e) ≡ to_le 8 (value e)
  pub byte4 : (e : Text) → IsExpr e → assemble (codes "    .4byte " ++ e) ≡ to_le 4 (value e)
  pub byte2 : (e : Text) → IsExpr e → assemble (codes "    .2byte " ++ e) ≡ to_le 2 (value e)
  pub byte1 : (e : Text) → IsExpr e → assemble (codes "    .byte  " ++ e) ≡ to_le 1 (value e)
  pub padding : assemble (codes "    .byte  0, 0, 0, 0, 0, 0, 0") ≡ replicate 7 0
  pub value_decimal : (n : ℕ) → n < 256 → value (decimal n) ≡ n
  pub value_magic : value (hex_prefixed 10 region_table_magic) ≡ region_table_magic

-- A section is its lines' bytes, in order.
abbrev pub section_bytes : (Text → Bytes) → List Text → Bytes
section_bytes assemble [] = []
section_bytes assemble (l ∷ ls) = assemble l ++ section_bytes assemble ls

pub section_bytes-append :
    (assemble : Text → Bytes) (xs ys : List Text)
    → section_bytes assemble (xs ++ ys) ≡ section_bytes assemble xs ++ section_bytes assemble ys
section_bytes-append assemble [] ys = refl
section_bytes-append assemble (x ∷ xs) ys =
    ap (λ t. assemble x ++ t) (section_bytes-append assemble xs ys)
    ∙ sym (append_assoc (assemble x) (section_bytes assemble xs) (section_bytes assemble ys))

-- The numbers of a row.
pub record Window : Type 0 where
  pub base : ℕ
  pub len : ℕ
  pub kind : ℕ

-- How wide an address of the target is, in bytes.
abbrev pub word_bytes : Arch → ℕ
word_bytes arch = if arch.hex_width == 8 then 4 else 8

-- The row's expressions resolve to the window, which the target can address.
pub record Resolves (value : Text → ℕ) (arch : Arch) (row : Row) (w : Window) : Type 0 where
  pub remark : IsRemark row.what
  pub base_expr : IsExpr row.base
  pub len_expr : IsExpr row.len
  pub base_value : value row.base ≡ w.base
  pub len_value : value row.len ≡ w.len
  pub base_fits : w.base < 256 ^ word_bytes arch
  pub len_fits : w.len < 256 ^ word_bytes arch
  pub kind_value : row.kind ≡ w.kind
  pub kind_fits : w.kind < 256

-- The 24 bytes of a row.
abbrev pub window_bytes : Window → Bytes
window_bytes w = to_le 8 w.base ++ (to_le 8 w.len ++ (to_le 1 w.kind ++ replicate 7 0))

decimal_table : all (λ n. not (contains (codes ",") (decimal n))) (below 256) ≡ true
unfolding contains decimal
decimal_table = refl

pub decimal-IsExpr : (n : ℕ) → n < 256 → IsExpr (decimal n)
decimal-IsExpr n h =
    ground (arith, all-below (λ n. not (contains (codes ",") (decimal n))) 256 n h decimal_table)

-- A word below 2 ^ 32 with a zero word behind it is the 64-bit field.
to_le-halves : (v : ℕ) → v < 256 ^ 4 → to_le 4 v ++ to_le 4 0 ≡ to_le 8 v
unfolding to_le
to_le-halves v h = ground arith

module _ {value : Text → ℕ} {assemble : Text → Bytes} (laws : Assembles value assemble) where
  value_zero : value (codes "0") ≡ 0
  unfolding decimal
  value_zero = laws.value_decimal 0 (omega arith)

  -- A 64-bit field is written alike on both word widths.
  bytes-emit_word64 :
      (arch : Arch) (e : Text)
      → IsExpr e
      → value e < 256 ^ word_bytes arch
      → section_bytes assemble (emit_word64 arch e) ≡ to_le 8 (value e)
  unfolding emit_word64 contains
  bytes-emit_word64 arch e h fits = elim (Bool-cases (arch.hex_width == 8)) [
    | inl w ↦ rw w (
        ap (λ t. t ++ (assemble (codes "    .4byte 0") ++ [])) (laws.byte4 e h)
        ∙ ap (λ t. to_le 4 (value e) ++ t)
            (append-nil _ ∙ laws.byte4 (codes "0") refl ∙ ap (to_le 4) value_zero)
        ∙ to_le-halves (value e) (rw w at fits))
    | inr w ↦ rw w (append-nil _ ∙ laws.byte8 e h)
  ]

  -- The same for an expression that resolves to a known number.
  bytes_of_word :
      (arch : Arch) (e : Text) (n : ℕ)
      → IsExpr e
      → value e ≡ n
      → n < 256 ^ word_bytes arch
      → section_bytes assemble (emit_word64 arch e) ≡ to_le 8 n
  bytes_of_word arch e n h v fits = bytes-emit_word64 arch e h (rw v fits) ∙ ap (to_le 8) v

  bytes_of_kind :
      (kind n : ℕ)
      → kind ≡ n
      → n < 256
      → section_bytes assemble
          ((codes "    .byte  " ++ decimal kind) ∷ codes "    .byte  0, 0, 0, 0, 0, 0, 0" ∷ [])
        ≡ to_le 1 n ++ replicate 7 0
  bytes_of_kind kind n e h = rw e (
      ap (λ t. t ++ (assemble (codes "    .byte  0, 0, 0, 0, 0, 0, 0") ++ []))
        (laws.byte1 (decimal n) (decimal-IsExpr n h) ∙ ap (to_le 1) (laws.value_decimal n h))
      ∙ ap (λ t. to_le 1 n ++ t) (append-nil _ ∙ laws.padding))

  pub bytes-emit_row :
      (arch : Arch) (row : Row) (w : Window)
      → Resolves value arch row w
      → section_bytes assemble (emit_row arch row) ≡ window_bytes w
  unfolding emit_row
  bytes-emit_row arch row w r =
      section_bytes-append assemble (emit_word64 arch row.base) _
      ∙ ap₂ ◌++◌ (bytes_of_word arch row.base w.base r.base_expr r.base_value r.base_fits) (
          section_bytes-append assemble (emit_word64 arch row.len) _
          ∙ ap₂ ◌++◌ (bytes_of_word arch row.len w.len r.len_expr r.len_value r.len_fits)
              (bytes_of_kind row.kind w.kind r.kind_value r.kind_fits))
