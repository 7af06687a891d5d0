-- ===== src/Seam.antt =====
-- `_check_arch_free` of tools/sos_runner.py: no architecture name in the arch-free kernel.
pub mod Scan
use Prim.Native.String.{String}
use sawos.Prelude.{
  ℕ, zero, suc, ◌+◌, ◌-◌, ◌≡◌, refl, Bool, true, false, ◌&&◌, ◌||◌, List, [], ◌∷◌, ◌++◌, Option,
  none, some, leb, ltb, ◌==◌, if◌then◌else◌, map, length, get_elem?,
}
use sawos.Text.{Text, codes, find, ends_with}

-- `ARCH_WORDS`
abbrev pub arch_words : List Text
arch_words = map codes (
    "riscv" ∷ "rv32" ∷ "rv64" ∷ "aarch64" ∷ "arm64" ∷ "armv8" ∷ "mcause" ∷ "mepc" ∷ "mtval"
    ∷ "mstatus" ∷ "mscratch" ∷ "mtvec" ∷ "ecall" ∷ "pmp" ∷ "sifive" ∷ "ns16550" ∷ "csr" ∷ "m-mode"
    ∷ "u-mode" ∷ "esr_el" ∷ "elr_el" ∷ "far_el" ∷ "vbar" ∷ "ttbr" ∷ "sctlr" ∷ "tcr_el" ∷ "mair"
    ∷ "pl011" ∷ "psci" ∷ "semihost" ∷ " svc " ∷ "el0" ∷ "el1" ∷ "plic" ∷ "clint" ∷ "gicd" ∷ "gicc"
    ∷ "gicv" ∷ "sgir" ∷ "mtime" ∷ "cntp" ∷ "cntfrq" ∷ "sstc" ∷ [])

-- `str.isalpha` and `str.lower` of one character, for ASCII: the kernel's sources have no letter
-- beyond it.
abbrev pub is_alpha : ℕ → Bool
is_alpha c = (leb b'a' c && leb c b'z') || (leb b'A' c && leb c b'Z')

abbrev pub to_lower : ℕ → ℕ
to_lower c = if leb b'A' c && leb c b'Z' then c + 32 else c

-- `"".isalpha()` is false.
abbrev pub alpha_at : Option ℕ → Bool
alpha_at none = false
alpha_at (some c) = is_alpha c

-- `line[at - 1] if at > 0 else ""`
abbrev pub before : Text → ℕ → Option ℕ
before line zero = none
before line (suc i) = get_elem? line i

-- `line[after_index] if after_index < len(line) else ""`
abbrev pub after : Text → Text → ℕ → Option ℕ
after line token at = get_elem? line (at + length token)

unfoldable pub is_english_embedding : Text → Text → ℕ → Bool
is_english_embedding line token at = alpha_at (before line at) && alpha_at (after line token at)

-- The `while at >= 0` loop from a search position on: whether it appends to `bad`.
unfoldable pub leak_from : ℕ → Text → Text → ℕ → Bool
leak_from zero line word start = false
leak_from (suc fuel) line word start = elim (find word line start) [
  | none ↦ false
  | some at ↦ elim (is_english_embedding line word at) [
    | true ↦ leak_from fuel line word (at + 1)
    | false ↦ true
  ]
]

-- Each round moves one position on, so the positions of the line are enough fuel.
unfoldable pub leaks : Text → Text → Bool
unfolding leak_from
leaks line word = leak_from (length line + 2) line word 0

-- An entry of `bad`.
pub record Leak : Type 0 where
  pub file : Text
  pub lineno : ℕ
  pub word : Text
  pub line : Text

unfoldable pub scan_words : Text → ℕ → Text → List Text → List Leak
scan_words file lineno line [] = []
scan_words file lineno line (w ∷ ws) =
    let rest = scan_words file lineno line ws in
    if leaks (map to_lower line) w
    then record { file = file; lineno = lineno; word = w; line = line } ∷ rest
    else rest

-- `enumerate(f, 1)`
unfoldable pub scan_lines : Text → ℕ → List Text → List Leak
unfolding scan_words
scan_lines file lineno [] = []
scan_lines file lineno (l ∷ ls) =
    scan_words file lineno l arch_words ++ scan_lines file (suc lineno) ls

-- A source file: its path and its lines.
pub record Source : Type 0 where
  pub path : Text
  pub lines : List Text

unfoldable pub scan_sources : List Source → List Leak
unfolding scan_lines
scan_sources [] = []
scan_sources (f ∷ fs) = scan_lines f.path 1 f.lines ++ scan_sources fs

abbrev no_leak : List Leak → Bool
no_leak [] = true
no_leak (b ∷ bs) = false

unfoldable pub check_arch_free : List Source → Bool
unfolding scan_sources
check_arch_free sources = no_leak (scan_sources sources)

duplicate_is_english : leaks (codes "a duplicate") (codes "plic") ≡ false
unfolding leaks find is_english_embedding
duplicate_is_english = refl

plic_base_leaks : leaks (codes "plic_base") (codes "plic") ≡ true
unfolding leaks find is_english_embedding
plic_base_leaks = refl
