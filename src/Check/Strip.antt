-- ===== src/Check/Strip.antt =====
-- `_strip_kernel_diagnostics` of tools/sos_runner.py: the console without the kernel's own lines.
use sawos.Prelude.{
  ℕ, zero, suc, ◌≡◌, ◌≢◌, refl, ap, ◌∙◌, Bool, true, false, List, [], ◌∷◌, ◌++◌, none, arith, ◌==◌,
  if◌then◌else◌, All,
}
use sawos.Text.{Text, codes, starts_with, find_at, find, contains}

-- `SOS: [^\r\n]*(?:\r?\n)?`, the pattern of `_KERNEL_DIAGNOSTIC_LINE`, begins with this.
abbrev pub kernel_prefix : Text
kernel_prefix = codes "SOS: "

-- Where the scan stands: outside a match, in one with so many characters of the prefix to go (then
-- in the run of other characters), or before the newline that ends it.
pub data Scan : Type 0 where
  outside newline : Scan
  line : ℕ → Scan

-- `re.sub("", out)`: a carriage return belongs to the match only if a newline follows it.
pub strip : Scan → Text → Text
unfolding starts_with
strip mode [] = []
strip outside (c ∷ s) =
    let skipped = strip (line 4) s in
    let kept = c ∷ strip outside s in if starts_with kernel_prefix (c ∷ s) then skipped else kept
strip newline (c ∷ s) = strip outside s
strip (line (suc k)) (c ∷ s) = strip (line k) s
strip (line zero) (c ∷ s) =
    let after = strip outside s in
    let crlf = strip newline s in
    let more = strip (line zero) s in
    if c == b'\n'
    then after
    else if c == b'\r'
    then (if starts_with (codes "\n") s then crlf else c ∷ after)
    else more

unfoldable pub strip_kernel_diagnostics : Text → Text
unfolding strip
strip_kernel_diagnostics = strip outside

preempt_stream : strip_kernel_diagnostics (codes "AABSOS: timer tick 3\r\nABSOS: x") ≡ codes "AABAB"
unfolding strip_kernel_diagnostics
preempt_stream = refl

-- Every suffix begins with something else.
abbrev Quiet : Text → Type 0
Quiet [] = Unit
Quiet (c ∷ s) = (starts_with kernel_prefix (c ∷ s) ≡ false) × Quiet s

find_at-Quiet : (s : Text) (at : ℕ) → find_at kernel_prefix s at ≡ none → Quiet s
unfolding find_at
find_at-Quiet [] at h = tt
find_at-Quiet (c ∷ s) at h = (ground arith, find_at-Quiet s (suc at) (ground arith))

contains-Quiet : (s : Text) → contains kernel_prefix s ≡ false → Quiet s
unfolding contains find
contains-Quiet s h = find_at-Quiet s 0 (ground arith)

-- A piece of console: what a process wrote, and the kernel line behind it.
pub record Chunk : Type 0 where
  pub user : Text
  pub report : Text
  pub crlf : Bool

abbrev line_end : Bool → Text
line_end true = codes "\r\n"
line_end false = codes "\n"

-- What arrives on the serial port: each chunk's user text with a whole kernel line behind it.
abbrev pub console : List Chunk → Text → Text
console [] last = last
console (p ∷ ps) last =
    p.user ++ (kernel_prefix ++ (p.report ++ (line_end p.crlf ++ console ps last)))

-- What the process wrote.
abbrev pub user_stream : List Chunk → Text → Text
user_stream [] last = last
user_stream (p ∷ ps) last = p.user ++ user_stream ps last

-- The process does not write the kernel's prefix, and a kernel line is one line.
pub record IsSeparate (p : Chunk) : Type 0 where
  pub quiet : contains kernel_prefix p.user ≡ false
  pub one_line : All (λ c. (c ≢ b'\n') × (c ≢ b'\r')) p.report

-- The prefix does not begin inside a quiet text and end in the kernel line behind it.
starts-Quiet :
    (c : ℕ) (u s : Text)
    → starts_with kernel_prefix (c ∷ u) ≡ false
    → starts_with kernel_prefix (c ∷ (u ++ (kernel_prefix ++ s))) ≡ false
unfolding starts_with
starts-Quiet c [] s h = ground arith
starts-Quiet c (d ∷ []) s h = ground arith
starts-Quiet c (d ∷ e ∷ []) s h = ground arith
starts-Quiet c (d ∷ e ∷ f ∷ []) s h = ground arith
starts-Quiet c (d ∷ e ∷ f ∷ g ∷ u) s h = ground arith

strip-report :
    (r s : Text) (crlf : Bool)
    → All (λ c. (c ≢ b'\n') × (c ≢ b'\r')) r
    → strip (line 0) (r ++ (line_end crlf ++ s)) ≡ strip outside s
unfolding strip
strip-report [] s true h = refl
strip-report [] s false h = refl
strip-report (c ∷ r) s crlf (hc, hr) = ground (arith, strip-report r s crlf hr)

strip_kept :
    (c : ℕ) (s : Text)
    → starts_with kernel_prefix (c ∷ s) ≡ false
    → strip outside (c ∷ s) ≡ c ∷ strip outside s
unfolding strip
strip_kept c s e = rw e

strip-line :
    (u r s : Text) (crlf : Bool)
    → Quiet u
    → All (λ c. (c ≢ b'\n') × (c ≢ b'\r')) r
    → strip outside (u ++ (kernel_prefix ++ (r ++ (line_end crlf ++ s)))) ≡ u ++ strip outside s
strip-line [] r s crlf q h = unfold strip in strip-report r s crlf h
strip-line (c ∷ u) r s crlf (qc, q) h =
    strip_kept c (u ++ (kernel_prefix ++ (r ++ (line_end crlf ++ s))))
      (starts-Quiet c u (r ++ (line_end crlf ++ s)) qc)
    ∙ ap (λ t. c ∷ t) (strip-line u r s crlf q h)

strip-Quiet : (u : Text) → Quiet u → strip outside u ≡ u
strip-Quiet [] q = unfold strip in refl
strip-Quiet (c ∷ u) (qc, q) = strip_kept c u qc ∙ ap (λ t. c ∷ t) (strip-Quiet u q)

-- Where no chunk of user text holds the kernel's prefix, taking the kernel's lines out of the
-- console leaves exactly the bytes that the process wrote, in their order.
pub strip-console :
    (ps : List Chunk) (last : Text)
    → All IsSeparate ps
    → contains kernel_prefix last ≡ false
    → strip_kernel_diagnostics (console ps last) ≡ user_stream ps last
unfolding strip_kernel_diagnostics
strip-console [] last h q = strip-Quiet last (contains-Quiet last q)
strip-console (p ∷ ps) last (hp, hs) q =
    strip-line p.user p.report (console ps last) p.crlf (contains-Quiet p.user hp.quiet) hp.one_line
    ∙ ap (λ t. p.user ++ t) (strip-console ps last hs q)
