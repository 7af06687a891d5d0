-- ===== src/Regions/RoundTrip.antt =====
-- The rows of a region table: written by tools/sos_runner.py, printed by tools/sosimg_dump.py.
use sawos.Prelude.{
  ℕ, suc, ◌+◌, ◌^◌, ◌<◌, ◌≡◌, refl, ap, ◌∙◌, List, [], ◌∷◌, ◌++◌, arith, length, length-append,
  drop, All, replicate, append_assoc,
}
use sawos.Text.{Text}
use sawos.Bytes.{Bytes, to_le, length-to_le, field_at-to_le, drop_behind, fits_part}
use sawos.Arch.{Arch}
use sawos.Regions.{Row}
use sawos.Regions.Assembly.{Window, Resolves, window_bytes}
use sawos.Dump.{Printed, print, finished, dump_rows, region_line}

-- Row by row, the expressions resolve to the windows.
abbrev pub AllResolve : (Text → ℕ) → Arch → List Row → List Window → Type 0
AllResolve value arch [] [] = Unit
AllResolve value arch (r ∷ rs) (w ∷ ws) = Resolves value arch r w × AllResolve value arch rs ws
AllResolve value arch _ _ = ⊥

abbrev pub table_bytes : List Window → Bytes
table_bytes [] = []
table_bytes (w ∷ ws) = window_bytes w ++ table_bytes ws

-- What the dump prints of the windows, the first with index `i`.
abbrev pub print_windows : ℕ → List Window → Printed
print_windows i [] = finished
print_windows i (w ∷ ws) = print (region_line i w.base w.len w.kind) (print_windows (suc i) ws)

pub AllResolve-length :
    (value : Text → ℕ) (arch : Arch) (rs : List Row) (ws : List Window)
    → AllResolve value arch rs ws
    → length rs ≡ length ws
AllResolve-length value arch [] [] h = refl
AllResolve-length value arch [] (w ∷ ws) h = elim h [ ]
AllResolve-length value arch (r ∷ rs) [] h = elim h [ ]
AllResolve-length value arch (r ∷ rs) (w ∷ ws) h = ap suc (AllResolve-length value arch rs ws h.1)

length-window_bytes : (w : Window) → length (window_bytes w) ≡ 24
length-window_bytes w = omega (
  arith,
  length-append {0} (to_le 8 w.base) (to_le 8 w.len ++ (to_le 1 w.kind ++ replicate 7 0)),
  length-append {0} (to_le 8 w.len) (to_le 1 w.kind ++ replicate 7 0),
  length-append {0} (to_le 1 w.kind) (replicate 7 0),
  length-to_le 8 w.base,
  length-to_le 8 w.len,
  length-to_le 1 w.kind,
)

-- A window that can be read back: its numbers fit their fields.
pub record FitsFields (w : Window) : Type 0 where
  pub base : w.base < 256 ^ 8
  pub len : w.len < 256 ^ 8
  pub kind : w.kind < 256 ^ 1

-- One row of the dump.
module _ (n i off : ℕ) (blob rest : Bytes) (w : Window) (f : FitsFields w)
    (e : drop off blob ≡ window_bytes w ++ rest) where
  at_base :
      drop off blob
      ≡ to_le 8 w.base ++ (to_le 8 w.len ++ (to_le 1 w.kind ++ (replicate 7 0 ++ rest)))
  at_base = e ∙ simp append_assoc

  at_len : drop (off + 8) blob ≡ to_le 8 w.len ++ (to_le 1 w.kind ++ (replicate 7 0 ++ rest))
  at_len =
      drop_behind off (off + 8) blob (to_le 8 w.base) _ at_base
        (omega (arith, length-to_le 8 w.base))

  at_kind : drop (off + 16) blob ≡ to_le 1 w.kind ++ (replicate 7 0 ++ rest)
  at_kind =
      drop_behind (off + 8) (off + 16) blob (to_le 8 w.len) _ at_len
        (omega (arith, length-to_le 8 w.len))

  at_next : drop (off + 24) blob ≡ rest
  at_next =
      drop_behind off (off + 24) blob (window_bytes w) rest e (omega (arith, length-window_bytes w))

  dump_rows_step :
      dump_rows (suc n) i off blob
      ≡ print (region_line i w.base w.len w.kind) (dump_rows n (suc i) (off + 24) blob)
  unfolding dump_rows
  dump_rows_step =
      let size = length-window_bytes w in
      rw (
        fits_part 17 off blob (window_bytes w) rest e (omega (arith, size)) (omega (arith, size)),
        field_at-to_le 8 w.base off blob _ f.base at_base,
        field_at-to_le 8 w.len (off + 8) blob _ f.len at_len,
        field_at-to_le 1 w.kind (off + 16) blob _ f.kind at_kind,
      )

-- The loop prints the windows whose bytes stand at its offset.
pub dump_rows-table :
    (ws : List Window) (i off : ℕ) (blob rest : Bytes)
    → All FitsFields ws
    → drop off blob ≡ table_bytes ws ++ rest
    → dump_rows (length ws) i off blob ≡ print_windows i ws
dump_rows-table [] i off blob rest f e = unfold dump_rows in refl
dump_rows-table (w ∷ ws) i off blob rest (fw, fs) e =
    let at = e ∙ append_assoc (window_bytes w) (table_bytes ws) rest in
    dump_rows_step (length ws) i off blob (table_bytes ws ++ rest) w fw at
    ∙ ap (print (region_line i w.base w.len w.kind)) (
        dump_rows-table ws (suc i) (off + 24) blob rest fs
          (at_next (length ws) i off blob (table_bytes ws ++ rest) w fw at))
