-- ===== src/Smoke/Table.antt =====
-- The region table of the smoke run of tools/sos_runner.py, assembled and printed by
-- tools/sosimg_dump.py.
use sawos.Prelude.{ℕ, suc, ◌<◌, ◌≡◌, refl, ap, ◌∙◌, List, [], ◌∷◌, ◌++◌, length, append-nil}
use sawos.Text.{Text, codes}
use sawos.Text.Numerals.{decimal}
use sawos.Bytes.{Bytes}
use sawos.Arch.Table.{riscv32}
use sawos.Regions.{Row, emit_row, emit_word64, emit_rows, table_lines}
use sawos.Regions.Assembly.{Assembles, Window, section_bytes, section_bytes-append}
use sawos.Regions.RoundTrip.{AllResolve}
use sawos.Regions.Table.{print_table, dump_regions-table_lines}
use sawos.Dump.{dump_regions}
use sawos.Smoke.Builds.{c3_emit_rows, c3_table_lines}

module _ {value : Text → ℕ} {assemble : Text → Bytes} (laws : Assembles value assemble)
    (plain : (i : ℕ) → assemble (codes "    /* row " ++ (decimal i ++ codes " */")) ≡ [])
    (root : Text) where
  -- The rows assemble to the bytes that the gate's rows assemble to, on a profile of the same width.
  bytes-c3_emit_rows :
      (rows : List Row) (ws : List Window) (i : ℕ)
      → AllResolve value (riscv32 root) rows ws
      → section_bytes assemble (c3_emit_rows i rows)
        ≡ section_bytes assemble (emit_rows (riscv32 root) i rows)
  unfolding c3_emit_rows emit_rows emit_row emit_word64
  bytes-c3_emit_rows [] ws i h = refl
  bytes-c3_emit_rows (r ∷ rows) [] i h = absurd h
  bytes-c3_emit_rows (r ∷ rows) (w ∷ ws) i (h, hs) =
      let rest = bytes-c3_emit_rows rows ws (suc i) hs in
      let no_bytes = plain i in let none_either = laws.comment i r.what h.remark in cc

  -- The gate's table has a blank line at its end.
  bytes-c3_table_lines :
      (rows : List Row) (ws : List Window)
      → AllResolve value (riscv32 root) rows ws
      → section_bytes assemble (c3_table_lines rows)
        ≡ section_bytes assemble (table_lines (riscv32 root) rows)
  unfolding c3_table_lines table_lines
  bytes-c3_table_lines rows ws h =
      let same = bytes-c3_emit_rows rows ws 0 h in
      let split = section_bytes-append assemble (emit_rows (riscv32 root) 0 rows) ([] ∷ []) in
      let blank = laws.blank in
      let ends = append-nil (section_bytes assemble (emit_rows (riscv32 root) 0 rows)) in cc

  -- The table of the smoke run is printed as the windows that its rows resolve to, in order and with
  -- no error, under the laws of the gate's table and one more: its comments leave no bytes either.
  pub dump_regions-c3_table_lines :
      (rows : List Row) (ws : List Window)
      → length ws < 256
      → AllResolve value (riscv32 root) rows ws
      → dump_regions (section_bytes assemble (c3_table_lines rows)) ≡ print_table ws
  dump_regions-c3_table_lines rows ws few h =
      ap dump_regions (bytes-c3_table_lines rows ws h)
      ∙ dump_regions-table_lines laws (riscv32 root) rows ws few h
