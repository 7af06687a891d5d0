-- ===== src/Regions/Table.antt =====
-- The whole region table: written by tools/sos_runner.py, assembled, printed by
-- tools/sosimg_dump.py.
use mathlib.Core.Bool.{false≢true}
use mathlib.Core.Path.{ap₂}
use sawos.Prelude.{
  ℕ, suc, ◌^◌, ◌<◌, ◌≡◌, refl, ap, sym, ◌∙◌, true, List, [], ◌∷◌, ◌++◌, arith, length, Bool-cases,
  inl, inr, ◌==◌, drop, All, append_assoc, append-nil,
}
use sawos.Text.{Text, codes, contains}
use sawos.Text.Numerals.{decimal, hex_prefixed}
use sawos.Bytes.{Bytes, to_le, length-to_le, field_at, fits, field_at-to_le, drop_behind, fits_part}
use sawos.Arch.{Arch}
use sawos.Regions.{Row, emit_row, emit_rows, table_lines, region_table_magic, region_table_version}
use sawos.Regions.Assembly.{
  Assembles, IsExpr, section_bytes, section_bytes-append, word_bytes, Window, window_bytes,
  bytes-emit_row, decimal-IsExpr,
}
use sawos.Regions.RoundTrip.{
  AllResolve, table_bytes, print_windows, AllResolve-length, FitsFields, dump_rows-table,
}
use sawos.Dump.{Printed, print, dump_rows, dump_regions, magic_line, version_line, region_magic}

-- The 8 bytes of the header.
abbrev header_bytes : ℕ → Bytes
header_bytes count =
    to_le 4 region_magic ++ (to_le 2 region_table_version ++ (to_le 1 count ++ to_le 1 0))

-- What the dump prints of a good table.
abbrev pub print_table : List Window → Printed
print_table ws = print (magic_line region_magic region_magic) (
    print (version_line region_table_version)
      (print (codes "regions   " ++ decimal (length ws)) (print_windows 0 ws)))

module _ {value : Text → ℕ} {assemble : Text → Bytes} (laws : Assembles value assemble)
    (arch : Arch) where
  bytes-emit_rows :
      (rows : List Row) (ws : List Window) (i : ℕ)
      → AllResolve value arch rows ws
      → section_bytes assemble (emit_rows arch i rows) ≡ table_bytes ws
  unfolding emit_rows
  bytes-emit_rows [] [] i h = refl
  bytes-emit_rows [] (w ∷ ws) i h = elim h [ ]
  bytes-emit_rows (r ∷ rs) [] i h = elim h [ ]
  bytes-emit_rows (r ∷ rs) (w ∷ ws) i (h, hs) =
      ap (λ t. t ++ section_bytes assemble (emit_row arch r ++ emit_rows arch (suc i) rs))
        (laws.comment i r.what h.remark)
      ∙ section_bytes-append assemble (emit_row arch r) (emit_rows arch (suc i) rs)
      ∙ ap (λ t. t ++ section_bytes assemble (emit_rows arch (suc i) rs))
          (bytes-emit_row laws arch r w h)
      ∙ ap (λ t. window_bytes w ++ t) (bytes-emit_rows rs ws (suc i) hs)

  magic-IsExpr : IsExpr (hex_prefixed 10 region_table_magic)
  unfolding contains hex_prefixed
  magic-IsExpr = refl

  -- A field whose operand is a number written in decimal.
  bytes_of_number :
      (k n : ℕ) (directive : Text)
      → ((e : Text) → IsExpr e → assemble (directive ++ e) ≡ to_le k (value e))
      → n < 256
      → assemble (directive ++ decimal n) ≡ to_le k n
  bytes_of_number k n directive law h =
      law (decimal n) (decimal-IsExpr n h) ∙ ap (to_le k) (laws.value_decimal n h)

  bytes_of_zero : assemble (codes "    .byte  0") ≡ to_le 1 0
  unfolding decimal
  bytes_of_zero = bytes_of_number 1 0 (codes "    .byte  ") laws.byte1 (omega arith)

  bytes-table_lines :
      (rows : List Row) (ws : List Window)
      → length ws < 256
      → AllResolve value arch rows ws
      → section_bytes assemble (table_lines arch rows) ≡ header_bytes (length ws) ++ table_bytes ws
  unfolding table_lines
  bytes-table_lines rows ws few h =
      rw (AllResolve-length value arch rows ws h, laws.blank, laws.section_line, laws.balign)
        (ap₂ ◌++◌
            (laws.byte4 (hex_prefixed 10 region_table_magic) magic-IsExpr
              ∙ ap (to_le 4) laws.value_magic)
            (ap₂ ◌++◌
              (bytes_of_number 2 region_table_version (codes "    .2byte ") laws.byte2
                (omega arith))
              (ap₂ ◌++◌ (bytes_of_number 1 (length ws) (codes "    .byte  ") laws.byte1 few)
                (ap₂ ◌++◌ bytes_of_zero rows_bytes)))
          ∙ simp append_assoc)
    where
      rows_bytes : section_bytes assemble (emit_rows arch 0 rows ++ [] ∷ []) ≡ table_bytes ws
      rows_bytes =
          section_bytes-append assemble (emit_rows arch 0 rows) ([] ∷ [])
          ∙ ap₂ ◌++◌ (bytes-emit_rows rows ws 0 h) (append-nil _ ∙ laws.blank)
          ∙ append-nil (table_bytes ws)

fits_word : (arch : Arch) (n : ℕ) → n < 256 ^ word_bytes arch → n < 256 ^ 8
fits_word arch n h = elim (Bool-cases (arch.hex_width == 8)) [
  | inl w ↦ omega (arith, rw w at h)
  | inr w ↦ rw w at h
]

AllResolve-FitsFields :
    (value : Text → ℕ) (arch : Arch) (rows : List Row) (ws : List Window)
    → AllResolve value arch rows ws
    → All FitsFields ws
AllResolve-FitsFields value arch [] [] h = tt
AllResolve-FitsFields value arch [] (w ∷ ws) h = elim h [ ]
AllResolve-FitsFields value arch (r ∷ rs) [] h = elim h [ ]
AllResolve-FitsFields value arch (r ∷ rs) (w ∷ ws) (h, hs) = (
  record {
    base = fits_word arch w.base h.base_fits;
    len = fits_word arch w.len h.len_fits;
    kind = h.kind_fits;
  },
  AllResolve-FitsFields value arch rs ws hs,
)

dump_regions_ne :
    (blob : Bytes)
    → fits 8 0 blob ≡ true
    → dump_regions blob
      ≡ print (magic_line region_magic (field_at 4 0 blob)) (
          print (version_line (field_at 2 4 blob)) (
            print
              (codes "regions   " ++ decimal (field_at 1 6 blob))
              (dump_rows (field_at 1 6 blob) 0 8 blob)))
unfolding dump_regions
dump_regions_ne [] h = absurd (false≢true (unfold fits in h))
dump_regions_ne (b ∷ bs) h = rw h

length-header_bytes : (count : ℕ) → length (header_bytes count) ≡ 8
unfolding to_le
length-header_bytes count = refl

-- The header is read back, and the rows start behind it.
dump_header :
    (blob rest : Bytes) (count : ℕ)
    → count < 256
    → blob ≡ header_bytes count ++ rest
    → dump_regions blob
      ≡ print (magic_line region_magic region_magic) (
          print
            (version_line region_table_version)
            (print (codes "regions   " ++ decimal count) (dump_rows count 0 8 blob)))
dump_header blob rest count few e =
    let size = length-header_bytes count in
    let magic : drop 0 blob
        ≡ to_le 4 region_magic
          ++ (to_le 2 region_table_version ++ (to_le 1 count ++ (to_le 1 0 ++ rest))) =
      e ∙ simp append_assoc in
    let version =
      drop_behind 0 4 blob (to_le 4 region_magic) _ magic
        (omega (arith, length-to_le 4 region_magic)) in
    let count_at =
      drop_behind 4 6 blob (to_le 2 region_table_version) _ version
        (omega (arith, length-to_le 2 region_table_version)) in
    dump_regions_ne blob
      (fits_part 8 0 blob (header_bytes count) rest e (omega (arith, size)) (omega (arith, size)))
    ∙ rw (
      field_at-to_le 4 region_magic 0 blob _ (omega arith) magic,
      field_at-to_le 2 region_table_version 4 blob _ (omega arith) version,
      field_at-to_le 1 count 6 blob _ few count_at,
    )

-- Whatever the assembler and the linker are, if they do what the stub relies on, then the table
-- that is written for rows which resolve to these windows is printed as these windows, in order
-- and with no error.
pub dump_regions-table_lines :
    {value : Text → ℕ} {assemble : Text → Bytes} (laws : Assembles value assemble) (arch : Arch)
    (rows : List Row) (ws : List Window)
    → length ws < 256
    → AllResolve value arch rows ws
    → dump_regions (section_bytes assemble (table_lines arch rows)) ≡ print_table ws
dump_regions-table_lines {assemble = assemble} laws arch rows ws few h =
    let blob = section_bytes assemble (table_lines arch rows) in
    let e = bytes-table_lines laws arch rows ws few h in
    dump_header blob (table_bytes ws) (length ws) few e
    ∙ ap
        (λ t. print (magic_line region_magic region_magic) (
          print (version_line region_table_version)
            (print (codes "regions   " ++ decimal (length ws)) t)))
        (dump_rows-table ws 0 8 blob [] (AllResolve-FitsFields _ arch rows ws h) (
          drop_behind 0 8 blob (header_bytes (length ws)) (table_bytes ws) e
            (omega (arith, length-header_bytes (length ws)))
          ∙ sym (append-nil (table_bytes ws))))
