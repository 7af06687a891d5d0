-- ===== src/Examples/Tables.antt =====
-- The region table and the dumps at concrete inputs.
use sawos.Prelude.{
  all-below, ℕ, ◌<◌, ◌≤◌, ◌≡◌, ◌↔◌, ◌⊎◌, refl, true, false, List, [], ◌∷◌, ◌++◌, none, arith,
  length, drop, if◌then◌else◌, replicate, ◌==◌, ==→eq,
}
use sawos.Text.{Text, codes, starts_with, contains}
use sawos.Text.Numerals.{decimal, hex_prefixed}
use sawos.Text.ReadBack.{value_from}
use sawos.Bytes.{Bytes, to_le, field_at}
use sawos.Arch.Table.{riscv32}
use sawos.Case.{Case, plain_case, anything}
use sawos.Regions.{Row, blob_row, destination_row, pool_row, device_row, region_rows, table_lines}
use sawos.Regions.Collision.{region_rows-Collides, Collides}
use sawos.Regions.Rows.{region_rows-TagsAre, TagsAre}
use sawos.Regions.Layout.{region_rows-AllPairs-Disjoint, AllPairs, Disjoint}
use sawos.Smoke.Builds.{c3_table_lines}
use sawos.Smoke.Table.{dump_regions-c3_table_lines}
use sawos.Regions.Assembly.{Assembles, Window, section_bytes}
use sawos.Regions.Table.{dump_regions-table_lines, print_table}
use sawos.Dump.{dump_sosimg, dump_regions}
use sawos.Dump.Short.{Holds, dump_sosimg-crashed, dump_regions-crashed}

abbrev root_dir : Text
root_dir = codes "/r"

-- One child, the pool and the device window.
abbrev driver_case : Case
driver_case = record (plain_case (codes "driver") (codes "kernel/main.saw") anything true) {
  children = codes "child" ∷ [];
  pool = true;
  device = true;
}

abbrev driver_rows : List Row
driver_rows =
    blob_row 0
    ∷ destination_row (riscv32 root_dir) 0
    ∷ pool_row (riscv32 root_dir)
    ∷ device_row (riscv32 root_dir)
    ∷ []

-- Two children and the pool.
abbrev crowded_case : Case
crowded_case = record driver_case { children = codes "child" ∷ codes "other" ∷ [] }

region_rows-Collides_example :
    (region_rows crowded_case (riscv32 root_dir) ≡ none)
    ↔ ((crowded_case.pool ≡ true) × Collides crowded_case (riscv32 root_dir))
region_rows-Collides_example = region_rows-Collides root_dir 0 (riscv32 root_dir) crowded_case refl

region_rows-TagsAre_example : TagsAre driver_case (riscv32 root_dir) driver_rows
unfolding region_rows
region_rows-TagsAre_example = region_rows-TagsAre driver_case (riscv32 root_dir) driver_rows refl

region_rows-AllPairs-Disjoint_example :
    AllPairs Disjoint (drop (length driver_case.children) driver_rows)
unfolding region_rows
region_rows-AllPairs-Disjoint_example =
    region_rows-AllPairs-Disjoint root_dir 0 (riscv32 root_dir) driver_case driver_rows refl refl

-- An assembler that reads the number of an operand.
number : Text → ℕ
unfolding starts_with
number e = if starts_with (codes "0x") e then value_from 16 0 (drop 2 e) else value_from 10 0 e

-- Several operands are the padding of a row.
assemble : Text → Bytes
unfolding starts_with contains number
assemble l =
    let e = drop 11 l in
    if starts_with (codes "    .8byte ") l
    then to_le 8 (number e)
    else if starts_with (codes "    .4byte ") l
    then to_le 4 (number e)
    else if starts_with (codes "    .2byte ") l
    then to_le 2 (number e)
    else if starts_with (codes "    .byte  ") l
    then (if contains (codes ",") e then replicate 7 0 else to_le 1 (number e))
    else []

number-decimal : (n : ℕ) → n < 256 → number (decimal n) ≡ n
unfolding number decimal
number-decimal n h =
    ==→eq (number (decimal n)) n (all-below (λ k. number (decimal k) == k) 256 n h refl)

byte_line :
    (e : Text)
    → contains (codes ",") e ≡ false
    → assemble (codes "    .byte  " ++ e) ≡ to_le 1 (number e)
unfolding assemble
byte_line e h = rw h refl

laws : Assembles number assemble
unfolding assemble number hex_prefixed
laws = record {
  blank = refl;
  section_line = refl;
  balign = refl;
  comment = λ i t h. refl;
  byte8 = λ e h. refl;
  byte4 = λ e h. refl;
  byte2 = λ e h. refl;
  byte1 = byte_line;
  padding = refl;
  value_decimal = number-decimal;
  value_magic = refl;
}

abbrev ram_row : Row
ram_row = record {
  what = codes "free memory";
  base = codes "0x80280000";
  len = codes "0x40000";
  kind = 0;
}

abbrev ram_window : Window
ram_window = record { base = 0x80280000; len = 0x40000; kind = 0 }

dump_regions-table_lines_example :
    dump_regions (section_bytes assemble (table_lines (riscv32 root_dir) (ram_row ∷ [])))
    ≡ print_table (ram_window ∷ [])
unfolding number contains
dump_regions-table_lines_example =
    dump_regions-table_lines laws (riscv32 root_dir) (ram_row ∷ []) (ram_window ∷ []) (omega arith)
      (
        record {
          remark = refl;
          base_expr = refl;
          len_expr = refl;
          base_value = refl;
          len_value = refl;
          base_fits = omega arith;
          len_fits = omega arith;
          kind_value = refl;
          kind_fits = omega arith;
        },
        tt,
      )

plain_comment : (i : ℕ) → assemble (codes "    /* row " ++ (decimal i ++ codes " */")) ≡ []
unfolding assemble
plain_comment i = refl

dump_regions-c3_table_lines_example :
    dump_regions (section_bytes assemble (c3_table_lines (ram_row ∷ [])))
    ≡ print_table (ram_window ∷ [])
unfolding number contains
dump_regions-c3_table_lines_example =
    dump_regions-c3_table_lines laws plain_comment root_dir (ram_row ∷ []) (ram_window ∷ [])
      (omega arith)
      (
        record {
          remark = refl;
          base_expr = refl;
          len_expr = refl;
          base_value = refl;
          len_value = refl;
          base_fits = omega arith;
          len_fits = omega arith;
          kind_value = refl;
          kind_fits = omega arith;
        },
        tt,
      )

abbrev short_image : Bytes
short_image = 0x53 ∷ 0x4F ∷ []

dump_sosimg-crashed_example :
    ((dump_sosimg short_image).crashed ≡ false)
    ↔ ((24 ≤ length short_image) × Holds 21 (field_at 1 6 short_image) 24 short_image)
dump_sosimg-crashed_example = dump_sosimg-crashed short_image

dump_regions-crashed_example : ((dump_regions short_image).crashed ≡ false) ↔ (
    (short_image ≡ [])
    ⊎ ((8 ≤ length short_image) × Holds 17 (field_at 1 6 short_image) 8 short_image))
dump_regions-crashed_example = dump_regions-crashed short_image
