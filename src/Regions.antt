-- ===== src/Regions.antt =====
-- The boot region table of tools/sos_runner.py: `_region_rows`, and the assembly that
-- `_stitch_regions`, `_emit_row` and `_emit_word64` write.
pub mod Rows
pub mod Layout
pub mod Collision
pub mod Assembly
pub mod RoundTrip
pub mod Table
use sawos.Prelude.{
  ℕ, zero, suc, ◌+◌, ◌*◌, ◌≡◌, refl, Bool, true, false, ◌&&◌, List, [], ◌∷◌, ◌++◌, Option, none,
  some, ltb, ◌==◌, if◌then◌else◌, length,
}
use sawos.Text.{Text, codes}
use sawos.Text.Numerals.{decimal, hex, hex_prefixed}
use sawos.Arch.{Arch}
use sawos.Case.{Case}

-- `REGION_KIND_RAM` and `REGION_KIND_DEVICE`.
abbrev pub region_kind_ram : ℕ
region_kind_ram = 0

abbrev pub region_kind_device : ℕ
region_kind_device = 1

abbrev pub region_table_magic : ℕ
region_table_magic = 0x4E475253

abbrev pub region_table_version : ℕ
region_table_version = 2

abbrev pub child_region_len : ℕ
child_region_len = 0x40000

-- A row: the comment, the base and length expressions, the kind.
pub record Row : Type 0 where
  pub what : Text
  pub base : Text
  pub len : Text
  pub kind : ℕ

-- `f"_sos_child{i}_start"` and `f"_sos_child{i}_end"`
unfoldable pub child_start : ℕ → Text
child_start i = codes "_sos_child" ++ (decimal i ++ codes "_start")

unfoldable pub child_end : ℕ → Text
child_end i = codes "_sos_child" ++ (decimal i ++ codes "_end")

unfoldable pub blob_row : ℕ → Row
unfolding child_start child_end
blob_row i = record {
  what = codes "child " ++ (decimal i ++ codes "'s image blob (linker-resolved)");
  base = child_start i;
  len = child_end i ++ (codes " - " ++ child_start i);
  kind = region_kind_ram;
}

unfoldable pub destination_row : Arch → ℕ → Row
destination_row arch i = record {
  what = codes "child " ++ (decimal i ++ codes "'s destination RAM");
  base = hex (arch.child_region_base + i * child_region_len);
  len = hex child_region_len;
  kind = region_kind_ram;
}

-- The loops over `enumerate(children)`: `n` children from index `i` on.
unfoldable pub blob_rows : ℕ → ℕ → List Row
unfolding blob_row
blob_rows zero i = []
blob_rows (suc n) i = blob_row i ∷ blob_rows n (suc i)

unfoldable pub destination_rows : Arch → ℕ → ℕ → List Row
unfolding destination_row
destination_rows arch zero i = []
destination_rows arch (suc n) i = destination_row arch i ∷ destination_rows arch n (suc i)

unfoldable pub pool_row : Arch → Row
pool_row arch = record {
  what = codes "the RAM POOL — free memory above every child region";
  base = hex arch.pool_base;
  len = hex arch.pool_len;
  kind = region_kind_ram;
}

unfoldable pub device_row : Arch → Row
device_row arch = record {
  what = codes "the DEVICE window — the console UART's register page";
  base = hex arch.device_base;
  len = hex arch.device_len;
  kind = region_kind_device;
}

-- The rows in their order, or `none` for the ToolError of two children and a pool.
unfoldable pub region_rows : Case → Arch → Option (List Row)
unfolding blob_rows destination_rows pool_row device_row
region_rows case arch =
    let n = length case.children in
    if ltb 1 n && case.pool
    then none
    else some (
        blob_rows n 0
        ++ (destination_rows arch n 0
            ++ ((if case.pool then pool_row arch ∷ [] else [])
                ++ (if case.device then device_row arch ∷ [] else []))))

-- `_emit_word64`: the lines that it appends.
unfoldable pub emit_word64 : Arch → Text → List Text
emit_word64 arch expr =
    if arch.hex_width == 8
    then (codes "    .4byte " ++ expr) ∷ codes "    .4byte 0" ∷ []
    else (codes "    .8byte " ++ expr) ∷ []

-- `_emit_row`
unfoldable pub emit_row : Arch → Row → List Text
unfolding emit_word64
emit_row arch row =
    emit_word64 arch row.base
    ++ (emit_word64 arch row.len
        ++ ((codes "    .byte  " ++ decimal row.kind)
            ∷ codes "    .byte  0, 0, 0, 0, 0, 0, 0"
            ∷ []))

-- The loop over `enumerate(rows)`.
unfoldable pub emit_rows : Arch → ℕ → List Row → List Text
unfolding emit_row
emit_rows arch i [] = []
emit_rows arch i (row ∷ rows) =
    (codes "    /* row " ++ (decimal i ++ (codes ": " ++ (row.what ++ codes " */"))))
    ∷ (emit_row arch row ++ emit_rows arch (suc i) rows)

-- The lines of the `.regions` section, as `_stitch_regions` writes them below its comment and the
-- child images.
unfoldable pub table_lines : Arch → List Row → List Text
unfolding emit_rows
table_lines arch rows =
    []
    ∷ codes "    .section .regions, \"a\", @progbits"
    ∷ codes "    .balign 8"
    ∷ (codes "    .4byte " ++ hex_prefixed 10 region_table_magic)
    ∷ (codes "    .2byte " ++ decimal region_table_version)
    ∷ (codes "    .byte  " ++ decimal (length rows))
    ∷ codes "    .byte  0"
    ∷ (emit_rows arch 0 rows ++ [] ∷ [])

-- The child images, each between its symbols; `incbin` is the staged file's name.
unfoldable pub child_image_lines : (ℕ → Text) → ℕ → ℕ → List Text
unfolding child_start child_end
child_image_lines incbin zero i = []
child_image_lines incbin (suc n) i =
    (child_start i ++ codes ":")
    ∷ (codes "    .incbin \"" ++ (incbin i ++ codes "\""))
    ∷ (child_end i ++ codes ":")
    ∷ codes "    .balign 16"
    ∷ child_image_lines incbin n (suc i)

-- The whole stub of a case: `none` if its rows are refused.
unfoldable pub stub_lines : Case → Arch → Option (List Text)
unfolding region_rows table_lines child_image_lines
stub_lines case arch =
    let n = length case.children in
    let staged = λ (i : ℕ). case.name ++ (codes ".child" ++ (decimal i ++ codes ".sosimg")) in
    let images =
      if n == 0
      then []
      else codes "    .section .childimg, \"a\", @progbits"
        ∷ codes "    .balign 16"
        ∷ child_image_lines staged n 0 in
    elim (region_rows case arch) [
      | none ↦ none
      | some rows ↦ some (
          codes "/* GENERATED by tools/sos_runner.py — sawos design 2 D-2, 6 D-5. */"
          ∷ []
          ∷ (images ++ table_lines arch rows))
    ]
