-- ===== src/Dump.antt =====
-- tools/sosimg_dump.py: the image header, the segment table and the region table, printed.
pub mod Short
pub mod CommandLine
use sawos.Prelude.{
  ℕ, zero, suc, ◌+◌, ◌-◌, ◌*◌, ◌/◌, ◌%◌, ◌≡◌, refl, Bool, true, false, ◌&&◌, List, [], ◌∷◌, ◌++◌,
  ltb, ◌==◌, if◌then◌else◌, length, replicate,
}
use sawos.Text.{Text, codes}
use sawos.Text.Numerals.{decimal, hex, hex_padded}
use sawos.Bytes.{Bytes, field_at, fits}

-- What a run prints, and whether it ends in the `struct.error` of a blob that is too short.
pub record Printed : Type 0 where
  pub lines : List Text
  pub crashed : Bool

-- Print a line before the rest of the run.
abbrev pub print : Text → Printed → Printed
print l p = record { lines = l ∷ p.lines; crashed = p.crashed }

abbrev pub finished : Printed
finished = record { lines = []; crashed = false }

abbrev pub struct_error : Printed
struct_error = record { lines = []; crashed = true }

-- `SEG_FLAGS`, `f & bit` read as the bit's digit.
abbrev pub has_bit : ℕ → ℕ → Bool
has_bit f bit = (f / bit) % 2 == 1

unfoldable pub flags_str : ℕ → Text
flags_str f = or_dash (
    (if has_bit f 1 then codes "R" else [])
    ++ ((if has_bit f 2 then codes "W" else [])
        ++ ((if has_bit f 4 then codes "X" else [])
            ++ (if has_bit f 8 then codes "DEVICE" else []))))
  where
    or_dash : Text → Text
    or_dash [] = codes "-"
    or_dash (c ∷ s) = c ∷ s

abbrev pub sosimg_magic : ℕ
sosimg_magic = 0x4953_4F53

abbrev pub region_magic : ℕ
region_magic = 0x4E47_5253

-- `ARCHES.get(arch, '?')` and `REGION_KINDS.get(kind, '?')`
abbrev pub arch_name : ℕ → Text
arch_name a = if a == 1 then codes "riscv32" else if a == 2 then codes "arm64" else codes "?"

abbrev pub kind_name : ℕ → Text
kind_name k = if k == 0 then codes "ram" else if k == 1 then codes "device" else codes "?"

abbrev magic_ok : ℕ → ℕ → Text
magic_ok want magic =
    if magic == want then codes "ok" else codes "BAD (want 0x" ++ (hex_padded 8 want ++ codes ")")

-- `f"{n:<8}"`
abbrev pub left_8 : ℕ → Text
left_8 n = decimal n ++ replicate (8 - length (decimal n)) b' '

unfoldable pub magic_line : ℕ → ℕ → Text
magic_line want magic =
    codes "magic     0x"
    ++ (hex_padded 8 magic ++ (codes " (" ++ (magic_ok want magic ++ codes ")")))

unfoldable pub version_line : ℕ → Text
version_line version = codes "version   " ++ decimal version

unfoldable pub segment_line : ℕ → ℕ → ℕ → ℕ → ℕ → ℕ → Text
unfolding flags_str
segment_line i load foff flen mlen fl =
    let bss =
      if ltb flen mlen then codes " (+" ++ (decimal (mlen - flen) ++ codes " bss)") else [] in
    codes "  seg "
    ++ (decimal i
        ++ (codes ": load 0x"
            ++ (hex_padded 16 load
                ++ (codes "  file_off "
                    ++ (left_8 foff
                        ++ (codes " file_len "
                            ++ (left_8 flen
                                ++ (codes " mem_len "
                                    ++ (left_8 mlen
                                        ++ (bss
                                            ++ (codes "  ["
                                                ++ (flags_str fl ++ codes "]"))))))))))))

unfoldable pub region_line : ℕ → ℕ → ℕ → ℕ → Text
region_line i base len kind =
    codes "  row "
    ++ (decimal i
        ++ (codes ": base 0x"
            ++ (hex_padded 16 base
                ++ (codes "  len 0x"
                    ++ (hex_padded 0 len
                        ++ (codes " ("
                            ++ (decimal len
                                ++ (codes ")  kind "
                                    ++ (decimal kind
                                        ++ (codes " (" ++ (kind_name kind ++ codes ")")))))))))))

-- The loop over the segments: `n` records, the first with index `i`, at `off`. `<QIIIB` is 21 bytes.
unfoldable pub dump_segments : ℕ → ℕ → ℕ → Bytes → Printed → Printed
dump_segments zero i off blob rest = rest
dump_segments (suc n) i off blob rest =
    let more = dump_segments n (suc i) (off + 24) blob rest in
    if fits 21 off blob
    then print
        (segment_line i (field_at 8 off blob) (field_at 4 (off + 8) blob)
          (field_at 4 (off + 12) blob) (field_at 4 (off + 16) blob) (field_at 1 (off + 20) blob))
        more
    else struct_error

-- `dump_sosimg` on the file's bytes. `<IHBBIIQ` is 24 bytes.
unfoldable pub dump_sosimg : Bytes → Printed
dump_sosimg blob =
    let arch = field_at 1 7 blob in
    let seg_count = field_at 1 6 blob in
    let size_line = codes "file size " ++ (decimal (length blob) ++ codes " bytes") in
    if fits 24 0 blob
    then print (magic_line sosimg_magic (field_at 4 0 blob)) (
        print (version_line (field_at 2 4 blob)) (
          print
            (codes "arch      " ++ (decimal arch ++ (codes " (" ++ (arch_name arch ++ codes ")"))))
            (print (codes "segments  " ++ decimal seg_count) (
              print (codes "prio_map  0x" ++ hex_padded 8 (field_at 4 8 blob)) (
                print (codes "entry     0x" ++ hex_padded 16 (field_at 8 16 blob))
                  (dump_segments seg_count 0 24 blob (print size_line finished)))))))
    else struct_error

-- The loop over the region rows. `<QQB` is 17 bytes.
unfoldable pub dump_rows : ℕ → ℕ → ℕ → Bytes → Printed
dump_rows zero i off blob = finished
dump_rows (suc n) i off blob =
    let more = dump_rows n (suc i) (off + 24) blob in
    if fits 17 off blob
    then print
        (region_line i (field_at 8 off blob) (field_at 8 (off + 8) blob)
          (field_at 1 (off + 16) blob))
        more
    else struct_error

-- `dump_regions` on the file's bytes. `<IHBB` is 8 bytes.
unfoldable pub dump_regions : Bytes → Printed
dump_regions [] = print (codes "empty table (zero regions)") finished
dump_regions (b ∷ bs) =
    let blob = b ∷ bs in
    let count = field_at 1 6 blob in
    if fits 8 0 blob
    then print (magic_line region_magic (field_at 4 0 blob)) (
        print (version_line (field_at 2 4 blob))
          (print (codes "regions   " ++ decimal count) (dump_rows count 0 8 blob)))
    else struct_error
