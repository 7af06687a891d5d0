-- ===== src/Smoke/Builds.antt =====
-- The builds of the smoke run of tools/sos_runner.py: the stubs, the kernel, and the link.
use sawos.Prelude.{ℕ, zero, suc, ◌+◌, ◌*◌, List, [], ◌∷◌, ◌++◌, length}
use sawos.Text.{Text, codes, join}
use sawos.Text.Numerals.{decimal, hex, hex_prefixed}
use sawos.Paths.{
  ◌/+◌, kernel_dir, hal_dir, rt_common_c_dir, rv32_common_dir, core_module, rv32_core_module,
  sosrt_module, sosabi_module,
}
use sawos.Regions.{
  Row, child_start, child_end, blob_row, region_kind_ram, region_table_magic, region_table_version,
}
use sawos.Toolchain.{Toolchain, module_path_arg}
use sawos.Build.Shared.{build_blade}
use sawos.Build.{Build, pure, does, lift, ◌>>=◌, ◌>>◌, run, write_file}

abbrev pub c3_child_base : ℕ
c3_child_base = 0x403C5000

abbrev pub c3_child_len : ℕ
c3_child_len = 0x17000

abbrev pub c3_triple : Text
c3_triple = codes "riscv32-unknown-none-elf"

-- The lines that embed the child images; the stub names each by its path.
unfoldable pub c3_child_lines : ℕ → List Text → List Text
unfolding child_start child_end
c3_child_lines i [] = []
c3_child_lines i (img ∷ images) =
    (child_start i ++ codes ":")
    ∷ (codes "    .incbin \"" ++ (img ++ codes "\""))
    ∷ (child_end i ++ codes ":")
    ∷ codes "    .balign 16"
    ∷ c3_child_lines (suc i) images

-- The destination of a child.
unfoldable pub c3_destination : ℕ → Row
c3_destination i = record {
  what = [];
  base = hex (c3_child_base + i * c3_child_len);
  len = hex c3_child_len;
  kind = region_kind_ram;
}

unfoldable pub c3_blobs : ℕ → ℕ → List Row
unfolding blob_row
c3_blobs zero i = []
c3_blobs (suc n) i = record (blob_row i) { what = [] } ∷ c3_blobs n (suc i)

unfoldable pub c3_destinations : ℕ → ℕ → List Row
unfolding c3_destination
c3_destinations zero i = []
c3_destinations (suc n) i = c3_destination i ∷ c3_destinations n (suc i)

-- `rows`: every blob, then every destination.
unfoldable pub c3_rows : ℕ → List Row
unfolding c3_blobs c3_destinations
c3_rows n = c3_blobs n 0 ++ c3_destinations n 0

-- The loop over `enumerate(rows)`: this assembler has 32-bit words.
unfoldable pub c3_emit_rows : ℕ → List Row → List Text
c3_emit_rows i [] = []
c3_emit_rows i (row ∷ rows) =
    (codes "    /* row " ++ (decimal i ++ codes " */"))
    ∷ (codes "    .4byte " ++ row.base)
    ∷ codes "    .4byte 0"
    ∷ (codes "    .4byte " ++ row.len)
    ∷ codes "    .4byte 0"
    ∷ (codes "    .byte  " ++ decimal row.kind)
    ∷ codes "    .byte  0, 0, 0, 0, 0, 0, 0"
    ∷ c3_emit_rows (suc i) rows

unfoldable pub c3_table_lines : List Row → List Text
unfolding c3_emit_rows
c3_table_lines rows =
    []
    ∷ codes "    .section .regions, \"a\", @progbits"
    ∷ codes "    .balign 8"
    ∷ (codes "    .4byte " ++ hex_prefixed 10 region_table_magic)
    ∷ (codes "    .2byte " ++ decimal region_table_version)
    ∷ (codes "    .byte  " ++ decimal (length rows))
    ∷ codes "    .byte  0"
    ∷ c3_emit_rows 0 rows

unfoldable pub c3_stub_lines : List Text → List Text
unfolding c3_child_lines c3_rows c3_table_lines
c3_stub_lines images =
    codes "/* GENERATED by tools/sos_runner.py --board esp32c3 */"
    ∷ codes "    .section .childimg, \"a\", @progbits"
    ∷ codes "    .balign 16"
    ∷ (c3_child_lines 0 images ++ c3_table_lines (c3_rows (length images)))

module _ (root clang lld objcopy : Text) where
  abbrev c3_hal : Text
  c3_hal = hal_dir root /+ codes "riscv32-esp32c3"

  abbrev pub c3_build : Text
  c3_build = root /+ codes ".build" /+ codes "esp32c3" /+ codes "sos"

  abbrev c3_file : Text → Text → Text
  c3_file name kind = c3_build /+ (name ++ codes "." ++ kind)

  -- `c3_cc`
  abbrev pub c3_cc : Text → Text → List Text → List Text → Build Text
  c3_cc src obj extra reads = do
    run
        (clang
          ∷ codes "--target=riscv32-esp-unknown-elf"
          ∷ codes "-march=rv32imc_zicsr_zifencei"
          ∷ codes "-mabi=ilp32"
          ∷ codes "-nostdlib"
          ∷ codes "-ffreestanding"
          ∷ (extra ++ codes "-c" ∷ src ∷ codes "-o" ∷ obj ∷ []))
        reads obj
    pure obj

  unfoldable pub c3_payload_stub : Text → Text → Build Text
  c3_payload_stub name sosimg = do
    let stub_s = c3_file name (codes "rootimg.S")
    does (
        write_file stub_s (
          codes "/* GENERATED by tools/sos_runner.py --board esp32c3 */\n"
          ++ (codes "    .section .payload, \"ax\", @progbits\n"
              ++ (codes "    .balign 16\n"
                  ++ (codes "    .incbin \"" ++ (sosimg ++ codes "\"\n"))))))
    c3_cc stub_s (c3_file name (codes "rootimg.o")) [] (stub_s ∷ sosimg ∷ [])

  unfoldable pub c3_regions_stub : Text → List Text → Build Text
  unfolding c3_stub_lines
  c3_regions_stub name child_images = do
    let stub_s = c3_file name (codes "regions.S")
    does (write_file stub_s (join (b'\n' ∷ []) (c3_stub_lines child_images) ++ b'\n' ∷ []))
    c3_cc stub_s (c3_file name (codes "regions.o")) [] (stub_s ∷ child_images)

  -- The objects that the cases share.
  unfoldable pub c3_shared : Build (List Text)
  c3_shared = do
    boot ← c3_cc (c3_hal /+ codes "kernel" /+ codes "boot.S") (c3_build /+ codes "boot.o") [] []
    trap ←
        c3_cc (rv32_common_dir root /+ codes "kernel" /+ codes "trap.S")
          (c3_build /+ codes "trap.o") [] []
    sink ←
        c3_cc (rv32_common_dir root /+ codes "kernel" /+ codes "sink.c")
          (c3_build /+ codes "sink.o") (codes "-O2" ∷ []) []
    support ←
        c3_cc (rt_common_c_dir root /+ codes "support.c") (c3_build /+ codes "support.o")
          (codes "-O2" ∷ []) []
    pure (boot ∷ trap ∷ sink ∷ support ∷ [])

  -- The one kernel of the three cases.
  unfoldable pub c3_kernel : Toolchain → Build Text
  unfolding module_path_arg
  c3_kernel tc = do
    let kobj = c3_build /+ codes "kernel.o"
    imgformat ← lift (module_path_arg tc (codes "imgformat"))
    run
        (tc.sawc_argv
          ++ (kernel_dir root /+ codes "main.saw")
            ∷ codes "-o"
            ∷ kobj
            ∷ codes "-Oz"
            ∷ codes "--freestanding"
            ∷ codes "--no-hidden-alloc"
            ∷ codes "--runtime-provider"
            ∷ codes "--target"
            ∷ c3_triple
            ∷ codes "--target-features"
            ∷ codes "+m,+c"
            ∷ codes "--module-path"
            ∷ core_module root
            ∷ codes "--module-path"
            ∷ (codes "hal=" ++ (c3_hal /+ codes "kernel"))
            ∷ codes "--module-path"
            ∷ rv32_core_module root
            ∷ codes "--module-path"
            ∷ imgformat
            ∷ codes "--module-path"
            ∷ sosrt_module root
            ∷ codes "--module-path"
            ∷ sosabi_module root
            ∷ [])
        [] kobj
    pure kobj

  -- The link and the flattening of `c3_flash_image`: the raw image's path.
  unfoldable pub c3_raw_image : Text → List Text → Build Text
  c3_raw_image name objs = do
    let elf = c3_file name (codes "elf")
    let raw = c3_file name (codes "bin")
    run
        (lld
          ∷ codes "-T"
          ∷ (c3_hal /+ codes "kernel" /+ codes "esp32c3.ld")
          ∷ codes "--gc-sections"
          ∷ codes "-o"
          ∷ elf
          ∷ objs)
        objs elf
    run (objcopy ∷ codes "-O" ∷ codes "binary" ∷ elf ∷ raw ∷ []) (elf ∷ []) raw
    pure raw

  -- What is built before the first case: Blade, the shared objects and the kernel.
  unfoldable pub c3_setup : Toolchain → Build (Text × List Text × Text)
  unfolding build_blade c3_shared c3_kernel
  c3_setup tc = do
    blade_bin ← build_blade tc c3_build
    shared ← c3_shared
    kobj ← c3_kernel tc
    pure (blade_bin, shared, kobj)
