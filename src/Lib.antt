-- ===== src/Lib.antt =====
-- The host tools of SOS, modelled: the test harness tools/sos_runner.py, the toolchain resolver
-- tools/toolchain.py and the dump tools/sosimg_dump.py. The harness finds the host's programs,
-- resolves a toolchain, checks that the arch-free kernel names no architecture, builds the kernel and
-- its packages for each profile, boots every case under QEMU, and judges each transcript and exit
-- status. For a case with child processes it writes a boot region table, which the dump prints.
--
-- Which file models which part, with the functions of the code:
--   Prelude, Text, Paths, Bytes   what the tools use of Python: numbers and lists, `str` as a list of
--       code points, `os.path` and the directory constants, `struct.unpack_from`
--   Arch, Arch.Table   the rows of ARCHES, arch_dirs, expectations   (tools/sos_runner.py)
--   Case, Cases   the dictionaries of TEST_CASES, one constant each, in the order of the table, cut
--       into files by subject; Cases.Formats, Cases.Names and Cases.Passable are about the whole table
--   Main, Main.Passes   main: the arguments, the order of its refusals, the run, the exit status
--   Discover, Discover.First, Discover.Missing   _find_clang, _probe_tools and INSTALL_HINTS
--   Build   _run, and a build as the list of its operations over a store of files; Build.Shared
--       _build_shared, _build_blade and _blade_env; Build.Elf _stitch_root_image, _stitch_regions and
--       _build_elf; Build.Image _build_root_image and _root_image_path; Build.Names, Build.Footprint
--       and Build.Objects the paths that a case's build reads and writes; Build.Apart,
--       Build.Undisturbed and Build.Concurrent builds whose steps are mixed; Build.Links the link;
--       Build.Fresh the images of a package
--   Emulator, Emulator.Typed   _run_qemu as a step relation of the typist, the guest, the deadline;
--       Emulator.Answers what it returns, Emulator.Judged its result and _check together
--   Check   _check: Check.Strip the kernel lines' regular expression as a scanner, Check.Matching the
--       loop over the expected texts, Check.Accept the verdict
--   Seam, Seam.Scan   _is_english_embedding, _check_arch_free
--   Regions   _region_rows, _emit_word64, _emit_row, _stitch_regions; Regions.Rows, Regions.Layout and
--       Regions.Collision the rows, Regions.Assembly the assembler, Regions.RoundTrip and Regions.Table
--       the way from the written table to the printed one
--   Dump, Dump.Short   flags_str, dump_sosimg, dump_regions; Dump.CommandLine main
--       (tools/sosimg_dump.py)
--   Select, Select.Chosen   the --case filter of main
--   Run   _run_arch and the totals and exit status of main; Run.Packages the collected packages,
--       Run.Images the paths of their images, Run.Counts and Run.Totals the counts; Run.Series and Run.Alone the cases one after
--       another, with the files that their builds leave
--   Pool, Pool.Order, Pool.Progress   _map_ordered as a step relation on futures
--   Smoke, Smoke.Status   the smoke run of main on an ESP32 board: c3_cases, c3_flash_image, the verdict
--       and the exit status; Smoke.Builds c3_cc, c3_payload_stub, c3_regions_stub and the builds before
--       the first case; Smoke.Console and Smoke.Halted c3_run; Smoke.Table the region table
--   Toolchain   ToolchainError and Toolchain   (tools/toolchain.py); Toolchain.Pin and
--       Toolchain.Written _read_pin and the lines of a pin, Text.Cut the texts that it strips,
--       Toolchain.Version _probe_version and _check_version, Toolchain.Fetch _cache_root and _fetch,
--       Toolchain.Resolve _resolve_root, _sawc_from_root and resolve; Toolchain.Atomic,
--       Toolchain.Commands, Toolchain.Ends, Toolchain.Complete and Toolchain.Steps are about them; Toolchain.Report main
--   Examples   the theorems at concrete inputs
--
-- How the code is written here. A ToolError, a ToolchainError, a KeyError of `format` and a
-- struct.error are values: `none`, `err`, `tool_error`, `escaped`, `raised`, `crashed`. Text that is
-- only printed is left out where nothing reads it back; the refusals of the resolver keep the values
-- that they show. A build does not look at what its commands leave, so it is the list of what it would
-- do, with what it then returns. Loops run over their list; the scan of a line for a word runs on fuel,
-- the line's length and two, and each round moves on; the digits of a number run on the number itself.
-- Fields of a binary file have the width that `struct` gives them, and a table's count is one byte.
--
-- Parameters: the repository root; the file system, the PATH and the commands of the fetch
-- (Toolchain.Os); what the commands of a build do to the files (Host of Build, with laws on what they
-- read and write in Build.Apart, and on the listing of a directory in Build.Fresh); what the machine
-- has (Machine of Discover); the assembler and linker (Regions.Assembly, with what the stub relies on
-- as laws); the builds and the emulator in the run of a whole suite (Tools of Run, Board of Smoke,
-- Setting of Main), and the emulator in Run.Series, which runs the builds themselves; the decoding of
-- a program's output, which depends on the locale (Emulator).
--
-- Not modelled: the printed reports, the messages of argparse, and the walk of the directories for the
-- seam check. The kernel, the HAL and the user packages are written in Saw, C and assembly.
pub mod Prelude
pub mod Text
pub mod Paths
pub mod Arch
pub mod Case
pub mod Seam
pub mod Bytes
pub mod Regions
pub mod Dump
pub mod Toolchain
pub mod Check
pub mod Cases
pub mod Select
pub mod Run
pub mod Pool
pub mod Emulator
pub mod Discover
pub mod Smoke
pub mod Main
pub mod Build
pub mod Examples
