-- ===== src/Smoke.antt =====
-- The smoke run of `main` in tools/sos_runner.py, behind `--board esp32c3`. What a case is linked to,
-- and what the emulator writes, are parameters here: Smoke.Builds and Smoke.Console are about them.
pub mod Builds
pub mod Console
pub mod Halted
pub mod Table
pub mod Status
use sawos.Prelude.{
  ℕ, ◌-◌, Bool, true, false, ◌&&◌, List, [], ◌∷◌, ◌++◌, Option, none, some, leb, ◌==◌,
  if◌then◌else◌, length, replicate,
}
use sawos.Text.{Text, codes}
use sawos.Paths.{◌/+◌, tests_dir}
use sawos.Bytes.{Bytes, field_at, fits}
use sawos.Check.Matching.{Matched, placed, match_in_order}
use sawos.Run.{Counts, tally, status_of}

-- The size of the board's flash, and the word that its ROM looks for.
abbrev pub flash_bytes : ℕ
flash_bytes = 0x400000

abbrev pub flash_magic : ℕ
flash_magic = 0xAEDB041D

-- One dictionary of `c3_cases`.
pub record SmokeCase : Type 0 where
  pub name : Text
  pub root_pkg : Option Text
  pub children : List Text
  pub expect : List Text

module _ (repo_root : Text) where
  abbrev smoke_boot : SmokeCase
  smoke_boot = record {
    name = codes "boot";
    root_pkg = none;
    children = [];
    expect =
        codes "ESP-ROM:esp32c3-api1-20210207"
        ∷ codes "SOS M1: kernel up on riscv32 (ESP32-C3)"
        ∷ codes "SOS: bad root image: no root image appended"
        ∷ codes "SOS-C3: halt fail code=0x00000004"
        ∷ [];
  }

  abbrev smoke_timer : SmokeCase
  smoke_timer = record {
    name = codes "timer";
    root_pkg = some (tests_dir repo_root /+ codes "c3-timer");
    children = [];
    expect =
        codes "ESP-ROM:esp32c3-api1-20210207"
        ∷ codes "SOS M1: kernel up on riscv32 (ESP32-C3)"
        ∷ codes "SOS c3timer: arming"
        ∷ codes "SOS c3timer: tick 1 key=37 fires=1"
        ∷ codes "SOS c3timer: tick 2 key=37 fires=1"
        ∷ codes "SOS c3timer: tick 3 key=37 fires=1"
        ∷ codes "SOS c3timer: tick 4 key=37 fires=1"
        ∷ codes "SOS c3timer: tick 5 key=37 fires=1"
        ∷ codes "SOS c3timer: done ticks=5 slept=1"
        ∷ codes "SOS-C3: halt pass"
        ∷ [];
  }

  abbrev smoke_isolation : SmokeCase
  smoke_isolation = record {
    name = codes "isolation";
    root_pkg = some (tests_dir repo_root /+ codes "c3-isolation");
    children = (tests_dir repo_root /+ codes "c3-child-poke") ∷ [];
    expect =
        codes "ESP-ROM:esp32c3-api1-20210207"
        ∷ codes "SOS M1: kernel up on riscv32 (ESP32-C3)"
        ∷ codes "SOS c3iso: started"
        ∷ codes "SOS: fault "
        ∷ codes "SOS c3iso: root survived child status=131072"
        ∷ codes "SOS c3iso: child syscalls=0 faults=1"
        ∷ codes "SOS c3iso: done"
        ∷ codes "SOS-C3: halt pass"
        ∷ [];
  }

  abbrev pub smoke_cases : List SmokeCase
  smoke_cases = smoke_boot ∷ smoke_timer ∷ smoke_isolation ∷ []

-- What `c3_flash_image` makes of the flattened image: the flash, a ToolError, or the `struct.error`
-- of an image that has no room for the two magic words.
pub data Flash : Type 0 where
  written : Bytes → Flash
  tool_error struct_error : Flash

unfoldable pub flash_image : Bytes → Flash
flash_image image =
    if fits 8 0 image
    then (if (field_at 4 0 image == flash_magic) && (field_at 4 4 image == flash_magic)
        then (if leb (length image) flash_bytes
            then written (image ++ replicate (flash_bytes - length image) 0xFF)
            else tool_error)
        else tool_error)
    else struct_error

-- `link` is the image that the build of a case flattens, `none` for a ToolError; `boot` is what
-- `c3_run` returns: the console, and whether the kernel halted.
pub record Board : Type 0 where
  pub link : SmokeCase → Option Bytes
  pub boot : Bytes → Text × Bool

abbrev pub is_placed : Matched → Bool
is_placed placed = true
is_placed _ = false

-- `missing is None and halted`
abbrev pub smoke_passes : List Text → Text × Bool → Bool
smoke_passes expect (out, halted) = is_placed (match_in_order false out expect 0) && halted

module _ (board : Board) where
  abbrev pub smoke_flash : SmokeCase → Flash → Option Bool
  smoke_flash c (written flash) = some (smoke_passes c.expect (board.boot flash))
  smoke_flash c tool_error = some false
  smoke_flash c struct_error = none

  abbrev pub smoke_link : SmokeCase → Option Bytes → Option Bool
  smoke_link c (some image) = smoke_flash c (flash_image image)
  smoke_link c none = some false

  -- The loop over the cases; `none` is an exception that ends the run.
  unfoldable pub run_smoke : List SmokeCase → Option Counts
  run_smoke [] = some (0, 0)
  run_smoke (c ∷ cs) = tally (smoke_link c (board.link c)) (run_smoke cs)

  -- The exit status.
  unfoldable pub smoke_status : List SmokeCase → ℕ
  unfolding run_smoke
  smoke_status cs = status_of (run_smoke cs)
