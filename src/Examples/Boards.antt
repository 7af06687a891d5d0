-- ===== src/Examples/Boards.antt =====
-- The smoke run at concrete inputs.
use sawos.Prelude.{◌≡◌, ◌↔◌, true, [], ◌∷◌, some, All}
use sawos.Text.{codes}
use sawos.Bytes.{Bytes}
use sawos.Smoke.{Board, flash_image, written, smoke_status, smoke_cases}
use sawos.Smoke.Status.{Boots, flash_of, flash_image-Boots, SmokePasses, smoke_status-SmokePasses}

-- The two magic words.
abbrev magic_image : Bytes
magic_image = 0x1D ∷ 0x04 ∷ 0xDB ∷ 0xAE ∷ 0x1D ∷ 0x04 ∷ 0xDB ∷ 0xAE ∷ []

abbrev pub test_board : Board
test_board = record {
  link = λ c. some magic_image;
  boot = λ flash. (codes "ESP-ROM:esp32c3-api1-20210207\nSOS-C3: halt pass\n", true);
}

flash_image-Boots_example :
    (flash_image magic_image ≡ written (flash_of magic_image))
    ↔ (Boots magic_image × (flash_of magic_image ≡ flash_of magic_image))
flash_image-Boots_example = flash_image-Boots magic_image (flash_of magic_image)

smoke_status-SmokePasses_example :
    (smoke_status test_board (smoke_cases (codes "/r")) ≡ 0)
    ↔ All (SmokePasses test_board) (smoke_cases (codes "/r"))
smoke_status-SmokePasses_example = smoke_status-SmokePasses test_board (smoke_cases (codes "/r"))
