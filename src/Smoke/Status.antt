-- ===== src/Smoke/Status.antt =====
-- The exit status of the smoke run, and the flash images that it boots.
use sawos.Prelude.{
  some-injective, ◌-◌, ◌≤◌, ◌≡◌, ◌↔◌, refl, sym, ap, ◌∙◌, Bool, true, false, List, [], ◌∷◌, ◌++◌,
  Option, none, some, arith, length, replicate, All,
}
use sawos.Text.{Text}
use sawos.Bytes.{fits_iff, Bytes, field_at}
use sawos.Check.Matching.{
  Matched, placed, out_of_order, missing, match_in_order, Placed, match-Placed,
}
use sawos.Run.Counts.{Clean, tally-Clean, status_of-Clean}
use sawos.Smoke.{
  SmokeCase, Board, Flash, written, tool_error, struct_error, flash_image, flash_bytes, flash_magic,
  smoke_passes, is_placed, smoke_flash, smoke_link, run_smoke, smoke_status,
}

-- What the mask ROM and the flash ask of an image.
pub record Boots (image : Bytes) : Type 0 where
  pub header : 8 ≤ length image
  pub first_magic : field_at 4 0 image ≡ flash_magic
  pub second_magic : field_at 4 4 image ≡ flash_magic
  pub room : length image ≤ flash_bytes

-- The flash that holds the image and nothing else.
abbrev pub flash_of : Bytes → Bytes
flash_of image = image ++ replicate (flash_bytes - length image) 0xFF

-- A flash is written exactly for an image that has the two magic words and fits, and holds that image,
-- filled up with ones.
pub flash_image-Boots :
    (image flash : Bytes)
    → (flash_image image ≡ written flash) ↔ (Boots image × (flash ≡ flash_of image))
unfolding flash_image
flash_image-Boots image flash = (
  λ h. (
    record {
      header = ground (arith, fits_iff 8 0 image);
      first_magic = ground arith;
      second_magic = ground arith;
      room = ground arith;
    },
    ground arith,
  ),
  λ (b, e).
      let h = b.header in
      let m = b.first_magic in
      let n = b.second_magic in let r = b.room in ground (arith, fits_iff 8 0 image),
)

-- The case is linked, the ROM starts its image, its texts have places in order in the console, and
-- the kernel halts.
abbrev pub SmokePasses : Board → SmokeCase → Type 0
SmokePasses board c =
    (image : Bytes) × (board.link c ≡ some image)
    × Boots image
    × Placed false (board.boot (flash_of image)).0 c.expect 0
    × ((board.boot (flash_of image)).1 ≡ true)

is_placed-placed : (m : Matched) → (is_placed m ≡ true) ↔ (m ≡ placed)
is_placed-placed placed = (λ _. refl, λ _. refl)
is_placed-placed (out_of_order w) = ground arith
is_placed-placed (missing w) = ground arith

smoke_passes-Placed :
    (expect : List Text) (ran : Text × Bool)
    → (smoke_passes expect ran ≡ true) ↔ (Placed false ran.0 expect 0 × (ran.1 ≡ true))
smoke_passes-Placed expect (out, halted) =
    ground
      (arith, is_placed-placed (match_in_order false out expect 0), match-Placed false out expect 0)

module _ (board : Board) where
  smoke_flash-written :
      (c : SmokeCase) (image : Bytes) (f : Flash)
      → flash_image image ≡ f
      → (smoke_flash board c f ≡ some true) ↔ (
          Boots image
          × Placed false (board.boot (flash_of image)).0 c.expect 0
          × ((board.boot (flash_of image)).1 ≡ true))
  smoke_flash-written c image (written flash) e =
      let (b, q) = (flash_image-Boots image flash).0 e in
      let p = smoke_passes-Placed c.expect (board.boot (flash_of image)) in
      rw q (
        λ h. let t = p.0 (some-injective h) in (b, t.0, t.1),
        λ (_, places, halts). ap some (p.1 (places, halts)),
      )
  smoke_flash-written c image tool_error e = (λ h. cc, λ (b, _, _). not_written b)
    where
      not_written : Boots image → some false ≡ some true
      not_written b = let no = sym e ∙ (flash_image-Boots image (flash_of image)).1 (b, refl) in cc
  smoke_flash-written c image struct_error e = (λ h. cc, λ (b, _, _). not_written b)
    where
      not_written : Boots image → none ≡ some true
      not_written b = let no = sym e ∙ (flash_image-Boots image (flash_of image)).1 (b, refl) in cc

  smoke_link-SmokePasses :
      (c : SmokeCase) (o : Option Bytes)
      → board.link c ≡ o
      → (smoke_link board c o ≡ some true) ↔ SmokePasses board c
  smoke_link-SmokePasses c none e = (λ h. cc, λ (i, q, _, _, _). absurd (cc (sym e ∙ q)))
  smoke_link-SmokePasses c (some image) e =
      let w = smoke_flash-written c image (flash_image image) refl in
      (
        λ h. let t = w.0 h in (image, e, t.0, t.1, t.2),
        λ (i, q, b, places, halts). w.1 (rw (some-injective (sym e ∙ q)) (b, places, halts)),
      )

  run_smoke-SmokePasses :
      (cs : List SmokeCase) → Clean (run_smoke board cs) ↔ All (SmokePasses board) cs
  unfolding run_smoke
  run_smoke-SmokePasses [] = (λ _. tt, λ _. (0, refl))
  run_smoke-SmokePasses (c ∷ cs) =
      let one = tally-Clean (smoke_link board c (board.link c)) (run_smoke board cs) in
      let here = smoke_link-SmokePasses c (board.link c) refl in
      let rest = run_smoke-SmokePasses cs in
      (λ h. (here.0 (one.0 h).0, rest.0 (one.0 h).1), λ (h, hs). one.1 (here.1 h, rest.1 hs))

  -- The smoke run exits with 0 exactly when every case is linked, its image begins with the two magic
  -- words and fits the flash, its texts stand in order in the console, and the kernel halts.
  pub smoke_status-SmokePasses :
      (cs : List SmokeCase) → (smoke_status board cs ≡ 0) ↔ All (SmokePasses board) cs
  unfolding smoke_status
  smoke_status-SmokePasses cs =
      let s = status_of-Clean (run_smoke board cs) in
      let r = run_smoke-SmokePasses cs in (λ h. r.0 (s.0 h), λ h. s.1 (r.1 h))
