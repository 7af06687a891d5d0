-- ===== src/Dump/Short.antt =====
-- The `struct.error` of tools/sosimg_dump.py on a file that is too short.
use sawos.Prelude.{
  ℕ, zero, suc, ◌+◌, ◌*◌, ◌≤◌, ◌≡◌, ◌↔◌, ◌⊎◌, inl, refl, false, [], ◌∷◌, ◌++◌, arith, length,
}
use sawos.Bytes.{fits_iff, Bytes, field_at}
use sawos.Text.{codes}
use sawos.Text.Numerals.{decimal}
use sawos.Dump.{Printed, print, finished, dump_segments, dump_sosimg, dump_rows, dump_regions}

-- `n` records of stride 24 from `off` on are there, the last of at least `size` bytes.
abbrev pub Holds : ℕ → ℕ → ℕ → Bytes → Type 0
Holds size n off blob = (n ≡ 0) ⊎ (off + 24 * n + size ≤ length blob + 24)

Holds-suc :
    (size n off : ℕ) (blob : Bytes)
    → size ≤ 24
    → (Holds size (suc n) off blob) ↔ ((off + size ≤ length blob) × Holds size n (off + 24) blob)
Holds-suc size n off blob h = ground arith

segments-crashed :
    (n i off : ℕ) (blob : Bytes) (rest : Printed)
    → rest.crashed ≡ false
    → ((dump_segments n i off blob rest).crashed ≡ false) ↔ Holds 21 n off blob
unfolding dump_segments
segments-crashed zero i off blob rest h = (λ _. inl refl, λ _. h)
segments-crashed (suc n) i off blob rest h = ground (
  arith,
  fits_iff 21 off blob,
  Holds-suc 21 n off blob,
  segments-crashed n (suc i) (off + 24) blob rest h,
)

rows-crashed :
    (n i off : ℕ) (blob : Bytes) → ((dump_rows n i off blob).crashed ≡ false) ↔ Holds 17 n off blob
unfolding dump_rows
rows-crashed zero i off blob = (λ _. inl refl, λ _. refl)
rows-crashed (suc n) i off blob =
    ground
      (arith, fits_iff 17 off blob, Holds-suc 17 n off blob, rows-crashed n (suc i) (off + 24) blob)

-- The image dump runs to its end exactly when the header is there, and every segment record that
-- the header announces.
pub dump_sosimg-crashed :
    (blob : Bytes)
    → ((dump_sosimg blob).crashed ≡ false)
      ↔ ((24 ≤ length blob) × Holds 21 (field_at 1 6 blob) 24 blob)
unfolding dump_sosimg
dump_sosimg-crashed blob = ground (
  arith,
  fits_iff 24 0 blob,
  segments-crashed (field_at 1 6 blob) 0 24 blob
      (print (codes "file size " ++ (decimal (length blob) ++ codes " bytes")) finished) refl,
)

-- The table dump runs to its end exactly when the file is empty, or holds the header and every row
-- that the header announces.
pub dump_regions-crashed :
    (blob : Bytes)
    → ((dump_regions blob).crashed ≡ false)
      ↔ ((blob ≡ []) ⊎ ((8 ≤ length blob) × Holds 17 (field_at 1 6 blob) 8 blob))
unfolding dump_regions
dump_regions-crashed [] = (λ _. inl refl, λ _. refl)
dump_regions-crashed (b ∷ bs) =
    ground (arith, fits_iff 8 0 (b ∷ bs), rows-crashed (field_at 1 6 (b ∷ bs)) 0 8 (b ∷ bs))
