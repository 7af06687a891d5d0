-- ===== src/Bytes.antt =====
-- Little-endian fields: what the assembler writes and `struct.unpack_from` reads.
use native.Mathlib.Nat.{pow-suc}
use mathlib.Core.Bool.{Bool, true}
use sawos.Prelude.{
  ℕ, zero, suc, ◌+◌, ◌*◌, ◌/◌, ◌%◌, ◌^◌, ◌≤◌, ◌<◌, ◌≡◌, ◌↔◌, refl, sym, ap, ◌∙◌, List, [], ◌∷◌,
  ◌++◌, arith, leb, length, take, drop, length-drop, drop-drop, length-append, drop-append_length,
}

abbrev pub Bytes : Type 0
Bytes = List ℕ

-- The `k` bytes of a field.
unfoldable pub to_le : ℕ → ℕ → Bytes
to_le zero v = []
to_le (suc k) v = (v % 256) ∷ to_le k (v / 256)

unfoldable pub from_le : Bytes → ℕ
from_le [] = 0
from_le (b ∷ bs) = b + 256 * from_le bs

pub length-to_le : (k v : ℕ) → length (to_le k v) ≡ k
unfolding to_le
length-to_le zero v = refl
length-to_le (suc k) v = omega (arith, length-to_le k (v / 256))

pub from_le-to_le : (k v : ℕ) → v < 256 ^ k → from_le (to_le k v) ≡ v
unfolding to_le from_le
from_le-to_le zero v h = omega arith
from_le-to_le (suc k) v h =
    let p : 256 ^ suc k ≡ 256 ^ k * 256 = pow-suc 256 k in
    omega (arith, p, from_le-to_le k (v / 256) (omega (arith, p)))

-- A field of `k` bytes at an offset.
unfoldable pub field_at : ℕ → ℕ → Bytes → ℕ
unfolding from_le
field_at k off blob = from_le (take k (drop off blob))

-- `struct.unpack_from` wants this many bytes from the offset on, and raises `struct.error` if they
-- are not there.
unfoldable pub fits : ℕ → ℕ → Bytes → Bool
fits size off blob = leb (off + size) (length blob)

take-append_length {ℓ} : {A : Type ℓ} (xs ys : List A) → take (length xs) (xs ++ ys) ≡ xs
take-append_length [] ys = refl
take-append_length (x ∷ xs) ys = ap (λ t. x ∷ t) (take-append_length xs ys)

-- Where a field was written, it is read back.
pub field_at-to_le :
    (k v off : ℕ) (blob rest : Bytes)
    → v < 256 ^ k
    → drop off blob ≡ to_le k v ++ rest
    → field_at k off blob ≡ v
unfolding field_at
field_at-to_le k v off blob rest h e = rw e (
    ap from_le (
      ap (λ n. take n (to_le k v ++ rest)) (sym (length-to_le k v))
      ∙ take-append_length (to_le k v) rest)
    ∙ from_le-to_le k v h)

-- The bytes behind a part that stands at an offset.
pub drop_behind :
    (off n : ℕ) (blob part rest : Bytes)
    → drop off blob ≡ part ++ rest
    → n ≡ off + length part
    → drop n blob ≡ rest
drop_behind off n blob part rest e q =
    sym (drop-drop blob (length part) off n q) ∙ rw e (drop-append_length part rest)

-- The bytes that stand at an offset are there to be read.
pub fits_part :
    (size off : ℕ) (blob part rest : Bytes)
    → drop off blob ≡ part ++ rest
    → 0 < length part
    → size ≤ length part
    → fits size off blob ≡ true
unfolding fits
fits_part size off blob part rest e p h =
    let total = ap length e ∙ length-append part rest in ground (arith, length-drop off blob, total)

pub fits_iff :
    (size off : ℕ) (blob : Bytes) → (fits size off blob ≡ true) ↔ (off + size ≤ length blob)
unfolding fits
fits_iff size off blob = ground arith
