-- ===== src/Regions/Layout.antt =====
-- The memory windows that a table of tools/sos_runner.py names, as intervals of addresses.
use mathlib.Core.Path.{subst}
use sawos.Prelude.{
  ℕ, zero, suc, ◌+◌, ◌*◌, ◌≤◌, ◌<◌, ◌≡◌, ◌⊎◌, inl, inr, refl, ap, sym, ◌∙◌, Bool, true, false, List,
  [], ◌∷◌, ◌++◌, some, arith, if◌then◌else◌, length, get_elem?, drop, All, All-append,
  drop-append_length,
}
use sawos.Text.{Text}
use sawos.Text.ReadBack.{value_from, value-hex}
use sawos.Arch.{Arch}
use sawos.Arch.Table.{arches}
use sawos.Case.{Case}
use sawos.Regions.{
  Row, blob_rows, destination_row, destination_rows, pool_row, device_row, region_rows,
  child_region_len,
}
use sawos.Regions.Rows.{length-blob_rows}

-- The numbers that a row's expressions write.
abbrev pub first_byte : Row → ℕ
first_byte r = value_from 16 0 (drop 2 r.base)

abbrev pub byte_count : Row → ℕ
byte_count r = value_from 16 0 (drop 2 r.len)

abbrev pub Disjoint : Row → Row → Type 0
Disjoint r s =
    (first_byte r + byte_count r ≤ first_byte s) ⊎ (first_byte s + byte_count s ≤ first_byte r)

abbrev pub AllPairs {ℓ κ} : {A : Type ℓ} → (A → A → Type κ) → List A → Type κ
AllPairs R [] = Unit
AllPairs R (x ∷ xs) = All (R x) xs × AllPairs R xs

-- Where a board puts its windows: the device page below all memory, the pool above one child.
record IsLaidOut (arch : Arch) : Type 0 where
  device_below : arch.device_base + arch.device_len ≤ arch.child_region_base
  pool_above : arch.child_region_base + child_region_len ≤ arch.pool_base

arches-IsLaidOut : (repo_root : Text) → All IsLaidOut (arches repo_root)
arches-IsLaidOut repo_root = (omega arith, (omega arith, (omega arith, tt)))

pub All_at {ℓ κ} :
    {A : Type ℓ} (P : A → Type κ) (xs : List A) (i : ℕ) {a : A}
    → All P xs
    → get_elem? xs i ≡ some a
    → P a
All_at P [] i h e = absurd (cc (e))
All_at P (x ∷ xs) zero {a} h e = let q : x ≡ a = cc in subst P q h.0
All_at P (x ∷ xs) (suc i) h e = All_at P xs i h.1 e

module _ (arch : Arch) where
  pub first-destination :
      (i : ℕ) → first_byte (destination_row arch i) ≡ arch.child_region_base + i * child_region_len
  unfolding destination_row
  first-destination i = value-hex (arch.child_region_base + i * child_region_len)

  pub count-destination : (i : ℕ) → byte_count (destination_row arch i) ≡ child_region_len
  unfolding destination_row
  count-destination i = value-hex child_region_len

  pub first-pool : first_byte (pool_row arch) ≡ arch.pool_base
  unfolding pool_row
  first-pool = value-hex arch.pool_base

  pub count-pool : byte_count (pool_row arch) ≡ arch.pool_len
  unfolding pool_row
  count-pool = value-hex arch.pool_len

  first-device : first_byte (device_row arch) ≡ arch.device_base
  unfolding device_row
  first-device = value-hex arch.device_base

  count-device : byte_count (device_row arch) ≡ arch.device_len
  unfolding device_row
  count-device = value-hex arch.device_len

  destinations_apart :
      (i j : ℕ) → i < j → Disjoint (destination_row arch i) (destination_row arch j)
  destinations_apart i j h =
      inl (omega (arith, first-destination i, first-destination j, count-destination i))

  apart_from :
      (i n j : ℕ) → i < j → All (Disjoint (destination_row arch i)) (destination_rows arch n j)
  unfolding destination_rows
  apart_from i zero j h = tt
  apart_from i (suc n) j h = (destinations_apart i j h, apart_from i n (suc j) (omega arith))

-- A list with windows behind it: apart among themselves, and each from those behind.
AllPairs-append {ℓ κ} :
    {A : Type ℓ} (R : A → A → Type κ) (xs ys : List A)
    → AllPairs R xs
    → AllPairs R ys
    → All (λ x. All (R x) ys) xs
    → AllPairs R (xs ++ ys)
AllPairs-append R [] ys hx hy cross = hy
AllPairs-append R (x ∷ xs) ys (hx, hxs) hy (cx, cxs) =
    (All-append (R x) xs ys hx cx, AllPairs-append R xs ys hxs hy cxs)

module _ (arch : Arch) (laid : IsLaidOut arch) where
  AllPairs-destinations : (n i : ℕ) → AllPairs Disjoint (destination_rows arch n i)
  unfolding destination_rows
  AllPairs-destinations zero i = tt
  AllPairs-destinations (suc n) i =
      (apart_from arch i n (suc i) (omega arith), AllPairs-destinations n (suc i))

  destination_device : (i : ℕ) → Disjoint (destination_row arch i) (device_row arch)
  destination_device i = inr (
      omega
        (arith, first-destination arch i, first-device arch, count-device arch, laid.device_below))

  destination_pool : Disjoint (destination_row arch 0) (pool_row arch)
  destination_pool = inl (
      omega (
        arith,
        first-destination arch 0,
        count-destination arch 0,
        first-pool arch,
        laid.pool_above,
      ))

  pool_device : Disjoint (pool_row arch) (device_row arch)
  pool_device = inr (
      omega (
        arith,
        first-pool arch,
        first-device arch,
        count-device arch,
        laid.device_below,
        laid.pool_above,
      ))

  abbrev tail_of : Bool → Bool → List Row
  tail_of pool device =
      (if pool then pool_row arch ∷ [] else []) ++ (if device then device_row arch ∷ [] else [])

  AllPairs-tail : (pool device : Bool) → AllPairs Disjoint (tail_of pool device)
  AllPairs-tail true true = ((pool_device, tt), (tt, tt))
  AllPairs-tail true false = (tt, tt)
  AllPairs-tail false true = (tt, tt)
  AllPairs-tail false false = tt

  -- With a pool there is one child at most.
  cross_pool :
      (n i : ℕ) (device : Bool)
      → n + i ≤ 1
      → All (λ d. All (Disjoint d) (tail_of true device)) (destination_rows arch n i)
  unfolding destination_rows
  cross_pool zero i device h = tt
  cross_pool (suc zero) zero true h = ((destination_pool, (destination_device 0, tt)), tt)
  cross_pool (suc zero) zero false h = ((destination_pool, tt), tt)
  cross_pool (suc zero) (suc i) device h = absurd (omega arith)
  cross_pool (suc (suc n)) i device h = absurd (omega arith)

  cross_device :
      (n i : ℕ) (device : Bool)
      → All (λ d. All (Disjoint d) (tail_of false device)) (destination_rows arch n i)
  unfolding destination_rows
  cross_device zero i device = tt
  cross_device (suc n) i true = ((destination_device i, tt), cross_device n (suc i) true)
  cross_device (suc n) i false = (tt, cross_device n (suc i) false)

  apart :
      (n : ℕ) (pool device : Bool)
      → (pool ≡ true → n ≤ 1)
      → AllPairs Disjoint (destination_rows arch n 0 ++ tail_of pool device)
  apart n true device h =
      AllPairs-append Disjoint (destination_rows arch n 0) (tail_of true device)
        (AllPairs-destinations n 0) (AllPairs-tail true device)
        (cross_pool n 0 device (omega (arith, h refl)))
  apart n false device h =
      AllPairs-append Disjoint (destination_rows arch n 0) (tail_of false device)
        (AllPairs-destinations n 0) (AllPairs-tail false device) (cross_device n 0 device)

  windows_apart :
      (case : Case) (rows : List Row)
      → region_rows case arch ≡ some rows
      → AllPairs Disjoint (drop (length case.children) rows)
  unfolding region_rows
  windows_apart case rows h =
      let n = length case.children in
      let rest = destination_rows arch n 0 ++ tail_of case.pool case.device in
      let e : blob_rows n 0 ++ rest ≡ rows = ground arith in
      let few : case.pool ≡ true → n ≤ 1 = λ p. ground arith in
      subst (λ rs. AllPairs Disjoint (drop n rs)) e
        (rw (behind_blobs n rest) (apart n case.pool case.device few))
    where
      behind_blobs : (n : ℕ) (rest : List Row) → drop n (blob_rows n 0 ++ rest) ≡ rest
      behind_blobs n rest =
          ap (λ k. drop k (blob_rows n 0 ++ rest)) (sym (length-blob_rows n 0))
          ∙ drop-append_length (blob_rows n 0) rest

-- On every architecture of the table, the memory and device windows that a case publishes (the rows
-- behind the children's images) never overlap.
pub region_rows-AllPairs-Disjoint :
    (repo_root : Text) (k : ℕ) (arch : Arch) (case : Case) (rows : List Row)
    → get_elem? (arches repo_root) k ≡ some arch
    → region_rows case arch ≡ some rows
    → AllPairs Disjoint (drop (length case.children) rows)
region_rows-AllPairs-Disjoint repo_root k arch case rows e =
    windows_apart arch (All_at IsLaidOut (arches repo_root) k (arches-IsLaidOut repo_root) e) case
      rows
