-- ===== src/Regions/Rows.antt =====
-- The order of the region rows, which the root server's configuration reads as tags.
use mathlib.Core.Path.{subst}
use sawos.Prelude.{
  ℕ, zero, suc, ◌+◌, ◌<◌, ◌≡◌, ◌↔◌, refl, ap, ◌∙◌, Bool, true, List, [], ◌∷◌, ◌++◌, none, some,
  arith, if◌then◌else◌, length, get_elem?, length-append,
}
use sawos.Arch.{Arch}
use sawos.Case.{Case}
use sawos.Regions.{
  Row, blob_row, destination_row, blob_rows, destination_rows, pool_row, device_row, region_rows,
}

pub region_rows-refused :
    (case : Case) (arch : Arch)
    → (region_rows case arch ≡ none) ↔ ((1 < length case.children) × (case.pool ≡ true))
unfolding region_rows
region_rows-refused case arch = ground arith

count_of : Bool → ℕ
count_of b = if b then 1 else 0

get_elem?-append_left {ℓ} :
    {A : Type ℓ} (xs ys : List A) (i : ℕ) → i < length xs → get_elem? (xs ++ ys) i ≡ get_elem? xs i
get_elem?-append_left [] ys i h = elim h [ ]
get_elem?-append_left (x ∷ xs) ys zero h = refl
get_elem?-append_left (x ∷ xs) ys (suc i) h = get_elem?-append_left xs ys i (omega arith)

get_elem?-append_right {ℓ} :
    {A : Type ℓ} (xs ys : List A) (i k : ℕ)
    → k ≡ length xs + i
    → get_elem? (xs ++ ys) k ≡ get_elem? ys i
get_elem?-append_right [] ys i k e = ap (get_elem? ys) (omega arith)
get_elem?-append_right (x ∷ xs) ys i zero e = absurd (omega arith)
get_elem?-append_right (x ∷ xs) ys i (suc k) e = get_elem?-append_right xs ys i k (omega arith)

pub length-blob_rows : (n i : ℕ) → length (blob_rows n i) ≡ n
unfolding blob_rows
length-blob_rows zero i = refl
length-blob_rows (suc n) i = ap suc (length-blob_rows n (suc i))

length-destination_rows : (arch : Arch) (n i : ℕ) → length (destination_rows arch n i) ≡ n
unfolding destination_rows
length-destination_rows arch zero i = refl
length-destination_rows arch (suc n) i = ap suc (length-destination_rows arch n (suc i))

get_elem?-blob_rows : (n i k : ℕ) → k < n → get_elem? (blob_rows n i) k ≡ some (blob_row (i + k))
unfolding blob_rows
get_elem?-blob_rows zero i k h = elim h [ ]
get_elem?-blob_rows (suc n) i zero h = ap (λ j. some (blob_row j)) (omega arith)
get_elem?-blob_rows (suc n) i (suc k) h =
    get_elem?-blob_rows n (suc i) k (omega arith) ∙ ap (λ j. some (blob_row j)) (omega arith)

get_elem?-destination_rows :
    (arch : Arch) (n i k : ℕ)
    → k < n
    → get_elem? (destination_rows arch n i) k ≡ some (destination_row arch (i + k))
unfolding destination_rows
get_elem?-destination_rows arch zero i k h = elim h [ ]
get_elem?-destination_rows arch (suc n) i zero h =
    ap (λ j. some (destination_row arch j)) (omega arith)
get_elem?-destination_rows arch (suc n) i (suc k) h =
    get_elem?-destination_rows arch n (suc i) k (omega arith)
    ∙ ap (λ j. some (destination_row arch j)) (omega arith)

-- The tags of a table: the blobs, the destinations in the same order, the pool, the device window.
pub record TagsAre (case : Case) (arch : Arch) (rows : List Row) : Type 0 where
  pub blobs : (k : ℕ) → k < length case.children → get_elem? rows k ≡ some (blob_row k)
  pub destinations :
      (k : ℕ)
      → k < length case.children
      → get_elem? rows (length case.children + k) ≡ some (destination_row arch k)
  pub pool :
      case.pool ≡ true
      → get_elem? rows (length case.children + length case.children) ≡ some (pool_row arch)
  pub device :
      case.device ≡ true
      → get_elem? rows (length case.children + length case.children + (if case.pool then 1 else 0))
        ≡ some (device_row arch)
  pub size :
      length rows
      ≡ length case.children
        + length case.children
        + (if case.pool then 1 else 0)
        + (if case.device then 1 else 0)

tail_rows : Case → Arch → List Row
tail_rows case arch =
    (if case.pool then pool_row arch ∷ [] else [])
    ++ (if case.device then device_row arch ∷ [] else [])

module _ (case : Case) (arch : Arch) where
  n_children : ℕ
  n_children = length case.children

  all_rows : List Row
  unfolding n_children tail_rows
  all_rows = blob_rows n_children 0 ++ (destination_rows arch n_children 0 ++ tail_rows case arch)

  at_blob : (k : ℕ) → k < length case.children → get_elem? all_rows k ≡ some (blob_row k)
  unfolding all_rows
  at_blob k h =
      get_elem?-append_left (blob_rows n_children 0) _ k
        (omega (arith, length-blob_rows n_children 0))
      ∙ get_elem?-blob_rows n_children 0 k h
      ∙ ap (λ j. some (blob_row j)) (omega arith)

  behind_blobs :
      (k i : ℕ)
      → i ≡ length case.children + k
      → get_elem? all_rows i
        ≡ get_elem? (destination_rows arch (length case.children) 0 ++ tail_rows case arch) k
  unfolding all_rows
  behind_blobs k i e =
      get_elem?-append_right (blob_rows n_children 0) _ k i
        (omega (arith, length-blob_rows n_children 0, e))

  at_destination :
      (k : ℕ)
      → k < length case.children
      → get_elem? all_rows (length case.children + k) ≡ some (destination_row arch k)
  at_destination k h =
      behind_blobs k (length case.children + k) refl
      ∙ get_elem?-append_left (destination_rows arch (length case.children) 0) _ k
          (omega (arith, length-destination_rows arch (length case.children) 0))
      ∙ get_elem?-destination_rows arch (length case.children) 0 k h
      ∙ ap (λ j. some (destination_row arch j)) (omega arith)

  at_tail :
      (k i : ℕ)
      → i ≡ length case.children + length case.children + k
      → get_elem? all_rows i ≡ get_elem? (tail_rows case arch) k
  at_tail k i e =
      behind_blobs (length case.children + k) i (omega (arith, e))
      ∙ get_elem?-append_right (destination_rows arch (length case.children) 0) _ k
          (length case.children + k)
          (omega (arith, length-destination_rows arch (length case.children) 0))

  size_of_rows :
      length all_rows
      ≡ length case.children
        + length case.children
        + (if case.pool then 1 else 0)
        + (if case.device then 1 else 0)
  unfolding all_rows
  size_of_rows = ground (
    arith,
    length-append (blob_rows n_children 0)
        (destination_rows arch n_children 0 ++ tail_rows case arch),
    length-append (destination_rows arch n_children 0) (tail_rows case arch),
    length-blob_rows n_children 0,
    length-destination_rows arch n_children 0,
  )

  tags_of : TagsAre case arch all_rows
  unfolding tail_rows
  tags_of = record {
    blobs = at_blob;
    destinations = at_destination;
    pool = λ p. at_tail 0 (length case.children + length case.children) (omega arith) ∙ rw p;
    device = λ d. at_tail (if case.pool then 1 else 0) _ refl ∙ ground arith;
    size = size_of_rows;
  }

  -- An accepted case's rows stand in the order that the root server's configuration reads as tags:
  -- every child's image, every child's memory, the pool and the device window if asked for, and
  -- nothing else.
  pub region_rows-TagsAre :
      (rows : List Row) → region_rows case arch ≡ some rows → TagsAre case arch rows
  unfolding region_rows all_rows
  region_rows-TagsAre rows h =
      let e : all_rows ≡ rows = ground arith in subst (TagsAre case arch) e tags_of
