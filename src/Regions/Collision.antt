-- ===== src/Regions/Collision.antt =====
-- The case that `_region_rows` of tools/sos_runner.py refuses, read against the layout of the boards.
use sawos.Prelude.{
  ℕ, zero, suc, ◌+◌, ◌<◌, ◌≡◌, ◌↔◌, inl, true, none, some, arith, length, get_elem?, All,
}
use sawos.Text.{Text}
use sawos.Arch.{Arch}
use sawos.Arch.Table.{arches}
use sawos.Case.{Case}
use sawos.Regions.{destination_row, pool_row, region_rows, child_region_len}
use sawos.Regions.Rows.{region_rows-refused}
use sawos.Regions.Layout.{
  Disjoint, first-destination, count-destination, first-pool, count-pool, All_at,
}

-- The pool stands where the region of a second child would.
record HasPoolSecond (arch : Arch) : Type 0 where
  second : arch.pool_base ≡ arch.child_region_base + child_region_len
  some_pool : 0 < arch.pool_len

arches-HasPoolSecond : (repo_root : Text) → All HasPoolSecond (arches repo_root)
arches-HasPoolSecond repo_root = (omega arith, (omega arith, (omega arith, tt)))

-- A child's memory and the pool share bytes.
abbrev pub Collides : Case → Arch → Type 0
Collides case arch =
    (i : ℕ) × (i < length case.children) × ¬ Disjoint (destination_row arch i) (pool_row arch)

module _ (arch : Arch) (laid : HasPoolSecond arch) where
  second-collides : ¬ Disjoint (destination_row arch 1) (pool_row arch)
  second-collides d = omega (
    arith,
    d,
    first-destination arch 1,
    count-destination arch 1,
    first-pool arch,
    count-pool arch,
    laid.second,
    laid.some_pool,
  )

  first-apart : Disjoint (destination_row arch 0) (pool_row arch)
  first-apart = inl (
      omega
        (arith, first-destination arch 0, count-destination arch 0, first-pool arch, laid.second))

  collision :
      (case : Case) → (region_rows case arch ≡ none) ↔ ((case.pool ≡ true) × Collides case arch)
  collision case =
      let refused = region_rows-refused case arch in
      (
        λ h. ((refused.0 h).1, (1, (refused.0 h).0, second-collides)),
        λ (p, (i, inside, meets)). refused.1 (more i inside meets, p),
      )
    where
      more :
          (i : ℕ)
          → i < length case.children
          → ¬ Disjoint (destination_row arch i) (pool_row arch)
          → 1 < length case.children
      more zero inside meets = absurd (meets first-apart)
      more (suc i) inside meets = omega (arith, inside)

-- On every architecture of the table, the rows of a case are refused exactly when the case asks for a
-- pool and the pool would share bytes with the memory of one of its children.
pub region_rows-Collides :
    (repo_root : Text) (k : ℕ) (arch : Arch) (case : Case)
    → get_elem? (arches repo_root) k ≡ some arch
    → (region_rows case arch ≡ none) ↔ ((case.pool ≡ true) × Collides case arch)
region_rows-Collides repo_root k arch case e =
    collision arch (All_at HasPoolSecond (arches repo_root) k (arches-HasPoolSecond repo_root) e)
      case
