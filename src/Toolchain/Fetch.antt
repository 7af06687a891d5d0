-- ===== src/Toolchain/Fetch.antt =====
-- `_fetch` of tools/toolchain.py: the pinned checkout, published by a rename.
use sawos.Prelude.{Bool, true, false, List, [], ◌∷◌, ◌++◌, Option, none, some, map, if◌then◌else◌}
use sawos.Text.{Text, codes}
use sawos.Paths.{◌/+◌}
use sawos.Toolchain.{Result, ok, err, os_error, truthy, fetch_needs, fetch_failed}
use sawos.Toolchain.Os.{Os, Disk, succeeded, exited, unstarted, looks_like_sawlang, write}

abbrev pub upstream_url : Text
upstream_url = codes "https://github.com/swoodtke/sawlang.git"

-- `_cache_root`
unfoldable pub cache_root : {C : Type 0} → Os C → (Text → Option Text) → Text
cache_root os env = elim (truthy (env (codes "SAW_TOOLCHAIN_CACHE"))) [
  | some named ↦ os.absolute named
  | none ↦ os.expand_user (codes "~" /+ codes ".cache" /+ codes "saw-toolchain")
]

-- What the fetch does to the disk, step by step.
pub data Action : Type 0 where
  remove_tmp make_tmp publish : Action
  run : List Text → Action

-- The commands that fill the partial tree.
unfoldable pub commands : Text → Text → List (List Text)
commands sha tmp =
    (codes "git" ∷ codes "init" ∷ codes "--quiet" ∷ tmp ∷ [])
    ∷ (codes "git" ∷ codes "remote" ∷ codes "add" ∷ codes "origin" ∷ upstream_url ∷ [])
    ∷ (codes "git"
        ∷ codes "fetch"
        ∷ codes "--quiet"
        ∷ codes "--depth"
        ∷ codes "1"
        ∷ codes "origin"
        ∷ sha
        ∷ [])
    ∷ (codes "git" ∷ codes "checkout" ∷ codes "--quiet" ∷ codes "FETCH_HEAD" ∷ [])
    ∷ (codes "python3" ∷ codes "-m" ∷ codes "venv" ∷ (tmp /+ codes ".venv") ∷ [])
    ∷ ((tmp /+ codes ".venv" /+ codes "bin" /+ codes "pip")
        ∷ codes "install"
        ∷ codes "--quiet"
        ∷ codes "llvmlite"
        ∷ [])
    ∷ []

-- The steps, in order.
unfoldable pub plan : Text → Text → List Action
unfolding commands
plan sha tmp = remove_tmp ∷ make_tmp ∷ (map run (commands sha tmp) ++ publish ∷ [])

-- The steps took place, or a command failed, or an OSError was raised.
pub data Outcome : Type 0 where
  done refused : Outcome
  failed : List Text → Outcome

module _ {C : Type 0} (os : Os C) (tmp dest : Text) where
  -- A command works on the partial tree, whatever it does there. The parent of the destination is
  -- no tree of the disk, so making it changes nothing here.
  -- `os.makedirs` refuses a directory that is there. A command that fails has the partial tree removed,
  -- as far as that goes; one that cannot be started leaves it.
  unfoldable pub step : Action → Disk C → Outcome × Disk C
  step remove_tmp disk =
      (done, write disk tmp (elim (disk tmp) [ none ↦ none | some old ↦ os.remains old ]))
  step make_tmp disk = elim (disk tmp) [
    | none ↦ (done, write disk tmp (some os.empty_tree))
    | some tree ↦ (refused, disk)
  ]
  step (run argv) disk = elim (disk tmp) [
    | none ↦ (refused, disk)
    | some tree ↦
        let r = os.command argv tree in
        elim r.0 [
          | succeeded ↦ (done, write disk tmp (some r.1))
          | exited ↦ (failed argv, write disk tmp (os.remains r.1))
          | unstarted ↦ (refused, disk)
        ]
  ]
  -- `os.replace` refuses to rename over a directory that is not empty.
  step publish disk =
      if (elim (disk dest) [ none ↦ true | some tree ↦ os.is_empty tree ])
      then (done, write (write disk dest (disk tmp)) tmp none)
      else (refused, disk)

  -- The steps, up to the first that does not go well.
  unfoldable pub run_plan : List Action → Disk C → Outcome × Disk C
  run_plan [] disk = (done, disk)
  run_plan (a ∷ actions) disk =
      let r = step a disk in elim r.0 [ done ↦ run_plan actions r.1 | _ ↦ r ]

-- `tmp = dest + ".partial"`
abbrev pub partial_of : Text → Text
partial_of dest = dest ++ codes ".partial"

-- What a finished or stopped plan means for the caller.
abbrev pub result_of : {C : Type 0} → Text → Outcome × Disk C → Result Text × Disk C
result_of dest (done, disk) = (ok dest, disk)
result_of dest (failed argv, disk) = (err (fetch_failed argv), disk)
result_of dest (refused, disk) = (os_error, disk)

abbrev is_none {ℓ} : {A : Type ℓ} → Option A → Bool
is_none none = true
is_none (some a) = false

unfoldable pub fetch :
    {C : Type 0} → Os C → (Text → Option Text) → Text → Disk C → Result Text × Disk C
fetch os env sha disk =
    let dest = cache_root os env /+ sha in
    let tmp = partial_of dest in
    if looks_like_sawlang os disk dest
    then (ok dest, disk)
    else if is_none (os.which (codes "git"))
    then (err (fetch_needs (codes "git")), disk)
    else if is_none (os.which (codes "python3"))
    then (err (fetch_needs (codes "python3")), disk)
    else result_of dest (run_plan os tmp dest (plan sha tmp) disk)
