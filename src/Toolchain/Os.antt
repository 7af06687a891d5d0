-- ===== src/Toolchain/Os.antt =====
-- What tools/toolchain.py asks of the system: parameters of the model.
use sawos.Prelude.{Bool, false, List, [], ◌∷◌, Option, none, some, if◌then◌else◌}
use sawos.Prelude.Int.{ℤ}
use sawos.Text.{Text, text_eq}

-- The directory trees that matter, by path: `C` is the content of one.
abbrev pub Disk : Type 0 → Type 0
Disk C = Text → Option C

-- The output of a finished process.
pub record Finished : Type 0 where
  pub returncode : ℤ
  pub stdout : Text
  pub stderr : Text

-- A command ends with 0, or with another status, or it cannot be started, which is an OSError.
pub data Exit : Type 0 where
  succeeded exited unstarted : Exit

pub record Os (C : Type 0) : Type 0 where
  -- `os.path.abspath(os.path.expanduser(p))`, and `expanduser` alone
  pub absolute : Text → Text
  pub expand_user : Text → Text
  -- `sawc/sawc.py` and `.venv/bin/python` are files of the tree
  pub has_compiler : C → Bool
  pub has_venv : C → Bool
  -- `shutil.which` on the environment's PATH
  pub which : Text → Option Text
  -- `sawc --version`: `none` if it could not be run
  pub version_run : List Text → Option Finished
  -- a command of the fetch: how it ended, and what it left of the tree that it works on
  pub command : List Text → C → Exit × C
  -- what `shutil.rmtree(tree, ignore_errors=True)` leaves, if it cannot remove all
  pub remains : C → Option C
  -- an empty directory, and the running interpreter
  pub empty_tree : C
  pub is_empty : C → Bool
  pub executable : Text

-- `_looks_like_sawlang`
unfoldable pub looks_like_sawlang : {C : Type 0} → Os C → Disk C → Text → Bool
looks_like_sawlang os disk [] = false
looks_like_sawlang os disk (c ∷ p) = elim (disk (c ∷ p)) [
  | none ↦ false
  | some tree ↦ os.has_compiler tree
]

-- The disk with one path written.
unfoldable pub write : {C : Type 0} → Disk C → Text → Option C → Disk C
unfolding text_eq
write disk path tree p = if text_eq path p then tree else disk p
