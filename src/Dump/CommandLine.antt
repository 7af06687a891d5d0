-- ===== src/Dump/CommandLine.antt =====
-- `main` of tools/sosimg_dump.py.
use sawos.Prelude.{◌||◌, List, [], ◌∷◌, Option, none, some, if◌then◌else◌}
use sawos.Text.{Text, codes, text_eq}
use sawos.Bytes.{Bytes}
use sawos.Dump.{Printed, dump_sosimg, dump_regions}

-- The help text, a dump, or an exception: no argument behind `--regions`, or a file that cannot be
-- read.
pub data Ran : Type 0 where
  usage : Ran
  dumped : Printed → Ran
  index_error os_error : Ran

abbrev pub dump_file : (Bytes → Printed) → Option Bytes → Ran
dump_file dump (some blob) = dumped (dump blob)
dump_file dump none = os_error

module _ (read : Text → Option Bytes) where
  abbrev pub regions_of : List Text → Ran
  regions_of [] = index_error
  regions_of (path ∷ _) = dump_file dump_regions (read path)

  -- `main` on the arguments behind the program's name.
  unfoldable pub dump_main : List Text → Ran
  unfolding dump_regions dump_sosimg text_eq
  dump_main [] = usage
  dump_main (arg ∷ args) =
      if text_eq arg (codes "-h") || text_eq arg (codes "--help")
      then usage
      else if text_eq arg (codes "--regions")
      then regions_of args
      else dump_file dump_sosimg (read arg)
