-- ===== src/Build.antt =====
-- The builds of tools/sos_runner.py: the commands that they run, and the files that they copy and
-- write. The programs that are run are a parameter.
pub mod Shared
pub mod Elf
pub mod Image
pub mod Fresh
pub mod Names
pub mod Apart
pub mod Footprint
pub mod Objects
pub mod Undisturbed
pub mod Concurrent
pub mod Links
use sawos.Prelude.{List, [], ◌∷◌, ◌++◌, Option, none, some, if◌then◌else◌}
use sawos.Text.{Text, text_eq}
use sawos.Text.Format.{Fields}
use sawos.Toolchain.{Result, ok, err, os_error}

-- The files by their paths; a directory stands where files stand in it.
abbrev pub Files : Type 0
Files = Text → Option Text

-- A file written, or removed by `none`.
unfoldable pub put_file : Text → Option Text → Files → Files
unfolding text_eq
put_file path content files p = if text_eq path p then content else files p

-- What a command may write: one file, or those of a directory tree.
pub data Target : Type 0 where
  one_file : Text → Target
  tree : Text → Target

-- A command: its arguments, its directory if it is not the harness's, what is added to the
-- environment, and what it reads and writes of the files that the builds make.
pub record Command : Type 0 where
  pub argv : List Text
  pub cwd : Option Text
  pub env : Fields
  pub reads : List Text
  pub writes : Target

-- A value, a ToolError, or another exception.
pub data Built {ℓ} (A : Type ℓ) : Type ℓ where
  built : A → Built A
  tool_error : Built A
  escaped : Built A

-- `subprocess.run`: an exit status other than 0 is `tool_error`, a program that is not there is
-- `escaped`.
pub record Host : Type 0 where
  pub exec : Command → Files → Built (Unit {0}) × Files
  -- `os.listdir`; for a directory that is not there, nothing.
  pub list_dir : Text → Files → List Text

-- What a build does, in its order.
pub data Op : Type 0 where
  make_dir : Text → Op
  command : Command → Op
  copy_file : Text → Text → Op
  write_file : Text → Text → Op

-- A build does not look at what its commands leave: what it would do, and what it then returns.
abbrev pub Build {ℓ} : Type ℓ → Type ℓ
Build A = List Op × Built A

abbrev pub pure {ℓ} : {A : Type ℓ} → A → Build A
pure a = ([], built a)

abbrev pub does : Op → Build (Unit {0})
does op = (op ∷ [], built tt)

abbrev pub lift {ℓ} : {A : Type ℓ} → Result A → Build A
lift (ok a) = ([], built a)
lift (err e) = ([], escaped)
lift os_error = ([], escaped)

infixl 5 ◌>>=◌ ◌>>◌
abbrev pub ◌>>=◌ {ℓ κ} : {A : Type ℓ} {B : Type κ} → Build A → (A → Build B) → Build B
(ops, built a) >>= f = (ops ++ (f a).0, (f a).1)
(ops, tool_error) >>= f = (ops, tool_error)
(ops, escaped) >>= f = (ops, escaped)

abbrev pub ◌>>◌ {κ} : {B : Type κ} → Build (Unit {0}) → Build B → Build B
m >> k = m >>= λ _. k

-- `_run([...])` in the harness's own directory.
abbrev pub run : List Text → List Text → Text → Build (Unit {0})
run argv reads output = does (
    command (record { argv = argv; cwd = none; env = []; reads = reads; writes = one_file output }))

-- What follows a step that may raise; `stop` is what happens to the files all the same.
abbrev pub proceed {ℓ} :
    {A : Type ℓ}
    → Built (Unit {0})
    → Files
    → (Files → Built A × Files)
    → (Files → Files)
    → Built A × Files
proceed (built _) files go stop = go files
proceed tool_error files go stop = (tool_error, stop files)
proceed escaped files go stop = (escaped, stop files)

abbrev pub stay : Files → Files
stay files = files

-- `shutil.copyfile`; without its source it is an OSError.
abbrev pub copied : Option Text → Text → Files → Built (Unit {0}) × Files
copied none dst files = (escaped, files)
copied (some content) dst files = (built tt, put_file dst (some content) files)

module _ (host : Host) where
  unfoldable pub run_op : Op → Files → Built (Unit {0}) × Files
  unfolding put_file
  run_op (make_dir d) files = (built tt, files)
  run_op (command c) files = host.exec c files
  run_op (copy_file src dst) files = copied (files src) dst files
  run_op (write_file path content) files = (built tt, put_file path (some content) files)

  -- The operations up to the first that raises.
  unfoldable pub run_ops : List Op → Files → Built (Unit {0}) × Files
  unfolding run_op
  run_ops [] files = (built tt, files)
  run_ops (op ∷ ops) files =
      proceed (run_op op files).0 (run_op op files).1 (λ after. run_ops ops after) stay

  unfoldable pub run_build {ℓ} : {A : Type ℓ} → Build A → Files → Built A × Files
  unfolding run_ops
  run_build (ops, result) files =
      proceed (run_ops ops files).0 (run_ops ops files).1 (λ after. (result, after)) stay
