-- ===== src/Build/Image.antt =====
-- `_build_root_image` and `_root_image_path` of tools/sos_runner.py.
use sawos.Prelude.{Bool, List, [], ◌∷◌, none, some, if◌then◌else◌}
use sawos.Text.{Text, codes, ends_with}
use sawos.Paths.{◌/+◌}
use sawos.Arch.{Arch}
use sawos.Toolchain.{Toolchain}
use sawos.Build.{
  Files, put_file, Built, built, tool_error, escaped, Host, proceed, stay, tree, Command,
}
use sawos.Build.Shared.{blade_env}

abbrev pub is_image : Text → Bool
is_image name = ends_with (codes ".sosimg") name

-- `[f for f in names if f.endswith(".sosimg")]`
unfoldable pub images_of : List Text → List Text
unfolding ends_with
images_of [] = []
images_of (n ∷ ns) = if is_image n then n ∷ images_of ns else images_of ns

-- The loop over the stale images.
unfoldable pub remove_all : Text → List Text → Files → Files
unfolding put_file
remove_all dir [] files = files
remove_all dir (n ∷ ns) files = remove_all dir ns (put_file (dir /+ n) none files)

-- `os.path.join(pkg_dir, ".build", arch["triple"])`
abbrev pub out_dir : Text → Arch → Text
out_dir pkg_dir arch = pkg_dir /+ codes ".build" /+ arch.triple

abbrev pub blade_command : Text → Text → Arch → Toolchain → Text → Command
blade_command blade_bin pkg_dir arch tc clang = record {
  argv = blade_bin ∷ codes "build" ∷ codes "--force" ∷ codes "--target" ∷ arch.triple ∷ [];
  cwd = some pkg_dir;
  env = blade_env tc clang;
  reads = [];
  writes = tree (out_dir pkg_dir arch);
}

-- `if len(images) != 1: raise ToolError(...)`
abbrev pub the_image : Text → List Text → Built Text
the_image dir (n ∷ []) = built (dir /+ n)
the_image dir _ = tool_error

module _ (host : Host) where
  unfoldable pub build_root_image :
      Toolchain → Text → Text → Arch → Text → Files → Built Text × Files
  unfolding images_of remove_all
  build_root_image tc blade_bin pkg_dir arch clang files =
      let dir = out_dir pkg_dir arch in
      let swept = remove_all dir (images_of (host.list_dir dir files)) files in
      let (r, after) = host.exec (blade_command blade_bin pkg_dir arch tc clang) swept in
      proceed r after (λ f. (the_image dir (images_of (host.list_dir dir f)), f)) stay

  -- `_root_image_path`: `images[0]` of no image is an IndexError.
  abbrev pub first_image : Text → List Text → Built Text
  first_image dir [] = escaped
  first_image dir (n ∷ _) = built (dir /+ n)

  unfoldable pub root_image_path : Text → Arch → Files → Built Text
  unfolding images_of
  root_image_path pkg_dir arch files =
      first_image (out_dir pkg_dir arch) (images_of (host.list_dir (out_dir pkg_dir arch) files))
