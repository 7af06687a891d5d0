-- ===== src/Toolchain/Resolve.antt =====
-- `resolve` of tools/toolchain.py: the four steps, in their order.
use sawos.Prelude.{false, List, [], ◌∷◌, ◌++◌, Option, none, some, if◌then◌else◌}
use sawos.Text.{Text, codes, join}
use sawos.Text.Format.{Fields, field}
use sawos.Text.Split.{words}
use sawos.Paths.{◌/+◌}
use sawos.Toolchain.{
  Toolchain, Result, ok, err, os_error, truthy, not_a_checkout, no_toolchain, ◌>>=◌,
}
use sawos.Toolchain.Pin.{read_pin}
use sawos.Toolchain.Os.{Os, Disk, looks_like_sawlang}
use sawos.Toolchain.Fetch.{fetch}
use sawos.Toolchain.Version.{check_version}

abbrev pub Env : Type 0
Env = Text → Option Text

module _ {C : Type 0} (os : Os C) (env : Env) (consumer_root : Text) where
  -- `_resolve_root`
  unfoldable pub resolve_root : Disk C → Result (Option Text)
  resolve_root disk = elim (truthy (env (codes "SAWLANG_ROOT"))) [
    | some named ↦
        let path = os.absolute named in
        if looks_like_sawlang os disk path then ok (some path) else err (not_a_checkout path)
    | none ↦ ok (if looks_like_sawlang os disk consumer_root then some consumer_root else none)
  ]

  -- `_sawc_from_root`
  unfoldable pub sawc_from_root : Disk C → Text → List Text
  sawc_from_root disk root =
      (if (elim (disk root) [ none ↦ false | some tree ↦ os.has_venv tree ])
        then root /+ codes ".venv" /+ codes "bin" /+ codes "python"
        else os.executable)
      ∷ (root /+ codes "sawc" /+ codes "sawc.py")
      ∷ []

  -- `SAWC`, else the root's compiler; `[]` is also for `None`, since both are false.
  unfoldable pub named_argv : Disk C → Option Text → List Text
  named_argv disk root = elim (truthy (env (codes "SAWC"))) [
    | some sawc ↦ words sawc
    | none ↦ elim root [ some r ↦ sawc_from_root disk r | none ↦ [] ]
  ]

  -- The names that step 1 answered by.
  unfoldable pub named_by : Option Text → List Text
  named_by root =
      (elim (truthy (env (codes "SAWC"))) [ some _ ↦ codes "SAWC" ∷ [] | none ↦ [] ])
      ++ ((elim (truthy (env (codes "BLADE"))) [ some _ ↦ codes "BLADE" ∷ [] | none ↦ [] ])
          ++ (elim (truthy (env (codes "SAWLANG_ROOT"))) [
            | some _ ↦ codes "SAWLANG_ROOT" ∷ []
            | none ↦ elim root [ some _ ↦ codes "this checkout" ∷ [] | none ↦ [] ]
          ]))

  abbrev pub env_refusal : Text
  env_refusal = codes "SAWLANG_ROOT, SAWC and BLADE are all unset"

  -- Why there was nothing to fetch.
  abbrev pub fetch_refusal : Option Fields → Text
  fetch_refusal none = codes "no sawlang.pin here"
  fetch_refusal (some pin) = codes "sawlang.pin names no `sha`"

  abbrev pub pinned_sha : Option Fields → Option Text
  pinned_sha none = none
  pinned_sha (some pin) = truthy (field pin (codes "sha"))

  -- `named_blade or path_blade`
  abbrev pub or_else : Option Text → Option Text → Option Text
  or_else (some a) b = some a
  or_else none b = b

  abbrev pub fetched : Result Text × Disk C → Result Toolchain × Disk C
  fetched (ok path, disk) = (
    ok (record {
      sawc_argv = sawc_from_root disk path;
      source = codes "fetch";
      root = some path;
      blade_bin = env (codes "BLADE");
      notes = [];
    }),
    disk,
  )
  fetched (err e, disk) = (err e, disk)
  fetched (os_error, disk) = (os_error, disk)

  -- Steps 3 and 4.
  unfoldable pub fetch_or_refuse : Option Fields → Disk C → Result Toolchain × Disk C
  fetch_or_refuse pin disk = elim (pinned_sha pin) [
    | some sha ↦ fetched (fetch os env sha disk)
    | none ↦
        (err (no_toolchain env_refusal (codes "no `sawc` on your PATH") (fetch_refusal pin)), disk)
  ]

  -- Step 2.
  unfoldable pub on_path : Option Fields → Disk C → Result Toolchain × Disk C
  on_path pin disk = elim (os.which (codes "sawc")) [
    | none ↦ fetch_or_refuse pin disk
    | some sawc ↦ (
      (do
        notes ← check_version os (sawc ∷ []) pin sawc []
        ok (record {
          sawc_argv = sawc ∷ [];
          source = codes "PATH";
          root = none;
          blade_bin = or_else (truthy (env (codes "BLADE"))) (os.which (codes "blade"));
          notes = notes;
        })),
      disk,
    )
  ]

  -- Step 1, with the checkout that it found.
  unfoldable pub named_or_path : Option Fields → Option Text → Disk C → Result Toolchain × Disk C
  named_or_path pin root disk = elim (named_argv disk root) [
    | [] ↦ on_path pin disk
    | a ∷ argv ↦ (
      ok (record {
        sawc_argv = a ∷ argv;
        source = join (codes " + ") (named_by root);
        root = root;
        blade_bin = env (codes "BLADE");
        notes = [];
      }),
      disk,
    )
  ]

  abbrev with_root : Option Fields → Disk C → Result (Option Text) → Result Toolchain × Disk C
  with_root pin disk (ok root) = named_or_path pin root disk
  with_root pin disk (err e) = (err e, disk)
  with_root pin disk os_error = (os_error, disk)

  abbrev with_pin : Disk C → Result (Option Fields) → Result Toolchain × Disk C
  with_pin disk (ok pin) = with_root pin disk (resolve_root disk)
  with_pin disk (err e) = (err e, disk)
  with_pin disk os_error = (os_error, disk)

  -- `pin_lines` are the lines of `<consumer_root>/sawlang.pin`, `none` if it is not there.
  unfoldable pub resolve : Option (List Text) → Disk C → Result Toolchain × Disk C
  resolve pin_lines disk = with_pin disk (read_pin pin_lines)
