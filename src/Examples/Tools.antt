-- ===== src/Examples/Tools.antt =====
-- The resolver and the fetch at concrete inputs. A tree is a number: 1 is the empty directory, and 7
-- is a checkout, to which the six commands bring it.
use sawos.Prelude.{
  ℕ, ◌+◌, ◌≤◌, ◌≡◌, ◌↔◌, ◌⊎◌, refl, true, false, List, [], ◌∷◌, Option, none, some, length, take,
  ◌==◌, ltb, map, if◌then◌else◌,
}
use sawos.Prelude.Int.{pos}
use sawos.Text.{Text, codes, text_eq}
use sawos.Text.Format.{Fields, field}
use sawos.Paths.{◌/+◌}
use sawos.Toolchain.{Toolchain, ok}
use sawos.Toolchain.Os.{Os, Disk, succeeded, exited, looks_like_sawlang, write}
use sawos.Text.Split.{has}
use sawos.Toolchain.Pin.{read_pin, read_line, put}
use sawos.Toolchain.Written.{PinLine, blank, says, written, said, ReadsPin, read_pin-ReadsPin}
use sawos.Toolchain.Fetch.{fetch, plan, run_plan, step, partial_of, cache_root, commands, done}
use sawos.Toolchain.Atomic.{partial-ne, interrupted-keeps}
use sawos.Toolchain.Complete.{fetch-ok}
use sawos.Toolchain.Commands.{build}
use sawos.Toolchain.Version.{check_version, check_version-pinned, probe_version}
use sawos.Toolchain.Resolve.{
  resolve, resolve_root, Env, named_argv, named_or_path, on_path, fetch_or_refuse, sawc_from_root,
}
use sawos.Toolchain.Steps.{Answered, resolve-Answered}

unfoldable not_sawc : Text → Option Text
unfolding text_eq
not_sawc name = elim (text_eq name (codes "sawc")) [
  | true ↦ none
  | false ↦ some (codes "/usr/bin/tool")
]

abbrev test_os : Os ℕ
test_os = record {
  absolute = λ p. p;
  expand_user = λ p. codes "/home";
  has_compiler = λ n. n == 7;
  has_venv = λ n. n == 7;
  which = λ name. not_sawc name;
  version_run =
      λ argv. some (record { returncode = pos 0; stdout = codes "sawc 0.8.0\n"; stderr = [] });
  command = λ argv n. (succeeded, n + 1);
  remains = λ n. none;
  empty_tree = 1;
  is_empty = λ n. n == 1;
  executable = codes "/usr/bin/python3";
}

-- The third command fails.
abbrev failing_os : Os ℕ
failing_os = record test_os { command = λ argv n. (if ltb n 3 then succeeded else exited, n + 1) }

abbrev no_trees : Disk ℕ
no_trees p = none

abbrev no_variables : Env
no_variables name = none

abbrev pin_text : List Text
pin_text = codes "# the compiler\n" ∷ codes "version = 0.8.0\n" ∷ codes "sha = abc\n" ∷ []

abbrev pinned : Fields
pinned = (codes "version", codes "0.8.0") ∷ (codes "sha", codes "abc") ∷ []

abbrev abc_dir : Text
abc_dir = codes "/home/abc"

-- The same pin, with more comments and quotes.
abbrev pin_lines : List PinLine
pin_lines =
    record { content = blank []; comment = some (codes " the compiler\n") }
    ∷ record {
      content = says [] (codes "version") (codes " ") (codes " ") 1 (codes "0.8.0") 1 (codes " ");
      comment = some (codes " = pinned\n");
    }
    ∷ record {
      content = says (codes " ") (codes "sha") [] [] 0 (codes "abc") 0 (codes "\n");
      comment = none;
    }
    ∷ []

read_pin-ReadsPin_example :
    ReadsPin none (read_pin (some (map written pin_lines))) (λ k. said k pin_lines none)
unfolding has
read_pin-ReadsPin_example = read_pin-ReadsPin pin_lines (
  (tt, refl),
  (
    (
      ((tt, (refl, tt), (refl, tt), (refl, tt)), (refl, refl), refl, (refl, refl), (refl, refl)),
      refl,
    ),
    (
      ((((refl, tt), tt, tt, (refl, tt)), (refl, refl), refl, (refl, refl), (refl, refl)), refl),
      tt,
    ),
  ),
)

interrupted-keeps_example :
    ((run_plan test_os
          (partial_of abc_dir)
          abc_dir
          (take 4 (plan (codes "abc") (partial_of abc_dir)))
          no_trees).1
        abc_dir
      ≡ no_trees abc_dir)
    ⊎ ((length (plan (codes "abc") (partial_of abc_dir)) ≤ 4)
        × ((run_plan test_os
              (partial_of abc_dir)
              abc_dir
              (take 4 (plan (codes "abc") (partial_of abc_dir)))
              no_trees).0
            ≡ done))
interrupted-keeps_example =
    interrupted-keeps test_os (partial_of abc_dir) abc_dir (partial-ne abc_dir) (codes "abc")
      no_trees 4

fetch-ok_example :
    (abc_dir ≡ cache_root test_os no_variables /+ codes "abc")
    × ((tree : ℕ) × (build test_os (commands (codes "abc") (partial_of abc_dir)) 1 ≡ some tree)
        × ((fetch test_os no_variables (codes "abc") no_trees).1 abc_dir ≡ some tree))
unfolding fetch not_sawc looks_like_sawlang ◌/+◌ cache_root run_plan plan step write
fetch-ok_example = fetch-ok test_os no_variables (codes "abc") no_trees refl abc_dir refl

abbrev fetch_argv : List Text
fetch_argv =
    codes "git"
    ∷ codes "fetch"
    ∷ codes "--quiet"
    ∷ codes "--depth"
    ∷ codes "1"
    ∷ codes "origin"
    ∷ codes "abc"
    ∷ []

check_version-pinned_example :
    (check_version test_os (codes "sawc" ∷ []) (some pinned) (codes "sawc") [] ≡ ok []) ↔ (
      (probe_version test_os (codes "sawc" ∷ []) ≡ some (codes "0.8.0"))
      × (◌≡◌ {A = List Text} [] []))
unfolding field
check_version-pinned_example =
    check_version-pinned test_os (codes "sawc" ∷ []) (some pinned) (codes "sawc") [] []
      (codes "0.8.0") refl

abbrev fetched_tc : Toolchain
fetched_tc = record {
  sawc_argv = codes "/home/abc/.venv/bin/python" ∷ codes "/home/abc/sawc/sawc.py" ∷ [];
  source = codes "fetch";
  root = some abc_dir;
  blade_bin = none;
  notes = [];
}

resolve_answer :
    (resolve test_os no_variables (codes "/repo") (some pin_text) no_trees).0 ≡ ok fetched_tc
unfolding resolve not_sawc read_pin read_line resolve_root named_or_path named_argv on_path
    fetch_or_refuse field put fetch sawc_from_root looks_like_sawlang ◌/+◌ cache_root run_plan plan
    step write
resolve_answer = refl

resolve-Answered_example :
    (pin : Option Fields) × (root : Option Text) × (read_pin (some pin_text) ≡ ok pin)
    × (resolve_root test_os no_variables (codes "/repo") no_trees ≡ ok root)
    × Answered test_os no_variables (codes "/repo") no_trees pin root fetched_tc
resolve-Answered_example =
    resolve-Answered test_os no_variables (codes "/repo") no_trees (some pin_text) fetched_tc
      resolve_answer
