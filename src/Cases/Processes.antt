-- ===== src/Cases/Processes.antt =====
-- Cases of `TEST_CASES` in tools/sos_runner.py: processes and handles.
-- A package constant stands here as the path that it is defined to be.
use sawos.Prelude.{true, false, List, [], ◌∷◌, some}
use sawos.Prelude.Int.{pos}
use sawos.Text.{Text, codes}
use sawos.Paths.{◌/+◌, kernel_dir, tests_dir}
use sawos.Arch.{isolated}
use sawos.Case.{Case, plain_case, texts}

module _ (repo_root : Text) where
  abbrev process_lifecycle : Case
  process_lifecycle =
      record (plain_case (codes "process_lifecycle") (kernel_dir repo_root /+ codes "main.saw")
        (texts (
          codes "{banner}"
          ∷ codes "SOS: boot regions={two}"
          ∷ codes "SOS lifecycle: boot regions tag0=0 tag1=1"
          ∷ codes "SOS lifecycle: created"
          ∷ codes "SOS lifecycle: started"
          ∷ codes "SOS: process fault: bad handle process={one}"
          ∷ codes
              "SOS: process teardown handles={zero} threads={one} events={zero} waiters={zero} interrupts={zero} timers={zero} process={one}"
          ∷ codes "SOS lifecycle: root survived child status=131073"
          ∷ codes "SOS lifecycle: done"
          ∷ []))
        true) {
          root_pkg = some (tests_dir repo_root /+ codes "process-lifecycle");
          children = (tests_dir repo_root /+ codes "child-fault") ∷ [];
        }

  abbrev process_isolation : Case
  process_isolation =
      record (plain_case (codes "process_isolation") (kernel_dir repo_root /+ codes "main.saw")
        (texts (
          codes "{banner}"
          ∷ codes "SOS isolation: started"
          ∷ codes "SOS: fault "
          ∷ codes
              "SOS: process teardown handles={zero} threads={one} events={zero} waiters={zero} interrupts={zero} timers={zero} process={one}"
          ∷ codes "SOS isolation: root survived child status=131072"
          ∷ codes "SOS isolation: child syscalls=0 faults=1"
          ∷ codes "SOS isolation: done"
          ∷ []))
        true) {
          tier = some isolated;
          tier_reason =
              codes
                "peer isolation is the property the Flat tier disclaims BY NAME (design 19) — the child's poke would land";
          root_pkg = some (tests_dir repo_root /+ codes "process-isolation");
          children = (tests_dir repo_root /+ codes "child-poke") ∷ [];
        }

  abbrev process_badimage : Case
  process_badimage =
      record (plain_case (codes "process_badimage") (kernel_dir repo_root /+ codes "main.saw")
        (texts (
          codes "{banner}"
          ∷ codes "SOS badimage: create refused: not a loadable process image"
          ∷ codes "SOS badimage: still running, exiting clean"
          ∷ []))
        true) {
          root_pkg = some (tests_dir repo_root /+ codes "process-badimage");
          children = (tests_dir repo_root /+ codes "child-fault") ∷ [];
        }

  abbrev process_doublestart : Case
  process_doublestart =
      record (plain_case (codes "process_doublestart") (kernel_dir repo_root /+ codes "main.saw")
        (texts (
          codes "{banner}"
          ∷ codes "SOS doublestart: started once"
          ∷ codes "SOS: process fault: object in the wrong state process={zero}"
          ∷ codes "SOS: process teardown handles="
          ∷ []))
        false) {
          root_pkg = some (tests_dir repo_root /+ codes "process-doublestart");
          children = (tests_dir repo_root /+ codes "child-fault") ∷ [];
          expect_status = some (pos 5);
        }

  abbrev process_bootdrain : Case
  process_bootdrain =
      record (plain_case (codes "process_bootdrain") (kernel_dir repo_root /+ codes "main.saw")
        (texts (
          codes "{banner}"
          ∷ codes "SOS: boot regions={two}"
          ∷ codes "SOS bootdrain: n=2 tags=1 kinds=0"
          ∷ codes "SOS bootdrain: exhausted, and still exhausted"
          ∷ codes "SOS bootdrain: done"
          ∷ []))
        true) {
          root_pkg = some (tests_dir repo_root /+ codes "process-bootdrain");
          children = (tests_dir repo_root /+ codes "child-fault") ∷ [];
        }

  abbrev handle_remint : Case
  handle_remint =
      record (plain_case (codes "handle_remint") (kernel_dir repo_root /+ codes "main.saw")
        (texts (
          codes "{banner}"
          ∷ codes "SOS remint: differs=1 reused=1"
          ∷ codes "SOS remint: using the word we gave back"
          ∷ codes "SOS: process fault: bad handle process={zero}"
          ∷ codes
              "SOS: process teardown handles={five} threads={one} events={zero} waiters={zero} interrupts={zero} timers={zero} process={zero}"
          ∷ []))
        false) {
          root_pkg = some (tests_dir repo_root /+ codes "handle-remint");
          expect_status = some (pos 5);
        }

  abbrev handle_release_ungated : Case
  handle_release_ungated =
      record (plain_case (codes "handle_release_ungated") (kernel_dir repo_root /+ codes "main.saw")
        (texts (
          codes "{banner}"
          ∷ codes "SOS release: ungated=1 refilled=1"
          ∷ codes "SOS release: done"
          ∷ codes
              "SOS: process teardown handles={five} threads={one} events={zero} waiters={zero} interrupts={zero} timers={zero} process={zero}"
          ∷ []))
        true) { root_pkg = some (tests_dir repo_root /+ codes "handle-release-ungated") }

  abbrev handle_release_nothing : Case
  handle_release_nothing =
      record (plain_case (codes "handle_release_nothing") (kernel_dir repo_root /+ codes "main.saw")
        (texts (
          codes "{banner}"
          ∷ codes "SOS releasenothing: releasing a word that names nothing"
          ∷ codes "SOS: process fault: bad handle process={zero}"
          ∷ codes
              "SOS: process teardown handles={three} threads={one} events={zero} waiters={zero} interrupts={zero} timers={zero} process={zero}"
          ∷ []))
        false) {
          root_pkg = some (tests_dir repo_root /+ codes "handle-release-nothing");
          expect_status = some (pos 5);
        }

  abbrev handle_release_twice : Case
  handle_release_twice =
      record (plain_case (codes "handle_release_twice") (kernel_dir repo_root /+ codes "main.saw")
        (texts (
          codes "{banner}"
          ∷ codes "SOS releasetwice: first release ok=1"
          ∷ codes "SOS releasetwice: releasing the same word again"
          ∷ codes "SOS: process fault: bad handle process={zero}"
          ∷ codes
              "SOS: process teardown handles={three} threads={one} events={zero} waiters={zero} interrupts={zero} timers={zero} process={zero}"
          ∷ []))
        false) {
          root_pkg = some (tests_dir repo_root /+ codes "handle-release-twice");
          expect_status = some (pos 5);
        }

  abbrev handle_malformed_word : Case
  handle_malformed_word =
      record (plain_case (codes "handle_malformed_word") (kernel_dir repo_root /+ codes "main.saw")
        (texts (
          codes "{banner}"
          ∷ codes "SOS malformed: releasing a word whose index field is zero"
          ∷ codes "SOS: process fault: bad handle process={zero}"
          ∷ codes
              "SOS: process teardown handles={three} threads={one} events={zero} waiters={zero} interrupts={zero} timers={zero} process={zero}"
          ∷ []))
        false) {
          root_pkg = some (tests_dir repo_root /+ codes "handle-malformed-word");
          expect_status = some (pos 5);
        }

  abbrev handle_drop_release : Case
  handle_drop_release =
      record (plain_case (codes "handle_drop_release") (kernel_dir repo_root /+ codes "main.saw")
        (texts (
          codes "{banner}"
          ∷ codes "SOS droprelease: scoped=3 kept=1"
          ∷ codes "SOS droprelease: done"
          ∷ codes
              "SOS: process teardown handles={five} threads={one} events={zero} waiters={zero} interrupts={zero} timers={zero} process={zero}"
          ∷ []))
        true) { root_pkg = some (tests_dir repo_root /+ codes "handle-drop-release") }

  abbrev process_reclaim : Case
  process_reclaim =
      record (plain_case (codes "process_reclaim") (kernel_dir repo_root /+ codes "main.saw")
        (texts (
          codes "{banner}"
          ∷ codes "SOS: boot regions={two}"
          ∷ codes "SOS reclaim: started"
          ∷ codes "SOS: process fault: bad handle process={one}"
          ∷ codes
              "SOS: process teardown handles={zero} threads={one} events={zero} waiters={zero} interrupts={zero} timers={zero} process={one}"
          ∷ codes "SOS reclaim: refused_before=1 reclaimed_after=1"
          ∷ codes "SOS reclaim: done"
          ∷ []))
        true) {
          root_pkg = some (tests_dir repo_root /+ codes "process-reclaim");
          children = (tests_dir repo_root /+ codes "child-fault") ∷ [];
        }

  abbrev pub processes_cases : List Case
  processes_cases =
      process_lifecycle ∷ process_isolation ∷ process_badimage ∷ process_doublestart
      ∷ process_bootdrain ∷ handle_remint ∷ handle_release_ungated ∷ handle_release_nothing
      ∷ handle_release_twice ∷ handle_malformed_word ∷ handle_drop_release ∷ process_reclaim ∷ []
