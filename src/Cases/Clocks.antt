-- ===== src/Cases/Clocks.antt =====
-- Cases of `TEST_CASES` in tools/sos_runner.py: clocks, timers and the root server.
-- A package constant stands here as the path that it is defined to be.
use sawos.Prelude.{true, false, List, [], ◌∷◌, some}
use sawos.Prelude.Int.{pos}
use sawos.Text.{Text, codes}
use sawos.Paths.{◌/+◌, kernel_dir, tests_dir}
use sawos.Arch.{isolated}
use sawos.Case.{Case, plain_case, texts}

module _ (repo_root : Text) where
  abbrev wait_deadlock : Case
  wait_deadlock =
      record (plain_case (codes "wait_deadlock") (kernel_dir repo_root /+ codes "main.saw")
        (texts (
          codes "{banner}"
          ∷ codes "SOS deadlock: waiting for a signal nobody sends"
          ∷ codes "SOS: process fault: every thread blocked"
          ∷ codes
              "SOS: process teardown handles={six} threads={one} events={one} waiters={one} interrupts={zero}"
          ∷ []))
        false) {
          root_pkg = some (tests_dir repo_root /+ codes "wait-deadlock");
          expect_status = some (pos 5);
        }

  abbrev clock_basics : Case
  clock_basics =
      record (plain_case (codes "clock_basics") (kernel_dir repo_root /+ codes "main.saw")
        (texts (
          codes "{banner}"
          ∷ codes "SOS clock: minted=1 differs=1"
          ∷ codes "SOS clock: monotonic=1"
          ∷ codes "SOS clock: advanced=1 spanned=1"
          ∷ codes "SOS clock: disarm_unarmed=1"
          ∷ codes "SOS clock: done"
          ∷ codes
              "SOS: process teardown handles={eight} threads={one} events={zero} waiters={zero} interrupts={zero} timers={one}"
          ∷ []))
        true) { root_pkg = some (tests_dir repo_root /+ codes "clock-basics") }

  abbrev timer_oneshot : Case
  timer_oneshot =
      record (plain_case (codes "timer_oneshot") (kernel_dir repo_root /+ codes "main.saw")
        (texts (
          codes "{banner}"
          ∷ codes "SOS oneshot: parking on a timer"
          ∷ codes "SOS oneshot: woke key=55 fires=1 slept=1"
          ∷ codes "SOS oneshot: rearmed woke fires=1"
          ∷ codes "SOS oneshot: done"
          ∷ codes
              "SOS: process teardown handles={seven} threads={one} events={zero} waiters={one} interrupts={zero} timers={one}"
          ∷ []))
        true) { root_pkg = some (tests_dir repo_root /+ codes "timer-oneshot") }

  abbrev timer_interval : Case
  timer_interval =
      record (plain_case (codes "timer_interval") (kernel_dir repo_root /+ codes "main.saw")
        (texts (
          codes "{banner}"
          ∷ codes "SOS interval: tick one fires="
          ∷ codes "SOS interval: tick two fires="
          ∷ codes "ackfree=1"
          ∷ codes "SOS interval: coalesced=1"
          ∷ codes "SOS interval: drained fires=1"
          ∷ codes "SOS interval: done"
          ∷ codes
              "SOS: process teardown handles={seven} threads={one} events={zero} waiters={one} interrupts={zero} timers={one}"
          ∷ []))
        true) { root_pkg = some (tests_dir repo_root /+ codes "timer-interval") }

  abbrev timer_deadlock : Case
  timer_deadlock =
      record (plain_case (codes "timer_deadlock") (kernel_dir repo_root /+ codes "main.saw")
        (texts (
          codes "{banner}"
          ∷ codes "SOS timerdead: waiting on a timer nobody armed"
          ∷ codes "SOS: process fault: every thread blocked"
          ∷ codes
              "SOS: process teardown handles={seven} threads={one} events={zero} waiters={one} interrupts={zero} timers={one}"
          ∷ []))
        false) {
          root_pkg = some (tests_dir repo_root /+ codes "timer-deadlock");
          expect_status = some (pos 5);
        }

  abbrev timer_badclock : Case
  timer_badclock =
      record (plain_case (codes "timer_badclock") (kernel_dir repo_root /+ codes "main.saw")
        (texts (
          codes "{banner}"
          ∷ codes "SOS badclock: asking for a domain that does not exist"
          ∷ codes "SOS: process fault: argument outside its domain"
          ∷ codes
              "SOS: process teardown handles={three} threads={one} events={zero} waiters={zero} interrupts={zero} timers={zero}"
          ∷ []))
        false) {
          root_pkg = some (tests_dir repo_root /+ codes "timer-badclock");
          expect_status = some (pos 5);
        }

  abbrev timer_badrecord : Case
  timer_badrecord =
      record (plain_case (codes "timer_badrecord") (kernel_dir repo_root /+ codes "main.saw")
        (texts (
          codes "{banner}"
          ∷ codes "SOS badrecord: arming with a short record"
          ∷ codes "SOS: process fault: argument outside its domain"
          ∷ codes
              "SOS: process teardown handles={five} threads={one} events={zero} waiters={zero} interrupts={zero} timers={one}"
          ∷ []))
        false) {
          root_pkg = some (tests_dir repo_root /+ codes "timer-badrecord");
          expect_status = some (pos 5);
        }

  abbrev event_consume : Case
  event_consume =
      record (plain_case (codes "event_consume") (kernel_dir repo_root /+ codes "main.saw")
        (texts (
          codes "{banner}"
          ∷ codes "SOS consume: or key=11 at-wait=3 after=0"
          ∷ codes "SOS consume: newbits key=11 at-wait=8 after=0"
          ∷ codes "SOS consume: sum key=22 at-wait=3 after=0"
          ∷ codes "SOS consume: done"
          ∷ codes "SOS: process teardown handles={seven} threads={one} events={two} waiters={one}"
          ∷ []))
        true) { root_pkg = some (tests_dir repo_root /+ codes "event-consume") }

  abbrev event_consume_wake : Case
  event_consume_wake =
      record (plain_case (codes "event_consume_wake") (kernel_dir repo_root /+ codes "main.saw")
        (texts (
          codes "{banner}"
          ∷ codes "SOS consumewake: initial parking"
          ∷ codes "SOS consumewake: worker signalling"
          ∷ codes "SOS consumewake: woke first key=41 at-wait=5 after=0"
          ∷ codes "SOS consumewake: worker second signal"
          ∷ codes "SOS consumewake: woke second key=41 at-wait=2"
          ∷ codes "SOS consumewake: joined worker=99"
          ∷ codes "events={two} waiters={two}"
          ∷ []))
        true) { root_pkg = some (tests_dir repo_root /+ codes "event-consume-wake") }

  abbrev root_server_oversteps : Case
  root_server_oversteps =
      record (plain_case (codes "root_server_oversteps") (kernel_dir repo_root /+ codes "main.saw")
        (texts (codes "SOS root: reaching for the kernel" ∷ codes "fault store-access-fault" ∷ []))
        false) {
          tier = some isolated;
          tier_reason =
              codes
                "root reaching into kernel memory must FAULT; a flat platform lets the store land";
          root_pkg = some (tests_dir repo_root /+ codes "faulting-root");
        }

  abbrev pub clocks_cases : List Case
  clocks_cases =
      wait_deadlock ∷ clock_basics ∷ timer_oneshot ∷ timer_interval ∷ timer_deadlock
      ∷ timer_badclock ∷ timer_badrecord ∷ event_consume ∷ event_consume_wake
      ∷ root_server_oversteps ∷ []
