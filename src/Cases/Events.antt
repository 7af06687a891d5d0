-- ===== src/Cases/Events.antt =====
-- Cases of `TEST_CASES` in tools/sos_runner.py: threads, events and interrupts.
-- A package constant stands here as the path that it is defined to be.
use sawos.Prelude.{true, false, List, [], ◌∷◌, some}
use sawos.Prelude.Int.{pos}
use sawos.Text.{Text, codes}
use sawos.Paths.{◌/+◌, kernel_dir, tests_dir}
use sawos.Case.{Case, plain_case, texts}

module _ (repo_root : Text) where
  abbrev root_server_boot : Case
  root_server_boot =
      record (plain_case (codes "root_server_boot") (kernel_dir repo_root /+ codes "main.saw")
        (texts (
          codes "{banner}"
          ∷ codes "root image ok segments={two}"
          ∷ codes "prio={prio}"
          ∷ codes "SOS root: hello from U-mode via a System op"
          ∷ codes "SOS root: boot handle 1"
          ∷ []))
        true) { root_pkg = some (repo_root /+ codes "root") }

  abbrev thread_basics : Case
  thread_basics =
      record (plain_case (codes "thread_basics") (kernel_dir repo_root /+ codes "main.saw")
        (texts (
          codes "{banner}"
          ∷ codes "SOS threads: two workers, status word 0"
          ∷ codes "ABABABAB"
          ∷ codes "SOS threads: joined a=11 b=22"
          ∷ codes "SOS: process teardown handles={ten} threads={three} events={zero} waiters={zero}"
          ∷ []))
        true) { root_pkg = some (tests_dir repo_root /+ codes "thread-basics") }

  abbrev thread_preempt : Case
  thread_preempt =
      record (plain_case (codes "thread_preempt") (tests_dir repo_root /+ codes "threads_timer.saw")
        (texts (
          codes "SOS M2: preemptive kernel up on"
          ∷ codes "AB"
          ∷ codes "BA"
          ∷ codes "AB"
          ∷ codes "SOS preempt: joined a=33 b=44"
          ∷ []))
        true) {
          root_pkg = some (tests_dir repo_root /+ codes "thread-preempt");
          strip_kernel_lines = true;
          overlapping_matches = true;
        }

  abbrev umode_bad_handle : Case
  umode_bad_handle =
      record (plain_case (codes "umode_bad_handle") (tests_dir repo_root /+ codes "umode.saw")
        (texts (
          codes "SOS M1: entering U-mode"
          ∷ codes "SOS: process fault: bad handle"
          ∷ codes "SOS: process teardown handles={three} threads={one}"
          ∷ []))
        false) { asm = some (codes "payload_badhandle.S"); expect_status = some (pos 5) }

  abbrev event_basics : Case
  event_basics =
      record (plain_case (codes "event_basics") (kernel_dir repo_root /+ codes "main.saw")
        (texts (
          codes "{banner}"
          ∷ codes "SOS events: signal-then-wait key=11 at-wait=4 after=0"
          ∷ codes "SOS events: second key=22 at-wait=8 after=0"
          ∷ codes "SOS events: or key=11 at-wait=3 after=0"
          ∷ codes "SOS events: detached word=8"
          ∷ codes "SOS events: counting key=33 at-wait=5 after=0 saturated=1"
          ∷ codes "SOS events: done"
          ∷ codes "SOS: process teardown handles={eight} threads={one} events={three} waiters={one}"
          ∷ []))
        true) { root_pkg = some (tests_dir repo_root /+ codes "event-basics") }

  abbrev event_wake : Case
  event_wake =
      record (plain_case (codes "event_wake") (kernel_dir repo_root /+ codes "main.saw")
        (texts (
          codes "{banner}"
          ∷ codes "SOS wake: worker started, parking"
          ∷ codes "SOS wake: worker signalling"
          ∷ codes "SOS wake: woke key=77 at-wait=1 after=4"
          ∷ codes "SOS wake: joined worker=99"
          ∷ []))
        true) { root_pkg = some (tests_dir repo_root /+ codes "event-wake") }

  abbrev umode_not_waitable : Case
  umode_not_waitable =
      record (plain_case (codes "umode_not_waitable") (tests_dir repo_root /+ codes "umode.saw")
        (texts (
          codes "SOS M1: entering U-mode"
          ∷ codes "SOS: process fault: not a waitable"
          ∷ codes "SOS: process teardown handles={four} threads={one} events={zero} waiters={one}"
          ∷ []))
        false) { asm = some (codes "payload_notwaitable.S"); expect_status = some (pos 5) }

  abbrev event_dupkey : Case
  event_dupkey =
      record (plain_case (codes "event_dupkey") (kernel_dir repo_root /+ codes "main.saw")
        (texts (
          codes "{banner}"
          ∷ codes "SOS dupkey: first attach ok"
          ∷ codes "SOS: process fault: an attachment already uses that key"
          ∷ codes "SOS: process teardown handles={seven} threads={one} events={two} waiters={one}"
          ∷ []))
        false) {
          root_pkg = some (tests_dir repo_root /+ codes "event-dupkey");
          expect_status = some (pos 5);
        }

  abbrev umode_bad_wait_buffer : Case
  umode_bad_wait_buffer =
      record (plain_case (codes "umode_bad_wait_buffer") (tests_dir repo_root /+ codes "umode.saw")
        (texts (
          codes "SOS M1: entering U-mode"
          ∷ codes "SOS: process fault: buffer is outside the process's memory"
          ∷ codes "SOS: process teardown handles={four} threads={one} events={zero} waiters={one}"
          ∷ []))
        false) { asm = some (codes "payload_badbuffer.S"); expect_status = some (pos 5) }

  abbrev umode_misaligned_wait_buffer : Case
  umode_misaligned_wait_buffer =
      record (plain_case (codes "umode_misaligned_wait_buffer")
        (tests_dir repo_root /+ codes "umode.saw")
        (texts (
          codes "SOS M1: entering U-mode"
          ∷ codes "SOS: process fault: buffer is not word-aligned"
          ∷ codes "SOS: process teardown handles={four} threads={one} events={zero} waiters={one}"
          ∷ []))
        false) { asm = some (codes "payload_misalignbuf.S"); expect_status = some (pos 5) }

  abbrev uart_echo_ns16550 : Case
  uart_echo_ns16550 =
      record (plain_case (codes "uart_echo_ns16550") (kernel_dir repo_root /+ codes "main.saw")
        (texts (
          codes "{banner}"
          ∷ codes "root image ok segments={two}"
          ∷ codes "SOS: boot regions={one}"
          ∷ codes "SOS: console handover"
          ∷ codes "SOS echo: window mapped"
          ∷ codes "SOS echo: driver up"
          ∷ codes "Zq7#"
          ∷ codes "SOS echo: done 4 bytes on line 10"
          ∷ []))
        true) {
          arches = some (codes "riscv32" ∷ codes "riscv32-flat" ∷ []);
          root_pkg = some (tests_dir repo_root /+ codes "uart-echo-ns16550");
          device = true;
          stdin = some (codes "Zq7#");
        }

  abbrev uart_echo_pl011 : Case
  uart_echo_pl011 =
      record (plain_case (codes "uart_echo_pl011") (kernel_dir repo_root /+ codes "main.saw")
        (texts (
          codes "{banner}"
          ∷ codes "root image ok segments={two}"
          ∷ codes "SOS: boot regions={one}"
          ∷ codes "SOS: console handover"
          ∷ codes "SOS echo: window mapped"
          ∷ codes "SOS echo: driver up"
          ∷ codes "Zq7#"
          ∷ codes "SOS echo: done 4 bytes on line 33"
          ∷ []))
        true) {
          arches = some (codes "arm64" ∷ []);
          root_pkg = some (tests_dir repo_root /+ codes "uart-echo-pl011");
          device = true;
          stdin = some (codes "Zq7#");
        }

  abbrev irq_bad_line : Case
  irq_bad_line =
      record (plain_case (codes "irq_bad_line") (kernel_dir repo_root /+ codes "main.saw")
        (texts (
          codes "{banner}"
          ∷ codes "SOS badline: binding a line this board lacks"
          ∷ codes "SOS: process fault: argument outside its domain"
          ∷ codes
              "SOS: process teardown handles={four} threads={one} events={zero} waiters={zero} interrupts={zero}"
          ∷ []))
        false) {
          root_pkg = some (tests_dir repo_root /+ codes "irq-badline");
          expect_status = some (pos 5);
        }

  abbrev irq_early_ack : Case
  irq_early_ack =
      record (plain_case (codes "irq_early_ack") (kernel_dir repo_root /+ codes "main.saw")
        (texts (
          codes "{banner}"
          ∷ codes "SOS earlyack: bound, acking without a fire"
          ∷ codes "SOS: process fault: object in the wrong state"
          ∷ codes
              "SOS: process teardown handles={five} threads={one} events={zero} waiters={zero} interrupts={one}"
          ∷ []))
        false) {
          root_pkg = some (tests_dir repo_root /+ codes "irq-earlyack");
          expect_status = some (pos 5);
        }

  abbrev pub events_cases : List Case
  events_cases =
      root_server_boot ∷ thread_basics ∷ thread_preempt ∷ umode_bad_handle ∷ event_basics
      ∷ event_wake ∷ umode_not_waitable ∷ event_dupkey ∷ umode_bad_wait_buffer
      ∷ umode_misaligned_wait_buffer ∷ uart_echo_ns16550 ∷ uart_echo_pl011 ∷ irq_bad_line
      ∷ irq_early_ack ∷ []
