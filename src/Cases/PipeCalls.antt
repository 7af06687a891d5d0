-- ===== src/Cases/PipeCalls.antt =====
-- Cases of `TEST_CASES` in tools/sos_runner.py: calls over pipes.
-- A package constant stands here as the path that it is defined to be.
use sawos.Prelude.{true, false, List, [], ◌∷◌, some}
use sawos.Prelude.Int.{pos}
use sawos.Text.{Text, codes}
use sawos.Paths.{◌/+◌, kernel_dir, tests_dir}
use sawos.Case.{Case, plain_case, texts}

module _ (repo_root : Text) where
  abbrev process_stats : Case
  process_stats =
      record (plain_case (codes "process_stats") (kernel_dir repo_root /+ codes "main.saw")
        (texts (
          codes "{banner}"
          ∷ codes "SOS: boot regions={two}"
          ∷ codes "SOS stats: self delta=9 over 8 probes"
          ∷ codes "SOS: process exit: code={seven} process={one}"
          ∷ codes "SOS stats: child syscalls=8 faults=0"
          ∷ codes "SOS stats: minted without Stats"
          ∷ codes "SOS: process fault: access denied process={zero}"
          ∷ codes "SOS: process teardown handles="
          ∷ []))
        false) {
          root_pkg = some (tests_dir repo_root /+ codes "process-stats");
          children = (tests_dir repo_root /+ codes "child-stats") ∷ [];
          expect_status = some (pos 5);
        }

  abbrev pipe_pingpong : Case
  pipe_pingpong =
      record (plain_case (codes "pipe_pingpong") (kernel_dir repo_root /+ codes "main.saw")
        (texts (
          codes "{banner}"
          ∷ codes "SOS: boot regions={two}"
          ∷ codes "SOS: process exit: code={pingpong_mark} process={one}"
          ∷ codes "SOS pingpong: served=8 last request b=7,80,73,78"
          ∷ codes "SOS pingpong: client traps=11 for 8 round trips"
          ∷ codes "SOS pingpong: server traps=18 for 8 messages"
          ∷ codes "SOS pingpong: per RPC client=1 server=2"
          ∷ []))
        true) {
          root_pkg = some (tests_dir repo_root /+ codes "pipe-pingpong");
          children = (tests_dir repo_root /+ codes "child-pingpong") ∷ [];
        }

  abbrev pipe_call_abandon : Case
  pipe_call_abandon =
      record (plain_case (codes "pipe_call_abandon") (kernel_dir repo_root /+ codes "main.saw")
        (texts (
          codes "{banner}"
          ∷ codes "SOS: boot regions={two}"
          ∷ codes "SOS childcaller: calling"
          ∷ codes "SOS callabandon: dropped the obligation"
          ∷ codes "SOS callabandon: closed the server end"
          ∷ codes "SOS: process exit: code={caller_mark} process={one}"
          ∷ codes "SOS callabandon: child said both were closed"
          ∷ []))
        true) {
          root_pkg = some (tests_dir repo_root /+ codes "pipe-call-abandon");
          children = (tests_dir repo_root /+ codes "child-caller") ∷ [];
        }

  abbrev pipe_call_orphan : Case
  pipe_call_orphan =
      record (plain_case (codes "pipe_call_orphan") (kernel_dir repo_root /+ codes "main.saw")
        (texts (
          codes "{banner}"
          ∷ codes "SOS: boot regions={two}"
          ∷ codes "SOS callorphan: two calls in flight"
          ∷ codes "SOS callorphan: answered one"
          ∷ codes "SOS: process exit: code={orphan_mark} process={one}"
          ∷ codes
              "SOS callorphan: the orphaned claim answers the other end of this connection is gone"
          ∷ []))
        true) {
          root_pkg = some (tests_dir repo_root /+ codes "pipe-call-orphan");
          children = (tests_dir repo_root /+ codes "child-orphan") ∷ [];
        }

  abbrev pipe_no_call : Case
  pipe_no_call =
      record (plain_case (codes "pipe_no_call") (kernel_dir repo_root /+ codes "main.saw")
        (texts (
          codes "{banner}"
          ∷ codes "SOS nocall: minted without Post"
          ∷ codes "SOS: process fault: access denied process={zero}"
          ∷ []))
        false) {
          root_pkg = some (tests_dir repo_root /+ codes "pipe-no-call");
          expect_status = some (pos 5);
        }

  abbrev pipe_call_oversized : Case
  pipe_call_oversized =
      record (plain_case (codes "pipe_call_oversized") (kernel_dir repo_root /+ codes "main.saw")
        (texts (
          codes "{banner}"
          ∷ codes "SOS calloversized: calling with 129 bytes"
          ∷ codes "SOS: process fault: argument outside its domain process={zero}"
          ∷ []))
        false) {
          root_pkg = some (tests_dir repo_root /+ codes "pipe-call-oversized");
          expect_status = some (pos 5);
        }

  abbrev pipe_reply_wait_dead : Case
  pipe_reply_wait_dead =
      record (plain_case (codes "pipe_reply_wait_dead") (kernel_dir repo_root /+ codes "main.saw")
        (texts (
          codes "{banner}"
          ∷ codes "SOS replywaitdead: the client let its claim go"
          ∷ codes
              "SOS replywaitdead: reply_wait says the reply did not land: the other end of this connection is gone"
          ∷ codes "SOS replywaitdead: done"
          ∷ []))
        true) { root_pkg = some (tests_dir repo_root /+ codes "pipe-reply-wait-dead") }

  abbrev pipe_send_exit : Case
  pipe_send_exit =
      record (plain_case (codes "pipe_send_exit") (kernel_dir repo_root /+ codes "main.saw")
        (texts (
          codes "{banner}"
          ∷ codes "SOS: boot regions={two}"
          ∷ codes "SOS sendexit: created"
          ∷ codes
              "SOS: process teardown handles={two} threads={one} events={zero} waiters={zero} interrupts={zero} timers={zero} process={one}"
          ∷ codes "SOS sendexit: the sender is gone"
          ∷ codes "SOS sendexit: the dead sender's capability still works"
          ∷ []))
        true) {
          root_pkg = some (tests_dir repo_root /+ codes "pipe-send-exit");
          children = (tests_dir repo_root /+ codes "child-sender") ∷ [];
        }

  abbrev pipe_table_full : Case
  pipe_table_full =
      record (plain_case (codes "pipe_table_full") (kernel_dir repo_root /+ codes "main.saw")
        (texts (
          codes "{banner}"
          ∷ codes "SOS tablefull: probes=7 of 7"
          ∷ codes "SOS tablefull: one free slot is not enough, two deliver both"
          ∷ []))
        true) { root_pkg = some (tests_dir repo_root /+ codes "pipe-table-full") }

  abbrev pub pipe_calls_cases : List Case
  pipe_calls_cases =
      process_stats ∷ pipe_pingpong ∷ pipe_call_abandon ∷ pipe_call_orphan ∷ pipe_no_call
      ∷ pipe_call_oversized ∷ pipe_reply_wait_dead ∷ pipe_send_exit ∷ pipe_table_full ∷ []
