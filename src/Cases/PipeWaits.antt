-- ===== src/Cases/PipeWaits.antt =====
-- Cases of `TEST_CASES` in tools/sos_runner.py: waits on pipes.
-- A package constant stands here as the path that it is defined to be.
use sawos.Prelude.{true, false, List, [], ◌∷◌, some}
use sawos.Prelude.Int.{pos}
use sawos.Text.{Text, codes}
use sawos.Paths.{◌/+◌, kernel_dir, tests_dir}
use sawos.Case.{Case, plain_case, texts}

module _ (repo_root : Text) where
  abbrev pipe_wait_reply : Case
  pipe_wait_reply =
      record (plain_case (codes "pipe_wait_reply") (kernel_dir repo_root /+ codes "main.saw")
        (texts (
          codes "{banner}"
          ∷ codes "SOS waitreply: created"
          ∷ codes "SOS waitreply: reply len=2 b=90,89"
          ∷ codes "SOS waitreply: after delivery the other end of this connection is gone"
          ∷ codes "SOS waitreply: keyed a=11 b=22"
          ∷ codes "SOS waitreply: done"
          ∷ []))
        true) { root_pkg = some (tests_dir repo_root /+ codes "pipe-wait-reply") }

  abbrev pipe_wait_give : Case
  pipe_wait_give =
      record (plain_case (codes "pipe_wait_give") (kernel_dir repo_root /+ codes "main.saw")
        (texts (
          codes "{banner}"
          ∷ codes "SOS waitgive: created"
          ∷ codes "SOS waitgive: given reply len=1 b=7"
          ∷ codes "SOS waitgive: depth after delivery=16"
          ∷ codes "SOS waitgive: cancelled reply says the other end of this connection is gone"
          ∷ codes "SOS waitgive: done"
          ∷ []))
        true) { root_pkg = some (tests_dir repo_root /+ codes "pipe-wait-give") }

  abbrev pipe_wait_room : Case
  pipe_wait_room =
      record (plain_case (codes "pipe_wait_room") (kernel_dir repo_root /+ codes "main.saw")
        (texts (
          codes "{banner}"
          ∷ codes "SOS waitroom: created"
          ∷ codes "SOS waitroom: filled=16 then room says there is space"
          ∷ codes "SOS waitroom: room says the peer is gone"
          ∷ codes "SOS waitroom: done"
          ∷ []))
        true) { root_pkg = some (tests_dir repo_root /+ codes "pipe-wait-room") }

  abbrev pipe_wait_server : Case
  pipe_wait_server =
      record (plain_case (codes "pipe_wait_server") (kernel_dir repo_root /+ codes "main.saw")
        (texts (
          codes "{banner}"
          ∷ codes "SOS waitserver: created"
          ∷ codes "SOS waitserver: readable says a message"
          ∷ codes "SOS waitserver: readable says the peer is gone"
          ∷ codes "SOS waitserver: abandoned"
          ∷ codes "SOS waitserver: done"
          ∷ []))
        true) { root_pkg = some (tests_dir repo_root /+ codes "pipe-wait-server") }

  abbrev pipe_send_manual : Case
  pipe_send_manual =
      record (plain_case (codes "pipe_send_manual") (kernel_dir repo_root /+ codes "main.saw")
        (texts (
          codes "{banner}"
          ∷ codes "SOS: boot regions={two}"
          ∷ codes "SOS sendmanual: gave the outlet"
          ∷ codes "SOS childserver: replied"
          ∷ codes "SOS sendmanual: reply len=4 b=80,79,78,71"
          ∷ codes "SOS sendmanual: the round trip cost 4 traps"
          ∷ codes "SOS: process exit: code={four} process={one}"
          ∷ codes
              "SOS: process teardown handles={four} threads={one} events={zero} waiters={one} interrupts={zero} timers={zero} process={one}"
          ∷ codes "SOS sendmanual: fused reply len=4 b=80,79,78,71"
          ∷ codes "SOS sendmanual: ops manual=3 fused=1"
          ∷ codes "SOS sendmanual: filled=16 then room says there is space"
          ∷ codes "SOS sendmanual: timed out"
          ∷ codes "SOS sendmanual: after cancel the other end of this connection is gone"
          ∷ codes "SOS sendmanual: done"
          ∷ []))
        true) {
          root_pkg = some (tests_dir repo_root /+ codes "pipe-send-manual");
          children = (tests_dir repo_root /+ codes "child-server") ∷ [];
        }

  abbrev pipe_no_wait : Case
  pipe_no_wait =
      record (plain_case (codes "pipe_no_wait") (kernel_dir repo_root /+ codes "main.saw")
        (texts (
          codes "{banner}"
          ∷ codes "SOS nowait: minted without Wait"
          ∷ codes "SOS: process fault: access denied process={zero}"
          ∷ codes "SOS: process teardown handles="
          ∷ []))
        false) {
          root_pkg = some (tests_dir repo_root /+ codes "pipe-no-wait");
          expect_status = some (pos 5);
        }

  abbrev pipe_bad_mode : Case
  pipe_bad_mode =
      record (plain_case (codes "pipe_bad_mode") (kernel_dir repo_root /+ codes "main.saw")
        (texts (
          codes "{banner}"
          ∷ codes "SOS badmode: asking for flags 4"
          ∷ codes "SOS: process fault: argument outside its domain process={zero}"
          ∷ codes "SOS: process teardown handles="
          ∷ []))
        false) {
          root_pkg = some (tests_dir repo_root /+ codes "pipe-bad-mode");
          expect_status = some (pos 5);
        }

  abbrev pub pipe_waits_cases : List Case
  pipe_waits_cases =
      pipe_wait_reply ∷ pipe_wait_give ∷ pipe_wait_room ∷ pipe_wait_server ∷ pipe_send_manual
      ∷ pipe_no_wait ∷ pipe_bad_mode ∷ []
