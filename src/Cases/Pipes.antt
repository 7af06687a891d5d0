-- ===== src/Cases/Pipes.antt =====
-- Cases of `TEST_CASES` in tools/sos_runner.py: pipes.
-- A package constant stands here as the path that it is defined to be.
use sawos.Prelude.{true, false, List, [], ◌∷◌, some}
use sawos.Prelude.Int.{pos}
use sawos.Text.{Text, codes}
use sawos.Paths.{◌/+◌, kernel_dir, tests_dir}
use sawos.Case.{Case, plain_case, texts}

module _ (repo_root : Text) where
  abbrev pipe_basics : Case
  pipe_basics =
      record (plain_case (codes "pipe_basics") (kernel_dir repo_root /+ codes "main.saw")
        (texts (
          codes "{banner}"
          ∷ codes "SOS pipebasics: created"
          ∷ codes "SOS pipebasics: round trip len=3 b=65,66,67"
          ∷ codes "SOS pipebasics: fifo order=123"
          ∷ codes "SOS pipebasics: empty message len=0"
          ∷ codes "SOS pipebasics: ring depth=16"
          ∷ codes "SOS pipebasics: drained=16"
          ∷ codes "SOS pipebasics: take empty is none"
          ∷ codes "SOS pipebasics: done"
          ∷ []))
        true) { root_pkg = some (tests_dir repo_root /+ codes "pipe-basics") }

  abbrev pipe_peer_gone : Case
  pipe_peer_gone =
      record (plain_case (codes "pipe_peer_gone") (kernel_dir repo_root /+ codes "main.saw")
        (texts (
          codes "{banner}"
          ∷ codes "SOS peergone: outlet dropped"
          ∷ codes "SOS peergone: post says the other end of this connection is gone"
          ∷ codes "SOS peergone: staged 2"
          ∷ codes "SOS peergone: inlet dropped"
          ∷ codes "SOS peergone: drained a=7 b=8"
          ∷ codes "SOS peergone: take says the other end of this connection is gone"
          ∷ codes "SOS peergone: again says the other end of this connection is gone"
          ∷ codes "SOS peergone: done"
          ∷ []))
        true) { root_pkg = some (tests_dir repo_root /+ codes "pipe-peer-gone") }

  abbrev pipe_child : Case
  pipe_child =
      record (plain_case (codes "pipe_child") (kernel_dir repo_root /+ codes "main.saw")
        (texts (
          codes "{banner}"
          ∷ codes "SOS: boot regions={two}"
          ∷ codes "SOS pipechild: created"
          ∷ codes "SOS pipechild: gave the inlet"
          ∷ codes "SOS pipechild: started"
          ∷ codes "SOS childpost: posted"
          ∷ codes "SOS: process exit: code={four} process={one}"
          ∷ codes
              "SOS: process teardown handles={two} threads={one} events={zero} waiters={zero} interrupts={zero} timers={zero} process={one}"
          ∷ codes "SOS pipechild: received len=4 b=80,73,80,69"
          ∷ codes "SOS pipechild: done"
          ∷ []))
        true) {
          root_pkg = some (tests_dir repo_root /+ codes "pipe-child");
          children = (tests_dir repo_root /+ codes "child-post") ∷ [];
        }

  abbrev pipe_no_post : Case
  pipe_no_post =
      record (plain_case (codes "pipe_no_post") (kernel_dir repo_root /+ codes "main.saw")
        (texts (
          codes "{banner}"
          ∷ codes "SOS nopost: minted without Post"
          ∷ codes "SOS: process fault: access denied process={zero}"
          ∷ codes "SOS: process teardown handles="
          ∷ []))
        false) {
          root_pkg = some (tests_dir repo_root /+ codes "pipe-no-post");
          expect_status = some (pos 5);
        }

  abbrev pipe_oversized : Case
  pipe_oversized =
      record (plain_case (codes "pipe_oversized") (kernel_dir repo_root /+ codes "main.saw")
        (texts (
          codes "{banner}"
          ∷ codes "SOS oversized: asking for 129"
          ∷ codes "SOS: process fault: argument outside its domain process={zero}"
          ∷ codes "SOS: process teardown handles="
          ∷ []))
        false) {
          root_pkg = some (tests_dir repo_root /+ codes "pipe-oversized");
          expect_status = some (pos 5);
        }

  abbrev pipe_oneshot : Case
  pipe_oneshot =
      record (plain_case (codes "pipe_oneshot") (kernel_dir repo_root /+ codes "main.saw")
        (texts (
          codes "{banner}"
          ∷ codes "SOS oneshot: created"
          ∷ codes "SOS oneshot: request len=3 b=65,66,67"
          ∷ codes "SOS oneshot: pending is not ready"
          ∷ codes "SOS oneshot: reply len=2 b=90,89"
          ∷ codes "SOS oneshot: zero reply len=0"
          ∷ codes "SOS oneshot: the exchange cost 5 traps"
          ∷ codes "SOS oneshot: fifo replies a=11 b=22 c=33"
          ∷ codes "SOS oneshot: depth with one in flight=15"
          ∷ codes "SOS oneshot: depth settled=16"
          ∷ codes "SOS oneshot: done"
          ∷ []))
        true) { root_pkg = some (tests_dir repo_root /+ codes "pipe-oneshot") }

  abbrev pipe_abandon : Case
  pipe_abandon =
      record (plain_case (codes "pipe_abandon") (kernel_dir repo_root /+ codes "main.saw")
        (texts (
          codes "{banner}"
          ∷ codes "SOS abandon: created"
          ∷ codes "SOS abandon: reply says the other end of this connection is gone"
          ∷ codes "SOS abandon: resolve says the other end of this connection is gone"
          ∷ codes "SOS abandon: staged claim says the other end of this connection is gone"
          ∷ codes "SOS abandon: done"
          ∷ []))
        true) { root_pkg = some (tests_dir repo_root /+ codes "pipe-abandon") }

  abbrev pipe_delegate : Case
  pipe_delegate =
      record (plain_case (codes "pipe_delegate") (kernel_dir repo_root /+ codes "main.saw")
        (texts (
          codes "{banner}"
          ∷ codes "SOS: boot regions={two}"
          ∷ codes "SOS delegate: created"
          ∷ codes "SOS delegate: gave the request"
          ∷ codes "SOS childreply: replied"
          ∷ codes "SOS: process exit: code={four} process={one}"
          ∷ codes
              "SOS: process teardown handles={two} threads={one} events={zero} waiters={zero} interrupts={zero} timers={zero} process={one}"
          ∷ codes "SOS delegate: reply len=4 b=68,79,78,69"
          ∷ codes "SOS delegate: done"
          ∷ []))
        true) {
          root_pkg = some (tests_dir repo_root /+ codes "pipe-delegate");
          children = (tests_dir repo_root /+ codes "child-reply") ∷ [];
        }

  abbrev pipe_no_reply : Case
  pipe_no_reply =
      record (plain_case (codes "pipe_no_reply") (kernel_dir repo_root /+ codes "main.saw")
        (texts (
          codes "{banner}"
          ∷ codes "SOS noreply: minting a sibling of an obligation"
          ∷ codes "SOS: process fault: access denied process={zero}"
          ∷ codes "SOS: process teardown handles="
          ∷ []))
        false) {
          root_pkg = some (tests_dir repo_root /+ codes "pipe-no-reply");
          expect_status = some (pos 5);
        }

  abbrev pipe_big_reply : Case
  pipe_big_reply =
      record (plain_case (codes "pipe_big_reply") (kernel_dir repo_root /+ codes "main.saw")
        (texts (
          codes "{banner}"
          ∷ codes "SOS bigreply: asking for 129"
          ∷ codes "SOS: process fault: argument outside its domain process={zero}"
          ∷ codes "SOS: process teardown handles="
          ∷ []))
        false) {
          root_pkg = some (tests_dir repo_root /+ codes "pipe-big-reply");
          expect_status = some (pos 5);
        }

  abbrev pipe_dead_claim : Case
  pipe_dead_claim =
      record (plain_case (codes "pipe_dead_claim") (kernel_dir repo_root /+ codes "main.saw")
        (texts (
          codes "{banner}"
          ∷ codes "SOS deadclaim: the server let its obligation go"
          ∷ codes "SOS deadclaim: ready says the other end of this connection is gone"
          ∷ codes "SOS deadclaim: claim dropped unresolved"
          ∷ codes "SOS deadclaim: minting a sibling of a one-shot"
          ∷ codes "SOS: process fault: access denied process={zero}"
          ∷ codes "SOS: process teardown handles="
          ∷ []))
        false) {
          root_pkg = some (tests_dir repo_root /+ codes "pipe-dead-claim");
          expect_status = some (pos 5);
        }

  abbrev pub pipes_cases : List Case
  pipes_cases =
      pipe_basics ∷ pipe_peer_gone ∷ pipe_child ∷ pipe_no_post ∷ pipe_oversized ∷ pipe_oneshot
      ∷ pipe_abandon ∷ pipe_delegate ∷ pipe_no_reply ∷ pipe_big_reply ∷ pipe_dead_claim ∷ []
