-- ===== src/Cases/PipeHandles.antt =====
-- Cases of `TEST_CASES` in tools/sos_runner.py: handles over pipes.
-- A package constant stands here as the path that it is defined to be.
use sawos.Prelude.{true, false, List, [], ◌∷◌, some}
use sawos.Prelude.Int.{pos}
use sawos.Text.{Text, codes}
use sawos.Paths.{◌/+◌, kernel_dir, tests_dir}
use sawos.Case.{Case, plain_case, texts}

module _ (repo_root : Text) where
  abbrev pipe_handles : Case
  pipe_handles =
      record (plain_case (codes "pipe_handles") (kernel_dir repo_root /+ codes "main.saw")
        (texts (
          codes "{banner}"
          ∷ codes "SOS: boot regions={two}"
          ∷ codes "SOS handles: the post moved the entry and the take was the child's"
          ∷ codes "SOS handles: the answer came back through the subscription"
          ∷ []))
        true) {
          root_pkg = some (tests_dir repo_root /+ codes "pipe-handles");
          children = (tests_dir repo_root /+ codes "child-handles") ∷ [];
        }

  abbrev pipe_delegate_msg : Case
  pipe_delegate_msg =
      record (plain_case (codes "pipe_delegate_msg") (kernel_dir repo_root /+ codes "main.saw")
        (texts (
          codes "{banner}"
          ∷ codes "SOS: boot regions={two}"
          ∷ codes "SOS delegatemsg: forwarded the obligation"
          ∷ codes "SOS delegatemsg: reply len=4 b=68,79,78,69"
          ∷ codes "SOS delegatemsg: the answer came from a process root never told about the pipe"
          ∷ codes "SOS delegatemsg: the reply carried an end back"
          ∷ []))
        true) {
          root_pkg = some (tests_dir repo_root /+ codes "pipe-delegate-msg");
          children = (tests_dir repo_root /+ codes "child-handles") ∷ [];
        }

  abbrev pipe_cq : Case
  pipe_cq =
      record (plain_case (codes "pipe_cq") (kernel_dir repo_root /+ codes "main.saw")
        (texts (
          codes "{banner}"
          ∷ codes "SOS: boot regions={two}"
          ∷ codes "SOS cq: served=8 last request b=7,80,73,78"
          ∷ codes "SOS cq: server traps=10 for 8 messages"
          ∷ codes "SOS cq: per RPC client=1 server=1"
          ∷ codes "SOS cq: the delivery was the take"
          ∷ []))
        true) {
          root_pkg = some (tests_dir repo_root /+ codes "pipe-cq");
          children = (tests_dir repo_root /+ codes "child-pingpong") ∷ [];
        }

  abbrev give_keep_mask : Case
  give_keep_mask =
      record (plain_case (codes "give_keep_mask") (kernel_dir repo_root /+ codes "main.saw")
        (texts (
          codes "{banner}"
          ∷ codes "SOS: boot regions={two}"
          ∷ codes "SOS childnarrow: posted through the wide end"
          ∷ codes "SOS keepmask: a bit the source lacks was ignored, not refused"
          ∷ codes "SOS keepmask: the narrowed end could not post"
          ∷ codes "SOS keepmask: derived a Process handle without Stats"
          ∷ codes "SOS: process fault: access denied process={zero}"
          ∷ []))
        false) {
          root_pkg = some (tests_dir repo_root /+ codes "give-keep-mask");
          children = (tests_dir repo_root /+ codes "child-narrow") ∷ [];
          expect_status = some (pos 5);
        }

  abbrev pipe_resolve_park : Case
  pipe_resolve_park =
      record (plain_case (codes "pipe_resolve_park") (kernel_dir repo_root /+ codes "main.saw")
        (texts (
          codes "{banner}"
          ∷ codes "SOS: boot regions={two}"
          ∷ codes "SOS resolvepark: gave the outlet"
          ∷ codes "SOS childserver: replied"
          ∷ codes "SOS resolvepark: reply len=4 b=80,79,78,71"
          ∷ codes "SOS resolvepark: fused reply len=4 b=80,79,78,71"
          ∷ codes "SOS resolvepark: ops resolve=2 fused=1"
          ∷ codes "SOS resolvepark: done"
          ∷ []))
        true) {
          root_pkg = some (tests_dir repo_root /+ codes "pipe-resolve-park");
          children = (tests_dir repo_root /+ codes "child-server") ∷ [];
        }

  abbrev pipe_resolve_orphan : Case
  pipe_resolve_orphan =
      record (plain_case (codes "pipe_resolve_orphan") (kernel_dir repo_root /+ codes "main.saw")
        (texts (
          codes "{banner}"
          ∷ codes "SOS: boot regions={two}"
          ∷ codes "SOS resolveorphan: two resolves in flight"
          ∷ codes "SOS resolveorphan: answered one"
          ∷ codes "SOS: process exit: code={resolve_orphan_mark} process={one}"
          ∷ codes
              "SOS resolveorphan: the orphaned claim answers the other end of this connection is gone"
          ∷ []))
        true) {
          root_pkg = some (tests_dir repo_root /+ codes "pipe-resolve-orphan");
          children = (tests_dir repo_root /+ codes "child-resolver") ∷ [];
        }

  abbrev pub pipe_handles_cases : List Case
  pipe_handles_cases =
      pipe_handles ∷ pipe_delegate_msg ∷ pipe_cq ∷ give_keep_mask ∷ pipe_resolve_park
      ∷ pipe_resolve_orphan ∷ []
