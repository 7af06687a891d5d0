-- ===== src/Cases/Donation.antt =====
-- Cases of `TEST_CASES` in tools/sos_runner.py: donated memory.
-- A package constant stands here as the path that it is defined to be.
use sawos.Prelude.{true, false, List, [], ◌∷◌, some}
use sawos.Prelude.Int.{pos}
use sawos.Text.{Text, codes}
use sawos.Paths.{◌/+◌, kernel_dir, tests_dir}
use sawos.Case.{Case, plain_case, texts}

module _ (repo_root : Text) where
  abbrev memory_recycle : Case
  memory_recycle =
      record (plain_case (codes "memory_recycle") (kernel_dir repo_root /+ codes "main.saw")
        (texts (
          codes "{banner}"
          ∷ codes "SOS: boot regions={three}"
          ∷ codes "SOS recycle: quarters=4"
          ∷ codes "SOS recycle: whole=1"
          ∷ codes "SOS childtouch: wrote 60 read 60"
          ∷ codes "SOS: process exit: code={touch_mark} process={one}"
          ∷ codes "SOS recycle: reused read 60"
          ∷ codes "SOS recycle: done"
          ∷ []))
        true) {
          root_pkg = some (tests_dir repo_root /+ codes "memory-recycle");
          children = (tests_dir repo_root /+ codes "child-touch") ∷ [];
          pool = true;
        }

  abbrev slab_donate : Case
  slab_donate =
      record (plain_case (codes "slab_donate") (kernel_dir repo_root /+ codes "main.saw")
        (texts (
          codes "{banner}"
          ∷ codes "SOS: boot regions={one}"
          ∷ codes "SOS slabdonate: floor=4 fifth refused: out of kernel objects"
          ∷ codes "SOS slabdonate: donated a page of waiters"
          ∷ codes "SOS slabdonate: fifth waiter created"
          ∷ codes "SOS slabdonate: extent waiter woke key=77 word=4"
          ∷ codes "SOS slabdonate: done"
          ∷ []))
        true) { root_pkg = some (tests_dir repo_root /+ codes "slab-donate"); pool = true }

  abbrev slab_donate_shared : Case
  slab_donate_shared =
      record (plain_case (codes "slab_donate_shared") (kernel_dir repo_root /+ codes "main.saw")
        (texts (
          codes "{banner}"
          ∷ codes "SOS: boot regions={one}"
          ∷ codes "SOS slabshared: minted a sibling"
          ∷ codes "SOS: process fault: object in the wrong state process={zero}"
          ∷ codes "SOS: process teardown handles="
          ∷ []))
        false) {
          root_pkg = some (tests_dir repo_root /+ codes "slab-donate-shared");
          pool = true;
          expect_status = some (pos 5);
        }

  abbrev map_placed : Case
  map_placed =
      record (plain_case (codes "map_placed") (kernel_dir repo_root /+ codes "main.saw")
        (texts (
          codes "{banner}"
          ∷ codes "SOS placed: created"
          ∷ codes "SOS placed: spacer at 1076101120"
          ∷ codes "SOS placed: root sees 1076105216"
          ∷ codes "SOS placed: wrote 195"
          ∷ codes "SOS placed: gave the region"
          ∷ codes "SOS placed: started"
          ∷ codes "SOS childplaced: mapped at 1076101120"
          ∷ codes "SOS childplaced: saw 195 wrote 45"
          ∷ codes "SOS placed: root observed child status=65731"
          ∷ codes "SOS placed: read back 45"
          ∷ codes "SOS placed: done"
          ∷ []))
        true) {
          root_pkg = some (tests_dir repo_root /+ codes "map-placed");
          children = (tests_dir repo_root /+ codes "child-placed") ∷ [];
          pool = true;
          arches = some (codes "arm64" ∷ []);
        }

  abbrev thread_donate : Case
  thread_donate =
      record (plain_case (codes "thread_donate") (kernel_dir repo_root /+ codes "main.saw")
        (texts (
          codes "{banner}"
          ∷ codes "SOS: boot regions={one}"
          ∷ codes "SOS threaddonate: floor=8 ninth refused: out of kernel objects"
          ∷ codes "SOS threaddonate: donated a page of threads"
          ∷ codes "SOS threaddonate: extent thread created"
          ∷ codes "TTT"
          ∷ codes "SOS threaddonate: extent thread joined code=33"
          ∷ codes "SOS threaddonate: done"
          ∷ []))
        true) { root_pkg = some (tests_dir repo_root /+ codes "thread-donate"); pool = true }

  abbrev pipe_donate : Case
  pipe_donate =
      record (plain_case (codes "pipe_donate") (kernel_dir repo_root /+ codes "main.saw")
        (texts (
          codes "{banner}"
          ∷ codes "SOS: boot regions={one}"
          ∷ codes "SOS pipedonate: floor=4 fifth refused: out of kernel objects"
          ∷ codes "SOS pipedonate: donated a region of pipes"
          ∷ codes "SOS pipedonate: fifth connection created"
          ∷ codes "SOS pipedonate: server took len=5 byte0=80"
          ∷ codes "SOS pipedonate: client resolved len=3 byte0=90"
          ∷ codes "SOS pipedonate: done"
          ∷ []))
        true) { root_pkg = some (tests_dir repo_root /+ codes "pipe-donate"); pool = true }

  abbrev slab_donate_mapped : Case
  slab_donate_mapped =
      record (plain_case (codes "slab_donate_mapped") (kernel_dir repo_root /+ codes "main.saw")
        (texts (
          codes "{banner}"
          ∷ codes "SOS: boot regions={three}"
          ∷ codes "SOS slabmapped: stamped witness=165"
          ∷ codes "SOS donor: donating a mapped region"
          ∷ codes "SOS: process fault: object in the wrong state process={one}"
          ∷ codes
              "SOS: process teardown handles={three} threads={one} events={zero} waiters={zero} interrupts={zero} timers={zero} process={one}"
          ∷ codes "SOS slabmapped: child faulted status=131077"
          ∷ codes "SOS slabmapped: witness still 165"
          ∷ codes "SOS slabmapped: done"
          ∷ []))
        true) {
          root_pkg = some (tests_dir repo_root /+ codes "slab-donate-mapped");
          children = (tests_dir repo_root /+ codes "child-donor") ∷ [];
          pool = true;
        }

  abbrev slab_donate_free_nodes : Case
  slab_donate_free_nodes =
      record (plain_case (codes "slab_donate_free_nodes") (kernel_dir repo_root /+ codes "main.saw")
        (texts (
          codes "{banner}"
          ∷ codes "SOS: boot regions={one}"
          ∷ codes "SOS slabnodes: pool trimmed to the construction"
          ∷ codes "SOS slabnodes: fragmented holes=32"
          ∷ codes "SOS slabnodes: released one more past the node slab"
          ∷ codes "SOS slabnodes: donated a page of free ranges"
          ∷ codes "SOS slabnodes: the range came back"
          ∷ codes "SOS: process fault: argument outside its domain process={zero}"
          ∷ codes "SOS: process teardown handles="
          ∷ []))
        false) {
          root_pkg = some (tests_dir repo_root /+ codes "slab-donate-free-nodes");
          pool = true;
          arches = some (codes "riscv32" ∷ codes "riscv32-flat" ∷ []);
          expect_status = some (pos 5);
        }

  abbrev process_donate : Case
  process_donate =
      record (plain_case (codes "process_donate") (kernel_dir repo_root /+ codes "main.saw")
        (texts (
          codes "{banner}"
          ∷ codes "SOS: boot regions={six}"
          ∷ codes "SOS procdonate: floor=3 third child refused: out of kernel objects"
          ∷ codes "SOS procdonate: donated a region of process slots"
          ∷ codes "SOS procdonate: third child created past the floor"
          ∷ codes "SOS procdonate: started three children"
          ∷ codes "SOS echo0: alive"
          ∷ codes "SOS echo1: alive"
          ∷ codes "SOS echo2: alive"
          ∷ codes "SOS procdonate: exits a=65577 b=65578 c=65579"
          ∷ codes "SOS procdonate: donated slot reused d=65579"
          ∷ codes "SOS procdonate: done"
          ∷ []))
        true) {
          root_pkg = some (tests_dir repo_root /+ codes "process-donate");
          children =
              (tests_dir repo_root /+ codes "echo-child")
              ∷ (tests_dir repo_root /+ codes "echo-child2")
              ∷ (tests_dir repo_root /+ codes "echo-child3")
              ∷ [];
        }

  abbrev pub donation_cases : List Case
  donation_cases =
      memory_recycle ∷ slab_donate ∷ slab_donate_shared ∷ map_placed ∷ thread_donate ∷ pipe_donate
      ∷ slab_donate_mapped ∷ slab_donate_free_nodes ∷ process_donate ∷ []
