-- ===== src/Cases/Memory.antt =====
-- Cases of `TEST_CASES` in tools/sos_runner.py: memory, mappings and quotas.
-- A package constant stands here as the path that it is defined to be.
use sawos.Prelude.{true, false, List, [], ◌∷◌, some}
use sawos.Prelude.Int.{pos}
use sawos.Text.{Text, codes}
use sawos.Paths.{◌/+◌, kernel_dir, tests_dir}
use sawos.Arch.{isolated}
use sawos.Case.{Case, plain_case, texts}

module _ (repo_root : Text) where
  abbrev memory_split : Case
  memory_split =
      record (plain_case (codes "memory_split") (kernel_dir repo_root /+ codes "main.saw")
        (texts (
          codes "{banner}"
          ∷ codes "SOS: boot regions={one}"
          ∷ codes "SOS split: a=170 b=187 a-again=170"
          ∷ codes "SOS split: cuts=20 refused=0"
          ∷ codes "SOS split: asking for more than is left"
          ∷ codes "SOS: process fault: argument outside its domain"
          ∷ codes "SOS: process teardown"
          ∷ []))
        false) {
          root_pkg = some (tests_dir repo_root /+ codes "memory-split");
          pool = true;
          expect_status = some (pos 5);
        }

  abbrev map_basics : Case
  map_basics =
      record (plain_case (codes "map_basics") (kernel_dir repo_root /+ codes "main.saw")
        (texts (
          codes "{banner}"
          ∷ codes "SOS: boot regions={one}"
          ∷ codes "SOS mapbasics: wrote 0x5a read 90"
          ∷ codes "SOS mapbasics: double-mapped read-only"
          ∷ codes "SOS mapbasics: still 90"
          ∷ codes "SOS mapbasics: done"
          ∷ []))
        true) { root_pkg = some (tests_dir repo_root /+ codes "map-basics"); pool = true }

  abbrev map_unmap : Case
  map_unmap =
      record (plain_case (codes "map_unmap") (kernel_dir repo_root /+ codes "main.saw")
        (texts (
          codes "{banner}"
          ∷ codes "SOS: boot regions={one}"
          ∷ codes "SOS mapunmap: wrote 0x77 read 119"
          ∷ codes "SOS mapunmap: unmapped"
          ∷ codes "SOS: fault "
          ∷ []))
        false) {
          tier = some isolated;
          tier_reason =
              codes
                "unmap's revocation half is the other property Flat disclaims by name — the touch after unmap would succeed";
          root_pkg = some (tests_dir repo_root /+ codes "map-unmap");
          pool = true;
        }

  abbrev map_into_child : Case
  map_into_child =
      record (plain_case (codes "map_into_child") (kernel_dir repo_root /+ codes "main.saw")
        (texts (
          codes "{banner}"
          ∷ codes "SOS: boot regions={three}"
          ∷ codes "SOS mapchild: created"
          ∷ codes "SOS mapchild: mapped a page into it"
          ∷ codes "SOS mapchild: started"
          ∷ codes "SOS childtouch: wrote 60 read 60"
          ∷ codes "SOS: process exit: code={touch_mark} process={one}"
          ∷ codes "SOS mapchild: root observed child status=65596"
          ∷ codes "SOS mapchild: done"
          ∷ []))
        true) {
          root_pkg = some (tests_dir repo_root /+ codes "map-into-child");
          children = (tests_dir repo_root /+ codes "child-touch") ∷ [];
          pool = true;
        }

  abbrev iomemory_carve : Case
  iomemory_carve =
      record (plain_case (codes "iomemory_carve") (kernel_dir repo_root /+ codes "main.saw")
        (texts (
          codes "{banner}"
          ∷ codes "SOS: boot regions={one}"
          ∷ codes "SOS carve: carved twice"
          ∷ codes "SOS carve: mapped"
          ∷ codes "SOS carve: asking for a window this board cannot grant"
          ∷ codes "SOS: process fault: argument outside its domain"
          ∷ codes "SOS: process teardown"
          ∷ []))
        false) {
          root_pkg = some (tests_dir repo_root /+ codes "iomemory-carve");
          device = true;
          expect_status = some (pos 5);
        }

  abbrev refcount_free : Case
  refcount_free =
      record (plain_case (codes "refcount_free") (kernel_dir repo_root /+ codes "main.saw")
        (texts (
          codes "{banner}"
          ∷ codes "SOS refcount: sibling word=42"
          ∷ codes "SOS refcount: attached key=77 word=9"
          ∷ codes "SOS refcount: done"
          ∷ codes
              "SOS: process teardown handles={five} threads={one} events={zero} waiters={one} interrupts={zero} timers={zero} process={zero}"
          ∷ []))
        true) { root_pkg = some (tests_dir repo_root /+ codes "refcount-free") }

  abbrev interrupt_unbind : Case
  interrupt_unbind =
      record (plain_case (codes "interrupt_unbind") (kernel_dir repo_root /+ codes "main.saw")
        (texts (
          codes "{banner}"
          ∷ codes "SOS irqunbind: bound line 5"
          ∷ codes "SOS irqunbind: rebound=1"
          ∷ codes
              "SOS: process teardown handles={five} threads={one} events={zero} waiters={zero} interrupts={one} timers={zero} process={zero}"
          ∷ []))
        true) { root_pkg = some (tests_dir repo_root /+ codes "interrupt-unbind") }

  abbrev mapping_slot_free : Case
  mapping_slot_free =
      record (plain_case (codes "mapping_slot_free") (kernel_dir repo_root /+ codes "main.saw")
        (texts (
          codes "{banner}"
          ∷ codes "SOS: boot regions={one}"
          ∷ codes "SOS mapfree: rounds=12 refused=0"
          ∷ codes "SOS mapfree: husk wrote 94 read 94"
          ∷ codes "SOS mapfree: recycled read 94"
          ∷ codes "SOS mapfree: done"
          ∷ codes "SOS: process teardown"
          ∷ []))
        true) { root_pkg = some (tests_dir repo_root /+ codes "mapping-slot-free"); pool = true }

  abbrev quota_exceeded : Case
  quota_exceeded =
      record (plain_case (codes "quota_exceeded") (kernel_dir repo_root /+ codes "main.saw")
        (texts (
          codes "{banner}"
          ∷ codes "SOS: boot regions={two}"
          ∷ codes "SOS quotaex: created"
          ∷ codes "SOS quotaex: started"
          ∷ codes "SOS childquota: made=4 quota=1 resumed=1"
          ∷ codes "SOS: process exit: code={four} process={one}"
          ∷ codes
              "SOS: process teardown handles={five} threads={one} events={three} waiters={zero} interrupts={zero} timers={zero} process={one}"
          ∷ codes "SOS quotaex: root observed child status=65540"
          ∷ codes "SOS quotaex: done"
          ∷ []))
        true) {
          root_pkg = some (tests_dir repo_root /+ codes "quota-exceeded");
          children = (tests_dir repo_root /+ codes "child-quota") ∷ [];
        }

  abbrev quota_vs_wall : Case
  quota_vs_wall =
      record (plain_case (codes "quota_vs_wall") (kernel_dir repo_root /+ codes "main.saw")
        (texts (
          codes "{banner}"
          ∷ codes "SOS: boot regions={three}"
          ∷ codes "SOS quotawall: created"
          ∷ codes "SOS quotawall: gave a page"
          ∷ codes "SOS quotawall: started"
          ∷ codes "SOS childmapwall: maps=2 quota=1"
          ∷ codes "SOS: process exit: code={two} process={one}"
          ∷ codes "SOS quotawall: root observed child status=65538"
          ∷ codes "SOS quotawall: done"
          ∷ []))
        true) {
          root_pkg = some (tests_dir repo_root /+ codes "quota-vs-wall");
          children = (tests_dir repo_root /+ codes "child-mapwall") ∷ [];
          pool = true;
        }

  abbrev pub memory_cases : List Case
  memory_cases =
      memory_split ∷ map_basics ∷ map_unmap ∷ map_into_child ∷ iomemory_carve ∷ refcount_free
      ∷ interrupt_unbind ∷ mapping_slot_free ∷ quota_exceeded ∷ quota_vs_wall ∷ []
