-- ===== src/Cases/Platform.antt =====
-- Cases of `TEST_CASES` in tools/sos_runner.py: the tier word, the stats region, arenas and C.
-- A package constant stands here as the path that it is defined to be.
use sawos.Prelude.{true, false, List, [], ◌∷◌, some}
use sawos.Prelude.Int.{pos}
use sawos.Text.{Text, codes}
use sawos.Paths.{◌/+◌, kernel_dir, tests_dir}
use sawos.Arch.{isolated}
use sawos.Case.{Case, plain_case, texts}

module _ (repo_root : Text) where
  abbrev tier_word : Case
  tier_word =
      record (plain_case (codes "tier_word") (kernel_dir repo_root /+ codes "main.saw")
        (texts (
          codes "{banner}"
          ∷ codes "SOS tier: {tier}"
          ∷ codes "SOS tier: stable"
          ∷ codes "SOS tier: kernel boundary intact"
          ∷ codes "SOS: process fault: access denied process={zero}"
          ∷ codes "SOS: process teardown handles="
          ∷ []))
        false) {
          root_pkg = some (tests_dir repo_root /+ codes "tier-word");
          expect_status = some (pos 5);
        }

  abbrev stats_region : Case
  stats_region =
      record (plain_case (codes "stats_region") (kernel_dir repo_root /+ codes "main.saw")
        (texts (
          codes "{banner}"
          ∷ codes "SOS: boot regions={two}"
          ∷ codes "SOS statsregion: self row 0"
          ∷ codes "SOS statsregion: region delta 8"
          ∷ codes "SOS statsregion: op agrees"
          ∷ codes "SOS statsreader: my row 1"
          ∷ codes "SOS statsreader: launcher busier"
          ∷ codes "SOS statsregion: child exit 65578"
          ∷ codes "SOS statsregion: unmapped"
          ∷ codes "SOS statsregion: done"
          ∷ []))
        true) {
          root_pkg = some (tests_dir repo_root /+ codes "stats-region");
          children = (tests_dir repo_root /+ codes "stats-reader") ∷ [];
        }

  abbrev stats_region_ro : Case
  stats_region_ro =
      record (plain_case (codes "stats_region_ro") (kernel_dir repo_root /+ codes "main.saw")
        (texts (
          codes "{banner}"
          ∷ codes "SOS statsro: read ok"
          ∷ codes "SOS statsro: writing"
          ∷ codes "SOS: fault "
          ∷ []))
        false) {
          tier = some isolated;
          tier_reason =
              codes
                "a store into the kernel's read-only counter page must FAULT; a flat platform lets the write land";
          root_pkg = some (tests_dir repo_root /+ codes "stats-region-ro");
        }

  abbrev arena_small : Case
  arena_small =
      record (plain_case (codes "arena_small") (kernel_dir repo_root /+ codes "main.saw")
        (texts (
          codes "{banner}"
          ∷ codes "SOS arenasmall: 2 KiB ok"
          ∷ codes "SOS arenasmall: asking 16 KiB"
          ∷ codes "sos: out of arena memory"
          ∷ []))
        false) {
          root_pkg = some (tests_dir repo_root /+ codes "arena-small");
          expect_status = some (pos 65);
        }

  abbrev c_hello : Case
  c_hello =
      record (plain_case (codes "c_hello") (kernel_dir repo_root /+ codes "main.saw")
        (texts (
          codes "{banner}"
          ∷ codes "SOS: boot regions={two}"
          ∷ codes "SOS chello: started"
          ∷ codes "SOS cchild: hello from freestanding C"
          ∷ codes "SOS cchild: wrote 38 bytes"
          ∷ codes "SOS chello: woke status=65591"
          ∷ codes "SOS chello: done"
          ∷ []))
        true) {
          root_pkg = some (tests_dir repo_root /+ codes "c-hello");
          children = (tests_dir repo_root /+ codes "c-child") ∷ [];
        }

  abbrev pub platform_cases : List Case
  platform_cases = tier_word ∷ stats_region ∷ stats_region_ro ∷ arena_small ∷ c_hello ∷ []
