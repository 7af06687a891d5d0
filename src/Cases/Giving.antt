-- ===== src/Cases/Giving.antt =====
-- Cases of `TEST_CASES` in tools/sos_runner.py: gives, tags and children.
-- A package constant stands here as the path that it is defined to be.
use sawos.Prelude.{true, false, List, [], ◌∷◌, some}
use sawos.Prelude.Int.{pos}
use sawos.Text.{Text, codes}
use sawos.Paths.{◌/+◌, kernel_dir, tests_dir}
use sawos.Case.{Case, plain_case, texts}

module _ (repo_root : Text) where
  abbrev give_boot_drain : Case
  give_boot_drain =
      record (plain_case (codes "give_boot_drain") (kernel_dir repo_root /+ codes "main.saw")
        (texts (
          codes "{banner}"
          ∷ codes "SOS: boot regions={two}"
          ∷ codes "SOS givedrain: created"
          ∷ codes "SOS givedrain: minted a masked System"
          ∷ codes "SOS givedrain: gave 7 3 5"
          ∷ codes "SOS givedrain: started"
          ∷ codes "SOS childdrain: n=2 tags=35 kinds=0"
          ∷ codes "SOS: process exit: code={two} process={one}"
          ∷ codes
              "SOS: process teardown handles={two} threads={one} events={zero} waiters={zero} interrupts={zero} timers={zero} process={one}"
          ∷ codes "SOS givedrain: root observed child status=65538"
          ∷ codes "SOS givedrain: done"
          ∷ []))
        true) {
          root_pkg = some (tests_dir repo_root /+ codes "give-boot-drain");
          children = (tests_dir repo_root /+ codes "child-drain") ∷ [];
        }

  abbrev give_duplicate_tag : Case
  give_duplicate_tag =
      record (plain_case (codes "give_duplicate_tag") (kernel_dir repo_root /+ codes "main.saw")
        (texts (
          codes "{banner}"
          ∷ codes "SOS givedup: first give ok"
          ∷ codes "SOS: process fault: an attachment already uses that key process={zero}"
          ∷ codes "SOS: process teardown handles="
          ∷ []))
        false) {
          root_pkg = some (tests_dir repo_root /+ codes "give-duplicate-tag");
          children = (tests_dir repo_root /+ codes "child-fault") ∷ [];
          expect_status = some (pos 5);
        }

  abbrev give_after_start : Case
  give_after_start =
      record (plain_case (codes "give_after_start") (kernel_dir repo_root /+ codes "main.saw")
        (texts (
          codes "{banner}"
          ∷ codes "SOS giveafter: started"
          ∷ codes "SOS: process fault: object in the wrong state process={zero}"
          ∷ codes "SOS: process teardown handles="
          ∷ []))
        false) {
          root_pkg = some (tests_dir repo_root /+ codes "give-after-start");
          children = (tests_dir repo_root /+ codes "child-fault") ∷ [];
          expect_status = some (pos 5);
        }

  abbrev give_no_transfer : Case
  give_no_transfer =
      record (plain_case (codes "give_no_transfer") (kernel_dir repo_root /+ codes "main.saw")
        (texts (
          codes "{banner}"
          ∷ codes "SOS notransfer: minted without Transfer"
          ∷ codes "SOS: process fault: access denied process={zero}"
          ∷ codes "SOS: process teardown handles="
          ∷ []))
        false) {
          root_pkg = some (tests_dir repo_root /+ codes "give-no-transfer");
          children = (tests_dir repo_root /+ codes "child-fault") ∷ [];
          expect_status = some (pos 5);
        }

  abbrev start_bad_tag : Case
  start_bad_tag =
      record (plain_case (codes "start_bad_tag") (kernel_dir repo_root /+ codes "main.saw")
        (texts (
          codes "{banner}"
          ∷ codes "SOS badtag: gave tag 3"
          ∷ codes "SOS: process fault: argument outside its domain process={zero}"
          ∷ codes "SOS: process teardown handles="
          ∷ []))
        false) {
          root_pkg = some (tests_dir repo_root /+ codes "start-bad-tag");
          children = (tests_dir repo_root /+ codes "child-fault") ∷ [];
          expect_status = some (pos 5);
        }

  abbrev give_word_dead : Case
  give_word_dead =
      record (plain_case (codes "give_word_dead") (kernel_dir repo_root /+ codes "main.saw")
        (texts (
          codes "{banner}"
          ∷ codes "SOS worddead: gave the region, ok=1"
          ∷ codes "SOS worddead: using the word we gave away"
          ∷ codes "SOS: process fault: bad handle process={zero}"
          ∷ codes "SOS: process teardown handles="
          ∷ []))
        false) {
          root_pkg = some (tests_dir repo_root /+ codes "give-word-dead");
          children = (tests_dir repo_root /+ codes "child-fault") ∷ [];
          expect_status = some (pos 5);
        }

  abbrev mint_revoked : Case
  mint_revoked =
      record (plain_case (codes "mint_revoked") (kernel_dir repo_root /+ codes "main.saw")
        (texts (
          codes "{banner}"
          ∷ codes "SOS mintrevoked: minted without Mint"
          ∷ codes "SOS: process fault: access denied process={zero}"
          ∷ codes "SOS: process teardown handles="
          ∷ []))
        false) {
          root_pkg = some (tests_dir repo_root /+ codes "mint-revoked");
          expect_status = some (pos 5);
        }

  abbrev child_no_shutdown : Case
  child_no_shutdown =
      record (plain_case (codes "child_no_shutdown") (kernel_dir repo_root /+ codes "main.saw")
        (texts (
          codes "{banner}"
          ∷ codes "SOS noshutdown: started a child that may print and not stop the machine"
          ∷ codes "SOS childover: I can print, so Debug travelled"
          ∷ codes "SOS childover: now trying to stop the machine"
          ∷ codes "SOS: process fault: access denied process={one}"
          ∷ codes
              "SOS: process teardown handles={one} threads={one} events={zero} waiters={zero} interrupts={zero} timers={zero} process={one}"
          ∷ codes "SOS noshutdown: root survived child status=131075"
          ∷ codes "SOS noshutdown: done"
          ∷ []))
        true) {
          root_pkg = some (tests_dir repo_root /+ codes "child-no-shutdown");
          children = (tests_dir repo_root /+ codes "child-oversteps") ∷ [];
        }

  abbrev pub giving_cases : List Case
  giving_cases =
      give_boot_drain ∷ give_duplicate_tag ∷ give_after_start ∷ give_no_transfer ∷ start_bad_tag
      ∷ give_word_dead ∷ mint_revoked ∷ child_no_shutdown ∷ []
