-- ===== src/Cases/Deaths.antt =====
-- Cases of `TEST_CASES` in tools/sos_runner.py: deaths, drivers in children and shared maps.
-- A package constant stands here as the path that it is defined to be.
use sawos.Prelude.{true, false, List, [], ◌∷◌, some}
use sawos.Prelude.Int.{pos}
use sawos.Text.{Text, codes}
use sawos.Paths.{◌/+◌, kernel_dir, tests_dir}
use sawos.Case.{Case, plain_case, texts}

module _ (repo_root : Text) where
  abbrev death_notify : Case
  death_notify =
      record (plain_case (codes "death_notify") (kernel_dir repo_root /+ codes "main.saw")
        (texts (
          codes "{banner}"
          ∷ codes "SOS: boot regions={two}"
          ∷ codes "SOS deathnotify: started"
          ∷ codes "SOS bye: exiting"
          ∷ codes "SOS: process exit: code={five} process={one}"
          ∷ codes
              "SOS: process teardown handles={two} threads={one} events={zero} waiters={zero} interrupts={zero} timers={zero} process={one}"
          ∷ codes "SOS deathnotify: woke key=44 status=65541"
          ∷ codes "SOS deathnotify: done"
          ∷ []))
        true) {
          root_pkg = some (tests_dir repo_root /+ codes "death-notify");
          children = (tests_dir repo_root /+ codes "child-bye") ∷ [];
        }

  abbrev death_fault : Case
  death_fault =
      record (plain_case (codes "death_fault") (kernel_dir repo_root /+ codes "main.saw")
        (texts (
          codes "{banner}"
          ∷ codes "SOS: boot regions={two}"
          ∷ codes "SOS deathfault: started"
          ∷ codes "SOS: process fault: bad handle process={one}"
          ∷ codes
              "SOS: process teardown handles={zero} threads={one} events={zero} waiters={zero} interrupts={zero} timers={zero} process={one}"
          ∷ codes "SOS deathfault: woke key=45 status=131073"
          ∷ codes "SOS deathfault: child syscalls=1 faults=0"
          ∷ codes "SOS deathfault: done"
          ∷ []))
        true) {
          root_pkg = some (tests_dir repo_root /+ codes "death-fault");
          children = (tests_dir repo_root /+ codes "child-fault") ∷ [];
        }

  abbrev death_late_attach : Case
  death_late_attach =
      record (plain_case (codes "death_late_attach") (kernel_dir repo_root /+ codes "main.saw")
        (texts (
          codes "{banner}"
          ∷ codes "SOS: boot regions={two}"
          ∷ codes "SOS deathlate: started"
          ∷ codes "SOS bye: exiting"
          ∷ codes "SOS: process exit: code={five} process={one}"
          ∷ codes
              "SOS: process teardown handles={two} threads={one} events={zero} waiters={zero} interrupts={zero} timers={zero} process={one}"
          ∷ codes "SOS deathlate: first=65541 second=65541"
          ∷ codes "SOS deathlate: held=1 freed=1"
          ∷ codes "SOS deathlate: done"
          ∷ []))
        true) {
          root_pkg = some (tests_dir repo_root /+ codes "death-late-attach");
          children = (tests_dir repo_root /+ codes "child-bye") ∷ [];
        }

  abbrev child_echo_ns16550 : Case
  child_echo_ns16550 =
      record (plain_case (codes "child_echo_ns16550") (kernel_dir repo_root /+ codes "main.saw")
        (texts (
          codes "{banner}"
          ∷ codes "root image ok segments={two}"
          ∷ codes "SOS: boot regions={three}"
          ∷ codes "SOS: console handover"
          ∷ codes "SOS driverchild: created"
          ∷ codes "SOS driverchild: gave the window"
          ∷ codes "SOS driverchild: started"
          ∷ codes "SOS echo: window mapped"
          ∷ codes "SOS echo: driver up"
          ∷ codes "Zq7#"
          ∷ codes "SOS echo: done 4 bytes on line 10"
          ∷ codes
              "SOS: process teardown handles={six} threads={one} events={zero} waiters={one} interrupts={one} timers={zero} process={one}"
          ∷ codes "SOS driverchild: root observed child status=65536"
          ∷ codes "SOS driverchild: done"
          ∷ []))
        true) {
          arches = some (codes "riscv32" ∷ codes "riscv32-flat" ∷ []);
          root_pkg = some (tests_dir repo_root /+ codes "driver-child");
          children = (tests_dir repo_root /+ codes "child-echo-ns16550") ∷ [];
          device = true;
          stdin = some (codes "Zq7#");
        }

  abbrev child_echo_pl011 : Case
  child_echo_pl011 =
      record (plain_case (codes "child_echo_pl011") (kernel_dir repo_root /+ codes "main.saw")
        (texts (
          codes "{banner}"
          ∷ codes "root image ok segments={two}"
          ∷ codes "SOS: boot regions={three}"
          ∷ codes "SOS: console handover"
          ∷ codes "SOS driverchild: created"
          ∷ codes "SOS driverchild: gave the window"
          ∷ codes "SOS driverchild: started"
          ∷ codes "SOS echo: window mapped"
          ∷ codes "SOS echo: driver up"
          ∷ codes "Zq7#"
          ∷ codes "SOS echo: done 4 bytes on line 33"
          ∷ codes
              "SOS: process teardown handles={six} threads={one} events={zero} waiters={one} interrupts={one} timers={zero} process={one}"
          ∷ codes "SOS driverchild: root observed child status=65536"
          ∷ codes "SOS driverchild: done"
          ∷ []))
        true) {
          arches = some (codes "arm64" ∷ []);
          root_pkg = some (tests_dir repo_root /+ codes "driver-child");
          children = (tests_dir repo_root /+ codes "child-echo-pl011") ∷ [];
          device = true;
          stdin = some (codes "Zq7#");
        }

  abbrev share_double_map : Case
  share_double_map =
      record (plain_case (codes "share_double_map") (kernel_dir repo_root /+ codes "main.saw")
        (texts (
          codes "{banner}"
          ∷ codes "SOS: boot regions={three}"
          ∷ codes "SOS sharemap: created"
          ∷ codes "SOS sharemap: mapped into both"
          ∷ codes "SOS sharemap: wrote 165"
          ∷ codes "SOS sharemap: started"
          ∷ codes "SOS childshare: saw 165 wrote 90"
          ∷ codes "SOS: process exit: code={share_mark} process={one}"
          ∷ codes
              "SOS: process teardown handles={two} threads={one} events={zero} waiters={zero} interrupts={zero} timers={zero} process={one}"
          ∷ codes "SOS sharemap: root observed child status=65701"
          ∷ codes "SOS sharemap: read back 90"
          ∷ codes "SOS sharemap: done"
          ∷ []))
        true) {
          root_pkg = some (tests_dir repo_root /+ codes "share-double-map");
          children = (tests_dir repo_root /+ codes "child-share") ∷ [];
          pool = true;
        }

  abbrev map_exec_gated : Case
  map_exec_gated =
      record (plain_case (codes "map_exec_gated") (kernel_dir repo_root /+ codes "main.saw")
        (texts (
          codes "{banner}"
          ∷ codes "SOS: boot regions={one}"
          ∷ codes "SOS execgate: mapped executable"
          ∷ codes "SOS execgate: minted a sibling without MapExecute"
          ∷ codes "SOS execgate: the sibling maps read-write"
          ∷ codes "SOS execgate: asking for execute through it"
          ∷ codes "SOS: process fault: access denied"
          ∷ codes
              "SOS: process teardown handles={nine} threads={one} events={zero} waiters={zero} interrupts={zero} timers={zero} process={zero}"
          ∷ []))
        false) {
          root_pkg = some (tests_dir repo_root /+ codes "map-exec-gated");
          pool = true;
          expect_status = some (pos 5);
        }

  abbrev map_wx_refused : Case
  map_wx_refused =
      record (plain_case (codes "map_wx_refused") (kernel_dir repo_root /+ codes "main.saw")
        (texts (
          codes "{banner}"
          ∷ codes "SOS: boot regions={one}"
          ∷ codes "SOS mapwx: read-write here, wrote 107 read 107"
          ∷ codes "SOS mapwx: read-execute there: one region, two rows"
          ∷ codes "SOS mapwx: asking for write and execute in one row"
          ∷ codes "SOS: process fault: argument outside its domain"
          ∷ codes
              "SOS: process teardown handles={eight} threads={one} events={zero} waiters={zero} interrupts={zero} timers={zero} process={zero}"
          ∷ []))
        false) {
          root_pkg = some (tests_dir repo_root /+ codes "map-wx-refused");
          pool = true;
          expect_status = some (pos 5);
        }

  abbrev waiter_revoked : Case
  waiter_revoked =
      record (plain_case (codes "waiter_revoked") (kernel_dir repo_root /+ codes "main.saw")
        (texts (
          codes "{banner}"
          ∷ codes "SOS revoked: a parking"
          ∷ codes "SOS revoked: b parking"
          ∷ codes "SOS revoked: sibling released, nobody woke"
          ∷ codes "SOS revoked: b woke: what this call was waiting for is gone"
          ∷ codes "SOS revoked: a woke: what this call was waiting for is gone"
          ∷ codes "SOS revoked: joined a=41 b=42"
          ∷ codes "events={zero} waiters={zero} interrupts={zero} timers={zero}"
          ∷ []))
        true) { root_pkg = some (tests_dir repo_root /+ codes "waiter-revoked") }

  abbrev pub deaths_cases : List Case
  deaths_cases =
      death_notify ∷ death_fault ∷ death_late_attach ∷ child_echo_ns16550 ∷ child_echo_pl011
      ∷ share_double_map ∷ map_exec_gated ∷ map_wx_refused ∷ waiter_revoked ∷ []
