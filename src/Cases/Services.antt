-- ===== src/Cases/Services.antt =====
-- Cases of `TEST_CASES` in tools/sos_runner.py: services behind pipes.
-- A package constant stands here as the path that it is defined to be.
use sawos.Prelude.{true, List, [], ◌∷◌, some}
use sawos.Text.{Text, codes}
use sawos.Paths.{◌/+◌, kernel_dir, tests_dir}
use sawos.Case.{Case, plain_case, texts}

module _ (repo_root : Text) where
  abbrev uart_service_ns16550 : Case
  uart_service_ns16550 =
      record (plain_case (codes "uart_service_ns16550") (kernel_dir repo_root /+ codes "main.saw")
        (texts (
          codes "{banner}"
          ∷ codes "root image ok segments={two}"
          ∷ codes "SOS: boot regions={five}"
          ∷ codes "SOS: console handover"
          ∷ codes "SOS uartsvc: created"
          ∷ codes "SOS uartsvc: driver started"
          ∷ codes "SOS uartsvc: read posted"
          ∷ codes "SOS uartsvc: client started"
          ∷ codes "Zq7#"
          ∷ codes "SOS uartsvc: root wrote this line through the driver"
          ∷ codes "SOS uartsvc: and root does not hold the device"
          ∷ codes "SOS uartsvc: root's claim answered byte 90"
          ∷ codes "SOS uartsvc: client traps=13 for 3 reads and 3 writes"
          ∷ codes "SOS uartsvc drv: served=13 abandoned=0 dropped=0"
          ∷ codes "SOS uartsvc drv: after the mark answered=2 discarded=2 traps=7"
          ∷ codes "SOS uartsvc drv: one trap per answered message, two per discarded"
          ∷ codes "SOS uartsvc: the driver served two clients and ended clean"
          ∷ codes "SOS uartsvc: done"
          ∷ []))
        true) {
          arches = some (codes "riscv32" ∷ codes "riscv32-flat" ∷ []);
          root_pkg = some (tests_dir repo_root /+ codes "uart-service");
          children =
              (tests_dir repo_root /+ codes "svc-uart-ns16550")
              ∷ (tests_dir repo_root /+ codes "svc-client")
              ∷ [];
          device = true;
          stdin = some (codes "Zq7#");
        }

  abbrev uart_service_pl011 : Case
  uart_service_pl011 =
      record (plain_case (codes "uart_service_pl011") (kernel_dir repo_root /+ codes "main.saw")
        (texts (
          codes "{banner}"
          ∷ codes "root image ok segments={two}"
          ∷ codes "SOS: boot regions={five}"
          ∷ codes "SOS: console handover"
          ∷ codes "SOS uartsvc: created"
          ∷ codes "SOS uartsvc: driver started"
          ∷ codes "SOS uartsvc: read posted"
          ∷ codes "SOS uartsvc: client started"
          ∷ codes "Zq7#"
          ∷ codes "SOS uartsvc: root wrote this line through the driver"
          ∷ codes "SOS uartsvc: and root does not hold the device"
          ∷ codes "SOS uartsvc: root's claim answered byte 90"
          ∷ codes "SOS uartsvc: client traps=13 for 3 reads and 3 writes"
          ∷ codes "SOS uartsvc drv: served=13 abandoned=0 dropped=0"
          ∷ codes "SOS uartsvc drv: after the mark answered=2 discarded=2 traps=7"
          ∷ codes "SOS uartsvc drv: one trap per answered message, two per discarded"
          ∷ codes "SOS uartsvc: the driver served two clients and ended clean"
          ∷ codes "SOS uartsvc: done"
          ∷ []))
        true) {
          arches = some (codes "arm64" ∷ []);
          root_pkg = some (tests_dir repo_root /+ codes "uart-service");
          children =
              (tests_dir repo_root /+ codes "svc-uart-pl011")
              ∷ (tests_dir repo_root /+ codes "svc-client")
              ∷ [];
          device = true;
          stdin = some (codes "Zq7#");
        }

  abbrev uart_cancel_ns16550 : Case
  uart_cancel_ns16550 =
      record (plain_case (codes "uart_cancel_ns16550") (kernel_dir repo_root /+ codes "main.saw")
        (texts (
          codes "{banner}"
          ∷ codes "SOS: boot regions={three}"
          ∷ codes "SOS: console handover"
          ∷ codes "SOS uartcancel: driver started"
          ∷ codes "SOS uartcancel: read posted"
          ∷ codes "SOS uartcancel: timed out"
          ∷ codes "SOS uartcancel: claim dropped"
          ∷ codes "SOS uartcancel: root wrote this line through the driver"
          ∷ codes "SOS uartcancel: one dead read did not wedge it"
          ∷ codes "SOS uartsvc drv: served=5 abandoned=1 dropped=0"
          ∷ codes "SOS uartsvc drv: after the mark answered=2 discarded=2 traps=7"
          ∷ codes "SOS uartsvc drv: one trap per answered message, two per discarded"
          ∷ codes "SOS uartcancel: done"
          ∷ []))
        true) {
          arches = some (codes "riscv32" ∷ codes "riscv32-flat" ∷ []);
          root_pkg = some (tests_dir repo_root /+ codes "uart-cancel");
          children = (tests_dir repo_root /+ codes "svc-uart-ns16550") ∷ [];
          device = true;
        }

  abbrev uart_cancel_pl011 : Case
  uart_cancel_pl011 =
      record (plain_case (codes "uart_cancel_pl011") (kernel_dir repo_root /+ codes "main.saw")
        (texts (
          codes "{banner}"
          ∷ codes "SOS: boot regions={three}"
          ∷ codes "SOS: console handover"
          ∷ codes "SOS uartcancel: driver started"
          ∷ codes "SOS uartcancel: read posted"
          ∷ codes "SOS uartcancel: timed out"
          ∷ codes "SOS uartcancel: claim dropped"
          ∷ codes "SOS uartcancel: root wrote this line through the driver"
          ∷ codes "SOS uartcancel: one dead read did not wedge it"
          ∷ codes "SOS uartsvc drv: served=5 abandoned=1 dropped=0"
          ∷ codes "SOS uartsvc drv: after the mark answered=2 discarded=2 traps=7"
          ∷ codes "SOS uartsvc drv: one trap per answered message, two per discarded"
          ∷ codes "SOS uartcancel: done"
          ∷ []))
        true) {
          arches = some (codes "arm64" ∷ []);
          root_pkg = some (tests_dir repo_root /+ codes "uart-cancel");
          children = (tests_dir repo_root /+ codes "svc-uart-pl011") ∷ [];
          device = true;
        }

  abbrev pipe_delegate_3p : Case
  pipe_delegate_3p =
      record (plain_case (codes "pipe_delegate_3p") (kernel_dir repo_root /+ codes "main.saw")
        (texts (
          codes "{banner}"
          ∷ codes "SOS: boot regions={four}"
          ∷ codes "SOS delegate3p: created"
          ∷ codes "SOS delegate3p: started far and middle"
          ∷ codes "SOS delegate3p: reply len=4 b=68,79,78,69"
          ∷ codes "SOS delegate3p: the answer crossed three processes"
          ∷ codes "SOS delegate3p: middle=65607 far=65617"
          ∷ codes "SOS delegate3p: done"
          ∷ []))
        true) {
          root_pkg = some (tests_dir repo_root /+ codes "delegate-3p");
          children =
              (tests_dir repo_root /+ codes "child-forward")
              ∷ (tests_dir repo_root /+ codes "child-far")
              ∷ [];
        }

  abbrev pub services_cases : List Case
  services_cases =
      uart_service_ns16550 ∷ uart_service_pl011 ∷ uart_cancel_ns16550 ∷ uart_cancel_pl011
      ∷ pipe_delegate_3p ∷ []
