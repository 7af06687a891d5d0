-- ===== src/Cases/Kernel.antt =====
-- Cases of `TEST_CASES` in tools/sos_runner.py: what the kernel checks about itself, and the root image.
-- A package constant stands here as the path that it is defined to be.
use sawos.Prelude.{true, false, List, [], ◌∷◌, some}
use sawos.Prelude.Int.{pos}
use sawos.Text.{Text, codes}
use sawos.Paths.{◌/+◌, kernel_dir, tests_dir}
use sawos.Arch.{isolated}
use sawos.Case.{Case, plain_case, anything, one_text, texts}

module _ (repo_root : Text) where
  abbrev pub no_root_image : Case
  no_root_image =
      plain_case (codes "no_root_image") (kernel_dir repo_root /+ codes "main.saw")
        (texts (codes "{banner}" ∷ codes "bad root image: no root image appended" ∷ [])) false

  abbrev pub trap_fault : Case
  trap_fault =
      plain_case (codes "trap_fault") (tests_dir repo_root /+ codes "trap.saw") anything false

  abbrev panic_seam : Case
  panic_seam =
      plain_case (codes "panic_seam") (tests_dir repo_root /+ codes "panic.saw")
        (one_text (codes "SOS M0: deliberate panic")) false

  abbrev panic_from_check : Case
  panic_from_check =
      plain_case (codes "panic_from_check") (tests_dir repo_root /+ codes "panic_from_check.saw")
        (texts
          (codes "panic at " ∷ codes "vector.saw:" ∷ codes "Vector.[]: index out of range" ∷ []))
        false

  abbrev task_dump : Case
  task_dump =
      record (plain_case (codes "task_dump") (tests_dir repo_root /+ codes "taskdump.saw")
        (texts (
          codes "saw tasks: 2 live (unsynchronized snapshot)"
          ∷ codes "at taskdump.saw:93 in knap"
          ∷ codes "at taskdump.saw:98 in ksleeper"
          ∷ codes "panic at taskdump.saw:114: SOS task dump: deliberate panic"
          ∷ codes "saw tasks: 1 live (as-of panic, unsynchronized)"
          ∷ codes "at taskdump.saw:93 in knap"
          ∷ codes "at taskdump.saw:98 in ksleeper"
          ∷ []))
        false) { csrc = some (codes "taskdump_stubs.c") }

  abbrev task_dump_empty : Case
  task_dump_empty =
      plain_case (codes "task_dump_empty") (tests_dir repo_root /+ codes "taskdump_empty.saw")
        (texts (
          codes "saw tasks: none live"
          ∷ codes "panic at taskdump_empty.saw:21: SOS task dump: no tasks here"
          ∷ []))
        false

  abbrev umode_syscall : Case
  umode_syscall =
      record (plain_case (codes "umode_syscall") (tests_dir repo_root /+ codes "umode.saw")
        (texts (codes "SOS M1: entering U-mode" ∷ codes "SOS-U" ∷ [])) true) {
          asm = some (codes "payload_ok.S");
        }

  abbrev umode_access_fault : Case
  umode_access_fault =
      record (plain_case (codes "umode_access_fault") (tests_dir repo_root /+ codes "umode.saw")
        (one_text (codes "fault store-access-fault")) false) {
          tier = some isolated;
          tier_reason =
              codes
                "a U-mode store into kernel .text must FAULT; a flat platform permits it and the line never appears";
          asm = some (codes "payload_fault.S");
        }

  abbrev umode_bad_calls : Case
  umode_bad_calls =
      record (plain_case (codes "umode_bad_calls") (tests_dir repo_root /+ codes "umode.saw")
        (texts (
          codes "SOS M1: entering U-mode"
          ∷ codes "!"
          ∷ codes "SOS: process fault: bad op"
          ∷ codes "SOS: process teardown handles={three} threads={one}"
          ∷ []))
        false) { asm = some (codes "payload_badcall.S"); expect_status = some (pos 5) }

  abbrev timer_tick : Case
  timer_tick =
      record (plain_case (codes "timer_tick") (tests_dir repo_root /+ codes "timer.saw")
        (texts (
          codes "SOS M2: timer armed"
          ∷ codes "SOS M2: entering U-mode"
          ∷ codes "SOS: timer tick {one} at "
          ∷ codes "SOS: timer tick {two} at "
          ∷ []))
        true) { asm = some (codes "payload_spin.S") }

  abbrev timer_masked_in_kernel : Case
  timer_masked_in_kernel =
      record (plain_case (codes "timer_masked_in_kernel")
        (tests_dir repo_root /+ codes "timer_mask.saw")
        (texts (
          codes "SOS M2: kernel section begin"
          ∷ codes "SOS M2: kernel section end, timer expired, ticks taken={zero}"
          ∷ codes "SOS M2: entering U-mode"
          ∷ codes "SOS: timer tick {one} at "
          ∷ []))
        true) { asm = some (codes "payload_spin.S") }

  abbrev external_irq : Case
  external_irq =
      record (plain_case (codes "external_irq") (tests_dir repo_root /+ codes "extirq.saw")
        (texts (
          codes "SOS M2: raised external irq {irq_line}"
          ∷ codes "SOS M2: entering U-mode"
          ∷ codes "SOS: external irq {irq_line}"
          ∷ []))
        true) { asm = some (codes "payload_spin.S") }

  abbrev preempt_tick : Case
  preempt_tick =
      record (plain_case (codes "preempt_tick") (tests_dir repo_root /+ codes "preempt_tick.saw")
        (texts (
          codes "SOS M3: kernel section begin"
          ∷ codes "SOS: timer tick {one} at {one}"
          ∷ codes "SOS M3: kernel section end, ticks taken={one}"
          ∷ codes "SOS M3: entering U-mode"
          ∷ []))
        true) { asm = some (codes "payload_spin.S") }

  abbrev preempt_extirq : Case
  preempt_extirq =
      record (plain_case (codes "preempt_extirq")
        (tests_dir repo_root /+ codes "preempt_extirq.saw")
        (texts (
          codes "SOS M3: raised external irq {irq_line}"
          ∷ codes "SOS M3: kernel section begin"
          ∷ codes "SOS: external irq {irq_line}"
          ∷ codes "SOS M3: kernel section end"
          ∷ codes "SOS M3: entering U-mode"
          ∷ []))
        true) { asm = some (codes "payload_spin.S") }

  abbrev root_image_load : Case
  root_image_load =
      record (plain_case (codes "root_image_load") (kernel_dir repo_root /+ codes "main.saw")
        (texts (
          codes "{banner}"
          ∷ codes "root image ok segments={one} entry={entry} prio={prio}"
          ∷ codes "SOS-R"
          ∷ []))
        true) { asm = some (codes "payload_sosimg.S") }

  abbrev root_image_bad_magic : Case
  root_image_bad_magic =
      record (plain_case (codes "root_image_bad_magic") (kernel_dir repo_root /+ codes "main.saw")
        (one_text (codes "bad root image: bad magic")) false) {
          asm = some (codes "payload_badmagic.S");
        }

  abbrev root_image_bad_version : Case
  root_image_bad_version =
      record (plain_case (codes "root_image_bad_version") (kernel_dir repo_root /+ codes "main.saw")
        (one_text (codes "bad root image: unsupported version")) false) {
          asm = some (codes "payload_badversion.S");
        }

  abbrev root_image_wrong_arch : Case
  root_image_wrong_arch =
      record (plain_case (codes "root_image_wrong_arch") (kernel_dir repo_root /+ codes "main.saw")
        (one_text (codes "bad root image: image is for another architecture")) false) {
          asm = some (codes "payload_wrongarch.S");
        }

  abbrev root_image_bad_segment : Case
  root_image_bad_segment =
      record (plain_case (codes "root_image_bad_segment") (kernel_dir repo_root /+ codes "main.saw")
        (one_text (codes "bad root image: segment loads below the root region")) false) {
          asm = some (codes "payload_badsegment.S");
        }

  abbrev pub kernel_cases : List Case
  kernel_cases =
      no_root_image ∷ trap_fault ∷ panic_seam ∷ panic_from_check ∷ task_dump ∷ task_dump_empty
      ∷ umode_syscall ∷ umode_access_fault ∷ umode_bad_calls ∷ timer_tick ∷ timer_masked_in_kernel
      ∷ external_irq ∷ preempt_tick ∷ preempt_extirq ∷ root_image_load ∷ root_image_bad_magic
      ∷ root_image_bad_version ∷ root_image_wrong_arch ∷ root_image_bad_segment ∷ []
