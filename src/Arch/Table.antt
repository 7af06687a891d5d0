-- ===== src/Arch/Table.antt =====
-- The rows of `ARCHES` in tools/sos_runner.py, in order.
use sawos.Prelude.{List, [], ◌∷◌, none, some}
use sawos.Text.{Text, codes}
use sawos.Paths.{◌/+◌, rv32_core_module, rv32_virt_module}
use sawos.Arch.{Arch, isolated, flat}

module _ (repo_root : Text) where
  abbrev pub riscv32 : Arch
  riscv32 = record {
    name = codes "riscv32";
    triple = codes "riscv32-unknown-none-elf";
    qemu = codes "qemu-system-riscv32";
    tier = isolated;
    qemu_args = codes "-M" ∷ codes "virt" ∷ codes "-bios" ∷ codes "none" ∷ [];
    cc_args = codes "-march=rv32imac_zicsr" ∷ codes "-mabi=ilp32" ∷ [];
    features = some (codes "+m,+a,+c");
    hal_native = codes "riscv32-common" /+ codes "kernel";
    hal_modules = rv32_core_module repo_root ∷ [];
    hal_asm = (codes "riscv32-common" /+ codes "kernel" /+ codes "trap.S") ∷ [];
    hal_board = none;
    tests_arch = none;
    build_tag = none;
    banner_arch = none;
    hex_width = 8;
    root_entry = 0x80200000;
    child_region_base = 0x80240000;
    selftest_line = 10;
    pool_base = 0x80280000;
    pool_len = 0x40000;
    device_base = 0x10000000;
    device_len = 0x1000;
  }

  abbrev pub arm64 : Arch
  arm64 = record {
    name = codes "arm64";
    triple = codes "aarch64-unknown-none-elf";
    qemu = codes "qemu-system-aarch64";
    tier = isolated;
    qemu_args =
        codes "-M"
        ∷ codes "virt,gic-version=2"
        ∷ codes "-cpu"
        ∷ codes "cortex-a53"
        ∷ codes "-semihosting"
        ∷ [];
    cc_args = [];
    features = none;
    hal_native = codes "arm64" /+ codes "kernel";
    hal_modules = [];
    hal_asm = [];
    hal_board = none;
    tests_arch = none;
    build_tag = none;
    banner_arch = none;
    hex_width = 16;
    root_entry = 0x40200000;
    child_region_base = 0x40240000;
    selftest_line = 5;
    pool_base = 0x40280000;
    pool_len = 0x40000;
    device_base = 0x09000000;
    device_len = 0x1000;
  }

  abbrev pub riscv32_flat : Arch
  riscv32_flat = record {
    name = codes "riscv32-flat";
    triple = codes "riscv32-unknown-none-elf";
    qemu = codes "qemu-system-riscv32";
    tier = flat;
    qemu_args = codes "-M" ∷ codes "virt" ∷ codes "-bios" ∷ codes "none" ∷ [];
    cc_args = codes "-march=rv32imac_zicsr" ∷ codes "-mabi=ilp32" ∷ [];
    features = some (codes "+m,+a,+c");
    hal_native = codes "riscv32-common" /+ codes "kernel";
    hal_modules = rv32_core_module repo_root ∷ rv32_virt_module repo_root ∷ [];
    hal_asm = (codes "riscv32-common" /+ codes "kernel" /+ codes "trap.S") ∷ [];
    hal_board = some (codes "riscv32" /+ codes "kernel");
    tests_arch = some (codes "riscv32");
    build_tag = some (codes "riscv32-unknown-none-elf-flat");
    banner_arch = some (codes "riscv32");
    hex_width = 8;
    root_entry = 0x80200000;
    child_region_base = 0x80240000;
    selftest_line = 10;
    pool_base = 0x80280000;
    pool_len = 0x40000;
    device_base = 0x10000000;
    device_len = 0x1000;
  }

  abbrev pub arches : List Arch
  arches = riscv32 ∷ arm64 ∷ riscv32_flat ∷ []
