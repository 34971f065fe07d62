-- ===== src/Ata/Reboot.antt =====
-- `disk_init` of kernel/disk.c and `fs_init` of kernel/filesystem.c on a drive that an earlier run saved
-- its table on.
use pl_dos.Base.{arith, arith}
use pl_dos.Filesystem.{Fs}
use pl_dos.Ata.{Ports, Driver, disk_init}
use pl_dos.Ata.Drive.{Drive}

-- The storage of the next boot: any, but for the machine, and for what `disk_init` has set.
abbrev pub next_boot : (p : Ports) → Fs (Driver p) → Fs (Driver p) → Fs (Driver p)
next_boot p fs storage = record storage {
  dev = disk_init p (record storage.dev { machine = fs.dev.machine });
}
