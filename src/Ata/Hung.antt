-- ===== src/Ata/Hung.antt =====
-- A drive that never answers, for kernel/disk.c.
use pl_dos.Base.{ℕ, zero, suc, ◌≡◌, refl, true, false, none, List}
use pl_dos.Ata.{
  Ports, Driver, ata_status, max_polls, is_busy, read_times, poll_not_busy, wait_not_busy,
  disk_read_sector, disk_write_sector,
}

-- The driver after the polls.
abbrev pub polled : (p : Ports) → Driver p → Driver p
polled p v = record v { machine = read_times p max_polls v.machine }

module _ (p : Ports) (hung : (m : p.Machine) → is_busy (p.inb ata_status m).0 ≡ true) where
  open p use {Machine}

  poll_not_busy_hung :
      (rounds : ℕ) (m : Machine) → poll_not_busy p rounds m ≡ (false, read_times p rounds m)
  unfolding poll_not_busy read_times
  poll_not_busy_hung zero m = refl
  poll_not_busy_hung (suc rounds) m = rw (hung m) (poll_not_busy_hung rounds (p.inb ata_status m).1)

  wait_not_busy_hung : (m : Machine) → wait_not_busy p m ≡ (false, read_times p max_polls m)
  unfolding wait_not_busy
  wait_not_busy_hung m = poll_not_busy_hung max_polls m

  -- On a detected drive whose status is always busy, disk_read_sector and disk_write_sector give up
  -- after 100000 reads of the status and report a failure; they write to no port and transfer nothing.
  pub hung_fails :
      (v : Driver p) (lba : ℕ) (bytes : List ℕ)
      → v.has_disk ≡ true
      → (disk_read_sector p lba v ≡ (none, polled p v))
        × (disk_write_sector p lba bytes v ≡ (false, polled p v))
  unfolding disk_read_sector disk_write_sector
  hung_fails v lba bytes detected = (
    rw (detected, wait_not_busy_hung v.machine) refl,
    rw (detected, wait_not_busy_hung v.machine) refl,
  )
