-- ===== src/Ata.antt =====
-- kernel/disk.c: the polling driver of the primary ATA disk, over the machine's port instructions.
pub mod Drive
pub mod Transfer
pub mod Hung
pub mod Reboot
pub mod Reliable
pub mod Sectors
mod Tests
use pl_dos.Base.{
  ℕ, zero, suc, ◌+◌, ◌*◌, ◌/◌, ◌%◌, ◌^◌, Bool, true, false, not, ◌&&◌, ◌||◌, Option, none, some,
  List, [], ◌∷◌, ◌==◌, if◌then◌else◌, codes,
}
use pl_dos.Strings.{CString}
use pl_dos.Filesystem.{Disk}

-- The instructions `inb`, `outb`, `inw` and `outw`: a read may change the device too.
pub record Ports : Type 1 where
  pub Machine : Type 0
  pub inb : ℕ → Machine → ℕ × Machine
  pub outb : ℕ → ℕ → Machine → Machine
  pub inw : ℕ → Machine → ℕ × Machine
  pub outw : ℕ → ℕ → Machine → Machine

abbrev pub ata_data : ℕ
ata_data = 0x1F0

abbrev pub ata_sector_count : ℕ
ata_sector_count = 0x1F2

abbrev pub ata_lba_low : ℕ
ata_lba_low = 0x1F3

abbrev pub ata_lba_mid : ℕ
ata_lba_mid = 0x1F4

abbrev pub ata_lba_high : ℕ
ata_lba_high = 0x1F5

abbrev pub ata_drive : ℕ
ata_drive = 0x1F6

abbrev pub ata_command : ℕ
ata_command = 0x1F7

abbrev pub ata_status : ℕ
ata_status = 0x1F7

abbrev pub ata_cmd_read : ℕ
ata_cmd_read = 0x20

abbrev pub ata_cmd_write : ℕ
ata_cmd_write = 0x30

abbrev pub ata_cmd_flush : ℕ
ata_cmd_flush = 0xE7

-- The tests of the bits ATA_SR_BSY, ATA_SR_DRQ and ATA_SR_ERR.
abbrev pub is_busy : ℕ → Bool
is_busy status = not (status / 0x80 % 2 == 0)

abbrev pub is_ready : ℕ → Bool
is_ready status = not (status / 0x08 % 2 == 0)

abbrev pub is_error : ℕ → Bool
is_error status = not (status % 2 == 0)

abbrev pub max_polls : ℕ
max_polls = 100_000

module _ (p : Ports) where
  open p use {Machine, inb, outb, inw, outw}

  -- The variables `has_disk` and `status_text`, and the machine.
  pub record Driver : Type 0 where
    pub has_disk : Bool
    pub status_text : CString
    pub machine : Machine

  pub read_times : ℕ → Machine → Machine
  read_times zero m = m
  read_times (suc rounds) m = read_times rounds (inb ata_status m).1

  pub ata_delay : Machine → Machine
  ata_delay m = read_times 4 m

  -- The polling loops, with the rounds that are left.
  pub poll_not_busy : ℕ → Machine → Bool × Machine
  poll_not_busy zero m = (false, m)
  poll_not_busy (suc rounds) m =
      let (status, m') = inb ata_status m in
      let later = poll_not_busy rounds m' in if is_busy status then later else (true, m')

  pub wait_not_busy : Machine → Bool × Machine
  wait_not_busy m = poll_not_busy max_polls m

  pub poll_drq : ℕ → Machine → Bool × Machine
  poll_drq zero m = (false, m)
  poll_drq (suc rounds) m =
      let (status, m') = inb ata_status m in
      let later = poll_drq rounds m' in
      if is_error status
      then (false, m')
      else if not (is_busy status) && is_ready status
      then (true, m')
      else later

  pub wait_drq : Machine → Bool × Machine
  wait_drq m = poll_drq max_polls m

  -- The detection: a bus with no drive floats at 0xFF, or reads 0.
  pub disk_init : Driver → Driver
  disk_init v =
      let (status, m) = inb ata_status v.machine in
      if status == 0xFF || (status == 0)
      then record { has_disk = false; status_text = codes "no primary ATA disk"; machine = m }
      else record { has_disk = true; status_text = codes "primary ATA disk detected"; machine = m }

  pub disk_present : Driver → Bool
  disk_present v = v.has_disk

  pub disk_status : Driver → CString
  disk_status v = v.status_text

  -- The six register writes that start a transfer of one sector.
  pub send_command : ℕ → ℕ → Machine → Machine
  send_command lba command m =
      let m = outb ata_drive (0xE0 + lba / 2 ^ 24 % 16) m in
      let m = outb ata_sector_count 1 m in
      let m = outb ata_lba_low (lba % 256) m in
      let m = outb ata_lba_mid (lba / 2 ^ 8 % 256) m in
      let m = outb ata_lba_high (lba / 2 ^ 16 % 256) m in outb ata_command command m

  -- The bytes of the words that are left to read.
  pub read_words : ℕ → Machine → List ℕ × Machine
  read_words zero m = ([], m)
  read_words (suc words) m =
      let (word, m') = inw ata_data m in
      let (bytes, m'') = read_words words m' in (word % 256 ∷ word / 2 ^ 8 % 256 ∷ bytes, m'')

  pub write_words : ℕ → List ℕ → Machine → Machine
  write_words (suc words) (low ∷ high ∷ bytes) m =
      write_words words bytes (outw ata_data (low + high * 2 ^ 8) m)
  write_words words bytes m = m

  pub disk_read_sector : ℕ → Driver → Option (List ℕ) × Driver
  disk_read_sector lba v =
      if not v.has_disk
      then (none, v)
      else let (idle, m) = wait_not_busy v.machine in
        if not idle
        then (none, record v { machine = m })
        else let (ready, m) = wait_drq (send_command lba ata_cmd_read m) in
          if not ready
          then (none, record v { machine = m })
          else let (bytes, m) = read_words 256 m in (some bytes, record v { machine = ata_delay m })

  pub disk_write_sector : ℕ → List ℕ → Driver → Bool × Driver
  disk_write_sector lba bytes v =
      if not v.has_disk
      then (false, v)
      else let (idle, m) = wait_not_busy v.machine in
        if not idle
        then (false, record v { machine = m })
        else let (ready, m) = wait_drq (send_command lba ata_cmd_write m) in
          if not ready
          then (false, record v { machine = m })
          else let m = outb ata_command ata_cmd_flush (write_words 256 bytes m) in
            (true, record v { machine = ata_delay (wait_not_busy m).1 })

  -- The driver as the file system uses it.
  abbrev pub ata_disk : Disk
  ata_disk = record {
    Dev = Driver;
    disk_init = disk_init;
    disk_present = disk_present;
    disk_status = disk_status;
    disk_read_sector = disk_read_sector;
    disk_write_sector = disk_write_sector;
  }
