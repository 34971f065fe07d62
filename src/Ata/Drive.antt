-- ===== src/Ata/Drive.antt =====
-- The drive that kernel/disk.c talks to: what the ATA standard says of the registers and commands that
-- the driver uses, for one sector at a time, as hypotheses on the port instructions. They ask for a drive
-- that reports no error. The standard leaves open what a command does that comes while the drive is busy,
-- as the flush of the driver may: here the drive ignores it or takes it, and goes on with its write.
use pl_dos.Base.{
  ℕ, Bool, true, false, not, ◌/◌, ◌≢◌, ◌⊎◌, ◌+◌, ◌*◌, ◌%◌, ◌^◌, ◌-◌, ◌<◌, ◌≡◌, List, [], ◌∷◌, ◌++◌,
  length, ◌==◌, if◌then◌else◌,
}
use pl_dos.Ata.{
  Ports, ata_data, ata_sector_count, ata_lba_low, ata_lba_mid, ata_lba_high, ata_drive, ata_command,
  ata_status, ata_cmd_read, ata_cmd_write, ata_cmd_flush, max_polls, is_busy, is_ready, is_error,
}

-- What the drive expects on its data register: nothing, or that the words that are left are read, or
-- further words of the sector `lba` behind those written.
pub data Phase : Type 0 where
  idle : Phase
  reading : ℕ → List ℕ → Phase
  writing : ℕ → List ℕ → Phase

-- The registers, the sectors as words, and how often the status will still be read as busy.
pub record Drive : Type 0 where
  pub count : ℕ
  pub low : ℕ
  pub mid : ℕ
  pub high : ℕ
  pub select : ℕ
  pub phase : Phase
  pub busy : ℕ
  pub sectors : ℕ → List ℕ

-- The 28 bits of the address.
abbrev pub address : Drive → ℕ
address s = s.low + s.mid * 2 ^ 8 + s.high * 2 ^ 16 + s.select % 16 * 2 ^ 24

-- The words that are left to read, if any.
abbrev pub to_read : List ℕ → Phase
to_read [] = idle
to_read (w ∷ ws) = reading w ws

-- Whether data is expected.
abbrev pub asks : Phase → Bool
asks idle = false
asks (reading w ws) = true
asks (writing lba ws) = true

-- The bits of the status: ERR is clear, BSY tells whether the drive is busy, and where it is not, DRDY is
-- set and DRQ tells whether data is expected. All other bits are free.
pub record IsStatus (s : Drive) (status : ℕ) : Type 0 where
  pub err : is_error status ≡ false
  pub bsy : is_busy status ≡ not (s.busy == 0)
  pub drdy : s.busy ≡ 0 → status / 0x40 % 2 ≡ 1
  pub drq : s.busy ≡ 0 → is_ready status ≡ asks s.phase

abbrev pub with_sector : (ℕ → List ℕ) → ℕ → List ℕ → ℕ → List ℕ
with_sector sectors lba words l = if lba == l then words else sectors l

-- A drive that takes a command and is ready again after fewer status reads than the driver makes.
pub record IsAta (p : Ports) : Type 0 where
  pub view : p.Machine → Drive
  pub status : (m : p.Machine) → IsStatus (view m) (p.inb ata_status m).0
  pub status_read :
      (m : p.Machine) (s : Drive)
      → view m ≡ s
      → view (p.inb ata_status m).1 ≡ record s { busy = s.busy - 1 }
  pub set_drive :
      (m : p.Machine) (s : Drive) (b : ℕ)
      → view m ≡ s
      → view (p.outb ata_drive b m) ≡ record s { select = b }
  pub set_count :
      (m : p.Machine) (s : Drive) (b : ℕ)
      → view m ≡ s
      → view (p.outb ata_sector_count b m) ≡ record s { count = b }
  pub set_low :
      (m : p.Machine) (s : Drive) (b : ℕ)
      → view m ≡ s
      → view (p.outb ata_lba_low b m) ≡ record s { low = b }
  pub set_mid :
      (m : p.Machine) (s : Drive) (b : ℕ)
      → view m ≡ s
      → view (p.outb ata_lba_mid b m) ≡ record s { mid = b }
  pub set_high :
      (m : p.Machine) (s : Drive) (b : ℕ)
      → view m ≡ s
      → view (p.outb ata_lba_high b m) ≡ record s { high = b }
  pub read_command :
      (m : p.Machine) (s : Drive)
      → view m ≡ s
      → s.phase ≡ idle
      → s.busy ≡ 0
      → s.count ≡ 1
      → (b : ℕ) × (b < max_polls)
        × (view (p.outb ata_command ata_cmd_read m)
            ≡ record s { phase = to_read (s.sectors (address s)); busy = b })
  pub write_command :
      (m : p.Machine) (s : Drive)
      → view m ≡ s
      → s.phase ≡ idle
      → s.busy ≡ 0
      → s.count ≡ 1
      → (b : ℕ) × (b < max_polls)
        × (view (p.outb ata_command ata_cmd_write m)
            ≡ record s { phase = writing (address s) []; busy = b })
  pub flush_command :
      (m : p.Machine) (s : Drive)
      → view m ≡ s
      → s.phase ≡ idle
      → s.busy ≡ 0
      → (b : ℕ) × (b < max_polls)
        × (view (p.outb ata_command ata_cmd_flush m) ≡ record s { busy = b })
  pub flush_while_busy :
      (m : p.Machine) (s : Drive)
      → view m ≡ s
      → s.phase ≡ idle
      → s.busy ≢ 0
      → (view (p.outb ata_command ata_cmd_flush m) ≡ s)
        ⊎ ((b : ℕ) × (b < max_polls)
            × (view (p.outb ata_command ata_cmd_flush m) ≡ record s { busy = b }))
  pub word_read :
      (m : p.Machine) (s : Drive) (w : ℕ) (ws : List ℕ)
      → view m ≡ s
      → s.phase ≡ reading w ws
      → s.busy ≡ 0
      → ((p.inw ata_data m).0 ≡ w) × (view (p.inw ata_data m).1 ≡ record s { phase = to_read ws })
  pub word_written :
      (m : p.Machine) (s : Drive) (lba w : ℕ) (ws : List ℕ)
      → view m ≡ s
      → s.phase ≡ writing lba ws
      → s.busy ≡ 0
      → length ws + 1 < 256
      → view (p.outw ata_data w m) ≡ record s { phase = writing lba (ws ++ w ∷ []) }
  pub last_written :
      (m : p.Machine) (s : Drive) (lba w : ℕ) (ws : List ℕ)
      → view m ≡ s
      → s.phase ≡ writing lba ws
      → s.busy ≡ 0
      → length ws + 1 ≡ 256
      → (b : ℕ) × (b < max_polls)
        × (view (p.outw ata_data w m) ≡ record s {
          phase = idle;
          busy = b;
          sectors = with_sector s.sectors lba (ws ++ w ∷ []);
        })
