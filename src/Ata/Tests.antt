-- ===== src/Ata/Tests.antt =====
-- The driver on a drive whose sectors are all zeros.
use pl_dos.Base.{
  ℕ, inl, inr, Bool-cases, List, ◌+◌, ◌-◌, ◌<◌, ◌≡◌, ◌≢◌, refl, ap, ◌∙◌, true, false, none, [], ◌∷◌,
  ◌++◌, length, replicate, ◌==◌, if◌then◌else◌, arith,
}
use pl_dos.Ata.{
  Ports, Driver, ata_sector_count, ata_lba_low, ata_lba_mid, ata_lba_high, ata_drive, ata_cmd_read,
  ata_cmd_write, disk_read_sector, disk_write_sector,
}
use pl_dos.Ata.Drive.{Phase, Drive, address, to_read, asks, IsStatus, with_sector, IsAta}
use pl_dos.Ata.Drive.Phase.{idle, reading, writing}
use pl_dos.Filesystem.{Fs, Node}
use pl_dos.Ata.Hung.{polled, hung_fails}

-- A command takes three status reads.
abbrev take_command : ℕ → Drive → Drive
take_command b s =
    if b == ata_cmd_read
    then record s { phase = to_read (s.sectors (address s)); busy = 3 }
    else if b == ata_cmd_write
    then record s { phase = writing (address s) []; busy = 3 }
    else if s.busy == 0
    then record s { busy = 3 }
    else s

not_zero : (n : ℕ) → n ≢ 0 → (n == 0) ≡ false
not_zero n h = ground (arith, h)

-- BSY with DRDY and bit 4, or these two, with DRQ where data is expected.
abbrev status_byte : Drive → ℕ
status_byte s = if s.busy == 0 then (if asks s.phase then 0x58 else 0x50) else 0xD0

status_byte-IsStatus : (s : Drive) → IsStatus s (status_byte s)
status_byte-IsStatus s = elim (Bool-cases (s.busy == 0)) [
  | inl done ↦ elim (Bool-cases (asks s.phase)) [
    | inl wants ↦ record {
      err = rw (done, wants) refl;
      bsy = rw (done, wants) refl;
      drdy = λ z. rw (done, wants) refl;
      drq = λ z. rw (done, wants) refl;
    }
    | inr rests ↦ record {
      err = rw (done, rests) refl;
      bsy = rw (done, rests) refl;
      drdy = λ z. rw (done, rests) refl;
      drq = λ z. rw (done, rests) refl;
    }
  ]
  | inr more ↦ record {
    err = rw more refl;
    bsy = rw more refl;
    drdy = λ z. ground (arith, more, z);
    drq = λ z. ground (arith, more, z);
  }
]

abbrev set_register : ℕ → ℕ → Drive → Drive
set_register port b s =
    if port == ata_drive
    then record s { select = b }
    else if port == ata_sector_count
    then record s { count = b }
    else if port == ata_lba_low
    then record s { low = b }
    else if port == ata_lba_mid
    then record s { mid = b }
    else if port == ata_lba_high
    then record s { high = b }
    else take_command b s

abbrev read_word : Phase → Drive → ℕ × Drive
read_word idle s = (0, s)
read_word (reading w ws) s = (w, record s { phase = to_read ws })
read_word (writing lba ws) s = (0, s)

abbrev write_word : Phase → ℕ → Drive → Drive
write_word idle w s = s
write_word (reading v ws) w s = s
write_word (writing lba ws) w s =
    if length ws + 1 == 256
    then record s { phase = idle; busy = 3; sectors = with_sector s.sectors lba (ws ++ w ∷ []) }
    else record s { phase = writing lba (ws ++ w ∷ []) }

abbrev simple : Ports
simple = record {
  Machine = Drive;
  inb = λ port s. (status_byte s, record s { busy = s.busy - 1 });
  outb = set_register;
  inw = λ port s. read_word s.phase s;
  outw = λ port w s. write_word s.phase w s;
}

more_words : (n : ℕ) → n + 1 < 256 → (n + 1 == 256) ≡ false
more_words n h = ground (arith, h)

last_word : (n : ℕ) → n + 1 ≡ 256 → (n + 1 == 256) ≡ true
last_word n h = ground (arith, h)

abbrev simple_ata : IsAta simple
simple_ata = record {
  view = λ m. m;
  status = status_byte-IsStatus;
  status_read = λ m s e. ap (λ (x : Drive). record x { busy = x.busy - 1 }) e;
  set_drive = λ m s b e. ap (λ (x : Drive). record x { select = b }) e;
  set_count = λ m s b e. ap (λ (x : Drive). record x { count = b }) e;
  set_low = λ m s b e. ap (λ (x : Drive). record x { low = b }) e;
  set_mid = λ m s b e. ap (λ (x : Drive). record x { mid = b }) e;
  set_high = λ m s b e. ap (λ (x : Drive). record x { high = b }) e;
  read_command = λ m s e i b c. (
    3,
    omega arith,
    ap (λ (x : Drive). record x { phase = to_read (x.sectors (address x)); busy = 3 }) e,
  );
  write_command = λ m s e i b c.
      (3, omega arith, ap (λ (x : Drive). record x { phase = writing (address x) []; busy = 3 }) e);
  flush_command = λ m s e i b.
      let done : (m.busy == 0) ≡ true = ap (λ (x : Drive). x.busy == 0) e ∙ rw b refl in
      (3, omega arith, rw done (ap (λ (x : Drive). record x { busy = 3 }) e));
  flush_while_busy = λ m s e i b.
      let more : (s.busy == 0) ≡ false = not_zero s.busy b in
      let held : (m.busy == 0) ≡ false = ap (λ (x : Drive). x.busy == 0) e ∙ more in
      inl (rw held e);
  word_read = λ m s w ws e ph b.
      let at : m.phase ≡ reading w ws = ap (λ (x : Drive). x.phase) e ∙ ph in
      (
        ap (λ x. (read_word x m).0) at,
        ap (λ x. (read_word x m).1) at ∙ ap (λ (x : Drive). record x { phase = to_read ws }) e,
      );
  word_written = λ m s lba w ws e ph b h.
      let at : m.phase ≡ writing lba ws = ap (λ (x : Drive). x.phase) e ∙ ph in
      let more : (length ws + 1 == 256) ≡ false = more_words (length ws) h in
      ap (λ x. write_word x w m) at
      ∙ rw more (ap (λ (x : Drive). record x { phase = writing lba (ws ++ w ∷ []) }) e);
  last_written = λ m s lba w ws e ph b h.
      let at : m.phase ≡ writing lba ws = ap (λ (x : Drive). x.phase) e ∙ ph in
      let full : (length ws + 1 == 256) ≡ true = last_word (length ws) h in
      (
        3,
        omega arith,
        ap (λ x. write_word x w m) at
            ∙ rw full (
                ap
                  (λ (x : Drive). record x {
                    phase = idle;
                    busy = 3;
                    sectors = with_sector x.sectors lba (ws ++ w ∷ []);
                  })
                  e),
      );
}

abbrev blank_drive : Driver simple
blank_drive = record {
  has_disk = true;
  status_text = [];
  machine = record {
    count = 0;
    low = 0;
    mid = 0;
    high = 0;
    select = 0;
    phase = idle;
    busy = 5;
    sectors = λ lba. replicate 256 0;
  };
}

-- A drive that is always busy, and counts how often its status is read.
abbrev stuck : Ports
stuck = record {
  Machine = ℕ;
  inb = λ port m. (0x80, m + 1);
  outb = λ port b m. m;
  inw = λ port m. (0, m);
  outw = λ port w m. m;
}

abbrev stuck_drive : Driver stuck
stuck_drive = record { has_disk = true; status_text = []; machine = 0 }

hung_example :
    (disk_read_sector stuck 5 stuck_drive ≡ (none, polled stuck stuck_drive))
    × (disk_write_sector stuck 5 [] stuck_drive ≡ (false, polled stuck stuck_drive))
hung_example = hung_fails stuck (λ m. refl) stuck_drive 5 [] refl

-- A table with the root alone, saved on that drive.
abbrev saved_state : List Node → Fs (Driver simple)
saved_state nodes = record {
  nodes = nodes;
  current_dir = 47 ∷ replicate 127 0;
  persistence_enabled = false;
  fs_booting = false;
  dev = blank_drive;
  console = [];
}
