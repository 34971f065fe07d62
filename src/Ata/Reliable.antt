-- ===== src/Ata/Reliable.antt =====
-- The driver of kernel/disk.c as the device that kernel/filesystem.c saves its table on.
use pl_dos.Base.{ℕ, ◌^◌, ◌<◌, ◌≡◌, ◌≢◌, ap, ◌∙◌, true, false, List, ◌==◌, if◌then◌else◌, arith}
use pl_dos.Filesystem.Storage.Loading.{IsSector, IsReliable}
use pl_dos.Ata.{Ports, Driver, disk_present, disk_write_sector, ata_disk}
use pl_dos.Ata.Drive.{IsAta}
use pl_dos.Ata.Transfer.{bytes_of, words_of, bytes_of-words_of}
use pl_dos.Ata.Sectors.{IsIdle, sector_of, disk_read_sector_lem, disk_write_sector_lem}

module _ (p : Ports) (a : IsAta p) where
  abbrev pub held : Driver p → ℕ → List ℕ
  held v l = bytes_of (sector_of p a v l)

  pub written_there :
      (lba : ℕ) (sector : List ℕ) (v : Driver p)
      → IsIdle p a v
      → lba < 2 ^ 28
      → IsSector sector
      → held (disk_write_sector p lba sector v).1 lba ≡ sector
  written_there lba sector v i h (l, small) =
      let self : (lba == lba) ≡ true = ground arith in
      ap (λ f. bytes_of (f lba)) (disk_write_sector_lem p a v lba i h sector l).2
      ∙ ap (λ b. bytes_of (if b then words_of sector else sector_of p a v lba)) self
      ∙ bytes_of-words_of 256 sector (omega (arith, l)) small

  pub kept_elsewhere :
      (lba k : ℕ) (sector : List ℕ) (v : Driver p)
      → IsIdle p a v
      → lba < 2 ^ 28
      → IsSector sector
      → lba ≢ k
      → held (disk_write_sector p lba sector v).1 k ≡ held v k
  kept_elsewhere lba k sector v i h (l, small) ne =
      let other : (lba == k) ≡ false = ground (arith, ne) in
      ap (λ f. bytes_of (f k)) (disk_write_sector_lem p a v lba i h sector l).2
      ∙ ap (λ b. bytes_of (if b then words_of sector else sector_of p a v k)) other

  pub detected_present : (v : Driver p) → IsIdle p a v → disk_present p v ≡ true
  unfolding disk_present
  detected_present v i = i.detected

  abbrev pub ata_disk-IsReliable : IsReliable (ata_disk p)
  ata_disk-IsReliable = record {
    Live = IsIdle p a;
    at = held;
    reads = λ lba v i h. (disk_read_sector_lem p a v lba i h).0;
    reads_keep = λ lba l v i h. ap (λ f. bytes_of (f l)) (disk_read_sector_lem p a v lba i h).2;
    reads_live = λ lba v i h. (disk_read_sector_lem p a v lba i h).1;
    writes = λ lba sector v i h s. (disk_write_sector_lem p a v lba i h sector s.0).0;
    written = written_there;
    others = λ lba l sector v. kept_elsewhere lba l sector v;
    writes_live = λ lba sector v i h s. (disk_write_sector_lem p a v lba i h sector s.0).1;
    present = detected_present;
  }
