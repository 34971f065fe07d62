-- ===== src/Filesystem/Storage/Saving.antt =====
-- What `fs_disk_save` and `persist_if_enabled` of kernel/filesystem.c do to the state in memory.
use pl_dos.Base.{
  ℕ, zero, suc, ◌+◌, ◌*◌, ◌<◌, ◌≡◌, length, length-drop, min, refl, inl, inr, ◌⊎◌, ap, sym, Bool,
  true, false, not, ◌&&◌, some, List, ◌++◌, take, drop, length-replicate, Bool-cases, arith,
}
use pl_dos.Memory.{kmemcpy}
use pl_dos.Memory.Bytes.{kmemcpy_lem}
use pl_dos.Filesystem.{Fs, Disk}
use pl_dos.Filesystem.Image.{image, fs_disk_bytes, fs_disk_data_sectors}
use pl_dos.Filesystem.Image.Decode.{length-image}
use pl_dos.Filesystem.Storage.{
  empty_sector, fs_disk_start_lba, header, remaining, chunk, save_sectors, save_image, saved,
  fs_disk_save, persist_if_enabled,
}

-- In the loop over the sectors, the bytes that remain are those of the table from the offset on.
pub chunk_fits :
    (s : ℕ) (rest : List ℕ)
    → s < fs_disk_data_sectors
    → length rest + s * 512 ≡ fs_disk_bytes
    → chunk s ≡ min (length rest) 512
chunk_fits s rest h e =
    let left : remaining s ≡ length rest = omega (arith, h, e) in rw left (ground arith)

module _ (d : Disk) where
  open d use {Dev, disk_present, disk_write_sector}

  -- The parts of the state that saving leaves alone.
  pub record IsKept (fs fs' : Fs Dev) : Type 0 where
    pub nodes : fs'.nodes ≡ fs.nodes
    pub current_dir : fs'.current_dir ≡ fs.current_dir
    pub console : fs'.console ≡ fs.console
    pub fs_booting : fs'.fs_booting ≡ fs.fs_booting

  sector_copied :
      (s : ℕ) (rest : List ℕ)
      → s < fs_disk_data_sectors
      → length rest + s * 512 ≡ fs_disk_bytes
      → kmemcpy empty_sector rest (chunk s)
        ≡ some (take (chunk s) rest ++ drop (chunk s) empty_sector)
  sector_copied s rest h e =
      let size = chunk_fits s rest h e in
      kmemcpy_lem empty_sector rest (chunk s) (omega (arith, size, length-replicate {A = ℕ} 512 0))
        (omega (arith, size))

  save_sectors-total :
      (rounds s : ℕ) (rest : List ℕ) (dev : Dev)
      → s + rounds ≡ fs_disk_data_sectors
      → length rest + s * 512 ≡ fs_disk_bytes
      → (out : Bool × Dev) × (save_sectors d rounds s rest dev ≡ some out)
  unfolding save_sectors
  save_sectors-total zero s rest dev n l = ((true, dev), refl)
  save_sectors-total (suc rounds) s rest dev n l =
      let sector = take (chunk s) rest ++ drop (chunk s) empty_sector in
      let (done, dev') = disk_write_sector (fs_disk_start_lba + 1 + s) sector dev in
      let (out, e) =
        save_sectors-total rounds (s + 1) (drop 512 rest) dev' (omega (arith, n))
          (omega (arith, n, l, length-drop 512 rest)) in
      rw (sector_copied s rest (omega (arith, n)) l)
        (elim (Bool-cases done) [ inl ok ↦ (out, rw ok e) | inr bad ↦ ((false, dev'), rw bad) ])

  save_image-total :
      (raw : List ℕ) (dev : Dev)
      → length raw ≡ fs_disk_bytes
      → (out : Bool × Dev) × (save_image d raw dev ≡ some out)
  unfolding save_image
  save_image-total raw dev l =
      let (done, dev') = disk_write_sector fs_disk_start_lba header dev in
      let (out, e) =
        save_sectors-total fs_disk_data_sectors 0 raw dev' (omega arith) (omega (arith, l)) in
      elim (Bool-cases done) [ inl ok ↦ (out, rw ok e) | inr bad ↦ ((false, dev'), rw bad) ]

  saved-IsKept : (fs : Fs Dev) (done : Bool) (dev : Dev) → IsKept fs (saved d fs (done, dev)).1
  unfolding saved
  saved-IsKept fs true dev = record {
    nodes = refl;
    current_dir = refl;
    console = refl;
    fs_booting = refl;
  }
  saved-IsKept fs false dev = record {
    nodes = refl;
    current_dir = refl;
    console = refl;
    fs_booting = refl;
  }

  pub fs_disk_save-IsKept :
      (fs : Fs Dev) → (out : Bool × Fs Dev) × (fs_disk_save d fs ≡ some out) × IsKept fs out.1
  unfolding fs_disk_save
  fs_disk_save-IsKept fs = elim (Bool-cases (disk_present fs.dev)) [
    | inl disk ↦
        let ((done, dev), e) = save_image-total (image fs.nodes) fs.dev (length-image fs.nodes) in
        (saved d fs (done, dev), rw (disk, e), saved-IsKept fs done dev)
    | inr no_disk ↦ (
      (false, fs),
      rw no_disk,
      record { nodes = refl; current_dir = refl; console = refl; fs_booting = refl },
    )
  ]

  pub persist-IsKept :
      (fs : Fs Dev) → (fs' : Fs Dev) × (persist_if_enabled d fs ≡ some fs') × IsKept fs fs'
  unfolding persist_if_enabled
  persist-IsKept fs = elim (Bool-cases (not fs.fs_booting && fs.persistence_enabled)) [
    | inl wanted ↦ let ((done, fs'), e, k) = fs_disk_save-IsKept fs in (fs', rw (wanted, e), k)
    | inr unwanted ↦ (
      fs,
      rw unwanted,
      record { nodes = refl; current_dir = refl; console = refl; fs_booting = refl },
    )
  ]

  -- What `persist_if_enabled` does: nothing during start-up, without saving enabled or without a disk;
  -- and otherwise the current table goes to the device, and nothing but the device changes.
  abbrev pub Persists : Fs Dev → Fs Dev → Type 0
  Persists fs fs' =
      (((fs.fs_booting ≡ true) ⊎ (fs.persistence_enabled ≡ false) ⊎ (disk_present fs.dev ≡ false))
        × (fs' ≡ fs))
      ⊎ ((fs.fs_booting ≡ false)
          × (fs.persistence_enabled ≡ true)
          × (disk_present fs.dev ≡ true)
          × ((done : Bool) × (dev : Dev) × (save_image d (image fs.nodes) fs.dev ≡ some (done, dev))
              × (fs' ≡ record fs { dev = dev })))

  saved-dev :
      (fs : Fs Dev) (done : Bool) (dev : Dev)
      → fs.persistence_enabled ≡ true
      → (saved d fs (done, dev)).1 ≡ record fs { dev = dev }
  unfolding saved
  saved-dev fs true dev on = ap (λ b. record fs { dev = dev; persistence_enabled = b }) (sym on)
  saved-dev fs false dev on = refl

  -- Whatever the disk answers, `persist_if_enabled` reads the table within its bytes and overruns no
  -- array. It changes nothing during start-up, while saving is not enabled, and without a disk; else it
  -- hands the current table to the disk and changes nothing but the device.
  pub persist-Persists :
      (fs : Fs Dev) → (fs' : Fs Dev) × (persist_if_enabled d fs ≡ some fs') × Persists fs fs'
  unfolding persist_if_enabled fs_disk_save
  persist-Persists fs = elim (Bool-cases fs.fs_booting) [
    | inl booting ↦ (fs, rw booting, inl (inl booting, refl))
    | inr running ↦ elim (Bool-cases fs.persistence_enabled) [
      | inr off ↦ (fs, rw (running, off), inl (inr (inl off), refl))
      | inl on ↦ elim (Bool-cases (disk_present fs.dev)) [
        | inr no_disk ↦ (fs, rw (running, on, no_disk), inl (inr (inr no_disk), refl))
        | inl disk ↦
            let ((done, dev), e) =
              save_image-total (image fs.nodes) fs.dev (length-image fs.nodes) in
            (
              (saved d fs (done, dev)).1,
              rw (running, on, disk, e) refl,
              inr (running, on, disk, (done, dev, e, saved-dev fs done dev on)),
            )
      ]
    ]
  ]
