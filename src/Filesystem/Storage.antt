-- ===== src/Filesystem/Storage.antt =====
-- `fs_disk_save`, `fs_disk_load` and their kin in kernel/filesystem.c, over what kernel/disk.c offers.
-- A result `true` is the status 0.
pub mod Loading
pub mod Restart
pub mod RoundTrip
pub mod Saving
use pl_dos.Base.{
  ℕ, zero, suc, ◌+◌, ◌-◌, ◌*◌, ◌%◌, ◌^◌, ltb, Bool, true, false, not, ◌&&◌, ◌||◌, Option, none,
  some, List, [], ◌∷◌, ◌++◌, length, take, drop, replicate, min, ◌==◌, if◌then◌else◌, ◌>>=◌, codes,
}
use pl_dos.Strings.{CString, str_eq, str_copy}
use pl_dos.Memory.{kmemcpy}
use pl_dos.Filesystem.{Fs, Disk, fs_max_files, fs_max_file_size, root_path}
use pl_dos.Filesystem.Image.{
  write_u32, read_u32, image, nodes_of_image, fs_disk_bytes, fs_disk_data_sectors,
}

abbrev pub fs_disk_magic : CString
fs_disk_magic = codes "PLDOSFS1"

abbrev pub fs_disk_version : ℕ
fs_disk_version = 1

abbrev pub fs_disk_start_lba : ℕ
fs_disk_start_lba = 2048

abbrev pub empty_sector : List ℕ
empty_sector = replicate 512 0

-- The first sector of the storage area.
unfoldable pub header : List ℕ
unfolding write_u32
header =
    let sector = fs_disk_magic ++ replicate 504 0 in
    let sector = write_u32 sector 8 fs_disk_version in
    let sector = write_u32 sector 12 fs_disk_bytes in
    let sector = write_u32 sector 16 fs_max_files in write_u32 sector 20 fs_max_file_size

-- The loop `for (i = 0; i < 8; i++) if (sector[i] != FS_DISK_MAGIC[i]) return 1;`
unfoldable pub same_bytes : List ℕ → List ℕ → Bool
same_bytes [] bytes = true
same_bytes (m ∷ magic) [] = false
same_bytes (m ∷ magic) (b ∷ bytes) = (m == b) && same_bytes magic bytes

-- The tests of `fs_disk_load` on that sector.
unfoldable pub is_header : List ℕ → Bool
is_header sector =
    same_bytes fs_disk_magic sector
    && (read_u32 sector 8 == fs_disk_version)
    && (read_u32 sector 12 == fs_disk_bytes)
    && (read_u32 sector 16 == fs_max_files)
    && (read_u32 sector 20 == fs_max_file_size)

-- `FS_DISK_BYTES - s * 512`, in 32 bits.
abbrev pub remaining : ℕ → ℕ
remaining s = (fs_disk_bytes + 2 ^ 32 - s * 512 % 2 ^ 32) % 2 ^ 32

-- `remaining < 512 ? remaining : 512`
abbrev pub chunk : ℕ → ℕ
chunk s = if ltb (remaining s) 512 then remaining s else 512

module _ (d : Disk) where
  open d use {Dev, disk_present, disk_read_sector, disk_write_sector}

  -- The loop over the data sectors, from sector `s` and `raw + offset` on.
  pub save_sectors : ℕ → ℕ → List ℕ → Dev → Option (Bool × Dev)
  save_sectors zero s rest dev = some (true, dev)
  save_sectors (suc rounds) s rest dev = do
    sector ← kmemcpy empty_sector rest (chunk s)
    let (done, dev') = disk_write_sector (fs_disk_start_lba + 1 + s) sector dev
    let later = save_sectors rounds (s + 1) (drop 512 rest) dev'
    if done then later else some (false, dev')

  -- The device afterwards, and whether the whole table was written.
  pub save_image : List ℕ → Dev → Option (Bool × Dev)
  save_image raw dev =
      let (done, dev') = disk_write_sector fs_disk_start_lba header dev in
      if done then save_sectors fs_disk_data_sectors 0 raw dev' else some (false, dev')

  -- What follows the writes: `persistence_enabled = 1; return 0;`, or `return 1;`.
  saved : Fs Dev → Bool × Dev → Bool × Fs Dev
  saved fs (true, dev) = (true, record fs { dev = dev; persistence_enabled = true })
  saved fs (false, dev) = (false, record fs { dev = dev })

  pub fs_disk_save : Fs Dev → Option (Bool × Fs Dev)
  fs_disk_save fs =
      if disk_present fs.dev
      then (do out ← save_image (image fs.nodes) fs.dev; some (saved fs out))
      else some (false, fs)

  -- The loop that reads the data sectors over the bytes `rest` of the table: whether every sector
  -- was read, what those bytes are now, and the device.
  pub load_sectors : ℕ → ℕ → List ℕ → Dev → Option (Bool × List ℕ × Dev)
  load_sectors zero s rest dev = some (true, rest, dev)
  load_sectors (suc rounds) s rest dev =
      let (answer, dev') = disk_read_sector (fs_disk_start_lba + 1 + s) dev in
      elim answer [
        | none ↦ some (false, rest, dev')
        | some sector ↦ do
          written ← kmemcpy rest sector (chunk s)
          (done, later, dev'') ← load_sectors rounds (s + 1) (drop 512 written) dev'
          some (done, take 512 written ++ later, dev'')
      ]

  -- A failure inside the loop leaves the table partly overwritten.
  loaded : Fs Dev → Bool × List ℕ × Dev → Option (Bool × Fs Dev)
  loaded fs (false, raw, dev) =
      some (false, record fs { nodes = nodes_of_image fs_max_files raw; dev = dev })
  loaded fs (true, raw, dev) = do
    dir ← str_copy fs.current_dir root_path
    some (
      true,
      record fs {
        nodes = nodes_of_image fs_max_files raw;
        dev = dev;
        current_dir = dir;
        persistence_enabled = true;
      },
    )

  -- What `fs_disk_load` does with the answer for the first sector.
  pub read_image : Fs Dev → Option (List ℕ) → Dev → Option (Bool × Fs Dev)
  read_image fs none dev = some (false, record fs { dev = dev })
  read_image fs (some sector) dev =
      if is_header sector
      then (do out ← load_sectors fs_disk_data_sectors 0 (image fs.nodes) dev; loaded fs out)
      else some (false, record fs { dev = dev })

  pub fs_disk_load : Fs Dev → Option (Bool × Fs Dev)
  fs_disk_load fs =
      let (answer, dev) = disk_read_sector fs_disk_start_lba fs.dev in
      if disk_present fs.dev then read_image fs answer dev else some (false, fs)

  pub fs_disk_available : Fs Dev → Bool
  fs_disk_available fs = disk_present fs.dev

  pub fs_disk_enabled : Fs Dev → Bool
  fs_disk_enabled fs = fs.persistence_enabled

  unfoldable pub fs_disk_format : Fs Dev → Option (Bool × Fs Dev)
  fs_disk_format fs =
      if disk_present fs.dev
      then fs_disk_save (record fs { persistence_enabled = true })
      else some (false, fs)

  unfoldable pub persist_if_enabled : Fs Dev → Option (Fs Dev)
  persist_if_enabled fs =
      if not fs.fs_booting && fs.persistence_enabled
      then (do (done, fs') ← fs_disk_save fs; some fs')
      else some fs
