-- ===== src/Filesystem/Storage/RoundTrip.antt =====
-- `fs_disk_load` after `fs_disk_save` of kernel/filesystem.c.
use pl_dos.Base.{
  ℕ, ◌+◌, ◌<◌, set, length-set, length-append, replicate, All-set, All-append, All-replicate, ◌++◌,
  ◌^◌, ◌≡◌, refl, ◌∙◌, true, Option, none, some, List, length, arith,
}
use pl_dos.Strings.{Buffer, cstr, str_copy}
use pl_dos.Strings.Buffers.{Writes, str_copy-Writes}
use pl_dos.Filesystem.{Fs, Disk, Node, fs_max_files, fs_max_file_size, fs_max_path, root_path}
use pl_dos.Filesystem.Image.{
  write_u32, read_u32, fs_disk_bytes, image, nodes_of_image, fs_disk_data_sectors,
}
use pl_dos.Filesystem.Image.Decode.{IsStoredTable, All-image, length-image, nodes_of_image-image}
use pl_dos.Filesystem.Storage.{
  fs_disk_start_lba, fs_disk_magic, fs_disk_version, header, same_bytes, is_header, save_image,
  saved, fs_disk_save, load_sectors, loaded, read_image, fs_disk_load,
}
use pl_dos.Filesystem.Storage.Loading.{
  IsReliable, IsSector, Holds, Holds-same, save_sectors-Holds, load_sectors-Holds,
}

header_accepted : is_header header ≡ true
unfolding header is_header same_bytes write_u32 read_u32
header_accepted = refl

set-IsSector :
    (buf : List ℕ) (offset value : ℕ) → IsSector buf → value < 256 → IsSector (set buf offset value)
set-IsSector buf offset value (l, small) h =
    (length-set buf offset value ∙ l, All-set (λ b. b < 256) buf offset value small h)

write_u32-IsSector :
    (buf : List ℕ) (offset value : ℕ) → IsSector buf → IsSector (write_u32 buf offset value)
unfolding write_u32
write_u32-IsSector buf offset value whole =
    set-IsSector _ (offset + 3) _
      (set-IsSector _ (offset + 2) _
        (set-IsSector _ (offset + 1) _ (set-IsSector buf offset _ whole (omega arith))
          (omega arith))
        (omega arith))
      (omega arith)

magic-IsSector : IsSector (fs_disk_magic ++ replicate 504 0)
magic-IsSector = (
  length-append fs_disk_magic (replicate 504 0),
  All-append (λ b. b < 256) fs_disk_magic (replicate 504 0) (omega arith)
      (All-replicate (λ b. b < 256) 504 0 (omega arith)),
)

header-IsSector : IsSector header
unfolding header
header-IsSector =
    let magic = fs_disk_magic ++ replicate 504 0 in
    let version = write_u32 magic 8 fs_disk_version in
    let total = write_u32 version 12 fs_disk_bytes in
    let files = write_u32 total 16 fs_max_files in
    write_u32-IsSector files 20 fs_max_file_size (
      write_u32-IsSector total 16 fs_max_files (
        write_u32-IsSector version 12 fs_disk_bytes
          (write_u32-IsSector magic 8 fs_disk_version magic-IsSector)))

module _ (d : Disk) (r : IsReliable d) where
  -- The device holds the table.
  abbrev pub OnDisk : List Node → d.Dev → Type 0
  OnDisk nodes dev =
      (r.at dev fs_disk_start_lba ≡ header) × Holds d r fs_disk_data_sectors 0 (image nodes) dev

  pub save_image-OnDisk :
      (nodes : List Node) (dev : d.Dev)
      → IsStoredTable nodes
      → r.Live dev
      → (dev' : d.Dev) × (save_image d (image nodes) dev ≡ some (true, dev'))
        × OnDisk nodes dev'
        × r.Live dev'
  unfolding save_image
  save_image-OnDisk nodes dev v live =
      let dev1 = (d.disk_write_sector fs_disk_start_lba header dev).1 in
      let near : fs_disk_start_lba < 2 ^ 28 = omega arith in
      let (dev', e, held, kept, alive) =
        save_sectors-Holds d r fs_disk_data_sectors 0 (image nodes) dev1
          (r.writes_live fs_disk_start_lba header dev live near header-IsSector) (omega arith)
          (omega (arith, length-image nodes)) (All-image nodes v) in
      (
        dev',
        rw (r.writes fs_disk_start_lba header dev live near header-IsSector, e),
        (
          kept fs_disk_start_lba (omega arith)
              ∙ r.written fs_disk_start_lba header dev live near header-IsSector,
          held,
        ),
        alive,
      )

  -- A save, and the device afterwards.
  pub fs_disk_save-OnDisk :
      (fs : Fs d.Dev)
      → IsStoredTable fs.nodes
      → r.Live fs.dev
      → (fs' : Fs d.Dev) × (fs_disk_save d fs ≡ some (true, fs'))
        × OnDisk fs.nodes fs'.dev
        × r.Live fs'.dev
  unfolding fs_disk_save saved
  fs_disk_save-OnDisk fs v live =
      let (dev', e, on, alive) = save_image-OnDisk fs.nodes fs.dev v live in
      (
        record fs { dev = dev'; persistence_enabled = true },
        rw (r.present fs.dev live, e) refl,
        on,
        alive,
      )

  pub fs_disk_load-OnDisk :
      (fs : Fs d.Dev) (nodes : List Node)
      → IsStoredTable nodes
      → IsStoredTable fs.nodes
      → length fs.current_dir ≡ fs_max_path
      → r.Live fs.dev
      → OnDisk nodes fs.dev
      → (fs' : Fs d.Dev) × (fs_disk_load d fs ≡ some (true, fs'))
        × (fs'.nodes ≡ nodes)
        × (cstr fs'.current_dir ≡ root_path)
        × (fs'.persistence_enabled ≡ true)
  unfolding fs_disk_load read_image loaded
  fs_disk_load-OnDisk fs nodes v old dir live on =
      let near : fs_disk_start_lba < 2 ^ 28 = omega arith in
      let dev1 = (d.disk_read_sector fs_disk_start_lba fs.dev).1 in
      let held =
        Holds-same d r fs_disk_data_sectors 0 (image nodes) fs.dev dev1
          (λ l lt. r.reads_keep fs_disk_start_lba l fs.dev live near) on.1 in
      let (dev', e) =
        load_sectors-Holds d r fs_disk_data_sectors 0 (image fs.nodes) (image nodes) dev1 held
          (omega (arith, length-image fs.nodes, length-image nodes))
          (omega (arith, length-image nodes)) (r.reads_live fs_disk_start_lba fs.dev live near)
          (omega arith) in
      let table : nodes_of_image fs_max_files (image nodes) ≡ nodes =
        nodes_of_image-image nodes v in
      copied dev' e table (str_copy fs.current_dir root_path) refl
        (str_copy-Writes fs.current_dir root_path (omega arith) (omega arith))
    where
      copied :
          (dev' : d.Dev)
          → load_sectors d fs_disk_data_sectors 0
              (image fs.nodes)
              (d.disk_read_sector fs_disk_start_lba fs.dev).1
            ≡ some (true, image nodes, dev')
          → nodes_of_image fs_max_files (image nodes) ≡ nodes
          → (q : Option Buffer) → str_copy fs.current_dir root_path ≡ q
          → Writes q (length fs.current_dir) root_path
          → (fs' : Fs d.Dev) × (fs_disk_load d fs ≡ some (true, fs'))
            × (fs'.nodes ≡ nodes)
            × (cstr fs'.current_dir ≡ root_path)
            × (fs'.persistence_enabled ≡ true)
      copied dev' e table none c w = absurd w
      copied dev' e table (some b) c w = (
        record fs {
          nodes = nodes_of_image fs_max_files (image nodes);
          dev = dev';
          current_dir = b;
          persistence_enabled = true;
        },
        rw (
          r.present fs.dev live,
          r.reads fs_disk_start_lba fs.dev live (omega arith),
          on.0,
          header_accepted,
          e,
          c,
        ),
        table,
        w.0,
        refl,
      )

  -- On a reliable device that is present, saving a table answers success, and loading afterwards into
  -- any state of the filesystem with that device answers success and brings the table back, with the
  -- root as the current directory and saving enabled.
  pub fs_disk_load-fs_disk_save :
      (fs other : Fs d.Dev)
      → IsStoredTable fs.nodes
      → IsStoredTable other.nodes
      → length other.current_dir ≡ fs_max_path
      → r.Live fs.dev
      → (fs' : Fs d.Dev) × (fs_disk_save d fs ≡ some (true, fs'))
        × ((loaded_fs : Fs d.Dev) × (fs_disk_load d (record other { dev = fs'.dev })
              ≡ some (true, loaded_fs))
            × (loaded_fs.nodes ≡ fs.nodes)
            × (cstr loaded_fs.current_dir ≡ root_path)
            × (loaded_fs.persistence_enabled ≡ true))
  fs_disk_load-fs_disk_save fs other v old dir live =
      let (fs', e, on, alive) = fs_disk_save-OnDisk fs v live in
      (fs', e, fs_disk_load-OnDisk (record other { dev = fs'.dev }) fs.nodes v old dir alive on)
