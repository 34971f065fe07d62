-- ===== src/Filesystem/Storage/Restart.antt =====
-- `fs_init` of kernel/filesystem.c on a device that holds a table.
use pl_dos.Base.{
  ℕ, ◌<◌, ◌≡◌, refl, ◌∙◌, true, false, Option, none, some, List, length, length-replicate,
  replicate, All-replicate, arith,
}
use pl_dos.Strings.{Buffer, cstr, str_copy}
use pl_dos.Strings.Buffers.{Writes, str_copy-Writes}
use pl_dos.Filesystem.{Fs, Disk, Node, zero_node, fs_max_files, fs_max_path, root_path}
use pl_dos.Filesystem.Image.Decode.{IsStored}
use pl_dos.Filesystem.Storage.Loading.{IsReliable}
use pl_dos.Filesystem.Image.Decode.{IsStoredTable}
use pl_dos.Filesystem.Storage.RoundTrip.{OnDisk, fs_disk_load-OnDisk}
use pl_dos.Filesystem.Tree.{fs_init, init_disk}

pub zero_node-IsStored : IsStored zero_node
zero_node-IsStored = record {
  name_size = refl;
  path_size = refl;
  content_size = length-replicate {A = ℕ} 4096 0;
  name_bytes = All-replicate {A = ℕ} (λ b. b < 256) 32 0 (omega arith);
  path_bytes = All-replicate {A = ℕ} (λ b. b < 256) 128 0 (omega arith);
  content_bytes = All-replicate {A = ℕ} (λ b. b < 256) 4096 0 (omega arith);
  type_fits = omega arith;
  parent_fits = omega arith;
  size_fits = omega arith;
  used_fits = omega arith;
}

pub empty-IsStoredTable : IsStoredTable (replicate fs_max_files zero_node)
empty-IsStoredTable = record {
  count = refl;
  each = All-replicate IsStored 128 zero_node zero_node-IsStored;
}

module _ (d : Disk) (r : IsReliable d) where
  -- The state after a boot from the table `nodes`.
  pub record IsRestored (nodes : List Node) (fs : Fs d.Dev) : Type 0 where
    pub same_nodes : fs.nodes ≡ nodes
    pub at_root : cstr fs.current_dir ≡ root_path
    pub enabled : fs.persistence_enabled ≡ true
    pub booted : fs.fs_booting ≡ false

  pub fs_init-OnDisk :
      (fs : Fs d.Dev) (nodes : List Node)
      → IsStoredTable nodes
      → length fs.current_dir ≡ fs_max_path
      → r.Live fs.dev
      → OnDisk d r nodes fs.dev
      → (fs' : Fs d.Dev) × (fs_init d fs ≡ some fs') × IsRestored nodes fs'
  unfolding fs_init init_disk
  fs_init-OnDisk fs nodes v size live on =
      copied (str_copy fs.current_dir root_path) refl
        (str_copy-Writes fs.current_dir root_path (omega arith) (omega arith))
    where
      copied :
          (q : Option Buffer)
          → str_copy fs.current_dir root_path ≡ q
          → Writes q (length fs.current_dir) root_path
          → (fs' : Fs d.Dev) × (fs_init d fs ≡ some fs') × IsRestored nodes fs'
      copied none e w = absurd w
      copied (some b) e w =
          let (fs', done, same, root, on_disk) =
            fs_disk_load-OnDisk d r
              (record fs {
                nodes = replicate fs_max_files zero_node;
                current_dir = b;
                persistence_enabled = false;
                fs_booting = true;
              })
              nodes v empty-IsStoredTable (w.1 ∙ size) live on in
          (
            record fs' { fs_booting = false },
            rw (e, r.present fs.dev live, done) refl,
            record { same_nodes = same; at_root = root; enabled = on_disk; booted = refl },
          )
