-- ===== src/Connector/Tree.antt =====
-- The requests of kernel/kernel_connector.c that keep the node table a tree: all but a move and a load.
use pl_dos.Base.{
  ℕ, ◌≤◌, ◌≡◌, refl, sym, subst, inl, inr, Bool, true, false, Option, none, some, List, [], length,
  Bool-cases, ◌>>=◌,
}
use pl_dos.Strings.{CString}
use pl_dos.Users.{Users, users_add}
use pl_dos.Io.{Terminal}
use pl_dos.Io.Keyboard.{io_read_char}
use pl_dos.Filesystem.{Fs, Disk, node_at, is_dir, find_node}
use pl_dos.Filesystem.Valid.{IsTree}
use pl_dos.Filesystem.Calls.{resolve, fs_change_dir, fs_create_dir, fs_create_file, fs_delete}
use pl_dos.Filesystem.Files.{list_at, fs_list_dir, fs_write_file, fs_copy}
use pl_dos.Filesystem.Files.Write.{fs_write_file-WritesAt}
use pl_dos.Filesystem.Storage.{fs_disk_save, fs_disk_format}
use pl_dos.Filesystem.Storage.Saving.{fs_disk_save-IsKept}
use pl_dos.Filesystem.History.{KeepsTree, Call, step-KeepsTree, writes}
use pl_dos.System.{System, printed, on_fs}
use pl_dos.System.Keeps.{After, Keeps}
use pl_dos.Connector.{Request, status_of, add_user_named, take_char, kernel_connector_request}
use pl_dos.Connector.Request.{
  cd, list, mkdir, touch, delete, move, copy, write, disk_format, disk_save, disk_load, user_add,
  user_remove, user_login, user_logout,
}
use pl_dos.Connector.Keeping.{others-Keep}

module _ (d : Disk) where
  open d use {Dev}

  abbrev pub HasTree : System Dev → Type 0
  HasTree s = IsTree s.fs.nodes

  -- A call of the filesystem that keeps the tree, on the state that it finds.
  on_fs-HasTree :
      (call : Fs Dev → Option (ℕ × Fs Dev))
      → ((fs : Fs Dev) → IsTree fs.nodes → KeepsTree (call fs))
      → Keeps HasTree (on_fs call)
  on_fs-HasTree call keeps s v = after (call (record s.fs { console = [] })) (keeps _ v)
    where
      after :
          (r : Option (ℕ × Fs Dev))
          → KeepsTree r
          → After HasTree (elim r [ none ↦ none | some (a, fs) ↦ some (a, printed s fs) ])
      after none h = tt
      after (some (a, fs)) h = h

  list_at-IsTree : (fs : Fs Dev) (o : Option ℕ) → IsTree fs.nodes → IsTree (list_at fs o).1.nodes
  unfolding list_at
  list_at-IsTree fs none v = v
  list_at-IsTree fs (some i) v = elim (Bool-cases (is_dir (node_at fs.nodes i))) [
    | inl e ↦ rw e v
    | inr e ↦ rw e v
  ]

  lists-KeepsTree :
      (fs : Fs Dev) (path : CString) → IsTree fs.nodes → KeepsTree (fs_list_dir fs path)
  unfolding fs_list_dir
  lists-KeepsTree fs path v = listed (resolve fs path)
    where
      listed :
          (r : Option CString)
          → KeepsTree (r >>= λ resolved. some (list_at fs (find_node fs.nodes resolved)))
      listed none = tt
      listed (some s) = list_at-IsTree fs (find_node fs.nodes s) v

  saves-KeepsTree : (fs : Fs Dev) → IsTree fs.nodes → KeepsTree (status_of (fs_disk_save d fs))
  saves-KeepsTree fs v =
      let (out, e, kept) = fs_disk_save-IsKept d fs in
      subst (λ r. KeepsTree (status_of r)) (sym e) (subst IsTree (sym kept.nodes) v)

  formats-KeepsTree : (fs : Fs Dev) → IsTree fs.nodes → KeepsTree (status_of (fs_disk_format d fs))
  unfolding fs_disk_format
  formats-KeepsTree fs v = elim (Bool-cases (d.disk_present fs.dev)) [
    | inl e ↦ rw e (saves-KeepsTree (record fs { persistence_enabled = true }) v)
    | inr e ↦ rw e v
  ]

  take_char-HasTree : Keeps HasTree (take_char d)
  take_char-HasTree s v = taken (io_read_char s.keys s.terminal)
    where
      taken :
          (r : Option (ℕ × List ℕ × Terminal))
          → After HasTree (elim r [
            | none ↦ none
            | some (c, keys, t) ↦ some (c, record s { keys = keys; terminal = t })
          ])
      taken none = tt
      taken (some (c, keys, t)) = v

  added-HasTree : (name : CString) (admin : ℕ) → Keeps HasTree (add_user_named d name admin)
  added-HasTree name admin s v = added (users_add s.users (some name) admin)
    where
      added :
          (r : Option (ℕ × Users))
          → After HasTree (elim r [
            | none ↦ none
            | some (status, users) ↦ some (status, record s { users = users })
          ])
      added none = tt
      added (some (status, users)) = v

  pub written-HasTree :
      (path : CString) (bytes : List ℕ) (size : ℕ)
      → size ≤ length bytes
      → Keeps HasTree (kernel_connector_request d (write path bytes size))
  unfolding kernel_connector_request
  written-HasTree path bytes size given =
      on_fs-HasTree (λ fs. fs_write_file d fs path bytes size)
        (λ fs v. writes d fs path _ _ _ v (fs_write_file-WritesAt d fs path bytes size v given))

  abbrev pub keeps_tree : Request → Bool
  keeps_tree (move src dest) = false
  keeps_tree (write path bytes size) = false
  keeps_tree disk_load = false
  keeps_tree r = true

  pub request-HasTree :
      (r : Request) → keeps_tree r ≡ true → Keeps HasTree (kernel_connector_request d r)
  unfolding kernel_connector_request
  request-HasTree (cd path) e =
      on_fs-HasTree (λ fs. fs_change_dir fs path)
        (λ fs v. step-KeepsTree d fs (Call.change_dir path) v)
  request-HasTree (list path) e =
      on_fs-HasTree (λ fs. fs_list_dir fs path) (λ fs v. lists-KeepsTree fs path v)
  request-HasTree (mkdir path) e =
      on_fs-HasTree (λ fs. fs_create_dir d fs path)
        (λ fs v. step-KeepsTree d fs (Call.create_dir path) v)
  request-HasTree (touch path) e =
      on_fs-HasTree (λ fs. fs_create_file d fs path)
        (λ fs v. step-KeepsTree d fs (Call.create_file path) v)
  request-HasTree (delete path) e =
      on_fs-HasTree (λ fs. fs_delete d fs path) (λ fs v. step-KeepsTree d fs (Call.delete path) v)
  request-HasTree (copy src dest) e =
      on_fs-HasTree (λ fs. fs_copy d fs src dest)
        (λ fs v. step-KeepsTree d fs (Call.copy src dest) v)
  request-HasTree disk_format e =
      on_fs-HasTree (λ fs. status_of (fs_disk_format d fs)) formats-KeepsTree
  request-HasTree disk_save e = on_fs-HasTree (λ fs. status_of (fs_disk_save d fs)) saves-KeepsTree
  request-HasTree (user_add name admin) e = added-HasTree name admin
  request-HasTree (user_remove name) e = λ s v. v
  request-HasTree (user_login name) e = λ s v. v
  request-HasTree user_logout e = λ s v. v
  request-HasTree (move src dest) e = absurd (cc)
  request-HasTree (write path bytes size) e = absurd (cc)
  request-HasTree disk_load e = absurd (cc)
  request-HasTree r e = others-Keep d HasTree (λ call keeps s v. v) take_char-HasTree r refl refl
