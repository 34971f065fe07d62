-- ===== src/Programs/Commands.antt =====
-- The commands of progs/ that work on the terminal, the files and the disk. The argument is the array
-- `argv`, whose length is `argc`; the answer is the status that the command returns.
use pl_dos.Base.{
  ℕ, ◌+◌, ◌-◌, Bool, not, ◌||◌, Option, none, some, List, [], ◌∷◌, length, get_or, set, drop,
  replicate, ltb, ◌==◌, if◌then◌else◌, codes,
}
use pl_dos.Strings.{CString, Buffer, cstr}
use pl_dos.Filesystem.{Disk, root_path}
use pl_dos.System.{M, return, ◌>>=◌, ◌>>◌}
use pl_dos.Connector.Calls.{
  kc_clear, kc_print, kc_println, kc_strlen, kc_strcat, kc_fs_current_dir, kc_fs_cd, kc_fs_list,
  kc_fs_mkdir, kc_fs_touch, kc_fs_delete, kc_fs_move, kc_fs_copy, kc_fs_write, kc_fs_read,
  kc_fs_exists, kc_fs_disk_available, kc_fs_disk_enabled, kc_fs_disk_format, kc_fs_disk_save,
  kc_fs_disk_load, kc_disk_status,
}
use pl_dos.Programs.{Program, programs_all}

-- `KC_FS_MAX_FILE_SIZE`
abbrev pub kc_fs_max_file_size : ℕ
kc_fs_max_file_size = 4096

-- `argv[i]`, for an `i` below `argc`.
abbrev pub arg : List CString → ℕ → CString
arg argv i = get_or argv i []

-- `argc < n`
abbrev pub fewer : List CString → ℕ → Bool
fewer argv n = ltb (length argv) n

module _ (d : Disk) where
  open d use {Dev}

  -- `kc_println(text); return 1;`
  abbrev pub complain : CString → M Dev ℕ
  complain text = do kc_println d text; return 1

  unfoldable pub prog_about : List CString → M Dev ℕ
  prog_about argv = do
    kc_println d (codes "plDOS 0.1.0")
    kc_println d (codes "A tiny terminal-first DOS-style OS booting from a real ISO.")
    kc_println d
        (codes "Kernel services: VGA I/O, keyboard input, strings, memory, RAM filesystem.")
    return 0

  -- What `prog_cat` does with the bytes read.
  unfoldable pub show_file : Option (ℕ × List ℕ) → M Dev ℕ
  show_file none = complain (codes "File not found")
  show_file (some (count, buffer)) = do
    kc_print d (cstr (set buffer count 0))
    if count == 0 || not (get_or buffer (count - 1) 0 == 10) then kc_println d [] else return tt
    return 0

  unfoldable pub prog_cat : List CString → M Dev ℕ
  prog_cat argv =
      if fewer argv 2
      then complain (codes "Usage: cat <file>")
      else kc_fs_read d (arg argv 1) (replicate (kc_fs_max_file_size + 1) 0) kc_fs_max_file_size
        >>= show_file

  unfoldable pub prog_cd : List CString → M Dev ℕ
  prog_cd argv = if fewer argv 2 then kc_fs_cd d root_path else kc_fs_cd d (arg argv 1)

  unfoldable pub prog_clear : List CString → M Dev ℕ
  prog_clear argv = do kc_clear d; return 0

  unfoldable pub prog_copy : List CString → M Dev ℕ
  prog_copy argv =
      if fewer argv 3
      then complain (codes "Usage: copy <source> <destination>")
      else kc_fs_copy d (arg argv 1) (arg argv 2)

  unfoldable pub prog_del : List CString → M Dev ℕ
  prog_del argv =
      if fewer argv 2 then complain (codes "Usage: del <path>") else kc_fs_delete d (arg argv 1)

  -- The two tests of `prog_disk`.
  unfoldable pub disk_lines : M Dev ℕ
  disk_lines = do
    enabled ← kc_fs_disk_enabled d
    kc_println d (if enabled then codes "enabled" else codes "not initialized")
    enabled ← kc_fs_disk_enabled d
    if not enabled
        then kc_println d (codes "Attach a writable ATA disk and reboot to enable auto-save.")
        else return tt
    return 0

  unfoldable pub prog_disk : List CString → M Dev ℕ
  prog_disk argv = do
    kc_print d (codes "ATA: ")
    status ← kc_disk_status d
    kc_println d status
    kc_print d (codes "Persistence: ")
    disk_lines

  -- What follows the format of `prog_initdisk`, and the transfers of `prog_save` and `prog_load`.
  abbrev pub report : CString → CString → ℕ → M Dev ℕ
  report bad good status = if status == 0 then (do kc_println d good; return 0) else complain bad

  unfoldable pub prog_initdisk : List CString → M Dev ℕ
  prog_initdisk argv = do
    available ← kc_fs_disk_available d
    if not available then complain (codes "No writable ATA disk found") else do
      kc_println d (codes "Initializing plDOS storage area...")
      kc_fs_disk_format d
          >>= report (codes "Disk init failed")
              (codes "Persistence enabled. File changes auto-save to disk.")

  unfoldable pub prog_save : List CString → M Dev ℕ
  prog_save argv = kc_fs_disk_save d >>= report (codes "Save failed") (codes "Filesystem saved")

  unfoldable pub prog_load : List CString → M Dev ℕ
  prog_load argv =
      kc_fs_disk_load d
      >>= report (codes "No plDOS filesystem found on disk") (codes "Filesystem loaded")

  -- The loop of `prog_echo` over the arguments that are left.
  unfoldable pub echo_args : List CString → M Dev (Unit {0})
  echo_args [] = return tt
  echo_args (a ∷ []) = kc_print d a
  echo_args (a ∷ b ∷ args) = do kc_print d a; kc_print d (codes " "); echo_args (b ∷ args)

  unfoldable pub prog_echo : List CString → M Dev ℕ
  prog_echo argv = do echo_args (drop 1 argv); kc_println d []; return 0

  -- The loop of `prog_help`.
  unfoldable pub help_lines : List Program → M Dev (Unit {0})
  help_lines [] = return tt
  help_lines (p ∷ ps) =
      (if p.visible
        then (do
          kc_print d (codes "  ")
          kc_print d p.name
          kc_print d (codes " - ")
          kc_println d p.help)
        else return tt)
      >> help_lines ps

  unfoldable pub prog_help : List CString → M Dev ℕ
  unfolding programs_all
  prog_help argv = do
    kc_println d (codes "Commands in /progs:")
    help_lines programs_all.1
    kc_println d []
    kc_println d (
        codes
          "Add a new C command in progs/, declare it in progs/programs.c, then rebuild the ISO.")
    return 0

  unfoldable pub prog_ls : List CString → M Dev ℕ
  prog_ls argv =
      (if fewer argv 2 then kc_fs_current_dir d else return (arg argv 1)) >>= kc_fs_list d

  unfoldable pub prog_mkdir : List CString → M Dev ℕ
  prog_mkdir argv =
      if fewer argv 2 then complain (codes "Usage: mkdir <folder>") else kc_fs_mkdir d (arg argv 1)

  unfoldable pub prog_move : List CString → M Dev ℕ
  prog_move argv =
      if fewer argv 3
      then complain (codes "Usage: move <source> <destination>")
      else kc_fs_move d (arg argv 1) (arg argv 2)

  unfoldable pub prog_pwd : List CString → M Dev ℕ
  prog_pwd argv = do dir ← kc_fs_current_dir d; kc_println d dir; return 0

  unfoldable pub prog_touch : List CString → M Dev ℕ
  prog_touch argv =
      if fewer argv 2 then complain (codes "Usage: touch <file>") else kc_fs_touch d (arg argv 1)

  -- The loop of `prog_write` that joins the arguments that are left behind `text`.
  unfoldable pub join_args : Buffer → List CString → M Dev Buffer
  join_args text [] = return text
  join_args text (a ∷ []) = kc_strcat d text a
  join_args text (a ∷ b ∷ args) = do
    text ← kc_strcat d text a
    text ← kc_strcat d text (codes " ")
    join_args text (b ∷ args)

  -- The end of `prog_write`, once the file exists.
  unfoldable pub write_args : List CString → M Dev ℕ
  write_args argv = do
    text ← join_args (replicate kc_fs_max_file_size 0) (drop 2 argv)
    text ← kc_strcat d text (10 ∷ [])
    size ← kc_strlen d (cstr text)
    kc_fs_write d (arg argv 1) text size

  unfoldable pub prog_write : List CString → M Dev ℕ
  prog_write argv = if fewer argv 3 then complain (codes "Usage: write <file> <text>") else do
    found ← kc_fs_exists d (arg argv 1)
    if found
        then write_args argv
        else do rc ← kc_fs_touch d (arg argv 1); if rc == 0 then write_args argv else return rc
