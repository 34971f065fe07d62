-- ===== src/Hosted/Files.antt =====
-- src/filesystem.c: a table of files without directories inside it. `none` is a write outside an array.
use pl_dos.Base.{
  ℕ, zero, suc, ◌+◌, ◌-◌, ◌%◌, ◌^◌, Bool, false, Option, none, some, List, [], ◌∷◌, ◌++◌, take,
  get_or, set, leb, ltb, ◌==◌, if◌then◌else◌, find_index, codes, pos, ◌>>=◌, is_some,
}
use pl_dos.Strings.{CString, Buffer, cstr, str_len, str_copy, str_eq}
use pl_dos.Io.Numbers.{int_chars}

abbrev pub max_files : ℕ
max_files = 256

abbrev pub file_size : ℕ
file_size = 4096

abbrev pub type_file : ℕ
type_file = 0

abbrev pub type_dir : ℕ
type_dir = 1

-- `file_entry_t`
pub record File : Type 0 where
  pub name : Buffer
  pub type : ℕ
  pub size : ℕ
  pub content : Buffer
  pub created : ℕ

-- `filesystem_t`
pub record Table : Type 0 where
  pub files : List File
  pub file_count : ℕ

-- `fs`, where `none` is NULL, `current_dir`, and the text printed.
pub record Host : Type 0 where
  pub fs : Option Table
  pub current_dir : Buffer
  pub console : CString

abbrev pub newline : CString
newline = 10 ∷ []

abbrev pub io_print : Host → CString → Host
io_print h text = record h { console = h.console ++ text }

abbrev pub io_println : Host → CString → Host
io_println h text = record h { console = h.console ++ (text ++ newline) }

-- What the model reads outside the table; no call does.
abbrev pub no_file : File
no_file = record { name = []; type = 0; size = 0; content = []; created = 0 }

abbrev pub file_at : Table → ℕ → File
file_at t i = get_or t.files i no_file

-- The files that are there.
abbrev pub used_files : Table → List File
used_files t = take t.file_count t.files

abbrev pub is_named : CString → File → Bool
is_named name f = str_eq (cstr f.name) name

-- The index at which a search loop stops.
unfoldable pub file_named : Table → CString → Option ℕ
file_named t name = find_index (is_named name) (used_files t)

-- The new table is `storage`, as `malloc` gives it.
unfoldable pub fs_init : Host → Table → Option Host
fs_init h storage = elim h.fs [
  | some t ↦ some h
  | none ↦ do
    name ← str_copy (file_at storage 0).name (b'/' ∷ [])
    some (record h {
      fs = some (record {
        files =
            set storage.files 0
              (record (file_at storage 0) { name = name; type = type_dir; size = 0 });
        file_count = 1;
      });
    })
]

unfoldable pub fs_file_exists : Host → CString → Bool
fs_file_exists h name = elim h.fs [ none ↦ false | some t ↦ is_some (file_named t name) ]

-- The index of the entry that the code returns a pointer to.
unfoldable pub fs_get_file : Host → CString → Option (ℕ × Table)
fs_get_file h name = elim h.fs [
  | none ↦ none
  | some t ↦ elim (file_named t name) [ none ↦ none | some i ↦ some (i, t) ]
]

-- The entry that is written behind the last one; `content` keeps what the slot held.
unfoldable pub append_entry : Table → CString → ℕ → Option Table
append_entry t name type = do
  name ← str_copy (file_at t t.file_count).name name
  some (record {
    files =
        set t.files t.file_count
          (record (file_at t t.file_count) { name = name; type = type; size = 0; created = 0 });
    file_count = (t.file_count + 1) % 2 ^ 16;
  })

-- `fs_create_file` and `fs_create_dir`, which differ in the type and the messages.
unfoldable pub create_entry : Host → CString → ℕ → CString → CString → Option Host
create_entry h name type exists created = elim h.fs [
  | none ↦ some h
  | some t ↦
      if leb max_files t.file_count
      then some (io_println h (codes "Error: Maximum file limit reached"))
      else if fs_file_exists h name
      then some (io_println h exists)
      else do
        t ← append_entry t name type
        some (io_println (io_print (record h { fs = some t }) created) name)
]

unfoldable pub fs_create_file : Host → CString → Option Host
fs_create_file h name =
    create_entry h name type_file (codes "Error: File already exists") (codes "Created file: ")

unfoldable pub fs_create_dir : Host → CString → Option Host
fs_create_dir h name =
    create_entry h name type_dir (codes "Error: Directory already exists")
      (codes "Created directory: ")

unfoldable pub file_lines : List File → CString
file_lines [] = []
file_lines (f ∷ fs) =
    (if f.type == type_dir then codes "[DIR]  " else codes "[FILE] ")
    ++ (cstr f.name
        ++ (codes " - Size: "
            ++ (int_chars (pos f.size) ++ (codes " bytes" ++ (newline ++ file_lines fs)))))

unfoldable pub fs_list_files : Host → Host
fs_list_files h = elim h.fs [
  | none ↦ h
  | some t ↦
      let h = io_println h (10 ∷ codes "=== File Listing ===") in
      io_println (io_print h (file_lines (used_files t))) (codes "====================" ++ newline)
]

-- The copy loop of `fs_write_file` and its terminator: the array has `file_size` bytes, and the
-- terminator of that many lies behind it.
unfoldable pub write_entry : Host → Table → ℕ → CString → Option Host
write_entry h t i bytes =
    let f = file_at t i in
    if f.type == type_dir
    then some (io_println h (codes "Error: Cannot write to directory"))
    else if ltb file_size (str_len bytes)
    then some (io_println h (codes "Error: Data too large for file"))
    else do
      content ← str_copy f.content bytes
      some (
          io_println
            (record h {
              fs = some (record t {
                files = set t.files i (record f { content = content; size = str_len bytes });
              });
            })
            (codes "File written successfully"))

unfoldable pub fs_write_file : Host → CString → CString → Option Host
fs_write_file h name bytes = elim (fs_get_file h name) [
  | none ↦ some (io_println h (codes "Error: File not found"))
  | some (i, t) ↦ write_entry h t i bytes
]

unfoldable pub read_entry : Host → File → Host
read_entry h f =
    if f.type == type_dir
    then io_println h (codes "Error: Cannot read directory")
    else io_println
        (io_println (io_println h (10 ∷ codes "=== File Contents ===")) (cstr f.content))
        (codes "====================" ++ newline)

unfoldable pub fs_read_file : Host → CString → Host
fs_read_file h name = elim (fs_get_file h name) [
  | none ↦ io_println h (codes "Error: File not found")
  | some (i, t) ↦ read_entry h (file_at t i)
]

-- The inner loop from index `j` on, with the rounds that are left.
unfoldable pub shift_files : List File → ℕ → ℕ → List File
shift_files files j zero = files
shift_files files j (suc rounds) =
    shift_files (set files j (get_or files (j + 1) no_file)) (j + 1) rounds

-- The entry `i` is taken out; `file_count` is not 0 where an entry was found.
unfoldable pub remove_entry : Table → ℕ → Table
remove_entry t i = record {
  files = shift_files t.files i (t.file_count - 1 - i);
  file_count = t.file_count - 1;
}

unfoldable pub delete_found : Host → Table → CString → Option ℕ → Host
delete_found h t name none = io_println h (codes "Error: File not found")
delete_found h t name (some i) =
    io_println (io_print (record h { fs = some (remove_entry t i) }) (codes "Deleted: ")) name

unfoldable pub fs_delete_file : Host → CString → Host
fs_delete_file h name = elim h.fs [ none ↦ h | some t ↦ delete_found h t name (file_named t name) ]

unfoldable pub enter_entry : Host → CString → File → Option Host
enter_entry h name f =
    if f.type == type_dir
    then (do
      dir ← str_copy h.current_dir name
      some (
          io_println (io_print (record h { current_dir = dir }) (codes "Changed to directory: "))
            name))
    else some (io_println h (codes "Error: Not a directory"))

unfoldable pub fs_change_dir : Host → CString → Option Host
fs_change_dir h name =
    if str_eq name (b'/' ∷ [])
    then (do
      dir ← str_copy h.current_dir (b'/' ∷ [])
      some (io_println (record h { current_dir = dir }) (codes "Changed to root directory")))
    else elim (fs_get_file h name) [
      | none ↦ some (io_println h (codes "Error: Directory not found"))
      | some (i, t) ↦ enter_entry h name (file_at t i)
    ]
