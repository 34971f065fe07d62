-- ===== src/Filesystem/Path.antt =====
-- `fs_resolve_path` of kernel/filesystem.c. Its local arrays start as zeros: each is terminated
-- before it is read.
pub mod Canonical
pub mod Join
pub mod Known
pub mod Relative
pub mod Resolved
pub mod Split
mod Tests
use pl_dos.Base.{
  ℕ, zero, suc, ◌+◌, ◌-◌, Bool, true, false, Option, none, some, List, [], ◌∷◌, length, drop,
  replicate, ltb, ◌==◌, if◌then◌else◌, ◌>>=◌,
}
use pl_dos.Strings.{CString, Buffer, cstr, slash, str_eq, str_copy, str_copy_n, str_concat}
use pl_dos.Filesystem.{fs_max_name, fs_max_path, root_path}

abbrev blank : Buffer
blank = replicate fs_max_path 0

abbrev starts_at_root : CString → Bool
starts_at_root [] = false
starts_at_root (c ∷ s) = c == slash

-- `if (str_compare(raw, "/") != 0) str_concat(raw, "/");`
unfoldable pub add_slash : Buffer → Option Buffer
add_slash raw = if str_eq (cstr raw) root_path then some raw else str_concat raw root_path

-- The array `raw`: the input, or the current directory followed by it.
unfoldable pub raw_path : CString → CString → Option Buffer
raw_path current_dir input = if starts_at_root input then str_copy_n blank input fs_max_path else do
  raw ← str_copy_n blank current_dir fs_max_path
  raw ← add_slash raw
  str_concat raw input

unfoldable pub skip_slashes : CString → CString
skip_slashes [] = []
skip_slashes (c ∷ s) = if c == slash then skip_slashes s else c ∷ s

-- The bytes up to a slash, the end, or `room` of them, and what is left: `part` holds 31 at most.
unfoldable pub take_part : ℕ → CString → CString × CString
take_part zero s = ([], s)
take_part (suc room) [] = ([], [])
take_part (suc room) (c ∷ s) =
    let (part, rest) = take_part room s in if c == slash then ([], c ∷ s) else (c ∷ part, rest)

abbrev pub dot : CString
dot = b'.' ∷ []

abbrev pub dot_dot : CString
dot_dot = b'.' ∷ b'.' ∷ []

abbrev pub max_depth : ℕ
max_depth = 16

-- `components[0 .. depth)`, the last one first: what one round does with its part.
unfoldable pub push_part : List CString → CString → List CString
push_part components part =
    if str_eq part dot
    then components
    else if str_eq part dot_dot
    then drop 1 components
    else if ltb (length components) max_depth
    then part ∷ components
    else components

-- The loop over `raw`; `none` is a lack of fuel.
unfoldable pub split_raw : ℕ → CString → List CString → Option (List CString)
split_raw zero raw components = none
split_raw (suc fuel) raw components = elim (skip_slashes raw) [
  | [] ↦ some components
  | c ∷ s ↦
      let (part, rest) = take_part (fs_max_name - 1) (c ∷ s) in
      split_raw fuel rest (push_part components part)
]

-- The loop that fills `result`: its earlier rounds, then the one for the last component.
unfoldable pub join_parts : List CString → Option Buffer
join_parts [] = str_copy blank root_path
join_parts (part ∷ []) = do result ← join_parts []; str_concat result part
join_parts (part ∷ prev ∷ components) = do
  result ← join_parts (prev ∷ components)
  result ← str_concat result root_path
  str_concat result part

-- `if (!input || input[0] == 0) input = current_dir;`
unfoldable pub or_current : CString → Option CString → CString
or_current current_dir none = current_dir
or_current current_dir (some []) = current_dir
or_current current_dir (some (c ∷ s)) = c ∷ s

-- The result is the array `out`.
unfoldable pub fs_resolve_path : CString → Option CString → Buffer → ℕ → Option Buffer
fs_resolve_path current_dir input out out_size = do
  raw ← raw_path current_dir (or_current current_dir input)
  components ← split_raw (suc (length (cstr raw))) (cstr raw) []
  result ← join_parts components
  str_copy_n out (cstr result) out_size
