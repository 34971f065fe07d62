-- ===== src/Filesystem/View/Abstract.antt =====
-- The abstract filesystem, a map from paths to entries, and what it means for an operation of
-- kernel/filesystem.c to be a step of it.
use pl_dos.Base.{
  ℕ, ◌+◌, ◌^◌, ◌<◌, ◌≡◌, ◌≢◌, refl, sym, subst, ◌⊎◌, inl, true, Option, none, some, List, [], ◌++◌,
  length,
}
use pl_dos.Strings.{CString}
use pl_dos.Filesystem.{Fs, Node, fs_max_file_size, root_path, find_node, find_parent, allocate_node}
use pl_dos.Filesystem.Valid.{IsTree}
use pl_dos.Filesystem.Calls.{has_child, refuse, resolve}
use pl_dos.Filesystem.View.{Entry, View, view, put, SameView}
use pl_dos.Filesystem.View.Entry.{dir, file}

pub data Op : Type 0 where
  create_file : CString → Op
  create_dir : CString → Op
  delete : CString → Op
  write_file : CString → List ℕ → Op
  append_file : CString → List ℕ → Op

abbrev pub target : Op → CString
target (create_file path) = path
target (create_dir path) = path
target (delete path) = path
target (write_file path bytes) = path
target (append_file path bytes) = path

-- An append stays below the sizes at which the sum of the sizes wraps.
abbrev pub IsSmall : Op → Type 0
IsSmall (append_file path bytes) = length bytes + fs_max_file_size < 2 ^ 32
IsSmall op = Unit {0}

-- The entry of the path before and after an operation that succeeds.
abbrev pub Allows : Op → Option Entry → Option Entry → Type 0
Allows (create_file path) old new = (old ≡ none) × (new ≡ some (file []))
Allows (create_dir path) old new = (old ≡ none) × (new ≡ some dir)
Allows (delete path) old new = (old ≢ none) × (new ≡ none)
Allows (write_file path bytes) old new =
    (was : List ℕ) × (old ≡ some (file was)) × (new ≡ some (file bytes))
Allows (append_file path bytes) old new =
    (was : List ℕ) × (old ≡ some (file was)) × (new ≡ some (file (was ++ bytes)))

-- No file has the path.
abbrev pub NoFile : View → CString → Type 0
NoFile v s = (bytes : List ℕ) → v s ≢ some (file bytes)

-- Why an operation on the path `s` is refused: the two causes that the paths do not show are the lack
-- of the directory around `s` and of a free slot.
abbrev pub Refuses : Op → CString → List Node → Type 0
Refuses (create_file path) s nodes =
    (view nodes s ≢ none) ⊎ (find_parent nodes s ≡ some none) ⊎ (allocate_node nodes ≡ none)
Refuses (create_dir path) s nodes =
    (view nodes s ≢ none) ⊎ (find_parent nodes s ≡ some none) ⊎ (allocate_node nodes ≡ none)
Refuses (delete path) s nodes =
    (view nodes s ≡ none)
    ⊎ (s ≡ root_path)
    ⊎ ((i : ℕ) × (find_node nodes s ≡ some i)
        × (view nodes s ≡ some dir)
        × (has_child nodes i ≡ true))
Refuses (write_file path bytes) s nodes = NoFile (view nodes) s ⊎ (fs_max_file_size < length bytes)
Refuses (append_file path bytes) s nodes =
    NoFile (view nodes) s
    ⊎ ((was : List ℕ) × (view nodes s ≡ some (file was))
        × (fs_max_file_size < length was + length bytes))

-- A step of the abstract filesystem at the path `s`: it is refused, or it changes one entry.
abbrev pub AbstractStep : Op → CString → List Node → ℕ → List Node → Type 0
AbstractStep op s nodes status nodes' =
    ((status ≡ 1) × Refuses op s nodes × SameView (view nodes) (view nodes'))
    ⊎ ((status ≡ 0)
        × ((new : Option Entry) × Allows op (view nodes s) new
            × SameView (put (view nodes) s new) (view nodes')))

module _ {Dev : Type 0} where
  -- A result of `op`: a fault of the path resolver, or a step of the abstract filesystem.
  abbrev pub Refines : Op → Fs Dev → Option (ℕ × Fs Dev) → Type 0
  Refines op fs none = resolve fs (target op) ≡ none
  Refines op fs (some (status, fs')) =
      (s : CString) × (resolve fs (target op) ≡ some s)
      × IsTree fs'.nodes
      × (fs'.current_dir ≡ fs.current_dir)
      × AbstractStep op s fs.nodes status fs'.nodes

  pub refused :
      (op : Op) (fs : Fs Dev) (s text : CString) (r : Option (ℕ × Fs Dev))
      → IsTree fs.nodes
      → resolve fs (target op) ≡ some s
      → Refuses op s fs.nodes
      → r ≡ refuse fs text
      → Refines op fs r
  refused op fs s text r v e cause eq =
      subst (Refines op fs) (sym eq) (s, e, v, refl, inl (refl, cause, λ path n. refl))
