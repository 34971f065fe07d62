-- ===== src/Filesystem/Files/Read.antt =====
-- Reading back what was written: `fs_read_file` after `fs_write_file` of kernel/filesystem.c.
use pl_dos.Base.{
  ℕ, zero, suc, ◌≤◌, ◌<◌, ◌≡◌, refl, sym, ap, ◌∙◌, inl, inr, Option, none, some, List, [], ◌∷◌,
  ◌++◌, length, take, drop, length-take, length-append, if◌then◌else◌, arith, subst, ltb,
}
use pl_dos.Strings.{CString}
use pl_dos.Memory.{kmemcpy}
use pl_dos.Memory.Bytes.{kmemcpy_lem}
use pl_dos.Filesystem.{Fs, Disk, Node, node_at}
use pl_dos.Filesystem.Valid.{IsTree}
use pl_dos.Filesystem.Calls.{resolve}
use pl_dos.Filesystem.Files.{fs_write_file, read_at, fs_read_file}
use pl_dos.Filesystem.Files.Write.{fs_write_file-WritesAt}

take-overwrite :
    (k : ℕ) (bytes rest : List ℕ)
    → take (length (take k bytes)) (take k bytes ++ rest) ≡ take k bytes
take-overwrite zero bytes rest = refl
take-overwrite (suc k) [] rest = refl
take-overwrite (suc k) (b ∷ bytes) rest = ap (◌∷◌ b) (take-overwrite k bytes rest)

abbrev status : {A : Type 0} → Option (ℕ × A) → ℕ
status none = 2
status (some (s, a)) = s

-- Reading a file whose first `size` bytes are known, into an array with room for them.
pub read_at_lem :
    (nodes : List Node) (buffer bytes rest : List ℕ) (size max_size i : ℕ)
    → size ≤ length bytes
    → (node_at nodes i).content ≡ take size bytes ++ rest
    → (node_at nodes i).size ≡ size
    → size ≤ max_size
    → size ≤ length buffer
    → read_at nodes buffer max_size (some i)
      ≡ some (some (size, take size bytes ++ drop size buffer))
unfolding read_at
read_at_lem nodes buffer bytes rest size max_size i given content at fits room =
    let count : (if ltb (node_at nodes i).size max_size then (node_at nodes i).size else max_size)
        ≡ size =
      ground arith in
    let len : length (take size bytes) ≡ size = omega (arith, length-take size bytes) in
    let long : size ≤ length (take size bytes ++ rest) =
      omega (arith, len, length-append (take size bytes) rest) in
    let first : take size (take size bytes ++ rest) ≡ take size bytes =
      subst (λ k. take k (take size bytes ++ rest) ≡ take size bytes) len
        (take-overwrite size bytes rest) in
    let copied : kmemcpy buffer (take size bytes ++ rest) size
        ≡ some (take size bytes ++ drop size buffer) =
      kmemcpy_lem buffer (take size bytes ++ rest) size room long
      ∙ ap (λ x. some (x ++ drop size buffer)) first in
    rw (count, content, copied)

pub resolve-same_dir :
    {Dev : Type 0} (fs fs' : Fs Dev) (path : CString)
    → fs'.current_dir ≡ fs.current_dir
    → resolve fs' path ≡ resolve fs path
unfolding resolve
resolve-same_dir fs fs' path e = rw e

abbrev state_or : {A : Type 0} → A → Option (ℕ × A) → A
state_or z none = z
state_or z (some (s, a)) = a

module _ (d : Disk) where
  open d use {Dev}

  -- After a write of `size` bytes to a path that answered 0, reading the path with a limit of at least
  -- `size` into an array with room for them answers `size` and those bytes, before what the array held
  -- after them.
  pub fs_read_file-fs_write_file :
      (fs fs' : Fs Dev) (path : CString) (bytes buffer : List ℕ) (size max_size : ℕ)
      → IsTree fs.nodes
      → size ≤ length bytes
      → fs_write_file d fs path bytes size ≡ some (0, fs')
      → size ≤ max_size
      → size ≤ length buffer
      → fs_read_file fs' path buffer max_size
        ≡ some (some (size, take size bytes ++ drop size buffer))
  unfolding fs_read_file
  fs_read_file-fs_write_file fs fs' path bytes buffer size max_size v given done fits room =
      elim (fs_write_file-WritesAt d fs path bytes size v given) [
        | inl (fault, r) ↦ refused 2 (sym (ap status r) ∙ ap status done) (omega arith)
        | inr (s, e, c, inl (miss, r)) ↦
            refused 1 (sym (ap status r) ∙ ap status done) (omega arith)
        | inr (s, e, c, inr (inl (i, hit, large, r))) ↦
            refused 1 (sym (ap status r) ∙ ap status done) (omega arith)
        | inr (s, e, c, inr (inr (i, fs'', r, hit, le, w))) ↦
            let same : fs'' ≡ fs' = ap (state_or fs) (sym r ∙ done) in
            let back = resolve-same_dir fs fs'' path w.same_dir in
            let slot = w.slot in
            subst
              (λ x.
                fs_read_file x path buffer max_size
                ≡ some (some (size, take size bytes ++ drop size buffer)))
              same
              (rw (back, e, w.still_found)
                (read_at_lem fs''.nodes buffer bytes _ size max_size i given
                  (ap (λ n. n.content) slot) (ap (λ n. n.size) slot) fits room))
      ]
    where
      refused :
          (k : ℕ)
          → k ≡ 0
          → 0 < k
          → fs_read_file fs' path buffer max_size
            ≡ some (some (size, take size bytes ++ drop size buffer))
      refused k z pos = absurd (omega arith)
