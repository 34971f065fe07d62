-- ===== src/Memory/Bytes.antt =====
-- The byte loops of kernel/memory.c against list operations.
use pl_dos.Base.{
  ℕ, zero, suc, ◌%◌, ◌≤◌, ◌<◌, ◌≡◌, refl, none, some, List, [], ◌∷◌, ◌++◌, arith, length, take,
  drop, replicate,
}
use pl_dos.Memory.{kmemset, kmemcpy}

-- Copying replaces the first `size` bytes by those of the source, if both arrays are long enough.
pub kmemcpy_lem :
    (dest src : List ℕ) (size : ℕ)
    → size ≤ length dest
    → size ≤ length src
    → kmemcpy dest src size ≡ some (take size src ++ drop size dest)
unfolding kmemcpy
kmemcpy_lem dest src zero h k = refl
kmemcpy_lem [] src (suc size) h k = absurd (omega arith)
kmemcpy_lem (d ∷ dest) [] (suc size) h k = absurd (omega arith)
kmemcpy_lem (d ∷ dest) (s ∷ src) (suc size) h k =
    rw (kmemcpy_lem dest src size (omega arith) (omega arith))

-- It faults when the destination is too short.
pub kmemcpy_overrun :
    (dest src : List ℕ) (size : ℕ) → length dest < size → kmemcpy dest src size ≡ none
unfolding kmemcpy
kmemcpy_overrun dest src zero h = absurd (omega arith)
kmemcpy_overrun [] src (suc size) h = refl
kmemcpy_overrun (d ∷ dest) [] (suc size) h = refl
kmemcpy_overrun (d ∷ dest) (s ∷ src) (suc size) h = rw (kmemcpy_overrun dest src size (omega arith))

-- `kmemset` fills the first `size` bytes with the low byte of `value`, if the array is long enough.
pub kmemset_lem :
    (p : List ℕ) (value size : ℕ)
    → size ≤ length p
    → kmemset p value size ≡ some (replicate size (value % 256) ++ drop size p)
unfolding kmemset
kmemset_lem p value zero h = refl
kmemset_lem [] value (suc size) h = absurd (omega arith)
kmemset_lem (b ∷ p) value (suc size) h = rw (kmemset_lem p value size (omega arith))
