-- ===== src/Memory.antt =====
-- kernel/memory.c: the bump allocator and the byte loops. A pointer into `heap` is its offset, NULL is
-- `none`, and `size_t` has 32 bits (the kernel is built with -m32).
pub mod Alloc
pub mod Blocks
pub mod Bytes
mod Tests
use pl_dos.Base.{
  ℕ, zero, suc, ◌+◌, ◌-◌, ◌*◌, ◌%◌, ◌^◌, Bool, Option, none, some, List, [], ◌∷◌, ℤ, pos, sub_ℕ,
  ltb, ◌==◌, if◌then◌else◌,
}
use mathlib.Core.Option

abbrev pub heap_size : ℕ
heap_size = 128 * 1024

-- `size_t` addition.
abbrev pub add_size : ℕ → ℕ → ℕ
add_size a b = (a + b) % 2 ^ 32

-- `(size + 7) & ~7`
abbrev pub round_up : ℕ → ℕ
round_up size = add_size size 7 - add_size size 7 % 8

abbrev pub memory_init : ℕ
memory_init = 0

-- The argument and the second result are `heap_used`. A pointer is its offset in `heap`: where the array
-- itself lies is not modelled.
unfoldable pub kmalloc : ℕ → ℕ → Option ℕ × ℕ
kmalloc heap_used size =
    if size == 0
    then (none, heap_used)
    else if ltb heap_size (add_size heap_used (round_up size))
    then (none, heap_used)
    else (some heap_used, add_size heap_used (round_up size))

unfoldable pub kfree : ℕ → ℕ → ℕ
kfree heap_used ptr = heap_used

unfoldable pub kmem_get_allocated : ℕ → ℕ
kmem_get_allocated heap_used = heap_used

unfoldable pub kmem_get_free : ℕ → ℕ
kmem_get_free heap_used = (2 ^ 32 + heap_size - heap_used) % 2 ^ 32

-- The loops run over the array that starts at the pointer; past its end they fault.
unfoldable pub kmemset : List ℕ → ℕ → ℕ → Option (List ℕ)
kmemset p value zero = some p
kmemset [] value (suc size) = none
kmemset (b ∷ p) value (suc size) = Option.map (◌∷◌ (value % 256)) (kmemset p value size)

unfoldable pub kmemcpy : List ℕ → List ℕ → ℕ → Option (List ℕ)
kmemcpy dest src zero = some dest
kmemcpy [] src (suc size) = none
kmemcpy (d ∷ dest) [] (suc size) = none
kmemcpy (d ∷ dest) (s ∷ src) (suc size) = Option.map (◌∷◌ s) (kmemcpy dest src size)

unfoldable pub kmemcmp : List ℕ → List ℕ → ℕ → Option ℤ
kmemcmp left right zero = some (pos 0)
kmemcmp [] right (suc size) = none
kmemcmp (l ∷ left) [] (suc size) = none
kmemcmp (l ∷ left) (r ∷ right) (suc size) =
    let rest = kmemcmp left right size in if l == r then rest else some (sub_ℕ l r)
