-- ===== src/Memory/Tests.antt =====
-- The theorems of kernel/memory.c on concrete sizes.
use pl_dos.Base.{◌-◌, ◌^◌, ◌≡◌, ◌≤◌, some, [], ◌∷◌, arith}
use pl_dos.Memory.{kmalloc, heap_size}
use pl_dos.Memory.Alloc.{kmalloc_wraps}
use pl_dos.Memory.Blocks.{kmalloc_all, AreApart, kmalloc_all-AreApart}

wraps_example : kmalloc 16 (2 ^ 32 - 3) ≡ (some 16, 16)
wraps_example = kmalloc_wraps 16 (2 ^ 32 - 3) (omega arith) (omega arith) (omega arith)

blocks_example :
    AreApart 0 (kmalloc_all 0 (20 ∷ 200_000 ∷ 7 ∷ [])).0 (kmalloc_all 0 (20 ∷ 200_000 ∷ 7 ∷ [])).1
    × ((kmalloc_all 0 (20 ∷ 200_000 ∷ 7 ∷ [])).1 ≤ heap_size)
blocks_example = kmalloc_all-AreApart (20 ∷ 200_000 ∷ 7 ∷ []) (omega arith)
