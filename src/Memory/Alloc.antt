-- ===== src/Memory/Alloc.antt =====
-- `kmalloc` of kernel/memory.c: what it hands out, and the sizes at which its 32-bit sums wrap.
use pl_dos.Base.{
  ℕ, ◌+◌, ◌-◌, ◌%◌, ◌^◌, ◌≤◌, ◌<◌, ◌≡◌, refl, ◌⊎◌, inl, inr, none, some, arith, ltb, ltb→lt,
  ltb_false→le, Bool-cases, ◌==◌, true, false,
}
use pl_dos.Memory.{heap_size, add_size, round_up, kmalloc, kmem_get_free}

-- A size at which neither `size + 7` nor `heap_used + size` wraps.
abbrev pub NoWrap : ℕ → Type 0
NoWrap size = size + heap_size + 8 ≤ 2 ^ 32

module _ (heap_used size : ℕ) (p : 0 < size) where
  kmalloc_fails :
      ltb heap_size (add_size heap_used (round_up size)) ≡ true
      → kmalloc heap_used size ≡ (none, heap_used)
  unfolding kmalloc
  kmalloc_fails e = elim (Bool-cases (size == 0)) [
    | inl z ↦ absurd (ground arith)
    | inr nz ↦ rw (nz, e)
  ]

  kmalloc_gives :
      ltb heap_size (add_size heap_used (round_up size)) ≡ false
      → kmalloc heap_used size ≡ (some heap_used, add_size heap_used (round_up size))
  unfolding kmalloc
  kmalloc_gives e = elim (Bool-cases (size == 0)) [
    | inl z ↦ absurd (ground arith)
    | inr nz ↦ rw (nz, e)
  ]

-- For such a size `kmalloc` fails, changing nothing, exactly when the rounded size does not fit; a
-- block starts at the old top, which is where all earlier blocks end, is 8-byte aligned if the top
-- was, holds `size` bytes below the new top, and stays within the heap.
pub kmalloc_lem :
    (heap_used size : ℕ)
    → heap_used ≤ heap_size
    → heap_used % 8 ≡ 0
    → 0 < size
    → NoWrap size
    → let (r, top) = kmalloc heap_used size in
      ((r ≡ none) × (top ≡ heap_used) × (heap_size < heap_used + size))
      ⊎ ((r ≡ some heap_used)
          × (heap_used + size ≤ top)
          × (top < heap_used + size + 8)
          × (top ≤ heap_size)
          × (top % 8 ≡ 0))
kmalloc_lem heap_used size h al p w =
    elim (Bool-cases (ltb heap_size (add_size heap_used (round_up size)))) [
      | inl e ↦
          let over : heap_size < add_size heap_used (round_up size) = ltb→lt _ _ e in
          rw (kmalloc_fails heap_used size p e) (inl (refl, refl, omega arith))
      | inr e ↦
          let fits : add_size heap_used (round_up size) ≤ heap_size = ltb_false→le _ _ e in
          rw (kmalloc_gives heap_used size p e)
            (inr (refl, omega arith, omega arith, fits, omega arith))
    ]

-- The seven largest sizes wrap to 0 when they are rounded: the call then succeeds, reserves nothing,
-- and the next such call returns the same block.
pub kmalloc_wraps :
    (heap_used size : ℕ)
    → heap_used ≤ heap_size
    → 2 ^ 32 - 8 < size
    → size < 2 ^ 32
    → kmalloc heap_used size ≡ (some heap_used, heap_used)
unfolding kmalloc
kmalloc_wraps heap_used size h lo hi = ground arith

-- What is free and what is in use make up the heap.
pub kmem_get_free-add :
    (heap_used : ℕ) → heap_used ≤ heap_size → kmem_get_free heap_used + heap_used ≡ heap_size
unfolding kmem_get_free
kmem_get_free-add heap_used h = omega arith
