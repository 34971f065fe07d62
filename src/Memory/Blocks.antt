-- ===== src/Memory/Blocks.antt =====
-- The blocks that a history of calls of `kmalloc` of kernel/memory.c hands out.
use pl_dos.Base.{
  ℕ, ◌+◌, ◌%◌, ◌≤◌, ◌<◌, ◌≡◌, refl, inl, inr, Option, none, some, List, [], ◌∷◌, All, arith,
}
use pl_dos.Memory.{heap_size, memory_init, kmalloc}
use pl_dos.Memory.Alloc.{NoWrap, kmalloc_lem}

-- A block that was asked for with a size.
pub record Block : Type 0 where
  pub start : ℕ
  pub size : ℕ

abbrev granted : ℕ → Option ℕ → List Block → List Block
granted size none blocks = blocks
granted size (some start) blocks = record { start = start; size = size } ∷ blocks

-- The blocks of the calls for the sizes, and `heap_used` afterwards.
abbrev pub kmalloc_all : ℕ → List ℕ → List Block × ℕ
kmalloc_all top [] = ([], top)
kmalloc_all top (size ∷ sizes) =
    let (r, top') = kmalloc top size in
    let (blocks, end) = kmalloc_all top' sizes in (granted size r blocks, end)

-- The blocks follow each other from `low` to `high`, at multiples of 8.
abbrev pub AreApart : ℕ → List Block → ℕ → Type 0
AreApart low [] high = low ≤ high
AreApart low (b ∷ bs) high =
    (low ≤ b.start) × (b.start % 8 ≡ 0) × AreApart (b.start + b.size) bs high

AreApart-lower :
    (low low' : ℕ) (bs : List Block) (high : ℕ)
    → low ≤ low'
    → AreApart low' bs high
    → AreApart low bs high
AreApart-lower low low' [] high le h = omega (arith, le, h)
AreApart-lower low low' (b ∷ bs) high le (at, al, rest) = (omega (arith, le, at), al, rest)

-- A size that is asked for.
abbrev pub IsAsked : ℕ → Type 0
IsAsked size = (0 < size) × NoWrap size

blocks-AreApart :
    (top : ℕ) (sizes : List ℕ)
    → top ≤ heap_size
    → top % 8 ≡ 0
    → All IsAsked sizes
    → let (blocks, end) = kmalloc_all top sizes in AreApart top blocks end × (end ≤ heap_size)
blocks-AreApart top [] h al asked = (omega arith, h)
blocks-AreApart top (size ∷ sizes) h al ((pos, fits), asked) =
    elim (kmalloc_lem top size h al pos fits) [
      | inl (r, top', full) ↦ rw (r, top') (blocks-AreApart top sizes h al asked)
      | inr (r, below, less, inside, al') ↦
          let (apart, bound) = blocks-AreApart (kmalloc top size).1 sizes inside al' asked in
          rw r ((omega arith, al, AreApart-lower (top + size) _ _ _ below apart), bound)
    ]

-- The blocks that any calls of kmalloc hand out after start-up, for sizes that are not 0 and do not
-- wrap, follow each other in the heap: each starts at an offset that is a multiple of 8, behind the end of all those
-- before it, and ends within the heap.
pub kmalloc_all-AreApart :
    (sizes : List ℕ)
    → All IsAsked sizes
    → let (blocks, end) = kmalloc_all memory_init sizes in AreApart 0 blocks end × (end ≤ heap_size)
kmalloc_all-AreApart sizes asked = blocks-AreApart memory_init sizes (omega arith) refl asked
