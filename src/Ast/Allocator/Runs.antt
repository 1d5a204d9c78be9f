-- ===== src/Ast/Allocator/Runs.antt =====
-- include/trsc/AST/ASTAllocator.h: the blocks, the slabs and the memory after any run of allocations.
use trsc.Common.{
  ltb, if◌then◌else◌, Option-cases, ℕ, ◌+◌, ◌*◌, ◌%◌, ◌^◌, ◌<◌, ◌≡◌, refl, ◌⊎◌, inl, inr, List, [],
  ◌∷◌, arith,
}
use trsc.Ast.Allocator.{
  Block, AstAllocator, max_slab_size, new_allocator, Malloc, new_slab, align_here, allocate,
}
use trsc.Ast.Allocator.Blocks.{AreApart, Disjoint, IsFresh}
use trsc.Ast.Allocator.Allocations.{AreWithin, IsAllocator, allocate-IsAllocator}

-- A call of `Allocate`.
pub record Demand : Type 0 where
  pub bytes : ℕ
  pub alignment : ℕ

-- An alignment is not zero, and the sum that `newSlab` is given does not wrap.
unfoldable pub AreDemands : List Demand → Type 0
AreDemands [] = Unit {0}
AreDemands (d ∷ ds) = (0 < d.alignment) × (d.bytes + d.alignment < 2 ^ 64) × AreDemands ds

-- The blocks, the newest first, and the allocator after the calls.
unfoldable pub allocate_all :
    Malloc → List Demand → List Block → AstAllocator → List Block × AstAllocator
unfolding allocate
allocate_all malloc [] blocks a = (blocks, a)
allocate_all malloc (d ∷ ds) blocks a =
    allocate_all malloc ds
      (record { base = (allocate malloc d.bytes d.alignment a).0; bytes = d.bytes } ∷ blocks)
      (allocate malloc d.bytes d.alignment a).1

pub new_allocator-IsAllocator : IsAllocator new_allocator []
unfolding new_allocator AreApart AreWithin Disjoint
new_allocator-IsAllocator = record {
  free_within = λ p e. absurd (cc e);
  free_apart = tt;
  within = tt;
  disjoint = tt;
}

allocate_all-IsAllocator :
    (malloc : Malloc) (ds : List Demand) (blocks : List Block) (a : AstAllocator)
    → IsFresh malloc
    → AreDemands ds
    → IsAllocator a blocks
    → IsAllocator (allocate_all malloc ds blocks a).1 (allocate_all malloc ds blocks a).0
unfolding allocate_all AreDemands
allocate_all-IsAllocator malloc [] blocks a fresh h inv = inv
allocate_all-IsAllocator malloc (d ∷ ds) blocks a fresh (pos, small, h) inv =
    allocate_all-IsAllocator malloc ds _ _ fresh h
      (allocate-IsAllocator malloc d.bytes d.alignment a blocks fresh inv pos small).0

-- Where `malloc` returns memory apart from all that it has returned, and where no alignment is zero and no
-- sum of a size and an alignment wraps, any run of calls of a new allocator returns blocks that do not
-- overlap, each of which lies in one of the slabs.
pub allocate_all-Disjoint :
    (malloc : Malloc) (ds : List Demand)
    → IsFresh malloc
    → AreDemands ds
    → Disjoint (allocate_all malloc ds [] new_allocator).0
      × AreWithin
          (allocate_all malloc ds [] new_allocator).0
          (allocate_all malloc ds [] new_allocator).1.slabs
allocate_all-Disjoint malloc ds fresh h =
    let inv =
      allocate_all-IsAllocator malloc ds [] new_allocator fresh h new_allocator-IsAllocator in
    (inv.disjoint, inv.within)

-- The memory in the slabs.
unfoldable pub sum : List Block → ℕ
sum [] = 0
sum (s ∷ ss) = s.bytes + sum ss

-- The sizes from the first slab on, each twice the one before.
unfoldable pub IsSlabSize : ℕ → Type 0
IsSlabSize n =
    (n ≡ 4096)
    ⊎ ((n ≡ 8192) ⊎ ((n ≡ 16384) ⊎ ((n ≡ 32768) ⊎ ((n ≡ 65536) ⊎ ((n ≡ 131072) ⊎ (n ≡ 262144))))))

pub record Accounts (a : AstAllocator) : Type 0 where
  pub next_size : IsSlabSize a.next_slab_size
  pub total : a.total_bytes ≡ sum a.slabs % 2 ^ 64

doubled : (n : ℕ) → IsSlabSize n → IsSlabSize (if ltb n max_slab_size then n * 2 else n)
unfolding IsSlabSize
doubled n (inl e) = inr (inl (ground arith))
doubled n (inr (inl e)) = inr (inr (inl (ground arith)))
doubled n (inr (inr (inl e))) = inr (inr (inr (inl (ground arith))))
doubled n (inr (inr (inr (inl e)))) = inr (inr (inr (inr (inl (ground arith)))))
doubled n (inr (inr (inr (inr (inl e))))) = inr (inr (inr (inr (inr (inl (ground arith))))))
doubled n (inr (inr (inr (inr (inr (inl e)))))) = inr (inr (inr (inr (inr (inr (ground arith))))))
doubled n (inr (inr (inr (inr (inr (inr e)))))) = inr (inr (inr (inr (inr (inr (ground arith))))))

new_slab-Accounts :
    (malloc : Malloc) (min_bytes : ℕ) (a : AstAllocator)
    → Accounts a
    → Accounts (new_slab malloc min_bytes a)
unfolding new_slab sum
new_slab-Accounts malloc min_bytes a h =
    let before = h.total in
    record { next_size = doubled a.next_slab_size h.next_size; total = omega arith }

allocate-Accounts :
    (malloc : Malloc) (bytes alignment : ℕ) (a : AstAllocator)
    → Accounts a
    → Accounts (allocate malloc bytes alignment a).1
unfolding allocate
allocate-Accounts malloc bytes alignment a h = elim (Option-cases (align_here bytes alignment a)) [
  | inr (q, e) ↦ rw (e, allocate) (record { next_size = h.next_size; total = h.total })
  | inl full ↦
      let h' = new_slab-Accounts malloc ((bytes + alignment) % 2 ^ 64) a h in
      rw (full, allocate) (record { next_size = h'.next_size; total = h'.total })
]

-- After any run of calls of a new allocator, the size of the next slab is a power of two from `4096` to
-- `256 * 1024`, and `TotalBytes` is the sum of the sizes of the slabs, on 64 bits.
pub allocate_all-Accounts :
    (malloc : Malloc) (ds : List Demand) → Accounts (allocate_all malloc ds [] new_allocator).1
unfolding allocate_all IsSlabSize new_allocator sum
allocate_all-Accounts malloc ds = go ds [] new_allocator start
  where
    go :
        (ds : List Demand) (blocks : List Block) (a : AstAllocator)
        → Accounts a
        → Accounts (allocate_all malloc ds blocks a).1
    go [] blocks a h = h
    go (d ∷ ds) blocks a h = go ds _ _ (allocate-Accounts malloc d.bytes d.alignment a h)

    start : Accounts new_allocator
    start = record { next_size = inl refl; total = refl }
