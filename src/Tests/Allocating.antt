-- ===== src/Tests/Allocating.antt =====
-- Tests and examples of the allocator of the tree.
use trsc.Common.{ℕ, ◌+◌, ◌%◌, ◌≤◌, ◌≡◌, refl, inr, List, [], ◌∷◌, map, arith}
use Prim.Native.Nat.{max}
use trsc.Ast.Allocator.{Block, new_allocator, Malloc, allocate}
use trsc.Ast.Allocator.Blocks.{IsApart, AreApart, Disjoint, IsFresh}
use trsc.Ast.Allocator.Allocations.{AreWithin, IsAllocator, allocate-IsAllocator}
use trsc.Ast.Allocator.Runs.{
  Demand, AreDemands, allocate_all, new_allocator-IsAllocator, allocate_all-Disjoint, Accounts,
  allocate_all-Accounts,
}

-- Behind all that has been returned.
highest : List Block → ℕ
highest [] = 64
highest (s ∷ ss) = max (s.base + s.bytes) (highest ss)

abbrev malloc_behind : Malloc
malloc_behind slabs size = highest slabs

behind-AreApart :
    (p n : ℕ) (slabs : List Block)
    → highest slabs ≤ p
    → AreApart (record { base = p; bytes = n }) slabs
unfolding highest AreApart IsApart
behind-AreApart p n [] h = tt
behind-AreApart p n (s ∷ ss) h = (inr (omega arith), behind-AreApart p n ss (omega arith))

malloc_behind-IsFresh : IsFresh malloc_behind
unfolding IsFresh
malloc_behind-IsFresh slabs size = behind-AreApart (highest slabs) size slabs (omega arith)

-- The second does not fit into the first slab.
abbrev demands : List Demand
demands =
    record { bytes = 24; alignment = 8 }
    ∷ record { bytes = 5000; alignment = 16 }
    ∷ record { bytes = 1; alignment = 1 }
    ∷ []

demands-AreDemands : AreDemands demands
unfolding AreDemands
demands-AreDemands = omega arith

allocate_all-Disjoint_example :
    Disjoint (allocate_all malloc_behind demands [] new_allocator).0
    × AreWithin
        (allocate_all malloc_behind demands [] new_allocator).0
        (allocate_all malloc_behind demands [] new_allocator).1.slabs
allocate_all-Disjoint_example =
    allocate_all-Disjoint malloc_behind demands malloc_behind-IsFresh demands-AreDemands

allocate_all-Accounts_example : Accounts (allocate_all malloc_behind demands [] new_allocator).1
allocate_all-Accounts_example = allocate_all-Accounts malloc_behind demands

allocate-IsAllocator_example :
    IsAllocator
      (allocate malloc_behind 24 8 new_allocator).1
      (record { base = (allocate malloc_behind 24 8 new_allocator).0; bytes = 24 } ∷ [])
    × ((allocate malloc_behind 24 8 new_allocator).0 % 8 ≡ 0)
allocate-IsAllocator_example =
    allocate-IsAllocator malloc_behind 24 8 new_allocator [] malloc_behind-IsFresh
      new_allocator-IsAllocator (omega arith) (omega arith)

blocks_test :
    map (λ (b : Block). b.base) (allocate_all malloc_behind demands [] new_allocator).0
    ≡ 9160 ∷ 4160 ∷ 64 ∷ []
unfolding allocate_all new_allocator highest
blocks_test = refl
