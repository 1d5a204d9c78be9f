-- ===== src/Ast/Allocator.antt =====
-- include/trsc/AST/ASTAllocator.h: the slabs, and the allocation of blocks in them. Addresses and sizes are
-- numbers; null is `none`.
pub mod Blocks
pub mod Allocations
pub mod Runs
use trsc.Common.{
  ltb, leb, if◌then◌else◌, ℕ, ◌+◌, ◌-◌, ◌*◌, ◌%◌, ◌^◌, not, Option, none, some, List, [], ◌∷◌,
}

-- Some bytes of memory: where they begin, and how many they are.
pub record Block : Type 0 where
  pub base : ℕ
  pub bytes : ℕ

pub record AstAllocator : Type 0 where
  pub slabs : List Block
  pub cur : Option ℕ
  pub end_of_slab : ℕ
  pub total_bytes : ℕ
  pub next_slab_size : ℕ

abbrev pub max_slab_size : ℕ
max_slab_size = 256 * 1024

unfoldable pub new_allocator : AstAllocator
new_allocator = record {
  slabs = [];
  cur = none;
  end_of_slab = 0;
  total_bytes = 0;
  next_slab_size = 4096;
}

-- `std::align`: the first address from `p` that the alignment divides, where the bytes fit behind it.
unfoldable pub align : ℕ → ℕ → ℕ → ℕ → Option ℕ
align alignment bytes p space =
    let gap : ℕ = (alignment - p % alignment) % alignment in
    if leb (gap + bytes) space then some (p + gap) else none

-- What `std::malloc` returns, by the slabs that are there and the size that is asked for. It does not fail.
abbrev pub Malloc : Type 0
Malloc = List Block → ℕ → ℕ

unfoldable pub new_slab : Malloc → ℕ → AstAllocator → AstAllocator
new_slab malloc min_bytes a =
    let size : ℕ = if ltb a.next_slab_size min_bytes then min_bytes else a.next_slab_size in
    let slab : ℕ = malloc a.slabs size in
    record {
      slabs = record { base = slab; bytes = size } ∷ a.slabs;
      cur = some slab;
      end_of_slab = slab + size;
      total_bytes = (a.total_bytes + size) % 2 ^ 64;
      next_slab_size =
          if ltb a.next_slab_size max_slab_size then a.next_slab_size * 2 else a.next_slab_size;
    }

-- The test of `Cur` and the first `std::align`.
unfoldable pub align_here : ℕ → ℕ → AstAllocator → Option ℕ
unfolding align
align_here bytes alignment a = elim a.cur [
  | none ↦ none
  | some p ↦ align alignment bytes p (a.end_of_slab - p)
]

-- `Ptr` after a `std::align` whose result is not tested: it stays where it was if the bytes do not fit.
unfoldable pub aligned_or : Option ℕ → ℕ → ℕ
aligned_or (some q) p = q
aligned_or none p = p

unfoldable pub cur_or_null : AstAllocator → ℕ
cur_or_null a = elim a.cur [ some p ↦ p | none ↦ 0 ]

unfoldable pub allocate : Malloc → ℕ → ℕ → AstAllocator → ℕ × AstAllocator
unfolding align_here new_slab aligned_or cur_or_null align
allocate malloc bytes alignment a = elim (align_here bytes alignment a) [
  | some p ↦ (p, record a { cur = some (p + bytes) })
  | none ↦
      let a' : AstAllocator = new_slab malloc ((bytes + alignment) % 2 ^ 64) a in
      let p : ℕ = aligned_or (align_here bytes alignment a') (cur_or_null a') in
      (p, record a' { cur = some (p + bytes) })
]
