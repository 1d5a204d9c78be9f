-- ===== src/Ast/Allocator/Allocations.antt =====
-- include/trsc/AST/ASTAllocator.h: runs of allocations.
use trsc.Common.{
  ltb, if◌then◌else◌, Option-cases, some-injective, ℕ, ◌+◌, ◌-◌, ◌%◌, ◌^◌, ◌≤◌, ◌<◌, ◌≡◌, refl, ◌⊎◌,
  inl, inr, none, some, List, [], ◌∷◌, arith,
}
use trsc.Ast.Allocator.{
  Block, AstAllocator, align, Malloc, new_slab, align_here, aligned_or, cur_or_null, allocate,
}
use trsc.Ast.Allocator.Blocks.{
  IsInside, IsApart, AreApart, Disjoint, IsFresh, align-lem, align-fits,
}

-- A block lies in one of the slabs.
unfoldable pub IsWithin : Block → List Block → Type 0
unfolding IsInside
IsWithin b [] = ⊥
IsWithin b (s ∷ ss) = IsInside b s ⊎ IsWithin b ss

unfoldable pub AreWithin : List Block → List Block → Type 0
unfolding IsWithin
AreWithin [] slabs = Unit {0}
AreWithin (b ∷ bs) slabs = IsWithin b slabs × AreWithin bs slabs

-- The bytes of the current slab that are not handed out.
abbrev pub free : AstAllocator → Block
free a = record { base = cur_or_null a; bytes = a.end_of_slab - cur_or_null a }

-- What holds of an allocator that has handed out some blocks.
pub record IsAllocator (a : AstAllocator) (blocks : List Block) : Type 0 where
  pub free_within : (p : ℕ) → a.cur ≡ some p → (p ≤ a.end_of_slab) × IsWithin (free a) a.slabs
  pub free_apart : AreApart (free a) blocks
  pub within : AreWithin blocks a.slabs
  pub disjoint : Disjoint blocks

IsInside-trans : (b c d : Block) → IsInside b c → IsInside c d → IsInside b d
unfolding IsInside
IsInside-trans b c d (h, k) (h', k') = (omega arith, omega arith)

IsWithin-trans :
    (b c : Block) (slabs : List Block) → IsInside b c → IsWithin c slabs → IsWithin b slabs
unfolding IsWithin
IsWithin-trans b c [] h w = elim w [ ]
IsWithin-trans b c (s ∷ ss) h (inl i) = inl (IsInside-trans b c s h i)
IsWithin-trans b c (s ∷ ss) h (inr w) = inr (IsWithin-trans b c ss h w)

inside-IsApart : (b c d : Block) → IsInside b c → IsApart c d → IsApart b d
unfolding IsInside IsApart
inside-IsApart b c d (h, k) (inl l) = inl (omega arith)
inside-IsApart b c d (h, k) (inr r) = inr (omega arith)

IsApart-sym : (b c : Block) → IsApart b c → IsApart c b
unfolding IsApart
IsApart-sym b c (inl l) = inr l
IsApart-sym b c (inr r) = inl r

inside-AreApart : (b c : Block) (bs : List Block) → IsInside b c → AreApart c bs → AreApart b bs
unfolding AreApart
inside-AreApart b c [] h hs = tt
inside-AreApart b c (d ∷ bs) h (k, hs) = (inside-IsApart b c d h k, inside-AreApart b c bs h hs)

-- A block in one of the slabs is apart from what is apart from all of them.
within-IsApart :
    (b c : Block) (slabs : List Block) → IsWithin b slabs → AreApart c slabs → IsApart c b
unfolding IsWithin AreApart
within-IsApart b c [] w h = elim w [ ]
within-IsApart b c (s ∷ ss) (inl i) (h, hs) =
    IsApart-sym b c (inside-IsApart b s c i (IsApart-sym c s h))
within-IsApart b c (s ∷ ss) (inr w) (h, hs) = within-IsApart b c ss w hs

within-AreApart :
    (bs : List Block) (c : Block) (slabs : List Block)
    → AreWithin bs slabs
    → AreApart c slabs
    → AreApart c bs
unfolding AreWithin AreApart
within-AreApart [] c slabs w h = tt
within-AreApart (b ∷ bs) c slabs (w, ws) h =
    (within-IsApart b c slabs w h, within-AreApart bs c slabs ws h)

AreWithin-more :
    (bs : List Block) (s : Block) (slabs : List Block)
    → AreWithin bs slabs
    → AreWithin bs (s ∷ slabs)
unfolding AreWithin IsWithin
AreWithin-more [] s slabs h = tt
AreWithin-more (b ∷ bs) s slabs (h, hs) = (inr h, AreWithin-more bs s slabs hs)

-- What `std::align` finds in the free bytes.
here_facts :
    (a : AstAllocator) (bytes alignment q : ℕ)
    → 0 < alignment
    → align_here bytes alignment a ≡ some q
    → (p : ℕ) × (a.cur ≡ some p)
      × (q % alignment ≡ 0)
      × (p ≤ q)
      × (q + bytes ≤ p + (a.end_of_slab - p))
unfolding align_here
here_facts a bytes alignment q pos e = elim (Option-cases a.cur) [
  | inl null ↦ absurd (let none_eq : none ≡ some q = (rw null at e) in cc none_eq)
  | inr (p, at) ↦
      let found : align alignment bytes p (a.end_of_slab - p) ≡ some q = (rw at at e) in
      let (div, le, fits) = align-lem alignment bytes p (a.end_of_slab - p) q pos found in
      (p, at, div, le, fits)
]

-- The block that is aligned in the free bytes is handed out from them.
here-IsAllocator :
    (a : AstAllocator) (blocks : List Block) (bytes alignment q : ℕ)
    → IsAllocator a blocks
    → 0 < alignment
    → align_here bytes alignment a ≡ some q
    → IsAllocator
        (record a { cur = some (q + bytes) })
        (record { base = q; bytes = bytes } ∷ blocks)
unfolding cur_or_null Disjoint AreApart AreWithin IsInside IsApart
here-IsAllocator a blocks bytes alignment q h pos e =
    let (p, at, div, le, fits) = here_facts a bytes alignment q pos e in
    let here : cur_or_null a ≡ p = rw at refl in
    let (le_end, lies) = h.free_within p at in
    let block : Block = record { base = q; bytes = bytes } in
    let rest : Block = record { base = q + bytes; bytes = a.end_of_slab - (q + bytes) } in
    let block_inside : IsInside block (free a) = (omega arith, omega arith) in
    let rest_inside : IsInside rest (free a) = (omega arith, omega arith) in
    record {
      free_within = λ p' e'.
          let same : q + bytes ≡ p' = some-injective e' in
          (omega arith, IsWithin-trans rest (free a) a.slabs rest_inside lies);
      free_apart =
          (inr (omega arith), inside-AreApart rest (free a) blocks rest_inside h.free_apart);
      within = (IsWithin-trans block (free a) a.slabs block_inside lies, h.within);
      disjoint = (inside-AreApart block (free a) blocks block_inside h.free_apart, h.disjoint);
    }

new_slab-IsAllocator :
    (malloc : Malloc) (min_bytes : ℕ) (a : AstAllocator) (blocks : List Block)
    → IsFresh malloc
    → IsAllocator a blocks
    → IsAllocator (new_slab malloc min_bytes a) blocks
unfolding new_slab cur_or_null IsFresh IsWithin IsInside
new_slab-IsAllocator malloc min_bytes a blocks fresh h =
    let size : ℕ = if ltb a.next_slab_size min_bytes then min_bytes else a.next_slab_size in
    let base : ℕ = malloc a.slabs size in
    let slab : Block = record { base = base; bytes = size } in
    let all : Block = record { base = base; bytes = base + size - base } in
    let inside : IsInside all slab = (omega arith, omega arith) in
    record {
      free_within = λ p e. let same : base ≡ p = some-injective e in (omega arith, inl inside);
      free_apart =
          inside-AreApart all slab blocks inside
            (within-AreApart blocks slab a.slabs h.within (fresh a.slabs size));
      within = AreWithin-more blocks slab a.slabs h.within;
      disjoint = h.disjoint;
    }

-- In a new slab for the bytes and the alignment, `std::align` succeeds.
new_slab-fits :
    (malloc : Malloc) (bytes alignment : ℕ) (a : AstAllocator)
    → 0 < alignment
    → bytes + alignment < 2 ^ 64
    → (q : ℕ) × (align_here bytes alignment (new_slab malloc ((bytes + alignment) % 2 ^ 64) a)
        ≡ some q)
unfolding new_slab align_here
new_slab-fits malloc bytes alignment a pos small =
    let min_bytes : ℕ = (bytes + alignment) % 2 ^ 64 in
    let size : ℕ = if ltb a.next_slab_size min_bytes then min_bytes else a.next_slab_size in
    let big : min_bytes ≤ size = ground arith in
    let base : ℕ = malloc a.slabs size in
    align-fits alignment bytes base (base + size - base) pos (omega arith)

-- Where `malloc` returns memory apart from all that it has returned, the alignment is not zero and its sum
-- with the size does not wrap, an allocation returns an address that the alignment divides, and the block there
-- joins the blocks that an allocator has handed out: it lies in a slab, and apart from them and from
-- the bytes that are left.
pub allocate-IsAllocator :
    (malloc : Malloc) (bytes alignment : ℕ) (a : AstAllocator) (blocks : List Block)
    → IsFresh malloc
    → IsAllocator a blocks
    → 0 < alignment
    → bytes + alignment < 2 ^ 64
    → IsAllocator
        (allocate malloc bytes alignment a).1
        (record { base = (allocate malloc bytes alignment a).0; bytes = bytes } ∷ blocks)
      × ((allocate malloc bytes alignment a).0 % alignment ≡ 0)
unfolding allocate aligned_or
allocate-IsAllocator malloc bytes alignment a blocks fresh h pos small =
    elim (Option-cases (align_here bytes alignment a)) [
      | inr (q, e) ↦
          let (p, at, div, le, fits) = here_facts a bytes alignment q pos e in
          rw (e, allocate) ((here-IsAllocator a blocks bytes alignment q h pos e, div))
      | inl full ↦
          let a' : AstAllocator = new_slab malloc ((bytes + alignment) % 2 ^ 64) a in
          let (q, e) = new_slab-fits malloc bytes alignment a pos small in
          let (p, at, div, le, fits) = here_facts a' bytes alignment q pos e in
          let h' = new_slab-IsAllocator malloc _ a blocks fresh h in
          rw (full, e, allocate) ((here-IsAllocator a' blocks bytes alignment q h' pos e, div))
    ]
