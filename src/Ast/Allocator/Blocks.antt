-- ===== src/Ast/Allocator/Blocks.antt =====
-- include/trsc/AST/ASTAllocator.h: blocks of memory, and where `std::align` puts one.
use trsc.Common.{
  leb, Bool-cases, some-injective, ℕ, ◌+◌, ◌-◌, ◌%◌, ◌≤◌, ◌<◌, ◌≡◌, refl, sym, ap, ◌∙◌, subst, ◌⊎◌,
  inl, inr, true, none, some, List, [], ◌∷◌, arith,
}
use native.Mathlib.Nat.{mod-lt, mod-add-mod, add-mod-mod, mod_self}
use trsc.Ast.Allocator.{Block, align, Malloc}

unfoldable pub IsInside : Block → Block → Type 0
IsInside b c = (c.base ≤ b.base) × (b.base + b.bytes ≤ c.base + c.bytes)

-- One ends before the other begins.
unfoldable pub IsApart : Block → Block → Type 0
IsApart b c = (b.base + b.bytes ≤ c.base) ⊎ (c.base + c.bytes ≤ b.base)

unfoldable pub AreApart : Block → List Block → Type 0
unfolding IsApart
AreApart b [] = Unit {0}
AreApart b (c ∷ cs) = IsApart b c × AreApart b cs

-- Each block is apart from all that are older.
unfoldable pub Disjoint : List Block → Type 0
unfolding AreApart
Disjoint [] = Unit {0}
Disjoint (b ∷ bs) = AreApart b bs × Disjoint bs

-- `std::malloc` returns memory that is apart from all that it has returned.
unfoldable pub IsFresh : Malloc → Type 0
unfolding AreApart
IsFresh malloc =
    (slabs : List Block) (size : ℕ)
    → AreApart (record { base = malloc slabs size; bytes = size }) slabs

-- The next address that the alignment divides.
gap-divides : (p a : ℕ) → 0 < a → (p + (a - p % a) % a) % a ≡ 0
gap-divides p a pos =
    let small : p % a < a = mod-lt p pos in
    let whole : p % a + (a - p % a) ≡ a = omega arith in
    add-mod-mod p (a - p % a) a
    ∙ sym (mod-add-mod p a (a - p % a))
    ∙ ap (λ n. n % a) whole
    ∙ mod_self a

-- What `std::align` returns is aligned, and the bytes behind it fit.
pub align-lem :
    (alignment bytes p space q : ℕ)
    → 0 < alignment
    → align alignment bytes p space ≡ some q
    → (q % alignment ≡ 0) × (p ≤ q) × (q + bytes ≤ p + space)
unfolding align
align-lem alignment bytes p space q pos e =
    let gap : ℕ = (alignment - p % alignment) % alignment in
    elim (Bool-cases (leb (gap + bytes) space)) [
      | inl fits ↦
          let at : p + gap ≡ q = some-injective (sym (rw fits refl) ∙ e) in
          (
            subst (λ n. n % alignment ≡ 0) at (gap-divides p alignment pos),
            omega arith,
            ground arith,
          )
      | inr full ↦ absurd (let none_eq : none ≡ some q = (rw full at e) in cc none_eq)
    ]

-- With room for the alignment, the bytes fit.
pub align-fits :
    (alignment bytes p space : ℕ)
    → 0 < alignment
    → bytes + alignment ≤ space
    → (q : ℕ) × (align alignment bytes p space ≡ some q)
unfolding align
align-fits alignment bytes p space pos room =
    let gap : ℕ = (alignment - p % alignment) % alignment in
    let small : gap < alignment = mod-lt (alignment - p % alignment) pos in
    let fits : leb (gap + bytes) space ≡ true = ground arith in (p + gap, rw fits refl)
