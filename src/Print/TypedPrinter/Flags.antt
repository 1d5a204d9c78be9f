-- ===== src/Print/TypedPrinter/Flags.antt =====
-- When the outline of lib/AST/TypedASTPrinter.cpp has the last branch at the last child of each node.
use trsc.Common.{
  length, ℕ, suc, ◌≤◌, ◌≡◌, refl, ap, subst, Bool, true, false, not, ◌||◌, List, [], ◌∷◌, arith,
}
use trsc.Print.TypedPrinter.Nodes.{print_threshold}
use trsc.Print.TypedPrinter.Drawing.{Tree, Branches, ◌⧺◌, nothing, line, no_branches, add_branch}
use trsc.Print.TypedPrinter.Outline.{twig, branches, indexed, first_branches, element_branches}

unfoldable pub are_none : Branches → Bool
are_none no_branches = true
are_none _ = false

-- A branch is flagged exactly where no other one follows it.
unfoldable mutual
  unfolding are_none

  pub IsFlagged : Tree → Type 0
  IsFlagged nothing = Unit {0}
  IsFlagged (line label bs) = AreFlagged bs

  pub AreFlagged : Branches → Type 0
  AreFlagged no_branches = Unit {0}
  AreFlagged (add_branch b before t bs) = (b ≡ are_none bs) × IsFlagged t × AreFlagged bs

pub end_AreFlagged : (there : Bool) (t : Tree) → IsFlagged t → AreFlagged (twig there true t)
unfolding IsFlagged
end_AreFlagged true t h = (refl, h, tt)
end_AreFlagged false t h = tt

pub twig-AreFlagged :
    (there b : Bool) (t : Tree) (cs : Branches)
    → IsFlagged t
    → b ≡ are_none cs
    → AreFlagged cs
    → AreFlagged (twig there b t ⧺ cs)
unfolding IsFlagged ◌⧺◌
twig-AreFlagged true b t cs h e hs = (e, h, hs)
twig-AreFlagged false b t cs h e hs = hs

pub are_none-twig : (there b : Bool) (t : Tree) → not there ≡ are_none (twig there b t)
unfolding are_none
are_none-twig true b t = refl
are_none-twig false b t = refl

pub are_none-two :
    (there there' b b' : Bool) (t t' : Tree)
    → not (there || there') ≡ are_none (twig there b t ⧺ twig there' b' t')
unfolding are_none ◌⧺◌
are_none-two true there' b b' t t' = refl
are_none-two false there' b b' t t' = are_none-twig there' b' t'

-- The trees of a list, each of which is flagged.
unfoldable pub AllFlagged : List Tree → Type 0
unfolding IsFlagged
AllFlagged [] = Unit {0}
AllFlagged (t ∷ ts) = IsFlagged t × AllFlagged ts

pub branches-AreFlagged :
    (last : Bool) (ts : List Tree) (cs : Branches)
    → AllFlagged ts
    → last ≡ are_none cs
    → AreFlagged cs
    → AreFlagged (branches last ts ⧺ cs)
unfolding branches AllFlagged IsFlagged ◌⧺◌
branches-AreFlagged last [] cs h e hs = hs
branches-AreFlagged last (t ∷ []) cs (h, _) e hs = (e, h, hs)
branches-AreFlagged last (t ∷ (t' ∷ ts)) cs (h, hts) e hs =
    (refl, h, branches-AreFlagged last (t' ∷ ts) cs hts e hs)

append-none : (bs : Branches) → bs ⧺ no_branches ≡ bs
unfolding ◌⧺◌
append-none no_branches = refl
append-none (add_branch b before t bs) = ap (add_branch b before t) (append-none bs)

pub all_branches-AreFlagged : (ts : List Tree) → AllFlagged ts → AreFlagged (branches true ts)
unfolding IsFlagged
all_branches-AreFlagged ts h =
    subst AreFlagged (append-none (branches true ts))
      (branches-AreFlagged true ts no_branches h refl tt)

pub indexed-AreFlagged : (i : ℕ) (ts : List Tree) → AllFlagged ts → AreFlagged (indexed i ts)
unfolding indexed AllFlagged IsFlagged ◌⧺◌
indexed-AreFlagged i [] h = tt
indexed-AreFlagged i (t ∷ []) (h, _) = (refl, h, tt)
indexed-AreFlagged i (t ∷ (t' ∷ ts)) (h, hts) = (refl, h, indexed-AreFlagged (suc i) (t' ∷ ts) hts)

pub element_branches-AreFlagged :
    (ts : List Tree)
    → AllFlagged ts
    → length ts ≤ print_threshold
    → AreFlagged (element_branches ts)
unfolding element_branches first_branches AllFlagged IsFlagged ◌⧺◌
element_branches-AreFlagged [] h n = tt
element_branches-AreFlagged (a ∷ []) (h, _) n = (refl, h, tt)
element_branches-AreFlagged (a ∷ (b ∷ [])) (h, (h', _)) n = (refl, h, (refl, h', tt))
element_branches-AreFlagged (a ∷ (b ∷ (c ∷ []))) (h, (h', (h'', _))) n =
    (refl, h, (refl, h', (refl, h'', tt)))
element_branches-AreFlagged (a ∷ (b ∷ (c ∷ (d ∷ [])))) (h, (h', (h'', (h''', _)))) n =
    (refl, h, (refl, h', (refl, h'', (refl, h''', tt))))
element_branches-AreFlagged (a ∷ (b ∷ (c ∷ (d ∷ (e ∷ ts))))) h n = absurd (omega arith)
