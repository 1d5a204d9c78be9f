-- ===== src/Print/TypedPrinter/Drawing.antt =====
-- A tree of lines and its drawing, which the printer of lib/AST/TypedASTPrinter.cpp is to produce.
use trsc.Common.{if◌then◌else◌, ℕ, suc, ◌≡◌, refl, Bool, List, [], ◌∷◌, ◌++◌, append_assoc, arith}
use Prim.Native.Nat.{max}
use trsc.Print.Pieces.{Piece}
use trsc.Print.TypedPrinter.{blank, bar, branch}

-- A line with branches below it, each with its flag and the text between its branch and its line;
-- `nothing` is a null pointer, behind whose branch no line stands.
mutual
  pub data Tree : Type 0 where
    nothing : Tree
    line : List Piece → Branches → Tree

  pub data Branches : Type 0 where
    no_branches : Branches
    add_branch : Bool → List Piece → Tree → Branches → Branches

-- The bars of the levels, from the outermost.
unfoldable pub trunks : List Bool → List Piece
trunks [] = []
trunks (b ∷ bs) = (if b then blank else bar) ∷ trunks bs

-- The drawing below the branches that the list of flags names: no counter and no stack.
unfoldable mutual
  unfolding trunks

  pub draw : List Bool → Tree → List Piece
  draw above nothing = []
  draw above (line label bs) = label ++ draw_branches above bs

  pub draw_branches : List Bool → Branches → List Piece
  draw_branches above no_branches = []
  draw_branches above (add_branch b before t bs) =
      (trunks (above ++ b ∷ []) ++ branch b ∷ [])
      ++ (before ++ (draw (above ++ b ∷ []) t ++ draw_branches above bs))

-- The levels below a tree, and those of the longest of some branches.
unfoldable mutual
  pub height : Tree → ℕ
  height nothing = 0
  height (line label bs) = height_branches bs

  pub height_branches : Branches → ℕ
  height_branches no_branches = 0
  height_branches (add_branch b before t bs) = max (suc (height t)) (height_branches bs)

infixr 30 ◌⧺◌
unfoldable pub ◌⧺◌ : Branches → Branches → Branches
no_branches ⧺ cs = cs
add_branch b before t bs ⧺ cs = add_branch b before t (bs ⧺ cs)

pub draw_branches-append :
    (above : List Bool) (bs cs : Branches)
    → draw_branches above (bs ⧺ cs) ≡ draw_branches above bs ++ draw_branches above cs
unfolding draw ◌⧺◌
draw_branches-append above no_branches cs = refl
draw_branches-append above (add_branch b before t bs) cs =
    simp (draw_branches-append above bs cs, append_assoc)

pub height_branches-append :
    (bs cs : Branches) → height_branches (bs ⧺ cs) ≡ max (height_branches bs) (height_branches cs)
unfolding height ◌⧺◌
height_branches-append no_branches cs = omega arith
height_branches-append (add_branch b before t bs) cs = omega (arith, height_branches-append bs cs)
