-- ===== src/Print/TypedPrinter/Loops.antt =====
-- The loops of lib/AST/TypedASTPrinter.cpp over lists of children draw their branches.
use trsc.Common.{
  ltb, length, ℕ, suc, ◌-◌, ◌≡◌, refl, ap, Bool, true, false, not, ◌&&◌, List, [], ◌∷◌,
}
use trsc.Print.Pieces.{Piece}
use trsc.Print.TypedPrinter.{
  Print, ◌▸◌, skip, write, when, deeper, shallower, print_element, is_last_of, print_children,
}
use trsc.Print.TypedPrinter.Labels.{more_elements_line, index_text}
use trsc.Print.TypedPrinter.Nodes.{
  print_params, print_elements, print_indices, print_threshold, print_first,
}
use trsc.Print.TypedPrinter.Drawing.{Tree, Branches, nothing, line, no_branches}
use trsc.Print.TypedPrinter.Rules.{
  Draws, DrawsBranches, Draws-child, Draws-element, Draws-nothing, Draws-leaf, DrawsBranches-skip,
  DrawsBranches-then, DrawsBranches-when, Draws-line,
}
use trsc.Print.TypedPrinter.Outline.{is_end, branches, indexed, first_branches, element_branches}

-- Each visit draws the tree at its place.
pub data DrawsAll : List Print → List Tree → Type 0 where
  no_draws : DrawsAll [] []
  add_draws :
      (v : Print) (t : Tree) (vs : List Print) (ts : List Tree)
      → Draws v t
      → DrawsAll vs ts
      → DrawsAll (v ∷ vs) (t ∷ ts)

pub length-DrawsAll : (vs : List Print) (ts : List Tree) → DrawsAll vs ts → length vs ≡ length ts
length-DrawsAll _ _ no_draws = refl
length-DrawsAll _ _ (add_draws v t vs ts h hs) = ap suc (length-DrawsAll vs ts hs)

is_last_of-DrawsAll :
    (vs : List Print) (ts : List Tree) → DrawsAll vs ts → is_last_of vs ≡ is_end ts
unfolding is_last_of
is_last_of-DrawsAll _ _ no_draws = refl
is_last_of-DrawsAll _ _ (add_draws v t vs ts h hs) = refl

pub print_params-Draws :
    (last : Bool) (vs : List Print) (ts : List Tree)
    → DrawsAll vs ts
    → DrawsBranches (print_params last vs) (branches last ts)
unfolding print_params branches
print_params-Draws last _ _ no_draws = DrawsBranches-skip
print_params-Draws last _ _ (add_draws v t vs ts h hs) = rw (is_last_of-DrawsAll vs ts hs) (
    DrawsBranches-then _ _ _ _ (Draws-child v t (is_end ts && last) h)
      (print_params-Draws last vs ts hs))

and_true : (b : Bool) → (b && true) ≡ b
and_true true = refl
and_true false = refl

pub print_children-Draws :
    (vs : List Print) (ts : List Tree)
    → DrawsAll vs ts
    → DrawsBranches (print_children vs) (branches true ts)
unfolding print_children branches
print_children-Draws _ _ no_draws = DrawsBranches-skip
print_children-Draws _ _ (add_draws v t vs ts h hs) =
    rw (is_last_of-DrawsAll vs ts hs, and_true (is_end ts))
      (DrawsBranches-then _ _ _ _ (Draws-child v t (is_end ts) h) (print_children-Draws vs ts hs))

pub print_elements-Draws :
    (vs : List Print) (ts : List Tree)
    → DrawsAll vs ts
    → DrawsBranches (print_elements vs) (branches true ts)
unfolding print_elements branches
print_elements-Draws _ _ no_draws = DrawsBranches-skip
print_elements-Draws _ _ (add_draws v t vs ts h hs) =
    rw (is_last_of-DrawsAll vs ts hs, and_true (is_end ts))
      (DrawsBranches-then _ _ _ _ (Draws-element v t (is_end ts) h [])
        (print_elements-Draws vs ts hs))

pub print_indices-Draws :
    (i : ℕ) (vs : List Print) (ts : List Tree)
    → DrawsAll vs ts
    → DrawsBranches (print_indices i vs) (indexed i ts)
unfolding print_indices indexed
print_indices-Draws i _ _ no_draws = DrawsBranches-skip
print_indices-Draws i _ _ (add_draws v t vs ts h hs) = rw (is_last_of-DrawsAll vs ts hs) (
    DrawsBranches-then _ _ _ _ (Draws-element v t (is_end ts) h (index_text i))
      (print_indices-Draws (suc i) vs ts hs))

print_first-Draws :
    (size i : ℕ) (vs : List Print) (ts : List Tree)
    → DrawsAll vs ts
    → DrawsBranches (print_first size i vs) (first_branches size i ts)
unfolding print_first first_branches
print_first-Draws size i _ _ no_draws = DrawsBranches-skip
print_first-Draws size i _ _ (add_draws v t vs ts h hs) =
    DrawsBranches-then _ _ _ _
      (DrawsBranches-when (ltb i print_threshold) _ _ (Draws-element v t _ h []))
      (print_first-Draws size (suc i) vs ts hs)

-- The loop over the first elements, and the line for the others.
pub element_branches-Draws :
    (vs : List Print) (ts : List Tree)
    → DrawsAll vs ts
    → DrawsBranches
        (print_first (length vs) 0 vs
          ▸ when
              (ltb print_threshold (length vs))
              (print_element true (more_elements_line (length vs - print_threshold)) skip))
        (element_branches ts)
unfolding element_branches
element_branches-Draws vs ts h = rw (length-DrawsAll vs ts h) (
    DrawsBranches-then _ _ _ _ (print_first-Draws (length ts) 0 vs ts h) (
      DrawsBranches-when (ltb print_threshold (length ts)) _ _ (
        Draws-element skip nothing true Draws-nothing
          (more_elements_line (length ts - print_threshold)))))

-- A node that enters the level only where its list is not empty.
pub Draws-list :
    (label : List Piece) (f : Print) (vs : List Print) (ts : List Tree) (bs : Branches)
    → DrawsAll vs ts
    → (ts ≡ [] → bs ≡ no_branches)
    → DrawsBranches f bs
    → Draws (write label ▸ when (not (is_last_of vs)) (deeper ▸ f ▸ shallower)) (line label bs)
unfolding is_last_of
Draws-list label f _ _ bs no_draws empty hf = rw (empty refl) (Draws-leaf label)
Draws-list label f _ _ bs (add_draws v t vs ts h hs) empty hf = Draws-line label f bs hf
