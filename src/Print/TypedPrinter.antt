-- ===== src/Print/TypedPrinter.antt =====
-- lib/AST/TypedASTPrinter.cpp: the state of the printer, the printing of a child under its bars, and what
-- each method does, given the visits of the children. The visits are in TypedPrinter/Visit.
pub mod Labels
pub mod Nodes
pub mod Visit
pub mod Drawing
pub mod Rules
pub mod Outline
pub mod Loops
pub mod Refinement
pub mod Completeness
pub mod Flags
pub mod LastBranches
use trsc.Common.{
  ltb, if◌then◌else◌, codes, ℕ, zero, suc, ◌+◌, ◌-◌, ◌%◌, ◌^◌, Bool, true, false, not, ◌&&◌, List,
  [], ◌∷◌, ◌++◌,
}
use trsc.Print.Pieces.{Piece, before, text}

pub record TypedPrinter : Type 0 where
  pub os : List Piece
  pub indent_level : ℕ
  pub is_last_stack : List Bool

abbrev pub new_printer : TypedPrinter
new_printer = record { os = []; indent_level = 0; is_last_stack = [] }

abbrev pub Print : Type 0
Print = TypedPrinter → TypedPrinter

infixl 20 ◌▸◌
abbrev pub ◌▸◌ : Print → Print → Print
(f ▸ g) p = g (f p)

abbrev pub skip : Print
skip p = p

abbrev pub write : List Piece → Print
write ps p = record p { os = p.os ++ ps }

abbrev pub when : Bool → Print → Print
when true f = f
when false f = skip

-- `IndentLevel++` and `IndentLevel--`, on 32 bits.
unfoldable pub deeper : Print
deeper p = record p { indent_level = (p.indent_level + 1) % 2 ^ 32 }

unfoldable pub shallower : Print
shallower p = record p { indent_level = (p.indent_level + 2 ^ 32 - 1) % 2 ^ 32 }

-- `resize` of the vector.
unfoldable pub resize : ℕ → List Bool → List Bool
resize zero bs = []
resize (suc n) [] = false ∷ resize n []
resize (suc n) (b ∷ bs) = b ∷ resize n bs

unfoldable pub pop_back : List Bool → List Bool
pop_back [] = []
pop_back (b ∷ []) = []
pop_back (b ∷ (c ∷ bs)) = b ∷ pop_back (c ∷ bs)

unfoldable pub is_empty : List Bool → Bool
is_empty [] = true
is_empty _ = false

abbrev pub blank : Piece
blank = text (codes "    ")

-- The bytes of the bar and of the two branches are UTF-8.
abbrev pub bar : Piece
bar = text (226 ∷ 148 ∷ 130 ∷ codes "   ")

abbrev pub branch : Bool → Piece
branch is_last =
    text
      (226 ∷ 148 ∷ (if is_last then 148 else 156) ∷ 226 ∷ 148 ∷ 128 ∷ 226 ∷ 148 ∷ 128 ∷ codes " ")

-- The loop of `printIndent`.
unfoldable pub bars : ℕ → List Bool → List Piece
bars zero bs = []
bars (suc n) [] = blank ∷ bars n []
bars (suc n) (b ∷ bs) = (if b then blank else bar) ∷ bars n bs

unfoldable pub print_indent : Bool → Print
unfolding bars
print_indent is_last p =
    write
      (bars p.indent_level p.is_last_stack
        ++ (if ltb 0 p.indent_level then branch is_last ∷ [] else []))
      p

-- The tests of the level and of the stack around a child.
unfoldable pub push_flag : Bool → Print
unfolding resize
push_flag is_last p =
    if ltb 0 p.indent_level
    then record p { is_last_stack = resize (p.indent_level - 1) p.is_last_stack ++ is_last ∷ [] }
    else p

unfoldable pub pop_flag : Print
unfolding is_empty pop_back
pop_flag p =
    if ltb 0 p.indent_level && not (is_empty p.is_last_stack)
    then record p { is_last_stack = pop_back p.is_last_stack }
    else p

unfoldable pub print_child : Bool → Print → Print
unfolding push_flag print_indent pop_flag
print_child is_last visit = push_flag is_last ▸ print_indent is_last ▸ visit ▸ pop_flag

-- The same without the tests, as the elements of an array, its indices and the arguments of a macro are printed,
-- with the text between the branch and the element.
unfoldable pub push_element : Bool → Print
unfolding resize
push_element is_last p = record p {
  is_last_stack = resize ((p.indent_level + 2 ^ 32 - 1) % 2 ^ 32) p.is_last_stack ++ is_last ∷ [];
}

unfoldable pub pop_element : Print
unfolding pop_back
pop_element p = record p { is_last_stack = pop_back p.is_last_stack }

unfoldable pub print_element : Bool → List Piece → Print → Print
unfolding push_element print_indent pop_element
print_element is_last before visit =
    push_element is_last ▸ print_indent is_last ▸ write before ▸ visit ▸ pop_element

-- A child pointer: whether it is not null, and the visit of what it leads to.
pub record Child : Type 0 where
  pub is_there : Bool
  pub visit : Print

unfoldable pub is_last_of : List Print → Bool
is_last_of [] = true
is_last_of _ = false

-- The loop over all the children of a list.
unfoldable pub print_children : List Print → Print
unfolding is_last_of print_child
print_children [] = skip
print_children (v ∷ vs) = print_child (is_last_of vs) v ▸ print_children vs
