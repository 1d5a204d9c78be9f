-- ===== src/Print/TypedPrinter/Nodes.antt =====
-- lib/AST/TypedASTPrinter.cpp: the methods for the nodes, given the visits of the children.
use trsc.Common.{
  ltb, ◌==◌, if◌then◌else◌, length, Bytes, ℕ, suc, ◌+◌, ◌-◌, Bool, true, false, not, ◌&&◌, ◌||◌,
  List, [], ◌∷◌,
}
use trsc.Ast.{Expr}
use trsc.Lex.Token.{TokenKind}
use trsc.Types.QualType.{QualType}
use trsc.Print.Pieces.{var_name}
use trsc.Print.TypedPrinter.{
  Print, ◌▸◌, skip, write, when, deeper, shallower, print_child, print_element, Child, is_last_of,
  print_children,
}
use trsc.Print.TypedPrinter.Labels.{
  str, plain_line, expr_line, quoted, let_line, func_decl_line, param_line, fun_call_line,
  macro_call_line, array_line, more_elements_line, index_text, operator_text,
}

-- A child that is printed where it is there.
unfoldable pub print_present : Bool → Child → Print
unfolding print_child
print_present is_last c = when c.is_there (print_child is_last c.visit)

-- The only child of a node, whose level is entered for it alone.
unfoldable pub print_only : Child → Print
unfolding print_child deeper shallower
print_only c = when c.is_there (deeper ▸ print_child true c.visit ▸ shallower)

unfoldable pub visit_program : List Print → Print
unfolding plain_line deeper print_children shallower
visit_program ss = write (plain_line "Program") ▸ deeper ▸ print_children ss ▸ shallower

unfoldable pub visit_let_stmt : Bool → Child → Child → Child → Print
unfolding let_line deeper print_present shallower
visit_let_stmt m name type initializer =
    write (let_line m)
    ▸ deeper
    ▸ print_present (not (type.is_there || initializer.is_there)) name
    ▸ print_present (not initializer.is_there) type
    ▸ print_present true initializer
    ▸ shallower

unfoldable pub visit_if_stmt : Child → Child → Child → Print
unfolding plain_line deeper print_present shallower
visit_if_stmt condition then_branch else_branch =
    write (plain_line "IfStmt")
    ▸ deeper
    ▸ print_present (not (then_branch.is_there || else_branch.is_there)) condition
    ▸ print_present (not else_branch.is_there) then_branch
    ▸ print_present true else_branch
    ▸ shallower

unfoldable pub visit_while_stmt : Child → Child → Print
unfolding plain_line deeper print_present shallower
visit_while_stmt condition body =
    write (plain_line "WhileStmt")
    ▸ deeper
    ▸ print_present false condition
    ▸ print_present true body
    ▸ shallower

unfoldable pub visit_for_stmt : Child → Child → Child → Print
unfolding plain_line deeper print_present shallower
visit_for_stmt init range body =
    write (plain_line "ForStmt")
    ▸ deeper
    ▸ print_present false init
    ▸ print_present (not body.is_there) range
    ▸ print_present true body
    ▸ shallower

unfoldable pub visit_block_stmt : List Print → Print
unfolding plain_line deeper print_children shallower
visit_block_stmt ss = write (plain_line "BlockStmt") ▸ deeper ▸ print_children ss ▸ shallower

unfoldable pub visit_expr_stmt : Child → Print
unfolding plain_line print_only
visit_expr_stmt e = write (plain_line "ExprStmt") ▸ print_only e

unfoldable pub visit_return_stmt : Child → Print
unfolding plain_line print_only
visit_return_stmt e = write (plain_line "ReturnStmt") ▸ print_only e

-- A parameter is printed as a child without a test of its own pointer.
unfoldable pub print_param : Child → Child → Print
unfolding param_line deeper print_present shallower
print_param name type =
    write param_line ▸ deeper ▸ print_present false name ▸ print_present true type ▸ shallower

-- The loop over the parameters, the last of which may be the last child of the declaration.
unfoldable pub print_params : Bool → List Print → Print
unfolding is_last_of print_child
print_params is_end [] = skip
print_params is_end (v ∷ vs) = print_child (is_last_of vs && is_end) v ▸ print_params is_end vs

unfoldable pub visit_func_decl : Expr → List Print → Child → Child → Print
unfolding func_decl_line deeper print_params print_present shallower
visit_func_decl name params return_type body =
    write (func_decl_line name)
    ▸ deeper
    ▸ print_params (not return_type.is_there && not body.is_there) params
    ▸ print_present (not body.is_there) return_type
    ▸ print_present true body
    ▸ shallower

unfoldable pub visit_fun_call : Expr → QualType → List Print → Print
unfolding fun_call_line is_last_of deeper print_children shallower
visit_fun_call name t params =
    write (fun_call_line name t)
    ▸ when (not (is_last_of params)) (deeper ▸ print_children params ▸ shallower)

-- The loops without tests of the level.
unfoldable pub print_elements : List Print → Print
unfolding is_last_of print_element
print_elements [] = skip
print_elements (v ∷ vs) = print_element (is_last_of vs) [] v ▸ print_elements vs

unfoldable pub visit_macro_call : Bytes → Bytes → Bool → QualType → List Print → Print
unfolding macro_call_line is_last_of deeper print_elements shallower
visit_macro_call name format has_format t params =
    write (macro_call_line name format has_format t)
    ▸ when (not (is_last_of params)) (deeper ▸ print_elements params ▸ shallower)

-- The loop over the indices, the first of which has the number given.
unfoldable pub print_indices : ℕ → List Print → Print
unfolding is_last_of print_element index_text
print_indices i [] = skip
print_indices i (v ∷ vs) = print_element (is_last_of vs) (index_text i) v ▸ print_indices (suc i) vs

unfoldable pub visit_array_access_expr : Expr → QualType → List Print → Print
unfolding expr_line quoted var_name is_last_of deeper print_indices shallower
visit_array_access_expr name t indices =
    write (expr_line "ArrayAccessExpr" t (quoted (var_name name)))
    ▸ when (not (is_last_of indices)) (deeper ▸ print_indices 0 indices ▸ shallower)

abbrev pub print_threshold : ℕ
print_threshold = 4

-- The first elements, from the one with the number given: the last of all has the last branch, and so
-- has the last that is printed where there are more.
unfoldable pub print_first : ℕ → ℕ → List Print → Print
unfolding print_element
print_first size i [] = skip
print_first size i (v ∷ vs) =
    when (ltb i print_threshold) (
      print_element ((i + 1 == size) || (i + 1 == print_threshold && ltb print_threshold size)) []
        v)
    ▸ print_first size (suc i) vs

unfoldable pub visit_array_expr : QualType → List ℕ → List Print → Print
unfolding array_line is_last_of deeper print_first print_element more_elements_line shallower
visit_array_expr t shape elems =
    write (array_line t shape)
    ▸ when (not (is_last_of elems)) (
        deeper
        ▸ print_first (length elems) 0 elems
        ▸ when (ltb print_threshold (length elems))
            (print_element true (more_elements_line (length elems - print_threshold)) skip)
        ▸ shallower)

unfoldable pub visit_refr_expr : QualType → Bool → Child → Print
unfolding expr_line print_only
visit_refr_expr t m referent =
    write (expr_line "RefrExpr" t (str " " ∷ (if m then str "mut" else str "immut") ∷ []))
    ▸ print_only referent

-- Two children, of which the first never has the last branch.
unfoldable pub print_two : Child → Child → Print
unfolding deeper print_present shallower
print_two l r = deeper ▸ print_present false l ▸ print_present true r ▸ shallower

unfoldable pub visit_bin_expr : QualType → TokenKind → Child → Child → Print
unfolding expr_line operator_text print_two
visit_bin_expr t op l r = write (expr_line "BinExpr" t (operator_text op)) ▸ print_two l r

unfoldable pub visit_unary_expr : QualType → TokenKind → Child → Print
unfolding expr_line operator_text deeper print_present shallower
visit_unary_expr t op e =
    write (expr_line "UnaryExpr" t (operator_text op)) ▸ deeper ▸ print_present true e ▸ shallower

unfoldable pub visit_range_expr : QualType → Bool → Child → Child → Print
unfolding expr_line print_two
visit_range_expr t inclusive from to =
    write (
      expr_line "RangeExpr" t
        (str " " ∷ (if inclusive then str "inclusive" else str "exclusive") ∷ []))
    ▸ print_two from to

unfoldable pub visit_as_expr : QualType → Child → Child → Print
unfolding expr_line deeper print_present shallower
visit_as_expr t from to =
    write (expr_line "ASExpr" t [])
    ▸ deeper
    ▸ print_present (not to.is_there) from
    ▸ print_present true to
    ▸ shallower
