-- ===== src/Print/TypedPrinter/Visit.antt =====
-- lib/AST/TypedASTPrinter.cpp: the visits, as `ASTVisitor::visit` sends each node to its method.
use trsc.Common.{if◌then◌else◌, Bytes, ℕ, Bool, not, Option, List, [], ◌∷◌}
use trsc.Ast.{
  TypeNode, Expr, ExprNode, Exprs, Stmt, Stmts, Param, null_type, type_name, pointer_type_name,
  reference_type_name, array_type_name, null_expr, expr, int_node, float_node, bool_node,
  string_node, var_node, refr_node, bin_node, unary_node, as_node, array_node, array_access_node,
  range_node, fun_call_node, macro_call_node, no_exprs, add_expr, null_stmt, let_stmt, block_stmt,
  if_stmt, expr_stmt, for_stmt, while_stmt, func_decl, return_stmt, no_stmts, add_stmt,
  is_null_expr, is_null_stmt, is_null_type,
}
use trsc.Lex.Token.{IdentifierInfo}
use trsc.Types.QualType.{QualType}
use trsc.Print.Digits.{decimal}
use trsc.Print.Pieces.{Piece, identifier_name, get_type_name, text, double}
use trsc.Print.TypedPrinter.{new_printer, Print, skip, write, Child}
use trsc.Print.TypedPrinter.Labels.{str, expr_line, quoted, type_line}
use trsc.Print.TypedPrinter.Nodes.{
  visit_program, visit_let_stmt, visit_if_stmt, visit_while_stmt, visit_for_stmt, visit_block_stmt,
  visit_expr_stmt, visit_return_stmt, print_param, visit_func_decl, visit_fun_call,
  visit_macro_call, visit_array_access_expr, visit_array_expr, visit_refr_expr, visit_bin_expr,
  visit_unary_expr, visit_range_expr, visit_as_expr,
}

-- `visitTypeName` and the methods of the other type nodes, which print no children.
unfoldable pub visit_type : TypeNode → Print
unfolding type_line get_type_name
visit_type null_type = skip
visit_type (type_name i) = write (type_line "TypeName" (get_type_name (type_name i)))
visit_type (pointer_type_name t m) =
    write (type_line "PointerTypeName" (get_type_name (pointer_type_name t m)))
visit_type (reference_type_name t m) =
    write (type_line "ReferenceTypeName" (get_type_name (reference_type_name t m)))
visit_type (array_type_name t n) =
    write (type_line "ArrayTypeName" (get_type_name (array_type_name t n)))

abbrev pub type_child : TypeNode → Child
type_child t = record { is_there = not (is_null_type t); visit = visit_type t }

-- The lines of the expressions without children.
unfoldable pub int_line : QualType → ℕ → List Piece
unfolding expr_line decimal
int_line t n = expr_line "IntExpr" t (str " " ∷ text (decimal n) ∷ [])

unfoldable pub float_line : QualType → Bytes → List Piece
unfolding expr_line
float_line t d = expr_line "FloatExpr" t (str " " ∷ double d ∷ [])

unfoldable pub bool_line : QualType → Bool → List Piece
unfolding expr_line
bool_line t b = expr_line "BoolExpr" t (str " " ∷ (if b then str "true" else str "false") ∷ [])

unfoldable pub string_line : QualType → Bytes → List Piece
unfolding expr_line
string_line t s = expr_line "StringExpr" t (str " \"" ∷ text s ∷ str "\"" ∷ [])

unfoldable pub var_line : QualType → Option IdentifierInfo → List Piece
unfolding expr_line quoted identifier_name
var_line t i = expr_line "VarExpr" t (quoted (identifier_name i))

unfoldable mutual
  unfolding visit_type int_line float_line bool_line string_line var_line is_null_expr is_null_type
      visit_refr_expr visit_bin_expr visit_unary_expr visit_as_expr visit_array_expr
      visit_array_access_expr visit_range_expr visit_fun_call visit_macro_call

  pub visit_expr : Expr → Print
  visit_expr null_expr = skip
  visit_expr (expr t e) = visit_node t e

  pub visit_node : QualType → ExprNode → Print
  visit_node t (int_node n) = write (int_line t n)
  visit_node t (float_node d) = write (float_line t d)
  visit_node t (bool_node b) = write (bool_line t b)
  visit_node t (string_node s) = write (string_line t s)
  visit_node t (var_node i symbol) = write (var_line t i)
  visit_node t (refr_node e m) =
      visit_refr_expr t m (record { is_there = not (is_null_expr e); visit = visit_expr e })
  visit_node t (bin_node op l r) =
      visit_bin_expr t op (record { is_there = not (is_null_expr l); visit = visit_expr l })
        (record { is_there = not (is_null_expr r); visit = visit_expr r })
  visit_node t (unary_node op e) =
      visit_unary_expr t op (record { is_there = not (is_null_expr e); visit = visit_expr e })
  visit_node t (as_node e to) =
      visit_as_expr t (record { is_there = not (is_null_expr e); visit = visit_expr e })
        (type_child to)
  visit_node t (array_node es n shape) = visit_array_expr t shape (visit_exprs es)
  visit_node t (array_access_node name es) = visit_array_access_expr name t (visit_exprs es)
  visit_node t (range_node inclusive from to) =
      visit_range_expr t inclusive
        (record { is_there = not (is_null_expr from); visit = visit_expr from })
        (record { is_there = not (is_null_expr to); visit = visit_expr to })
  visit_node t (fun_call_node name es) = visit_fun_call name t (visit_exprs es)
  visit_node t (macro_call_node name format has_format es) =
      visit_macro_call name format has_format t (visit_exprs es)

  -- The visits of the expressions of a list.
  pub visit_exprs : Exprs → List Print
  visit_exprs no_exprs = []
  visit_exprs (add_expr e es) = visit_expr e ∷ visit_exprs es

abbrev pub expr_child : Expr → Child
expr_child e = record { is_there = not (is_null_expr e); visit = visit_expr e }

unfoldable pub visit_params : List Param → List Print
unfolding print_param visit_expr visit_type is_null_expr is_null_type
visit_params [] = []
visit_params ((name, type) ∷ ps) = print_param (expr_child name) (type_child type) ∷ visit_params ps

unfoldable mutual
  unfolding visit_expr visit_type is_null_stmt is_null_expr is_null_type visit_params visit_let_stmt
      visit_block_stmt visit_if_stmt visit_expr_stmt visit_for_stmt visit_while_stmt visit_func_decl
      visit_return_stmt

  pub visit_stmt : Stmt → Print
  visit_stmt null_stmt = skip
  visit_stmt (let_stmt m name type initializer) =
      visit_let_stmt m (expr_child name) (type_child type) (expr_child initializer)
  visit_stmt (block_stmt ss) = visit_block_stmt (visit_stmts ss)
  visit_stmt (if_stmt c then_branch else_branch) =
      visit_if_stmt (expr_child c)
        (record { is_there = not (is_null_stmt then_branch); visit = visit_stmt then_branch })
        (record { is_there = not (is_null_stmt else_branch); visit = visit_stmt else_branch })
  visit_stmt (expr_stmt e) = visit_expr_stmt (expr_child e)
  visit_stmt (for_stmt init range body) =
      visit_for_stmt (expr_child init) (expr_child range)
        (record { is_there = not (is_null_stmt body); visit = visit_stmt body })
  visit_stmt (while_stmt c body) =
      visit_while_stmt (expr_child c)
        (record { is_there = not (is_null_stmt body); visit = visit_stmt body })
  visit_stmt (func_decl name return_type params body) =
      visit_func_decl name (visit_params params) (type_child return_type)
        (record { is_there = not (is_null_stmt body); visit = visit_stmt body })
  visit_stmt (return_stmt e) = visit_return_stmt (expr_child e)

  pub visit_stmts : Stmts → List Print
  visit_stmts no_stmts = []
  visit_stmts (add_stmt s ss) = visit_stmt s ∷ visit_stmts ss

-- What a new printer writes of a program.
unfoldable pub print_program : Stmts → List Piece
unfolding visit_program visit_stmts
print_program ss = (visit_program (visit_stmts ss) new_printer).os
