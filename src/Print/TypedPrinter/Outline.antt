-- ===== src/Print/TypedPrinter/Outline.antt =====
-- The tree of lines of a program: what lib/AST/TypedASTPrinter.cpp shows of it.
use trsc.Common.{
  ltb, ◌==◌, if◌then◌else◌, length, ℕ, suc, ◌+◌, ◌-◌, Bool, true, false, not, ◌&&◌, ◌||◌, List, [],
  ◌∷◌,
}
use trsc.Ast.{
  TypeNode, Expr, ExprNode, Exprs, Stmt, Stmts, Param, null_type, type_name, pointer_type_name,
  reference_type_name, array_type_name, null_expr, expr, int_node, float_node, bool_node,
  string_node, var_node, refr_node, bin_node, unary_node, as_node, array_node, array_access_node,
  range_node, fun_call_node, macro_call_node, no_exprs, add_expr, null_stmt, let_stmt, block_stmt,
  if_stmt, expr_stmt, for_stmt, while_stmt, func_decl, return_stmt, no_stmts, add_stmt,
  is_null_expr, is_null_stmt, is_null_type,
}
use trsc.Types.QualType.{QualType}
use trsc.Print.Pieces.{get_type_name, var_name}
use trsc.Print.TypedPrinter.Labels.{
  str, plain_line, expr_line, quoted, type_line, let_line, func_decl_line, param_line,
  fun_call_line, macro_call_line, array_line, more_elements_line, index_text, operator_text,
}
use trsc.Print.TypedPrinter.Nodes.{print_threshold}
use trsc.Print.TypedPrinter.Visit.{int_line, float_line, bool_line, string_line, var_line}
use trsc.Print.TypedPrinter.Drawing.{Tree, Branches, ◌⧺◌, nothing, line, no_branches, add_branch}
use trsc.Print.TypedPrinter.Rules.{some_branches}

-- One branch for a child that is there.
abbrev pub twig : Bool → Bool → Tree → Branches
twig is_there is_last t = some_branches is_there (add_branch is_last [] t no_branches)

abbrev pub is_end : List Tree → Bool
is_end [] = true
is_end _ = false

-- A branch for each tree of a list; the last is flagged where nothing comes behind the list.
unfoldable pub branches : Bool → List Tree → Branches
branches last [] = no_branches
branches last (t ∷ ts) = add_branch (is_end ts && last) [] t no_branches ⧺ branches last ts

-- The branches of the indices, with their numbers.
unfoldable pub indexed : ℕ → List Tree → Branches
unfolding index_text
indexed i [] = no_branches
indexed i (t ∷ ts) = add_branch (is_end ts) (index_text i) t no_branches ⧺ indexed (suc i) ts

-- The branches of the first elements.
unfoldable pub first_branches : ℕ → ℕ → List Tree → Branches
first_branches size i [] = no_branches
first_branches size i (t ∷ ts) =
    some_branches (ltb i print_threshold) (
      add_branch ((i + 1 == size) || (i + 1 == print_threshold && ltb print_threshold size)) [] t
        no_branches)
    ⧺ first_branches size (suc i) ts

unfoldable pub element_branches : List Tree → Branches
unfolding first_branches more_elements_line
element_branches ts =
    first_branches (length ts) 0 ts
    ⧺ some_branches (ltb print_threshold (length ts))
        (add_branch true (more_elements_line (length ts - print_threshold)) nothing no_branches)

unfoldable pub outline_type : TypeNode → Tree
unfolding type_line get_type_name
outline_type null_type = nothing
outline_type (type_name i) = line (type_line "TypeName" (get_type_name (type_name i))) no_branches
outline_type (pointer_type_name t m) =
    line (type_line "PointerTypeName" (get_type_name (pointer_type_name t m))) no_branches
outline_type (reference_type_name t m) =
    line (type_line "ReferenceTypeName" (get_type_name (reference_type_name t m))) no_branches
outline_type (array_type_name t n) =
    line (type_line "ArrayTypeName" (get_type_name (array_type_name t n))) no_branches

unfoldable mutual
  unfolding outline_type int_line float_line bool_line string_line var_line is_null_expr
      is_null_type expr_line operator_text quoted var_name array_line fun_call_line macro_call_line
      branches indexed element_branches

  pub outline_expr : Expr → Tree
  outline_expr null_expr = nothing
  outline_expr (expr t e) = outline_node t e

  pub outline_node : QualType → ExprNode → Tree
  outline_node t (int_node n) = line (int_line t n) no_branches
  outline_node t (float_node d) = line (float_line t d) no_branches
  outline_node t (bool_node b) = line (bool_line t b) no_branches
  outline_node t (string_node s) = line (string_line t s) no_branches
  outline_node t (var_node i symbol) = line (var_line t i) no_branches
  outline_node t (refr_node e m) =
      line (expr_line "RefrExpr" t (str " " ∷ (if m then str "mut" else str "immut") ∷ []))
        (twig (not (is_null_expr e)) true (outline_expr e))
  outline_node t (bin_node op l r) = line (expr_line "BinExpr" t (operator_text op)) (
      twig (not (is_null_expr l)) false (outline_expr l)
      ⧺ twig (not (is_null_expr r)) true (outline_expr r))
  outline_node t (unary_node op e) =
      line (expr_line "UnaryExpr" t (operator_text op))
        (twig (not (is_null_expr e)) true (outline_expr e))
  outline_node t (as_node e to) = line (expr_line "ASExpr" t []) (
      twig (not (is_null_expr e)) (not (not (is_null_type to))) (outline_expr e)
      ⧺ twig (not (is_null_type to)) true (outline_type to))
  outline_node t (array_node es n shape) =
      line (array_line t shape) (element_branches (outline_exprs es))
  outline_node t (array_access_node name es) =
      line (expr_line "ArrayAccessExpr" t (quoted (var_name name))) (indexed 0 (outline_exprs es))
  outline_node t (range_node inclusive from to) =
      line
        (expr_line "RangeExpr" t
          (str " " ∷ (if inclusive then str "inclusive" else str "exclusive") ∷ []))
        (twig (not (is_null_expr from)) false (outline_expr from)
          ⧺ twig (not (is_null_expr to)) true (outline_expr to))
  outline_node t (fun_call_node name es) =
      line (fun_call_line name t) (branches true (outline_exprs es))
  outline_node t (macro_call_node name format has_format es) =
      line (macro_call_line name format has_format t) (branches true (outline_exprs es))

  pub outline_exprs : Exprs → List Tree
  outline_exprs no_exprs = []
  outline_exprs (add_expr e es) = outline_expr e ∷ outline_exprs es

abbrev pub expr_twig : Bool → Expr → Branches
expr_twig is_last e = twig (not (is_null_expr e)) is_last (outline_expr e)

abbrev pub type_twig : Bool → TypeNode → Branches
type_twig is_last t = twig (not (is_null_type t)) is_last (outline_type t)

unfoldable pub outline_params : List Param → List Tree
unfolding outline_expr outline_type is_null_expr is_null_type param_line
outline_params [] = []
outline_params ((name, type) ∷ ps) =
    line param_line (expr_twig false name ⧺ type_twig true type) ∷ outline_params ps

unfoldable mutual
  unfolding outline_expr outline_type outline_params is_null_stmt is_null_expr is_null_type let_line
      plain_line func_decl_line branches

  pub outline_stmt : Stmt → Tree
  outline_stmt null_stmt = nothing
  outline_stmt (let_stmt m name type initializer) = line (let_line m) (
      expr_twig (not (not (is_null_type type) || not (is_null_expr initializer))) name
      ⧺ type_twig (not (not (is_null_expr initializer))) type
      ⧺ expr_twig true initializer)
  outline_stmt (block_stmt ss) = line (plain_line "BlockStmt") (branches true (outline_stmts ss))
  outline_stmt (if_stmt c then_branch else_branch) = line (plain_line "IfStmt") (
      expr_twig (not (not (is_null_stmt then_branch) || not (is_null_stmt else_branch))) c
      ⧺ twig (not (is_null_stmt then_branch)) (not (not (is_null_stmt else_branch)))
          (outline_stmt then_branch)
      ⧺ twig (not (is_null_stmt else_branch)) true (outline_stmt else_branch))
  outline_stmt (expr_stmt e) = line (plain_line "ExprStmt") (expr_twig true e)
  outline_stmt (for_stmt init range body) = line (plain_line "ForStmt") (
      expr_twig false init
      ⧺ expr_twig (not (not (is_null_stmt body))) range
      ⧺ twig (not (is_null_stmt body)) true (outline_stmt body))
  outline_stmt (while_stmt c body) =
      line (plain_line "WhileStmt")
        (expr_twig false c ⧺ twig (not (is_null_stmt body)) true (outline_stmt body))
  outline_stmt (func_decl name return_type params body) = line (func_decl_line name) (
      branches (not (not (is_null_type return_type)) && not (not (is_null_stmt body)))
        (outline_params params)
      ⧺ type_twig (not (not (is_null_stmt body))) return_type
      ⧺ twig (not (is_null_stmt body)) true (outline_stmt body))
  outline_stmt (return_stmt e) = line (plain_line "ReturnStmt") (expr_twig true e)

  pub outline_stmts : Stmts → List Tree
  outline_stmts no_stmts = []
  outline_stmts (add_stmt s ss) = outline_stmt s ∷ outline_stmts ss

unfoldable pub outline_program : Stmts → Tree
unfolding plain_line branches outline_stmts
outline_program ss = line (plain_line "Program") (branches true (outline_stmts ss))
