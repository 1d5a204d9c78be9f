-- ===== src/Print/TypedPrinter/Completeness.antt =====
-- The trees that lib/AST/TypedASTPrinter.cpp draws with the last branch at the last child.
use trsc.Common.{ℕ, suc, ◌≤◌, ◌≡◌, false, List, [], ◌∷◌}
use trsc.Ast.{
  Expr, ExprNode, Exprs, Stmt, Stmts, Param, null_expr, expr, int_node, float_node, bool_node,
  string_node, var_node, refr_node, bin_node, unary_node, as_node, array_node, array_access_node,
  range_node, fun_call_node, macro_call_node, no_exprs, add_expr, null_stmt, let_stmt, block_stmt,
  if_stmt, expr_stmt, for_stmt, while_stmt, func_decl, return_stmt, no_stmts, add_stmt,
  is_null_expr, is_null_stmt, is_null_type,
}
use trsc.Print.TypedPrinter.Nodes.{print_threshold}

unfoldable pub size : Exprs → ℕ
size no_exprs = 0
size (add_expr e es) = suc (size es)

-- The last child of each node that the printer always counts on is there, and no array has more elements
-- than the printer shows.
unfoldable mutual
  unfolding is_null_expr size

  pub IsComplete : Expr → Type 0
  IsComplete null_expr = Unit {0}
  IsComplete (expr t e) = NodeIsComplete e

  pub NodeIsComplete : ExprNode → Type 0
  NodeIsComplete (int_node n) = Unit {0}
  NodeIsComplete (float_node d) = Unit {0}
  NodeIsComplete (bool_node b) = Unit {0}
  NodeIsComplete (string_node s) = Unit {0}
  NodeIsComplete (var_node i symbol) = Unit {0}
  NodeIsComplete (refr_node e m) = IsComplete e
  NodeIsComplete (bin_node op l r) = (is_null_expr r ≡ false) × IsComplete l × IsComplete r
  NodeIsComplete (unary_node op e) = IsComplete e
  NodeIsComplete (as_node e to) = IsComplete e
  NodeIsComplete (array_node es n shape) = (size es ≤ print_threshold) × AreComplete es
  NodeIsComplete (array_access_node name es) = AreComplete es
  NodeIsComplete (range_node inclusive from to) =
      (is_null_expr to ≡ false) × IsComplete from × IsComplete to
  NodeIsComplete (fun_call_node name es) = AreComplete es
  NodeIsComplete (macro_call_node name format has_format es) = AreComplete es

  pub AreComplete : Exprs → Type 0
  AreComplete no_exprs = Unit {0}
  AreComplete (add_expr e es) = IsComplete e × AreComplete es

unfoldable pub ParamsAreComplete : List Param → Type 0
unfolding IsComplete is_null_type
ParamsAreComplete [] = Unit {0}
ParamsAreComplete ((name, type) ∷ ps) =
    (is_null_type type ≡ false) × IsComplete name × ParamsAreComplete ps

unfoldable mutual
  unfolding IsComplete ParamsAreComplete is_null_stmt is_null_expr

  pub StmtIsComplete : Stmt → Type 0
  StmtIsComplete null_stmt = Unit {0}
  StmtIsComplete (let_stmt m name type initializer) = IsComplete name × IsComplete initializer
  StmtIsComplete (block_stmt ss) = StmtsAreComplete ss
  StmtIsComplete (if_stmt c then_branch else_branch) =
      IsComplete c × StmtIsComplete then_branch × StmtIsComplete else_branch
  StmtIsComplete (expr_stmt e) = IsComplete e
  StmtIsComplete (for_stmt init range body) =
      (is_null_stmt body ≡ false) × IsComplete init × IsComplete range × StmtIsComplete body
  StmtIsComplete (while_stmt c body) =
      (is_null_stmt body ≡ false) × IsComplete c × StmtIsComplete body
  StmtIsComplete (func_decl name return_type params body) =
      ParamsAreComplete params × StmtIsComplete body
  StmtIsComplete (return_stmt e) = IsComplete e

  pub StmtsAreComplete : Stmts → Type 0
  StmtsAreComplete no_stmts = Unit {0}
  StmtsAreComplete (add_stmt s ss) = StmtIsComplete s × StmtsAreComplete ss
