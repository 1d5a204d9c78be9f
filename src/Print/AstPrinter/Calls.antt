-- ===== src/Print/AstPrinter/Calls.antt =====
-- The function calls that lib/AST/ASTPrinter.cpp comes by.
use trsc.Common.{ℕ, ◌+◌}
use trsc.Ast.{
  Expr, ExprNode, Exprs, Stmt, Stmts, null_expr, expr, int_node, float_node, bool_node, string_node,
  var_node, refr_node, bin_node, unary_node, as_node, array_node, array_access_node, range_node,
  fun_call_node, macro_call_node, no_exprs, add_expr, null_stmt, let_stmt, block_stmt, if_stmt,
  expr_stmt, for_stmt, while_stmt, func_decl, return_stmt, no_stmts, add_stmt,
}

-- The function calls that a visit comes by.
unfoldable mutual
  pub calls : Expr → ℕ
  calls null_expr = 0
  calls (expr t e) = node_calls e

  pub node_calls : ExprNode → ℕ
  node_calls (int_node n) = 0
  node_calls (float_node d) = 0
  node_calls (bool_node b) = 0
  node_calls (string_node s) = 0
  node_calls (var_node i symbol) = 0
  node_calls (refr_node e m) = calls e
  node_calls (bin_node op l r) = calls l + calls r
  node_calls (unary_node op e) = calls e
  node_calls (as_node e to) = calls e
  node_calls (array_node es n shape) = calls_of es
  node_calls (array_access_node name es) = calls name + calls_of es
  node_calls (range_node inclusive from to) = calls from + calls to
  node_calls (fun_call_node name es) = calls_of es + 1
  node_calls (macro_call_node name format has_format es) = calls_of es

  pub calls_of : Exprs → ℕ
  calls_of no_exprs = 0
  calls_of (add_expr e es) = calls e + calls_of es

unfoldable mutual
  unfolding calls

  pub stmt_calls : Stmt → ℕ
  stmt_calls null_stmt = 0
  stmt_calls (let_stmt m name type initializer) = calls name + calls initializer
  stmt_calls (block_stmt ss) = stmts_calls ss
  stmt_calls (if_stmt c then_branch else_branch) =
      calls c + stmt_calls then_branch + stmt_calls else_branch
  stmt_calls (expr_stmt e) = calls e
  stmt_calls (for_stmt init range body) = calls init + calls range + stmt_calls body
  stmt_calls (while_stmt c body) = calls c + stmt_calls body
  stmt_calls (func_decl name return_type params body) = body_calls body
  stmt_calls (return_stmt e) = calls e

  pub body_calls : Stmt → ℕ
  body_calls (block_stmt ss) = stmts_calls ss
  body_calls _ = 0

  pub stmts_calls : Stmts → ℕ
  stmts_calls no_stmts = 0
  stmts_calls (add_stmt s ss) = stmt_calls s + stmts_calls ss
