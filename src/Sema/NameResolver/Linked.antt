-- ===== src/Sema/NameResolver/Linked.antt =====
-- That every use of a name in a tree has a symbol.
use trsc.Common.{ℕ, ◌≡◌, some, List, [], ◌∷◌}
use trsc.Ast.{
  Expr, Exprs, Param, Stmt, Stmts, null_expr, expr, var_node, refr_node, bin_node, unary_node,
  as_node, array_node, array_access_node, range_node, fun_call_node, macro_call_node, no_exprs,
  add_expr, null_stmt, let_stmt, block_stmt, if_stmt, expr_stmt, for_stmt, while_stmt, func_decl,
  return_stmt, no_stmts, add_stmt,
}

-- Every `VarExpr` has a symbol. The name of a function has it from DeclarationCollector.
unfoldable mutual
  pub Linked : Expr → Type 0
  Linked null_expr = Unit
  Linked (expr t (var_node id s)) = (a : ℕ) × (s ≡ some a)
  Linked (expr t (refr_node e m)) = Linked e
  Linked (expr t (bin_node op l r)) = Linked l × Linked r
  Linked (expr t (unary_node op e)) = Linked e
  Linked (expr t (as_node e to)) = Linked e
  Linked (expr t (array_node es n shape)) = AllLinked es × Linked n
  Linked (expr t (array_access_node name es)) = Linked name × AllLinked es
  Linked (expr t (range_node i from to)) = Linked from × Linked to
  Linked (expr t (fun_call_node name es)) = Linked name × AllLinked es
  Linked (expr t (macro_call_node name f h es)) = AllLinked es
  Linked (expr t _) = Unit

  pub AllLinked : Exprs → Type 0
  AllLinked no_exprs = Unit
  AllLinked (add_expr e es) = Linked e × AllLinked es

unfoldable pub LinkedParams : List Param → Type 0
LinkedParams [] = Unit
LinkedParams ((name, t) ∷ ps) = Linked name × LinkedParams ps

unfoldable mutual
  pub LinkedStmt : Stmt → Type 0
  LinkedStmt null_stmt = Unit
  LinkedStmt (let_stmt m var t init) = Linked var × Linked init
  LinkedStmt (block_stmt ss) = LinkedStmts ss
  LinkedStmt (if_stmt c a b) = Linked c × LinkedStmt a × LinkedStmt b
  LinkedStmt (expr_stmt e) = Linked e
  LinkedStmt (for_stmt init range body) = Linked init × Linked range × LinkedStmt body
  LinkedStmt (while_stmt c body) = Linked c × LinkedStmt body
  LinkedStmt (func_decl name t ps body) = LinkedParams ps × LinkedStmt body
  LinkedStmt (return_stmt e) = Linked e

  pub LinkedStmts : Stmts → Type 0
  LinkedStmts no_stmts = Unit
  LinkedStmts (add_stmt s ss) = LinkedStmt s × LinkedStmts ss
