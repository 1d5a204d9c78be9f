-- ===== src/Sema/NameResolver/Returns.antt =====
-- The passes return from every tree that they follow no null pointer in, whatever the symbol table does.
use trsc.Common.{
  if_elim, Bytes, codes, bytes_eq, ℕ, refl, Bool, true, false, Option, none, some, List, [], ◌∷◌,
}
use trsc.Lex.Token.{IdentifierInfo}
use trsc.Types.QualType.{QualType}
use trsc.Ast.{
  Expr, Exprs, Param, Stmt, Stmts, null_expr, expr, int_node, float_node, bool_node, string_node,
  var_node, refr_node, bin_node, unary_node, as_node, array_node, array_access_node, range_node,
  fun_call_node, macro_call_node, no_exprs, add_expr, null_stmt, let_stmt, block_stmt, if_stmt,
  expr_stmt, for_stmt, while_stmt, func_decl, return_stmt, no_stmts, add_stmt,
}
use trsc.Basic.Diagnostics.{Message}
use trsc.Sema.Scope.{SymbolKind, ScopeKind}
use trsc.Sema.Pass.{Pass}
use trsc.Sema.NameResolver.{
  ScopeTable, Resolver, report_error, open_scope, close_scope, add_name, look_up, scoped, link,
  declare_var, resolve, declare_params, check_macro_name, visit_expr, visit_exprs, block_scope,
  visit_stmt, visit_stmts, collect, collect_program, resolve_program,
}
use trsc.Sema.NameResolver.Named.{
  IsVar, Named, AllNamed, NamedParams, NamedStmt, NamedStmts, IsItem, AllItems,
}
use trsc.Sema.Pass.Returning.{
  Returns, Any, Returns-pure, Returns-run, Returns-bind, any, one, two, three,
}

module _ {S : Type 0} (T : ScopeTable S) where
  report_error-Returns : (m : Message) → Returns Any (report_error T m)
  unfolding report_error
  report_error-Returns m = Returns-run _ _ _ λ r. refl

  scoped-Returns :
      {A : Type 0} (k : ScopeKind) (m : Pass (Resolver S) A)
      → Returns Any m
      → Returns Any (scoped T k m)
  unfolding scoped open_scope close_scope
  scoped-Returns k m h = Returns-bind (Returns-run _ _ _ λ r. refl) λ u _.
      Returns-bind h λ a _. Returns-bind (Returns-run _ _ _ λ r. refl) λ v _. Returns-pure a tt

  link-Returns :
      (t : QualType) (id : IdentifierInfo) (old : Option ℕ) (m : Message) (o : Option ℕ)
      → Returns IsVar (link T t (some id) old m o)
  unfolding link IsVar
  link-Returns t id old m (some address) = Returns-pure _ tt
  link-Returns t id old m none = Returns-bind (report_error-Returns m) λ u _. Returns-pure _ tt

  declare_var-Returns :
      (k : SymbolKind) (i : Bool) (m : Message) (e : Expr)
      → IsVar e
      → Returns IsVar (declare_var T k i m e)
  unfolding declare_var add_name IsVar
  declare_var-Returns k i m (expr t (var_node (some id) old)) h =
      Returns-bind (Returns-run _ _ _ λ r. refl) λ o _. link-Returns t id old m o
  declare_var-Returns k i m _ h = absurd h

  resolve-Returns : (m : Message) (e : Expr) → IsVar e → Returns IsVar (resolve T m e)
  unfolding resolve look_up IsVar
  resolve-Returns m (expr t (var_node (some id) old)) h =
      Returns-bind (Returns-run _ _ _ λ r. refl) λ o _. link-Returns t id old m o
  resolve-Returns m _ h = absurd h

  declare_params-Returns : (ps : List Param) → NamedParams ps → Returns Any (declare_params T ps)
  unfolding declare_params NamedParams
  declare_params-Returns [] h = Returns-pure [] tt
  declare_params-Returns ((name, t) ∷ ps) (h, hs) =
      Returns-bind (declare_var-Returns _ _ _ name h)
        λ x _. Returns-bind (declare_params-Returns ps hs) λ y _. Returns-pure _ tt

  check_macro_name-Returns : (name : Bytes) → Returns Any (check_macro_name T name)
  unfolding check_macro_name
  check_macro_name-Returns name =
      if_elim (Returns Any) (bytes_eq name (codes "println")) (λ e. Returns-pure tt tt)
        λ e. report_error-Returns _

  block_scope-Returns :
      {A : Type 0} (body : Bool) (m : Pass (Resolver S) A)
      → Returns Any m
      → Returns Any (block_scope T body m)
  unfolding block_scope
  block_scope-Returns true m h = h
  block_scope-Returns false m h = scoped-Returns _ m h

  mutual
    unfolding visit_expr Named

    expr-Returns : (e : Expr) → Named e → Returns Any (visit_expr T e)
    expr-Returns null_expr h = Returns-pure _ tt
    expr-Returns (expr t (int_node n)) h = Returns-pure _ tt
    expr-Returns (expr t (float_node s)) h = Returns-pure _ tt
    expr-Returns (expr t (bool_node x)) h = Returns-pure _ tt
    expr-Returns (expr t (string_node s)) h = Returns-pure _ tt
    expr-Returns (expr t (var_node id s)) h = any (resolve-Returns _ _ h)
    expr-Returns (expr t (refr_node e m)) h = one _ (expr-Returns e h)
    expr-Returns (expr t (bin_node op l r)) (h, k) = two _ (expr-Returns l h) (expr-Returns r k)
    expr-Returns (expr t (unary_node op e)) h = one _ (expr-Returns e h)
    expr-Returns (expr t (as_node e to)) h = one _ (expr-Returns e h)
    expr-Returns (expr t (array_node es n shape)) (h, k) =
        two _ (exprs-Returns es h) (expr-Returns n k)
    expr-Returns (expr t (array_access_node name es)) (h, k) =
        two _ (resolve-Returns _ name h) (exprs-Returns es k)
    expr-Returns (expr t (range_node i from to)) (h, k) =
        two _ (expr-Returns from h) (expr-Returns to k)
    expr-Returns (expr t (fun_call_node name es)) (h, k) =
        two _ (resolve-Returns _ name h) (exprs-Returns es k)
    expr-Returns (expr t (macro_call_node name f _ es)) h =
        two _ (check_macro_name-Returns name) (exprs-Returns es h)

    exprs-Returns : (es : Exprs) → AllNamed es → Returns Any (visit_exprs T es)
    exprs-Returns no_exprs h = Returns-pure _ tt
    exprs-Returns (add_expr e es) (h, k) = two _ (expr-Returns e h) (exprs-Returns es k)

  mutual
    unfolding visit_stmt NamedStmt

    stmt-Returns : (body : Bool) (s : Stmt) → NamedStmt s → Returns Any (visit_stmt T body s)
    stmt-Returns body null_stmt h = Returns-pure _ tt
    stmt-Returns body (let_stmt m var t init) (h, k) =
        two _ (declare_var-Returns _ _ _ var h) (expr-Returns init k)
    stmt-Returns body (block_stmt ss) h = block_scope-Returns body _ (one _ (stmts-Returns ss h))
    stmt-Returns body (if_stmt c x y) (h, k, l) =
        three _ (expr-Returns c h) (stmt-Returns false x k) (stmt-Returns false y l)
    stmt-Returns body (expr_stmt e) h = one _ (expr-Returns e h)
    stmt-Returns body (for_stmt init range s) (h, k, l) =
        scoped-Returns _ _ (
          three _ (declare_var-Returns _ _ _ init h) (expr-Returns range k) (stmt-Returns true s l))
    stmt-Returns body (while_stmt e s) (h, k) =
        scoped-Returns _ _ (two _ (expr-Returns e h) (stmt-Returns true s k))
    stmt-Returns body (func_decl name t ps s) (h, k) =
        scoped-Returns _ _ (two _ (declare_params-Returns ps h) (stmt-Returns true s k))
    stmt-Returns body (return_stmt e) h = one _ (expr-Returns e h)

    stmts-Returns : (ss : Stmts) → NamedStmts ss → Returns Any (visit_stmts T ss)
    stmts-Returns no_stmts h = Returns-pure _ tt
    stmts-Returns (add_stmt s ss) (h, k) = two _ (stmt-Returns false s h) (stmts-Returns ss k)

  -- DeclarationCollector changes the name of a function only.
  collect-Returns : (s : Stmt) → IsItem s → NamedStmt s → Returns NamedStmt (collect T s)
  unfolding collect IsItem NamedStmt
  collect-Returns null_stmt i h = absurd i
  collect-Returns (func_decl name t ps body) i h =
      Returns-bind (declare_var-Returns _ _ _ name i) λ x _. Returns-pure _ h
  collect-Returns (let_stmt m var t init) i h = Returns-pure _ h
  collect-Returns (block_stmt ss) i h = Returns-pure _ h
  collect-Returns (if_stmt c x y) i h = Returns-pure _ h
  collect-Returns (expr_stmt e) i h = Returns-pure _ h
  collect-Returns (for_stmt init range s) i h = Returns-pure _ h
  collect-Returns (while_stmt e s) i h = Returns-pure _ h
  collect-Returns (return_stmt e) i h = Returns-pure _ h

  collect_program-Returns :
      (ss : Stmts) → AllItems ss → NamedStmts ss → Returns NamedStmts (collect_program T ss)
  unfolding collect_program AllItems NamedStmts
  collect_program-Returns no_stmts i h = Returns-pure _ tt
  collect_program-Returns (add_stmt s ss) (i, j) (h, k) =
      Returns-bind (collect-Returns s i h)
        λ x p. Returns-bind (collect_program-Returns ss j k) λ y q. Returns-pure _ (p, q)

  pub resolve_program-Returns :
      (ss : Stmts) → AllItems ss → NamedStmts ss → Returns Any (resolve_program T ss)
  unfolding resolve_program
  resolve_program-Returns ss i h =
      Returns-bind (collect_program-Returns ss i h) λ ss' k. stmts-Returns ss' k
