-- ===== src/Sema/NameResolver/Visits.antt =====
-- The visits of the passes, over two symbol tables whose operations agree.
use trsc.Common.{Bool, true, false}
use trsc.Ast.{
  Expr, Exprs, Stmt, Stmts, null_expr, expr, int_node, float_node, bool_node, string_node, var_node,
  refr_node, bin_node, unary_node, as_node, array_node, array_access_node, range_node,
  fun_call_node, macro_call_node, no_exprs, add_expr, null_stmt, let_stmt, block_stmt, if_stmt,
  expr_stmt, for_stmt, while_stmt, func_decl, return_stmt, no_stmts, add_stmt,
}
use trsc.Sema.Pass.{Pass, pure, ◌>>=◌}
use trsc.Sema.NameResolver.{
  ScopeTable, Resolver, visit_expr, visit_exprs, block_scope, visit_stmt, visit_stmts, collect,
  collect_program, resolve_program,
}
use trsc.Sema.NameResolver.Simulation.{
  Agrees, Sim, pure-Sim, undefined-Sim, Sim-bind, scoped-Sim, declare_var-Sim, resolve-Sim,
  declare_params-Sim, check_macro_name-Sim,
}

module _ {S S' : Type 0} (R : S → S' → Type 0) (T : ScopeTable S) (T' : ScopeTable S')
    (laws : Agrees R T T') where
  one :
      {A B : Type 0} (m : Pass (Resolver S) A) (m' : Pass (Resolver S') A) (f : A → B)
      → Sim R m m'
      → Sim R (m >>= λ a. pure (f a)) (m' >>= λ a. pure (f a))
  one m m' f h = Sim-bind R _ _ _ _ h λ a. pure-Sim R (f a)

  two :
      {A B C : Type 0} (m : Pass (Resolver S) A) (m' : Pass (Resolver S') A)
      (n : Pass (Resolver S) B) (n' : Pass (Resolver S') B) (f : A → B → C)
      → Sim R m m'
      → Sim R n n'
      → Sim R (m >>= λ a. n >>= λ b. pure (f a b)) (m' >>= λ a. n' >>= λ b. pure (f a b))
  two m m' n n' f h k = Sim-bind R _ _ _ _ h λ a. one n n' (f a) k

  three :
      {A B C D : Type 0} (m : Pass (Resolver S) A) (m' : Pass (Resolver S') A)
      (n : Pass (Resolver S) B) (n' : Pass (Resolver S') B) (o : Pass (Resolver S) C)
      (o' : Pass (Resolver S') C) (f : A → B → C → D)
      → Sim R m m'
      → Sim R n n'
      → Sim R o o'
      → Sim R
          (m >>= λ a. n >>= λ b. o >>= λ c. pure (f a b c))
          (m' >>= λ a. n' >>= λ b. o' >>= λ c. pure (f a b c))
  three m m' n n' o o' f h k l = Sim-bind R _ _ _ _ h λ a. two n n' o o' (f a) k l

  mutual
    unfolding visit_expr

    expr-Sim : (e : Expr) → Sim R (visit_expr T e) (visit_expr T' e)
    expr-Sim null_expr = pure-Sim R _
    expr-Sim (expr t (int_node n)) = pure-Sim R _
    expr-Sim (expr t (float_node s)) = pure-Sim R _
    expr-Sim (expr t (bool_node b)) = pure-Sim R _
    expr-Sim (expr t (string_node s)) = pure-Sim R _
    expr-Sim (expr t (var_node id s)) = resolve-Sim R T T' laws _ _
    expr-Sim (expr t (refr_node e m)) = one _ _ _ (expr-Sim e)
    expr-Sim (expr t (bin_node op l r)) = two _ _ _ _ _ (expr-Sim l) (expr-Sim r)
    expr-Sim (expr t (unary_node op e)) = one _ _ _ (expr-Sim e)
    expr-Sim (expr t (as_node e to)) = one _ _ _ (expr-Sim e)
    expr-Sim (expr t (array_node es n shape)) = two _ _ _ _ _ (exprs-Sim es) (expr-Sim n)
    expr-Sim (expr t (array_access_node name es)) =
        two _ _ _ _ _ (resolve-Sim R T T' laws _ name) (exprs-Sim es)
    expr-Sim (expr t (range_node i from to)) = two _ _ _ _ _ (expr-Sim from) (expr-Sim to)
    expr-Sim (expr t (fun_call_node name es)) =
        two _ _ _ _ _ (resolve-Sim R T T' laws _ name) (exprs-Sim es)
    expr-Sim (expr t (macro_call_node name f h es)) =
        two _ _ _ _ _ (check_macro_name-Sim R T T' laws name) (exprs-Sim es)

    exprs-Sim : (es : Exprs) → Sim R (visit_exprs T es) (visit_exprs T' es)
    exprs-Sim no_exprs = pure-Sim R _
    exprs-Sim (add_expr e es) = two _ _ _ _ _ (expr-Sim e) (exprs-Sim es)

  block_scope-Sim :
      {A : Type 0} (b : Bool) (m : Pass (Resolver S) A) (m' : Pass (Resolver S') A)
      → Sim R m m'
      → Sim R (block_scope T b m) (block_scope T' b m')
  unfolding block_scope
  block_scope-Sim true m m' h = h
  block_scope-Sim false m m' h = scoped-Sim R T T' laws _ m m' h

  mutual
    unfolding visit_stmt

    pub stmt-Sim : (b : Bool) (s : Stmt) → Sim R (visit_stmt T b s) (visit_stmt T' b s)
    stmt-Sim b null_stmt = pure-Sim R _
    stmt-Sim b (let_stmt m var t init) =
        two _ _ _ _ _ (declare_var-Sim R T T' laws _ _ _ var) (expr-Sim init)
    stmt-Sim b (block_stmt ss) = block_scope-Sim b _ _ (one _ _ _ (stmts-Sim ss))
    stmt-Sim b (if_stmt c x y) =
        three _ _ _ _ _ _ _ (expr-Sim c) (stmt-Sim false x) (stmt-Sim false y)
    stmt-Sim b (expr_stmt e) = one _ _ _ (expr-Sim e)
    stmt-Sim b (for_stmt init range body) = scoped-Sim R T T' laws _ _ _ (
        three _ _ _ _ _ _ _ (declare_var-Sim R T T' laws _ _ _ init) (expr-Sim range)
          (stmt-Sim true body))
    stmt-Sim b (while_stmt c body) =
        scoped-Sim R T T' laws _ _ _ (two _ _ _ _ _ (expr-Sim c) (stmt-Sim true body))
    stmt-Sim b (func_decl name t ps body) =
        scoped-Sim R T T' laws _ _ _
          (two _ _ _ _ _ (declare_params-Sim R T T' laws ps) (stmt-Sim true body))
    stmt-Sim b (return_stmt e) = one _ _ _ (expr-Sim e)

    stmts-Sim : (ss : Stmts) → Sim R (visit_stmts T ss) (visit_stmts T' ss)
    stmts-Sim no_stmts = pure-Sim R _
    stmts-Sim (add_stmt s ss) = two _ _ _ _ _ (stmt-Sim false s) (stmts-Sim ss)

  collect-Sim : (s : Stmt) → Sim R (collect T s) (collect T' s)
  unfolding collect
  collect-Sim null_stmt = undefined-Sim R
  collect-Sim (func_decl name t ps body) = one _ _ _ (declare_var-Sim R T T' laws _ _ _ name)
  collect-Sim _ = pure-Sim R _

  pub collect_program-Sim : (ss : Stmts) → Sim R (collect_program T ss) (collect_program T' ss)
  unfolding collect_program
  collect_program-Sim no_stmts = pure-Sim R _
  collect_program-Sim (add_stmt s ss) = two _ _ _ _ _ (collect-Sim s) (collect_program-Sim ss)

  -- The two passes, as `analyze` runs them.
  pub resolve_program-Sim : (ss : Stmts) → Sim R (resolve_program T ss) (resolve_program T' ss)
  unfolding resolve_program
  resolve_program-Sim ss = Sim-bind R _ _ _ _ (collect_program-Sim ss) λ ss'. stmts-Sim ss'
