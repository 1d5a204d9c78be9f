-- ===== src/Sema/NameResolver/Resolution.antt =====
-- The passes make the tree and the reports of lexical scoping.
use trsc.Common.{ℕ, ◌≡◌, refl, ◌∙◌, Bool, true, false, Option, none, some, List, [], ◌∷◌}
use trsc.Ast.{
  Expr, Exprs, Param, Stmt, Stmts, null_expr, expr, int_node, float_node, bool_node, string_node,
  var_node, refr_node, bin_node, unary_node, as_node, array_node, array_access_node, range_node,
  fun_call_node, macro_call_node, no_exprs, add_expr, null_stmt, let_stmt, block_stmt, if_stmt,
  expr_stmt, for_stmt, while_stmt, func_decl, return_stmt, no_stmts, add_stmt,
}
use trsc.Sema.SymbolTable.Steps.{Stack, declare}
use trsc.Sema.NameResolver.{visit_expr, visit_exprs, block_scope, visit_stmt, visit_stmts}
use trsc.Sema.NameResolver.Lexical.{lexical}
use trsc.Sema.NameResolver.Named.{Named, AllNamed, NamedStmt, NamedStmts}
use trsc.Sema.NameResolver.Binding.{
  behind_name, opened, closed, linked_expr, linked_exprs, expr_messages, exprs_messages,
}
use trsc.Sema.NameResolver.Scoping.{
  behind_params, behind_stmt, behind_stmts, linked_stmt, linked_stmts, stmt_messages,
  stmts_messages,
}
use trsc.Sema.NameResolver.Scoped.{
  Makes, Makes-pure, one, two, three, resolve-Makes, declare_var-Makes, check_macro_name-Makes,
  declare_params-Makes, scoped-Makes,
}

mutual
  unfolding visit_expr Named linked_expr expr_messages

  expr-Makes :
      (s : Stack) (e : Expr)
      → Named e
      → Makes s (visit_expr lexical e) (linked_expr s e) s (expr_messages s e)
  expr-Makes s null_expr h = Makes-pure s _
  expr-Makes s (expr t (int_node n)) h = Makes-pure s _
  expr-Makes s (expr t (float_node x)) h = Makes-pure s _
  expr-Makes s (expr t (bool_node b)) h = Makes-pure s _
  expr-Makes s (expr t (string_node x)) h = Makes-pure s _
  expr-Makes s (expr t (var_node id old)) h = resolve-Makes s _ (expr t (var_node id old)) h
  expr-Makes s (expr t (refr_node e m)) h = one _ (expr-Makes s e h)
  expr-Makes s (expr t (bin_node op l r)) (h, k) = two _ (expr-Makes s l h) (expr-Makes s r k)
  expr-Makes s (expr t (unary_node op e)) h = one _ (expr-Makes s e h)
  expr-Makes s (expr t (as_node e to)) h = one _ (expr-Makes s e h)
  expr-Makes s (expr t (array_node es n shape)) (h, k) =
      two _ (exprs-Makes s es h) (expr-Makes s n k)
  expr-Makes s (expr t (array_access_node name es)) (h, k) =
      two _ (resolve-Makes s _ name h) (exprs-Makes s es k)
  expr-Makes s (expr t (range_node i from to)) (h, k) =
      two _ (expr-Makes s from h) (expr-Makes s to k)
  expr-Makes s (expr t (fun_call_node name es)) (h, k) =
      two _ (resolve-Makes s _ name h) (exprs-Makes s es k)
  expr-Makes s (expr t (macro_call_node name f _ es)) h =
      two _ (check_macro_name-Makes s name) (exprs-Makes s es h)

  exprs-Makes :
      (s : Stack) (es : Exprs)
      → AllNamed es
      → Makes s (visit_exprs lexical es) (linked_exprs s es) s (exprs_messages s es)
  exprs-Makes s no_exprs h = Makes-pure s _
  exprs-Makes s (add_expr e es) (h, k) = two _ (expr-Makes s e h) (exprs-Makes s es k)

-- The frames around the current one stay.
declare-below : (s : Stack) (o : Option ℕ) (name : ℕ) → (declare s o name).below ≡ s.below
unfolding declare
declare-below s (some a) name = refl
declare-below s none name = refl

behind_name-below : (s : Stack) (e : Expr) → (behind_name s e).below ≡ s.below
unfolding behind_name
behind_name-below s (expr t (var_node (some id) old)) = declare-below s _ id.addr
behind_name-below s _ = refl

behind_params-below : (s : Stack) (ps : List Param) → (behind_params s ps).below ≡ s.below
unfolding behind_params
behind_params-below s [] = refl
behind_params-below s ((name, t) ∷ ps) =
    behind_params-below (behind_name s name) ps ∙ behind_name-below s name

mutual
  unfolding behind_stmt closed

  behind_stmt-below : (s : Stack) (body : Bool) (x : Stmt) → (behind_stmt s body x).below ≡ s.below
  behind_stmt-below s body null_stmt = refl
  behind_stmt-below s body (let_stmt m var t init) = behind_name-below s var
  behind_stmt-below s true (block_stmt ss) = behind_stmts-below s ss
  behind_stmt-below s false (block_stmt ss) = refl
  behind_stmt-below s body (if_stmt c x y) =
      behind_stmt-below (behind_stmt s false x) false y ∙ behind_stmt-below s false x
  behind_stmt-below s body (expr_stmt e) = refl
  behind_stmt-below s body (for_stmt init range x) = refl
  behind_stmt-below s body (while_stmt c x) = refl
  behind_stmt-below s body (func_decl name t ps x) = refl
  behind_stmt-below s body (return_stmt e) = refl

  behind_stmts-below : (s : Stack) (xs : Stmts) → (behind_stmts s xs).below ≡ s.below
  behind_stmts-below s no_stmts = refl
  behind_stmts-below s (add_stmt x xs) =
      behind_stmts-below (behind_stmt s false x) xs ∙ behind_stmt-below s false x

mutual
  unfolding visit_stmt block_scope NamedStmt linked_stmt stmt_messages behind_stmt

  stmt-Makes :
      (s : Stack) (body : Bool) (x : Stmt)
      → NamedStmt x
      → Makes s
          (visit_stmt lexical body x)
          (linked_stmt s body x)
          (behind_stmt s body x)
          (stmt_messages s body x)
  stmt-Makes s body null_stmt h = Makes-pure s _
  stmt-Makes s body (let_stmt m var t init) (h, k) =
      two _ (declare_var-Makes s _ _ _ var h) (expr-Makes (behind_name s var) init k)
  stmt-Makes s true (block_stmt ss) h = one _ (stmts-Makes s ss h)
  stmt-Makes s false (block_stmt ss) h =
      scoped-Makes s _ _ (behind_stmts-below (opened s) ss) (one _ (stmts-Makes (opened s) ss h))
  stmt-Makes s body (if_stmt c x y) (h, k, l) =
      three _ (expr-Makes s c h) (stmt-Makes s false x k)
        (stmt-Makes (behind_stmt s false x) false y l)
  stmt-Makes s body (expr_stmt e) h = one _ (expr-Makes s e h)
  stmt-Makes s body (for_stmt init range x) (h, k, l) =
      let inner = behind_name (opened s) init in
      scoped-Makes s _ _ (behind_stmt-below inner true x ∙ behind_name-below (opened s) init) (
        three _ (declare_var-Makes (opened s) _ _ _ init h) (expr-Makes inner range k)
          (stmt-Makes inner true x l))
  stmt-Makes s body (while_stmt c x) (h, k) =
      scoped-Makes s _ _ (behind_stmt-below (opened s) true x)
        (two _ (expr-Makes (opened s) c h) (stmt-Makes (opened s) true x k))
  stmt-Makes s body (func_decl name t ps x) (h, k) =
      let inner = behind_params (opened s) ps in
      scoped-Makes s _ _ (behind_stmt-below inner true x ∙ behind_params-below (opened s) ps)
        (two _ (declare_params-Makes (opened s) ps h) (stmt-Makes inner true x k))
  stmt-Makes s body (return_stmt e) h = one _ (expr-Makes s e h)

  pub stmts-Makes :
      (s : Stack) (xs : Stmts)
      → NamedStmts xs
      → Makes s
          (visit_stmts lexical xs)
          (linked_stmts s xs)
          (behind_stmts s xs)
          (stmts_messages s xs)
  stmts-Makes s no_stmts h = Makes-pure s _
  stmts-Makes s (add_stmt x xs) (h, k) =
      two _ (stmt-Makes s false x h) (stmts-Makes (behind_stmt s false x) xs k)
