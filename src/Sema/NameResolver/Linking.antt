-- ===== src/Sema/NameResolver/Linking.antt =====
-- What the passes leave: every use of a name has a symbol where nothing was reported, and the scopes
-- that were open are open still.
use trsc.Common.{
  length, ◌≡◌, refl, sym, ap, ◌∙◌, subst, Bool, true, false, Option, some, List, [], ◌∷◌,
}
use trsc.Ast.{
  Expr, Exprs, Stmt, Stmts, null_expr, expr, int_node, float_node, bool_node, string_node, var_node,
  refr_node, bin_node, unary_node, as_node, array_node, array_access_node, range_node,
  fun_call_node, macro_call_node, no_exprs, add_expr, null_stmt, let_stmt, block_stmt, if_stmt,
  expr_stmt, for_stmt, while_stmt, func_decl, return_stmt, no_stmts, add_stmt,
}
use trsc.Basic.Diagnostics.{DiagnosticsEngine}
use trsc.Sema.Scope.{EntryList}
use trsc.Sema.Pass.Rules.{result-eq, Yields-pure, Yields-undefined, Yields-bind, Yields-weaken}
use trsc.Sema.SymbolTable.{SymbolTable}
use trsc.Sema.SymbolTable.Frames.{IsTable, frames}
use trsc.Sema.SymbolTable.Steps.{Stack, Refines}
use trsc.Sema.SymbolTable.Refinement.{run, initial_stack}
use trsc.Sema.NameResolver.{
  symbol_table, Resolver, visit_expr, visit_exprs, visit_stmt, visit_stmts, collect,
  collect_program, resolve_program,
}
use trsc.Sema.NameResolver.Simulation.{Related, Same, neither, both}
use trsc.Sema.NameResolver.Visits.{stmt-Sim, resolve_program-Sim}
use trsc.Sema.NameResolver.Lexical.{
  lexical, symbol_table-Agrees, new_resolver, new_lexical, new_resolver-Related,
}
use trsc.Sema.NameResolver.Linked.{Linked, AllLinked, LinkedStmt, LinkedStmts}
use trsc.Sema.NameResolver.Reports.{
  Good, declare_var-Good, resolve-Good, declare_params-Good, check_macro_name-Good, scoped-Good,
  block_scope-Good, one, two, three,
}

mutual
  unfolding visit_expr Linked

  expr-Good : (b : List EntryList) (e : Expr) → Good b Linked (visit_expr lexical e)
  expr-Good b null_expr = Yields-pure _ _ _ tt
  expr-Good b (expr t (int_node n)) = Yields-pure _ _ _ tt
  expr-Good b (expr t (float_node s)) = Yields-pure _ _ _ tt
  expr-Good b (expr t (bool_node x)) = Yields-pure _ _ _ tt
  expr-Good b (expr t (string_node s)) = Yields-pure _ _ _ tt
  expr-Good b (expr t (var_node id s)) = resolve-Good b _ _
  expr-Good b (expr t (refr_node e m)) = one b _ _ (expr-Good b e) λ x p. p
  expr-Good b (expr t (bin_node op l r)) =
      two b _ _ _ (expr-Good b l) (expr-Good b r) λ x y p q. (p, q)
  expr-Good b (expr t (unary_node op e)) = one b _ _ (expr-Good b e) λ x p. p
  expr-Good b (expr t (as_node e to)) = one b _ _ (expr-Good b e) λ x p. p
  expr-Good b (expr t (array_node es n shape)) =
      two b _ _ _ (exprs-Good b es) (expr-Good b n) λ x y p q. (p, q)
  expr-Good b (expr t (array_access_node name es)) =
      two b _ _ _ (resolve-Good b _ name) (exprs-Good b es) λ x y p q. (p, q)
  expr-Good b (expr t (range_node i from to)) =
      two b _ _ _ (expr-Good b from) (expr-Good b to) λ x y p q. (p, q)
  expr-Good b (expr t (fun_call_node name es)) =
      two b _ _ _ (resolve-Good b _ name) (exprs-Good b es) λ x y p q. (p, q)
  expr-Good b (expr t (macro_call_node name f h es)) =
      two b _ _ _ (check_macro_name-Good b name) (exprs-Good b es) λ x y p q. q

  exprs-Good : (b : List EntryList) (es : Exprs) → Good b AllLinked (visit_exprs lexical es)
  exprs-Good b no_exprs = Yields-pure _ _ _ tt
  exprs-Good b (add_expr e es) = two b _ _ _ (expr-Good b e) (exprs-Good b es) λ x y p q. (p, q)

mutual
  unfolding visit_stmt LinkedStmt

  stmt-Good :
      (b : List EntryList) (body : Bool) (s : Stmt) → Good b LinkedStmt (visit_stmt lexical body s)
  stmt-Good b body null_stmt = Yields-pure _ _ _ tt
  stmt-Good b body (let_stmt m var t init) =
      two b _ _ _ (declare_var-Good b _ _ _ var) (expr-Good b init) λ x y p q. (p, q)
  stmt-Good b body (block_stmt ss) =
      block_scope-Good b body _ λ c. one c _ _ (stmts-Good c ss) λ x p. p
  stmt-Good b body (if_stmt c x y) =
      three b _ _ _ _ (expr-Good b c) (stmt-Good b false x) (stmt-Good b false y)
        λ x' y' z' p q r. (p, q, r)
  stmt-Good b body (expr_stmt e) = one b _ _ (expr-Good b e) λ x p. p
  stmt-Good b body (for_stmt init range s) = scoped-Good b _ _ λ c.
      three c _ _ _ _ (declare_var-Good c _ _ _ init) (expr-Good c range) (stmt-Good c true s)
        λ x y z p q r. (p, q, r)
  stmt-Good b body (while_stmt e s) =
      scoped-Good b _ _ λ c. two c _ _ _ (expr-Good c e) (stmt-Good c true s) λ x y p q. (p, q)
  stmt-Good b body (func_decl name t ps s) =
      scoped-Good b _ _
        λ c. two c _ _ _ (declare_params-Good c ps) (stmt-Good c true s) λ x y p q. (p, q)
  stmt-Good b body (return_stmt e) = one b _ _ (expr-Good b e) λ x p. p

  stmts-Good : (b : List EntryList) (ss : Stmts) → Good b LinkedStmts (visit_stmts lexical ss)
  stmts-Good b no_stmts = Yields-pure _ _ _ tt
  stmts-Good b (add_stmt s ss) =
      two b _ _ _ (stmt-Good b false s) (stmts-Good b ss) λ x y p q. (p, q)

collect-Good : (b : List EntryList) (s : Stmt) → Good b (λ x. Unit {0}) (collect lexical s)
unfolding collect
collect-Good b null_stmt = Yields-undefined _ _
collect-Good b (func_decl name t ps body) = one b _ _ (declare_var-Good b _ _ _ name) λ x p. tt
collect-Good b _ = Yields-pure _ _ _ tt

collect_program-Good :
    (b : List EntryList) (ss : Stmts) → Good b (λ x. Unit {0}) (collect_program lexical ss)
unfolding collect_program
collect_program-Good b no_stmts = Yields-pure _ _ _ tt
collect_program-Good b (add_stmt s ss) =
    two b _ _ _ (collect-Good b s) (collect_program-Good b ss) λ x y p q. tt

pub resolve_program-Good :
    (b : List EntryList) (ss : Stmts) → Good b LinkedStmts (resolve_program lexical ss)
unfolding resolve_program
resolve_program-Good b ss =
    Yields-bind _ _ _ _ (collect_program-Good b ss)
      λ ss'. Yields-weaken _ _ _ (λ a p u. p) (stmts-Good b ss')

-- Where one pass has a result, the other has it too, in a related state.
pub Same-some :
    {S S' A : Type 0} (R : S → S' → Type 0) (o : Option (A × Resolver S))
    (o' : Option (A × Resolver S')) (a : A) (r : Resolver S)
    → Same R o o'
    → o ≡ some (a, r)
    → (r' : Resolver S') × (o' ≡ some (a, r')) × Related R r r'
Same-some R _ _ a r neither e = absurd (cc e)
Same-some R _ _ a r (both b q q' h) e =
    let (same, next) = result-eq b a q r e in (q', rw same refl, subst (λ x. Related R x q') next h)

-- Where DeclarationCollector and NameResolver return from a program with a new symbol table and report nothing more, every
-- VarExpr of the tree that stands for a variable, a parameter, an array or a called function has a symbol.
pub resolve_program-LinkedStmts :
    (ss ss' : Stmts) (d : DiagnosticsEngine) (r' : Resolver SymbolTable)
    → resolve_program symbol_table ss (new_resolver d) ≡ some (ss', r')
    → length r'.diag.log ≡ length d.log
    → LinkedStmts ss'
unfolding initial_stack
resolve_program-LinkedStmts ss ss' d r' e quiet =
    let (q, run, related) =
      Same-some Refines _ _ ss' r'
        ((resolve_program-Sim Refines symbol_table lexical symbol_table-Agrees ss).at
          (new_resolver d) (new_lexical d) (new_resolver-Related d))
        e in
    (resolve_program-Good [] ss).holds (new_lexical d) ss' q refl run
      (ap (λ x. length x.log) (sym related.reports_same) ∙ quiet)

-- Where NameResolver returns from a statement, or from the body of a loop or function, the symbol table is
-- well formed if it was before, and the scopes around the current one are as they were.
pub visit_stmt-frames :
    (body : Bool) (s s' : Stmt) (r r' : Resolver SymbolTable) (f : EntryList) (b : List EntryList)
    → IsTable r.table
    → frames r.table ≡ f ∷ b
    → visit_stmt symbol_table body s r ≡ some (s', r')
    → IsTable r'.table × ((g : EntryList) × (frames r'.table ≡ g ∷ b))
visit_stmt-frames body s s' r r' f b valid at e =
    let k : Stack = record { top = f; below = b; symbols = length r.table.symbol_arena } in
    let (q, run, related) =
      Same-some Refines _ _ s' r'
        ((stmt-Sim Refines symbol_table lexical symbol_table-Agrees body s).at r
          (record { table = k; diag = r.diag })
          (record {
            tables = record { table = valid; frames_lem = at; count = refl };
            reports_same = refl;
          }))
        e in
    let below = (stmt-Good b body s).kept _ s' q refl run in
    (related.tables.table, (q.table.top, related.tables.frames_lem ∙ ap (◌∷◌ q.table.top) below))
