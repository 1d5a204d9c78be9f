-- ===== src/Sema/NameResolver.antt =====
-- lib/Sema/NameResolver.cpp and lib/Sema/DeclarationCollector.cpp: the passes that declare_var the names
-- of a program and link each use of a name to its symbol. They call the symbol table through the
-- operations of `ScopeTable`.
pub mod Simulation
pub mod Visits
pub mod Lexical
pub mod Linked
pub mod Reports
pub mod Linking
pub mod Answers
pub mod Binding
pub mod Scoping
pub mod Resolution
pub mod Programs
pub mod Scoped
pub mod Named
pub mod Returns
use trsc.Common.{
  if◌then◌else◌, Bytes, codes, bytes_eq, ℕ, sym, Bool, true, false, not, Option, none, some, List,
  [], ◌∷◌,
}
use trsc.Lex.Token.{IdentifierInfo}
use trsc.Types.QualType.{QualType, null, function}
use trsc.Ast.{
  Expr, Exprs, Param, Stmt, Stmts, null_expr, expr, int_node, float_node, bool_node, string_node,
  var_node, refr_node, bin_node, unary_node, as_node, array_node, array_access_node, range_node,
  fun_call_node, macro_call_node, no_exprs, add_expr, null_stmt, let_stmt, block_stmt, if_stmt,
  expr_stmt, for_stmt, while_stmt, func_decl, return_stmt, no_stmts, add_stmt,
}
use trsc.Basic.Diagnostics.{
  Message, DiagnosticsEngine, report, error, function_already_defined, redefinition_of_variable,
  variable_already_defined, parameter_already_defined, undeclared_variable, undeclared_function,
  unsupported_macro,
}
use trsc.Sema.Scope.{
  SymbolKind, ScopeKind, Symbol, symbol_variable, symbol_parameter, symbol_function, scope_forstmt,
  scope_blockstmt, scope_whilestmt, scope_function,
}
use trsc.Sema.SymbolTable.{SymbolTable, enter_scope, exit_scope, add_symbol, lookup_symbol}
use trsc.Sema.Pass.{Pass, pure, undefined, ◌>>=◌, ◌>>◌}

-- What the passes use of a symbol table `S`.
pub record ScopeTable (S : Type 0) : Type 0 where
  pub current_scope : S → ℕ
  pub enter_scope : S → ScopeKind → S
  pub exit_scope : S → S
  pub add_symbol : S → ℕ → Symbol → Option ℕ × S
  pub lookup_symbol : S → ℕ → Option ℕ

unfoldable pub symbol_table : ScopeTable SymbolTable
symbol_table = record {
  current_scope = λ st. st.current_scope;
  enter_scope = enter_scope;
  exit_scope = exit_scope;
  add_symbol = add_symbol;
  lookup_symbol = lookup_symbol;
}

-- The `SymbolTable &` and the `DiagnosticsEngine &` of a pass.
pub record Resolver (S : Type 0) : Type 0 where
  pub table : S
  pub diag : DiagnosticsEngine

-- The constructors of a symbol with no type.
unfoldable pub new_symbol : SymbolKind → Bool → ℕ → Symbol
new_symbol kind is_initialized scope = record {
  scp = some scope;
  name = none;
  ty = null;
  kind = kind;
  is_mutable = false;
  is_initialized = is_initialized;
}

module _ {S : Type 0} (T : ScopeTable S) where
  unfoldable pub report_error : Message → Pass (Resolver S) (Unit {0})
  report_error m r = some (tt, record r { diag = report r.diag error m })

  unfoldable pub open_scope : ScopeKind → Pass (Resolver S) (Unit {0})
  open_scope k r = some (tt, record r { table = T.enter_scope r.table k })

  unfoldable pub close_scope : Pass (Resolver S) (Unit {0})
  close_scope r = some (tt, record r { table = T.exit_scope r.table })

  unfoldable pub add_name : ℕ → SymbolKind → Bool → Pass (Resolver S) (Option ℕ)
  unfolding new_symbol
  add_name name kind is_initialized r =
      let (made, table') =
        T.add_symbol r.table name (new_symbol kind is_initialized (T.current_scope r.table)) in
      some (made, record r { table = table' })

  unfoldable pub look_up : ℕ → Pass (Resolver S) (Option ℕ)
  look_up name r = some (T.lookup_symbol r.table name, r)

  -- The lifetime of a `ScopedRAII`.
  unfoldable pub scoped : {A : Type 0} → ScopeKind → Pass (Resolver S) A → Pass (Resolver S) A
  scoped k m = do open_scope k; a ← m; close_scope; pure a

  -- `setSymbol` of a `VarExpr` where the symbol is not null, and else the report.
  unfoldable pub link :
      QualType → Option IdentifierInfo → Option ℕ → Message → Option ℕ → Pass (Resolver S) Expr
  link t id old m (some address) = pure (expr t (var_node id (some address)))
  link t id old m none = do report_error m; pure (expr t (var_node id old))

  -- A declaration by a `VarExpr`, which has the `IdentifierInfo` of its token. One without it, which the parser does
  -- not make, and another expression have no result here.
  unfoldable pub declare_var : SymbolKind → Bool → Message → Expr → Pass (Resolver S) Expr
  unfolding link
  declare_var kind is_initialized m (expr t (var_node (some id) old)) = do
    made ← add_name id.addr kind is_initialized
    link t (some id) old m made
  declare_var kind is_initialized m _ = undefined

  -- A use of a name by a `VarExpr`, with its `IdentifierInfo` too.
  unfoldable pub resolve : Message → Expr → Pass (Resolver S) Expr
  unfolding link
  resolve m (expr t (var_node (some id) old)) = do
    found ← look_up id.addr
    link t (some id) old m found
  resolve m _ = undefined

  -- The loop over the parameters in `visitFuncDecl`.
  unfoldable pub declare_params : List Param → Pass (Resolver S) (List Param)
  declare_params [] = pure []
  declare_params ((name, t) ∷ ps) = do
    name' ← declare_var symbol_parameter false parameter_already_defined name
    ps' ← declare_params ps
    pure ((name', t) ∷ ps')

  unfoldable pub check_macro_name : Bytes → Pass (Resolver S) (Unit {0})
  check_macro_name name =
      if bytes_eq name (codes "println") then pure tt else report_error (unsupported_macro name)

  -- `NameResolver::visit` of an expression. Where the class has no method of its own, the method of
  -- `ASTVisitor` visits the children; a type has no names to resolve.
  unfoldable mutual
    pub visit_expr : Expr → Pass (Resolver S) Expr
    visit_expr null_expr = pure null_expr
    visit_expr (expr t (int_node n)) = pure (expr t (int_node n))
    visit_expr (expr t (float_node s)) = pure (expr t (float_node s))
    visit_expr (expr t (bool_node b)) = pure (expr t (bool_node b))
    visit_expr (expr t (string_node s)) = pure (expr t (string_node s))
    visit_expr (expr t (var_node id sym)) = resolve undeclared_variable (expr t (var_node id sym))
    visit_expr (expr t (refr_node e m)) = do e' ← visit_expr e; pure (expr t (refr_node e' m))
    visit_expr (expr t (bin_node op l r)) = do
      l' ← visit_expr l
      r' ← visit_expr r
      pure (expr t (bin_node op l' r'))
    visit_expr (expr t (unary_node op e)) = do e' ← visit_expr e; pure (expr t (unary_node op e'))
    visit_expr (expr t (as_node e to)) = do e' ← visit_expr e; pure (expr t (as_node e' to))
    visit_expr (expr t (array_node es n shape)) = do
      es' ← visit_exprs es
      n' ← visit_expr n
      pure (expr t (array_node es' n' shape))
    visit_expr (expr t (array_access_node name es)) = do
      name' ← resolve undeclared_variable name
      es' ← visit_exprs es
      pure (expr t (array_access_node name' es'))
    visit_expr (expr t (range_node inclusive from to)) = do
      from' ← visit_expr from
      to' ← visit_expr to
      pure (expr t (range_node inclusive from' to'))
    visit_expr (expr t (fun_call_node name es)) = do
      name' ← resolve undeclared_function name
      es' ← visit_exprs es
      pure (expr t (fun_call_node name' es'))
    visit_expr (expr t (macro_call_node name format has_format es)) = do
      check_macro_name name
      es' ← visit_exprs es
      pure (expr t (macro_call_node name format has_format es'))

    pub visit_exprs : Exprs → Pass (Resolver S) Exprs
    visit_exprs no_exprs = pure no_exprs
    visit_exprs (add_expr e es) = do e' ← visit_expr e; es' ← visit_exprs es; pure (add_expr e' es')

  -- The scope of a block, which the body of a loop or function has not.
  unfoldable pub block_scope : {A : Type 0} → Bool → Pass (Resolver S) A → Pass (Resolver S) A
  block_scope true m = m
  block_scope false m = scoped scope_blockstmt m

  -- `NameResolver::visit` of a statement, or of one that is the body of a loop or function.
  unfoldable mutual
    unfolding block_scope

    pub visit_stmt : Bool → Stmt → Pass (Resolver S) Stmt
    visit_stmt is_body null_stmt = pure null_stmt
    visit_stmt is_body (let_stmt m var t init) = do
      var' ← declare_var symbol_variable true redefinition_of_variable var
      init' ← visit_expr init
      pure (let_stmt m var' t init')
    visit_stmt is_body (block_stmt ss) =
        block_scope is_body (do ss' ← visit_stmts ss; pure (block_stmt ss'))
    visit_stmt is_body (if_stmt c a b) = do
      c' ← visit_expr c
      a' ← visit_stmt false a
      b' ← visit_stmt false b
      pure (if_stmt c' a' b')
    visit_stmt is_body (expr_stmt e) = do e' ← visit_expr e; pure (expr_stmt e')
    visit_stmt is_body (for_stmt init range body) = scoped scope_forstmt (do
      init' ← declare_var symbol_variable true variable_already_defined init
      range' ← visit_expr range
      body' ← visit_stmt true body
      pure (for_stmt init' range' body'))
    visit_stmt is_body (while_stmt c body) =
        scoped scope_whilestmt
          (do c' ← visit_expr c; body' ← visit_stmt true body; pure (while_stmt c' body'))
    visit_stmt is_body (func_decl name t ps body) = scoped scope_function (do
      ps' ← declare_params ps
      body' ← visit_stmt true body
      pure (func_decl name t ps' body'))
    visit_stmt is_body (return_stmt e) = do e' ← visit_expr e; pure (return_stmt e')

    -- `ASTVisitor::visitBlockStmt`, and `visitProgram`.
    pub visit_stmts : Stmts → Pass (Resolver S) Stmts
    visit_stmts no_stmts = pure no_stmts
    visit_stmts (add_stmt s ss) = do
      s' ← visit_stmt false s
      ss' ← visit_stmts ss
      pure (add_stmt s' ss')

  -- `DeclarationCollector::visitFuncDecl`, for the functions among the statements of the program.
  unfoldable pub collect : Stmt → Pass (Resolver S) Stmt
  collect null_stmt = undefined
  collect (func_decl name t ps body) = do
    name' ← declare_var symbol_function true function_already_defined name
    pure (func_decl name' t ps body)
  collect s = pure s

  -- `DeclarationCollector::visitProgram`
  unfoldable pub collect_program : Stmts → Pass (Resolver S) Stmts
  unfolding collect
  collect_program no_stmts = pure no_stmts
  collect_program (add_stmt s ss) = do
    s' ← collect s
    ss' ← collect_program ss
    pure (add_stmt s' ss')

  -- The first two passes of `SemanticAnalyzer::analyze`.
  unfoldable pub resolve_program : Stmts → Pass (Resolver S) Stmts
  resolve_program ss = do ss' ← collect_program ss; visit_stmts ss'
