-- ===== src/Tests/Names.antt =====
-- Tests and examples of the resolution of names.
use trsc.Common.{length, codes, ℕ, ◌<◌, ◌≡◌, refl, ◌⊎◌, false, Option, none, some, [], ◌∷◌}
use trsc.Lex.Token.{IdentifierInfo, identifier}
use trsc.Ast.{
  Expr, int_expr, var_expr, fun_call, Stmt, Stmts, null_type, null_expr, expr, var_node, no_exprs,
  let_stmt, block_stmt, expr_stmt, func_decl, no_stmts, add_stmt,
}
use trsc.Types.QualType.{null}
use trsc.Sema.NameResolver.Linked.{LinkedStmts}
use trsc.Sema.NameResolver.Linking.{resolve_program-LinkedStmts, visit_stmt-frames}
use trsc.Sema.NameResolver.Answers.{resolve_program-LinkedStmts_or_report}
use trsc.Sema.NameResolver.Named.{
  IsVar, Named, AllNamed, NamedParams, NamedStmt, NamedStmts, IsItem, AllItems,
}
use trsc.Sema.SymbolTable.Refinement.{initial_stack, initial-Refines}
use trsc.Sema.SymbolTable.Steps.{declare}
use trsc.Basic.Diagnostics.{report, no_diagnostics, redefinition_of_variable, undeclared_variable}
use trsc.Sema.SymbolTable.{
  SymbolTable, initial, depth_at, parent_at, enter_scope, exit_scope, lookup_in, add_in, add_symbol,
  lookup_loop, lookup_symbol_from, lookup_symbol,
}
use trsc.Sema.SymbolTable.Frames.{IsTable, frames_of, chain, frames, lookup_frames}
use trsc.Sema.Scope.{
  EntryList, new_scope, update_index, add_symbol_unchecked, linear_find, lookup_symbol_local,
}
use trsc.Sema.NameResolver.{
  symbol_table, Resolver, new_symbol, report_error, open_scope, close_scope, add_name, look_up,
  scoped, link, declare_var, resolve, declare_params, visit_expr, visit_exprs, block_scope,
  visit_stmt, visit_stmts, collect, collect_program, resolve_program,
}
use trsc.Sema.Pass.{and_then, ◌>>=◌}
use trsc.Sema.NameResolver.Lexical.{new_resolver}
use trsc.Sema.NameResolver.Programs.{resolve_program-linked_program}
use trsc.Sema.NameResolver.Binding.{
  in_scope, undeclared, use_messages, redeclared, name_messages, behind_name, opened, closed,
  expr_messages,
}
use trsc.Sema.NameResolver.Scoping.{
  behind_stmt, behind_stmts, stmt_messages, stmts_messages, behind_item, linked_item, item_messages,
  behind_items, linked_items, items_messages, linked_program, program_messages,
}
use trsc.Sema.NameResolver.Scoped.{reported}

abbrev name : ℕ → Option IdentifierInfo
name a = some (record { addr = a; name = codes "v"; token_kind = identifier })

-- `fn f(x: _) { { let y = x; } y }`, with the names at addresses 0, 1 and 2.
abbrev program : Stmts
program =
    add_stmt
      (func_decl (var_expr (name 0)) null_type ((var_expr (name 1), null_type) ∷ []) (
        block_stmt (
          add_stmt
            (block_stmt (
              add_stmt (let_stmt false (var_expr (name 2)) null_type (var_expr (name 1))) no_stmts))
            (add_stmt (expr_stmt (fun_call (var_expr (name 0)) no_exprs)) no_stmts))))
      no_stmts

abbrev linked : ℕ → ℕ → Expr
linked a symbol = expr null (var_node (name a) (some symbol))

abbrev resolved : Stmts
resolved =
    add_stmt
      (func_decl (linked 0 0) null_type ((linked 1 1, null_type) ∷ []) (
        block_stmt (
          add_stmt
            (block_stmt (add_stmt (let_stmt false (linked 2 2) null_type (linked 1 1)) no_stmts))
            (add_stmt (expr_stmt (fun_call (linked 0 0) no_exprs)) no_stmts))))
      no_stmts

-- The state behind a pass that returns.
unfoldable ran : {A : Type 0} → Option (A × Resolver SymbolTable) → Resolver SymbolTable
ran (some (a, r)) = r
ran none = new_resolver no_diagnostics

abbrev after : Resolver SymbolTable
after = ran (resolve_program symbol_table program (new_resolver no_diagnostics))

program_test :
    resolve_program symbol_table program (new_resolver no_diagnostics) ≡ some (resolved, after)
unfolding ran resolve_program ◌>>=◌ and_then collect_program collect declare_var add_name link
    symbol_table add_symbol initial lookup_symbol_local linear_find new_scope new_symbol visit_stmts
    visit_stmt scoped block_scope open_scope close_scope declare_params enter_scope exit_scope
    visit_expr visit_exprs resolve look_up lookup_symbol lookup_symbol_from lookup_loop lookup_in
    parent_at depth_at add_in add_symbol_unchecked update_index report report_error
program_test = refl

after_test : length after.diag.log ≡ 0
unfolding ran resolve_program ◌>>=◌ and_then collect_program collect declare_var add_name link
    symbol_table add_symbol initial lookup_symbol_local linear_find new_scope new_symbol visit_stmts
    visit_stmt scoped block_scope open_scope close_scope declare_params enter_scope exit_scope
    visit_expr visit_exprs resolve look_up lookup_symbol lookup_symbol_from lookup_loop lookup_in
    parent_at depth_at add_in add_symbol_unchecked update_index report report_error
after_test = refl

resolve_program-LinkedStmts_example : LinkedStmts resolved
resolve_program-LinkedStmts_example =
    resolve_program-LinkedStmts program resolved no_diagnostics after program_test after_test

resolve_program-linked_program_example :
    (table : SymbolTable) × (resolve_program symbol_table program (new_resolver no_diagnostics)
      ≡ some (
        linked_program initial_stack program,
        record {
          table = table;
          diag = reported no_diagnostics (program_messages initial_stack program);
        },
      ))
unfolding IsVar Named AllNamed NamedParams NamedStmt NamedStmts IsItem AllItems
resolve_program-linked_program_example =
    resolve_program-linked_program program no_diagnostics (tt, tt)
      (((tt, tt), (((tt, tt), tt), ((tt, tt), tt))), tt)

-- `{ let a = a; } a` at the top of a program, with `let b; let b;` behind it.
abbrev faulty : Stmts
faulty =
    add_stmt
      (block_stmt
        (add_stmt (let_stmt false (var_expr (name 0)) null_type (var_expr (name 0))) no_stmts))
      (add_stmt (expr_stmt (var_expr (name 0))) (
        add_stmt (let_stmt false (var_expr (name 1)) null_type null_expr)
          (add_stmt (let_stmt false (var_expr (name 1)) null_type null_expr) no_stmts)))

faulty_test :
    program_messages initial_stack faulty ≡ undeclared_variable ∷ redefinition_of_variable ∷ []
unfolding program_messages items_messages item_messages behind_items behind_item linked_items
    linked_item stmts_messages stmt_messages behind_stmts behind_stmt expr_messages use_messages
    name_messages behind_name undeclared redeclared in_scope lookup_frames linear_find declare
    opened closed initial_stack
faulty_test = refl

-- `{ let v = 5; v }`.
abbrev inner : Stmt
inner = block_stmt (
    add_stmt (let_stmt false (var_expr (name 1)) null_type (int_expr 5))
      (add_stmt (expr_stmt (var_expr (name 1))) no_stmts))

abbrev linked_inner : Stmt
linked_inner = block_stmt (
    add_stmt (let_stmt false (linked 1 0) null_type (int_expr 5))
      (add_stmt (expr_stmt (linked 1 0)) no_stmts))

abbrev after_inner : Resolver SymbolTable
after_inner = ran (visit_stmt symbol_table false inner (new_resolver no_diagnostics))

inner_test :
    visit_stmt symbol_table false inner (new_resolver no_diagnostics)
    ≡ some (linked_inner, after_inner)
unfolding ran resolve_program ◌>>=◌ and_then collect_program collect declare_var add_name link
    symbol_table add_symbol initial lookup_symbol_local linear_find new_scope new_symbol visit_stmts
    visit_stmt scoped block_scope open_scope close_scope declare_params enter_scope exit_scope
    visit_expr visit_exprs resolve look_up lookup_symbol lookup_symbol_from lookup_loop lookup_in
    parent_at depth_at add_in add_symbol_unchecked update_index report report_error
inner_test = refl

visit_stmt-frames_example :
    IsTable after_inner.table × ((g : EntryList) × (frames after_inner.table ≡ g ∷ []))
unfolding frames chain frames_of initial new_scope parent_at
visit_stmt-frames_example =
    visit_stmt-frames false inner linked_inner (new_resolver no_diagnostics) after_inner [] []
      initial-Refines.table refl inner_test

resolve_program-LinkedStmts_or_report_example :
    (ss' : Stmts) × (r' : Resolver SymbolTable) × (resolve_program symbol_table program
        (new_resolver no_diagnostics)
      ≡ some (ss', r'))
    × ((length no_diagnostics.log < length r'.diag.log) ⊎ LinkedStmts ss')
unfolding IsVar Named AllNamed NamedParams NamedStmt NamedStmts IsItem AllItems
resolve_program-LinkedStmts_or_report_example =
    resolve_program-LinkedStmts_or_report program no_diagnostics (tt, tt)
      (((tt, tt), (((tt, tt), tt), ((tt, tt), tt))), tt)
