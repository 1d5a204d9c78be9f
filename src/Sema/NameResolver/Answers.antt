-- ===== src/Sema/NameResolver/Answers.antt =====
-- The passes come to an answer: a report, or a tree with every use of a name linked.
use trsc.Common.{length, ◌≤◌, ◌<◌, ◌≡◌, refl, ◌⊎◌, inl, inr, some, [], dec_lt, arith}
use trsc.Ast.{Stmts}
use trsc.Basic.Diagnostics.{DiagnosticsEngine}
use trsc.Sema.SymbolTable.{SymbolTable}
use trsc.Sema.SymbolTable.Steps.{Refines}
use trsc.Sema.SymbolTable.Refinement.{initial_stack}
use trsc.Sema.NameResolver.{symbol_table, Resolver, resolve_program}
use trsc.Sema.NameResolver.Visits.{resolve_program-Sim}
use trsc.Sema.NameResolver.Lexical.{
  lexical, symbol_table-Agrees, new_resolver, new_lexical, new_resolver-Related,
}
use trsc.Sema.NameResolver.Linked.{LinkedStmts}
use trsc.Sema.NameResolver.Linking.{Same-some, resolve_program-Good, resolve_program-LinkedStmts}
use trsc.Sema.NameResolver.Named.{NamedStmts, AllItems}
use trsc.Sema.NameResolver.Returns.{resolve_program-Returns}

-- The reports so far are kept.
resolve_program-logged :
    (ss ss' : Stmts) (d : DiagnosticsEngine) (r' : Resolver SymbolTable)
    → resolve_program symbol_table ss (new_resolver d) ≡ some (ss', r')
    → length d.log ≤ length r'.diag.log
unfolding initial_stack
resolve_program-logged ss ss' d r' e =
    let (q, run, related) =
      Same-some Refines _ _ ss' r'
        ((resolve_program-Sim Refines symbol_table lexical symbol_table-Agrees ss).at
          (new_resolver d) (new_lexical d) (new_resolver-Related d))
        e in
    rw related.reports_same ((resolve_program-Good [] ss).logged (new_lexical d) ss' q refl run)

linked_or_reported :
    (ss ss' : Stmts) (d : DiagnosticsEngine) (r' : Resolver SymbolTable)
    → resolve_program symbol_table ss (new_resolver d) ≡ some (ss', r')
    → (length d.log < length r'.diag.log) ⊎ LinkedStmts ss'
linked_or_reported ss ss' d r' e =
    let kept = resolve_program-logged ss ss' d r' e in
    elim (dec_lt (length d.log) (length r'.diag.log)) [
      | yes more ↦ inl more
      | no same ↦ inr (resolve_program-LinkedStmts ss ss' d r' e (omega arith))
    ]

-- From a program with no null statement, whose names are VarExprs with their identifiers, DeclarationCollector and
-- NameResolver, run with a new symbol table, return a tree and the reports; and either they report something more, or
-- every VarExpr of the tree that stands for a variable, a parameter, an array or a called function has a symbol.
pub resolve_program-LinkedStmts_or_report :
    (ss : Stmts) (d : DiagnosticsEngine)
    → AllItems ss
    → NamedStmts ss
    → (ss' : Stmts) × (r' : Resolver SymbolTable) × (resolve_program symbol_table ss
          (new_resolver d)
        ≡ some (ss', r'))
      × ((length d.log < length r'.diag.log) ⊎ LinkedStmts ss')
resolve_program-LinkedStmts_or_report ss d items named =
    let (ss', r', e, _) =
      (resolve_program-Returns symbol_table ss items named).at (new_resolver d) in
    (ss', r', e, linked_or_reported ss ss' d r' e)
