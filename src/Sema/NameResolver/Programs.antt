-- ===== src/Sema/NameResolver/Programs.antt =====
-- DeclarationCollector and NameResolver on a program, against lexical scoping.
use trsc.Common.{◌≡◌, refl, ap, ◌∙◌, Option, some}
use trsc.Ast.{
  Stmt, Stmts, null_stmt, let_stmt, block_stmt, if_stmt, expr_stmt, for_stmt, while_stmt, func_decl,
  return_stmt, no_stmts, add_stmt,
}
use trsc.Basic.Diagnostics.{DiagnosticsEngine}
use trsc.Sema.SymbolTable.{SymbolTable}
use trsc.Sema.SymbolTable.Steps.{Stack, Refines}
use trsc.Sema.SymbolTable.Refinement.{initial_stack}
use trsc.Sema.Pass.Rules.{result-eq}
use trsc.Sema.NameResolver.{symbol_table, Resolver, collect, collect_program, resolve_program}
use trsc.Sema.NameResolver.Simulation.{Same, neither, both}
use trsc.Sema.NameResolver.Visits.{resolve_program-Sim}
use trsc.Sema.NameResolver.Lexical.{
  lexical, symbol_table-Agrees, new_resolver, new_lexical, new_resolver-Related,
}
use trsc.Sema.NameResolver.Named.{NamedStmt, NamedStmts, IsItem, AllItems}
use trsc.Sema.NameResolver.Scoping.{
  behind_stmts, behind_item, linked_item, item_messages, behind_items, linked_items, items_messages,
  linked_program, program_messages,
}
use trsc.Sema.NameResolver.Scoped.{
  reported, Makes, Makes-pure, Makes-bind, one, two, declare_var-Makes,
}
use trsc.Sema.NameResolver.Resolution.{stmts-Makes}

-- The first pass.
collect-Makes :
    (s : Stack) (x : Stmt)
    → IsItem x
    → Makes s (collect lexical x) (linked_item s x) (behind_item s x) (item_messages s x)
unfolding collect IsItem linked_item behind_item item_messages
collect-Makes s null_stmt i = absurd i
collect-Makes s (func_decl name t ps body) i = one _ (declare_var-Makes s _ _ _ name i)
collect-Makes s (let_stmt m var t init) i = Makes-pure s _
collect-Makes s (block_stmt ss) i = Makes-pure s _
collect-Makes s (if_stmt c x y) i = Makes-pure s _
collect-Makes s (expr_stmt e) i = Makes-pure s _
collect-Makes s (for_stmt init range x) i = Makes-pure s _
collect-Makes s (while_stmt e x) i = Makes-pure s _
collect-Makes s (return_stmt e) i = Makes-pure s _

collect_program-Makes :
    (s : Stack) (xs : Stmts)
    → AllItems xs
    → Makes s
        (collect_program lexical xs)
        (linked_items s xs)
        (behind_items s xs)
        (items_messages s xs)
unfolding collect_program AllItems linked_items behind_items items_messages
collect_program-Makes s no_stmts i = Makes-pure s _
collect_program-Makes s (add_stmt x xs) (i, j) =
    two _ (collect-Makes s x i) (collect_program-Makes (behind_item s x) xs j)

-- It leaves the names of the other declarations and of the uses.
linked_item-NamedStmt : (s : Stack) (x : Stmt) → NamedStmt x → NamedStmt (linked_item s x)
unfolding linked_item NamedStmt
linked_item-NamedStmt s (func_decl name t ps body) h = h
linked_item-NamedStmt s null_stmt h = h
linked_item-NamedStmt s (let_stmt m var t init) h = h
linked_item-NamedStmt s (block_stmt ss) h = h
linked_item-NamedStmt s (if_stmt c x y) h = h
linked_item-NamedStmt s (expr_stmt e) h = h
linked_item-NamedStmt s (for_stmt init range x) h = h
linked_item-NamedStmt s (while_stmt e x) h = h
linked_item-NamedStmt s (return_stmt e) h = h

linked_items-NamedStmts : (s : Stack) (xs : Stmts) → NamedStmts xs → NamedStmts (linked_items s xs)
unfolding linked_items NamedStmts
linked_items-NamedStmts s no_stmts h = tt
linked_items-NamedStmts s (add_stmt x xs) (h, k) =
    (linked_item-NamedStmt s x h, linked_items-NamedStmts (behind_item s x) xs k)

resolve_program-Makes :
    (s : Stack) (xs : Stmts)
    → AllItems xs
    → NamedStmts xs
    → Makes s
        (resolve_program lexical xs)
        (linked_program s xs)
        (behind_stmts (behind_items s xs) (linked_items s xs))
        (program_messages s xs)
unfolding resolve_program linked_program program_messages
resolve_program-Makes s xs i h =
    Makes-bind _ (collect_program-Makes s xs i)
      (stmts-Makes (behind_items s xs) (linked_items s xs) (linked_items-NamedStmts s xs h))

-- What the second of two passes returns, the first does, with the same reports.
Same-table :
    {S S' A : Type 0} (R : S → S' → Type 0) (o : Option (A × Resolver S))
    (o' : Option (A × Resolver S')) (a : A) (s' : S') (d : DiagnosticsEngine)
    → Same R o o'
    → o' ≡ some (a, record { table = s'; diag = d })
    → (s : S) × (o ≡ some (a, record { table = s; diag = d }))
Same-table R _ _ a s' d neither e = absurd (cc e)
Same-table R _ _ a s' d (both b r r' h) e =
    let (same, next) = result-eq b a r' (record { table = s'; diag = d }) e in
    let reports : r.diag ≡ d = h.reports_same ∙ ap (λ x. x.diag) next in
    (r.table, rw (same, ← reports) refl)

-- From a program with no null statement, whose names are VarExprs with their identifiers, DeclarationCollector and
-- NameResolver, run with a new symbol table, return the tree and exactly the reports that lexical scoping gives. There
-- each use of a name has the symbol of the innermost declaration of it so far, if there is one; a declaration
-- has the next symbol, unless its scope has the name already; and the reports are, in the order of the two passes, those
-- of the declarations that are not the first in their scope, of the uses of undeclared names, and of the macros
-- other than `println`.
pub resolve_program-linked_program :
    (ss : Stmts) (d : DiagnosticsEngine)
    → AllItems ss
    → NamedStmts ss
    → (table : SymbolTable) × (resolve_program symbol_table ss (new_resolver d)
        ≡ some (
          linked_program initial_stack ss,
          record { table = table; diag = reported d (program_messages initial_stack ss) },
        ))
resolve_program-linked_program ss d items named =
    Same-table Refines _ _ _ _ _
      ((resolve_program-Sim Refines symbol_table lexical symbol_table-Agrees ss).at (new_resolver d)
        (new_lexical d) (new_resolver-Related d))
      ((resolve_program-Makes initial_stack ss items named).at d)
