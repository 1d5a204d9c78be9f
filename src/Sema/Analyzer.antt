-- ===== src/Sema/Analyzer.antt =====
-- lib/Sema/Sema.cpp: the three passes over a program, one after the other.
use trsc.Common.{Option, none, some}
use trsc.Ast.{Stmts}
use trsc.Sema.SymbolTable.{SymbolTable}
use trsc.Sema.NameResolver.{Resolver, resolve_program, symbol_table}
use trsc.Sema.TypeChecker.{TypeChecker, new_checker}
use trsc.Sema.TypeChecker.Statements.{visit_program}

-- `analyze`: the type checker runs on the symbols of the table. The scopes stay as they are.
unfoldable pub check_resolved : Option (Stmts × Resolver SymbolTable) → Option (Stmts × TypeChecker)
unfolding visit_program
check_resolved (some (ss, r)) = visit_program ss (new_checker r.table.symbol_arena r.diag)
check_resolved none = none

unfoldable pub analyze : Stmts → Resolver SymbolTable → Option (Stmts × TypeChecker)
unfolding check_resolved
analyze ss r = check_resolved (resolve_program symbol_table ss r)
