-- ===== src/Tests/Symbols.antt =====
-- Tests and examples of the symbol table's operations that are keyed by a spelling.
use trsc.Common.{bytes_eq, codes, ◌≡◌, refl, ◌∙◌, ap, Bytes, true, false, some, none, List, [], ◌∷◌}
use trsc.Basic.IdentifierTable.{find_in, find, insert, get, insert_all}
use trsc.Basic.IdentifierTable.Interning.{initial-IsInterned}
use trsc.Types.QualType.{i32, builtin}
use trsc.Sema.Scope.{Symbol, linear_find, symbol_variable, scope_function}
use trsc.Sema.SymbolTable.{add_symbol, initial}
use trsc.Sema.SymbolTable.Steps.{Op, leave, declare, stack_step, enter, add}
use trsc.Sema.SymbolTable.Refinement.{run, stack_run, initial_stack, add_symbol-run}
use trsc.Sema.SymbolTable.Spelled.{
  add_symbol_spelled, lookup_symbol_spelled, lookup_spelled-add_spelled,
}
use trsc.Basic.IdentifierTable

abbrev spelling : Bytes
spelling = codes "x"

-- The spelling gets the address 13, behind the keywords.
spelling_test : (IdentifierTable.get IdentifierTable.initial spelling).0.addr ≡ 13
unfolding IdentifierTable.initial get insert insert_all find find_in bytes_eq
spelling_test = refl

abbrev variable : Symbol
variable = record {
  scp = none;
  name = none;
  ty = builtin i32;
  kind = symbol_variable;
  is_mutable = false;
  is_initialized = true;
}

-- The name is declared in the global scope, and a function's scope is entered.
abbrev script : List Op
script = add 13 variable ∷ enter scope_function ∷ []

shadows :
    (add_symbol_spelled IdentifierTable.initial (run initial script) spelling variable).1.0 ≡ some 1
unfolding add_symbol_spelled stack_run stack_step leave declare linear_find initial_stack
shadows =
    ap (λ a. (add_symbol (run initial script) a variable).0) spelling_test
    ∙ add_symbol-run script 13 variable

-- The declaration in the function shadows the global one.
lookup_spelled-add_spelled_example :
    lookup_symbol_spelled
      (add_symbol_spelled IdentifierTable.initial (run initial script) spelling variable).0
      (add_symbol_spelled IdentifierTable.initial (run initial script) spelling variable).1.1
      spelling
    ≡ some 1
unfolding bytes_eq
lookup_spelled-add_spelled_example =
    lookup_spelled-add_spelled IdentifierTable.initial script spelling spelling variable 1
      initial-IsInterned shadows
