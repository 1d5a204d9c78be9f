-- ===== src/Tests/Scopes.antt =====
-- Tests and examples of types, scopes and the symbol table.
use trsc.Common.{
  ℕ, zero, suc, ◌+◌, ◌≡◌, refl, ◌↔◌, Bool, true, false, Option, none, some, List, [], ◌∷◌,
}
use trsc.Types.Conversion.{can_convert, Converts, can_convert_iff}
use trsc.Sema.SymbolTable.Frames.{lookup_frames}
use trsc.Sema.SymbolTable.Steps.{Op, leave, declare, stack_step, enter, exit, add}
use trsc.Sema.SymbolTable.Refinement.{
  run, stack_run, initial_stack, lookup_symbol-run, add_symbol-run,
}
use trsc.Types.QualType.{i32, f32, builtin, array}
use trsc.Sema.Scope.{
  Symbol, EntryList, Scope, new_scope, update_index, add_symbol_unchecked, linear_find,
  lookup_symbol_local, IsIndexed, new_scope-IsIndexed, add_symbol_unchecked-IsIndexed,
  symbol_variable, scope_global, scope_blockstmt, scope_function,
}
use trsc.Sema.Scope.Additions.{add_all, IsFirst, lookup_symbol_local-add_all}
use trsc.Sema.SymbolTable.{initial, add_symbol, lookup_symbol}

can_convert_iff_example :
    (can_convert (array (builtin i32) 2) (array (builtin f32) 3) false ≡ true)
    ↔ Converts false (array (builtin i32) 2) (array (builtin f32) 3)
can_convert_iff_example = can_convert_iff (array (builtin i32) 2) (array (builtin f32) 3) false

abbrev variable : Symbol
variable = record {
  scp = none;
  name = none;
  ty = builtin i32;
  kind = symbol_variable;
  is_mutable = false;
  is_initialized = true;
}

-- A name that an inner scope declares again, and a second time.
abbrev script : List Op
script =
    add 7 variable
    ∷ enter scope_function
    ∷ add 8 variable
    ∷ add 7 variable
    ∷ enter scope_blockstmt
    ∷ add 8 variable
    ∷ exit
    ∷ []

lookup_symbol-run_example : lookup_symbol (run initial script) 7 ≡ some 2
unfolding stack_run stack_step leave declare lookup_frames linear_find initial_stack
lookup_symbol-run_example = lookup_symbol-run script 7

add_symbol-run_example : (add_symbol (run initial script) 8 variable).0 ≡ none
unfolding stack_run stack_step leave declare linear_find initial_stack
add_symbol-run_example = add_symbol-run script 8 variable

abbrev small_scope : Scope
small_scope = new_scope scope_global none 0

add_symbol_unchecked-IsIndexed_example : IsIndexed (add_symbol_unchecked small_scope 7 0)
add_symbol_unchecked-IsIndexed_example =
    add_symbol_unchecked-IsIndexed small_scope 7 0 (new_scope-IsIndexed scope_global none 0)

-- 33 names, the last of them 0, and 0 once more: the scope has an index.
abbrev numbered : ℕ → EntryList
numbered zero = (0, 99) ∷ []
numbered (suc n) = (n, n + 100) ∷ numbered n

abbrev large_scope : Scope
large_scope = add_all small_scope (numbered 33)

unfoldable has_index : Option EntryList → Bool
has_index (some m) = true
has_index none = false

large_scope_test : has_index large_scope.index ≡ true
unfolding has_index add_all add_symbol_unchecked update_index new_scope
large_scope_test = refl

lookup_symbol_local-add_all_example :
    (lookup_symbol_local large_scope 0 ≡ some 100) ↔ IsFirst 0 100 (numbered 33)
lookup_symbol_local-add_all_example =
    lookup_symbol_local-add_all scope_global none 0 (numbered 33) 0 100
