-- ===== src/Sema/SymbolTable.antt =====
-- include/trsc/Sema/SymbolTable.h and lib/Sema/SymbolTable.cpp. The address of a scope or a symbol is
-- its place in the list of those made so far. `Children` is left out: nothing fills it.
pub mod Frames
pub mod Steps
pub mod Refinement
pub mod Spelled
use trsc.Common.{
  or_else, length, get_elem?, set, ℕ, zero, suc, ◌+◌, ◌%◌, ◌^◌, sym, Option, none, some, List, [],
  ◌∷◌, ◌++◌,
}
use trsc.Sema.Scope.{
  ScopeKind, Symbol, Scope, new_scope, add_symbol_unchecked, lookup_symbol_local, scope_global,
}

pub record SymbolTable : Type 0 where
  pub all_scopes : List Scope
  pub symbol_arena : List Symbol
  pub current_scope : ℕ

-- The global scope is the first.
abbrev pub global_scope : ℕ
global_scope = 0

-- The constructor.
unfoldable pub initial : SymbolTable
initial = record {
  all_scopes = new_scope scope_global none 0 ∷ [];
  symbol_arena = [];
  current_scope = global_scope;
}

abbrev pub scope_at : SymbolTable → ℕ → Option Scope
scope_at st i = get_elem? st.all_scopes i

-- `getDepth` and `getParent` of a scope given by its address.
unfoldable pub depth_at : Option Scope → ℕ
depth_at (some s) = s.depth
depth_at none = 0

unfoldable pub parent_at : Option Scope → Option ℕ
parent_at (some s) = s.parent
parent_at none = none

unfoldable pub enter_scope : SymbolTable → ScopeKind → SymbolTable
unfolding depth_at
enter_scope st k =
    let depth = (depth_at (scope_at st st.current_scope) + 1) % 2 ^ 32 in
    record st {
      all_scopes = st.all_scopes ++ new_scope k (some st.current_scope) depth ∷ [];
      current_scope = length st.all_scopes;
    }

unfoldable pub exit_scope : SymbolTable → SymbolTable
unfolding parent_at
exit_scope st = elim (parent_at (scope_at st st.current_scope)) [
  | some p ↦ record st { current_scope = p }
  | none ↦ st
]

unfoldable pub lookup_in : Option Scope → ℕ → Option ℕ
lookup_in (some s) name = lookup_symbol_local s name
lookup_in none name = none

unfoldable pub add_in : SymbolTable → Option Scope → ℕ → Symbol → SymbolTable
add_in st (some s) name sym = record st {
  all_scopes =
      set st.all_scopes st.current_scope (add_symbol_unchecked s name (length st.symbol_arena));
  symbol_arena = st.symbol_arena ++ record sym { name = some name } ∷ [];
}
add_in st none name sym = st

-- The address of the symbol, or `none` for a null pointer: the name is declared in this scope already.
unfoldable pub add_symbol : SymbolTable → ℕ → Symbol → Option ℕ × SymbolTable
unfolding lookup_in add_in
add_symbol st name sym = elim (lookup_in (scope_at st st.current_scope) name) [
  | some _ ↦ (none, st)
  | none ↦ (some (length st.symbol_arena), add_in st (scope_at st st.current_scope) name sym)
]

-- `while (Current)` in `lookupSymbol`; a parent is made before its children, so that the loop has no
-- more rounds than there are scopes.
unfoldable pub lookup_loop : ℕ → List Scope → ℕ → Option ℕ → Option ℕ
unfolding lookup_in parent_at
lookup_loop zero scopes name current = none
lookup_loop (suc n) scopes name none = none
lookup_loop (suc n) scopes name (some i) =
    or_else (lookup_in (get_elem? scopes i) name)
      (lookup_loop n scopes name (parent_at (get_elem? scopes i)))

unfoldable pub lookup_symbol_from : SymbolTable → ℕ → Option ℕ → Option ℕ
unfolding lookup_loop
lookup_symbol_from st name scope = lookup_loop (length st.all_scopes) st.all_scopes name scope

unfoldable pub lookup_symbol : SymbolTable → ℕ → Option ℕ
unfolding lookup_symbol_from
lookup_symbol st name = lookup_symbol_from st name (some st.current_scope)
