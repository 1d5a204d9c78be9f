-- ===== src/Sema/NameResolver/Lexical.antt =====
-- A stack of frames as a symbol table of the passes.
use trsc.Common.{refl, ap, ◌∙◌, none, some, ◌∷◌}
use trsc.Sema.Scope.{linear_find}
use trsc.Sema.SymbolTable.{SymbolTable, initial}
use trsc.Basic.Diagnostics.{DiagnosticsEngine}
use trsc.Sema.SymbolTable.Refinement.{initial_stack, initial-Refines, add_symbol-address}
use trsc.Sema.SymbolTable.Frames.{lookup_frames, lookup_symbol-frames}
use trsc.Sema.SymbolTable.Steps.{Stack, step, stack_step, Refines, step-Refines, enter, exit, add}
use trsc.Sema.NameResolver.{ScopeTable, symbol_table, Resolver}
use trsc.Sema.NameResolver.Simulation.{Agrees, Related}

-- The operations on a stack of frames, which knows no addresses of scopes.
unfoldable pub lexical : ScopeTable Stack
lexical = record {
  current_scope = λ s. 0;
  enter_scope = λ s k. stack_step s (enter k);
  exit_scope = λ s. stack_step s exit;
  add_symbol = λ s name x. (
    elim (linear_find s.top name) [ some _ ↦ none | none ↦ some s.symbols ],
    stack_step s (add name x),
  );
  lookup_symbol = λ s name. lookup_frames (s.top ∷ s.below) name;
}

pub symbol_table-Agrees : Agrees Refines symbol_table lexical
unfolding symbol_table lexical step stack_step
symbol_table-Agrees = record {
  enter_agrees = λ st s k r. step-Refines st s (enter k) r;
  exit_agrees = λ st s r. step-Refines st s exit r;
  add_agrees =
      λ st s name x x' r. (add_symbol-address st s name x r, step-Refines st s (add name x) r);
  lookup_agrees = λ st s name r.
      lookup_symbol-frames st name r.table ∙ ap (λ fs. lookup_frames fs name) r.frames_lem;
}

-- The state of the first pass: a new table, or the stack of the global frame, and what is reported already.
abbrev pub new_resolver : DiagnosticsEngine → Resolver SymbolTable
new_resolver d = record { table = initial; diag = d }

abbrev pub new_lexical : DiagnosticsEngine → Resolver Stack
new_lexical d = record { table = initial_stack; diag = d }

pub new_resolver-Related :
    (d : DiagnosticsEngine) → Related Refines (new_resolver d) (new_lexical d)
new_resolver-Related d = record { tables = initial-Refines; reports_same = refl }
