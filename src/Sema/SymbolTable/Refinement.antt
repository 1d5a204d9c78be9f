-- ===== src/Sema/SymbolTable/Refinement.antt =====
-- Every run of the operations of the table is the run of those on the stack of frames.
use trsc.Common.{
  Option-cases, get_elem?-concat, ℕ, ◌≡◌, refl, ap, ◌∙◌, inl, inr, none, some, List, [], ◌∷◌, arith,
}
use trsc.Sema.Scope.{
  Symbol, new_scope, linear_find, new_scope-IsIndexed, lookup_symbol_local-linear_find,
  scope_global,
}
use trsc.Sema.SymbolTable.{
  SymbolTable, initial, scope_at, parent_at, lookup_in, add_symbol, lookup_symbol,
}
use trsc.Sema.SymbolTable.Frames.{
  frames_of, chain, frames, lookup_frames, lookup_symbol-frames, current_frame,
}
use trsc.Sema.SymbolTable.Steps.{Stack, Op, step, stack_step, Refines, step-Refines}

unfoldable pub run : SymbolTable → List Op → SymbolTable
unfolding step
run st [] = st
run st (op ∷ ops) = run (step st op) ops

unfoldable pub stack_run : Stack → List Op → Stack
unfolding stack_step
stack_run s [] = s
stack_run s (op ∷ ops) = stack_run (stack_step s op) ops

pub run-Refines :
    (ops : List Op) (st : SymbolTable) (s : Stack)
    → Refines st s
    → Refines (run st ops) (stack_run s ops)
unfolding run stack_run
run-Refines [] st s r = r
run-Refines (op ∷ ops) st s r =
    run-Refines ops (step st op) (stack_step s op) (step-Refines st s op r)

-- The stack of a new table: the global frame, which is empty.
unfoldable pub initial_stack : Stack
initial_stack = record { top = []; below = []; symbols = 0 }

pub initial-Refines : Refines initial initial_stack
unfolding initial initial_stack frames chain frames_of new_scope parent_at
initial-Refines = record {
  table = record {
    current_lt = omega arith;
    scoped = λ i s e. elim (get_elem?-concat [] (new_scope scope_global none 0) s i e) [
      | inl old ↦ cc old
      | inr (at, new) ↦
          rw (← new) (record {
            parent_lt = λ p up. cc up;
            indexed = new_scope-IsIndexed scope_global none 0;
          })
    ];
  };
  frames_lem = refl;
  count = refl;
}

-- After any run of the operations from the new table, a name is looked up as in the stack of frames
-- that the run makes: the innermost frame with a declaration of it, and there the first.
pub lookup_symbol-run :
    (ops : List Op) (name : ℕ)
    → lookup_symbol (run initial ops) name
      ≡ lookup_frames ((stack_run initial_stack ops).top ∷ (stack_run initial_stack ops).below) name
lookup_symbol-run ops name =
    let r = run-Refines ops initial initial_stack initial-Refines in
    lookup_symbol-frames (run initial ops) name r.table
    ∙ ap (λ fs. lookup_frames fs name) r.frames_lem

-- A declaration of a name in a table for a stack returns what the top frame of the stack says.
pub add_symbol-address :
    (st : SymbolTable) (s : Stack) (name : ℕ) (symbol : Symbol)
    → Refines st s
    → (add_symbol st name symbol).0
      ≡ elim (linear_find s.top name) [ some _ ↦ none | none ↦ some s.symbols ]
unfolding add_symbol lookup_in
add_symbol-address st s name symbol r =
    let (s0, e, made, fr) = current_frame st r.table in
    let top : s0.symbols ≡ s.top = cc (r.frames_lem, fr) in
    let found : lookup_in (scope_at st st.current_scope) name ≡ linear_find s.top name =
      rw e (
        lookup_symbol_local-linear_find s0 name made.indexed
        ∙ ap (λ es. linear_find es name) top) in
    elim (Option-cases (linear_find s.top name)) [
      | inr (x, old) ↦ rw (found, old, add_symbol) refl
      | inl new ↦ rw (found, new, add_symbol, r.count) refl
    ]

-- After any run of the operations from the new table, a declaration makes a symbol, at the next
-- address, just when the current frame has no declaration of the name.
pub add_symbol-run :
    (ops : List Op) (name : ℕ) (symbol : Symbol)
    → (add_symbol (run initial ops) name symbol).0
      ≡ elim (linear_find (stack_run initial_stack ops).top name) [
        | some _ ↦ none
        | none ↦ some (stack_run initial_stack ops).symbols
      ]
add_symbol-run ops name symbol =
    add_symbol-address (run initial ops) (stack_run initial_stack ops) name symbol
      (run-Refines ops initial initial_stack initial-Refines)
