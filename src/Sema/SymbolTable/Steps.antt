-- ===== src/Sema/SymbolTable/Steps.antt =====
-- Each operation of the table is the operation on the stack of frames.
use trsc.Common.{
  Option-cases, some-injective, length, set, length-append, get_elem?-append, get_elem?-append_end,
  length-set, get_elem?-set_self, get_elem?-set_ne, get_elem?-concat, get_elem?-set_cases, ℕ, suc,
  ◌+◌, ◌%◌, ◌^◌, ◌<◌, ◌≡◌, refl, sym, ap, ◌∙◌, subst, inl, inr, Option, none, some, List, [], ◌∷◌,
  ◌++◌, arith,
}
use trsc.Sema.Scope.{
  ScopeKind, Symbol, EntryList, Scope, new_scope, add_symbol_unchecked, linear_find,
  new_scope-IsIndexed, add_symbol_unchecked-IsIndexed, lookup_symbol_local-linear_find,
}
use trsc.Sema.SymbolTable.{
  SymbolTable, scope_at, depth_at, parent_at, enter_scope, exit_scope, lookup_in, add_symbol,
  add_in,
}
use trsc.Sema.SymbolTable.Frames.{
  IsScoped, IsTable, frames_of, chain, frames, Scoped, chain-none, chain_agree, current_frame,
}
use mathlib.Core.Path.{subst₂}

-- The stack of frames, with the number of the symbols made so far. It is never empty.
pub record Stack : Type 0 where
  pub top : EntryList
  pub below : List EntryList
  pub symbols : ℕ

pub data Op : Type 0 where
  enter : ScopeKind → Op
  exit : Op
  add : ℕ → Symbol → Op

unfoldable pub step : SymbolTable → Op → SymbolTable
step st (enter k) = enter_scope st k
step st exit = exit_scope st
step st (add name sym) = (add_symbol st name sym).1

unfoldable pub leave : Stack → List EntryList → Stack
leave s [] = s
leave s (f ∷ fs) = record s { top = f; below = fs }

unfoldable pub declare : Stack → Option ℕ → ℕ → Stack
declare s (some _) name = s
declare s none name = record s { top = s.top ++ (name, s.symbols) ∷ []; symbols = s.symbols + 1 }

unfoldable pub stack_step : Stack → Op → Stack
unfolding leave declare
stack_step s (enter k) = record s { top = []; below = s.top ∷ s.below }
stack_step s exit = leave s s.below
stack_step s (add name sym) = declare s (linear_find s.top name) name

-- The table stands for the stack.
pub record Refines (st : SymbolTable) (s : Stack) : Type 0 where
  pub table : IsTable st
  pub frames_lem : frames st ≡ s.top ∷ s.below
  pub count : length st.symbol_arena ≡ s.symbols

append-Scoped :
    (xs : List Scope) (y : Scope) → Scoped xs → IsScoped (length xs) y → Scoped (xs ++ y ∷ [])
append-Scoped xs y h h' i s e = elim (get_elem?-concat xs y s i e) [
  | inl old ↦ h i s old
  | inr (at, new) ↦ subst₂ IsScoped (sym at) new h'
]

set-Scoped : (xs : List Scope) (c : ℕ) (y : Scope) → Scoped xs → IsScoped c y → Scoped (set xs c y)
set-Scoped xs c y h h' i s e = elim (get_elem?-set_cases xs c y s i e) [
  | inl old ↦ h i s old
  | inr (at, new) ↦ subst₂ IsScoped (sym at) new h'
]

enter-Refines :
    (st : SymbolTable) (s : Stack) (k : ScopeKind)
    → Refines st s
    → Refines (enter_scope st k) (stack_step s (enter k))
unfolding enter_scope stack_step frames chain frames_of new_scope parent_at
enter-Refines st s k r =
    let xs = st.all_scopes in
    let y =
      new_scope k (some st.current_scope)
        ((depth_at (scope_at st st.current_scope) + 1) % 2 ^ 32) in
    let made : IsScoped (length xs) y = record {
      parent_lt = λ p e. let same = some-injective e in rw (← same) r.table.current_lt;
      indexed = new_scope-IsIndexed k _ _;
    } in
    record {
      table = record {
        current_lt = omega (arith, length-append xs (y ∷ []));
        scoped = append-Scoped xs y r.table.scoped made;
      };
      frames_lem = rw (get_elem?-append_end xs y) (
          ap (◌∷◌ []) (
            chain_agree (length xs) (suc st.current_scope) xs (xs ++ y ∷ []) st.current_scope
              r.table.scoped
              (λ j le. get_elem?-append xs (y ∷ []) j (let lt = r.table.current_lt in omega arith))
              r.table.current_lt (omega arith)
            ∙ r.frames_lem));
      count = r.count;
    }

exit_root :
    (st : SymbolTable) (s : Scope)
    → scope_at st st.current_scope ≡ some s
    → s.parent ≡ none
    → exit_scope st ≡ st
unfolding exit_scope parent_at
exit_root st s e root =
    let at : parent_at (scope_at st st.current_scope) ≡ none = rw e root in rw (at, exit_scope)

exit_outer :
    (st : SymbolTable) (s : Scope) (p : ℕ)
    → scope_at st st.current_scope ≡ some s
    → s.parent ≡ some p
    → exit_scope st ≡ record st { current_scope = p }
unfolding exit_scope parent_at
exit_outer st s p e outer =
    let at : parent_at (scope_at st st.current_scope) ≡ some p = rw e outer in rw (at, exit_scope)

exit-Refines :
    (st : SymbolTable) (s : Stack) → Refines st s → Refines (exit_scope st) (stack_step s exit)
unfolding exit_scope stack_step frames leave parent_at
exit-Refines st s r =
    let (s0, e, made, fr) = current_frame st r.table in
    elim (Option-cases s0.parent) [
      | inl root ↦
          let bottom : s.below ≡ [] =
            cc (r.frames_lem, fr, root, chain-none st.current_scope st.all_scopes) in
          subst (λ b. Refines (exit_scope st) (leave s b)) (sym bottom)
            (rw (exit_root st s0 e root) r)
      | inr (p, outer) ↦
          let lt = made.parent_lt p outer in
          let here = r.table.current_lt in
          let st' = record st { current_scope = p } in
          let table' : IsTable st' = record { current_lt = omega arith; scoped = r.table.scoped } in
          let (s1, _, _, fr') = current_frame st' table' in
          let same : frames st' ≡ chain st.current_scope st.all_scopes s0.parent = rw outer (
            chain_agree (suc p) st.current_scope st.all_scopes st.all_scopes p r.table.scoped
              (λ j _. refl) (omega arith) lt) in
          let below : s.below ≡ s1.symbols ∷ chain p st.all_scopes s1.parent =
            cc (r.frames_lem, fr, same, fr') in
          subst (λ b. Refines (exit_scope st) (leave s b)) (sym below)
            (rw (exit_outer st s0 p e outer)
              (record { table = table'; frames_lem = fr'; count = r.count }))
    ]

-- The frames around a scope do not see it change.
chain-set :
    (xs : List Scope) (c : ℕ) (y : Scope) (p : Option ℕ)
    → Scoped xs
    → ((q : ℕ) → p ≡ some q → q < c)
    → chain c (set xs c y) p ≡ chain c xs p
chain-set xs c y none h above = chain-none c (set xs c y) ∙ sym (chain-none c xs)
chain-set xs c y (some p) h above =
    let lt = above p refl in
    chain_agree c c xs (set xs c y) p h (λ j le. get_elem?-set_ne xs c j y (omega arith)) lt lt

-- The table after a declaration: the current scope is another, the rest is as it was.
declared-Refines :
    (st : SymbolTable) (s : Stack) (name : ℕ) (symbol : Symbol) (s0 : Scope)
    → Refines st s
    → IsScoped st.current_scope s0
    → frames st ≡ s0.symbols ∷ chain st.current_scope st.all_scopes s0.parent
    → Refines (add_in st (some s0) name symbol) (declare s none name)
unfolding add_in declare frames chain frames_of parent_at add_symbol_unchecked
declared-Refines st s name symbol s0 r made fr =
    let xs = st.all_scopes in
    let c = st.current_scope in
    let here = r.table.current_lt in
    let y = add_symbol_unchecked s0 name (length st.symbol_arena) in
    let made' : IsScoped c y = record {
      parent_lt = made.parent_lt;
      indexed = add_symbol_unchecked-IsIndexed s0 name (length st.symbol_arena) made.indexed;
    } in
    let outer = chain-set xs c y s0.parent r.table.scoped made.parent_lt in
    let top : s0.symbols ≡ s.top = cc (r.frames_lem, fr) in
    let below : chain c xs s0.parent ≡ s.below = cc (r.frames_lem, fr) in
    record {
      table = record {
        current_lt = rw (length-set xs c y) here;
        scoped = set-Scoped xs c y r.table.scoped made';
      };
      frames_lem = rw (get_elem?-set_self xs c y here, outer, top, below, r.count) refl;
      count =
          omega (
            arith,
            r.count,
            length-append st.symbol_arena (record symbol { name = some name } ∷ []),
          );
    }

add-Refines :
    (st : SymbolTable) (s : Stack) (name : ℕ) (symbol : Symbol)
    → Refines st s
    → Refines (add_symbol st name symbol).1 (stack_step s (add name symbol))
unfolding add_symbol stack_step lookup_in declare
add-Refines st s name symbol r =
    let (s0, e, made, fr) = current_frame st r.table in
    let top : s0.symbols ≡ s.top = cc (r.frames_lem, fr) in
    let found : lookup_in (scope_at st st.current_scope) name ≡ linear_find s.top name =
      rw e (
        lookup_symbol_local-linear_find s0 name made.indexed
        ∙ ap (λ es. linear_find es name) top) in
    elim (Option-cases (linear_find s.top name)) [
      | inr (x, old) ↦ rw (found, old, add_symbol) r
      | inl new ↦ rw (found, new, add_symbol, e) (declared-Refines st s name symbol s0 r made fr)
    ]

-- Each operation of the table is the operation on the stack of frames.
pub step-Refines :
    (st : SymbolTable) (s : Stack) (op : Op) → Refines st s → Refines (step st op) (stack_step s op)
unfolding step
step-Refines st s (enter k) r = enter-Refines st s k r
step-Refines st s exit r = exit-Refines st s r
step-Refines st s (add name symbol) r = add-Refines st s name symbol r
