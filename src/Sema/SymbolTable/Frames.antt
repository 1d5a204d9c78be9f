-- ===== src/Sema/SymbolTable/Frames.antt =====
-- The symbol table refines a stack of frames: the declarations of the current scope, those of the
-- scope around it, and so on out to the global scope.
use trsc.Common.{
  Option-cases, or_else, length, get_elem?, get_elem?_of_lt, ℕ, zero, suc, ◌≤◌, ◌<◌, ◌≡◌, refl, ap,
  inl, inr, Option, none, some, List, [], ◌∷◌, arith,
}
use trsc.Sema.Scope.{EntryList, Scope, linear_find, IsIndexed, lookup_symbol_local-linear_find}
use trsc.Sema.SymbolTable.{SymbolTable, scope_at, parent_at, lookup_in, lookup_loop, lookup_symbol}

-- What holds of the scopes that are made: a parent has a smaller address, and an index agrees with its list.
pub record IsScoped (i : ℕ) (s : Scope) : Type 0 where
  pub parent_lt : (p : ℕ) → s.parent ≡ some p → p < i
  pub indexed : IsIndexed s

pub record IsTable (st : SymbolTable) : Type 0 where
  pub current_lt : st.current_scope < length st.all_scopes
  pub scoped : (i : ℕ) (s : Scope) → scope_at st i ≡ some s → IsScoped i s

-- The frames of the chain of scopes that begins at an address.
unfoldable pub frames_of : Option Scope → List EntryList → List EntryList
frames_of (some s) outer = s.symbols ∷ outer
frames_of none outer = []

unfoldable pub chain : ℕ → List Scope → Option ℕ → List EntryList
chain zero scopes p = []
chain (suc n) scopes none = []
chain (suc n) scopes (some i) =
    frames_of (get_elem? scopes i) (chain n scopes (parent_at (get_elem? scopes i)))

unfoldable pub frames : SymbolTable → List EntryList
frames st = chain (suc st.current_scope) st.all_scopes (some st.current_scope)

-- Innermost frame first, and in a frame the first declaration.
unfoldable pub lookup_frames : List EntryList → ℕ → Option ℕ
lookup_frames [] name = none
lookup_frames (f ∷ fs) name = or_else (linear_find f name) (lookup_frames fs name)

abbrev pub Scoped : List Scope → Type 0
Scoped scopes = (i : ℕ) (s : Scope) → get_elem? scopes i ≡ some s → IsScoped i s

lookup_loop-none : (n : ℕ) (scopes : List Scope) (name : ℕ) → lookup_loop n scopes name none ≡ none
unfolding lookup_loop
lookup_loop-none zero scopes name = refl
lookup_loop-none (suc n) scopes name = refl

pub chain-none : (n : ℕ) (scopes : List Scope) → chain n scopes none ≡ []
unfolding chain
chain-none zero scopes = refl
chain-none (suc n) scopes = refl

-- The loop finds what the frames of the chain hold, given as many rounds as there are scopes in it.
lookup_loop-chain :
    (n m : ℕ) (scopes : List Scope) (name i : ℕ)
    → Scoped scopes
    → i < n
    → i < m
    → lookup_loop n scopes name (some i) ≡ lookup_frames (chain m scopes (some i)) name
unfolding lookup_loop chain lookup_frames lookup_in frames_of parent_at
lookup_loop-chain zero m scopes name i h p q = absurd (omega arith)
lookup_loop-chain (suc n) zero scopes name i h p q = absurd (omega arith)
lookup_loop-chain (suc n) (suc m) scopes name i h p q = elim (Option-cases (get_elem? scopes i)) [
  | inl e ↦ rw e (lookup_loop-none n scopes name)
  | inr (s, e) ↦
      let made = h i s e in
      rw (e, lookup_symbol_local-linear_find s name made.indexed)
        (ap (or_else (linear_find s.symbols name)) (elim (Option-cases s.parent) [
          | inl root ↦ rw (root, lookup_loop-none n scopes name, chain-none m scopes)
          | inr (j, outer) ↦
              let above = made.parent_lt j outer in
              rw (outer, lookup_loop-chain n m scopes name j h (omega arith) (omega arith))
        ]))
]

-- Two lists of scopes that agree up to an address have the same chain from there.
pub chain_agree :
    (n m : ℕ) (xs ys : List Scope) (i : ℕ)
    → Scoped xs
    → ((j : ℕ) → j ≤ i → get_elem? ys j ≡ get_elem? xs j)
    → i < n
    → i < m
    → chain n ys (some i) ≡ chain m xs (some i)
unfolding chain frames_of parent_at
chain_agree zero m xs ys i h a p q = absurd (omega arith)
chain_agree (suc n) zero xs ys i h a p q = absurd (omega arith)
chain_agree (suc n) (suc m) xs ys i h a p q =
    rw (a i (omega arith)) (elim (Option-cases (get_elem? xs i)) [
      | inl e ↦ rw e
      | inr (s, e) ↦ rw e (elim (Option-cases s.parent) [
        | inl root ↦ rw (root, chain-none n ys, chain-none m xs)
        | inr (j, outer) ↦
            let above = (h i s e).parent_lt j outer in
            rw (
              outer,
              chain_agree n m xs ys j h (λ k le. a k (omega arith)) (omega arith) (omega arith),
            )
      ])
    ])

-- A lookup finds the innermost declaration of the name, and in one scope the first.
pub lookup_symbol-frames :
    (st : SymbolTable) (name : ℕ)
    → IsTable st
    → lookup_symbol st name ≡ lookup_frames (frames st) name
unfolding lookup_symbol frames
lookup_symbol-frames st name t =
    lookup_loop-chain (length st.all_scopes) (suc st.current_scope) st.all_scopes name
      st.current_scope t.scoped t.current_lt (omega arith)

-- The current scope is there, and its chain is its own symbols and the chain of its parent.
pub current_frame :
    (st : SymbolTable)
    → IsTable st
    → (s : Scope) × (scope_at st st.current_scope ≡ some s)
      × IsScoped st.current_scope s
      × (frames st ≡ s.symbols ∷ chain st.current_scope st.all_scopes s.parent)
unfolding frames chain frames_of parent_at
current_frame st t =
    let (s, e) = get_elem?_of_lt st.all_scopes st.current_scope t.current_lt in
    (s, e, t.scoped st.current_scope s e, rw e)
