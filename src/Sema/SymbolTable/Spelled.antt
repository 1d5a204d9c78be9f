-- ===== src/Sema/SymbolTable/Spelled.antt =====
-- lib/Sema/SymbolTable.cpp: the overloads keyed by a spelling. A declaration interns it, a lookup does not.
use trsc.Common.{
  if◌then◌else◌, Bool-cases, Option-cases, some-injective, Bytes, bytes_eq, bytes_eq_iff, ℕ, ◌==◌,
  ◌≡◌, refl, sym, ap, subst, false, ◌∙◌, inl, inr, Option, none, some, List, [], ◌∷◌, ◌++◌, arith,
}
use trsc.Lex.Token.{TokenKind, IdentifierInfo, identifier}
use trsc.Basic.IdentifierTable.{IdentifierTable, find, fresh, insert, get}
use trsc.Basic.IdentifierTable.Interning.{
  find_in-append, get-insert, find-insert, insert_cases, IsInterned, eq_of_addr, insert-IsInterned,
  find-insert_keep,
}
use trsc.Sema.Scope.{Symbol, EntryList, linear_find}
use trsc.Sema.SymbolTable.{SymbolTable, initial, add_symbol, lookup_symbol_from, lookup_symbol}
use trsc.Sema.SymbolTable.Frames.{lookup_frames, lookup_symbol-frames}
use trsc.Sema.SymbolTable.Steps.{Stack, Op, add, declare, stack_step, step, Refines, step-Refines}
use trsc.Sema.SymbolTable.Refinement.{
  run, initial_stack, initial-Refines, run-Refines, stack_run, add_symbol-address,
}

unfoldable pub add_symbol_spelled :
    IdentifierTable → SymbolTable → Bytes → Symbol → IdentifierTable × (Option ℕ × SymbolTable)
add_symbol_spelled t st s symbol = ((get t s).1, add_symbol st (get t s).0.addr symbol)

unfoldable pub lookup_symbol_spelled_from :
    IdentifierTable → SymbolTable → Bytes → Option ℕ → Option ℕ
lookup_symbol_spelled_from t st s scope = elim (find t s) [
  | some i ↦ lookup_symbol_from st i.addr scope
  | none ↦ none
]

unfoldable pub lookup_symbol_spelled : IdentifierTable → SymbolTable → Bytes → Option ℕ
unfolding lookup_symbol_spelled_from
lookup_symbol_spelled t st s = lookup_symbol_spelled_from t st s (some st.current_scope)

linear_find-append :
    (es : EntryList) (name name' a : ℕ)
    → linear_find es name ≡ none
    → linear_find (es ++ (name, a) ∷ []) name'
      ≡ (if name == name' then some a else linear_find es name')
unfolding linear_find
linear_find-append [] name name' a e = ground arith
linear_find-append ((n, x) ∷ es) name name' a e = ground (arith, linear_find-append es name name' a)

lookup_frames-append :
    (top : EntryList) (below : List EntryList) (name name' a : ℕ)
    → linear_find top name ≡ none
    → lookup_frames ((top ++ (name, a) ∷ []) ∷ below) name'
      ≡ (if name == name' then some a else lookup_frames (top ∷ below) name')
unfolding lookup_frames
lookup_frames-append top below name name' a e =
    rw (linear_find-append top name name' a e)
      (elim (Bool-cases (name == name')) [ inl h ↦ rw h refl | inr h ↦ rw h refl ])

was_free :
    (o : Option ℕ) (n a : ℕ)
    → elim o [ some _ ↦ none | none ↦ some n ] ≡ some a
    → (o ≡ none) × (n ≡ a)
was_free none n a e = (refl, some-injective e)
was_free (some x) n a e = absurd (ground arith)

-- After a declaration that returns the address of a symbol, its name is looked up as that symbol, and
-- every other name as before.
lookup_symbol-add :
    (st : SymbolTable) (s : Stack) (name name' : ℕ) (symbol : Symbol) (a : ℕ)
    → Refines st s
    → (add_symbol st name symbol).0 ≡ some a
    → lookup_symbol (add_symbol st name symbol).1 name'
      ≡ (if name == name' then some a else lookup_symbol st name')
unfolding stack_step step declare
lookup_symbol-add st s name name' symbol a r e =
    let r' = step-Refines st s (add name symbol) r in
    let (new, at) =
      was_free (linear_find s.top name) s.symbols a
        (sym (add_symbol-address st s name symbol r) ∙ e) in
    let stack : stack_step s (add name symbol) ≡ declare s none name =
      ap (λ o. declare s o name) new in
    lookup_symbol-frames (add_symbol st name symbol).1 name' r'.table
    ∙ ap (λ fs. lookup_frames fs name') (r'.frames_lem ∙ ap (λ z. z.top ∷ z.below) stack)
    ∙ ap (λ n. lookup_frames ((s.top ++ (name, n) ∷ []) ∷ s.below) name') at
    ∙ lookup_frames-append s.top s.below name name' a new
    ∙ ap (λ o. if name == name' then some a else o)
        (sym
          (lookup_symbol-frames st name' r.table ∙ ap (λ fs. lookup_frames fs name') r.frames_lem))

lookup_spelled-found :
    (t : IdentifierTable) (st : SymbolTable) (s : Bytes) (i : IdentifierInfo)
    → find t s ≡ some i
    → lookup_symbol_spelled t st s ≡ lookup_symbol st i.addr
unfolding lookup_symbol_spelled lookup_symbol_spelled_from lookup_symbol
lookup_spelled-found t st s i e =
    ap
      (λ (o : Option IdentifierInfo). elim o [
        | some j ↦ lookup_symbol_from st j.addr (some st.current_scope)
        | none ↦ none
      ])
      e

lookup_spelled-unknown :
    (t : IdentifierTable) (st : SymbolTable) (s : Bytes)
    → find t s ≡ none
    → lookup_symbol_spelled t st s ≡ none
unfolding lookup_symbol_spelled lookup_symbol_spelled_from
lookup_spelled-unknown t st s e =
    ap
      (λ (o : Option IdentifierInfo). elim o [
        | some j ↦ lookup_symbol_from st j.addr (some st.current_scope)
        | none ↦ none
      ])
      e

-- Interning a spelling makes no other one known.
find-insert_other :
    (t : IdentifierTable) (s s' : Bytes) (k : TokenKind)
    → find t s' ≡ none
    → bytes_eq s s' ≡ false
    → find (insert t s k).1 s' ≡ none
unfolding find
find-insert_other t s s' k e ne = elim (insert_cases t s k) [
  | inl (j, _, p) ↦ rw p e
  | inr (_, p) ↦ rw p (ground (arith, find_in-append s' t.infos (fresh t s k)))
]

-- Another spelling that is known has another address.
insert-addr_ne :
    (t : IdentifierTable) (s s' : Bytes) (j : IdentifierInfo)
    → IsInterned t
    → find t s' ≡ some j
    → bytes_eq s s' ≡ false
    → ((insert t s identifier).0.addr == j.addr) ≡ false
insert-addr_ne t s s' j h known other =
    let new = insert t s identifier in
    let same : new.0.addr ≡ j.addr → s ≡ s' =
      eq_of_addr new.1 s s' new.0 j (insert-IsInterned t s identifier h)
        (find-insert t s identifier) (find-insert_keep t s' s identifier j known) in
    elim (Bool-cases (new.0.addr == j.addr)) [
      | inl eq ↦
          let hit = (bytes_eq_iff s s').1 (same (ground arith)) in
          absurd (ground (arith, hit, other))
      | inr ne ↦ ne
    ]

insert_then :
    (t : IdentifierTable) (st : SymbolTable) (z : Stack) (s s' : Bytes) (symbol : Symbol) (a : ℕ)
    → IsInterned t
    → Refines st z
    → (add_symbol st (insert t s identifier).0.addr symbol).0 ≡ some a
    → lookup_symbol_spelled
        (insert t s identifier).1
        (add_symbol st (insert t s identifier).0.addr symbol).1
        s'
      ≡ (if bytes_eq s s' then some a else lookup_symbol_spelled t st s')
insert_then t st z s s' symbol a h r e =
    let new = insert t s identifier in
    let st' = (add_symbol st new.0.addr symbol).1 in
    let looked : (n : ℕ) → _ = λ n. lookup_symbol-add st z new.0.addr n symbol a r e in
    elim (Bool-cases (bytes_eq s s')) [
      | inl same ↦
          let here = (bytes_eq_iff s s').0 same in
          let known : find new.1 s' ≡ some new.0 =
            subst (λ x. find new.1 x ≡ some new.0) here (find-insert t s identifier) in
          rw same (lookup_spelled-found new.1 st' s' new.0 known ∙ looked new.0.addr ∙ ground arith)
      | inr other ↦ rw other (elim (Option-cases (find t s')) [
        | inl unknown ↦
            lookup_spelled-unknown new.1 st' s' (find-insert_other t s s' identifier unknown other)
            ∙ sym (lookup_spelled-unknown t st s' unknown)
        | inr (j, known) ↦
            let kept = find-insert_keep t s' s identifier j known in
            let apart = insert-addr_ne t s s' j h known other in
            lookup_spelled-found new.1 st' s' j kept
            ∙ looked j.addr
            ∙ rw apart (sym (lookup_spelled-found t st s' j known))
      ])
    ]

-- After any run of the operations from the new table, with any identifiers that lie at their addresses:
-- when a declaration of one spelling returns the address of a symbol, that spelling is looked up as this
-- symbol, and every other spelling as before the declaration.
pub lookup_spelled-add_spelled :
    (t : IdentifierTable) (ops : List Op) (s s' : Bytes) (symbol : Symbol) (a : ℕ)
    → IsInterned t
    → (add_symbol_spelled t (run initial ops) s symbol).1.0 ≡ some a
    → lookup_symbol_spelled
        (add_symbol_spelled t (run initial ops) s symbol).0
        (add_symbol_spelled t (run initial ops) s symbol).1.1
        s'
      ≡ (if bytes_eq s s' then some a else lookup_symbol_spelled t (run initial ops) s')
unfolding add_symbol_spelled
lookup_spelled-add_spelled t ops s s' symbol a h =
    subst
      (λ (new : IdentifierInfo × IdentifierTable).
        (add_symbol (run initial ops) new.0.addr symbol).0 ≡ some a
        → lookup_symbol_spelled new.1 (add_symbol (run initial ops) new.0.addr symbol).1 s'
          ≡ (if bytes_eq s s' then some a else lookup_symbol_spelled t (run initial ops) s'))
      (sym (get-insert t s))
      (insert_then t (run initial ops) (stack_run initial_stack ops) s s' symbol a h
        (run-Refines ops initial initial_stack initial-Refines))
