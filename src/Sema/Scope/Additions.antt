-- ===== src/Sema/Scope/Additions.antt =====
-- Lookups in a scope after any run of additions to it.
use trsc.Common.{
  ◌==◌, ==_iff, ==_refl, Bool-cases, some-injective, ℕ, ◌≡◌, refl, sym, ap, ◌∙◌, ◌≢◌, ◌↔◌, inl, inr,
  Option, some, [], ◌∷◌, ◌++◌, append-nil, append_assoc,
}
use mathlib.Core.Path.{subst₂}
use trsc.Sema.Scope.{
  ScopeKind, EntryList, Scope, new_scope, add_symbol_unchecked, linear_find, lookup_symbol_local,
  IsIndexed, new_scope-IsIndexed, add_symbol_unchecked-IsIndexed, lookup_symbol_local-linear_find,
}

-- `addSymbolUnchecked` for each of the names and symbols, in order.
unfoldable pub add_all : Scope → EntryList → Scope
add_all sc [] = sc
add_all sc ((name, s) ∷ es) = add_all (add_symbol_unchecked sc name s) es

-- The first of the entries with the name has the symbol.
pub data IsFirst (name sym : ℕ) : EntryList → Type 0 where
  here : {es : EntryList} → IsFirst name sym ((name, sym) ∷ es)
  later :
      {n s : ℕ} {es : EntryList} → n ≢ name → IsFirst name sym es → IsFirst name sym ((n, s) ∷ es)

add_all-symbols : (sc : Scope) (es : EntryList) → (add_all sc es).symbols ≡ sc.symbols ++ es
unfolding add_all add_symbol_unchecked
add_all-symbols sc [] = sym (append-nil sc.symbols)
add_all-symbols sc ((name, s) ∷ es) =
    add_all-symbols (add_symbol_unchecked sc name s) es
    ∙ append_assoc sc.symbols ((name, s) ∷ []) es

add_all-IsIndexed : (sc : Scope) (es : EntryList) → IsIndexed sc → IsIndexed (add_all sc es)
unfolding add_all
add_all-IsIndexed sc [] h = h
add_all-IsIndexed sc ((name, s) ∷ es) h =
    add_all-IsIndexed (add_symbol_unchecked sc name s) es
      (add_symbol_unchecked-IsIndexed sc name s h)

linear_find-IsFirst :
    (es : EntryList) (name s : ℕ) → linear_find es name ≡ some s → IsFirst name s es
unfolding linear_find
linear_find-IsFirst [] name s e = absurd (cc e)
linear_find-IsFirst ((n, s') ∷ es) name s e = elim (Bool-cases (n == name)) [
  | inl same ↦
      let at = (==_iff n name).0 same in
      let found : some s' ≡ some s = (rw same at e) in
      subst₂ (λ a b. IsFirst name s ((a, b) ∷ es)) (sym at) (sym (some-injective found)) here
  | inr other ↦
      let rest : linear_find es name ≡ some s = (rw other at e) in
      later (λ at. cc (other, (==_iff n name).1 at)) (linear_find-IsFirst es name s rest)
]

IsFirst-linear_find :
    (name s : ℕ) (es : EntryList) → IsFirst name s es → linear_find es name ≡ some s
unfolding linear_find
IsFirst-linear_find name s _ here = rw (==_refl name) refl
IsFirst-linear_find name s _ (later {n = n} {s = s'} {es = es} ne h) =
    elim (Bool-cases (n == name)) [
      | inl same ↦ absurd (ne ((==_iff n name).0 same))
      | inr other ↦ rw other (IsFirst-linear_find name s es h)
    ]

-- In a scope with any number of symbols, added one after the other to a new scope, `lookupSymbolLocal` finds a symbol
-- for a name just when the first addition with the name added that symbol, with an index or without one.
pub lookup_symbol_local-add_all :
    (k : ScopeKind) (p : Option ℕ) (depth : ℕ) (es : EntryList) (name s : ℕ)
    → (lookup_symbol_local (add_all (new_scope k p depth) es) name ≡ some s) ↔ IsFirst name s es
unfolding new_scope
lookup_symbol_local-add_all k p depth es name s =
    let sc = new_scope k p depth in
    let found : lookup_symbol_local (add_all sc es) name ≡ linear_find es name =
      lookup_symbol_local-linear_find (add_all sc es) name
        (add_all-IsIndexed sc es (new_scope-IsIndexed k p depth))
      ∙ ap (λ xs. linear_find xs name) (add_all-symbols sc es) in
    (
      λ e. linear_find-IsFirst es name s (sym found ∙ e),
      λ h. found ∙ IsFirst-linear_find name s es h,
    )
