-- ===== src/Sema/Scope.antt =====
-- include/trsc/Sema/Scope.h and lib/Sema/Scope.cpp. A scope keeps its symbols in the order of their
-- declaration, and beyond 32 of them in a hash index too.
pub mod Additions
use trsc.Common.{
  ltb, ◌==◌, if◌then◌else◌, Bool-cases, Option-cases, some-injective, length, ℕ, ◌≡◌, refl, sym,
  ◌∙◌, inl, inr, Bool, true, false, Option, none, some, List, [], ◌∷◌, ◌++◌, arith,
}
use trsc.Types.QualType.{QualType}

pub data SymbolKind : Type 0 where
  symbol_variable symbol_parameter symbol_function symbol_const : SymbolKind

pub data ScopeKind : Type 0 where
  scope_global scope_forstmt scope_blockstmt scope_whilestmt scope_function : ScopeKind

-- `Op`, which only the code generator uses, is left out. `scp` is the address of a scope, and `name`
-- that of an `IdentifierInfo`.
pub record Symbol : Type 0 where
  pub scp : Option ℕ
  pub name : Option ℕ
  pub ty : QualType
  pub kind : SymbolKind
  pub is_mutable : Bool
  pub is_initialized : Bool

-- The addresses of an `IdentifierInfo` and of a symbol.
abbrev pub EntryList : Type 0
EntryList = List (ℕ × ℕ)

-- An `unordered_map` from one to the other: `find`, and `emplace`, which keeps an entry that is there.
unfoldable pub map_find : EntryList → ℕ → Option ℕ
map_find [] name = none
map_find ((n, s) ∷ m) name = if n == name then some s else map_find m name

pub map_emplace : EntryList → ℕ → ℕ → EntryList
unfolding map_find
map_emplace m name sym = elim (map_find m name) [ some _ ↦ m | none ↦ (name, sym) ∷ m ]

pub record Scope : Type 0 where
  pub kind : ScopeKind
  pub symbols : EntryList
  pub index : Option EntryList
  pub parent : Option ℕ
  pub depth : ℕ

abbrev pub index_threshold : ℕ
index_threshold = 32

emplace_all : EntryList → EntryList → EntryList
unfolding map_emplace
emplace_all [] m = m
emplace_all ((n, s) ∷ es) m = emplace_all es (map_emplace m n s)

build_index : EntryList → EntryList
unfolding emplace_all
build_index es = emplace_all es []

unfoldable pub new_scope : ScopeKind → Option ℕ → ℕ → Scope
new_scope k p d = record { kind = k; symbols = []; index = none; parent = p; depth = d }

-- The index after an insertion into the list, which is `es` then.
unfoldable pub update_index : Option EntryList → EntryList → ℕ → ℕ → Option EntryList
unfolding map_emplace build_index
update_index (some m) es name s = some (map_emplace m name s)
update_index none es name s =
    if ltb index_threshold (length es) then some (build_index es) else none

unfoldable pub add_symbol_unchecked : Scope → ℕ → ℕ → Scope
unfolding update_index
add_symbol_unchecked sc name s =
    let symbols' = sc.symbols ++ (name, s) ∷ [] in
    record sc { symbols = symbols'; index = update_index sc.index symbols' name s }

-- The search through the list, the first entry first.
unfoldable pub linear_find : EntryList → ℕ → Option ℕ
linear_find [] name = none
linear_find ((n, s) ∷ es) name = if n == name then some s else linear_find es name

unfoldable pub lookup_symbol_local : Scope → ℕ → Option ℕ
unfolding map_find linear_find
lookup_symbol_local s name = elim s.index [
  | some m ↦ map_find m name
  | none ↦ linear_find s.symbols name
]

unfoldable pub can_return : ScopeKind → Bool
can_return scope_function = true
can_return _ = false

-- The index, where there is one, finds what the list holds.
pub record IsIndexed (s : Scope) : Type 0 where
  pub agrees :
      (m : EntryList) → s.index ≡ some m → (name : ℕ) → map_find m name ≡ linear_find s.symbols name

pub linear_find-append :
    (es es' : EntryList) (name : ℕ)
    → linear_find (es ++ es') name
      ≡ elim (linear_find es name) [ some s ↦ some s | none ↦ linear_find es' name ]
unfolding linear_find
linear_find-append [] es' name = ground arith
linear_find-append ((n, s) ∷ es) es' name = ground (arith, linear_find-append es es' name)

map_find-emplace :
    (m : EntryList) (n s name : ℕ)
    → map_find (map_emplace m n s) name
      ≡ elim (map_find m name) [ some s' ↦ some s' | none ↦ linear_find ((n, s) ∷ []) name ]
unfolding map_emplace linear_find
map_find-emplace m n s name = elim (Option-cases (map_find m n)) [
  | inl e ↦ rw (e, map_emplace) (ground (arith, e))
  | inr (s', e) ↦ rw (e, map_emplace) (ground (arith, e))
]

map_find-emplace_all :
    (es m : EntryList) (name : ℕ)
    → map_find (emplace_all es m) name
      ≡ elim (map_find m name) [ some s ↦ some s | none ↦ linear_find es name ]
unfolding emplace_all linear_find
map_find-emplace_all [] m name = ground arith
map_find-emplace_all ((n, s) ∷ es) m name =
    ground (arith, map_find-emplace_all es (map_emplace m n s) name, map_find-emplace m n s name)

map_find-build_index :
    (es : EntryList) (name : ℕ) → map_find (build_index es) name ≡ linear_find es name
unfolding build_index map_find
map_find-build_index es name = map_find-emplace_all es [] name

pub new_scope-IsIndexed : (k : ScopeKind) (p : Option ℕ) (d : ℕ) → IsIndexed (new_scope k p d)
unfolding new_scope
new_scope-IsIndexed k p d = record { agrees = λ m e. cc }

update_index-agrees :
    (o : Option EntryList) (es : EntryList) (name s : ℕ)
    → ((m : EntryList) → o ≡ some m → (n : ℕ) → map_find m n ≡ linear_find es n)
    → (m' : EntryList) → update_index o (es ++ (name, s) ∷ []) name s ≡ some m'
    → (n : ℕ) → map_find m' n ≡ linear_find (es ++ (name, s) ∷ []) n
unfolding update_index
update_index-agrees (some m) es name s h m' e n =
    rw (← some-injective e) (
      map_find-emplace m name s n
      ∙ rw (h m refl n) (sym (linear_find-append es ((name, s) ∷ []) n)))
update_index-agrees none es name s h m' e n =
    elim (Bool-cases (ltb index_threshold (length (es ++ (name, s) ∷ [])))) [
      | inl big ↦
          let built : some (build_index (es ++ (name, s) ∷ [])) ≡ some m' = (rw big at e) in
          rw (← some-injective built) (map_find-build_index (es ++ (name, s) ∷ []) n)
      | inr small ↦ cc (let absent : none ≡ some m' = (rw small at e) in absent)
    ]

-- Whether the index is there already, is built by this insertion or is not needed yet, it finds
-- after the insertion what a search through the list finds, if it did so before.
pub add_symbol_unchecked-IsIndexed :
    (sc : Scope) (name s : ℕ) → IsIndexed sc → IsIndexed (add_symbol_unchecked sc name s)
unfolding add_symbol_unchecked
add_symbol_unchecked-IsIndexed sc name s h = record {
  agrees = update_index-agrees sc.index sc.symbols name s h.agrees;
}

-- In a scope whose index, if it has one, agrees with its list, a lookup gives the first entry of the
-- list for the name.
pub lookup_symbol_local-linear_find :
    (sc : Scope) (name : ℕ)
    → IsIndexed sc
    → lookup_symbol_local sc name ≡ linear_find sc.symbols name
unfolding lookup_symbol_local
lookup_symbol_local-linear_find sc name h = elim (Option-cases sc.index) [
  | inl e ↦ rw e
  | inr (m, e) ↦ rw e (h.agrees m e name)
]
