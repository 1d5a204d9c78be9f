-- ===== src/Types/Context/Uniqueness.antt =====
-- ASTContext.cpp makes one object for each type, so that two types are the same exactly when their addresses are.
use trsc.Types.QualType.{
  TypeKind, kind_value, QualType, QualTypes, null, builtin, pointer, reference, array, function,
  nil, cons,
}
use trsc.Common.{
  Option-cases, some-injective, length, get_elem?, get_elem?-concat, ℕ, zero, suc, ◌+◌, ◌≡◌, refl,
  sym, ap, ◌∙◌, subst, ◌⊎◌, inl, inr, none, some, List, [], ◌∷◌, ◌++◌, map, arith,
}
use trsc.Types.Builtins.{builtin_kinds}
use trsc.Types.Context.{
  TypePtr, TypeObject, AstContext, probe, try_emplace, new_context, builtin_object, pointer_object,
  reference_object, array_object, function_object,
}
use trsc.Types.Context.Denotation.{Denotes, DenoteAll, probe-found, probe-missing}

-- No object is made twice.
unfoldable pub IsCanonical : AstContext → Type 0
IsCanonical c =
    (i j : ℕ) (o : TypeObject)
    → get_elem? c.objects i ≡ some o
    → get_elem? c.objects j ≡ some o
    → i ≡ j

-- Under one canonical context, the address of a type is determined by the type.
module _ (c : AstContext) (canonical : IsCanonical c) where
  same_place :
      (i j : ℕ) (o o' : TypeObject)
      → get_elem? c.objects i ≡ some o
      → get_elem? c.objects j ≡ some o'
      → o ≡ o'
      → i ≡ j
  unfolding IsCanonical
  same_place i j o o' e e' same = canonical i j o e (cc (e', same))

  mutual
    unfolding Denotes

    pub Denotes-address : (t : QualType) (a b : TypePtr) → Denotes c a t → Denotes c b t → a ≡ b
    Denotes-address null a b e e' = e ∙ sym e'
    Denotes-address (builtin k) a b (i, at, e) (j, at', e') =
        at ∙ ap some (same_place i j _ _ e e' refl) ∙ sym at'
    Denotes-address (pointer t m) a b (i, p, at, e, h) (j, p', at', e', h') =
        at
        ∙ ap some
            (same_place i j _ _ e e' (ap (λ q. pointer_object q m) (Denotes-address t p p' h h')))
        ∙ sym at'
    Denotes-address (reference t m) a b (i, p, at, e, h) (j, p', at', e', h') =
        at
        ∙ ap some
            (same_place i j _ _ e e' (ap (λ q. reference_object q m) (Denotes-address t p p' h h')))
        ∙ sym at'
    Denotes-address (array t n) a b (i, p, at, e, h) (j, p', at', e', h') =
        at
        ∙ ap some
            (same_place i j _ _ e e' (ap (λ q. array_object q n) (Denotes-address t p p' h h')))
        ∙ sym at'
    Denotes-address (function t ts) a b (i, p, ps, at, e, h, hs) (j, p', ps', at', e', h', hs') =
        let result = Denotes-address t p p' h h' in
        let params = DenoteAll-addresses ts ps ps' hs hs' in
        at
        ∙ ap some (
            same_place i j _ _ e e'
              (ap (λ q. function_object q ps) result ∙ ap (function_object p') params))
        ∙ sym at'

    pub DenoteAll-addresses :
        (ts : QualTypes) (ps qs : List TypePtr) → DenoteAll c ps ts → DenoteAll c qs ts → ps ≡ qs
    DenoteAll-addresses nil ps qs e e' = e ∙ sym e'
    DenoteAll-addresses (cons t ts) ps qs (p, rest, e, h, hs) (p', rest', e', h', hs') =
        e
        ∙ ap (◌∷◌ p) (DenoteAll-addresses ts rest rest' hs hs')
        ∙ ap (λ q. q ∷ rest') (Denotes-address t p p' h h')
        ∙ sym e'

-- A canonical context stays so when an object is asked for.
pub try_emplace-cases :
    (k : TypeObject) (c : AstContext)
    → ((i : ℕ) × (get_elem? c.objects i ≡ some k) × (try_emplace k c ≡ (some i, c)))
      ⊎ ((probe k 0 c.objects ≡ none)
          × (try_emplace k c ≡ (some (length c.objects), record { objects = c.objects ++ k ∷ [] })))
unfolding try_emplace
try_emplace-cases k c = elim (Option-cases (probe k 0 c.objects)) [
  | inl e ↦ inr (e, rw (e, try_emplace) refl)
  | inr (i, e) ↦
      let (n, at, there) = probe-found k 0 c.objects i e in
      let same : i ≡ n = omega arith in
      inl
        (i, subst (λ x. get_elem? c.objects x ≡ some k) (sym same) there, rw (e, try_emplace) refl)
]

push-IsCanonical :
    (k : TypeObject) (c : AstContext)
    → IsCanonical c
    → probe k 0 c.objects ≡ none
    → IsCanonical (record { objects = c.objects ++ k ∷ [] })
unfolding IsCanonical
push-IsCanonical k c h missing i j o e e' =
    let nowhere = λ (n : ℕ). probe-missing k 0 c.objects n missing in
    elim (get_elem?-concat c.objects k o i e) [
      | inl old ↦ elim (get_elem?-concat c.objects k o j e') [
        | inl old' ↦ h i j o old old'
        | inr (at', new') ↦ absurd (nowhere i (cc (old, new')))
      ]
      | inr (at, new) ↦ elim (get_elem?-concat c.objects k o j e') [
        | inl old' ↦ absurd (nowhere j (cc (old', new)))
        | inr (at', new') ↦ at ∙ sym at'
      ]
    ]

pub try_emplace-IsCanonical :
    (k : TypeObject) (c : AstContext) → IsCanonical c → IsCanonical (try_emplace k c).1
try_emplace-IsCanonical k c h = elim (try_emplace-cases k c) [
  | inl (n, there, same) ↦ rw same h
  | inr (missing, same) ↦ rw same (push-IsCanonical k c h missing)
]

-- The builtin types are made in the order of their kinds.
Numbered : ℕ → List TypeKind → Type 0
Numbered n [] = Unit {0}
Numbered n (k ∷ ks) = (kind_value k ≡ n) × Numbered (suc n) ks

Numbered-at :
    (n : ℕ) (ks : List TypeKind) (i : ℕ) (o : TypeObject)
    → Numbered n ks
    → get_elem? (map builtin_object ks) i ≡ some o
    → (k : TypeKind) × (o ≡ builtin_object k) × (kind_value k ≡ n + i)
unfolding Numbered
Numbered-at n [] i o h e = absurd (cc e)
Numbered-at n (k ∷ ks) zero o (at, h) e = (k, sym (some-injective e), omega arith)
Numbered-at n (k ∷ ks) (suc i) o (at, h) e =
    let (k', same, at') = Numbered-at (suc n) ks i o h e in (k', same, omega arith)

builtins-Numbered : Numbered 0 builtin_kinds
unfolding Numbered kind_value
builtins-Numbered = omega arith

pub new_context-IsCanonical : IsCanonical new_context
unfolding IsCanonical new_context
new_context-IsCanonical i j o e e' =
    let (k, same, at) = Numbered-at 0 builtin_kinds i o builtins-Numbered e in
    let (k', same', at') = Numbered-at 0 builtin_kinds j o builtins-Numbered e' in
    let one : builtin_object k ≡ builtin_object k' = sym same ∙ same' in
    let kinds : kind_value k ≡ kind_value k' = cc one in omega arith
