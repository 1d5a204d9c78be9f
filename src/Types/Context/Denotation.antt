-- ===== src/Types/Context/Denotation.antt =====
-- The types that the objects of the context stand for.
use trsc.Common.{
  ==_refl, Bool-cases, and_join, some-injective, get_elem?, ℕ, zero, suc, ◌+◌, ◌≡◌, refl, sym, ap,
  subst, ◌≢◌, ◌↔◌, inl, inr, true, none, some, List, [], ◌∷◌, arith,
}
use trsc.Types.QualType.{
  QualType, QualTypes, null, builtin, pointer, reference, array, function, nil, cons,
}
use trsc.Types.QualTypeEq.{kind_eq_iff, bool_eq_iff}
use trsc.Types.Context.{
  TypePtr, TypeObject, AstContext, ptr_eq, ptrs_eq, key_eq, probe, builtin_object, pointer_object,
  reference_object, array_object, function_object,
}

-- A pointer leads to a type: null to the null type, an address to the type of the object that lies there.
unfoldable mutual
  pub Denotes : AstContext → TypePtr → QualType → Type 0
  Denotes c a null = a ≡ none
  Denotes c a (builtin k) =
      (i : ℕ) × (a ≡ some i) × (get_elem? c.objects i ≡ some (builtin_object k))
  Denotes c a (pointer t m) =
      (i : ℕ) × (p : TypePtr) × (a ≡ some i)
      × (get_elem? c.objects i ≡ some (pointer_object p m))
      × Denotes c p t
  Denotes c a (reference t m) =
      (i : ℕ) × (p : TypePtr) × (a ≡ some i)
      × (get_elem? c.objects i ≡ some (reference_object p m))
      × Denotes c p t
  Denotes c a (array t n) =
      (i : ℕ) × (p : TypePtr) × (a ≡ some i)
      × (get_elem? c.objects i ≡ some (array_object p n))
      × Denotes c p t
  Denotes c a (function t ts) =
      (i : ℕ) × (p : TypePtr) × (ps : List TypePtr) × (a ≡ some i)
      × (get_elem? c.objects i ≡ some (function_object p ps))
      × Denotes c p t
      × DenoteAll c ps ts

  pub DenoteAll : AstContext → List TypePtr → QualTypes → Type 0
  DenoteAll c ps nil = ps ≡ []
  DenoteAll c ps (cons t ts) =
      (p : TypePtr) × (rest : List TypePtr) × (ps ≡ p ∷ rest) × Denotes c p t × DenoteAll c rest ts

pub ptr_eq_iff : (a b : TypePtr) → (ptr_eq a b ≡ true) ↔ (a ≡ b)
unfolding ptr_eq
ptr_eq_iff none none = (λ e. refl, λ e. refl)
ptr_eq_iff (some a) (some b) = ground arith
ptr_eq_iff none (some b) = (λ e. cc, λ e. cc)
ptr_eq_iff (some a) none = (λ e. cc, λ e. cc)

ptrs_eq_iff : (qs rs : List TypePtr) → (ptrs_eq qs rs ≡ true) ↔ (qs ≡ rs)
unfolding ptrs_eq
ptrs_eq_iff [] [] = (λ e. refl, λ e. refl)
ptrs_eq_iff (a ∷ qs) (b ∷ rs) = ground (arith, ptr_eq_iff a b, ptrs_eq_iff qs rs)
ptrs_eq_iff [] (b ∷ rs) = (λ e. cc, λ e. cc)
ptrs_eq_iff (a ∷ qs) [] = (λ e. cc, λ e. cc)

key_eq_sound : (o k : TypeObject) → key_eq o k ≡ true → o ≡ k
unfolding key_eq
key_eq_sound (builtin_object k) (builtin_object k') h = ap builtin_object ((kind_eq_iff k k').0 h)
key_eq_sound (pointer_object p m) (pointer_object p' m') h =
    ground (arith, ptr_eq_iff p p', bool_eq_iff m m')
key_eq_sound (reference_object p m) (reference_object p' m') h =
    ground (arith, ptr_eq_iff p p', bool_eq_iff m m')
key_eq_sound (array_object p n) (array_object p' n') h = ground (arith, ptr_eq_iff p p')
key_eq_sound (function_object p ps) (function_object p' ps') h =
    ground (arith, ptr_eq_iff p p', ptrs_eq_iff ps ps')
key_eq_sound _ _ h = cc

key_eq_refl : (k : TypeObject) → key_eq k k ≡ true
unfolding key_eq
key_eq_refl (builtin_object k) = (kind_eq_iff k k).1 refl
key_eq_refl (pointer_object p m) = and_join _ _ ((ptr_eq_iff p p).1 refl) ((bool_eq_iff m m).1 refl)
key_eq_refl (reference_object p m) =
    and_join _ _ ((ptr_eq_iff p p).1 refl) ((bool_eq_iff m m).1 refl)
key_eq_refl (array_object p n) = and_join _ _ ((ptr_eq_iff p p).1 refl) (==_refl n)
key_eq_refl (function_object p ps) =
    and_join _ _ ((ptr_eq_iff p p).1 refl) ((ptrs_eq_iff ps ps).1 refl)

-- What a probe finds lies at the address, and what it does not find lies nowhere.
pub probe-found :
    (k : TypeObject) (i : ℕ) (os : List TypeObject) (j : ℕ)
    → probe k i os ≡ some j
    → (n : ℕ) × (j ≡ i + n) × (get_elem? os n ≡ some k)
unfolding probe
probe-found k i [] j e = absurd (cc e)
probe-found k i (o ∷ os) j e = elim (Bool-cases (key_eq o k)) [
  | inl hit ↦ let at : i ≡ j = ground arith in (0, omega arith, ap some (key_eq_sound o k hit))
  | inr miss ↦
      let (n, at, there) = probe-found k (suc i) os j (ground arith) in (suc n, omega arith, there)
]

pub probe-missing :
    (k : TypeObject) (i : ℕ) (os : List TypeObject) (n : ℕ)
    → probe k i os ≡ none
    → get_elem? os n ≢ some k
unfolding probe
probe-missing k i [] n e h = cc
probe-missing k i (o ∷ os) zero e h =
    let hit : key_eq o k ≡ true =
      subst (λ x. key_eq x k ≡ true) (sym (some-injective h)) (key_eq_refl k) in
    absurd (ground (arith, hit))
probe-missing k i (o ∷ os) (suc n) e h = probe-missing k (suc i) os n (ground arith) h
