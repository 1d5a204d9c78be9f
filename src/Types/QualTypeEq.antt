-- ===== src/Types/QualTypeEq.antt =====
-- Two types are found equal exactly when they are the same type.
use trsc.Common.{
  ◌==◌, ==_iff, ==_refl, bool_eq, and_split, and_join, get_or, ℕ, ◌≡◌, refl, sym, ap, ◌∙◌, ◌↔◌,
  Bool, true, [], ◌∷◌, arith,
}
use trsc.Types.QualType.{
  TypeKind, kind_value, QualType, QualTypes, kind_eq, type_eq, types_eq, u8, u16, u32, u64, u128,
  usize, i8, i16, i32, i64, i128, isize, f32, f64, bool, char, string, unit, pointer_kind,
  reference_kind, function_kind, array_kind, null, builtin, pointer, reference, array, function,
  nil, cons,
}

kind_of : ℕ → TypeKind
kind_of n =
    get_or
      (u8 ∷ u16 ∷ u32 ∷ u64 ∷ u128 ∷ usize ∷ i8 ∷ i16 ∷ i32 ∷ i64 ∷ i128 ∷ isize ∷ f32 ∷ f64 ∷ bool
        ∷ char ∷ string ∷ unit ∷ pointer_kind ∷ reference_kind ∷ function_kind ∷ array_kind ∷ [])
      n u8

kind_of-kind_value : (k : TypeKind) → kind_of (kind_value k) ≡ k
unfolding kind_of kind_value
kind_of-kind_value u8 = refl
kind_of-kind_value _ = refl

pub kind_eq_iff : (k k' : TypeKind) → (kind_eq k k' ≡ true) ↔ (k ≡ k')
unfolding kind_eq
kind_eq_iff k k' = (
  λ h.
      sym (kind_of-kind_value k)
      ∙ ap kind_of ((==_iff (kind_value k) (kind_value k')).0 h)
      ∙ kind_of-kind_value k',
  λ e. rw e (==_refl (kind_value k')),
)

pub bool_eq_iff : (a b : Bool) → (bool_eq a b ≡ true) ↔ (a ≡ b)
bool_eq_iff a b = ground arith

mutual
  unfolding type_eq

  type_eq_sound : (t t' : QualType) → type_eq t t' ≡ true → t ≡ t'
  type_eq_sound null null h = refl
  type_eq_sound (builtin k) (builtin k') h = ap builtin ((kind_eq_iff k k').0 h)
  type_eq_sound (pointer t m) (pointer t' m') h =
      let (p, q) = and_split (type_eq t t') (bool_eq m m') h in
      cc (type_eq_sound t t' p, (bool_eq_iff m m').0 q)
  type_eq_sound (reference t m) (reference t' m') h =
      let (p, q) = and_split (type_eq t t') (bool_eq m m') h in
      cc (type_eq_sound t t' p, (bool_eq_iff m m').0 q)
  type_eq_sound (array t n) (array t' n') h =
      let (p, q) = and_split (type_eq t t') (n == n') h in
      cc (type_eq_sound t t' p, (==_iff n n').0 q)
  type_eq_sound (function r ps) (function r' ps') h =
      let (p, q) = and_split (type_eq r r') (types_eq ps ps') h in
      cc (type_eq_sound r r' p, types_eq_sound ps ps' q)
  type_eq_sound _ _ h = cc

  types_eq_sound : (ts ts' : QualTypes) → types_eq ts ts' ≡ true → ts ≡ ts'
  types_eq_sound nil nil h = refl
  types_eq_sound (cons t ts) (cons t' ts') h =
      let (p, q) = and_split (type_eq t t') (types_eq ts ts') h in
      cc (type_eq_sound t t' p, types_eq_sound ts ts' q)
  types_eq_sound _ _ h = cc

mutual
  unfolding type_eq

  type_eq_self : (t : QualType) → type_eq t t ≡ true
  type_eq_self null = refl
  type_eq_self (builtin k) = (kind_eq_iff k k).1 refl
  type_eq_self (pointer t m) = and_join _ _ (type_eq_self t) ((bool_eq_iff m m).1 refl)
  type_eq_self (reference t m) = and_join _ _ (type_eq_self t) ((bool_eq_iff m m).1 refl)
  type_eq_self (array t n) = and_join _ _ (type_eq_self t) (==_refl n)
  type_eq_self (function r ps) = and_join _ _ (type_eq_self r) (types_eq_self ps)

  types_eq_self : (ts : QualTypes) → types_eq ts ts ≡ true
  types_eq_self nil = refl
  types_eq_self (cons t ts) = and_join _ _ (type_eq_self t) (types_eq_self ts)

pub type_eq_refl : (t : QualType) → type_eq t t ≡ true
type_eq_refl = type_eq_self

-- The comparison of trees. That of addresses is in Types/Context/Addresses.
pub type_eq_iff : (t t' : QualType) → (type_eq t t' ≡ true) ↔ (t ≡ t')
type_eq_iff t t' = (type_eq_sound t t', λ e. rw e (type_eq_self t'))
