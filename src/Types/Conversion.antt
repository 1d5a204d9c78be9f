-- ===== src/Types/Conversion.antt =====
-- `ASTContext::areTypesCompatible` and `ASTContext::canConvert`.
use trsc.Common.{
  if◌then◌else◌, Option-cases, if_elim, and_split, or_split, ℕ, ◌≡◌, refl, ap, subst, ◌≢◌, ◌↔◌, ◌⊎◌,
  inl, inr, Bool, true, false, not, ◌&&◌, ◌||◌, arith,
}
use trsc.Types.QualTypeEq.{kind_eq_iff, type_eq_refl, type_eq_iff}
use trsc.Types.QualType.{
  QualType, get_kind, has_kind, is_integer_type, is_floating_type, is_boolean_type, is_numeric_type,
  is_array_type, is_null, get_base_type, type_eq, bool, null, builtin, array,
}

unfoldable pub are_types_compatible : QualType → QualType → Bool
are_types_compatible t1 t2 = if is_null t1 || is_null t2 then false else type_eq t1 t2

-- The tests of `canConvert` but the last, which is about arrays.
unfoldable pub converts_directly : QualType → QualType → Bool → Bool
unfolding are_types_compatible
converts_directly from to explicit =
    if are_types_compatible from to
    then true
    else if is_integer_type from && is_integer_type to
    then true
    else if is_floating_type from && is_floating_type to
    then true
    else if is_integer_type from && is_floating_type to
    then true
    else if explicit && is_floating_type from && is_integer_type to
    then true
    else if is_boolean_type from && is_boolean_type to
    then true
    else false

unfoldable pub can_convert : QualType → QualType → Bool → Bool
unfolding converts_directly
can_convert (array t n) to explicit =
    converts_directly (array t n) to explicit
    || (not explicit && is_array_type to && can_convert t (get_base_type to) explicit)
can_convert from to explicit = converts_directly from to explicit

unfoldable pub can_implicitly_convert : QualType → QualType → Bool
can_implicitly_convert from to = can_convert from to false

unfoldable pub can_explicitly_convert : QualType → QualType → Bool
can_explicitly_convert from to = can_convert from to true

-- The conversions that the language has, as rules. The flag says whether the conversion is explicit.
pub data Converts : Bool → QualType → QualType → Type 0 where
  same : {e : Bool} {t : QualType} → t ≢ null → Converts e t t
  number :
      {e : Bool} {from to : QualType}
      → is_numeric_type from ≡ true
      → is_numeric_type to ≡ true
      → (is_floating_type from ≡ true → is_integer_type to ≡ true → e ≡ true)
      → Converts e from to
  elementwise :
      {from to : QualType} (m n : ℕ)
      → Converts false from to
      → Converts false (array from m) (array to n)

numeric_or : (t : QualType) → is_numeric_type t ≡ (is_integer_type t || is_floating_type t)
unfolding is_numeric_type is_integer_type is_floating_type
numeric_or t = elim (Option-cases (get_kind t)) [
  | inl e ↦ rw (e, has_kind)
  | inr (k, e) ↦ rw (e, has_kind)
]

not_both : (t : QualType) → is_integer_type t ≡ true → is_floating_type t ≡ false
unfolding is_integer_type is_floating_type
not_both (builtin k) h = ground arith
not_both _ h = cc

boolean-eq : (t : QualType) → is_boolean_type t ≡ true → t ≡ builtin bool
unfolding is_boolean_type
boolean-eq (builtin k) h = ap builtin ((kind_eq_iff k bool).0 h)
boolean-eq _ h = cc

numeric :
    (t : QualType)
    → (is_integer_type t ≡ true) ⊎ (is_floating_type t ≡ true)
    → is_numeric_type t ≡ true
numeric t (inl h) = rw (numeric_or t, h)
numeric t (inr h) = let or = numeric_or t in ground (arith, or, h)

is_null-ne : (t : QualType) → is_null t ≡ false → t ≢ null
unfolding is_null
is_null-ne t h e = cc (h, ap is_null e)

compatible :
    (from to : QualType) (e : Bool) → are_types_compatible from to ≡ true → Converts e from to
unfolding are_types_compatible
compatible from to e =
    if_elim (λ (b : Bool). b ≡ true → Converts e from to) (is_null from || is_null to) (λ _ h. cc)
      λ n h.
        let eq = (type_eq_iff from to).0 h in
        subst (λ t. Converts e from t) eq (same (is_null-ne from (ground (arith, n))))

converts_directly-Converts :
    (from to : QualType) (e : Bool) → converts_directly from to e ≡ true → Converts e from to
unfolding converts_directly
converts_directly-Converts from to e =
    let P = λ (b : Bool). b ≡ true → Converts e from to in
    if_elim P (are_types_compatible from to) (λ c _. compatible from to e c)
      λ _.
        if_elim P (is_integer_type from && is_integer_type to)
          (λ c _.
            let (p, q) = and_split (is_integer_type from) (is_integer_type to) c in
            number (numeric from (inl p)) (numeric to (inl q)) (λ f _. cc (not_both from p, f)))
          λ _.
            if_elim P (is_floating_type from && is_floating_type to)
              (λ c _.
                let (p, q) = and_split (is_floating_type from) (is_floating_type to) c in
                number (numeric from (inr p)) (numeric to (inr q)) (λ _ i. cc (not_both to i, q)))
              λ _.
                if_elim P (is_integer_type from && is_floating_type to)
                  (λ c _.
                    let (p, q) = and_split (is_integer_type from) (is_floating_type to) c in
                    number (numeric from (inl p)) (numeric to (inr q))
                      (λ f _. cc (not_both from p, f)))
                  λ _.
                    if_elim P (e && is_floating_type from && is_integer_type to)
                      (λ c _.
                        let (r, q) =
                          and_split (e && is_floating_type from) (is_integer_type to) c in
                        let (x, p) = and_split e (is_floating_type from) r in
                        number (numeric from (inr p)) (numeric to (inl q)) (λ _ _. x))
                      λ _.
                        if_elim P (is_boolean_type from && is_boolean_type to)
                          (λ c _.
                            let (p, q) = and_split (is_boolean_type from) (is_boolean_type to) c in
                            rw (boolean-eq from p, boolean-eq to q) (same (λ z. cc)))
                          (λ _ h. cc)

null_facts :
    (is_integer_type null ≡ false)
    × (is_floating_type null ≡ false)
    × (is_boolean_type null ≡ false)
    × (is_array_type null ≡ false)
    × (is_null null ≡ true)
unfolding is_integer_type is_floating_type is_boolean_type is_array_type is_null
null_facts = (refl, refl, refl, refl, refl)

converts_directly-null : (t : QualType) (e : Bool) → converts_directly t null e ≡ false
unfolding converts_directly
converts_directly-null t e = ground (arith, null_facts)

can_convert-null : (t : QualType) (e : Bool) → can_convert t null e ≡ false
unfolding can_convert
can_convert-null (array t n) e = ground (arith, null_facts, converts_directly-null (array t n) e)
can_convert-null t e = converts_directly-null t e

-- What the last test of `canConvert` leaves: an array, whose elements are converted.
array_target :
    (t to : QualType) (e : Bool)
    → is_array_type to ≡ true
    → can_convert t (get_base_type to) e ≡ true
    → (u : QualType) × (n : ℕ) × (to ≡ array u n) × (can_convert t u e ≡ true)
unfolding is_array_type get_base_type
array_target t (array u n) e h c = (u, n, refl, c)
array_target t (builtin k) e h c = cc (c, can_convert-null t e)
array_target t _ e h c = cc

can_convert-Converts :
    (from to : QualType) (e : Bool) → can_convert from to e ≡ true → Converts e from to
unfolding can_convert
can_convert-Converts (array t n) to true h =
    elim (or_split (converts_directly (array t n) to true) _ h) [
      | inl d ↦ converts_directly-Converts (array t n) to true d
      | inr f ↦ cc (f)
    ]
can_convert-Converts (array t n) to false h =
    elim (or_split (converts_directly (array t n) to false) _ h) [
      | inl d ↦ converts_directly-Converts (array t n) to false d
      | inr both ↦
          let (a, c) = and_split (is_array_type to) (can_convert t (get_base_type to) false) both in
          let (u, m, e, c') = array_target t to false a c in
          rw e (elementwise n m (can_convert-Converts t u false c'))
    ]
can_convert-Converts from to e h = converts_directly-Converts from to e h

direct-can_convert :
    (from to : QualType) (e : Bool)
    → converts_directly from to e ≡ true
    → can_convert from to e ≡ true
unfolding can_convert
direct-can_convert (array t n) to e h = rw h
direct-can_convert _ to e h = h

numeric-converts_directly :
    (from to : QualType) (e : Bool)
    → is_numeric_type from ≡ true
    → is_numeric_type to ≡ true
    → (is_floating_type from ≡ true → is_integer_type to ≡ true → e ≡ true)
    → converts_directly from to e ≡ true
unfolding converts_directly
numeric-converts_directly from to e p q r = grind (arith, numeric_or from, numeric_or to)

same-converts_directly : (t : QualType) (e : Bool) → t ≢ null → converts_directly t t e ≡ true
unfolding converts_directly are_types_compatible is_null
same-converts_directly null e h = absurd (h refl)
same-converts_directly t e h = rw (type_eq_refl t)

Converts-can_convert :
    {from to : QualType} {e : Bool} → Converts e from to → can_convert from to e ≡ true
Converts-can_convert {from} {e = e} (same n) =
    direct-can_convert from from e (same-converts_directly from e n)
Converts-can_convert {from} {to} {e} (number p q r) =
    direct-can_convert from to e (numeric-converts_directly from to e p q r)
Converts-can_convert (elementwise {from = t} {to = u} m n c) =
    array_converts t u m n (Converts-can_convert c)
  where
    array_converts :
        (t u : QualType) (m n : ℕ)
        → can_convert t u false ≡ true
        → can_convert (array t m) (array u n) false ≡ true
    array_converts t u m n h = unfold can_convert is_array_type get_base_type in ground (arith, h)

-- `canConvert` decides the conversions of the rules: a type that is not null converts to itself, a
-- number type to any other, but a floating type to an integer type only explicitly, and an array type
-- implicitly, and not explicitly, to an array type of any length whose elements it converts to.
pub can_convert_iff :
    (from to : QualType) (e : Bool) → (can_convert from to e ≡ true) ↔ Converts e from to
can_convert_iff from to e = (can_convert-Converts from to e, Converts-can_convert)
