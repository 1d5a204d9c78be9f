-- ===== src/Types/QualType.antt =====
-- QualType.h and QualType.cpp: the kinds of types, and the queries of a `QualType`.
use trsc.Common.{
  leb, ◌==◌, bool_eq, ℕ, ◌*◌, ◌%◌, ◌^◌, Bool, true, false, not, ◌&&◌, ◌||◌, Option, none, some,
}

pub data TypeKind : Type 0 where
  u8 u16 u32 u64 u128 usize : TypeKind
  i8 i16 i32 i64 i128 isize : TypeKind
  f32 f64 : TypeKind
  bool char string unit : TypeKind
  pointer_kind reference_kind function_kind array_kind : TypeKind

-- The value of an enumerator.
unfoldable pub kind_value : TypeKind → ℕ
kind_value u8 = 0
kind_value u16 = 1
kind_value u32 = 2
kind_value u64 = 3
kind_value u128 = 4
kind_value usize = 5
kind_value i8 = 6
kind_value i16 = 7
kind_value i32 = 8
kind_value i64 = 9
kind_value i128 = 10
kind_value isize = 11
kind_value f32 = 12
kind_value f64 = 13
kind_value bool = 14
kind_value char = 15
kind_value string = 16
kind_value unit = 17
kind_value pointer_kind = 18
kind_value reference_kind = 19
kind_value function_kind = 20
kind_value array_kind = 21

-- A `QualType`: null, or the type that its pointer leads to. The context holds one object for each
-- type, so the pointers are compared as the types are. `builtin` is meant at the
-- kinds of the builtin leaf types.
mutual
  pub data QualType : Type 0 where
    null : QualType
    builtin : TypeKind → QualType
    pointer : QualType → Bool → QualType
    reference : QualType → Bool → QualType
    array : QualType → ℕ → QualType
    function : QualType → QualTypes → QualType

  pub data QualTypes : Type 0 where
    nil : QualTypes
    cons : QualType → QualTypes → QualTypes

-- `getKind`, of a type that is not null.
unfoldable pub get_kind : QualType → Option TypeKind
get_kind null = none
get_kind (builtin k) = some k
get_kind (pointer _ _) = some pointer_kind
get_kind (reference _ _) = some reference_kind
get_kind (array _ _) = some array_kind
get_kind (function _ _) = some function_kind

unfoldable pub kind_eq : TypeKind → TypeKind → Bool
unfolding kind_value
kind_eq k k' = kind_value k == kind_value k'

-- `TypePtr && TypePtr->p()`
unfoldable pub has_kind : (TypeKind → Bool) → QualType → Bool
unfolding get_kind
has_kind p t = elim (get_kind t) [ none ↦ false | some k ↦ p k ]

unfoldable pub is_integer : TypeKind → Bool
unfolding kind_value
is_integer k = leb (kind_value u8) (kind_value k) && leb (kind_value k) (kind_value isize)

unfoldable pub is_signed : TypeKind → Bool
unfolding kind_value
is_signed k = leb (kind_value i8) (kind_value k) && leb (kind_value k) (kind_value isize)

unfoldable pub is_floating : TypeKind → Bool
unfolding kind_eq
is_floating k = kind_eq k f32 || kind_eq k f64

unfoldable pub is_integer_type : QualType → Bool
unfolding has_kind is_integer
is_integer_type = has_kind is_integer

unfoldable pub is_floating_type : QualType → Bool
unfolding has_kind is_floating
is_floating_type = has_kind is_floating

unfoldable pub is_signed_integer_type : QualType → Bool
unfolding has_kind is_signed
is_signed_integer_type = has_kind is_signed

unfoldable pub is_unsigned_integer_type : QualType → Bool
unfolding has_kind is_integer is_signed
is_unsigned_integer_type = has_kind (λ k. is_integer k && not (is_signed k))

unfoldable pub is_boolean_type : QualType → Bool
unfolding has_kind kind_eq
is_boolean_type = has_kind (λ k. kind_eq k bool)

unfoldable pub is_string_type : QualType → Bool
unfolding has_kind kind_eq
is_string_type = has_kind (λ k. kind_eq k string)

unfoldable pub is_numeric_type : QualType → Bool
unfolding has_kind is_integer is_floating
is_numeric_type = has_kind (λ k. is_integer k || is_floating k)

unfoldable pub is_pointer_type : QualType → Bool
unfolding has_kind kind_eq
is_pointer_type = has_kind (λ k. kind_eq k pointer_kind)

unfoldable pub is_reference_type : QualType → Bool
unfolding has_kind kind_eq
is_reference_type = has_kind (λ k. kind_eq k reference_kind)

unfoldable pub is_unit_type : QualType → Bool
unfolding has_kind kind_eq
is_unit_type = has_kind (λ k. kind_eq k unit)

unfoldable pub is_array_type : QualType → Bool
unfolding has_kind kind_eq
is_array_type = has_kind (λ k. kind_eq k array_kind)

unfoldable pub is_function_type : QualType → Bool
unfolding has_kind kind_eq
is_function_type = has_kind (λ k. kind_eq k function_kind)

unfoldable pub is_null : QualType → Bool
is_null null = true
is_null _ = false

unfoldable pub get_return_type : QualType → QualType
get_return_type (function r ps) = r
get_return_type _ = null

unfoldable pub get_params_type : QualType → QualTypes
get_params_type (function r ps) = ps
get_params_type _ = nil

unfoldable pub get_base_type : QualType → QualType
get_base_type (pointer t _) = t
get_base_type (reference t _) = t
get_base_type (array t _) = t
get_base_type _ = null

-- The sizes and alignments that the constructors of the builtin types pass on, on a machine whose
-- pointers and `size_t` have eight bytes.
unfoldable pub builtin_size : TypeKind → ℕ
builtin_size u8 = 1
builtin_size u16 = 2
builtin_size u32 = 4
builtin_size u64 = 8
builtin_size u128 = 16
builtin_size usize = 8
builtin_size i8 = 1
builtin_size i16 = 2
builtin_size i32 = 4
builtin_size i64 = 8
builtin_size i128 = 16
builtin_size isize = 8
builtin_size f32 = 4
builtin_size f64 = 8
builtin_size bool = 1
builtin_size char = 4
builtin_size string = 24
builtin_size _ = 0

unfoldable pub builtin_alignment : TypeKind → ℕ
unfolding builtin_size
builtin_alignment string = 8
builtin_alignment k = builtin_size k

-- The size of an array is a `size_t`, and wraps.
unfoldable pub get_size_in_bytes : QualType → ℕ
get_size_in_bytes null = 0
get_size_in_bytes (builtin k) = builtin_size k
get_size_in_bytes (pointer _ _) = 8
get_size_in_bytes (reference _ _) = 8
get_size_in_bytes (array t n) = (get_size_in_bytes t * n) % 2 ^ 64
get_size_in_bytes (function _ _) = 0

unfoldable pub get_alignment : QualType → ℕ
get_alignment null = 0
get_alignment (builtin k) = builtin_alignment k
get_alignment (pointer _ _) = 8
get_alignment (reference _ _) = 8
get_alignment (array t n) = get_alignment t
get_alignment (function _ _) = 0

-- The comparison of two `QualType`s, which are trees here; Types/Context has that of addresses.
unfoldable mutual
  unfolding kind_eq

  pub type_eq : QualType → QualType → Bool
  type_eq null null = true
  type_eq (builtin k) (builtin k') = kind_eq k k'
  type_eq (pointer t m) (pointer t' m') = type_eq t t' && bool_eq m m'
  type_eq (reference t m) (reference t' m') = type_eq t t' && bool_eq m m'
  type_eq (array t n) (array t' n') = type_eq t t' && n == n'
  type_eq (function r ps) (function r' ps') = type_eq r r' && types_eq ps ps'
  type_eq _ _ = false

  pub types_eq : QualTypes → QualTypes → Bool
  types_eq nil nil = true
  types_eq (cons t ts) (cons t' ts') = type_eq t t' && types_eq ts ts'
  types_eq _ _ = false
