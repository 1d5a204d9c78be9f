-- ===== src/Types/Builtins.antt =====
-- QualType.h and ASTContext.cpp: the names of the builtin types, and the map from the names.
use trsc.Common.{if◌then◌else◌, Bytes, codes, bytes_eq, List, [], ◌∷◌}
use trsc.Types.QualType.{
  TypeKind, QualType, u8, u16, u32, u64, u128, usize, i8, i16, i32, i64, i128, isize, f32, f64,
  bool, char, string, unit, null, builtin,
}

-- The last argument of the constructors of the builtin types.
unfoldable pub builtin_name : TypeKind → Bytes
builtin_name u8 = codes "u8"
builtin_name u16 = codes "u16"
builtin_name u32 = codes "u32"
builtin_name u64 = codes "u64"
builtin_name u128 = codes "u128"
builtin_name usize = codes "usize"
builtin_name i8 = codes "i8"
builtin_name i16 = codes "i16"
builtin_name i32 = codes "i32"
builtin_name i64 = codes "i64"
builtin_name i128 = codes "i128"
builtin_name isize = codes "isize"
builtin_name f32 = codes "f32"
builtin_name f64 = codes "f64"
builtin_name bool = codes "bool"
builtin_name char = codes "char"
builtin_name string = codes "string"
builtin_name unit = codes "()"
builtin_name _ = []

-- The list in the constructor of the context.
abbrev pub builtin_kinds : List TypeKind
builtin_kinds =
    u8 ∷ u16 ∷ u32 ∷ u64 ∷ u128 ∷ usize ∷ i8 ∷ i16 ∷ i32 ∷ i64 ∷ i128 ∷ isize ∷ f32 ∷ f64 ∷ bool
    ∷ char ∷ string ∷ unit ∷ []

-- `TypeMap.find`, in the entries that the constructor makes of the list.
unfoldable pub find_type : List TypeKind → Bytes → QualType
unfolding builtin_name
find_type [] name = null
find_type (k ∷ ks) name = if bytes_eq (builtin_name k) name then builtin k else find_type ks name

unfoldable pub get_type_by_name : Bytes → QualType
unfolding find_type
get_type_by_name = find_type builtin_kinds
