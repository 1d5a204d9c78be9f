-- ===== src/Types/Context.antt =====
-- ASTContext.cpp and QualType.h: the context as the owner of the types. Each of its maps owns the objects of
-- one class, under their keys; `objects` lists the objects of all of them as they were made, and the address of one is
-- its place. A pointer may be null.
pub mod Denotation
pub mod Uniqueness
pub mod Requests
pub mod Addresses
use trsc.Common.{
  ◌==◌, if◌then◌else◌, bool_eq, length, ℕ, suc, Bool, true, false, not, ◌&&◌, Option, none, some,
  List, [], ◌∷◌, ◌++◌, map,
}
use trsc.Types.QualType.{TypeKind, kind_eq}
use trsc.Types.Builtins.{builtin_kinds}

abbrev pub TypePtr : Type 0
TypePtr = Option ℕ

pub data TypeObject : Type 0 where
  builtin_object : TypeKind → TypeObject
  pointer_object : TypePtr → Bool → TypeObject
  reference_object : TypePtr → Bool → TypeObject
  array_object : TypePtr → ℕ → TypeObject
  function_object : TypePtr → List TypePtr → TypeObject

pub record AstContext : Type 0 where
  pub objects : List TypeObject

-- The comparison of two `QualType`s, and of the vectors of them.
unfoldable pub ptr_eq : TypePtr → TypePtr → Bool
ptr_eq none none = true
ptr_eq (some a) (some b) = a == b
ptr_eq _ _ = false

unfoldable pub ptrs_eq : List TypePtr → List TypePtr → Bool
unfolding ptr_eq
ptrs_eq [] [] = true
ptrs_eq (a ∷ qs) (b ∷ rs) = ptr_eq a b && ptrs_eq qs rs
ptrs_eq _ _ = false

-- The comparison of two keys of one map; the objects of two maps have no key in common.
unfoldable pub key_eq : TypeObject → TypeObject → Bool
unfolding ptr_eq ptrs_eq kind_eq
key_eq (builtin_object k) (builtin_object k') = kind_eq k k'
key_eq (pointer_object p m) (pointer_object p' m') = ptr_eq p p' && bool_eq m m'
key_eq (reference_object p m) (reference_object p' m') = ptr_eq p p' && bool_eq m m'
key_eq (array_object p n) (array_object p' n') = ptr_eq p p' && n == n'
key_eq (function_object p ps) (function_object p' ps') = ptr_eq p p' && ptrs_eq ps ps'
key_eq _ _ = false

-- The probe of a map, from the address given.
unfoldable pub probe : TypeObject → ℕ → List TypeObject → TypePtr
unfolding key_eq
probe k i [] = none
probe k i (o ∷ os) = if key_eq o k then some i else probe k (suc i) os

-- `try_emplace`, and the object that is made where the key was not there.
unfoldable pub try_emplace : TypeObject → AstContext → TypePtr × AstContext
unfolding probe
try_emplace k c = elim (probe k 0 c.objects) [
  | some i ↦ (some i, c)
  | none ↦ (some (length c.objects), record { objects = c.objects ++ k ∷ [] })
]

unfoldable pub get_pointer_type : TypePtr → Bool → AstContext → TypePtr × AstContext
unfolding try_emplace
get_pointer_type pointee m = try_emplace (pointer_object pointee m)

unfoldable pub get_reference_type : TypePtr → Bool → AstContext → TypePtr × AstContext
unfolding try_emplace
get_reference_type referent m = try_emplace (reference_object referent m)

unfoldable pub get_array_type : TypePtr → ℕ → AstContext → TypePtr × AstContext
unfolding try_emplace
get_array_type element n = try_emplace (array_object element n)

unfoldable pub get_function_type : TypePtr → List TypePtr → AstContext → TypePtr × AstContext
unfolding try_emplace
get_function_type result params = try_emplace (function_object result params)

-- The constructor: the builtin types are fields of the context.
unfoldable pub new_context : AstContext
new_context = record { objects = map builtin_object builtin_kinds }
