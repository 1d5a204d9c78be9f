-- ===== src/Print/Pieces.antt =====
-- What a printer writes: text, and what depends on where a node lies in memory and in the source.
use trsc.Common.{
  ◌==◌, if◌then◌else◌, Bytes, codes, ℕ, suc, Bool, ◌&&◌, not, Option, none, some, List, [], ◌∷◌,
  ◌++◌,
}
use trsc.Ast.{
  TypeNode, Expr, null_type, type_name, pointer_type_name, reference_type_name, array_type_name,
  expr, var_node,
}
use trsc.Lex.Token.{IdentifierInfo}
use trsc.Types.QualType.{
  QualType, QualTypes, null, builtin, pointer, reference, array, function, nil, cons,
}
use trsc.Types.Builtins.{builtin_name}
use trsc.Print.Digits.{decimal, hexadecimal}

-- A piece of output. `place` stands for the address and the location of the node that is printed,
-- `address` for an address only, `double` for the value of a literal, and `undefined` for a
-- null pointer that is followed: what is printed from there is not defined.
pub data Piece : Type 0 where
  text : Bytes → Piece
  place address undefined : Piece
  double : Bytes → Piece

pub record SourceLocation : Type 0 where
  pub has_file : Bool
  pub line : ℕ
  pub column : ℕ

pub record Place : Type 0 where
  pub at : ℕ
  pub range_start : SourceLocation
  pub range_end : SourceLocation

unfoldable pub get_address_string : ℕ → Bytes
unfolding hexadecimal
get_address_string p = codes "0x" ++ hexadecimal p

unfoldable pub as_string : SourceLocation → Bytes
unfolding decimal
as_string l = decimal l.line ++ (codes ":" ++ decimal l.column)

unfoldable pub same_location : SourceLocation → SourceLocation → Bool
same_location a b = a.line == b.line && a.column == b.column

unfoldable pub get_location_string : Place → Bytes
unfolding as_string same_location
get_location_string p =
    (if p.range_start.has_file && p.range_end.has_file
      then codes "<" ++ as_string p.range_start
      else [])
    ++ ((if not (same_location p.range_start p.range_end)
          then codes ", " ++ as_string p.range_end
          else [])
        ++ codes ">")

unfoldable pub before : Bytes → Option Bytes → Option Bytes
before s none = none
before s (some r) = some (s ++ r)

-- The bytes that the pieces stand for, given the places of the nodes in the order in which they are
-- printed, and what the stream writes of a `double`.
unfoldable pub fill : (ℕ → Place) → (Bytes → Bytes) → ℕ → List Piece → Option Bytes
unfolding before get_address_string get_location_string
fill places show_double i [] = some []
fill places show_double i (text s ∷ ps) = before s (fill places show_double i ps)
fill places show_double i (double d ∷ ps) = before (show_double d) (fill places show_double i ps)
fill places show_double i (undefined ∷ ps) = none
fill places show_double i (address ∷ ps) =
    before (get_address_string (places i).at) (fill places show_double (suc i) ps)
fill places show_double i (place ∷ ps) =
    before (get_address_string (places i).at ++ (codes " " ++ get_location_string (places i)))
      (fill places show_double (suc i) ps)

-- The spelling of a type, which its constructor builds, and `getAsString`.
unfoldable mutual
  unfolding builtin_name decimal

  pub get_as_string : QualType → Bytes
  get_as_string null = codes "Unresolved Type"
  get_as_string (builtin k) = builtin_name k
  get_as_string (pointer t m) = (if m then codes "*mut " else codes "*const ") ++ get_as_string t
  get_as_string (reference t m) = (if m then codes "&mut" else codes "&") ++ get_as_string t
  get_as_string (array t n) =
      codes "[" ++ (get_as_string t ++ (codes "; " ++ (decimal n ++ codes "]")))
  get_as_string (function r ps) = codes "(" ++ (build_name ps ++ (codes ") -> " ++ get_as_string r))

  -- The parameters, each with a comma behind it.
  pub build_name : QualTypes → Bytes
  build_name nil = []
  build_name (cons t ts) = get_as_string t ++ (codes "," ++ build_name ts)

-- `getName` of an identifier, through a pointer.
unfoldable pub identifier_name : Option IdentifierInfo → List Piece
identifier_name (some i) = text i.name ∷ []
identifier_name none = undefined ∷ []

-- `getName` of a `VarExpr`.
unfoldable pub var_name : Expr → List Piece
unfolding identifier_name
var_name (expr t (var_node i symbol)) = identifier_name i
var_name _ = undefined ∷ []

-- `getName` of the classes of `Type`.
unfoldable pub get_type_name : TypeNode → List Piece
unfolding identifier_name decimal
get_type_name null_type = undefined ∷ []
get_type_name (type_name i) = identifier_name i
get_type_name (pointer_type_name t m) =
    text (if m then codes "*mut " else codes "*const ") ∷ get_type_name t
get_type_name (reference_type_name t m) =
    text (if m then codes "&mut " else codes "&") ∷ get_type_name t
get_type_name (array_type_name t n) =
    text (codes "[") ∷ (get_type_name t ++ text (codes "; " ++ (decimal n ++ codes "]")) ∷ [])
