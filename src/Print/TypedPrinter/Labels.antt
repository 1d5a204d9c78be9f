-- ===== src/Print/TypedPrinter/Labels.antt =====
-- lib/AST/TypedASTPrinter.cpp: the line of each node.
use trsc.Common.{
  ltb, if◌then◌else◌, Bytes, codes, ℕ, ◌*◌, ◌^◌, String, Bool, true, false, Option, none, some,
  List, [], ◌∷◌, ◌++◌,
}
use trsc.Lex.Token.{TokenKind, get_token_name}
use trsc.Ast.{Expr, is_null_expr}
use trsc.Types.QualType.{QualType, is_null}
use trsc.Print.Digits.{decimal}
use trsc.Print.Pieces.{Piece, get_as_string, var_name, text, place, address, undefined}

abbrev pub str : String → Piece
str s = text (codes s)

-- `printNodeHeader`
unfoldable pub print_node_header : String → List Piece
print_node_header name = str name ∷ str " " ∷ place ∷ []

unfoldable pub get_type_string : QualType → Bytes
unfolding is_null get_as_string
get_type_string t = if is_null t then [] else codes " '" ++ (get_as_string t ++ codes "'")

-- A node without an own text.
unfoldable pub plain_line : String → List Piece
unfolding print_node_header
plain_line name = print_node_header name ++ str "\n" ∷ []

-- An expression, with its type and then a text of its own.
unfoldable pub expr_line : String → QualType → List Piece → List Piece
unfolding print_node_header get_type_string
expr_line name t own = print_node_header name ++ (text (get_type_string t) ∷ (own ++ str "\n" ∷ []))

unfoldable pub quoted : List Piece → List Piece
quoted ps = str " '" ∷ (ps ++ str "'" ∷ [])

unfoldable pub type_line : String → List Piece → List Piece
unfolding print_node_header quoted
type_line kind name = print_node_header kind ++ (quoted name ++ str "\n" ∷ [])

unfoldable pub let_line : Bool → List Piece
unfolding print_node_header
let_line m =
    print_node_header "LetStmt" ++ str " " ∷ (if m then str "mut" else str "immut") ∷ str "\n" ∷ []

-- The name of a function, where it is not null.
unfoldable pub function_name : Expr → List Piece
unfolding is_null_expr quoted var_name
function_name e = if is_null_expr e then [] else quoted (var_name e)

unfoldable pub func_decl_line : Expr → List Piece
unfolding print_node_header function_name
func_decl_line name = print_node_header "FuncDecl" ++ (function_name name ++ str "\n" ∷ [])

unfoldable pub param_line : List Piece
param_line = str "Param " ∷ address ∷ str "\n" ∷ []

unfoldable pub fun_call_line : Expr → QualType → List Piece
unfolding print_node_header function_name get_type_string
fun_call_line name t =
    print_node_header "FunCall" ++ (function_name name ++ text (get_type_string t) ∷ str "\n" ∷ [])

unfoldable pub macro_call_line : Bytes → Bytes → Bool → QualType → List Piece
unfolding print_node_header get_type_string
macro_call_line name format has_format t =
    print_node_header "MacroCall"
    ++ (str " '"
        ∷ text name
        ∷ str "!'"
        ∷ ((if has_format then str " format='" ∷ text format ∷ str "'" ∷ [] else [])
            ++ text (get_type_string t) ∷ str "\n" ∷ []))

-- The numbers, with `, ` between two.
unfoldable pub shape_text : List ℕ → Bytes
unfolding decimal
shape_text [] = []
shape_text (d ∷ []) = decimal d
shape_text (d ∷ (e ∷ ds)) = decimal d ++ (codes ", " ++ shape_text (e ∷ ds))

-- The product of the dimensions, an `int64_t`, whose overflow is not defined.
unfoldable pub total_of : ℕ → List ℕ → Option ℕ
total_of total [] = some total
total_of total (d ∷ ds) = elim (ltb (total * d) (2 ^ 63)) [
  | true ↦ total_of (total * d) ds
  | false ↦ none
]

unfoldable pub total_text : Option ℕ → Piece
unfolding decimal
total_text (some n) = text (decimal n)
total_text none = undefined

unfoldable pub array_line : QualType → List ℕ → List Piece
unfolding print_node_header get_type_string shape_text total_of total_text
array_line t shape =
    print_node_header "ArrayExpr"
    ++ text (get_type_string t)
      ∷ str " shape=["
      ∷ text (shape_text shape)
      ∷ str "]"
      ∷ str " ("
      ∷ total_text (total_of 1 shape)
      ∷ str " elements)"
      ∷ str "\n"
      ∷ []

unfoldable pub more_elements_line : ℕ → List Piece
unfolding decimal
more_elements_line n = str "... (" ∷ text (decimal n) ∷ str " more elements)\n" ∷ []

unfoldable pub index_text : ℕ → List Piece
unfolding decimal
index_text i = str "[" ∷ text (decimal i) ∷ str "] " ∷ []

unfoldable pub operator_text : TokenKind → List Piece
unfolding quoted get_token_name
operator_text op = quoted (text (codes (get_token_name op)) ∷ [])
