-- ===== src/Print/AstPrinter.antt =====
-- lib/AST/ASTPrinter.cpp: the state of the printer, and its visits.
pub mod Calls
pub mod Levels
use trsc.Common.{
  if◌then◌else◌, codes, ℕ, zero, suc, ◌+◌, ◌-◌, ◌%◌, ◌^◌, String, Bool, true, false, not, List, [],
  ◌∷◌, ◌++◌,
}
use trsc.Ast.{
  is_null_expr, TypeNode, Expr, ExprNode, Exprs, Stmt, Stmts, null_type, type_name,
  pointer_type_name, reference_type_name, array_type_name, null_expr, expr, int_node, float_node,
  bool_node, string_node, var_node, refr_node, bin_node, unary_node, as_node, array_node,
  array_access_node, range_node, fun_call_node, macro_call_node, no_exprs, add_expr, null_stmt,
  let_stmt, block_stmt, if_stmt, expr_stmt, for_stmt, while_stmt, func_decl, return_stmt, no_stmts,
  add_stmt, is_null_stmt,
}
use trsc.Lex.Token.{get_token_name}
use trsc.Print.Digits.{decimal}
use trsc.Print.Pieces.{Piece, text, double, undefined, identifier_name, var_name, get_type_name}

pub record AstPrinter : Type 0 where
  pub os : List Piece
  pub indent_level : ℕ

abbrev pub new_printer : AstPrinter
new_printer = record { os = []; indent_level = 0 }

abbrev pub Print : Type 0
Print = AstPrinter → AstPrinter

infixl 20 ◌▸◌
abbrev pub ◌▸◌ : Print → Print → Print
(f ▸ g) p = g (f p)

abbrev pub skip : Print
skip p = p

abbrev pub write : List Piece → Print
write ps p = record p { os = p.os ++ ps }

abbrev pub put : String → Print
put s = write (text (codes s) ∷ [])

-- `IndentLevel++` and `IndentLevel--`, on 32 bits.
unfoldable pub deeper : Print
deeper p = record p { indent_level = (p.indent_level + 1) % 2 ^ 32 }

unfoldable pub shallower : Print
shallower p = record p { indent_level = (p.indent_level + 2 ^ 32 - 1) % 2 ^ 32 }

unfoldable pub spaces : ℕ → List Piece
spaces zero = []
spaces (suc n) = text (codes "  ") ∷ spaces n

unfoldable pub indent : Print
unfolding spaces
indent p = write (spaces p.indent_level) p

unfoldable pub put_line : List Piece → Print
unfolding indent
put_line ps = indent ▸ write (ps ++ text (codes "\n") ∷ [])

unfoldable pub quoted_line : String → List Piece → Print
unfolding put_line
quoted_line kind ps = put_line (text (codes kind) ∷ (ps ++ text (codes "'") ∷ []))

-- The visits of the type nodes.
unfoldable pub visit_type : TypeNode → Print
unfolding quoted_line get_type_name
visit_type null_type = skip
visit_type (type_name i) = quoted_line "TypeName: '" (get_type_name (type_name i))
visit_type (pointer_type_name t m) =
    quoted_line "PointerTypeName: '" (get_type_name (pointer_type_name t m))
visit_type (reference_type_name t m) =
    quoted_line "ReferenceTypeName: '" (get_type_name (reference_type_name t m))
visit_type (array_type_name t n) =
    quoted_line "ArrayTypeName: '" (get_type_name (array_type_name t n))

-- `getValue` of the number of elements.
unfoldable pub trailing_dim : Expr → Piece
unfolding decimal
trailing_dim (expr t (int_node n)) = text (decimal n)
trailing_dim _ = undefined

unfoldable mutual
  unfolding visit_type put_line quoted_line deeper shallower indent decimal trailing_dim
      identifier_name var_name get_token_name

  pub visit_expr : Expr → Print
  visit_expr null_expr = skip
  visit_expr (expr t e) = visit_node e

  pub visit_node : ExprNode → Print
  visit_node (int_node n) = put_line (text (codes "IntExpr: ") ∷ text (decimal n) ∷ [])
  visit_node (float_node d) = put_line (text (codes "FloatExpr: ") ∷ double d ∷ [])
  visit_node (bool_node b) =
      put_line (text (codes "BoolExpr: ") ∷ text (if b then codes "true" else codes "false") ∷ [])
  visit_node (string_node s) =
      put_line (text (codes "StringExpr: \"") ∷ text s ∷ text (codes "\"") ∷ [])
  visit_node (var_node i symbol) = quoted_line "VarExpr: '" (identifier_name i)
  visit_node (refr_node e m) =
      put_line (text (codes "RefrExpr ") ∷ text (if m then codes "mut" else codes "non-mut") ∷ [])
      ▸ deeper
      ▸ visit_expr e
      ▸ shallower
  visit_node (bin_node op l r) =
      quoted_line "BinExpr: '" (text (codes (get_token_name op)) ∷ [])
      ▸ deeper
      ▸ visit_expr l
      ▸ visit_expr r
      ▸ shallower
  visit_node (unary_node op e) =
      quoted_line "UnaryExpr: '" (text (codes (get_token_name op)) ∷ [])
      ▸ deeper
      ▸ visit_expr e
      ▸ shallower
  visit_node (as_node e to) =
      put_line (text (codes "ASExpr: ") ∷ []) ▸ deeper ▸ visit_expr e ▸ visit_type to ▸ shallower
  visit_node (array_node es n shape) =
      put_line (text (codes "ArrayExpr: ") ∷ [])
      ▸ deeper
      ▸ visit_exprs es
      ▸ write (text (codes "NumElement: ") ∷ trailing_dim n ∷ text (codes "\n") ∷ [])
      ▸ shallower
  visit_node (array_access_node name es) =
      put_line (text (codes "ArrayAccessExpr: ") ∷ [])
      ▸ deeper
      ▸ visit_expr name
      ▸ put "Index: \n"
      ▸ visit_exprs es
      ▸ shallower
  visit_node (range_node inclusive from to) =
      put_line (text (codes "RangeExpr ") ∷ text (if inclusive then codes "1" else codes "0") ∷ [])
      ▸ deeper
      ▸ visit_expr from
      ▸ visit_expr to
      ▸ shallower
  -- The level is left and was not entered.
  visit_node (fun_call_node name es) =
      put_line (text (codes "FunCall") ∷ var_name name) ▸ visit_exprs es ▸ shallower
  visit_node (macro_call_node name format has_format es) =
      put_line (
        text (codes "MacroCall ")
        ∷ text name
        ∷ text (codes "!")
        ∷ (if has_format
            then text (codes " format='") ∷ text format ∷ text (codes "'") ∷ []
            else []))
      ▸ deeper
      ▸ visit_exprs es
      ▸ shallower

  -- A null pointer is passed over, with a test or by `visit`.
  pub visit_exprs : Exprs → Print
  visit_exprs no_exprs = skip
  visit_exprs (add_expr e es) = visit_expr e ▸ visit_exprs es

-- A part of an `if` or a `for`, whose title ends with no new line.
unfoldable pub titled : String → Print → Print
unfolding indent deeper shallower
titled title visit = indent ▸ put title ▸ deeper ▸ visit ▸ shallower

unfoldable mutual
  unfolding visit_expr visit_type put_line quoted_line deeper shallower indent titled is_null_expr
      is_null_stmt var_name

  pub visit_stmt : Stmt → Print
  visit_stmt null_stmt = skip
  visit_stmt (let_stmt m name type initializer) =
      put_line (text (codes "LetStmt") ∷ [])
      ▸ deeper
      ▸ visit_expr name
      ▸ visit_type type
      ▸ visit_expr initializer
      ▸ shallower
  visit_stmt (block_stmt ss) = deeper ▸ visit_stmts ss ▸ shallower
  visit_stmt (if_stmt c then_branch else_branch) =
      indent
      ▸ put "IfStmt: "
      ▸ deeper
      ▸ titled "Condition: " (visit_expr c)
      ▸ titled "Then: " (visit_stmt then_branch)
      ▸ (if is_null_stmt else_branch then skip else titled "Else:\n" (visit_stmt else_branch))
      ▸ shallower
  visit_stmt (expr_stmt e) =
      put_line (text (codes "ExprStmt") ∷ []) ▸ deeper ▸ visit_expr e ▸ shallower
  visit_stmt (for_stmt init range body) =
      indent
      ▸ put "ForStmt: "
      ▸ deeper
      ▸ (if is_null_expr init then skip else (put "Init: " ▸ visit_expr init))
      ▸ (if is_null_expr range then skip else titled "\nRange: " (visit_expr range))
      ▸ titled "Body: " (visit_stmt body)
      ▸ shallower
  visit_stmt (while_stmt c body) =
      put_line (text (codes "WhileStmt") ∷ [])
      ▸ deeper
      ▸ titled "Condition:\n" (visit_expr c)
      ▸ titled "Body:\n" (visit_stmt body)
      ▸ shallower
  visit_stmt (func_decl name return_type params body) =
      quoted_line "FuncDecl '" (var_name name) ▸ deeper ▸ visit_body body ▸ shallower
  visit_stmt (return_stmt e) = put_line (text (codes "ReturnStmt ") ∷ []) ▸ visit_expr e

  -- The body of a function is cast to a block.
  pub visit_body : Stmt → Print
  visit_body null_stmt = skip
  visit_body (block_stmt ss) = visit_stmts ss
  visit_body _ = write (undefined ∷ [])

  pub visit_stmts : Stmts → Print
  visit_stmts no_stmts = skip
  visit_stmts (add_stmt s ss) = visit_stmt s ▸ visit_stmts ss

-- The level is entered and not left.
unfoldable pub visit_program : Stmts → Print
unfolding deeper visit_stmts
visit_program ss = put "Program\n" ▸ deeper ▸ visit_stmts ss
