-- ===== src/Parse/Operands.antt =====
-- lib/Parse/Parser.cpp: the methods that parse the arrays, calls and ranges of an expression.
use trsc.Common.{
  if◌then◌else◌, length, Bytes, ℕ, ◌^◌, Bool, true, false, Option, none, some, List, [], ◌∷◌, ◌++◌,
}
use trsc.Lex.Token.{
  is_kind, Token, op_bang, op_dotdot, op_dotdotequal, de_lparen, de_rparen, de_lbracket,
  de_rbracket, de_comma, de_semicolon, lt_string,
}
use trsc.Ast.{
  Expr, int_expr, var_expr, array_expr, array_access_expr, range_expr, fun_call, macro_call, exprs,
  is_null_expr, null_expr, expr, int_node,
}
use trsc.Parse.Cursor.{
  Parse, pure, ◌>>=◌, ◌>>◌, current_kind, at_end, report_expected_error, consume, expect_token,
  undefined,
}
use trsc.Parse.Grammar.{Grammar}
use trsc.Parse.Literals.{decode_string_literal}

-- `new IntExpr(parseNumber<int64_t>(..))`.
abbrev pub int_limit : ℕ
int_limit = 2 ^ 63

-- The loop of `parseArray`.
unfoldable pub parse_elements : Grammar → List Expr → Parse (List Expr)
parse_elements self es = do
  k ← current_kind
  if is_kind k de_rbracket
      then pure es
      else (do expect_token de_comma; e ← self.primary; self.elements (es ++ e ∷ []))

-- `CountExpr->getValue()` of a pointer that is cast to `IntExpr *`, and the node.
unfoldable pub repeated : Expr → Expr → Parse Expr
repeated base (expr t (int_node n)) =
    pure (array_expr (exprs (base ∷ [])) (expr t (int_node n)) (n ∷ []))
repeated base _ = λ p. undefined

-- The shape that a caller gives is empty.
unfoldable pub parse_array : Grammar → Parse Expr
unfolding repeated
parse_array self = do
  consume de_lbracket
  base ← self.primary
  k ← current_kind
  if is_kind k de_semicolon
      then (do
        consume de_semicolon
        count ← self.primary
        expect_token de_rbracket
        repeated base count)
      else (do
        es ← self.elements (base ∷ [])
        consume de_rbracket
        pure (array_expr (exprs es) (int_expr (length es)) (length es ∷ [])))

unfoldable pub parse_indices : Grammar → List Expr → Parse (List Expr)
parse_indices self es = do
  k ← current_kind
  if is_kind k de_lbracket
      then (do
        consume de_lbracket
        e ← self.primary
        expect_token de_rbracket
        self.indices (es ++ e ∷ []))
      else pure es

unfoldable pub parse_array_access_expr : Grammar → Token → Parse Expr
parse_array_access_expr self ident = do
  es ← self.indices []
  pure (array_access_expr (var_expr ident.id) (exprs es))

-- The loop of `parseFunCall`; `none` is its early return of a null pointer.
unfoldable pub parse_arguments : Grammar → List Expr → Parse (Option (List Expr))
parse_arguments self es = do
  e ← self.expr 0
  k ← current_kind
  if is_kind k de_rparen then pure (some (es ++ e ∷ [])) else (do
    comma ← expect_token de_comma
    if comma then self.arguments (es ++ e ∷ []) else pure none)

unfoldable pub call_node : Token → Option (List Expr) → Parse Expr
call_node name none = pure null_expr
call_node name (some es) = do consume de_rparen; pure (fun_call (var_expr name.id) (exprs es))

-- Every caller gives the token of the name.
unfoldable pub parse_fun_call : Grammar → Token → Parse Expr
unfolding call_node
parse_fun_call self name = do
  open_paren ← expect_token de_lparen
  if open_paren
      then (do
        k ← current_kind
        es ← (if is_kind k de_rparen then pure (some []) else self.arguments [])
        call_node name es)
      else pure null_expr

-- The loop of `parseMacroCall`.
unfoldable pub parse_macro_arguments : Grammar → List Expr → Parse (Option (List Expr))
parse_macro_arguments self es = do
  k ← current_kind
  if is_kind k de_rparen then pure (some es) else (do
    ended ← at_end
    if ended then (do report_expected_error de_rparen; pure none) else (do
      e ← self.expr 0
      if is_null_expr e then pure none else (do
        k' ← current_kind
        if is_kind k' de_rparen then pure (some (es ++ e ∷ [])) else (do
          comma ← expect_token de_comma
          if comma then self.macro_arguments (es ++ e ∷ []) else pure none))))

unfoldable pub macro_node : Token → Bytes → Bool → Option (List Expr) → Parse Expr
macro_node name format has_format none = pure null_expr
macro_node name format has_format (some es) = do
  consume de_rparen
  pure (macro_call name.text format has_format (exprs es))

-- The rest of `parseMacroCall` once the format string is decoded.
unfoldable pub formatted : Grammar → Token → Option Bytes → Parse Expr
unfolding macro_node
formatted self name none = pure null_expr
formatted self name (some format) = do
  k ← current_kind
  go_on ← (if is_kind k de_rparen then pure true else expect_token de_comma)
  if go_on
      then (do es ← self.macro_arguments []; macro_node name format true es)
      else pure null_expr

unfoldable pub parse_macro_call : Grammar → Token → Parse Expr
unfolding formatted macro_node
parse_macro_call self name = do
  consume op_bang
  open_paren ← expect_token de_lparen
  if open_paren
      then (do
        k ← current_kind
        if is_kind k lt_string
            then (do
              format ← consume lt_string
              formatted self name (decode_string_literal format.text))
            else (do es ← self.macro_arguments []; macro_node name [] false es))
      else pure null_expr

unfoldable pub parse_range_end : Grammar → Expr → Bool → Parse Expr
parse_range_end self from inclusive = do to ← self.primary; pure (range_expr inclusive from to)

unfoldable pub parse_range_expr : Grammar → Parse Expr
unfolding parse_range_end
parse_range_expr self = do
  from ← self.primary
  k ← current_kind
  if is_kind k op_dotdot
      then (do consume op_dotdot; parse_range_end self from false)
      else if is_kind k op_dotdotequal
      then (do consume op_dotdotequal; parse_range_end self from true)
      else pure null_expr
