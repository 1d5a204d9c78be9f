-- ===== src/Parse/Expressions.antt =====
-- lib/Parse/Parser.cpp: `parsePrimary`, and the binary operators of `parseExpr`.
use trsc.Common.{ltb, if◌then◌else◌, Bytes, ℕ, ◌+◌, true, false, Option, none, some}
use trsc.Lex.Token.{
  TokenKind, is_kind, kw_mut, kw_as, kw_true, kw_false, op_minus, op_bang, op_amp, de_lparen,
  de_rparen, de_lbracket, lt_integer, lt_float, lt_string, identifier,
}
use trsc.Ast.{
  Expr, int_expr, float_expr, bool_expr, string_expr, var_expr, refr_expr, bin_expr, unary_expr,
  as_expr, is_null_expr, is_mut, null_expr,
}
use trsc.Basic.Diagnostics.{expected_expression}
use trsc.Parse.Cursor.{Parse, pure, ◌>>=◌, ◌>>◌, current_kind, report_error, consume, expect_token}
use trsc.Parse.Grammar.{Grammar, get_operator_precedence}
use trsc.Parse.Literals.{parse_number, decode_string_literal}
use trsc.Parse.Operands.{
  int_limit, parse_array, parse_array_access_expr, parse_fun_call, parse_macro_call,
}

-- The cases of `parsePrimary`.
unfoldable pub parse_identifier : Grammar → Parse Expr
parse_identifier self = do
  ident ← consume identifier
  k ← current_kind
  if is_kind k op_bang
      then parse_macro_call self ident
      else if is_kind k de_lparen
      then parse_fun_call self ident
      else if is_kind k de_lbracket
      then parse_array_access_expr self ident
      else pure (var_expr ident.id)

unfoldable pub string_primary : Option Bytes → Parse Expr
string_primary none = pure null_expr
string_primary (some value) = pure (string_expr value)

unfoldable pub parse_parenthesised : Grammar → Parse Expr
parse_parenthesised self = do
  consume de_lparen
  e ← self.expr 0
  if is_null_expr e
      then pure null_expr
      else (do closed ← expect_token de_rparen; if closed then pure e else pure null_expr)

unfoldable pub parse_unary : Grammar → TokenKind → Parse Expr
parse_unary self op = do
  consume op
  operand ← self.primary
  if is_null_expr operand then pure null_expr else pure (unary_expr op operand)

unfoldable pub parse_reference : Grammar → Parse Expr
parse_reference self = do
  consume op_amp
  k ← current_kind
  is_mut ← (if is_kind k kw_mut then (do consume kw_mut; pure true) else pure false)
  referent ← self.primary
  pure (refr_expr referent is_mut)

unfoldable pub primary_of : Grammar → TokenKind → Parse Expr
unfolding string_primary
primary_of self lt_float = do t ← consume lt_float; pure (float_expr t.text)
primary_of self lt_string = do t ← consume lt_string; string_primary (decode_string_literal t.text)
primary_of self lt_integer = do
  t ← consume lt_integer
  pure (int_expr (parse_number int_limit t.text))
primary_of self kw_true = do consume kw_true; pure (bool_expr true)
primary_of self kw_false = do consume kw_false; pure (bool_expr false)
primary_of self identifier = parse_identifier self
primary_of self de_lparen = parse_parenthesised self
primary_of self de_lbracket = parse_array self
primary_of self op_minus = parse_unary self op_minus
primary_of self op_bang = parse_unary self op_bang
primary_of self op_amp = parse_reference self
primary_of self _ = do report_error expected_expression; pure null_expr

unfoldable pub parse_primary : Grammar → Parse Expr
parse_primary self = do k ← current_kind; primary_of self k

-- `CurrentPrecedence < MinPrecedence`, and else the round of the loop.
unfoldable pub operator_round : Grammar → ℕ → Expr → TokenKind → Option ℕ → Parse Expr
operator_round self min lhs op none = pure lhs
operator_round self min lhs op (some precedence) = if ltb precedence min then pure lhs else (do
  consume op
  rhs ← self.expr (precedence + 1)
  if is_null_expr rhs then pure null_expr else self.operators min (bin_expr op lhs rhs))

-- `while (true)` of `parseExpr`.
unfoldable pub parse_operators : Grammar → ℕ → Expr → Parse Expr
unfolding operator_round
parse_operators self min lhs = do
  op ← current_kind
  operator_round self min lhs op (get_operator_precedence op)

unfoldable pub parse_expr : Grammar → ℕ → Parse Expr
parse_expr self min = do
  lhs ← self.primary
  if is_null_expr lhs then pure null_expr else (do
    k ← current_kind
    if is_kind k kw_as
        then (do consume kw_as; to_type ← self.type_node; self.operators min (as_expr lhs to_type))
        else self.operators min lhs)
