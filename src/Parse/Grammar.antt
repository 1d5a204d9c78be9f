-- ===== src/Parse/Grammar.antt =====
-- lib/Parse/Parser.cpp: the methods that call one another, as the record that each of them takes for
-- its calls, and the precedence of the operators. A loop whose body parses is a method of its own,
-- which has the values that the loop builds as its arguments; Parse/Knot ties them together.
use trsc.Common.{ℕ, Option, none, some, List}
use trsc.Lex.Token.{
  TokenKind, op_plus, op_minus, op_star, op_slash, op_percent, op_equal, op_equalequal, op_bang,
  op_bangequal, op_less, op_lessequal, op_greater, op_greaterequal, op_plusequal, op_minusequal,
  op_lessless, op_greatergreater, op_amp, op_ampamp, op_pipe, op_pipepipe, de_dot, lt_integer,
  lt_float, identifier,
}
use trsc.Ast.{TypeNode, Expr, Param, Stmt}
use trsc.Parse.Cursor.{Parse}

pub record Grammar : Type 0 where
  pub primary : Parse Expr
  pub expr : ℕ → Parse Expr
  pub operators : ℕ → Expr → Parse Expr
  pub type_node : Parse TypeNode
  pub elements : List Expr → Parse (List Expr)
  pub indices : List Expr → Parse (List Expr)
  pub arguments : List Expr → Parse (Option (List Expr))
  pub macro_arguments : List Expr → Parse (Option (List Expr))
  pub stmt : Parse Stmt
  pub items : List Stmt → Parse (List Stmt)
  pub recover : Parse (Unit {0})
  pub params : List Param → Parse (Option (List Param))
  pub program : List Stmt → Parse (List Stmt)

-- `getOperatorPrecedence`, with `none` for -1.
unfoldable pub get_operator_precedence : TokenKind → Option ℕ
get_operator_precedence op_plusequal = some 17
get_operator_precedence op_minusequal = some 17
get_operator_precedence op_bang = some 15
get_operator_precedence de_dot = some 15
get_operator_precedence op_star = some 12
get_operator_precedence op_slash = some 12
get_operator_precedence op_percent = some 12
get_operator_precedence op_plus = some 11
get_operator_precedence op_minus = some 11
get_operator_precedence op_lessless = some 10
get_operator_precedence op_greatergreater = some 10
get_operator_precedence op_less = some 8
get_operator_precedence op_lessequal = some 8
get_operator_precedence op_greater = some 8
get_operator_precedence op_greaterequal = some 8
get_operator_precedence op_equalequal = some 7
get_operator_precedence op_bangequal = some 7
get_operator_precedence op_amp = some 6
get_operator_precedence op_pipe = some 5
get_operator_precedence op_ampamp = some 4
get_operator_precedence op_pipepipe = some 3
get_operator_precedence op_equal = some 2
get_operator_precedence identifier = some 1
get_operator_precedence lt_float = some 1
get_operator_precedence lt_integer = some 1
get_operator_precedence _ = none
