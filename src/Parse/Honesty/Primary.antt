-- ===== src/Parse/Honesty/Primary.antt =====
-- `parsePrimary` and `parseExpr` keep the laws.
use trsc.Common.{Bytes, ℕ, ◌+◌, ◌≡◌, refl, Bool, true, false, Option, none, some}
use trsc.Ast.{Expr, is_null_expr, bin_expr, as_expr}
use trsc.Lex.Token.{
  TokenKind, kw_as, kw_true, kw_false, op_minus, op_bang, op_dotdot, op_dotdotequal, op_amp,
  de_lparen, de_rparen, de_lbracket, lt_integer, lt_float, lt_string, identifier,
}
use trsc.Basic.Diagnostics.{expected_expression}
use trsc.Parse.Grammar.{Grammar, get_operator_precedence}
use trsc.Parse.Literals.{decode_string_literal}
use trsc.Parse.Expressions.{
  parse_identifier, string_primary, parse_parenthesised, parse_unary, parse_reference, primary_of,
  parse_primary, operator_round, parse_operators, parse_expr,
}
use trsc.Parse.Operands.{parse_range_end, parse_range_expr}
use trsc.Parse.Honesty.{
  Steady, Honest, pure-Steady, pure-Honest, Steady-if, Honest-if, Steady-bind, Honest-try,
  Honest-bind, Honest-unless, Honest-expect,
}
use trsc.Parse.Honesty.Helpers.{
  current_kind-Steady, report_error-Honest, Honest-report, consume-Steady, expect_token-Honest,
  is_none_text, undecoded, consume_string-Honest,
}
use trsc.Parse.Honesty.Interface.{IsHonest, steady_rules}
use trsc.Parse.Honesty.Expressions.{
  array-Honest, array_access-Honest, fun_call-Honest, macro_call-Honest,
}

range_end-Steady :
    (self : Grammar) (from : Expr) (b : Bool) → IsHonest self → Steady (parse_range_end self from b)
unfolding parse_range_end
range_end-Steady self from b h = Steady-bind _ _ h.primary.steady λ e. pure-Steady _

pub range_expr-Steady : (self : Grammar) → IsHonest self → Steady (parse_range_expr self)
unfolding parse_range_expr
range_expr-Steady self h = Steady-bind _ _ h.primary.steady λ from.
    Steady-bind _ _ current_kind-Steady λ k.
      Steady-if _ _ _
        (Steady-bind _ _ (consume-Steady op_dotdot) λ t. range_end-Steady self from false h)
        (Steady-if _ _ _
          (Steady-bind _ _ (consume-Steady op_dotdotequal) λ t. range_end-Steady self from true h)
          (pure-Steady _))

identifier-Honest : (self : Grammar) → IsHonest self → Honest is_null_expr (parse_identifier self)
unfolding parse_identifier is_null_expr
identifier-Honest self h = Honest-bind _ _ _ (consume-Steady identifier) λ t.
    Honest-bind _ _ _ current_kind-Steady λ k. Honest-if _ _ _ _ (macro_call-Honest self t h) (
      Honest-if _ _ _ _ (fun_call-Honest self t h)
        (Honest-if _ _ _ _ (array_access-Honest self t h) (pure-Honest _ _ refl)))

string_primary-Steady : (o : Option Bytes) → Steady (string_primary o)
unfolding string_primary
string_primary-Steady none = pure-Steady _
string_primary-Steady (some s) = pure-Steady _

string_primary-Honest :
    (o : Option Bytes) → is_none_text o ≡ false → Honest is_null_expr (string_primary o)
unfolding string_primary is_none_text is_null_expr
string_primary-Honest none e = cc e
string_primary-Honest (some s) e = pure-Honest _ _ refl

parenthesised-Honest :
    (self : Grammar) → IsHonest self → Honest is_null_expr (parse_parenthesised self)
unfolding parse_parenthesised
parenthesised-Honest self h = Honest-bind _ _ _ (consume-Steady de_lparen) λ t.
    Honest-unless is_null_expr _ _ _ _ (h.expr 0)
      λ e made. Honest-expect _ _ _ _ (expect_token-Honest de_rparen) (pure-Honest _ _ made)

unary-Honest :
    (self : Grammar) (op : TokenKind) → IsHonest self → Honest is_null_expr (parse_unary self op)
unfolding parse_unary is_null_expr
unary-Honest self op h =
    Honest-bind _ _ _ (consume-Steady op)
      λ t. Honest-unless is_null_expr _ _ _ _ h.primary λ e made. pure-Honest _ _ refl

reference-Honest : (self : Grammar) → IsHonest self → Honest is_null_expr (parse_reference self)
unfolding parse_reference is_null_expr
reference-Honest self h = Honest-bind _ _ _ (consume-Steady op_amp) λ t.
    Honest-bind _ _ _ current_kind-Steady λ k.
      Honest-bind _ _ _ (search steady_rules)
        λ is_mut. Honest-bind _ _ _ h.primary.steady λ e. pure-Honest _ _ refl

primary_of-Honest :
    (self : Grammar) (k : TokenKind) → IsHonest self → Honest is_null_expr (primary_of self k)
unfolding primary_of is_null_expr
primary_of-Honest self lt_float h =
    Honest-bind _ _ _ (consume-Steady lt_float) λ t. pure-Honest _ _ refl
primary_of-Honest self lt_string h =
    Honest-try undecoded _ _ _ consume_string-Honest
      (λ t e. string_primary-Steady (decode_string_literal t.text))
      (λ t e. string_primary-Honest (decode_string_literal t.text) e)
primary_of-Honest self lt_integer h =
    Honest-bind _ _ _ (consume-Steady lt_integer) λ t. pure-Honest _ _ refl
primary_of-Honest self kw_true h =
    Honest-bind _ _ _ (consume-Steady kw_true) λ t. pure-Honest _ _ refl
primary_of-Honest self kw_false h =
    Honest-bind _ _ _ (consume-Steady kw_false) λ t. pure-Honest _ _ refl
primary_of-Honest self identifier h = identifier-Honest self h
primary_of-Honest self de_lparen h = parenthesised-Honest self h
primary_of-Honest self de_lbracket h = array-Honest self h
primary_of-Honest self op_minus h = unary-Honest self op_minus h
primary_of-Honest self op_bang h = unary-Honest self op_bang h
primary_of-Honest self op_amp h = reference-Honest self h
primary_of-Honest self _ h = Honest-report _ _ _ (report_error-Honest expected_expression)

pub primary-Honest : (self : Grammar) → IsHonest self → Honest is_null_expr (parse_primary self)
unfolding parse_primary
primary-Honest self h = Honest-bind _ _ _ current_kind-Steady λ k. primary_of-Honest self k h

operator_round-Honest :
    (self : Grammar) (min : ℕ) (lhs : Expr) (op : TokenKind) (o : Option ℕ)
    → IsHonest self
    → is_null_expr lhs ≡ false
    → Honest is_null_expr (operator_round self min lhs op o)
unfolding operator_round
operator_round-Honest self min lhs op none h made = pure-Honest _ _ made
operator_round-Honest self min lhs op (some precedence) h made =
    Honest-if _ _ _ _ (pure-Honest _ _ made) (
      Honest-bind _ _ _ (consume-Steady op) λ t.
        Honest-unless is_null_expr _ _ _ _ (h.expr (precedence + 1))
          λ rhs made'. h.operators min (bin_expr op lhs rhs) (unfold is_null_expr in refl))

pub operators-Honest :
    (self : Grammar) (min : ℕ) (lhs : Expr)
    → IsHonest self
    → is_null_expr lhs ≡ false
    → Honest is_null_expr (parse_operators self min lhs)
unfolding parse_operators
operators-Honest self min lhs h made =
    Honest-bind _ _ _ current_kind-Steady
      λ op. operator_round-Honest self min lhs op (get_operator_precedence op) h made

pub expr-Honest :
    (self : Grammar) (min : ℕ) → IsHonest self → Honest is_null_expr (parse_expr self min)
unfolding parse_expr
expr-Honest self min h = Honest-unless is_null_expr _ _ _ _ h.primary λ lhs made.
    Honest-bind _ _ _ current_kind-Steady λ k.
      Honest-if _ _ _ _
        (Honest-bind _ _ _ (consume-Steady kw_as) λ t.
          Honest-bind _ _ _ h.type_node.steady
            λ to. h.operators min (as_expr lhs to) (unfold is_null_expr in refl))
        (h.operators min lhs made)
