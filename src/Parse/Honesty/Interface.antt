-- ===== src/Parse/Honesty/Interface.antt =====
-- What the methods rely on of one another: the laws that the record of methods keeps.
use trsc.Common.{ℕ, ◌≡◌, refl, Bool, true, false, Option, none, some, List}
use trsc.Ast.{Expr, Param, Stmt, is_null_expr, is_null_stmt, is_null_type}
use trsc.Lex.Token.{TokenKind}
use trsc.Basic.Diagnostics.{Message}
use trsc.Parse.Cursor.{report_error, report_expected_error, expect_token}
use trsc.Parse.Grammar.{Grammar}
use trsc.Parse.Honesty.{
  Steady, Honest, pure-Steady, pure-Honest, undefined-Honest, Steady-if, Honest-if, Steady-bind,
  Honest-bind, Honest-unless, Honest-expect,
}
use trsc.Parse.Honesty.Helpers.{
  current_kind-Steady, current_token-Steady, at_end-Steady, advance-Steady, report_error-Honest,
  report_expected_error-Honest, Honest-report, consume-Steady, expect_token-Honest,
}

unfoldable pub is_none_list : {A : Type 0} → Option (List A) → Bool
is_none_list none = true
is_none_list (some _) = false

pub record IsHonest (self : Grammar) : Type 0 where
  pub primary : Honest is_null_expr self.primary
  pub expr : (min : ℕ) → Honest is_null_expr (self.expr min)
  pub operators :
      (min : ℕ) (e : Expr) → is_null_expr e ≡ false → Honest is_null_expr (self.operators min e)
  pub type_node : Honest is_null_type self.type_node
  pub elements : (es : List Expr) → Steady (self.elements es)
  pub indices : (es : List Expr) → Steady (self.indices es)
  pub arguments : (es : List Expr) → Honest is_none_list (self.arguments es)
  pub macro_arguments : (es : List Expr) → Honest is_none_list (self.macro_arguments es)
  pub stmt : Honest is_null_stmt self.stmt
  pub items : (ss : List Stmt) → Steady (self.items ss)
  pub recover : Steady self.recover
  pub params : (ps : List Param) → Honest is_none_list (self.params ps)
  pub program : (ss : List Stmt) → Steady (self.program ss)

pub ruleset steady_rules = (
  refl, Steady-bind, Steady-if, pure-Steady, current_kind-Steady, current_token-Steady,
  at_end-Steady, advance-Steady, consume-Steady,
)

pub expect_token-Steady : (k : TokenKind) → Steady (expect_token k)
expect_token-Steady k = (expect_token-Honest k).steady

pub report_error-Steady : (m : Message) → Steady (report_error m)
report_error-Steady m = (report_error-Honest m).steady

pub report_expected_error-Steady : (k : TokenKind) → Steady (report_expected_error k)
report_expected_error-Steady k = (report_expected_error-Honest k).steady

pub ruleset honest_rules = (
  steady_rules, expect_token-Steady, report_error-Steady, report_expected_error-Steady,
  Honest-expect, Honest-unless, Honest-report, Honest-if, pure-Honest, undefined-Honest,
  expect_token-Honest, report_error-Honest, report_expected_error-Honest, Honest-bind,
)
