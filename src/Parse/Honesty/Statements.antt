-- ===== src/Parse/Honesty/Statements.antt =====
-- The methods that parse a statement keep the laws.
use trsc.Common.{◌≡◌, refl, Bool, false, Option, none, some, List, [], ◌∷◌, ◌++◌}
use trsc.Ast.{TypeNode, Expr, Param, Stmt, is_null_expr, is_null_stmt, null_stmt, if_stmt}
use trsc.Lex.Token.{
  TokenKind, is_kind, Token, kw_fn, kw_let, kw_if, kw_else, kw_return, kw_while, kw_for, kw_in,
  op_equal, de_lparen, de_rparen, de_lbrace, de_rbrace, de_comma, de_semicolon, de_colon,
  de_returntype, identifier,
}
use trsc.Parse.Grammar.{Grammar}
use trsc.Parse.Cursor.{pure}
use trsc.Parse.Statements.{
  parse_initializer, parse_annotation, parse_declared, parse_let_stmt, parse_expr_stmt,
  parse_recover, parse_items, parse_block_stmt, parse_if_stmt, parse_for_stmt, parse_while_stmt,
  parse_params, function_rest, parse_signature, parse_function, parse_return_stmt, stmt_of,
  parse_stmt, parse_program,
}
use trsc.Parse.Honesty.{
  Steady, Honest, pure-Steady, pure-Honest, Steady-if, Honest-if, Steady-bind, Honest-try,
  Honest-bind, Honest-unless, Honest-expect,
}
use trsc.Parse.Honesty.Helpers.{
  current_kind-Steady, at_end-Steady, advance-Steady, report_expected_error-Honest, Honest-report,
  consume-Steady, expect_token-Honest,
}
use trsc.Parse.Honesty.Interface.{is_none_list, IsHonest, steady_rules}
use trsc.Parse.Honesty.Expressions.{some_list, some_list-Honest}
use trsc.Parse.Honesty.Primary.{range_expr-Steady}

initializer-Honest :
    (self : Grammar) (b : Bool) (e : Expr) (t : TypeNode)
    → IsHonest self
    → Honest is_null_stmt (parse_initializer self b e t)
unfolding parse_initializer is_null_stmt
initializer-Honest self b e t h = Honest-expect _ _ _ _ (expect_token-Honest op_equal) (
    Honest-unless is_null_expr _ _ _ _ (h.expr 0)
      λ i made. Honest-expect _ _ _ _ (expect_token-Honest de_semicolon) (pure-Honest _ _ refl))

annotation-Steady :
    (self : Grammar) (mark : TokenKind) → IsHonest self → Steady (parse_annotation self mark)
unfolding parse_annotation
annotation-Steady self mark h = Steady-bind _ _ current_kind-Steady λ k.
    Steady-if _ _ _ (Steady-bind _ _ (consume-Steady mark) λ t. h.type_node.steady) (pure-Steady _)

declared-Honest :
    (self : Grammar) (b : Bool) → IsHonest self → Honest is_null_stmt (parse_declared self b)
unfolding parse_declared is_null_stmt
declared-Honest self b h = Honest-bind _ _ _ h.primary.steady λ e.
    Honest-bind _ _ _ (annotation-Steady self de_colon h) λ t.
      Honest-bind _ _ _ current_kind-Steady λ k.
        Honest-if _ _ _ _
          (Honest-bind _ _ _ (consume-Steady de_semicolon) λ u. pure-Honest _ _ refl)
          (initializer-Honest self b e t h)

let_stmt-Honest : (self : Grammar) → IsHonest self → Honest is_null_stmt (parse_let_stmt self)
unfolding parse_let_stmt
let_stmt-Honest self h = Honest-bind _ _ _ (consume-Steady kw_let) λ t.
    Honest-bind _ _ _ current_kind-Steady λ k. Honest-bind _ _ _ (search steady_rules) λ b.
      Honest-bind _ _ _ current_kind-Steady λ k'.
        Honest-if _ _ _ _ (declared-Honest self b h)
          (Honest-report _ _ _ (report_expected_error-Honest identifier))

expr_stmt-Honest : (self : Grammar) → IsHonest self → Honest is_null_stmt (parse_expr_stmt self)
unfolding parse_expr_stmt is_null_stmt
expr_stmt-Honest self h =
    Honest-unless is_null_expr _ _ _ _ (h.expr 0)
      λ e made. Honest-expect _ _ _ _ (expect_token-Honest de_semicolon) (pure-Honest _ _ refl)

pub recover-Steady : (self : Grammar) → IsHonest self → Steady (parse_recover self)
unfolding parse_recover
recover-Steady self h = Steady-bind _ _ current_kind-Steady λ k.
    Steady-bind _ _ at_end-Steady
      λ ended. Steady-if _ _ _ (pure-Steady _) (Steady-bind _ _ advance-Steady λ u. h.recover)

pub items-Steady : (self : Grammar) (ss : List Stmt) → IsHonest self → Steady (parse_items self ss)
unfolding parse_items
items-Steady self ss h = Steady-bind _ _ current_kind-Steady λ k.
    Steady-bind _ _ at_end-Steady λ ended. Steady-if _ _ _ (pure-Steady _) (
      Steady-bind _ _ h.stmt.steady λ s.
        Steady-if _ _ _
          (Steady-bind _ _ h.recover λ u.
            Steady-bind _ _ current_kind-Steady
              λ k'. Steady-if _ _ _ (Steady-bind _ _ advance-Steady λ v. h.items ss) (h.items ss))
          (h.items (ss ++ s ∷ [])))

block_stmt-Honest : (self : Grammar) → IsHonest self → Honest is_null_stmt (parse_block_stmt self)
unfolding parse_block_stmt is_null_stmt
block_stmt-Honest self h = Honest-bind _ _ _ (consume-Steady de_lbrace) λ t.
    Honest-bind _ _ _ (h.items [])
      λ ss. Honest-expect _ _ _ _ (expect_token-Honest de_rbrace) (pure-Honest _ _ refl)

made_if-Honest : (c : Expr) (s s' : Stmt) → Honest is_null_stmt (pure (if_stmt c s s'))
unfolding is_null_stmt
made_if-Honest c s s' = pure-Honest _ _ refl

if_stmt-Honest : (self : Grammar) → IsHonest self → Honest is_null_stmt (parse_if_stmt self)
unfolding parse_if_stmt
if_stmt-Honest self h = Honest-bind _ _ _ (consume-Steady kw_if) λ t.
    Honest-unless is_null_expr _ _ _ _ (h.expr 0) λ c made.
      Honest-unless is_null_stmt _ _ _ _ h.stmt λ s made'.
        Honest-bind _ _ _ current_kind-Steady λ k.
          Honest-if _ _ _ _
            (Honest-bind _ _ _ (consume-Steady kw_else)
              λ u. Honest-unless is_null_stmt _ _ _ _ h.stmt λ s' made''. made_if-Honest c s s')
            (made_if-Honest c s null_stmt)

for_stmt-Honest : (self : Grammar) → IsHonest self → Honest is_null_stmt (parse_for_stmt self)
unfolding parse_for_stmt is_null_stmt
for_stmt-Honest self h = Honest-bind _ _ _ (consume-Steady kw_for) λ t.
    Honest-bind _ _ _ h.primary.steady λ e. Honest-expect _ _ _ _ (expect_token-Honest kw_in) (
      Honest-bind _ _ _ (range_expr-Steady self h)
        λ r. Honest-bind _ _ _ h.stmt.steady λ s. pure-Honest _ _ refl)

while_stmt-Honest : (self : Grammar) → IsHonest self → Honest is_null_stmt (parse_while_stmt self)
unfolding parse_while_stmt is_null_stmt
while_stmt-Honest self h = Honest-bind _ _ _ (consume-Steady kw_while) λ t.
    Honest-bind _ _ _ (h.expr 0).steady
      λ c. Honest-bind _ _ _ h.stmt.steady λ s. pure-Honest _ _ refl

pub params-Honest :
    (self : Grammar) (ps : List Param) → IsHonest self → Honest is_none_list (parse_params self ps)
unfolding parse_params is_none_list
params-Honest self ps h = Honest-bind _ _ _ current_kind-Steady λ k.
    Honest-if _ _ _ _
      (Honest-bind _ _ _ h.primary.steady λ e.
        Honest-bind _ _ _ (annotation-Steady self de_colon h) λ t.
          Honest-bind _ _ _ current_kind-Steady λ k'.
            Honest-if _ _ _ _ (pure-Honest _ _ refl)
              (Honest-expect _ _ _ _ (expect_token-Honest de_comma) (h.params (ps ++ (e, t) ∷ []))))
      (Honest-report _ _ _ (report_expected_error-Honest identifier))

rest-Steady :
    (self : Grammar) (t : Token) (o : Option (List Param))
    → IsHonest self
    → Steady (function_rest self t o)
unfolding function_rest
rest-Steady self t none h = pure-Steady _
rest-Steady self t (some ps) h = Steady-bind _ _ (consume-Steady de_rparen) λ u.
    Steady-bind _ _ (annotation-Steady self de_returntype h)
      λ r. Steady-bind _ _ (block_stmt-Honest self h).steady λ b. pure-Steady _

rest-Honest :
    (self : Grammar) (t : Token) (o : Option (List Param))
    → IsHonest self
    → is_none_list o ≡ false
    → Honest is_null_stmt (function_rest self t o)
unfolding function_rest is_none_list is_null_stmt
rest-Honest self t none h e = cc e
rest-Honest self t (some ps) h e = Honest-bind _ _ _ (consume-Steady de_rparen) λ u.
    Honest-bind _ _ _ (annotation-Steady self de_returntype h)
      λ r. Honest-bind _ _ _ (block_stmt-Honest self h).steady λ b. pure-Honest _ _ refl

signature-Honest :
    (self : Grammar) (t : Token) → IsHonest self → Honest is_null_stmt (parse_signature self t)
unfolding parse_signature some_list
signature-Honest self t h = Honest-expect _ _ _ _ (expect_token-Honest de_lparen) (
    Honest-bind _ _ _ current_kind-Steady λ k.
      Honest-try is_none_list _ _ _
        (some_list-Honest (is_kind k de_rparen) (self.params []) (h.params []))
        (λ o e. rest-Steady self t o h) (λ o e. rest-Honest self t o h e))

function-Honest : (self : Grammar) → IsHonest self → Honest is_null_stmt (parse_function self)
unfolding parse_function
function-Honest self h = Honest-bind _ _ _ (consume-Steady kw_fn) λ t.
    Honest-bind _ _ _ current_kind-Steady λ k.
      Honest-if _ _ _ _
        (Honest-bind _ _ _ (consume-Steady identifier) λ name. signature-Honest self name h)
        (Honest-report _ _ _ (report_expected_error-Honest identifier))

return_stmt-Honest : (self : Grammar) → IsHonest self → Honest is_null_stmt (parse_return_stmt self)
unfolding parse_return_stmt is_null_stmt
return_stmt-Honest self h = Honest-bind _ _ _ (consume-Steady kw_return) λ t.
    Honest-bind _ _ _ current_kind-Steady λ k.
      Honest-bind _ _ _ (Steady-if _ _ _ (pure-Steady _) (h.expr 0).steady)
        λ e. Honest-expect _ _ _ _ (expect_token-Honest de_semicolon) (pure-Honest _ _ refl)

stmt_of-Honest :
    (self : Grammar) (k : TokenKind) → IsHonest self → Honest is_null_stmt (stmt_of self k)
unfolding stmt_of
stmt_of-Honest self kw_let h = let_stmt-Honest self h
stmt_of-Honest self kw_for h = for_stmt-Honest self h
stmt_of-Honest self kw_if h = if_stmt-Honest self h
stmt_of-Honest self kw_while h = while_stmt-Honest self h
stmt_of-Honest self de_lbrace h = block_stmt-Honest self h
stmt_of-Honest self kw_fn h = function-Honest self h
stmt_of-Honest self kw_return h = return_stmt-Honest self h
stmt_of-Honest self _ h = expr_stmt-Honest self h

pub stmt-Honest : (self : Grammar) → IsHonest self → Honest is_null_stmt (parse_stmt self)
unfolding parse_stmt
stmt-Honest self h = Honest-bind _ _ _ current_kind-Steady λ k. stmt_of-Honest self k h

pub program-Steady :
    (self : Grammar) (ss : List Stmt) → IsHonest self → Steady (parse_program self ss)
unfolding parse_program
program-Steady self ss h = Steady-bind _ _ at_end-Steady λ ended. Steady-if _ _ _ (pure-Steady _) (
    Steady-bind _ _ h.stmt.steady λ s.
      Steady-if _ _ _ (Steady-bind _ _ advance-Steady λ u. h.program ss) (h.program (ss ++ s ∷ [])))
