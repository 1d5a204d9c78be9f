-- ===== src/Parse/Honesty/Expressions.antt =====
-- The methods that parse an expression keep the laws.
use trsc.Common.{
  if◌then◌else◌, Bytes, ◌≡◌, refl, Bool, true, false, not, Option, none, some, List, [], ◌∷◌, ◌++◌,
}
use trsc.Ast.{Expr, is_null_expr, expr, int_node}
use trsc.Lex.Token.{
  is_kind, Token, op_bang, de_lparen, de_rparen, de_lbracket, de_rbracket, de_comma, de_semicolon,
}
use trsc.Parse.Cursor.{Parse, pure, ◌>>=◌, expect_token}
use trsc.Parse.Grammar.{Grammar}
use trsc.Parse.Literals.{decode_string_literal}
use trsc.Parse.Operands.{
  parse_elements, repeated, parse_array, parse_indices, parse_array_access_expr, parse_arguments,
  call_node, parse_fun_call, parse_macro_arguments, macro_node, formatted, parse_macro_call,
}
use trsc.Parse.Honesty.{
  Steady, Honest, pure-Steady, pure-Honest, undefined-Honest, Steady-if, Honest-if, Steady-bind,
  Honest-try, Honest-bind, Honest-unless, Honest-expect,
}
use trsc.Parse.Honesty.Helpers.{
  current_kind-Steady, at_end-Steady, report_expected_error-Honest, Honest-report, consume-Steady,
  expect_token-Honest, is_none_text, undecoded, consume_string-Honest,
}
use trsc.Parse.Honesty.Interface.{is_none_list, IsHonest, expect_token-Steady}

pub elements-Steady :
    (self : Grammar) (es : List Expr) → IsHonest self → Steady (parse_elements self es)
unfolding parse_elements
elements-Steady self es h = Steady-bind _ _ current_kind-Steady λ k.
    Steady-if _ _ _ (pure-Steady es) (
      Steady-bind _ _ (expect_token-Steady de_comma)
        λ b. Steady-bind _ _ h.primary.steady λ e. h.elements (es ++ e ∷ []))

repeated-Honest : (base count : Expr) → Honest is_null_expr (repeated base count)
unfolding repeated is_null_expr
repeated-Honest base (expr t (int_node n)) = pure-Honest _ _ refl
repeated-Honest base _ = undefined-Honest _

pub array-Honest : (self : Grammar) → IsHonest self → Honest is_null_expr (parse_array self)
unfolding parse_array is_null_expr
array-Honest self h = Honest-bind _ _ _ (consume-Steady de_lbracket) λ t.
    Honest-bind _ _ _ h.primary.steady λ base. Honest-bind _ _ _ current_kind-Steady λ k.
      Honest-if _ _ _ _
        (Honest-bind _ _ _ (consume-Steady de_semicolon) λ u.
          Honest-bind _ _ _ h.primary.steady λ count.
            Honest-bind _ _ _ (expect_token-Steady de_rbracket) λ b. repeated-Honest base count)
        (Honest-bind _ _ _ (h.elements (base ∷ []))
          λ es. Honest-bind _ _ _ (consume-Steady de_rbracket) λ u. pure-Honest _ _ refl)

pub indices-Steady :
    (self : Grammar) (es : List Expr) → IsHonest self → Steady (parse_indices self es)
unfolding parse_indices
indices-Steady self es h = Steady-bind _ _ current_kind-Steady λ k.
    Steady-if _ _ _
      (Steady-bind _ _ (consume-Steady de_lbracket) λ t.
        Steady-bind _ _ h.primary.steady
          λ e. Steady-bind _ _ (expect_token-Steady de_rbracket) λ b. h.indices (es ++ e ∷ []))
      (pure-Steady es)

pub array_access-Honest :
    (self : Grammar) (t : Token)
    → IsHonest self
    → Honest is_null_expr (parse_array_access_expr self t)
unfolding parse_array_access_expr is_null_expr
array_access-Honest self t h = Honest-bind _ _ _ (h.indices []) λ es. pure-Honest _ _ refl

pub arguments-Honest :
    (self : Grammar) (es : List Expr)
    → IsHonest self
    → Honest is_none_list (parse_arguments self es)
unfolding parse_arguments is_none_list
arguments-Honest self es h = Honest-bind _ _ _ (h.expr 0).steady λ e.
    Honest-bind _ _ _ current_kind-Steady λ k.
      Honest-if _ _ _ _ (pure-Honest _ _ refl)
        (Honest-expect _ _ _ _ (expect_token-Honest de_comma) (h.arguments (es ++ e ∷ [])))

-- A list that may be missing, and what is made of it.
unfoldable pub some_list : {A : Type 0} → Bool → Parse (Option (List A)) → Parse (Option (List A))
some_list b m = if b then pure (some []) else m

pub some_list-Honest :
    {A : Type 0} (b : Bool) (m : Parse (Option (List A)))
    → Honest is_none_list m
    → Honest is_none_list (some_list b m)
unfolding some_list is_none_list
some_list-Honest b m h = Honest-if _ _ _ _ (pure-Honest _ _ refl) h

call_node-Steady : (t : Token) (o : Option (List Expr)) → Steady (call_node t o)
unfolding call_node
call_node-Steady t none = pure-Steady _
call_node-Steady t (some es) = Steady-bind _ _ (consume-Steady de_rparen) λ u. pure-Steady _

call_node-Honest :
    (t : Token) (o : Option (List Expr))
    → is_none_list o ≡ false
    → Honest is_null_expr (call_node t o)
unfolding call_node is_none_list is_null_expr
call_node-Honest t none e = cc e
call_node-Honest t (some es) e =
    Honest-bind _ _ _ (consume-Steady de_rparen) λ u. pure-Honest _ _ refl

pub fun_call-Honest :
    (self : Grammar) (t : Token) → IsHonest self → Honest is_null_expr (parse_fun_call self t)
unfolding parse_fun_call some_list
fun_call-Honest self t h = Honest-expect _ _ _ _ (expect_token-Honest de_lparen) (
    Honest-bind _ _ _ current_kind-Steady λ k.
      Honest-try is_none_list _ _ _
        (some_list-Honest (is_kind k de_rparen) (self.arguments []) (h.arguments []))
        (λ o e. call_node-Steady t o) (λ o e. call_node-Honest t o e))

pub macro_arguments-Honest :
    (self : Grammar) (es : List Expr)
    → IsHonest self
    → Honest is_none_list (parse_macro_arguments self es)
unfolding parse_macro_arguments is_none_list
macro_arguments-Honest self es h = Honest-bind _ _ _ current_kind-Steady λ k.
    Honest-if _ _ _ _ (pure-Honest _ _ refl) (
      Honest-bind _ _ _ at_end-Steady λ ended.
        Honest-if _ _ _ _ (Honest-report _ _ _ (report_expected_error-Honest de_rparen)) (
          Honest-unless is_null_expr _ _ _ _ (h.expr 0) λ e made.
            Honest-bind _ _ _ current_kind-Steady λ k'. Honest-if _ _ _ _ (pure-Honest _ _ refl) (
              Honest-expect _ _ _ _ (expect_token-Honest de_comma)
                (h.macro_arguments (es ++ e ∷ [])))))

macro_node-Steady :
    (t : Token) (f : Bytes) (b : Bool) (o : Option (List Expr)) → Steady (macro_node t f b o)
unfolding macro_node
macro_node-Steady t f b none = pure-Steady _
macro_node-Steady t f b (some es) = Steady-bind _ _ (consume-Steady de_rparen) λ u. pure-Steady _

macro_node-Honest :
    (t : Token) (f : Bytes) (b : Bool) (o : Option (List Expr))
    → is_none_list o ≡ false
    → Honest is_null_expr (macro_node t f b o)
unfolding macro_node is_none_list is_null_expr
macro_node-Honest t f b none e = cc e
macro_node-Honest t f b (some es) e =
    Honest-bind _ _ _ (consume-Steady de_rparen) λ u. pure-Honest _ _ refl

macro_rest-Honest :
    (self : Grammar) (t : Token) (f : Bytes) (b : Bool)
    → IsHonest self
    → Honest is_null_expr (self.macro_arguments [] >>= λ es. macro_node t f b es)
macro_rest-Honest self t f b h =
    Honest-try is_none_list _ _ _ (h.macro_arguments []) (λ o e. macro_node-Steady t f b o)
      (λ o e. macro_node-Honest t f b o e)

separated-Honest : (b : Bool) → Honest not (if b then pure true else expect_token de_comma)
separated-Honest b = Honest-if _ _ _ _ (pure-Honest _ _ refl) (expect_token-Honest de_comma)

formatted-Steady :
    (self : Grammar) (t : Token) (o : Option Bytes) → IsHonest self → Steady (formatted self t o)
unfolding formatted
formatted-Steady self t none h = pure-Steady _
formatted-Steady self t (some f) h = Steady-bind _ _ current_kind-Steady λ k.
    Steady-bind _ _ (separated-Honest (is_kind k de_rparen)).steady
      λ b. Steady-if _ _ _ (macro_rest-Honest self t f true h).steady (pure-Steady _)

formatted-Honest :
    (self : Grammar) (t : Token) (o : Option Bytes)
    → IsHonest self
    → is_none_text o ≡ false
    → Honest is_null_expr (formatted self t o)
unfolding formatted is_none_text
formatted-Honest self t none h e = cc e
formatted-Honest self t (some f) h e = Honest-bind _ _ _ current_kind-Steady λ k.
    Honest-expect _ _ _ _ (separated-Honest (is_kind k de_rparen))
      (macro_rest-Honest self t f true h)

pub macro_call-Honest :
    (self : Grammar) (t : Token) → IsHonest self → Honest is_null_expr (parse_macro_call self t)
unfolding parse_macro_call
macro_call-Honest self t h = Honest-bind _ _ _ (consume-Steady op_bang) λ u.
    Honest-expect _ _ _ _ (expect_token-Honest de_lparen) (
      Honest-bind _ _ _ current_kind-Steady λ k.
        Honest-if _ _ _ _
          (Honest-try undecoded _ _ _ consume_string-Honest
            (λ f e. formatted-Steady self t (decode_string_literal f.text) h)
            (λ f e. formatted-Honest self t (decode_string_literal f.text) h e))
          (macro_rest-Honest self t [] false h))
