-- ===== src/Parse/Honesty/TypeFuel.antt =====
-- `parseType` ends: each of its calls of itself comes after a token that it has consumed.
use trsc.Common.{
  if◌then◌else◌, if_elim, ℕ, zero, suc, ◌≤◌, ◌<◌, ◌≡◌, ◌≢◌, Bool, true, false, Option, none, some,
  arith,
}
use trsc.Ast.{TypeNode, is_null_type, null_type, type_name, reference_type_name}
use trsc.Lex.Token.{
  TokenKind, is_kind, kw_mut, kw_const, op_star, op_amp, de_lbracket, de_rbracket, de_semicolon,
  lt_integer, identifier,
}
use trsc.Basic.Diagnostics.{raw_pointer_needs_mut_or_const, expected_array_size}
use trsc.Parse.Cursor.{
  Parser, Parse, pure, and_then, ◌>>=◌, ◌>>◌, current_kind_of, current_kind, report_expected_error,
  consume, expect_token, out_of_fuel,
}
use trsc.Parse.Grammar.{Grammar}
use trsc.Parse.Types.{
  parse_pointer_mutability, pointer_node, parse_pointer_type, parse_reference_type,
  parse_array_size, parse_array_type, parse_type,
}
use trsc.Parse.Knot.{methods, grammar}
use trsc.Parse.Honesty.{IsParser, Steady, pure-Steady, Steady-if, Steady-bind}
use trsc.Parse.Honesty.Helpers.{current_kind-Steady, current_token-Steady, consume-Steady}
use trsc.Parse.Honesty.Interface.{
  expect_token-Steady, report_error-Steady, report_expected_error-Steady,
}
use trsc.Parse.Honesty.Types.{mutability-Steady}
use trsc.Parse.Honesty.Methods.{grammar-IsHonest}
use trsc.Parse.Honesty.Fuel.{
  remaining, Enough, Enough-bind, Enough-if, pure-Enough, current_kind-Enough, current_token-Enough,
  report_error-Enough, report_expected_error-Enough, consume-Enough, expect_token-Enough,
  Enough-consume,
}

array_size-Enough : (d : ℕ) (e : TypeNode) → Enough d (parse_array_size e)
unfolding parse_array_size
array_size-Enough d e = Enough-bind d _ _ (current_kind-Enough d) current_kind-Steady λ k.
    Enough-if d (is_kind k lt_integer) _ _
      (Enough-bind d _ _ (current_token-Enough d) current_token-Steady λ t.
        Enough-bind d _ _ (consume-Enough d lt_integer) (consume-Steady lt_integer) λ u.
          Enough-bind d _ _ (expect_token-Enough d de_rbracket) (expect_token-Steady de_rbracket)
            λ c. Enough-if d c _ _ (pure-Enough d _) (pure-Enough d _))
      (Enough-bind d _ _ (report_error-Enough d expected_array_size)
        (report_error-Steady expected_array_size) λ u. pure-Enough d null_type)

-- What follows the first token of an array type, of a reference type and of a pointer type.
array_rest-Enough :
    (d : ℕ) (self : Grammar)
    → Enough d self.type_node
    → Steady self.type_node
    → Enough d (
        self.type_node >>= λ element.
        if is_null_type element
        then pure null_type
        else (expect_token de_semicolon >>= λ sized.
            if sized then parse_array_size element else pure null_type))
array_rest-Enough d self x s = Enough-bind d _ _ x s λ element.
    Enough-if d (is_null_type element) _ _ (pure-Enough d _) (
      Enough-bind d _ _ (expect_token-Enough d de_semicolon) (expect_token-Steady de_semicolon)
        λ b. Enough-if d b _ _ (array_size-Enough d element) (pure-Enough d _))

mutable-Enough :
    (d : ℕ) (k : TokenKind)
    → Enough d (if is_kind k kw_mut then (consume kw_mut >> pure true) else pure false)
mutable-Enough d k =
    Enough-if d (is_kind k kw_mut) _ _
      (Enough-bind d _ _ (consume-Enough d kw_mut) (consume-Steady kw_mut) λ t. pure-Enough d true)
      (pure-Enough d false)

mutable-Steady :
    (k : TokenKind)
    → Steady (if is_kind k kw_mut then (consume kw_mut >> pure true) else pure false)
mutable-Steady k =
    Steady-if (is_kind k kw_mut) _ _ (Steady-bind _ _ (consume-Steady kw_mut) λ t. pure-Steady true)
      (pure-Steady false)

mutability-Enough : (d : ℕ) → Enough d parse_pointer_mutability
unfolding parse_pointer_mutability
mutability-Enough d = Enough-bind d _ _ (current_kind-Enough d) current_kind-Steady λ k.
    Enough-if d (is_kind k kw_mut) _ _
      (Enough-bind d _ _ (consume-Enough d kw_mut) (consume-Steady kw_mut)
        λ t. pure-Enough d (some true))
      (Enough-if d (is_kind k kw_const) _ _
        (Enough-bind d _ _ (consume-Enough d kw_const) (consume-Steady kw_const)
          λ t. pure-Enough d (some false))
        (Enough-bind d _ _ (report_error-Enough d raw_pointer_needs_mut_or_const)
          (report_error-Steady raw_pointer_needs_mut_or_const) λ u. pure-Enough d none))

pointer_node-Enough : (d : ℕ) (t : TypeNode) (b : Option Bool) → Enough d (pointer_node t b)
unfolding pointer_node
pointer_node-Enough d t (some b) = pure-Enough d _
pointer_node-Enough d t none = record { at = λ p v le e. cc e }

pointer_type-Enough :
    (d : ℕ) (self : Grammar)
    → ((d' : ℕ) → d' < d → Enough d' self.type_node)
    → Steady self.type_node
    → (p : Parser) → IsParser p
    → remaining p ≤ d
    → is_kind (current_kind_of p) op_star ≡ true
    → parse_pointer_type self p ≢ out_of_fuel
unfolding parse_pointer_type
pointer_type-Enough d self h s p v le e =
    Enough-consume d op_star _ p (λ x. cc x)
      (λ d' lt t. Enough-bind d' _ _ (mutability-Enough d') mutability-Steady λ b.
        Enough-bind d' _ _ (h d' lt) s λ pointee.
          Enough-if d' (is_null_type pointee) _ _ (pure-Enough d' null_type)
            (pointer_node-Enough d' pointee b))
      v le e

reference_type-Enough :
    (d : ℕ) (self : Grammar)
    → ((d' : ℕ) → d' < d → Enough d' self.type_node)
    → Steady self.type_node
    → (p : Parser) → IsParser p
    → remaining p ≤ d
    → is_kind (current_kind_of p) op_amp ≡ true
    → parse_reference_type self p ≢ out_of_fuel
unfolding parse_reference_type
reference_type-Enough d self h s p v le e =
    Enough-consume d op_amp _ p (λ x. cc x)
      (λ d' lt t. Enough-bind d' _ _ (current_kind-Enough d') current_kind-Steady λ k.
        Enough-bind d' _ _ (mutable-Enough d' k) (mutable-Steady k) λ b.
          Enough-bind d' _ _ (h d' lt) s λ referent.
            Enough-if d' (is_null_type referent) _ _ (pure-Enough d' null_type)
              (pure-Enough d' (reference_type_name referent b)))
      v le e

array_type-Enough :
    (d : ℕ) (self : Grammar)
    → ((d' : ℕ) → d' < d → Enough d' self.type_node)
    → Steady self.type_node
    → (p : Parser) → IsParser p
    → remaining p ≤ d
    → is_kind (current_kind_of p) de_lbracket ≡ true
    → parse_array_type self p ≢ out_of_fuel
unfolding parse_array_type
array_type-Enough d self h s p v le e =
    Enough-consume d de_lbracket _ p (λ x. cc x) (λ d' lt t. array_rest-Enough d' self (h d' lt) s)
      v le e

name-Enough :
    (d : ℕ) (b : Bool)
    → Enough d (
        if b
        then (consume identifier >>= λ t. pure (type_name t.id))
        else (report_expected_error identifier >> pure null_type))
name-Enough d b =
    Enough-if d b _ _
      (Enough-bind d _ _ (consume-Enough d identifier) (consume-Steady identifier)
        λ t. pure-Enough d (type_name t.id))
      (Enough-bind d _ _ (report_expected_error-Enough d identifier)
        (report_expected_error-Steady identifier) λ u. pure-Enough d null_type)

type-Enough :
    (d : ℕ) (self : Grammar)
    → ((d' : ℕ) → d' < d → Enough d' self.type_node)
    → Steady self.type_node
    → (p : Parser) → IsParser p
    → remaining p ≤ d
    → parse_type self p ≢ out_of_fuel
unfolding parse_type current_kind ◌>>=◌ and_then
type-Enough d self h s p v le =
    let k = current_kind_of p in
    if_elim {A = Parse TypeNode} (λ m. m p ≢ out_of_fuel) (is_kind k op_star)
      (λ e. pointer_type-Enough d self h s p v le e)
      (λ e.
        if_elim {A = Parse TypeNode} (λ m. m p ≢ out_of_fuel) (is_kind k op_amp)
          (λ e'. reference_type-Enough d self h s p v le e')
          (λ e'.
            if_elim {A = Parse TypeNode} (λ m. m p ≢ out_of_fuel) (is_kind k de_lbracket)
              (λ e''. array_type-Enough d self h s p v le e'')
              (λ e''. (name-Enough d (is_kind k identifier)).at p v le)))

-- On a cursor within fewer than 2 ^ 32 tokens, which end with `ENDOFFILE` and whose string literals are all
-- terminated, `parseType` ends: fuel for one call more than there are tokens before the end marker is
-- never used up.
pub type_node-ends :
    (n : ℕ) (p : Parser) → IsParser p → remaining p < n → (grammar n).type_node p ≢ out_of_fuel
unfolding grammar methods
type_node-ends zero p v lt = absurd (omega arith)
type_node-ends (suc n) p v lt =
    type-Enough (remaining p) (grammar n)
      (λ d' less. record { at = λ q w le. type_node-ends n q w (omega arith) })
      (grammar-IsHonest n).type_node.steady p v (omega arith)
