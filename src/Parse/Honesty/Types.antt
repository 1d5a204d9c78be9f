-- ===== src/Parse/Honesty/Types.antt =====
-- `parseType` keeps the laws.
use trsc.Common.{refl, Bool, Option, none, some}
use trsc.Ast.{TypeNode, is_null_type}
use trsc.Lex.Token.{op_star, op_amp, de_lbracket, identifier}
use trsc.Parse.Grammar.{Grammar}
use trsc.Parse.Types.{
  parse_pointer_mutability, pointer_node, parse_pointer_type, parse_reference_type,
  parse_array_size, parse_array_type, parse_type,
}
use trsc.Parse.Honesty.{
  Steady, Honest, pure-Honest, undefined-Honest, Honest-if, Honest-bind, Honest-unless,
}
use trsc.Parse.Honesty.Helpers.{
  current_kind-Steady, report_expected_error-Honest, Honest-report, consume-Steady,
}
use trsc.Parse.Honesty.Interface.{IsHonest, steady_rules, honest_rules}

array_size-Honest : (e : TypeNode) → Honest is_null_type (parse_array_size e)
unfolding parse_array_size is_null_type
array_size-Honest e = search honest_rules depth 14

array_type-Honest : (self : Grammar) → IsHonest self → Honest is_null_type (parse_array_type self)
unfolding parse_array_type
array_type-Honest self h = Honest-bind _ _ _ (consume-Steady de_lbracket) λ t.
    Honest-unless is_null_type _ _ _ _ h.type_node
      λ element made. search (honest_rules, array_size-Honest) depth 14

reference_type-Honest :
    (self : Grammar) → IsHonest self → Honest is_null_type (parse_reference_type self)
unfolding parse_reference_type is_null_type
reference_type-Honest self h = Honest-bind _ _ _ (consume-Steady op_amp) λ t.
    Honest-bind _ _ _ current_kind-Steady λ k.
      Honest-bind _ _ _ (search steady_rules) λ is_mut.
        Honest-unless is_null_type _ _ _ _ h.type_node λ referent made. pure-Honest _ _ refl

pointer_node-Honest : (t : TypeNode) (b : Option Bool) → Honest is_null_type (pointer_node t b)
unfolding pointer_node is_null_type
pointer_node-Honest t (some b) = pure-Honest _ _ refl
pointer_node-Honest t none = undefined-Honest _

pub mutability-Steady : Steady parse_pointer_mutability
unfolding parse_pointer_mutability
mutability-Steady = search honest_rules depth 14

pointer_type-Honest :
    (self : Grammar) → IsHonest self → Honest is_null_type (parse_pointer_type self)
unfolding parse_pointer_type
pointer_type-Honest self h = Honest-bind _ _ _ (consume-Steady op_star) λ t.
    Honest-bind _ _ _ mutability-Steady λ is_mut.
      Honest-unless is_null_type _ _ _ _ h.type_node
        λ pointee made. pointer_node-Honest pointee is_mut

pub type-Honest : (self : Grammar) → IsHonest self → Honest is_null_type (parse_type self)
unfolding parse_type is_null_type
type-Honest self h = Honest-bind _ _ _ current_kind-Steady λ k.
    Honest-if _ _ _ _ (pointer_type-Honest self h) (
      Honest-if _ _ _ _ (reference_type-Honest self h) (
        Honest-if _ _ _ _ (array_type-Honest self h) (
          Honest-if _ _ _ _
            (Honest-bind _ _ _ (consume-Steady identifier) λ t. pure-Honest _ _ refl)
            (Honest-report _ _ _ (report_expected_error-Honest identifier)))))
