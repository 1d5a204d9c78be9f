-- ===== src/Tests/Checks.antt =====
-- Tests and examples of the type checker and of format strings.
use trsc.Common.{
  length, codes, bytes_eq, ℕ, ◌≡◌, refl, ◌↔◌, true, Option, none, some, List, [], ◌∷◌,
}
use trsc.Lex.Token.{IdentifierInfo, op_plus, op_equal, identifier}
use trsc.Ast.{
  Expr, new_expr, int_expr, bin_expr, get_type, set_type, expr, int_node, var_node, bin_node,
}
use trsc.Types.QualType.{
  kind_value, get_kind, kind_eq, has_kind, is_integer, is_floating, is_integer_type,
  is_floating_type, is_boolean_type, is_numeric_type, is_pointer_type, is_reference_type, is_null,
  type_eq, i32, f32, builtin,
}
use trsc.Types.Conversion.{
  are_types_compatible, converts_directly, can_convert, can_implicitly_convert,
}
use trsc.Basic.Diagnostics.{no_diagnostics}
use trsc.Sema.Scope.{Symbol, symbol_variable}
use trsc.Sema.Pass.{and_then, ◌>>=◌}
use trsc.Sema.FormatString.{
  split_close, starts_with, placeholder, format_round, count_loop, count_format_arguments,
}
use trsc.Sema.FormatString.Placeholders.{Piece, print, holes, count_format_arguments_iff}
use trsc.Sema.TypeChecker.{
  TypeChecker, new_checker, get_expected_type, set_expected_type, with_expected,
  symbol_or_undefined, symbol_at, get_symbol, get_name, type_of, adopted, check_var,
}
use trsc.Sema.TypeChecker.Operators.{
  is_assignment, target_of, check_mutable, check_target, arithmetic_type, assigned_type,
  binary_type, assigned_side, result_type, check_binary, under_left,
}
use trsc.Sema.TypeChecker.Visit.{visit_expr}
use trsc.Sema.TypeChecker.Typing.{HasType}
use trsc.Sema.TypeChecker.Fresh.{Fresh}
use trsc.Sema.TypeChecker.Soundness.{visit_expr-HasType}

count_format_arguments_iff_example :
    (count_format_arguments (codes "{{{}") ≡ some 1)
    ↔ ((ps : List Piece) × (print ps ≡ codes "{{{}") × (holes ps ≡ 1))
count_format_arguments_iff_example = count_format_arguments_iff (codes "{{{}") 1

placeholder_test : count_format_arguments (codes "{{{:?} {}") ≡ some 2
unfolding count_format_arguments count_loop format_round starts_with split_close placeholder
    bytes_eq
placeholder_test = refl

open_test : count_format_arguments (codes "{") ≡ none
unfolding count_format_arguments count_loop format_round starts_with split_close placeholder
    bytes_eq
open_test = refl

-- `let mut x: f32`, and `x = 1 + 2` with x at address 0.
abbrev x_symbol : Symbol
x_symbol = record {
  scp = some 0;
  name = some 0;
  ty = builtin f32;
  kind = symbol_variable;
  is_mutable = true;
  is_initialized = true;
}

abbrev x_id : Option IdentifierInfo
x_id = some (record { addr = 0; name = codes "x"; token_kind = identifier })

abbrev set_x : Expr
set_x =
    bin_expr op_equal (new_expr (var_node x_id (some 0)))
      (bin_expr op_plus (int_expr 1) (int_expr 2))

abbrev typed_int : ℕ → Expr
typed_int n = expr (builtin i32) (int_node n)

-- The sum is an i32, which `=` gives the type of x.
abbrev typed_set_x : Expr
typed_set_x = expr (builtin f32) (
    bin_node op_equal (expr (builtin f32) (var_node x_id (some 0)))
      (expr (builtin f32) (bin_node op_plus (typed_int 1) (typed_int 2))))

abbrev checker : TypeChecker
checker = new_checker (x_symbol ∷ []) no_diagnostics

set_x_test : visit_expr set_x checker ≡ some (typed_set_x, checker)
unfolding visit_expr under_left with_expected get_expected_type set_expected_type check_binary
    check_target target_of check_mutable binary_type arithmetic_type assigned_type assigned_side
    result_type type_of symbol_at symbol_or_undefined check_var get_name get_symbol adopted
    is_assignment new_checker ◌>>=◌ and_then get_type set_type is_null is_integer_type
    is_numeric_type has_kind get_kind is_integer is_floating kind_eq kind_value is_reference_type
    is_pointer_type can_implicitly_convert can_convert converts_directly are_types_compatible
    type_eq is_floating_type is_boolean_type
set_x_test = refl

visit_expr-HasType_example :
    (checker.symbols ≡ checker.symbols)
    × (length checker.diag.log ≡ length checker.diag.log
        → HasType checker.symbols typed_set_x (get_type typed_set_x))
unfolding Fresh
visit_expr-HasType_example =
    visit_expr-HasType set_x typed_set_x checker checker (refl, refl, (refl, refl, refl)) set_x_test
