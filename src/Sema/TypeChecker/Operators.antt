-- ===== src/Sema/TypeChecker/Operators.antt =====
-- lib/Sema/TypeChecker.cpp: operators and assignments, and the arguments of `println!`.
use trsc.Common.{
  ◌==◌, if◌then◌else◌, Bytes, codes, bytes_eq, ℕ, Bool, true, false, ◌&&◌, ◌||◌, Option, none, some,
  [],
}
use trsc.Lex.Token.{
  TokenKind, op_plus, op_minus, op_star, op_slash, op_equal, op_equalequal, op_bang, op_bangequal,
  op_less, op_lessequal, op_greater, op_greaterequal, op_plusequal, op_minusequal, op_ampamp,
  op_pipepipe,
}
use trsc.Types.QualType.{
  QualType, is_integer_type, is_floating_type, is_boolean_type, is_string_type, is_numeric_type,
  is_reference_type, is_null, get_base_type, bool, null, builtin,
}
use trsc.Types.Conversion.{are_types_compatible, can_implicitly_convert}
use trsc.Ast.{Expr, set_type, expr, var_node, bin_node, array_access_node}
use trsc.Basic.Diagnostics.{
  minus_needs_numeric, bang_needs_boolean, unsupported_unary, unsupported_binary, not_assignable,
  immutable_assignment, assigned_types, non_numeric, incomparable, non_boolean,
  println_needs_format, invalid_format, placeholder_count, cannot_format,
}
use trsc.Sema.Pass.{pure, ◌>>=◌, ◌>>◌}
use trsc.Sema.FormatString.{count_format_arguments}
use trsc.Sema.TypeChecker.{
  Check, report_error, with_expected, symbol_at, get_symbol, get_name, type_of,
}

unfoldable pub check_unary : TokenKind → QualType → Check QualType
check_unary op_minus t =
    if is_numeric_type t then pure t else (do report_error (minus_needs_numeric t); pure null)
check_unary op_bang t =
    if is_boolean_type t
    then pure (builtin bool)
    else (do report_error (bang_needs_boolean t); pure null)
check_unary op t = do report_error (unsupported_unary op); pure null

unfoldable pub is_assignment : TokenKind → Bool
is_assignment op_equal = true
is_assignment op_plusequal = true
is_assignment op_minusequal = true
is_assignment _ = false

-- The target of an assignment, and its name.
unfoldable pub target_of : Expr → Check (Option ℕ × Bytes)
unfolding get_symbol get_name
target_of (expr t (var_node id s)) = do name ← get_name (expr t (var_node id s)); pure (s, name)
target_of (expr t (array_access_node array_name es)) = do
  s ← get_symbol array_name
  name ← get_name array_name
  pure (s, name)
target_of e = pure (none, [])

-- Whether there is an error.
unfoldable pub check_mutable : Option ℕ → Bytes → Check Bool
check_mutable none name = do report_error not_assignable; pure true
check_mutable (some a) name = do
  s ← symbol_at a
  if s.is_mutable then pure false else (do report_error (immutable_assignment name); pure true)

unfoldable pub check_target : TokenKind → Expr → Check Bool
unfolding target_of check_mutable
check_target op lhs =
    if is_assignment op
    then (do target ← target_of lhs; check_mutable target.0 target.1)
    else pure false

-- The switch of `visitBinExpr`: the type of the result, or `none` for an error.
unfoldable pub arithmetic_type : TokenKind → QualType → QualType → Check (Option QualType)
arithmetic_type op l r =
    if is_numeric_type l && is_numeric_type r
    then pure (some l)
    else (do report_error (non_numeric op l r); pure none)

unfoldable pub comparison_type : TokenKind → QualType → QualType → Check (Option QualType)
comparison_type op l r =
    if are_types_compatible l r || (is_numeric_type l && is_numeric_type r)
    then pure (some (builtin bool))
    else (do report_error (incomparable op l r); pure none)

unfoldable pub logical_type : TokenKind → QualType → QualType → Check (Option QualType)
logical_type op l r =
    if is_boolean_type l && is_boolean_type r
    then pure (some (builtin bool))
    else (do report_error (non_boolean op l r); pure none)

unfoldable pub assigned_type : QualType → QualType → Check (Option QualType)
assigned_type l r =
    if can_implicitly_convert r l
    then pure (some l)
    else (do report_error (assigned_types l r); pure none)

unfoldable pub binary_type : TokenKind → QualType → QualType → Check (Option QualType)
unfolding assigned_type arithmetic_type comparison_type logical_type
binary_type op_equal l r = assigned_type l r
binary_type op_plus l r = arithmetic_type op_plus l r
binary_type op_minus l r = arithmetic_type op_minus l r
binary_type op_star l r = arithmetic_type op_star l r
binary_type op_slash l r = arithmetic_type op_slash l r
binary_type op_minusequal l r = arithmetic_type op_minusequal l r
binary_type op_plusequal l r = arithmetic_type op_plusequal l r
binary_type op_equalequal l r = comparison_type op_equalequal l r
binary_type op_bangequal l r = comparison_type op_bangequal l r
binary_type op_less l r = comparison_type op_less l r
binary_type op_lessequal l r = comparison_type op_lessequal l r
binary_type op_greater l r = comparison_type op_greater l r
binary_type op_greaterequal l r = comparison_type op_greaterequal l r
binary_type op_ampamp l r = logical_type op_ampamp l r
binary_type op_pipepipe l r = logical_type op_pipepipe l r
binary_type op l r = do report_error (unsupported_binary op); pure none

-- `=` gives its right side the type of the left.
unfoldable pub assigned_side : TokenKind → Option QualType → Expr → Expr
assigned_side op_equal (some t) e = set_type e t
assigned_side op o e = e

unfoldable pub result_type : Bool → Option QualType → QualType
result_type false (some t) = t
result_type _ _ = null

-- `visitBinExpr` behind the visits of the two sides.
unfoldable pub check_binary : TokenKind → Expr → Expr → Check Expr
unfolding check_target binary_type assigned_side result_type
check_binary op l r = do
  lt ← type_of l
  rt ← type_of r
  if is_null lt || is_null rt then pure (expr null (bin_node op l r)) else (do
    failed ← check_target op l
    result ← binary_type op lt rt
    pure (expr (result_type failed result) (bin_node op l (assigned_side op result r))))

-- The right side of an assignment is visited with the type of the left expected.
unfoldable pub under_left : TokenKind → Expr → Check Expr → Check Expr
under_left op l m = if is_assignment op then (do t ← type_of l; with_expected t m) else m

unfoldable pub is_println : Bytes → Bool
is_println name = bytes_eq name (codes "println")

unfoldable pub check_placeholders : Option ℕ → ℕ → Check (Unit {0})
check_placeholders none given = report_error invalid_format
check_placeholders (some count) given =
    if count == given then pure tt else report_error (placeholder_count count given)

unfoldable pub check_format : Bytes → Bool → ℕ → Check (Unit {0})
unfolding check_placeholders
check_format format false given = if given == 0 then pure tt else report_error println_needs_format
check_format format true given = check_placeholders (count_format_arguments format) given

-- What `println!` prints.
unfoldable pub printed_type : QualType → QualType
printed_type t = if is_reference_type t then get_base_type t else t

unfoldable pub is_printable : QualType → Bool
is_printable t = is_integer_type t || is_floating_type t || is_boolean_type t || is_string_type t

unfoldable pub check_printed : QualType → Check (Unit {0})
unfolding printed_type is_printable
check_printed t =
    if is_null t
    then pure tt
    else if is_printable (printed_type t)
    then pure tt
    else report_error (cannot_format t)
