-- ===== src/Sema/TypeChecker/OperatorRules.antt =====
-- The typing rules for the operators, independent of lib/Sema/TypeChecker.cpp.
use trsc.Common.{◌≡◌, ◌⊎◌, Bool, true, false}
use trsc.Lex.Token.{
  TokenKind, op_plus, op_minus, op_star, op_slash, op_equal, op_equalequal, op_bangequal, op_less,
  op_lessequal, op_greater, op_greaterequal, op_plusequal, op_minusequal, op_ampamp, op_pipepipe,
}
use trsc.Types.QualType.{QualType, is_boolean_type, is_numeric_type, bool, builtin}
use trsc.Types.Conversion.{Converts}

unfoldable pub is_arithmetic : TokenKind → Bool
is_arithmetic op_plus = true
is_arithmetic op_minus = true
is_arithmetic op_star = true
is_arithmetic op_slash = true
is_arithmetic op_plusequal = true
is_arithmetic op_minusequal = true
is_arithmetic _ = false

unfoldable pub is_comparison : TokenKind → Bool
is_comparison op_equalequal = true
is_comparison op_bangequal = true
is_comparison op_less = true
is_comparison op_lessequal = true
is_comparison op_greater = true
is_comparison op_greaterequal = true
is_comparison _ = false

unfoldable pub is_logical : TokenKind → Bool
is_logical op_ampamp = true
is_logical op_pipepipe = true
is_logical _ = false

-- The types of the sides and of the result of an operator.
pub data Operator : TokenKind → QualType → QualType → QualType → Type 0 where
  assignment : {l r : QualType} → Converts false r l → Operator op_equal l r l
  arithmetic :
      {op : TokenKind} {l r : QualType}
      → is_arithmetic op ≡ true
      → is_numeric_type l ≡ true
      → is_numeric_type r ≡ true
      → Operator op l r l
  comparison :
      {op : TokenKind} {l r : QualType}
      → is_comparison op ≡ true
      → (l ≡ r) ⊎ ((is_numeric_type l ≡ true) × (is_numeric_type r ≡ true))
      → Operator op l r (builtin bool)
  logical :
      {op : TokenKind} {l r : QualType}
      → is_logical op ≡ true
      → is_boolean_type l ≡ true
      → is_boolean_type r ≡ true
      → Operator op l r (builtin bool)
