-- ===== src/Sema/TypeChecker.antt =====
-- lib/Sema/TypeChecker.cpp: the state of the type checker, and what each method does around the visits
-- of the children. The visits are in TypeChecker/Visit.
pub mod Operators
pub mod Visit
pub mod Statements
pub mod Typing
pub mod Steps
pub mod Nodes
pub mod Loops
pub mod Soundness
pub mod Fresh
pub mod OperatorRules
pub mod Signatures
use trsc.Common.{
  leb, if◌then◌else◌, get_elem?, set, Bytes, ℕ, suc, Bool, not, ◌&&◌, Option, none, some, List,
}
use trsc.Lex.Token.{IdentifierInfo}
use trsc.Types.QualType.{
  TypeKind, QualType, QualTypes, is_integer_type, is_string_type, is_pointer_type,
  is_reference_type, is_array_type, is_null, get_base_type, string, null, builtin, pointer,
  reference, array, nil, cons,
}
use trsc.Types.Builtins.{get_type_by_name}
use trsc.Types.Conversion.{can_explicitly_convert, number}
use trsc.Ast.{
  TypeNode, Expr, Exprs, null_type, type_name, pointer_type_name, reference_type_name,
  array_type_name, null_expr, expr, int_node, var_node, as_node, no_exprs, add_expr,
}
use trsc.Basic.Diagnostics.{
  Message, DiagnosticsEngine, report, error, cannot_convert, index_not_integer, index_out_of_bounds,
}
use trsc.Sema.Scope.{Symbol}
use trsc.Sema.Pass.{Pass, pure, undefined, ◌>>=◌, ◌>>◌}

-- `symbols` are the symbols of the table, which the nodes lead to by their addresses.
pub record TypeChecker : Type 0 where
  pub symbols : List Symbol
  pub diag : DiagnosticsEngine
  pub expected_type : QualType
  pub current_function_return_type : QualType

abbrev pub Check : Type 0 → Type 0
Check A = Pass TypeChecker A

-- The constructor.
unfoldable pub new_checker : List Symbol → DiagnosticsEngine → TypeChecker
new_checker symbols d = record {
  symbols = symbols;
  diag = d;
  expected_type = null;
  current_function_return_type = null;
}

unfoldable pub report_error : Message → Check (Unit {0})
report_error m c = some (tt, record c { diag = report c.diag error m })

unfoldable pub get_expected_type : Check QualType
get_expected_type c = some (c.expected_type, c)

unfoldable pub set_expected_type : QualType → Check (Unit {0})
set_expected_type t c = some (tt, record c { expected_type = t })

unfoldable pub get_return : Check QualType
get_return c = some (c.current_function_return_type, c)

unfoldable pub set_return : QualType → Check (Unit {0})
set_return t c = some (tt, record c { current_function_return_type = t })

-- A visit with another expected type, which is put back behind it.
unfoldable pub with_expected : {A : Type 0} → QualType → Check A → Check A
with_expected t m = do
  old ← get_expected_type
  set_expected_type t
  a ← m
  set_expected_type old
  pure a

unfoldable pub symbol_or_undefined : Option Symbol → Check Symbol
symbol_or_undefined (some s) = pure s
symbol_or_undefined none = undefined

-- The symbol at an address.
unfoldable pub symbol_at : ℕ → Check Symbol
unfolding symbol_or_undefined
symbol_at a c = symbol_or_undefined (get_elem? c.symbols a) c

unfoldable pub write_symbol : ℕ → Symbol → Check (Unit {0})
write_symbol a s c = some (tt, record c { symbols = set c.symbols a s })

unfoldable pub set_mutable : ℕ → Bool → Check (Unit {0})
set_mutable a m = do s ← symbol_at a; write_symbol a (record s { is_mutable = m })

unfoldable pub set_symbol_type : ℕ → QualType → Check (Unit {0})
set_symbol_type a t = do s ← symbol_at a; write_symbol a (record s { ty = t })

-- `getSymbol` and `getName` of a `VarExpr`, and `getType` of an expression.
unfoldable pub get_symbol : Expr → Check (Option ℕ)
get_symbol (expr t (var_node id s)) = pure s
get_symbol _ = undefined

unfoldable pub get_name : Expr → Check Bytes
get_name (expr t (var_node (some id) s)) = pure id.name
get_name _ = undefined

unfoldable pub type_of : Expr → Check QualType
type_of null_expr = undefined
type_of (expr t e) = pure t

unfoldable pub exprs_length : Exprs → ℕ
exprs_length no_exprs = 0
exprs_length (add_expr e es) = suc (exprs_length es)

unfoldable pub types_length : QualTypes → ℕ
types_length nil = 0
types_length (cons t ts) = suc (types_length ts)

unfoldable pub resolve_type : TypeNode → Check QualType
resolve_type null_type = undefined
resolve_type (type_name none) = undefined
resolve_type (type_name (some id)) = pure (get_type_by_name id.name)
resolve_type (pointer_type_name t m) = do p ← resolve_type t; pure (pointer p m)
resolve_type (reference_type_name t m) = do p ← resolve_type t; pure (reference p m)
resolve_type (array_type_name t n) = do p ← resolve_type t; pure (array p n)

-- The type that a literal adopts where it is expected.
unfoldable pub adopted : (QualType → Bool) → QualType → TypeKind → QualType
adopted suits expected default =
    if not (is_null expected)
      && suits expected
      && (not (is_reference_type expected) && not (is_pointer_type expected))
    then expected
    else builtin default

unfoldable pub adopted_string : QualType → QualType
adopted_string expected =
    if not (is_null expected) && is_string_type expected then expected else builtin string

-- `visitASExpr`, behind the visit: the type of the node before, and the node's two parts.
unfoldable pub check_as : QualType → Expr → TypeNode → Check Expr
check_as t e to = do
  from_type ← type_of e
  to_type ← resolve_type to
  if can_explicitly_convert from_type to_type
      then pure (expr to_type (as_node e to))
      else (do report_error (cannot_convert from_type to_type); pure (expr t (as_node e to)))

-- `visitVarExpr`
unfoldable pub check_var : QualType → Option IdentifierInfo → Option ℕ → Check Expr
check_var t id none = pure (expr t (var_node id none))
check_var t id (some a) = do s ← symbol_at a; pure (expr s.ty (var_node id (some a)))

-- `visitArrayExpr`: what the elements are expected to be, and the type of the literal. A number is a
-- ℕ here, as the parser makes it, and the test for a negative count is left out.
unfoldable pub element_expected : QualType → QualType
element_expected old = if is_array_type old then get_base_type old else null

unfoldable pub count_value : Expr → Check ℕ
count_value (expr t (int_node n)) = pure n
count_value _ = undefined

unfoldable pub first_type : Exprs → Check QualType
unfolding type_of
first_type no_exprs = undefined
first_type (add_expr e es) = type_of e

unfoldable pub array_type : QualType → Exprs → ℕ → Check QualType
unfolding first_type
array_type old es n =
    if not (is_null old)
      && is_array_type old
      && not (is_reference_type old)
      && not (is_pointer_type old)
    then pure old
    else (do t ← first_type es; pure (array t n))

-- The tests of one index in `visitArrayAccessExpr`, in an array of some size.
unfoldable pub check_bound : Expr → ℕ → Check (Unit {0})
check_bound (expr t (int_node n)) size =
    if leb size n then report_error index_out_of_bounds else pure tt
check_bound _ size = pure tt

unfoldable pub check_index : Expr → QualType → Check (Unit {0})
unfolding check_bound
check_index e (array t size) = do
  index_type ← type_of e
  if is_integer_type index_type then pure tt else report_error index_not_integer
  check_bound e size
check_index e _ = undefined
