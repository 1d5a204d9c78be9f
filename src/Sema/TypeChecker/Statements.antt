-- ===== src/Sema/TypeChecker/Statements.antt =====
-- lib/Sema/TypeChecker.cpp: the statements and the program.
use trsc.Common.{if◌then◌else◌, ℕ, Bool, true, false, not, ◌&&◌, ◌||◌, Option, none, some, List}
use trsc.Types.QualType.{
  QualType, is_integer_type, is_boolean_type, is_unit_type, is_null, get_return_type, i32, null,
  builtin,
}
use trsc.Types.Conversion.{are_types_compatible, can_implicitly_convert}
use trsc.Ast.{
  TypeNode, Expr, get_type, Param, Stmt, Stmts, is_null_expr, is_null_type, is_mut, expr,
  range_node, null_stmt, let_stmt, block_stmt, if_stmt, expr_stmt, for_stmt, while_stmt, func_decl,
  return_stmt, no_stmts, add_stmt,
}
use trsc.Basic.Diagnostics.{
  Message, variable_not_found, needs_type_or_initializer, unit_binding, unknown_type,
  initializer_mismatch, if_condition, while_condition, for_needs_range, range_needs_ends,
  range_untyped, for_needs_iterator, range_not_integer, iterator_not_found, return_mismatch,
  return_missing, return_unexpected,
}
use trsc.Sema.Pass.{pure, undefined, ◌>>=◌, ◌>>◌}
use trsc.Sema.TypeChecker.Visit.{visit_expr}
use trsc.Sema.TypeChecker.{
  Check, report_error, get_return, set_return, with_expected, set_mutable, set_symbol_type,
  get_symbol, get_name, type_of, resolve_type,
}
use trsc.Sema.TypeChecker.Signatures.{resolve_func_signature}

-- The end of `visitLetStmt`: the variable gets its type.
unfoldable pub bind_type : ℕ → QualType → Check (Unit {0})
bind_type a t =
    if is_unit_type t
    then report_error unit_binding
    else if is_null t
    then pure tt
    else set_symbol_type a t

unfoldable pub initialized : Bool → Expr → TypeNode → Expr → QualType → ℕ → Check Stmt
unfolding bind_type
initialized m var t init declared a =
    if not (is_null (get_type init)) && not (can_implicitly_convert declared (get_type init))
    then (do
      report_error (initializer_mismatch declared (get_type init))
      pure (let_stmt m var t init))
    else (do bind_type a declared; pure (let_stmt m var t init))

unfoldable pub let_declared : Bool → Expr → TypeNode → Expr → ℕ → Check Stmt
unfolding initialized
let_declared m var t init a = do
  set_mutable a (is_mut t || m)
  declared ← resolve_type t
  if is_null declared then (do report_error (unknown_type t); pure (let_stmt m var t init)) else (do
    init' ← with_expected declared (visit_expr init)
    initialized m var t init' declared a)

unfoldable pub let_inferred : Bool → Expr → TypeNode → Expr → ℕ → Check Stmt
unfolding bind_type
let_inferred m var t init a = do
  init' ← visit_expr init
  if is_null (get_type init')
      then (do report_error needs_type_or_initializer; pure (let_stmt m var t init'))
      else (do bind_type a (get_type init'); pure (let_stmt m var t init'))

-- `visitLetStmt`, with the symbol of the variable.
unfoldable pub check_let : Bool → Expr → TypeNode → Expr → Option ℕ → Check Stmt
unfolding let_declared let_inferred
check_let m var t init none = do report_error variable_not_found; pure (let_stmt m var t init)
check_let m var t init (some a) = do
  if m then set_mutable a true else pure tt
  if is_null_type t then let_inferred m var t init a else let_declared m var t init a

-- `visitIfStmt` and `visitWhileStmt` behind the visit of the condition: whether the branches are visited.
unfoldable pub check_condition : Expr → (QualType → Message) → Check Bool
check_condition c message = do
  t ← type_of c
  if is_null t
      then pure false
      else (do if is_boolean_type t then pure tt else report_error (message t); pure true)

unfoldable pub check_range : QualType → QualType → Check (Unit {0})
check_range from to =
    if is_null from || is_null to
    then report_error range_untyped
    else if is_integer_type from && is_integer_type to
    then pure tt
    else report_error (range_not_integer from to)

unfoldable pub set_iterator : Expr → Option ℕ → Check (Unit {0})
set_iterator init none = do name ← get_name init; report_error (iterator_not_found name)
set_iterator init (some a) = set_symbol_type a (builtin i32)

-- `visitForStmt` behind the visit of the range: whether the body is visited.
unfoldable pub check_for : Expr → Expr → Check Bool
unfolding check_range set_iterator
check_for init (expr t (range_node inclusive from to)) =
    if is_null_expr from || is_null_expr to
    then (do report_error range_needs_ends; pure false)
    else (do
      check_range (get_type from) (get_type to)
      if is_null_expr init
          then (do report_error for_needs_iterator; pure false)
          else (do s ← get_symbol init; set_iterator init s; pure true))
check_for init _ = undefined

-- `visitFuncDecl` around the visit of the body.
unfoldable pub check_function : Expr → TypeNode → List Param → Check Stmt → Check Stmt
unfolding resolve_func_signature
check_function name t ps m = do
  old ← get_return
  set_return null
  function_type ← resolve_func_signature name t ps
  if not (is_null_type t) && not (is_null function_type)
      then set_return (get_return_type function_type)
      else pure tt
  body ← m
  set_return old
  pure (func_decl name t ps body)

-- `visitReturnStmt` behind the visit of the value.
unfoldable pub check_return : QualType → QualType → Check (Unit {0})
check_return actual expected =
    if not (is_null actual) && not (is_null expected)
    then (if are_types_compatible expected actual
        then pure tt
        else report_error (return_mismatch expected actual))
    else if is_null actual && not (is_null expected)
    then report_error (return_missing expected)
    else if not (is_null actual) && is_null expected
    then report_error (return_unexpected actual)
    else pure tt

-- `visit` where the test before it holds, and the node as it was where it does not.
unfoldable pub visit_if : {A : Type 0} → Bool → A → Check A → Check A
visit_if true a m = m
visit_if false a m = pure a

unfoldable mutual
  pub visit_stmt : Stmt → Check Stmt
  visit_stmt null_stmt = pure null_stmt
  visit_stmt (let_stmt m var t init) = do s ← get_symbol var; check_let m var t init s
  visit_stmt (block_stmt ss) = do ss' ← visit_stmts ss; pure (block_stmt ss')
  visit_stmt (if_stmt c a b) = do
    c' ← visit_expr c
    typed ← check_condition c' if_condition
    a' ← visit_if typed a (visit_stmt a)
    b' ← visit_if typed b (visit_stmt b)
    pure (if_stmt c' a' b')
  visit_stmt (expr_stmt e) = do e' ← visit_expr e; pure (expr_stmt e')
  visit_stmt (for_stmt init range body) =
      if is_null_expr range
      then (do report_error for_needs_range; pure (for_stmt init range body))
      else (do
        range' ← visit_expr range
        ranged ← check_for init range'
        body' ← visit_if ranged body (visit_stmt body)
        pure (for_stmt init range' body'))
  visit_stmt (while_stmt c body) = do
    c' ← visit_expr c
    typed ← check_condition c' while_condition
    body' ← visit_if typed body (visit_stmt body)
    pure (while_stmt c' body')
  visit_stmt (func_decl name t ps body) = check_function name t ps (visit_stmt body)
  visit_stmt (return_stmt e) = do
    e' ← visit_expr e
    expected ← get_return
    check_return (get_type e') expected
    pure (return_stmt e')

  pub visit_stmts : Stmts → Check Stmts
  visit_stmts no_stmts = pure no_stmts
  visit_stmts (add_stmt s ss) = do s' ← visit_stmt s; ss' ← visit_stmts ss; pure (add_stmt s' ss')

-- The first loop of `visitProgram`.
unfoldable pub check_signature : Stmt → Check (Unit {0})
check_signature null_stmt = undefined
check_signature (func_decl name t ps body) = do resolve_func_signature name t ps; pure tt
check_signature s = pure tt

unfoldable pub check_signatures : Stmts → Check (Unit {0})
unfolding check_signature
check_signatures no_stmts = pure tt
check_signatures (add_stmt s ss) = do check_signature s; check_signatures ss

unfoldable pub visit_program : Stmts → Check Stmts
unfolding check_signatures
visit_program ss = do check_signatures ss; visit_stmts ss
