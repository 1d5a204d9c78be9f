-- ===== src/Sema/TypeChecker/Visit.antt =====
-- lib/Sema/TypeChecker.cpp: the visits. Each gives the node with the types that it has set.
use trsc.Common.{◌==◌, if◌then◌else◌, ℕ, Option, none, some}
use trsc.Types.QualType.{
  QualType, QualTypes, is_integer_type, is_floating_type, is_array_type, is_null, get_return_type,
  get_params_type, get_base_type, type_eq, i32, f64, bool, unit, null, builtin, reference, cons,
}
use trsc.Ast.{
  Expr, Exprs, is_null_expr, null_expr, expr, int_node, float_node, bool_node, string_node,
  var_node, refr_node, bin_node, unary_node, as_node, array_node, array_access_node, range_node,
  fun_call_node, macro_call_node, no_exprs, add_expr,
}
use trsc.Basic.Diagnostics.{
  array_not_found, too_many_indices, not_an_array, function_not_defined, argument_count,
  argument_type,
}
use trsc.Sema.Pass.{pure, undefined, ◌>>=◌, ◌>>◌}
use trsc.Sema.TypeChecker.Operators.{
  check_unary, check_binary, under_left, is_println, check_format, check_printed,
}
use trsc.Sema.TypeChecker.{
  Check, report_error, get_expected_type, with_expected, symbol_at, get_symbol, get_name, type_of,
  exprs_length, types_length, adopted, adopted_string, check_as, check_var, element_expected,
  count_value, array_type, check_index,
}

-- `visitFunCall`: `m` visits the arguments against the parameters' types.
unfoldable pub call_typed :
    QualType → Expr → Exprs → QualType → (QualTypes → Check Exprs) → Check Expr
call_typed t name es function_type m =
    if is_null function_type
    then pure (expr t (fun_call_node name es))
    else if types_length (get_params_type function_type) == exprs_length es
    then (do
      es' ← m (get_params_type function_type)
      pure (expr (get_return_type function_type) (fun_call_node name es')))
    else (do
      text ← get_name name
      report_error
          (argument_count text (types_length (get_params_type function_type)) (exprs_length es))
      pure (expr (get_return_type function_type) (fun_call_node name es)))

unfoldable pub check_call :
    QualType → Expr → Exprs → Option ℕ → (QualTypes → Check Exprs) → Check Expr
unfolding call_typed
check_call t name es none m = do
  report_error function_not_defined
  pure (expr t (fun_call_node name es))
check_call t name es (some a) m = do s ← symbol_at a; call_typed t name es s.ty m

-- `visitArrayAccessExpr`: `m` visits the indices from the array's type on, and gives the type of the element, or `none`
-- for the early return.
unfoldable pub element_type : QualType → Expr → Option QualType × Exprs → Check Expr
element_type t name (some ty, es) = pure (expr ty (array_access_node name es))
element_type t name (none, es) = pure (expr t (array_access_node name es))

unfoldable pub check_access :
    QualType → Expr → Exprs → Option ℕ → (QualType → Check (Option QualType × Exprs)) → Check Expr
unfolding element_type
check_access t name es none m = do
  report_error array_not_found
  pure (expr t (array_access_node name es))
check_access t name es (some a) m = do
  s ← symbol_at a
  if is_array_type s.ty then (do found ← m s.ty; element_type t name found) else (do
    text ← get_name name
    report_error (not_an_array text)
    pure (expr t (array_access_node name es)))

-- One round of the loop over the arguments: `m` is the rest of the loop.
unfoldable pub check_argument : Expr → Expr → Exprs → QualType → Check Exprs → Check Exprs
check_argument name e es t m = do
  given ← type_of e
  if type_eq given t then (do es' ← m; pure (add_expr e es')) else (do
    text ← get_name name
    report_error (argument_type text t given)
    pure (add_expr e es))

unfoldable mutual
  pub visit_expr : Expr → Check Expr
  visit_expr null_expr = pure null_expr
  visit_expr (expr t (int_node n)) = do
    expected ← get_expected_type
    pure (expr (adopted is_integer_type expected i32) (int_node n))
  visit_expr (expr t (float_node s)) = do
    expected ← get_expected_type
    pure (expr (adopted is_floating_type expected f64) (float_node s))
  visit_expr (expr t (bool_node b)) = pure (expr (builtin bool) (bool_node b))
  visit_expr (expr t (string_node s)) = do
    expected ← get_expected_type
    pure (expr (adopted_string expected) (string_node s))
  visit_expr (expr t (var_node id s)) = check_var t id s
  visit_expr (expr t (refr_node e m)) = do
    e' ← visit_expr e
    referent ← type_of e'
    pure (expr (reference referent m) (refr_node e' m))
  visit_expr (expr t (bin_node op l r)) = do
    l' ← visit_expr l
    r' ← under_left op l' (visit_expr r)
    check_binary op l' r'
  visit_expr (expr t (unary_node op e)) = do
    e' ← visit_expr e
    operand ← type_of e'
    if is_null operand
        then pure (expr null (unary_node op e'))
        else (do result ← check_unary op operand; pure (expr result (unary_node op e')))
  visit_expr (expr t (as_node e to)) = do e' ← visit_expr e; check_as t e' to
  visit_expr (expr t (array_node es n shape)) = do
    count ← count_value n
    old ← get_expected_type
    es' ← with_expected (element_expected old) (visit_exprs es)
    made ← array_type old es' count
    pure (expr made (array_node es' n shape))
  visit_expr (expr t (array_access_node name es)) = do
    s ← get_symbol name
    check_access t name es s (λ ty. visit_indices es ty)
  visit_expr (expr t (range_node inclusive from to)) = do
    from' ← visit_expr from
    to' ← visit_expr to
    pure (expr t (range_node inclusive from' to'))
  visit_expr (expr t (fun_call_node name es)) = do
    s ← get_symbol name
    check_call t name es s (λ ps. visit_arguments es name ps)
  visit_expr (expr t (macro_call_node name format has_format es)) =
      if is_println name
      then (do
        check_format format has_format (exprs_length es)
        es' ← visit_printed es
        pure (expr (builtin unit) (macro_call_node name format has_format es')))
      else pure (expr (builtin unit) (macro_call_node name format has_format es))

  pub visit_exprs : Exprs → Check Exprs
  visit_exprs no_exprs = pure no_exprs
  visit_exprs (add_expr e es) = do e' ← visit_expr e; es' ← visit_exprs es; pure (add_expr e' es')

  -- The loop of `visitArrayAccessExpr`, in what is left of the array's type.
  pub visit_indices : Exprs → QualType → Check (Option QualType × Exprs)
  visit_indices no_exprs ty = pure (some ty, no_exprs)
  visit_indices (add_expr e es) ty =
      if is_null_expr e
      then undefined
      else if is_array_type ty
      then (do
        e' ← visit_expr e
        check_index e' ty
        rest ← visit_indices es (get_base_type ty)
        pure (rest.0, add_expr e' rest.1))
      else (do report_error too_many_indices; pure (none, add_expr e es))

  -- The loop of `visitFunCall`.
  pub visit_arguments : Exprs → Expr → QualTypes → Check Exprs
  visit_arguments (add_expr e es) name (cons t ts) = do
    e' ← with_expected t (visit_expr e)
    check_argument name e' es t (visit_arguments es name ts)
  visit_arguments es name ts = pure es

  -- The loop of `visitMacroCall`.
  pub visit_printed : Exprs → Check Exprs
  visit_printed no_exprs = pure no_exprs
  visit_printed (add_expr e es) = do
    e' ← visit_expr e
    t ← type_of e'
    check_printed t
    es' ← visit_printed es
    pure (add_expr e' es')
