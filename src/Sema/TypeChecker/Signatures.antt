-- ===== src/Sema/TypeChecker/Signatures.antt =====
-- lib/Sema/TypeChecker.cpp: the signatures of functions.
use trsc.Common.{if◌then◌else◌, ℕ, Option, none, some, List, [], ◌∷◌}
use trsc.Types.QualType.{QualType, QualTypes, is_null, unit, null, builtin, function, nil, cons}
use trsc.Ast.{TypeNode, Expr, Param, is_null_type}
use trsc.Basic.Diagnostics.{
  unknown_parameter_type, parameter_not_found, parameter_needs_type, unknown_return_type,
}
use trsc.Sema.Pass.{pure, ◌>>=◌, ◌>>◌}
use trsc.Sema.TypeChecker.{
  Check, report_error, symbol_at, set_symbol_type, get_symbol, get_name, resolve_type,
}

-- The loop over the parameters in `resolveFuncSignature`: the types of those that have a symbol and a type.
unfoldable pub set_parameter : Expr → QualType → Option ℕ → Check QualTypes
set_parameter name t none = do
  text ← get_name name
  report_error (parameter_not_found text)
  pure nil
set_parameter name t (some a) = do set_symbol_type a t; pure (cons t nil)

unfoldable pub check_parameter : Param → Check QualTypes
unfolding set_parameter
check_parameter (name, t) =
    if is_null_type t
    then (do text ← get_name name; report_error (parameter_needs_type text); pure nil)
    else (do
      ty ← resolve_type t
      if is_null ty
          then (do text ← get_name name; report_error (unknown_parameter_type text); pure nil)
          else (do s ← get_symbol name; set_parameter name ty s))

unfoldable pub append_types : QualTypes → QualTypes → QualTypes
append_types nil us = us
append_types (cons t ts) us = cons t (append_types ts us)

unfoldable pub check_parameters : List Param → Check QualTypes
unfolding check_parameter append_types
check_parameters [] = pure nil
check_parameters (p ∷ ps) = do
  t ← check_parameter p
  ts ← check_parameters ps
  pure (append_types t ts)

unfoldable pub return_type : Expr → TypeNode → Check QualType
return_type name t = if is_null_type t then pure (builtin unit) else (do
  ty ← resolve_type t
  if is_null ty
      then (do text ← get_name name; report_error (unknown_return_type text); pure ty)
      else pure ty)

unfoldable pub known_type : Option ℕ → Check QualType
known_type none = pure null
known_type (some a) = do s ← symbol_at a; pure s.ty

unfoldable pub set_function_type : Option ℕ → QualType → Check (Unit {0})
set_function_type none t = pure tt
set_function_type (some a) t = set_symbol_type a t

unfoldable pub resolve_func_signature : Expr → TypeNode → List Param → Check QualType
unfolding known_type check_parameters return_type set_function_type
resolve_func_signature name t ps = do
  s ← get_symbol name
  known ← known_type s
  if is_null known
      then (do
        parameters ← check_parameters ps
        returned ← return_type name t
        set_function_type s (function returned parameters)
        pure (function returned parameters))
      else pure known
