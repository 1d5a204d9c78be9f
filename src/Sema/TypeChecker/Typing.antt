-- ===== src/Sema/TypeChecker/Typing.antt =====
-- The typing rules for the expressions of a tree that the type checker has annotated, independent of it.
use trsc.Common.{get_elem?, Bytes, ℕ, ◌<◌, ◌≡◌, Bool, true, false, ◌||◌, Option, none, some, List}
use trsc.Lex.Token.{TokenKind, IdentifierInfo, op_minus, op_bang}
use trsc.Types.QualType.{
  QualType, QualTypes, is_integer_type, is_floating_type, is_boolean_type, is_string_type,
  is_numeric_type, is_array_type, is_null, get_return_type, get_params_type, bool, unit, null,
  builtin, reference, array, nil, cons,
}
use trsc.Types.Conversion.{Converts}
use trsc.Ast.{
  TypeNode, Expr, Exprs, get_type, null_expr, expr, int_node, float_node, bool_node, string_node,
  var_node, refr_node, bin_node, unary_node, as_node, array_node, array_access_node, range_node,
  fun_call_node, macro_call_node, no_exprs, add_expr,
}
use trsc.Sema.Scope.{Symbol}
use trsc.Sema.FormatString.{count_format_arguments}
use trsc.Sema.TypeChecker.Operators.{
  is_assignment, assigned_side, is_println, printed_type, is_printable,
}
use trsc.Sema.TypeChecker.{exprs_length}
use trsc.Sema.TypeChecker.OperatorRules.{Operator}

-- A literal index is within the bounds.
unfoldable pub InBounds : Expr → ℕ → Type 0
InBounds (expr t (int_node k)) n = k < n
InBounds _ n = Unit

-- `println!` has a string as its first argument, with as many placeholders as there are others.
unfoldable pub Formats : Bytes → Bool → ℕ → Type 0
Formats format false n = n ≡ 0
Formats format true n = count_format_arguments format ≡ some n

module _ (symbols : List Symbol) where
  -- What can be assigned to: a mutable variable, or an element of one.
  pub data Assignable : Expr → Type 0 where
    variable :
        {t : QualType} {id : Option IdentifierInfo} {a : ℕ} {s : Symbol}
        → get_elem? symbols a ≡ some s
        → s.is_mutable ≡ true
        → Assignable (expr t (var_node id (some a)))
    element :
        {t u : QualType} {id : Option IdentifierInfo} {a : ℕ} {s : Symbol} {es : Exprs}
        → get_elem? symbols a ≡ some s
        → s.is_mutable ≡ true
        → Assignable (expr t (array_access_node (expr u (var_node id (some a))) es))

  -- The type of an expression is that of its node. It is null for a null pointer, a range, a name without a symbol or
  -- whose symbol has no type yet, and an operation on such an expression. `=` gives its right side the type of the
  -- left. A literal array takes the array type that is expected, whatever its elements are.
  mutual
    pub data HasType : Expr → QualType → Type 0 where
      absent : HasType null_expr null
      of_int : {t : QualType} {n : ℕ} → is_integer_type t ≡ true → HasType (expr t (int_node n)) t
      of_float :
          {t : QualType} {s : Bytes} → is_floating_type t ≡ true → HasType (expr t (float_node s)) t
      of_bool : {b : Bool} → HasType (expr (builtin bool) (bool_node b)) (builtin bool)
      of_string :
          {t : QualType} {s : Bytes} → is_string_type t ≡ true → HasType (expr t (string_node s)) t
      of_unlinked : {id : Option IdentifierInfo} → HasType (expr null (var_node id none)) null
      of_var :
          {id : Option IdentifierInfo} {a : ℕ} {s : Symbol}
          → get_elem? symbols a ≡ some s
          → HasType (expr s.ty (var_node id (some a))) s.ty
      of_refr :
          {e : Expr} {t : QualType} {m : Bool}
          → HasType e t
          → HasType (expr (reference t m) (refr_node e m)) (reference t m)
      of_minus :
          {e : Expr} {t : QualType}
          → HasType e t
          → is_numeric_type t ≡ true
          → HasType (expr t (unary_node op_minus e)) t
      of_bang :
          {e : Expr} {t : QualType}
          → HasType e t
          → is_boolean_type t ≡ true
          → HasType (expr (builtin bool) (unary_node op_bang e)) (builtin bool)
      of_untyped_unary :
          {op : TokenKind} {e : Expr} → HasType e null → HasType (expr null (unary_node op e)) null
      of_binary :
          {op : TokenKind} {l r : Expr} {tl tr t : QualType}
          → HasType l tl
          → HasType r tr
          → Operator op tl tr t
          → (is_assignment op ≡ true → Assignable l)
          → HasType (expr t (bin_node op l (assigned_side op (some t) r))) t
      of_untyped_binary :
          {op : TokenKind} {l r : Expr} {tl tr : QualType}
          → HasType l tl
          → HasType r tr
          → (is_null tl || is_null tr) ≡ true
          → HasType (expr null (bin_node op l r)) null
      of_as :
          {e : Expr} {t u : QualType} {to : TypeNode}
          → HasType e t
          → Converts true t u
          → HasType (expr u (as_node e to)) u
      of_expected_array :
          {es : Exprs} {n : Expr} {shape : List ℕ} {t : QualType}
          → HaveTypes es
          → is_array_type t ≡ true
          → HasType (expr t (array_node es n shape)) t
      of_array :
          {e : Expr} {es : Exprs} {u : QualType} {n : ℕ} {shape : List ℕ} {t : QualType}
          → HaveTypes (add_expr e es)
          → HasType e t
          → HasType
              (expr (array t n) (array_node (add_expr e es) (expr u (int_node n)) shape))
              (array t n)
      of_access :
          {id : Option IdentifierInfo} {a : ℕ} {s : Symbol} {es : Exprs} {t u : QualType}
          → get_elem? symbols a ≡ some s
          → Indices s.ty es t
          → HasType (expr t (array_access_node (expr u (var_node id (some a))) es)) t
      of_range :
          {i : Bool} {from to : Expr} {t u : QualType}
          → HasType from t
          → HasType to u
          → HasType (expr null (range_node i from to)) null
      of_call :
          {id : Option IdentifierInfo} {a : ℕ} {s : Symbol} {es : Exprs} {u : QualType}
          → get_elem? symbols a ≡ some s
          → Arguments (get_params_type s.ty) es
          → HasType
              (expr (get_return_type s.ty) (fun_call_node (expr u (var_node id (some a))) es))
              (get_return_type s.ty)
      of_untyped_call :
          {id : Option IdentifierInfo} {a : ℕ} {s : Symbol} {es : Exprs} {u : QualType}
          → get_elem? symbols a ≡ some s
          → is_null s.ty ≡ true
          → HasType (expr null (fun_call_node (expr u (var_node id (some a))) es)) null
      of_println :
          {name format : Bytes} {has_format : Bool} {es : Exprs}
          → is_println name ≡ true
          → Formats format has_format (exprs_length es)
          → Printed es
          → HasType (expr (builtin unit) (macro_call_node name format has_format es)) (builtin unit)
      of_macro :
          {name format : Bytes} {has_format : Bool} {es : Exprs}
          → is_println name ≡ false
          → HasType (expr (builtin unit) (macro_call_node name format has_format es)) (builtin unit)

    -- Each of the expressions has its type.
    pub data HaveTypes : Exprs → Type 0 where
      no_types : HaveTypes no_exprs
      and_type :
          {e : Expr} {es : Exprs}
          → HasType e (get_type e)
          → HaveTypes es
          → HaveTypes (add_expr e es)

    -- The indices lead from an array's type to the type of an element.
    pub data Indices : QualType → Exprs → QualType → Type 0 where
      no_indices : {t : QualType} → Indices t no_exprs t
      index :
          {e : Expr} {es : Exprs} {t u i : QualType} {n : ℕ}
          → HasType e i
          → is_integer_type i ≡ true
          → InBounds e n
          → Indices t es u
          → Indices (array t n) (add_expr e es) u

    -- The arguments have the types of the parameters.
    pub data Arguments : QualTypes → Exprs → Type 0 where
      no_arguments : Arguments nil no_exprs
      argument :
          {e : Expr} {es : Exprs} {t : QualType} {ts : QualTypes}
          → HasType e t
          → Arguments ts es
          → Arguments (cons t ts) (add_expr e es)

    -- The arguments have types that `println!` prints, or none.
    pub data Printed : Exprs → Type 0 where
      none_printed : Printed no_exprs
      printed :
          {e : Expr} {es : Exprs} {t : QualType}
          → HasType e t
          → (is_null t || is_printable (printed_type t)) ≡ true
          → Printed es
          → Printed (add_expr e es)
