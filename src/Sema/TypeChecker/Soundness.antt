-- ===== src/Sema/TypeChecker/Soundness.antt =====
-- The type checker against the typing rules.
use trsc.Common.{length, suc, ◌≡◌, refl, sym, ap, ◌∙◌, subst, some, List, arith}
use trsc.Types.QualType.{
  QualType, QualTypes, is_integer_type, is_floating_type, is_array_type, is_null, get_base_type,
  i32, f64, nil, cons,
}
use trsc.Ast.{
  Expr, Exprs, get_type, is_null_expr, null_expr, expr, int_node, float_node, bool_node,
  string_node, var_node, refr_node, bin_node, unary_node, as_node, array_node, array_access_node,
  range_node, fun_call_node, macro_call_node, no_exprs, add_expr,
}
use trsc.Sema.Scope.{Symbol}
use trsc.Sema.Pass.Rules.{Yields-pure, Yields-undefined, Yields-bind, Yields-if}
use trsc.Sema.TypeChecker.{TypeChecker, exprs_length, types_length, element_expected}
use trsc.Sema.TypeChecker.Operators.{is_println}
use trsc.Sema.TypeChecker.Visit.{
  visit_expr, visit_exprs, visit_indices, visit_arguments, visit_printed,
}
use trsc.Sema.TypeChecker.Typing.{
  Formats, HasType, HaveTypes, Indices, Arguments, Printed, absent, of_int, of_float, of_bool,
  of_string, of_refr, of_untyped_unary, of_range, of_println, of_macro, no_types, and_type,
  no_indices, index, no_arguments, none_printed, printed,
}
use trsc.Sema.TypeChecker.Fresh.{Fresh, AllFresh}
use trsc.Sema.TypeChecker.Steps.{
  Good, reported-Good, get_expected_type-Good, with_expected-Good, type_of-Good, get_symbol-Good,
  Judged,
}
use trsc.Sema.TypeChecker.Nodes.{
  null-eq, adopted_lem, adopted_string_lem, var-Good, read, unary-Good, as-Good, binary-Good,
}
use trsc.Sema.TypeChecker.Loops.{
  index-Good, format-Good, printed-Good, count_value-Good, array_type-Good, argument-Good,
  call-Good, access-Good, under_left-Good, i32_lem, f64_lem,
}

module _ (symbols : List Symbol) where
  mutual
    unfolding visit_expr Fresh get_type exprs_length types_length get_base_type

    visit_expr-Good : (e : Expr) → Fresh e → Good symbols (Judged symbols) (visit_expr e)
    visit_expr-Good null_expr f = Yields-pure _ _ _ absent
    visit_expr-Good (expr t (int_node n)) f =
        Yields-bind _ _ _ _ (get_expected_type-Good symbols) λ expected.
          Yields-pure _ _ _ λ u. of_int (adopted_lem is_integer_type expected i32 (i32_lem symbols))
    visit_expr-Good (expr t (float_node s)) f =
        Yields-bind _ _ _ _ (get_expected_type-Good symbols) λ expected.
          Yields-pure _ _ _
            λ u. of_float (adopted_lem is_floating_type expected f64 (f64_lem symbols))
    visit_expr-Good (expr t (bool_node b)) f = Yields-pure _ _ _ of_bool
    visit_expr-Good (expr t (string_node s)) f =
        Yields-bind _ _ _ _ (get_expected_type-Good symbols)
          λ expected. Yields-pure _ _ _ λ u. of_string (adopted_string_lem expected)
    visit_expr-Good (expr t (var_node id s)) f = rw f (var-Good symbols id s)
    visit_expr-Good (expr t (refr_node e m)) (_, f) =
        Yields-bind _ _ _ _ (visit_expr-Good e f) λ e'.
          Yields-bind _ _ _ _ (type_of-Good symbols e')
            λ u. Yields-pure _ _ _ λ (p, _) h. of_refr (read symbols h p)
    visit_expr-Good (expr t (bin_node op l r)) (_, f, g) =
        Yields-bind _ _ _ _ (visit_expr-Good l f) λ l'.
          Yields-bind _ _ _ _ (under_left-Good symbols op l' (visit_expr r) (visit_expr-Good r g))
            λ r'. binary-Good symbols op l' r'
    visit_expr-Good (expr t (unary_node op e)) (_, f) =
        Yields-bind _ _ _ _ (visit_expr-Good e f) λ e'.
          Yields-bind _ _ _ _ (type_of-Good symbols e') λ u.
            Yields-if _ _ (is_null u) _ _
              (λ b.
                Yields-pure _ _ _ λ (p, _) h. of_untyped_unary (read symbols h (p ∙ null-eq u b)))
              (λ b.
                Yields-bind _ _ _ _ (unary-Good symbols op e' u)
                  λ result. Yields-pure _ _ _ λ made (p, _) h. made (read symbols h p))
    visit_expr-Good (expr t (as_node e to)) (z, f) =
        rw z (Yields-bind _ _ _ _ (visit_expr-Good e f) λ e'. as-Good symbols e' to)
    visit_expr-Good (expr t (array_node es n shape)) (_, f) =
        Yields-bind _ _ _ _ (count_value-Good symbols n) λ count.
          Yields-bind _ _ _ _ (get_expected_type-Good symbols) λ old.
            Yields-bind _ _ _ _
              (with_expected-Good symbols (element_expected old) _ (visit_exprs-Good es f))
              λ es'.
                Yields-bind _ _ _ _ (array_type-Good symbols old es' count shape)
                  λ made. Yields-pure _ _ _ λ rule h _ (u, same). rw same (rule u h)
    visit_expr-Good (expr t (array_access_node name es)) (_, f) =
        Yields-bind _ _ _ _ (get_symbol-Good symbols name)
          λ s. access-Good symbols t name es s _ (λ ty. visit_indices-Good es ty f)
    visit_expr-Good (expr t (range_node i from to)) (z, f, g) =
        Yields-bind _ _ _ _ (visit_expr-Good from f) λ a.
          Yields-bind _ _ _ _ (visit_expr-Good to g)
            λ b. Yields-pure _ _ _ λ q p. rw z (of_range p q)
    visit_expr-Good (expr t (fun_call_node name es)) (z, f) = rw z (
        Yields-bind _ _ _ _ (get_symbol-Good symbols name) λ s.
          call-Good symbols name es s (λ ps. visit_arguments es name ps)
            (λ ts same. visit_arguments-Good es name ts f same))
    visit_expr-Good (expr t (macro_call_node name format h es)) (_, f) =
        Yields-if _ _ (is_println name) _ _
          (λ b. Yields-bind _ _ _ _ (format-Good symbols format h (exprs_length es)) λ u.
            Yields-bind _ _ _ _ (visit_printed-Good es f) λ es'.
              Yields-pure _ _ _
                λ (p, same) formats. of_println b (subst (Formats format h) (sym same) formats) p)
          (λ b. Yields-pure _ _ _ (of_macro b))

    visit_exprs-Good :
        (es : Exprs) → AllFresh es → Good symbols (HaveTypes symbols) (visit_exprs es)
    visit_exprs-Good no_exprs f = Yields-pure _ _ _ no_types
    visit_exprs-Good (add_expr e es) (f, g) = Yields-bind _ _ _ _ (visit_expr-Good e f) λ e'.
        Yields-bind _ _ _ _ (visit_exprs-Good es g) λ es'. Yields-pure _ _ _ λ q p. and_type p q

    visit_indices-Good :
        (es : Exprs) (ty : QualType)
        → AllFresh es
        → Good symbols
            (λ r. (e : QualType) × (r.0 ≡ some e) × Indices symbols ty r.1 e)
            (visit_indices es ty)
    visit_indices-Good no_exprs ty f = Yields-pure _ _ _ (ty, refl, no_indices)
    visit_indices-Good (add_expr e es) ty (f, g) =
        Yields-if _ _ (is_null_expr e) _ _ (λ b. Yields-undefined _ _)
          (λ b.
            Yields-if _ _ (is_array_type ty) _ _
              (λ c. Yields-bind _ _ _ _ (visit_expr-Good e f) λ e'.
                Yields-bind _ _ _ _ (index-Good symbols e' ty) λ u.
                  Yields-bind _ _ _ _ (visit_indices-Good es (get_base_type ty) g) λ rest.
                    Yields-pure _ _ _ λ (x, made, h) (base, n, same, int, bound) p.
                      (x, made, rw same (index p int bound (rw same at h))))
              (λ c. reported-Good symbols _ _))

    visit_arguments-Good :
        (es : Exprs) (name : Expr) (ts : QualTypes)
        → AllFresh es
        → types_length ts ≡ exprs_length es
        → Good symbols (Arguments symbols ts) (visit_arguments es name ts)
    visit_arguments-Good (add_expr e es) name (cons t ts) (f, g) same =
        Yields-bind _ _ _ _ (with_expected-Good symbols t _ (visit_expr-Good e f)) λ e'.
          argument-Good symbols name e' es t ts _
            (visit_arguments-Good es name ts g (omega (arith, same)))
    visit_arguments-Good no_exprs name nil f same = Yields-pure _ _ _ no_arguments
    visit_arguments-Good no_exprs name (cons t ts) f same = absurd (omega (arith, same))
    visit_arguments-Good (add_expr e es) name nil f same = absurd (omega (arith, same))

    visit_printed-Good :
        (es : Exprs)
        → AllFresh es
        → Good symbols
            (λ es'. Printed symbols es' × (exprs_length es' ≡ exprs_length es))
            (visit_printed es)
    visit_printed-Good no_exprs f = Yields-pure _ _ _ (none_printed, refl)
    visit_printed-Good (add_expr e es) (f, g) = Yields-bind _ _ _ _ (visit_expr-Good e f) λ e'.
        Yields-bind _ _ _ _ (type_of-Good symbols e') λ t.
          Yields-bind _ _ _ _ (printed-Good symbols t) λ u.
            Yields-bind _ _ _ _ (visit_printed-Good es g) λ es'.
              Yields-pure _ _ _
                λ (ps, same) fits (p, _) h. (printed (read symbols h p) fits ps, ap suc same)

-- Where the type checker returns from an expression whose nodes have no types yet, the symbols are as they were; and if it
-- reported nothing more, the expression that it leaves has the type of its node by the typing rules.
pub visit_expr-HasType :
    (e e' : Expr) (c c' : TypeChecker)
    → Fresh e
    → visit_expr e c ≡ some (e', c')
    → (c'.symbols ≡ c.symbols)
      × (length c'.diag.log ≡ length c.diag.log → HasType c.symbols e' (get_type e'))
visit_expr-HasType e e' c c' f run =
    let h = visit_expr-Good c.symbols e f in (h.kept c e' c' refl run, h.holds c e' c' refl run)
