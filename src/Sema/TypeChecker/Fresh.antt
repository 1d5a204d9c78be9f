-- ===== src/Sema/TypeChecker/Fresh.antt =====
-- The trees that the parser makes: no node has a type yet.
use trsc.Common.{◌≡◌}
use trsc.Types.QualType.{null}
use trsc.Ast.{
  Expr, Exprs, null_expr, expr, refr_node, bin_node, unary_node, as_node, array_node,
  array_access_node, range_node, fun_call_node, macro_call_node, no_exprs, add_expr,
}

-- No node of a new tree has a type.
unfoldable mutual
  pub Fresh : Expr → Type 0
  Fresh null_expr = Unit
  Fresh (expr t (refr_node e m)) = (t ≡ null) × Fresh e
  Fresh (expr t (bin_node op l r)) = (t ≡ null) × Fresh l × Fresh r
  Fresh (expr t (unary_node op e)) = (t ≡ null) × Fresh e
  Fresh (expr t (as_node e to)) = (t ≡ null) × Fresh e
  Fresh (expr t (array_node es n shape)) = (t ≡ null) × AllFresh es
  Fresh (expr t (array_access_node name es)) = (t ≡ null) × AllFresh es
  Fresh (expr t (range_node i from to)) = (t ≡ null) × Fresh from × Fresh to
  Fresh (expr t (fun_call_node name es)) = (t ≡ null) × AllFresh es
  Fresh (expr t (macro_call_node name f h es)) = (t ≡ null) × AllFresh es
  Fresh (expr t _) = t ≡ null

  pub AllFresh : Exprs → Type 0
  AllFresh no_exprs = Unit
  AllFresh (add_expr e es) = Fresh e × AllFresh es
