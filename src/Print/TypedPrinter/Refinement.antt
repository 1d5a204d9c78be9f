-- ===== src/Print/TypedPrinter/Refinement.antt =====
-- What lib/AST/TypedASTPrinter.cpp prints of a program is the drawing of its outline.
use trsc.Common.{◌+◌, ◌^◌, ◌<◌, ◌≡◌, refl, ap, Bool, true, List, [], ◌∷◌, arith}
use trsc.Ast.{
  TypeNode, Expr, ExprNode, Exprs, Stmt, Stmts, Param, null_type, type_name, pointer_type_name,
  reference_type_name, array_type_name, null_expr, expr, int_node, float_node, bool_node,
  string_node, var_node, refr_node, bin_node, unary_node, as_node, array_node, array_access_node,
  range_node, fun_call_node, macro_call_node, no_exprs, add_expr, null_stmt, let_stmt, block_stmt,
  if_stmt, expr_stmt, for_stmt, while_stmt, func_decl, return_stmt, no_stmts, add_stmt,
}
use trsc.Types.QualType.{QualType}
use trsc.Print.Pieces.{Piece}
use trsc.Print.TypedPrinter.{TypedPrinter, Print, ◌▸◌, write, deeper, shallower}
use trsc.Print.TypedPrinter.Nodes.{
  print_present, print_only, visit_program, visit_let_stmt, visit_if_stmt, visit_while_stmt,
  visit_for_stmt, visit_block_stmt, visit_expr_stmt, visit_return_stmt, print_param,
  visit_func_decl, visit_fun_call, visit_macro_call, visit_array_access_expr, visit_array_expr,
  visit_refr_expr, print_two, visit_bin_expr, visit_unary_expr, visit_range_expr, visit_as_expr,
}
use trsc.Print.TypedPrinter.Visit.{
  visit_type, visit_expr, visit_node, visit_exprs, visit_params, visit_stmt, visit_stmts,
  print_program,
}
use trsc.Print.TypedPrinter.Drawing.{Tree, draw, height, ◌⧺◌, line}
use trsc.Print.TypedPrinter.Rules.{
  Draws, DrawsBranches, Draws-child, Draws-nothing, Draws-leaf, DrawsBranches-then,
  DrawsBranches-when, Draws-line, Draws-line_when, Draws-new,
}
use trsc.Print.TypedPrinter.Outline.{
  twig, branches, indexed, first_branches, element_branches, outline_type, outline_expr,
  outline_node, outline_exprs, outline_params, outline_stmt, outline_stmts, outline_program,
}
use trsc.Print.TypedPrinter.Loops.{
  DrawsAll, print_params-Draws, print_children-Draws, print_elements-Draws, print_indices-Draws,
  element_branches-Draws, Draws-list, no_draws, add_draws,
}

-- A child that is printed where it is there.
twig-Draws :
    (there last : Bool) (visit : Print) (t : Tree)
    → Draws visit t
    → DrawsBranches
        (print_present last (record { is_there = there; visit = visit }))
        (twig there last t)
unfolding print_present
twig-Draws there last visit t h = DrawsBranches-when there _ _ (Draws-child visit t last h)

-- The only child of a node.
only-Draws :
    (label : List Piece) (there : Bool) (visit : Print) (t : Tree)
    → Draws visit t
    → Draws
        (write label ▸ print_only (record { is_there = there; visit = visit }))
        (line label (twig there true t))
unfolding print_only
only-Draws label there visit t h = Draws-line_when there label _ _ (Draws-child visit t true h)

-- Two children below a line, and three.
two-Draw :
    (label : List Piece) (there there' last last' : Bool) (visit visit' : Print) (t t' : Tree)
    → Draws visit t
    → Draws visit' t'
    → Draws
        (write label
          ▸ deeper
          ▸ print_present last (record { is_there = there; visit = visit })
          ▸ print_present last' (record { is_there = there'; visit = visit' })
          ▸ shallower)
        (line label (twig there last t ⧺ twig there' last' t'))
two-Draw label there there' last last' visit visit' t t' h h' = Draws-line label _ _ (
    DrawsBranches-then _ _ _ _ (twig-Draws there last visit t h)
      (twig-Draws there' last' visit' t' h'))

three-Draw :
    (label : List Piece) (there there' there'' last last' last'' : Bool)
    (visit visit' visit'' : Print) (t t' t'' : Tree)
    → Draws visit t
    → Draws visit' t'
    → Draws visit'' t''
    → Draws
        (write label
          ▸ deeper
          ▸ print_present last (record { is_there = there; visit = visit })
          ▸ print_present last' (record { is_there = there'; visit = visit' })
          ▸ print_present last'' (record { is_there = there''; visit = visit'' })
          ▸ shallower)
        (line label (twig there last t ⧺ twig there' last' t' ⧺ twig there'' last'' t''))
three-Draw label there there' there'' last last' last'' visit visit' visit'' t t' t'' h h' h'' =
    Draws-line label _ _ (
      DrawsBranches-then _ _ _ _ (twig-Draws there last visit t h) (
        DrawsBranches-then _ _ _ _ (twig-Draws there' last' visit' t' h')
          (twig-Draws there'' last'' visit'' t'' h'')))

visit_type-Draws : (t : TypeNode) → Draws (visit_type t) (outline_type t)
unfolding visit_type outline_type
visit_type-Draws null_type = Draws-nothing
visit_type-Draws (type_name i) = Draws-leaf _
visit_type-Draws (pointer_type_name t m) = Draws-leaf _
visit_type-Draws (reference_type_name t m) = Draws-leaf _
visit_type-Draws (array_type_name t n) = Draws-leaf _

mutual
  unfolding visit_expr outline_expr visit_refr_expr visit_bin_expr visit_unary_expr visit_as_expr
      visit_array_expr visit_array_access_expr visit_range_expr visit_fun_call visit_macro_call
      print_two branches indexed element_branches first_branches ◌⧺◌

  visit_expr-Draws : (e : Expr) → Draws (visit_expr e) (outline_expr e)
  visit_expr-Draws null_expr = Draws-nothing
  visit_expr-Draws (expr t e) = visit_node-Draws t e

  visit_node-Draws : (t : QualType) (e : ExprNode) → Draws (visit_node t e) (outline_node t e)
  visit_node-Draws t (int_node n) = Draws-leaf _
  visit_node-Draws t (float_node d) = Draws-leaf _
  visit_node-Draws t (bool_node b) = Draws-leaf _
  visit_node-Draws t (string_node s) = Draws-leaf _
  visit_node-Draws t (var_node i symbol) = Draws-leaf _
  visit_node-Draws t (refr_node e m) = only-Draws _ _ _ _ (visit_expr-Draws e)
  visit_node-Draws t (bin_node op l r) =
      two-Draw _ _ _ _ _ _ _ _ _ (visit_expr-Draws l) (visit_expr-Draws r)
  visit_node-Draws t (unary_node op e) = Draws-line _ _ _ (twig-Draws _ _ _ _ (visit_expr-Draws e))
  visit_node-Draws t (as_node e to) =
      two-Draw _ _ _ _ _ _ _ _ _ (visit_expr-Draws e) (visit_type-Draws to)
  visit_node-Draws t (array_node es n shape) =
      Draws-list _ _ _ _ _ (visit_exprs-Draw es) (λ e. rw e refl)
        (element_branches-Draws _ _ (visit_exprs-Draw es))
  visit_node-Draws t (array_access_node name es) =
      Draws-list _ _ _ _ _ (visit_exprs-Draw es) (λ e. rw e refl)
        (print_indices-Draws 0 _ _ (visit_exprs-Draw es))
  visit_node-Draws t (range_node inclusive from to) =
      two-Draw _ _ _ _ _ _ _ _ _ (visit_expr-Draws from) (visit_expr-Draws to)
  visit_node-Draws t (fun_call_node name es) =
      Draws-list _ _ _ _ _ (visit_exprs-Draw es) (λ e. rw e refl)
        (print_children-Draws _ _ (visit_exprs-Draw es))
  visit_node-Draws t (macro_call_node name format has_format es) =
      Draws-list _ _ _ _ _ (visit_exprs-Draw es) (λ e. rw e refl)
        (print_elements-Draws _ _ (visit_exprs-Draw es))

  visit_exprs-Draw : (es : Exprs) → DrawsAll (visit_exprs es) (outline_exprs es)
  visit_exprs-Draw no_exprs = no_draws
  visit_exprs-Draw (add_expr e es) = add_draws _ _ _ _ (visit_expr-Draws e) (visit_exprs-Draw es)

visit_params-Draw : (ps : List Param) → DrawsAll (visit_params ps) (outline_params ps)
unfolding visit_params outline_params print_param
visit_params-Draw [] = no_draws
visit_params-Draw ((name, type) ∷ ps) =
    add_draws _ _ _ _ (two-Draw _ _ _ _ _ _ _ _ _ (visit_expr-Draws name) (visit_type-Draws type))
      (visit_params-Draw ps)

mutual
  unfolding visit_stmt outline_stmt visit_let_stmt visit_block_stmt visit_if_stmt visit_expr_stmt
      visit_for_stmt visit_while_stmt visit_func_decl visit_return_stmt

  visit_stmt-Draws : (s : Stmt) → Draws (visit_stmt s) (outline_stmt s)
  visit_stmt-Draws null_stmt = Draws-nothing
  visit_stmt-Draws (let_stmt m name type initializer) =
      three-Draw _ _ _ _ _ _ _ _ _ _ _ _ _ (visit_expr-Draws name) (visit_type-Draws type)
        (visit_expr-Draws initializer)
  visit_stmt-Draws (block_stmt ss) =
      Draws-line _ _ _ (print_children-Draws _ _ (visit_stmts-Draw ss))
  visit_stmt-Draws (if_stmt c then_branch else_branch) =
      three-Draw _ _ _ _ _ _ _ _ _ _ _ _ _ (visit_expr-Draws c) (visit_stmt-Draws then_branch)
        (visit_stmt-Draws else_branch)
  visit_stmt-Draws (expr_stmt e) = only-Draws _ _ _ _ (visit_expr-Draws e)
  visit_stmt-Draws (for_stmt init range body) =
      three-Draw _ _ _ _ _ _ _ _ _ _ _ _ _ (visit_expr-Draws init) (visit_expr-Draws range)
        (visit_stmt-Draws body)
  visit_stmt-Draws (while_stmt c body) =
      two-Draw _ _ _ _ _ _ _ _ _ (visit_expr-Draws c) (visit_stmt-Draws body)
  visit_stmt-Draws (func_decl name return_type params body) = Draws-line _ _ _ (
      DrawsBranches-then _ _ _ _ (print_params-Draws _ _ _ (visit_params-Draw params)) (
        DrawsBranches-then _ _ _ _ (twig-Draws _ _ _ _ (visit_type-Draws return_type))
          (twig-Draws _ _ _ _ (visit_stmt-Draws body))))
  visit_stmt-Draws (return_stmt e) = only-Draws _ _ _ _ (visit_expr-Draws e)

  visit_stmts-Draw : (ss : Stmts) → DrawsAll (visit_stmts ss) (outline_stmts ss)
  visit_stmts-Draw no_stmts = no_draws
  visit_stmts-Draw (add_stmt s ss) = add_draws _ _ _ _ (visit_stmt-Draws s) (visit_stmts-Draw ss)

-- A program whose outline has less than `2 ^ 32 - 1` levels below its first line is printed as the
-- drawing of the outline, which has no counter of levels and no stack of flags.
pub print_program-draw :
    (ss : Stmts)
    → height (outline_program ss) + 1 < 2 ^ 32
    → print_program ss ≡ draw [] (outline_program ss)
unfolding print_program visit_program outline_program
print_program-draw ss fits =
    let drawn : Draws (visit_program (visit_stmts ss)) (outline_program ss) =
      Draws-line _ _ _ (print_children-Draws _ _ (visit_stmts-Draw ss)) in
    ap (λ (p : TypedPrinter). p.os) (Draws-new _ _ drawn (omega arith))
