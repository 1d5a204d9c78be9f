-- ===== src/Print/TypedPrinter/LastBranches.antt =====
-- The branches that lib/AST/TypedASTPrinter.cpp draws as the last ones.
use trsc.Common.{
  length, suc, ◌+◌, ◌^◌, ◌<◌, ◌≡◌, refl, ap, ◌∙◌, Bool, true, false, not, ◌&&◌, ◌||◌, List, [], ◌∷◌,
  ◌++◌, arith,
}
use trsc.Ast.{
  TypeNode, Expr, ExprNode, Exprs, Stmt, Stmts, Param, null_type, type_name, pointer_type_name,
  reference_type_name, array_type_name, null_expr, expr, int_node, float_node, bool_node,
  string_node, var_node, refr_node, bin_node, unary_node, as_node, array_node, array_access_node,
  range_node, fun_call_node, macro_call_node, no_exprs, add_expr, null_stmt, let_stmt, block_stmt,
  if_stmt, expr_stmt, for_stmt, while_stmt, func_decl, return_stmt, no_stmts, add_stmt,
  is_null_expr, is_null_stmt, is_null_type,
}
use trsc.Types.QualType.{QualType}
use trsc.Print.TypedPrinter.Drawing.{
  Tree, Branches, trunks, draw, draw_branches, height, ◌⧺◌, nothing, line, no_branches, add_branch,
}
use trsc.Print.TypedPrinter.{branch}
use trsc.Print.Pieces.{Piece}
use trsc.Print.TypedPrinter.Visit.{print_program}
use trsc.Print.TypedPrinter.Refinement.{print_program-draw}
use trsc.Print.TypedPrinter.Outline.{
  twig, outline_type, outline_expr, outline_node, outline_exprs, outline_params, outline_stmt,
  outline_stmts, outline_program,
}
use trsc.Print.TypedPrinter.Completeness.{
  size, IsComplete, NodeIsComplete, AreComplete, ParamsAreComplete, StmtIsComplete,
  StmtsAreComplete,
}
use trsc.Print.TypedPrinter.Flags.{
  are_none, IsFlagged, AreFlagged, end_AreFlagged, twig-AreFlagged, are_none-twig, are_none-two,
  AllFlagged, branches-AreFlagged, all_branches-AreFlagged, indexed-AreFlagged,
  element_branches-AreFlagged,
}

-- Two children, the first flagged as the second says, and the second as the last.
pair_AreFlagged :
    (there there' b : Bool) (t t' : Tree)
    → b ≡ not there'
    → IsFlagged t
    → IsFlagged t'
    → AreFlagged (twig there b t ⧺ twig there' true t')
pair_AreFlagged there there' b t t' e h h' =
    twig-AreFlagged there b t _ h (e ∙ are_none-twig there' true t') (end_AreFlagged there' t' h')

three_AreFlagged :
    (there there' there'' b b' : Bool) (t t' t'' : Tree)
    → b ≡ not (there' || there'')
    → b' ≡ not there''
    → IsFlagged t
    → IsFlagged t'
    → IsFlagged t''
    → AreFlagged (twig there b t ⧺ twig there' b' t' ⧺ twig there'' true t'')
three_AreFlagged there there' there'' b b' t t' t'' e e' h h' h'' =
    twig-AreFlagged there b t _ h (e ∙ are_none-two there' there'' b' true t' t'')
      (pair_AreFlagged there' there'' b' t' t'' e' h' h'')

-- `false` is the flag before a child that is there.
behind : (b : Bool) → b ≡ false → false ≡ not (not b)
behind b h = cc

behind_any : (a b : Bool) → b ≡ false → false ≡ not (a || not b)
behind_any true b h = refl
behind_any false b h = cc

not_both : (a b : Bool) → (not a && not b) ≡ not (a || b)
not_both true b = refl
not_both false b = refl

outline_type-IsFlagged : (t : TypeNode) → IsFlagged (outline_type t)
unfolding outline_type IsFlagged
outline_type-IsFlagged null_type = tt
outline_type-IsFlagged (type_name i) = tt
outline_type-IsFlagged (pointer_type_name t m) = tt
outline_type-IsFlagged (reference_type_name t m) = tt
outline_type-IsFlagged (array_type_name t n) = tt

length-outline_exprs : (es : Exprs) → length (outline_exprs es) ≡ size es
unfolding outline_expr size
length-outline_exprs no_exprs = refl
length-outline_exprs (add_expr e es) = ap suc (length-outline_exprs es)

mutual
  unfolding outline_expr IsComplete IsFlagged AllFlagged

  outline_expr-IsFlagged : (e : Expr) → IsComplete e → IsFlagged (outline_expr e)
  outline_expr-IsFlagged null_expr h = tt
  outline_expr-IsFlagged (expr t e) h = outline_node-IsFlagged t e h

  outline_node-IsFlagged :
      (t : QualType) (e : ExprNode) → NodeIsComplete e → IsFlagged (outline_node t e)
  outline_node-IsFlagged t (int_node n) h = tt
  outline_node-IsFlagged t (float_node d) h = tt
  outline_node-IsFlagged t (bool_node b) h = tt
  outline_node-IsFlagged t (string_node s) h = tt
  outline_node-IsFlagged t (var_node i symbol) h = tt
  outline_node-IsFlagged t (refr_node e m) h = end_AreFlagged _ _ (outline_expr-IsFlagged e h)
  outline_node-IsFlagged t (bin_node op l r) (there, h, h') =
      pair_AreFlagged _ _ false _ _ (behind (is_null_expr r) there) (outline_expr-IsFlagged l h)
        (outline_expr-IsFlagged r h')
  outline_node-IsFlagged t (unary_node op e) h = end_AreFlagged _ _ (outline_expr-IsFlagged e h)
  outline_node-IsFlagged t (as_node e to) h =
      pair_AreFlagged _ _ _ _ _ refl (outline_expr-IsFlagged e h) (outline_type-IsFlagged to)
  outline_node-IsFlagged t (array_node es n shape) (few, h) =
      element_branches-AreFlagged (outline_exprs es) (outline_exprs-AllFlagged es h)
        (omega (arith, length-outline_exprs es))
  outline_node-IsFlagged t (array_access_node name es) h =
      indexed-AreFlagged 0 (outline_exprs es) (outline_exprs-AllFlagged es h)
  outline_node-IsFlagged t (range_node inclusive from to) (there, h, h') =
      pair_AreFlagged _ _ false _ _ (behind (is_null_expr to) there) (outline_expr-IsFlagged from h)
        (outline_expr-IsFlagged to h')
  outline_node-IsFlagged t (fun_call_node name es) h =
      all_branches-AreFlagged (outline_exprs es) (outline_exprs-AllFlagged es h)
  outline_node-IsFlagged t (macro_call_node name format has_format es) h =
      all_branches-AreFlagged (outline_exprs es) (outline_exprs-AllFlagged es h)

  outline_exprs-AllFlagged : (es : Exprs) → AreComplete es → AllFlagged (outline_exprs es)
  outline_exprs-AllFlagged no_exprs h = tt
  outline_exprs-AllFlagged (add_expr e es) (h, hs) =
      (outline_expr-IsFlagged e h, outline_exprs-AllFlagged es hs)

outline_params-AllFlagged :
    (ps : List Param) → ParamsAreComplete ps → AllFlagged (outline_params ps)
unfolding outline_params ParamsAreComplete AllFlagged IsFlagged
outline_params-AllFlagged [] h = tt
outline_params-AllFlagged ((name, type) ∷ ps) (there, h, hs) = (
  pair_AreFlagged _ _ false _ _ (behind (is_null_type type) there) (outline_expr-IsFlagged name h)
      (outline_type-IsFlagged type),
  outline_params-AllFlagged ps hs,
)

mutual
  unfolding outline_stmt StmtIsComplete IsFlagged AllFlagged

  outline_stmt-IsFlagged : (s : Stmt) → StmtIsComplete s → IsFlagged (outline_stmt s)
  outline_stmt-IsFlagged null_stmt h = tt
  outline_stmt-IsFlagged (let_stmt m name type initializer) (h, h') =
      three_AreFlagged _ (not (is_null_type type)) (not (is_null_expr initializer)) _ _ _ _ _ refl
        refl (outline_expr-IsFlagged name h) (outline_type-IsFlagged type)
        (outline_expr-IsFlagged initializer h')
  outline_stmt-IsFlagged (block_stmt ss) h =
      all_branches-AreFlagged (outline_stmts ss) (outline_stmts-AllFlagged ss h)
  outline_stmt-IsFlagged (if_stmt c then_branch else_branch) (h, h', h'') =
      three_AreFlagged _ (not (is_null_stmt then_branch)) (not (is_null_stmt else_branch)) _ _ _ _ _
        refl refl (outline_expr-IsFlagged c h) (outline_stmt-IsFlagged then_branch h')
        (outline_stmt-IsFlagged else_branch h'')
  outline_stmt-IsFlagged (expr_stmt e) h = end_AreFlagged _ _ (outline_expr-IsFlagged e h)
  outline_stmt-IsFlagged (for_stmt init range body) (there, h, h', h'') =
      three_AreFlagged _ _ _ false _ _ _ _
        (behind_any (not (is_null_expr range)) (is_null_stmt body) there) refl
        (outline_expr-IsFlagged init h) (outline_expr-IsFlagged range h')
        (outline_stmt-IsFlagged body h'')
  outline_stmt-IsFlagged (while_stmt c body) (there, h, h') =
      pair_AreFlagged _ _ false _ _ (behind (is_null_stmt body) there) (outline_expr-IsFlagged c h)
        (outline_stmt-IsFlagged body h')
  outline_stmt-IsFlagged (func_decl name return_type params body) (h, h') =
      branches-AreFlagged _ (outline_params params) _ (outline_params-AllFlagged params h)
        (not_both (not (is_null_type return_type)) (not (is_null_stmt body))
          ∙ are_none-two _ _ _ true (outline_type return_type) (outline_stmt body))
        (pair_AreFlagged _ _ _ _ _ refl (outline_type-IsFlagged return_type)
          (outline_stmt-IsFlagged body h'))
  outline_stmt-IsFlagged (return_stmt e) h = end_AreFlagged _ _ (outline_expr-IsFlagged e h)

  outline_stmts-AllFlagged : (ss : Stmts) → StmtsAreComplete ss → AllFlagged (outline_stmts ss)
  outline_stmts-AllFlagged no_stmts h = tt
  outline_stmts-AllFlagged (add_stmt s ss) (h, hs) =
      (outline_stmt-IsFlagged s h, outline_stmts-AllFlagged ss hs)

outline_program-IsFlagged : (ss : Stmts) → StmtsAreComplete ss → IsFlagged (outline_program ss)
unfolding outline_program IsFlagged
outline_program-IsFlagged ss h =
    all_branches-AreFlagged (outline_stmts ss) (outline_stmts-AllFlagged ss h)

-- The drawing that reads no flags: the last branch stands where no other branch of the node follows.
unfoldable mutual
  unfolding trunks are_none

  pub draw_last : List Bool → Tree → List Piece
  draw_last above nothing = []
  draw_last above (line label bs) = label ++ draw_last_branches above bs

  pub draw_last_branches : List Bool → Branches → List Piece
  draw_last_branches above no_branches = []
  draw_last_branches above (add_branch b before t bs) =
      (trunks (above ++ are_none bs ∷ []) ++ branch (are_none bs) ∷ [])
      ++ (before ++ (draw_last (above ++ are_none bs ∷ []) t ++ draw_last_branches above bs))

mutual
  unfolding draw draw_last IsFlagged

  draw-draw_last : (above : List Bool) (t : Tree) → IsFlagged t → draw above t ≡ draw_last above t
  draw-draw_last above nothing h = refl
  draw-draw_last above (line label bs) h = ap (◌++◌ label) (draw-draw_last_branches above bs h)

  draw-draw_last_branches :
      (above : List Bool) (bs : Branches)
      → AreFlagged bs
      → draw_branches above bs ≡ draw_last_branches above bs
  draw-draw_last_branches above no_branches h = refl
  draw-draw_last_branches above (add_branch b before t bs) (e, h, hs) =
      rw (e, draw-draw_last (above ++ are_none bs ∷ []) t h, draw-draw_last_branches above bs hs)
        refl

-- A program whose nodes are complete, whose arrays have at most four elements, and whose outline has less
-- than `2 ^ 32 - 1` levels below its first line is printed as a drawing with the last branch, and with a blank
-- below it, at exactly the last child of each node.
pub print_program-draw_last :
    (ss : Stmts)
    → StmtsAreComplete ss
    → height (outline_program ss) + 1 < 2 ^ 32
    → print_program ss ≡ draw_last [] (outline_program ss)
print_program-draw_last ss h fits =
    print_program-draw ss fits
    ∙ draw-draw_last [] (outline_program ss) (outline_program-IsFlagged ss h)
