-- ===== src/Print/AstPrinter/Levels.antt =====
-- The level of indentation that lib/AST/ASTPrinter.cpp leaves behind.
use trsc.Common.{
  if◌then◌else◌, ℕ, ◌+◌, ◌%◌, ◌^◌, String, ◌≡◌, refl, sym, subst, Bool, true, false, List, arith,
}
use trsc.Ast.{
  is_null_expr, TypeNode, Expr, ExprNode, Exprs, Stmt, Stmts, null_type, type_name,
  pointer_type_name, reference_type_name, array_type_name, null_expr, expr, int_node, float_node,
  bool_node, string_node, var_node, refr_node, bin_node, unary_node, as_node, array_node,
  array_access_node, range_node, fun_call_node, macro_call_node, no_exprs, add_expr, null_stmt,
  let_stmt, block_stmt, if_stmt, expr_stmt, for_stmt, while_stmt, func_decl, return_stmt, no_stmts,
  add_stmt, is_null_stmt,
}
use trsc.Print.Pieces.{Piece}
use trsc.Print.AstPrinter.{
  AstPrinter, Print, ◌▸◌, skip, write, deeper, shallower, indent, visit_type, visit_expr,
  visit_node, visit_exprs, titled, visit_stmt, visit_body, visit_stmts,
}
use trsc.Print.AstPrinter.Calls.{calls, node_calls, calls_of, stmt_calls, body_calls, stmts_calls}

-- The visit lowers the level by a number, on 32 bits.
Lowers : ℕ → Print → Type 0
Lowers n visit = (p : AstPrinter) → ((visit p).indent_level + n) % 2 ^ 32 ≡ p.indent_level % 2 ^ 32

-- A visit that enters the level, or leaves it, around one that lowers it.
Lowers-then : (n m : ℕ) (f g : Print) → Lowers n f → Lowers m g → Lowers (n + m) (f ▸ g)
unfolding Lowers
Lowers-then n m f g hf hg p = omega (arith, hf p, hg (f p))

Lowers-within : (n : ℕ) (f : Print) → Lowers n f → Lowers n (deeper ▸ f ▸ shallower)
unfolding Lowers deeper shallower
Lowers-within n f h p = omega (arith, h (deeper p))

Lowers-leave : (n : ℕ) (f : Print) → Lowers n f → Lowers (n + 1) (f ▸ shallower)
unfolding Lowers shallower
Lowers-leave n f h p = omega (arith, h p)

Lowers-skip : Lowers 0 skip
unfolding Lowers
Lowers-skip p = omega arith

-- What is written before or behind a visit does not matter.
Lowers-out :
    (n : ℕ) (out : AstPrinter → List Piece) (f : Print)
    → Lowers n f
    → Lowers n (λ p. f (record { os = out p; indent_level = p.indent_level }))
unfolding Lowers
Lowers-out n out f h p = h (record { os = out p; indent_level = p.indent_level })

write-Lowers : (n : ℕ) (ps : List Piece) (f : Print) → Lowers n f → Lowers n (f ▸ write ps)
unfolding Lowers
write-Lowers n ps f h p = h p

Lowers-titled : (n : ℕ) (title : String) (f : Print) → Lowers n f → Lowers n (titled title f)
unfolding titled indent
Lowers-titled n title f h = Lowers-out n _ _ (Lowers-within n f h)

Lowers-if :
    (b : Bool) (n : ℕ) (f : Print)
    → Lowers n f
    → (b ≡ true → n ≡ 0)
    → Lowers n (if b then skip else f)
Lowers-if true n f h e = subst (λ k. Lowers k skip) (sym (e refl)) Lowers-skip
Lowers-if false n f h e = h

visit_type-Lowers : (t : TypeNode) → Lowers 0 (visit_type t)
unfolding visit_type
visit_type-Lowers null_type = Lowers-skip
visit_type-Lowers (type_name i) = Lowers-out 0 _ _ Lowers-skip
visit_type-Lowers (pointer_type_name t m) = Lowers-out 0 _ _ Lowers-skip
visit_type-Lowers (reference_type_name t m) = Lowers-out 0 _ _ Lowers-skip
visit_type-Lowers (array_type_name t n) = Lowers-out 0 _ _ Lowers-skip

-- A visit that lowers the level by nothing, behind another.
then_nothing : (n : ℕ) (f g : Print) → Lowers n f → Lowers 0 g → Lowers n (f ▸ g)
unfolding Lowers
then_nothing n f g hf hg p = omega (arith, hf p, hg (f p))

mutual
  unfolding visit_expr calls

  visit_expr-Lowers : (e : Expr) → Lowers (calls e) (visit_expr e)
  visit_expr-Lowers null_expr = Lowers-skip
  visit_expr-Lowers (expr t e) = visit_node-Lowers e

  visit_node-Lowers : (e : ExprNode) → Lowers (node_calls e) (visit_node e)
  visit_node-Lowers (int_node n) = Lowers-out 0 _ _ Lowers-skip
  visit_node-Lowers (float_node d) = Lowers-out 0 _ _ Lowers-skip
  visit_node-Lowers (bool_node b) = Lowers-out 0 _ _ Lowers-skip
  visit_node-Lowers (string_node s) = Lowers-out 0 _ _ Lowers-skip
  visit_node-Lowers (var_node i symbol) = Lowers-out 0 _ _ Lowers-skip
  visit_node-Lowers (refr_node e m) = Lowers-out _ _ _ (Lowers-within _ _ (visit_expr-Lowers e))
  visit_node-Lowers (bin_node op l r) =
      Lowers-out _ _ _
        (Lowers-within _ _ (Lowers-then _ _ _ _ (visit_expr-Lowers l) (visit_expr-Lowers r)))
  visit_node-Lowers (unary_node op e) = Lowers-out _ _ _ (Lowers-within _ _ (visit_expr-Lowers e))
  visit_node-Lowers (as_node e to) =
      Lowers-out _ _ _
        (Lowers-within _ _ (then_nothing _ _ _ (visit_expr-Lowers e) (visit_type-Lowers to)))
  visit_node-Lowers (array_node es n shape) =
      Lowers-out _ _ _ (Lowers-within _ _ (write-Lowers _ _ _ (visit_exprs-Lowers es)))
  visit_node-Lowers (array_access_node name es) = Lowers-out _ _ _ (
      Lowers-within _ _
        (Lowers-then _ _ _ _ (write-Lowers _ _ _ (visit_expr-Lowers name)) (visit_exprs-Lowers es)))
  visit_node-Lowers (range_node inclusive from to) =
      Lowers-out _ _ _
        (Lowers-within _ _ (Lowers-then _ _ _ _ (visit_expr-Lowers from) (visit_expr-Lowers to)))
  visit_node-Lowers (fun_call_node name es) =
      Lowers-out _ _ _ (Lowers-leave _ _ (visit_exprs-Lowers es))
  visit_node-Lowers (macro_call_node name format has_format es) =
      Lowers-out _ _ _ (Lowers-within _ _ (visit_exprs-Lowers es))

  visit_exprs-Lowers : (es : Exprs) → Lowers (calls_of es) (visit_exprs es)
  visit_exprs-Lowers no_exprs = Lowers-skip
  visit_exprs-Lowers (add_expr e es) =
      Lowers-then _ _ _ _ (visit_expr-Lowers e) (visit_exprs-Lowers es)

is_null_expr-calls : (e : Expr) → is_null_expr e ≡ true → calls e ≡ 0
unfolding is_null_expr calls
is_null_expr-calls null_expr h = refl
is_null_expr-calls (expr t e) h = cc

is_null_stmt-calls : (s : Stmt) → is_null_stmt s ≡ true → stmt_calls s ≡ 0
unfolding is_null_stmt stmt_calls
is_null_stmt-calls null_stmt h = refl
is_null_stmt-calls (let_stmt m name type initializer) h = cc
is_null_stmt-calls (block_stmt ss) h = cc
is_null_stmt-calls (if_stmt c t e) h = cc
is_null_stmt-calls (expr_stmt e) h = cc
is_null_stmt-calls (for_stmt i r b) h = cc
is_null_stmt-calls (while_stmt c b) h = cc
is_null_stmt-calls (func_decl n r ps b) h = cc
is_null_stmt-calls (return_stmt e) h = cc

mutual
  unfolding visit_stmt stmt_calls

  visit_stmt-Lowers : (s : Stmt) → Lowers (stmt_calls s) (visit_stmt s)
  visit_stmt-Lowers null_stmt = Lowers-skip
  visit_stmt-Lowers (let_stmt m name type initializer) = Lowers-out _ _ _ (
      Lowers-within _ _ (
        Lowers-then _ _ _ _ (then_nothing _ _ _ (visit_expr-Lowers name) (visit_type-Lowers type))
          (visit_expr-Lowers initializer)))
  visit_stmt-Lowers (block_stmt ss) = Lowers-within _ _ (visit_stmts-Lowers ss)
  visit_stmt-Lowers (if_stmt c then_branch else_branch) = Lowers-out _ _ _ (
      (Lowers-within _ _ (
        Lowers-then _ _ _ _
          (Lowers-then _ _ _ _ (Lowers-titled _ "Condition: " _ (visit_expr-Lowers c))
            (Lowers-titled _ "Then: " _ (visit_stmt-Lowers then_branch)))
          (Lowers-if _ _ _ (Lowers-titled _ "Else:\n" _ (visit_stmt-Lowers else_branch))
            (is_null_stmt-calls else_branch)))))
  visit_stmt-Lowers (expr_stmt e) = Lowers-out _ _ _ (Lowers-within _ _ (visit_expr-Lowers e))
  visit_stmt-Lowers (for_stmt init range body) = Lowers-out _ _ _ (
      (Lowers-within _ _ (
        Lowers-then _ _ _ _
          (Lowers-then _ _ _ _
            (Lowers-if _ _ _ (Lowers-out _ _ _ (visit_expr-Lowers init)) (is_null_expr-calls init))
            (Lowers-if _ _ _ (Lowers-titled _ "\nRange: " _ (visit_expr-Lowers range))
              (is_null_expr-calls range)))
          (Lowers-titled _ "Body: " _ (visit_stmt-Lowers body)))))
  visit_stmt-Lowers (while_stmt c body) = Lowers-out _ _ _ (
      Lowers-within _ _ (
        Lowers-then _ _ _ _ (Lowers-titled _ "Condition:\n" _ (visit_expr-Lowers c))
          (Lowers-titled _ "Body:\n" _ (visit_stmt-Lowers body))))
  visit_stmt-Lowers (func_decl name return_type params body) =
      Lowers-out _ _ _ (Lowers-within _ _ (visit_body-Lowers body))
  visit_stmt-Lowers (return_stmt e) = Lowers-out _ _ _ (visit_expr-Lowers e)

  visit_body-Lowers : (s : Stmt) → Lowers (body_calls s) (visit_body s)
  visit_body-Lowers (block_stmt ss) = visit_stmts-Lowers ss
  visit_body-Lowers null_stmt = Lowers-skip
  visit_body-Lowers (let_stmt m name type initializer) = Lowers-out _ _ _ Lowers-skip
  visit_body-Lowers (if_stmt c t e) = Lowers-out _ _ _ Lowers-skip
  visit_body-Lowers (expr_stmt e) = Lowers-out _ _ _ Lowers-skip
  visit_body-Lowers (for_stmt i r b) = Lowers-out _ _ _ Lowers-skip
  visit_body-Lowers (while_stmt c b) = Lowers-out _ _ _ Lowers-skip
  visit_body-Lowers (func_decl n r ps b) = Lowers-out _ _ _ Lowers-skip
  visit_body-Lowers (return_stmt e) = Lowers-out _ _ _ Lowers-skip

  visit_stmts-Lowers : (ss : Stmts) → Lowers (stmts_calls ss) (visit_stmts ss)
  visit_stmts-Lowers no_stmts = Lowers-skip
  visit_stmts-Lowers (add_stmt s ss) =
      Lowers-then _ _ _ _ (visit_stmt-Lowers s) (visit_stmts-Lowers ss)

-- From any level, the statements of a program are printed to leave the level lower by the number of the
-- function calls in them, on 32 bits.
pub visit_stmts-level :
    (ss : Stmts) (p : AstPrinter)
    → ((visit_stmts ss p).indent_level + stmts_calls ss) % 2 ^ 32 ≡ p.indent_level % 2 ^ 32
unfolding Lowers
visit_stmts-level ss p = visit_stmts-Lowers ss p
