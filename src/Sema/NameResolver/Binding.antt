-- ===== src/Sema/NameResolver/Binding.antt =====
-- Lexical scoping as functions of the tree alone, independent of lib/Sema/NameResolver.cpp: the symbol that each
-- name has, the names that are declared behind a statement, and the reports.
use trsc.Common.{
  if◌then◌else◌, or_else, Bytes, codes, bytes_eq, ℕ, Option, none, some, List, [], ◌∷◌, ◌++◌,
}
use trsc.Ast.{
  Expr, Exprs, null_expr, expr, int_node, float_node, bool_node, string_node, var_node, refr_node,
  bin_node, unary_node, as_node, array_node, array_access_node, range_node, fun_call_node,
  macro_call_node, no_exprs, add_expr,
}
use trsc.Basic.Diagnostics.{Message, undeclared_variable, undeclared_function, unsupported_macro}
use trsc.Sema.Scope.{linear_find}
use trsc.Sema.SymbolTable.Frames.{lookup_frames}
use trsc.Sema.SymbolTable.Steps.{Stack, declare}

-- The innermost declaration so far of a name.
unfoldable pub in_scope : Stack → ℕ → Option ℕ
in_scope s name = lookup_frames (s.top ∷ s.below) name

-- A use of a name has the symbol of that declaration.
unfoldable pub linked_use : Stack → Expr → Expr
unfolding in_scope
linked_use s (expr t (var_node (some id) old)) =
    expr t (var_node (some id) (or_else (in_scope s id.addr) old))
linked_use s e = e

unfoldable pub undeclared : Message → Option ℕ → List Message
undeclared m (some _) = []
undeclared m none = m ∷ []

unfoldable pub use_messages : Stack → Message → Expr → List Message
unfolding in_scope undeclared
use_messages s m (expr t (var_node (some id) old)) = undeclared m (in_scope s id.addr)
use_messages s m e = []

-- A declaration makes the next symbol, unless the innermost scope has the name.
unfoldable pub made_symbol : ℕ → Option ℕ → Option ℕ → Option ℕ
made_symbol next old (some _) = old
made_symbol next old none = some next

unfoldable pub linked_name : Stack → Expr → Expr
unfolding made_symbol
linked_name s (expr t (var_node (some id) old)) =
    expr t (var_node (some id) (made_symbol s.symbols old (linear_find s.top id.addr)))
linked_name s e = e

unfoldable pub redeclared : Message → Option ℕ → List Message
redeclared m (some _) = m ∷ []
redeclared m none = []

unfoldable pub name_messages : Stack → Message → Expr → List Message
unfolding redeclared
name_messages s m (expr t (var_node (some id) old)) = redeclared m (linear_find s.top id.addr)
name_messages s m e = []

unfoldable pub behind_name : Stack → Expr → Stack
unfolding declare
behind_name s (expr t (var_node (some id) old)) = declare s (linear_find s.top id.addr) id.addr
behind_name s e = s

-- A new scope, and what is left of it behind its end: the symbols that were made.
unfoldable pub opened : Stack → Stack
opened s = record { top = []; below = s.top ∷ s.below; symbols = s.symbols }

unfoldable pub closed : Stack → Stack → Stack
closed s inner = record s { symbols = inner.symbols }

unfoldable mutual
  unfolding linked_use

  pub linked_expr : Stack → Expr → Expr
  linked_expr s null_expr = null_expr
  linked_expr s (expr t (int_node n)) = expr t (int_node n)
  linked_expr s (expr t (float_node x)) = expr t (float_node x)
  linked_expr s (expr t (bool_node b)) = expr t (bool_node b)
  linked_expr s (expr t (string_node x)) = expr t (string_node x)
  linked_expr s (expr t (var_node id old)) = linked_use s (expr t (var_node id old))
  linked_expr s (expr t (refr_node e m)) = expr t (refr_node (linked_expr s e) m)
  linked_expr s (expr t (bin_node op l r)) =
      expr t (bin_node op (linked_expr s l) (linked_expr s r))
  linked_expr s (expr t (unary_node op e)) = expr t (unary_node op (linked_expr s e))
  linked_expr s (expr t (as_node e to)) = expr t (as_node (linked_expr s e) to)
  linked_expr s (expr t (array_node es n shape)) =
      expr t (array_node (linked_exprs s es) (linked_expr s n) shape)
  linked_expr s (expr t (array_access_node name es)) =
      expr t (array_access_node (linked_use s name) (linked_exprs s es))
  linked_expr s (expr t (range_node i from to)) =
      expr t (range_node i (linked_expr s from) (linked_expr s to))
  linked_expr s (expr t (fun_call_node name es)) =
      expr t (fun_call_node (linked_use s name) (linked_exprs s es))
  linked_expr s (expr t (macro_call_node name f h es)) =
      expr t (macro_call_node name f h (linked_exprs s es))

  pub linked_exprs : Stack → Exprs → Exprs
  linked_exprs s no_exprs = no_exprs
  linked_exprs s (add_expr e es) = add_expr (linked_expr s e) (linked_exprs s es)

unfoldable pub macro_messages : Bytes → List Message
macro_messages name = if bytes_eq name (codes "println") then [] else unsupported_macro name ∷ []

unfoldable mutual
  unfolding use_messages macro_messages

  pub expr_messages : Stack → Expr → List Message
  expr_messages s null_expr = []
  expr_messages s (expr t (var_node id old)) =
      use_messages s undeclared_variable (expr t (var_node id old))
  expr_messages s (expr t (refr_node e m)) = expr_messages s e
  expr_messages s (expr t (bin_node op l r)) = expr_messages s l ++ expr_messages s r
  expr_messages s (expr t (unary_node op e)) = expr_messages s e
  expr_messages s (expr t (as_node e to)) = expr_messages s e
  expr_messages s (expr t (array_node es n shape)) = exprs_messages s es ++ expr_messages s n
  expr_messages s (expr t (array_access_node name es)) =
      use_messages s undeclared_variable name ++ exprs_messages s es
  expr_messages s (expr t (range_node i from to)) = expr_messages s from ++ expr_messages s to
  expr_messages s (expr t (fun_call_node name es)) =
      use_messages s undeclared_function name ++ exprs_messages s es
  expr_messages s (expr t (macro_call_node name f h es)) =
      macro_messages name ++ exprs_messages s es
  expr_messages s (expr t _) = []

  pub exprs_messages : Stack → Exprs → List Message
  exprs_messages s no_exprs = []
  exprs_messages s (add_expr e es) = expr_messages s e ++ exprs_messages s es
