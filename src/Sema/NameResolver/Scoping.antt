-- ===== src/Sema/NameResolver/Scoping.antt =====
-- Lexical scoping of the statements and of a program, as functions of the tree alone.
use trsc.Common.{Bool, true, false, List, [], ◌∷◌, ◌++◌}
use trsc.Ast.{
  Param, Stmt, Stmts, null_stmt, let_stmt, block_stmt, if_stmt, expr_stmt, for_stmt, while_stmt,
  func_decl, return_stmt, no_stmts, add_stmt,
}
use trsc.Basic.Diagnostics.{
  Message, function_already_defined, redefinition_of_variable, variable_already_defined,
  parameter_already_defined,
}
use trsc.Sema.SymbolTable.Steps.{Stack}
use trsc.Sema.NameResolver.Binding.{
  linked_name, name_messages, behind_name, opened, closed, linked_expr, expr_messages,
}

unfoldable pub behind_params : Stack → List Param → Stack
unfolding behind_name
behind_params s [] = s
behind_params s ((name, t) ∷ ps) = behind_params (behind_name s name) ps

unfoldable pub linked_params : Stack → List Param → List Param
unfolding linked_name behind_name
linked_params s [] = []
linked_params s ((name, t) ∷ ps) = (linked_name s name, t) ∷ linked_params (behind_name s name) ps

unfoldable pub params_messages : Stack → List Param → List Message
unfolding name_messages behind_name
params_messages s [] = []
params_messages s ((name, t) ∷ ps) =
    name_messages s parameter_already_defined name ++ params_messages (behind_name s name) ps

-- What is declared behind a statement, or behind one that is the body of a loop or function and has no scope of its own.
unfoldable mutual
  unfolding behind_name behind_params opened closed

  pub behind_stmt : Stack → Bool → Stmt → Stack
  behind_stmt s body (let_stmt m var t init) = behind_name s var
  behind_stmt s true (block_stmt ss) = behind_stmts s ss
  behind_stmt s false (block_stmt ss) = closed s (behind_stmts (opened s) ss)
  behind_stmt s body (if_stmt c x y) = behind_stmt (behind_stmt s false x) false y
  behind_stmt s body (for_stmt init range x) =
      closed s (behind_stmt (behind_name (opened s) init) true x)
  behind_stmt s body (while_stmt c x) = closed s (behind_stmt (opened s) true x)
  behind_stmt s body (func_decl name t ps x) =
      closed s (behind_stmt (behind_params (opened s) ps) true x)
  behind_stmt s body _ = s

  pub behind_stmts : Stack → Stmts → Stack
  behind_stmts s no_stmts = s
  behind_stmts s (add_stmt x xs) = behind_stmts (behind_stmt s false x) xs

-- A name is in scope in the initializer of its own declaration, and in the range of its own loop.
unfoldable mutual
  unfolding linked_expr linked_name linked_params behind_name behind_params opened behind_stmt

  pub linked_stmt : Stack → Bool → Stmt → Stmt
  linked_stmt s body null_stmt = null_stmt
  linked_stmt s body (let_stmt m var t init) =
      let_stmt m (linked_name s var) t (linked_expr (behind_name s var) init)
  linked_stmt s true (block_stmt ss) = block_stmt (linked_stmts s ss)
  linked_stmt s false (block_stmt ss) = block_stmt (linked_stmts (opened s) ss)
  linked_stmt s body (if_stmt c x y) =
      if_stmt (linked_expr s c) (linked_stmt s false x)
        (linked_stmt (behind_stmt s false x) false y)
  linked_stmt s body (expr_stmt e) = expr_stmt (linked_expr s e)
  linked_stmt s body (for_stmt init range x) =
      let inner = behind_name (opened s) init in
      for_stmt (linked_name (opened s) init) (linked_expr inner range) (linked_stmt inner true x)
  linked_stmt s body (while_stmt c x) =
      while_stmt (linked_expr (opened s) c) (linked_stmt (opened s) true x)
  linked_stmt s body (func_decl name t ps x) =
      func_decl name t (linked_params (opened s) ps)
        (linked_stmt (behind_params (opened s) ps) true x)
  linked_stmt s body (return_stmt e) = return_stmt (linked_expr s e)

  pub linked_stmts : Stack → Stmts → Stmts
  linked_stmts s no_stmts = no_stmts
  linked_stmts s (add_stmt x xs) =
      add_stmt (linked_stmt s false x) (linked_stmts (behind_stmt s false x) xs)

unfoldable mutual
  unfolding expr_messages name_messages params_messages behind_name behind_params opened behind_stmt

  pub stmt_messages : Stack → Bool → Stmt → List Message
  stmt_messages s body null_stmt = []
  stmt_messages s body (let_stmt m var t init) =
      name_messages s redefinition_of_variable var ++ expr_messages (behind_name s var) init
  stmt_messages s true (block_stmt ss) = stmts_messages s ss
  stmt_messages s false (block_stmt ss) = stmts_messages (opened s) ss
  stmt_messages s body (if_stmt c x y) =
      expr_messages s c
      ++ (stmt_messages s false x ++ stmt_messages (behind_stmt s false x) false y)
  stmt_messages s body (expr_stmt e) = expr_messages s e
  stmt_messages s body (for_stmt init range x) =
      let inner = behind_name (opened s) init in
      name_messages (opened s) variable_already_defined init
      ++ (expr_messages inner range ++ stmt_messages inner true x)
  stmt_messages s body (while_stmt c x) =
      expr_messages (opened s) c ++ stmt_messages (opened s) true x
  stmt_messages s body (func_decl name t ps x) =
      params_messages (opened s) ps ++ stmt_messages (behind_params (opened s) ps) true x
  stmt_messages s body (return_stmt e) = expr_messages s e

  pub stmts_messages : Stack → Stmts → List Message
  stmts_messages s no_stmts = []
  stmts_messages s (add_stmt x xs) =
      stmt_messages s false x ++ stmts_messages (behind_stmt s false x) xs

-- The functions of a program are declared ahead of all its statements.
unfoldable pub behind_item : Stack → Stmt → Stack
unfolding behind_name
behind_item s (func_decl name t ps x) = behind_name s name
behind_item s _ = s

unfoldable pub linked_item : Stack → Stmt → Stmt
unfolding linked_name
linked_item s (func_decl name t ps x) = func_decl (linked_name s name) t ps x
linked_item s x = x

unfoldable pub item_messages : Stack → Stmt → List Message
unfolding name_messages
item_messages s (func_decl name t ps x) = name_messages s function_already_defined name
item_messages s _ = []

unfoldable pub behind_items : Stack → Stmts → Stack
unfolding behind_item
behind_items s no_stmts = s
behind_items s (add_stmt x xs) = behind_items (behind_item s x) xs

unfoldable pub linked_items : Stack → Stmts → Stmts
unfolding linked_item behind_item
linked_items s no_stmts = no_stmts
linked_items s (add_stmt x xs) = add_stmt (linked_item s x) (linked_items (behind_item s x) xs)

unfoldable pub items_messages : Stack → Stmts → List Message
unfolding item_messages behind_item
items_messages s no_stmts = []
items_messages s (add_stmt x xs) = item_messages s x ++ items_messages (behind_item s x) xs

unfoldable pub linked_program : Stack → Stmts → Stmts
unfolding linked_items behind_items linked_stmts
linked_program s ss = linked_stmts (behind_items s ss) (linked_items s ss)

unfoldable pub program_messages : Stack → Stmts → List Message
unfolding items_messages behind_items linked_items stmts_messages
program_messages s ss =
    items_messages s ss ++ stmts_messages (behind_items s ss) (linked_items s ss)
