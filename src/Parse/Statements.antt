-- ===== src/Parse/Statements.antt =====
-- lib/Parse/Parser.cpp: the methods that parse a statement and a program.
use trsc.Common.{if◌then◌else◌, Bool, true, false, ◌||◌, Option, none, some, List, [], ◌∷◌, ◌++◌}
use trsc.Lex.Token.{
  TokenKind, is_kind, Token, kw_fn, kw_let, kw_mut, kw_if, kw_else, kw_return, kw_while, kw_for,
  kw_in, op_equal, de_lparen, de_rparen, de_lbrace, de_rbrace, de_comma, de_semicolon, de_colon,
  de_returntype, identifier,
}
use trsc.Ast.{
  TypeNode, Expr, Param, Stmt, stmts, is_null_expr, is_null_stmt, null_type, null_expr, var_expr,
  null_stmt, let_stmt, block_stmt, if_stmt, expr_stmt, for_stmt, while_stmt, func_decl, return_stmt,
}
use trsc.Parse.Cursor.{
  Parse, pure, ◌>>=◌, ◌>>◌, current_kind, at_end, advance, report_expected_error, consume,
  expect_token,
}
use trsc.Parse.Grammar.{Grammar}
use trsc.Parse.Operands.{parse_range_expr}

-- `DE_SEMICOLON` after an initializer, and the node.
unfoldable pub parse_initializer : Grammar → Bool → Expr → TypeNode → Parse Stmt
parse_initializer self is_mut declared var_type = do
  equal ← expect_token op_equal
  if equal
      then (do
        initializer ← self.expr 0
        if is_null_expr initializer then pure null_stmt else (do
          ended ← expect_token de_semicolon
          if ended then pure (let_stmt is_mut declared var_type initializer) else pure null_stmt))
      else pure null_stmt

-- A type after its mark, or a null type.
unfoldable pub parse_annotation : Grammar → TokenKind → Parse TypeNode
parse_annotation self mark = do
  k ← current_kind
  if is_kind k mark then (do consume mark; self.type_node) else pure null_type

unfoldable pub parse_declared : Grammar → Bool → Parse Stmt
parse_declared self is_mut = do
  declared ← self.primary
  var_type ← parse_annotation self de_colon
  k ← current_kind
  if is_kind k de_semicolon
      then (do consume de_semicolon; pure (let_stmt is_mut declared var_type null_expr))
      else parse_initializer self is_mut declared var_type

unfoldable pub parse_let_stmt : Grammar → Parse Stmt
parse_let_stmt self = do
  consume kw_let
  k ← current_kind
  is_mut ← (if is_kind k kw_mut then (do consume kw_mut; pure true) else pure false)
  k' ← current_kind
  if is_kind k' identifier
      then parse_declared self is_mut
      else (do report_expected_error identifier; pure null_stmt)

unfoldable pub parse_expr_stmt : Grammar → Parse Stmt
parse_expr_stmt self = do
  e ← self.expr 0
  if is_null_expr e then pure null_stmt else (do
    ended ← expect_token de_semicolon
    if ended then pure (expr_stmt e) else pure null_stmt)

-- The inner `while` of `parseBlockStmt`, which skips to a place to go on from.
unfoldable pub parse_recover : Grammar → Parse (Unit {0})
parse_recover self = do
  k ← current_kind
  ended ← at_end
  if is_kind k de_rbrace || (is_kind k de_semicolon || ended)
      then pure tt
      else (do advance; self.recover)

-- The outer `while` of `parseBlockStmt`.
unfoldable pub parse_items : Grammar → List Stmt → Parse (List Stmt)
parse_items self ss = do
  k ← current_kind
  ended ← at_end
  if is_kind k de_rbrace || ended then pure ss else (do
    s ← self.stmt
    if is_null_stmt s
        then (do
          self.recover
          k' ← current_kind
          if is_kind k' de_semicolon then (do advance; self.items ss) else self.items ss)
        else self.items (ss ++ s ∷ []))

unfoldable pub parse_block_stmt : Grammar → Parse Stmt
parse_block_stmt self = do
  consume de_lbrace
  ss ← self.items []
  closed ← expect_token de_rbrace
  if closed then pure (block_stmt (stmts ss)) else pure null_stmt

unfoldable pub parse_if_stmt : Grammar → Parse Stmt
parse_if_stmt self = do
  consume kw_if
  condition ← self.expr 0
  if is_null_expr condition then pure null_stmt else (do
    then_branch ← self.stmt
    if is_null_stmt then_branch then pure null_stmt else (do
      k ← current_kind
      if is_kind k kw_else
          then (do
            consume kw_else
            else_branch ← self.stmt
            if is_null_stmt else_branch
                then pure null_stmt
                else pure (if_stmt condition then_branch else_branch))
          else pure (if_stmt condition then_branch null_stmt)))

-- The range and the body may be null in the node.
unfoldable pub parse_for_stmt : Grammar → Parse Stmt
parse_for_stmt self = do
  consume kw_for
  init ← self.primary
  found ← expect_token kw_in
  if found
      then (do range ← parse_range_expr self; body ← self.stmt; pure (for_stmt init range body))
      else pure null_stmt

-- The condition and the body may be null in the node.
unfoldable pub parse_while_stmt : Grammar → Parse Stmt
parse_while_stmt self = do
  consume kw_while
  condition ← self.expr 0
  body ← self.stmt
  pure (while_stmt condition body)

-- The loop of `parseFunction`; `none` is its early return of a null pointer.
unfoldable pub parse_params : Grammar → List Param → Parse (Option (List Param))
parse_params self ps = do
  k ← current_kind
  if is_kind k identifier
      then (do
        name ← self.primary
        param_type ← parse_annotation self de_colon
        k' ← current_kind
        if is_kind k' de_rparen then pure (some (ps ++ (name, param_type) ∷ [])) else (do
          comma ← expect_token de_comma
          if comma then self.params (ps ++ (name, param_type) ∷ []) else pure none))
      else (do report_expected_error identifier; pure none)

unfoldable pub function_rest : Grammar → Token → Option (List Param) → Parse Stmt
function_rest self name none = pure null_stmt
function_rest self name (some ps) = do
  consume de_rparen
  return_type ← parse_annotation self de_returntype
  block ← parse_block_stmt self
  pure (func_decl (var_expr name.id) return_type ps block)

unfoldable pub parse_signature : Grammar → Token → Parse Stmt
unfolding function_rest
parse_signature self name = do
  open_paren ← expect_token de_lparen
  if open_paren
      then (do
        k ← current_kind
        ps ← (if is_kind k de_rparen then pure (some []) else self.params [])
        function_rest self name ps)
      else pure null_stmt

unfoldable pub parse_function : Grammar → Parse Stmt
parse_function self = do
  consume kw_fn
  k ← current_kind
  if is_kind k identifier
      then (do name ← consume identifier; parse_signature self name)
      else (do report_expected_error identifier; pure null_stmt)

unfoldable pub parse_return_stmt : Grammar → Parse Stmt
parse_return_stmt self = do
  consume kw_return
  k ← current_kind
  value ← (if is_kind k de_semicolon then pure null_expr else self.expr 0)
  ended ← expect_token de_semicolon
  if ended then pure (return_stmt value) else pure null_stmt

unfoldable pub stmt_of : Grammar → TokenKind → Parse Stmt
stmt_of self kw_let = parse_let_stmt self
stmt_of self kw_for = parse_for_stmt self
stmt_of self kw_if = parse_if_stmt self
stmt_of self kw_while = parse_while_stmt self
stmt_of self de_lbrace = parse_block_stmt self
stmt_of self kw_fn = parse_function self
stmt_of self kw_return = parse_return_stmt self
stmt_of self _ = parse_expr_stmt self

unfoldable pub parse_stmt : Grammar → Parse Stmt
parse_stmt self = do k ← current_kind; stmt_of self k

-- The loop of `parse`.
unfoldable pub parse_program : Grammar → List Stmt → Parse (List Stmt)
parse_program self ss = do
  ended ← at_end
  if ended then pure ss else (do
    s ← self.stmt
    if is_null_stmt s then (do advance; self.program ss) else self.program (ss ++ s ∷ []))
