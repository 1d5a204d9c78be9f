-- ===== src/Parse/Types.antt =====
-- lib/Parse/Parser.cpp: `parseType`.
use trsc.Common.{if◌then◌else◌, ℕ, ◌^◌, Bool, true, false, Option, none, some}
use trsc.Lex.Token.{
  is_kind, kw_mut, kw_const, op_star, op_amp, de_lbracket, de_rbracket, de_semicolon, lt_integer,
  identifier,
}
use trsc.Ast.{
  TypeNode, is_null_type, null_type, type_name, pointer_type_name, reference_type_name,
  array_type_name,
}
use trsc.Basic.Diagnostics.{raw_pointer_needs_mut_or_const, expected_array_size}
use trsc.Parse.Cursor.{
  Parse, pure, ◌>>=◌, ◌>>◌, current_token, current_kind, report_error, report_expected_error,
  consume, expect_token, undefined,
}
use trsc.Parse.Grammar.{Grammar}
use trsc.Parse.Literals.{parse_number}

abbrev pub size_limit : ℕ
size_limit = 2 ^ 64

-- `IsMut`, which is not set where neither word follows the star.
unfoldable pub parse_pointer_mutability : Parse (Option Bool)
parse_pointer_mutability = do
  k ← current_kind
  if is_kind k kw_mut
      then (do consume kw_mut; pure (some true))
      else if is_kind k kw_const
      then (do consume kw_const; pure (some false))
      else (do report_error raw_pointer_needs_mut_or_const; pure none)

-- `new PointerTypeName(Pointee, IsMut, Range)`.
unfoldable pub pointer_node : TypeNode → Option Bool → Parse TypeNode
pointer_node pointee (some is_mut) = pure (pointer_type_name pointee is_mut)
pointer_node pointee none = λ p. undefined

unfoldable pub parse_pointer_type : Grammar → Parse TypeNode
unfolding parse_pointer_mutability pointer_node
parse_pointer_type self = do
  consume op_star
  is_mut ← parse_pointer_mutability
  pointee ← self.type_node
  if is_null_type pointee then pure null_type else pointer_node pointee is_mut

unfoldable pub parse_reference_type : Grammar → Parse TypeNode
parse_reference_type self = do
  consume op_amp
  k ← current_kind
  is_mut ← (if is_kind k kw_mut then (do consume kw_mut; pure true) else pure false)
  referent ← self.type_node
  if is_null_type referent then pure null_type else pure (reference_type_name referent is_mut)

-- The size and the bracket after it.
unfoldable pub parse_array_size : TypeNode → Parse TypeNode
parse_array_size element = do
  k ← current_kind
  if is_kind k lt_integer
      then (do
        t ← current_token
        consume lt_integer
        closed ← expect_token de_rbracket
        if closed
            then pure (array_type_name element (parse_number size_limit t.text))
            else pure null_type)
      else (do report_error expected_array_size; pure null_type)

unfoldable pub parse_array_type : Grammar → Parse TypeNode
parse_array_type self = do
  consume de_lbracket
  element ← self.type_node
  if is_null_type element then pure null_type else (do
    sized ← expect_token de_semicolon
    if sized then parse_array_size element else pure null_type)

unfoldable pub parse_type : Grammar → Parse TypeNode
parse_type self = do
  k ← current_kind
  if is_kind k op_star
      then parse_pointer_type self
      else if is_kind k op_amp
      then parse_reference_type self
      else if is_kind k de_lbracket
      then parse_array_type self
      else if is_kind k identifier
      then (do t ← consume identifier; pure (type_name t.id))
      else (do report_expected_error identifier; pure null_type)
