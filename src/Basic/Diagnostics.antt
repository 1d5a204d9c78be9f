-- ===== src/Basic/Diagnostics.antt =====
-- lib/Basic/Diagnostics.cpp: the counters of the engine, and what was reported. The text of a
-- message is a constructor with the values that the text shows; its location is left out.
use trsc.Common.{Bytes, ℕ, ◌+◌, ◌%◌, ◌^◌, List, [], ◌∷◌}
use trsc.Types.QualType.{QualType}
use trsc.Ast.{TypeNode}
use trsc.Lex.Token.{TokenKind}

pub data DiagKind : Type 0 where
  note warning error : DiagKind

pub data Message : Type 0 where
  unknown_escape : ℕ → Message
  unterminated_string : Message
  expected_token : TokenKind → TokenKind → Message
  expected_expression : Message
  raw_pointer_needs_mut_or_const : Message
  expected_array_size : Message
  function_already_defined redefinition_of_variable variable_already_defined : Message
  parameter_already_defined undeclared_variable undeclared_function : Message
  unsupported_macro : Bytes → Message
  cannot_convert : QualType → QualType → Message
  array_not_found too_many_indices index_not_integer index_out_of_bounds : Message
  not_an_array : Bytes → Message
  variable_not_found needs_type_or_initializer unit_binding : Message
  unknown_type : TypeNode → Message
  initializer_mismatch : QualType → QualType → Message
  minus_needs_numeric bang_needs_boolean : QualType → Message
  unsupported_unary unsupported_binary : TokenKind → Message
  not_assignable : Message
  immutable_assignment : Bytes → Message
  assigned_types : QualType → QualType → Message
  non_numeric incomparable non_boolean : TokenKind → QualType → QualType → Message
  if_condition while_condition : QualType → Message
  for_needs_range range_needs_ends range_untyped for_needs_iterator : Message
  range_not_integer : QualType → QualType → Message
  iterator_not_found : Bytes → Message
  unknown_parameter_type parameter_not_found parameter_needs_type unknown_return_type :
      Bytes → Message
  function_not_defined : Message
  argument_count : Bytes → ℕ → ℕ → Message
  argument_type : Bytes → QualType → QualType → Message
  println_needs_format invalid_format : Message
  placeholder_count : ℕ → ℕ → Message
  cannot_format : QualType → Message
  return_mismatch : QualType → QualType → Message
  return_missing return_unexpected : QualType → Message

pub record DiagnosticsEngine : Type 0 where
  pub num_errors : ℕ
  pub num_warnings : ℕ
  pub log : List (DiagKind × Message)

unfoldable pub report : DiagnosticsEngine → DiagKind → Message → DiagnosticsEngine
report d error m = record d { num_errors = (d.num_errors + 1) % 2 ^ 32; log = (error, m) ∷ d.log }
report d warning m = record d {
  num_warnings = (d.num_warnings + 1) % 2 ^ 32;
  log = (warning, m) ∷ d.log;
}
report d note m = record d { log = (note, m) ∷ d.log }

abbrev pub no_diagnostics : DiagnosticsEngine
no_diagnostics = record { num_errors = 0; num_warnings = 0; log = [] }
