-- ===== src/Parse/Knot.antt =====
-- The parser: each method calls the others, on fuel that counts the calls that nest.
use trsc.Common.{ℕ, zero, suc, List, []}
use trsc.Ast.{Stmts, stmts}
use trsc.Lex.Token.{Token}
use trsc.Basic.Diagnostics.{DiagnosticsEngine}
use trsc.Parse.Cursor.{Parser, Parse, pure, ◌>>=◌, out_of_fuel}
use trsc.Parse.Grammar.{Grammar}
use trsc.Parse.Types.{parse_type}
use trsc.Parse.Expressions.{parse_primary, parse_operators, parse_expr}
use trsc.Parse.Operands.{parse_elements, parse_indices, parse_arguments, parse_macro_arguments}
use trsc.Parse.Statements.{parse_recover, parse_items, parse_params, parse_stmt, parse_program}

unfoldable pub no_fuel : Grammar
no_fuel = record {
  primary = λ p. out_of_fuel;
  expr = λ min p. out_of_fuel;
  operators = λ min e p. out_of_fuel;
  type_node = λ p. out_of_fuel;
  elements = λ es p. out_of_fuel;
  indices = λ es p. out_of_fuel;
  arguments = λ es p. out_of_fuel;
  macro_arguments = λ es p. out_of_fuel;
  stmt = λ p. out_of_fuel;
  items = λ ss p. out_of_fuel;
  recover = λ p. out_of_fuel;
  params = λ ps p. out_of_fuel;
  program = λ ss p. out_of_fuel;
}

unfoldable pub methods : Grammar → Grammar
methods self = record {
  primary = parse_primary self;
  expr = parse_expr self;
  operators = parse_operators self;
  type_node = parse_type self;
  elements = parse_elements self;
  indices = parse_indices self;
  arguments = parse_arguments self;
  macro_arguments = parse_macro_arguments self;
  stmt = parse_stmt self;
  items = parse_items self;
  recover = parse_recover self;
  params = parse_params self;
  program = parse_program self;
}

unfoldable pub grammar : ℕ → Grammar
unfolding no_fuel methods
grammar zero = no_fuel
grammar (suc n) = methods (grammar n)

-- The constructor of `Parser`.
unfoldable pub new_parser : List Token → Token → DiagnosticsEngine → Parser
new_parser tokens back d = record { tokens = tokens; back = back; current_token_idx = 0; diag = d }

-- `parse`.
unfoldable pub parse : ℕ → Parse Stmts
unfolding grammar
parse n = do ss ← (grammar n).program []; pure (stmts ss)
