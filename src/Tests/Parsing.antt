-- ===== src/Tests/Parsing.antt =====
-- Tests and examples of the parser.
use trsc.Common.{
  some-injective, get_elem?, Bytes, codes, ℕ, zero, suc, ◌≡◌, refl, subst, ◌≢◌, true, none, some,
  [], ◌∷◌, arith,
}
use trsc.Ast.{
  string_expr, var_expr, bin_expr, Stmts, stmts, is_null_expr, is_null_stmt, null_stmt, expr_stmt,
  no_stmts, add_stmt,
}
use trsc.Lex.Token.{
  TokenKind, to_int, is_kind, Token, endoffile, kw_mut, op_star, op_equal, de_rparen, de_semicolon,
  lt_string, identifier,
}
use trsc.Basic.Diagnostics.{report, no_diagnostics, error, expected_expression}
use trsc.Parse.Cursor.{
  Parser, and_then, ◌>>=◌, peek_at, current_kind_of, is_at_end, advanced, current_token,
  current_kind, at_end, advance, report_error, report_expected_error, consume, expect_token,
  returned, out_of_fuel,
}
use trsc.Parse.Literals.{
  decode_body, decoded, decode_string_literal, decoded-decode_body, encode_literal,
  decode-encode_literal,
}
use trsc.Parse.Grammar.{get_operator_precedence}
use trsc.Parse.Expressions.{
  parse_identifier, string_primary, primary_of, parse_primary, operator_round, parse_operators,
  parse_expr,
}
use trsc.Parse.Statements.{parse_expr_stmt, stmt_of, parse_stmt, parse_program}
use trsc.Parse.Knot.{no_fuel, methods, grammar, new_parser, parse}
use trsc.Parse.Honesty.{IsParser, Follows}
use trsc.Parse.Honesty.Methods.{NullReported, null-reported, parse-Follows}
use trsc.Parse.Honesty.Fuel.{remaining}
use trsc.Parse.Honesty.TypeFuel.{type_node-ends}

decode-encode_literal_example :
    decode_string_literal (encode_literal (codes "a\n\"")) ≡ some (codes "a\n\"")
decode-encode_literal_example = decode-encode_literal (codes "a\n\"")

decoded-decode_body_example : decoded (codes "plain") ≡ decode_body (codes "plain")
decoded-decode_body_example = decoded-decode_body (codes "plain")

-- `x = "a" ;` and a closing parenthesis alone, as tokens.
abbrev spelt : TokenKind → Bytes → Token
spelt k text = record { kind = k; loc = 0; text = text; id = none }

abbrev assignment : Parser
assignment =
    new_parser
      (spelt identifier (codes "x")
        ∷ spelt op_equal (codes "=")
        ∷ spelt lt_string (codes "\"a\"")
        ∷ spelt de_semicolon (codes ";")
        ∷ [])
      (spelt endoffile []) no_diagnostics

abbrev lone_paren : Parser
lone_paren = new_parser (spelt de_rparen (codes ")") ∷ []) (spelt endoffile []) no_diagnostics

assignment-IsParser : IsParser assignment
unfolding decode_string_literal new_parser
assignment-IsParser = record {
  back_kind = refl;
  idx_le = omega arith;
  fits = omega arith;
  strings = terminated;
}
  where
    terminated :
        (i : ℕ) (t : Token)
        → get_elem? assignment.tokens i ≡ some t
        → t.kind ≡ lt_string
        → decode_string_literal t.text ≢ none
    terminated zero t e k n = cc (e, k)
    terminated (suc zero) t e k n = cc (e, k)
    terminated (suc (suc zero)) t e k n =
        subst (λ u. decode_string_literal u.text ≢ none) (some-injective e) (λ m. cc m) n
    terminated (suc (suc (suc zero))) t e k n = cc (e, k)
    terminated (suc (suc (suc (suc i)))) t e k n = cc e

lone_paren-IsParser : IsParser lone_paren
unfolding new_parser
lone_paren-IsParser = record {
  back_kind = refl;
  idx_le = omega arith;
  fits = omega arith;
  strings = terminated;
}
  where
    terminated :
        (i : ℕ) (t : Token)
        → get_elem? lone_paren.tokens i ≡ some t
        → t.kind ≡ lt_string
        → decode_string_literal t.text ≢ none
    terminated zero t e k n = cc (e, k)
    terminated (suc i) t e k n = cc e

abbrev refused : Parser
refused = record lone_paren { diag = report no_diagnostics error expected_expression }

null-reported_example : NullReported (grammar 6) lone_paren refused
null-reported_example = null-reported 6 lone_paren refused lone_paren-IsParser

-- The statement is null there indeed.
refused_test : (grammar 6).stmt lone_paren ≡ returned null_stmt refused
unfolding grammar no_fuel methods parse_stmt stmt_of parse_expr_stmt parse_expr parse_primary
    primary_of parse_identifier string_primary parse_operators operator_round
    get_operator_precedence ◌>>=◌ and_then peek_at current_kind_of is_at_end advanced current_token
    current_kind at_end advance report_error report_expected_error consume expect_token is_kind
    to_int report new_parser is_null_expr is_null_stmt decode_string_literal parse_program stmts
refused_test = refl

abbrev assigned : Parser
assigned = record assignment { current_token_idx = 4 }

abbrev assignment_stmts : Stmts
assignment_stmts =
    add_stmt (expr_stmt (bin_expr op_equal (var_expr none) (string_expr (codes "a")))) no_stmts

assigned_test : parse 12 assignment ≡ returned assignment_stmts assigned
unfolding parse grammar no_fuel methods parse_stmt stmt_of parse_expr_stmt parse_expr parse_primary
    primary_of parse_identifier string_primary parse_operators operator_round
    get_operator_precedence ◌>>=◌ and_then peek_at current_kind_of is_at_end advanced current_token
    current_kind at_end advance report_error report_expected_error consume expect_token is_kind
    to_int report new_parser is_null_expr is_null_stmt decode_string_literal parse_program stmts
assigned_test = refl

parse-Follows_example : Follows assignment assigned × (is_at_end assigned ≡ true)
parse-Follows_example =
    parse-Follows 12 assignment assigned assignment_stmts assignment-IsParser assigned_test

-- `* mut T` as tokens.
abbrev pointer_text : Parser
pointer_text =
    new_parser
      (spelt op_star (codes "*") ∷ spelt kw_mut (codes "mut") ∷ spelt identifier (codes "T") ∷ [])
      (spelt endoffile []) no_diagnostics

pointer_text-IsParser : IsParser pointer_text
unfolding new_parser
pointer_text-IsParser = record {
  back_kind = refl;
  idx_le = omega arith;
  fits = omega arith;
  strings = terminated;
}
  where
    terminated :
        (i : ℕ) (t : Token)
        → get_elem? pointer_text.tokens i ≡ some t
        → t.kind ≡ lt_string
        → decode_string_literal t.text ≢ none
    terminated zero t e k n = cc (e, k)
    terminated (suc zero) t e k n = cc (e, k)
    terminated (suc (suc zero)) t e k n = cc (e, k)
    terminated (suc (suc (suc i))) t e k n = cc e

type_node-ends_example : (grammar 4).type_node pointer_text ≢ out_of_fuel
unfolding remaining new_parser
type_node-ends_example = type_node-ends 4 pointer_text pointer_text-IsParser (omega arith)
