-- ===== src/Lex/Punctuation.antt =====
-- lib/Lex/Lexer.cpp: the kinds of delimiters and operators.
pub mod Spellings
use trsc.Common.{◌==◌, if◌then◌else◌, or_else, ℕ, ◌&&◌, Option, none, some}
use trsc.Lex.Token.{
  TokenKind, op_plus, op_minus, op_star, op_percent, op_equal, op_equalequal, op_bang, op_bangequal,
  op_less, op_lessequal, op_greater, op_greaterequal, op_coloncolon, op_plusequal, op_minusequal,
  op_lessless, op_greatergreater, op_dotdot, op_dotdotequal, op_amp, op_ampamp, op_pipe,
  op_pipepipe, de_lparen, de_rparen, de_lbrace, de_rbrace, de_lbracket, de_rbracket, de_comma,
  de_semicolon, de_colon, de_dot, de_returntype,
}

-- The cases of the switch for delimiters and operators but `/`: the kind, and how far the pointer
-- moves. `c`, `c1` and `c2` are the bytes at the pointer and behind it.
unfoldable pub delimiter : ℕ → ℕ → Option (TokenKind × ℕ)
delimiter c c1 =
    if c == b'('
    then some (de_lparen, 1)
    else if c == b')'
    then some (de_rparen, 1)
    else if c == b'{'
    then some (de_lbrace, 1)
    else if c == b'}'
    then some (de_rbrace, 1)
    else if c == b'['
    then some (de_lbracket, 1)
    else if c == b']'
    then some (de_rbracket, 1)
    else if c == b';'
    then some (de_semicolon, 1)
    else if c == b','
    then some (de_comma, 1)
    else if c == b':'
    then (if c1 == b':' then some (op_coloncolon, 2) else some (de_colon, 1))
    else none

unfoldable pub arithmetic : ℕ → ℕ → Option (TokenKind × ℕ)
arithmetic c c1 =
    if c == b'-'
    then (if c1 == b'>'
        then some (de_returntype, 2)
        else if c1 == b'='
        then some (op_minusequal, 2)
        else some (op_minus, 1))
    else if c == b'+'
    then (if c1 == b'=' then some (op_plusequal, 2) else some (op_plus, 1))
    else if c == b'%'
    then some (op_percent, 1)
    else if c == b'*'
    then some (op_star, 1)
    else none

unfoldable pub dots_and_equals : ℕ → ℕ → ℕ → Option (TokenKind × ℕ)
dots_and_equals c c1 c2 =
    if c == b'.'
    then (if c1 == b'.' && c2 == b'='
        then some (op_dotdotequal, 3)
        else if c1 == b'.'
        then some (op_dotdot, 2)
        else some (de_dot, 1))
    else if c == b'='
    then (if c1 == b'=' then some (op_equalequal, 2) else some (op_equal, 1))
    else if c == b'!'
    then (if c1 == b'=' then some (op_bangequal, 2) else some (op_bang, 1))
    else none

unfoldable pub comparison : ℕ → ℕ → Option (TokenKind × ℕ)
comparison c c1 =
    if c == b'<'
    then (if c1 == b'='
        then some (op_lessequal, 2)
        else if c1 == b'<'
        then some (op_lessless, 2)
        else some (op_less, 1))
    else if c == b'>'
    then (if c1 == b'='
        then some (op_greaterequal, 2)
        else if c1 == b'>'
        then some (op_greatergreater, 2)
        else some (op_greater, 1))
    else if c == b'&'
    then (if c1 == b'&' then some (op_ampamp, 2) else some (op_amp, 1))
    else if c == b'|'
    then (if c1 == b'|' then some (op_pipepipe, 2) else some (op_pipe, 1))
    else none

unfoldable pub punctuation : ℕ → ℕ → ℕ → Option (TokenKind × ℕ)
unfolding delimiter arithmetic dots_and_equals comparison
punctuation c c1 c2 =
    or_else (delimiter c c1)
      (or_else (arithmetic c c1) (or_else (dots_and_equals c c1 c2) (comparison c c1)))
