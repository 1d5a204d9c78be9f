-- ===== src/Lex/Lexer.antt =====
-- lib/Lex/Lexer.cpp. A pointer is an offset into the buffer, and `CurPtr` is the field `cur`.
pub mod Tokens
pub mod Comments
pub mod Termination
pub mod Spellings
use trsc.Common.{
  ltb, leb, ◌==◌, if◌then◌else◌, ℕ, zero, suc, ◌+◌, ◌-◌, Bool, true, false, not, ◌&&◌, Option, none,
  some, List, [], ◌∷◌,
}
use trsc.Basic.Diagnostics.{
  DiagnosticsEngine, report, no_diagnostics, error, unknown_escape, unterminated_string,
}
use trsc.Basic.IdentifierTable
use trsc.Basic.IdentifierTable.{IdentifierTable, get, initial}
use trsc.Lex.Chars.{
  Buffer, is_space, is_digit, is_identifier_start, is_identifier_char, scan, slice,
}
use trsc.Lex.Token.{
  TokenKind, is_kind, IdentifierInfo, Token, unknown, endoffile, op_slash, lt_integer, lt_float,
  lt_string,
}
use trsc.Lex.Punctuation.{punctuation}

pub record Lexer : Type 0 where
  pub cur : ℕ
  pub idents : IdentifierTable
  pub diags : DiagnosticsEngine

-- The constructor.
unfoldable pub start : Lexer
start = record { cur = 0; idents = IdentifierTable.initial; diags = no_diagnostics }

unfoldable pub form_token : Buffer → Lexer → TokenKind → ℕ → Option IdentifierInfo → Token
form_token b l k token_start id = record {
  kind = k;
  loc = token_start;
  text = slice b.byte token_start (l.cur - token_start);
  id = id;
}

unfoldable pub skip_white_space : Buffer → Lexer → Lexer
skip_white_space b l = record l { cur = scan b is_space l.cur }

unfoldable pub is_line_char : ℕ → Bool
is_line_char c = not (c == b'\n') && not (c == b'\r')

unfoldable pub skip_line_comment : Buffer → Lexer → Lexer
unfolding is_line_char
skip_line_comment b l = record l { cur = scan b is_line_char (l.cur + 2) }

unfoldable pub decode_escape : ℕ → Option ℕ
decode_escape c =
    if c == b'n'
    then some b'\n'
    else if c == b'r'
    then some b'\r'
    else if c == b't'
    then some b'\t'
    else if c == b'0'
    then some 0
    else if c == b'\\'
    then some b'\\'
    else if c == 39
    then some 39
    else if c == 34
    then some 34
    else none

unfoldable pub is_supported_escape : ℕ → Bool
unfolding decode_escape
is_supported_escape c = elim (decode_escape c) [ some _ ↦ true | none ↦ false ]

unfoldable pub lex_identifier_or_keyword : Buffer → Lexer → ℕ → Token × Lexer
lex_identifier_or_keyword b l token_start =
    let l' = record l { cur = scan b is_identifier_char l.cur } in
    let (id, idents') =
      IdentifierTable.get l.idents (slice b.byte token_start (l'.cur - token_start)) in
    let l'' = record l' { idents = idents' } in
    (form_token b l'' id.token_kind token_start (some id), l'')

unfoldable pub lex_number : Buffer → Lexer → ℕ → Token × Lexer
lex_number b l token_start =
    let whole = record l { cur = scan b is_digit l.cur } in
    if b.byte whole.cur == b'.'
    then (if b.byte (whole.cur + 1) == b'.'
        then (form_token b whole lt_integer token_start none, whole)
        else let frac = record whole { cur = scan b is_digit (whole.cur + 1) } in
          (form_token b frac lt_float token_start none, frac))
    else (form_token b whole lt_integer token_start none, whole)

-- The loop of `LexStringLiteral`, with the value of `Terminated` at its end. A round moves the
-- pointer on by one or two, so there are at most as many rounds as bytes.
string_loop : Buffer → ℕ → Lexer → Lexer × Bool
string_loop b zero l = (l, false)
string_loop b (suc n) l =
    let c = b.byte l.cur in
    let escaped = record l { cur = l.cur + 1 } in
    let reported =
      if is_supported_escape (b.byte escaped.cur)
      then escaped.diags
      else report escaped.diags error (unknown_escape (b.byte escaped.cur)) in
    let rest = string_loop b n (
      if c == b'\\' then record escaped { cur = escaped.cur + 1; diags = reported } else escaped) in
    if ltb l.cur b.size
    then (if c == b'\\'
        then (if escaped.cur == b.size then (escaped, false) else rest)
        else if c == 34
        then (escaped, true)
        else rest)
    else (l, false)

unfoldable pub lex_string_literal : Buffer → Lexer → ℕ → Token × Lexer
unfolding string_loop
lex_string_literal b l token_start =
    let opened = record l { cur = l.cur + 1 } in
    let (l', terminated) = string_loop b (b.size - opened.cur) opened in
    let l'' =
      if terminated then l' else record l' { diags = report l'.diags error unterminated_string } in
    (form_token b l'' lt_string token_start none, l'')

-- One pass of `Lex`: a token, or a line comment that is skipped, after which `Lex` calls itself.
pub data Pass : Type 0 where
  token : Token → Lexer → Pass
  comment : Lexer → Pass

abbrev advance : Lexer → ℕ → Lexer
advance l n = record l { cur = l.cur + n }

-- `case '/'`; the pointer has moved on by one when `SkipLineComment` moves it by two more.
unfoldable pub lex_slash : Buffer → Lexer → ℕ → Pass
lex_slash b l token_start =
    let l' = advance l 1 in
    if b.byte l'.cur == b'/'
    then comment (skip_line_comment b l')
    else token (form_token b l' op_slash token_start none) l'

abbrev token_of : Token × Lexer → Pass
token_of (t, l) = token t l

-- The switch on the byte at the pointer.
unfoldable pub dispatch : Buffer → Lexer → ℕ → Pass
dispatch b l c =
    if is_identifier_start c
    then token_of (lex_identifier_or_keyword b l l.cur)
    else if is_digit c
    then token_of (lex_number b l l.cur)
    else if c == 34
    then token_of (lex_string_literal b l l.cur)
    else if c == b'/'
    then lex_slash b l l.cur
    else elim (punctuation c (b.byte (l.cur + 1)) (b.byte (l.cur + 2))) [
      | some (k, n) ↦ token (form_token b (advance l n) k l.cur none) (advance l n)
      | none ↦ token (form_token b (advance l 1) unknown l.cur none) (advance l 1)
    ]

unfoldable pub pass : Buffer → Lexer → Pass
pass b l =
    let l' = skip_white_space b l in
    if leb b.size l'.cur
    then token (form_token b l' endoffile l'.cur none) l'
    else dispatch b l' (b.byte l'.cur)

-- `Lex`, with a bound on the number of comments that it skips.
pub lex_within : ℕ → Buffer → Lexer → Option (Token × Lexer)
lex_within zero b l = none
lex_within (suc n) b l = elim (pass b l) [
  | token t l' ↦ some (t, l')
  | comment l' ↦ lex_within n b l'
]

-- A skipped comment is at least two bytes long, so this many passes are enough.
unfoldable pub lex : Buffer → Lexer → Option (Token × Lexer)
unfolding lex_within
lex b l = lex_within (suc (b.size - l.cur)) b l

-- The loop of `main`: all tokens up to the first of kind `ENDOFFILE`, that one included.
pub tokens_within : ℕ → Buffer → Lexer → Option (List Token × Lexer)
tokens_within zero b l = none
tokens_within (suc n) b l = elim (lex b l) [
  | none ↦ none
  | some (t, l') ↦
      if is_kind t.kind endoffile
      then some (t ∷ [], l')
      else elim (tokens_within n b l') [ none ↦ none | some (ts, l'') ↦ some (t ∷ ts, l'') ]
]

unfoldable pub tokenize : Buffer → Option (List Token × Lexer)
unfolding tokens_within start
tokenize b = tokens_within (suc b.size) b start
