-- ===== src/Lex/Token.antt =====
-- lib/Lex/Token.cpp and include/trsc/Lex/Token.h: the token kinds, their printed names and their
-- spellings, and tokens.
use trsc.Common.{
  ℕ, String, ◌≡◌, refl, sym, ap, ◌∙◌, Bool, true, Option, List, [], ◌∷◌, Bytes, ◌==◌, ==_iff,
  ==_refl, get_or,
}

pub data TokenKind : Type 0 where
  unknown endoffile kw_fn kw_let kw_mut kw_const kw_as kw_if kw_else kw_return kw_true kw_false :
      TokenKind
  kw_while kw_for kw_in op_plus op_minus op_star op_slash op_percent op_equal op_equalequal :
      TokenKind
  op_bang op_bangequal op_less op_lessequal op_greater op_greaterequal op_coloncolon op_plusequal :
      TokenKind
  op_minusequal op_starstar op_lessless op_greatergreater op_dotdot op_dotdotequal op_amp :
      TokenKind
  op_ampamp op_pipe op_pipepipe de_lparen de_rparen de_lbrace de_rbrace de_lbracket de_rbracket :
      TokenKind
  de_comma de_semicolon de_colon de_dot de_returntype lt_integer lt_float lt_string identifier :
      TokenKind

-- The enumerators in the order of their values.
abbrev pub kinds : List TokenKind
kinds =
    unknown ∷ endoffile ∷ kw_fn ∷ kw_let ∷ kw_mut ∷ kw_const ∷ kw_as ∷ kw_if ∷ kw_else ∷ kw_return
    ∷ kw_true ∷ kw_false ∷ kw_while ∷ kw_for ∷ kw_in ∷ op_plus ∷ op_minus ∷ op_star ∷ op_slash
    ∷ op_percent ∷ op_equal ∷ op_equalequal ∷ op_bang ∷ op_bangequal ∷ op_less ∷ op_lessequal
    ∷ op_greater ∷ op_greaterequal ∷ op_coloncolon ∷ op_plusequal ∷ op_minusequal ∷ op_starstar
    ∷ op_lessless ∷ op_greatergreater ∷ op_dotdot ∷ op_dotdotequal ∷ op_amp ∷ op_ampamp ∷ op_pipe
    ∷ op_pipepipe ∷ de_lparen ∷ de_rparen ∷ de_lbrace ∷ de_rbrace ∷ de_lbracket ∷ de_rbracket
    ∷ de_comma ∷ de_semicolon ∷ de_colon ∷ de_dot ∷ de_returntype ∷ lt_integer ∷ lt_float
    ∷ lt_string ∷ identifier ∷ []

-- The value of an enumerator.
unfoldable pub to_int : TokenKind → ℕ
to_int unknown = 0
to_int endoffile = 1
to_int kw_fn = 2
to_int kw_let = 3
to_int kw_mut = 4
to_int kw_const = 5
to_int kw_as = 6
to_int kw_if = 7
to_int kw_else = 8
to_int kw_return = 9
to_int kw_true = 10
to_int kw_false = 11
to_int kw_while = 12
to_int kw_for = 13
to_int kw_in = 14
to_int op_plus = 15
to_int op_minus = 16
to_int op_star = 17
to_int op_slash = 18
to_int op_percent = 19
to_int op_equal = 20
to_int op_equalequal = 21
to_int op_bang = 22
to_int op_bangequal = 23
to_int op_less = 24
to_int op_lessequal = 25
to_int op_greater = 26
to_int op_greaterequal = 27
to_int op_coloncolon = 28
to_int op_plusequal = 29
to_int op_minusequal = 30
to_int op_starstar = 31
to_int op_lessless = 32
to_int op_greatergreater = 33
to_int op_dotdot = 34
to_int op_dotdotequal = 35
to_int op_amp = 36
to_int op_ampamp = 37
to_int op_pipe = 38
to_int op_pipepipe = 39
to_int de_lparen = 40
to_int de_rparen = 41
to_int de_lbrace = 42
to_int de_rbrace = 43
to_int de_lbracket = 44
to_int de_rbracket = 45
to_int de_comma = 46
to_int de_semicolon = 47
to_int de_colon = 48
to_int de_dot = 49
to_int de_returntype = 50
to_int lt_integer = 51
to_int lt_float = 52
to_int lt_string = 53
to_int identifier = 54

unfoldable pub get_token_name : TokenKind → String
get_token_name unknown = "UNKNOWN"
get_token_name endoffile = "ENDOFFILE"
get_token_name kw_fn = "KW_FN"
get_token_name kw_let = "KW_LET"
get_token_name kw_mut = "KW_MUT"
get_token_name kw_const = "KW_CONST"
get_token_name kw_as = "KW_AS"
get_token_name kw_if = "KW_IF"
get_token_name kw_else = "KW_ELSE"
get_token_name kw_return = "KW_RETURN"
get_token_name kw_true = "KW_TRUE"
get_token_name kw_false = "KW_FALSE"
get_token_name kw_while = "KW_WHILE"
get_token_name kw_for = "KW_FOR"
get_token_name kw_in = "KW_IN"
get_token_name op_plus = "OP_PLUS"
get_token_name op_minus = "OP_MINUS"
get_token_name op_star = "OP_STAR"
get_token_name op_slash = "OP_SLASH"
get_token_name op_percent = "OP_PERCENT"
get_token_name op_equal = "OP_EQUAL"
get_token_name op_equalequal = "OP_EQUALEQUAL"
get_token_name op_bang = "OP_BANG"
get_token_name op_bangequal = "OP_BANGEQUAL"
get_token_name op_less = "OP_LESS"
get_token_name op_lessequal = "OP_LESSEQUAL"
get_token_name op_greater = "OP_GREATER"
get_token_name op_greaterequal = "OP_GREATEREQUAL"
get_token_name op_coloncolon = "OP_COLONCOLON"
get_token_name op_plusequal = "OP_PLUSEQUAL"
get_token_name op_minusequal = "OP_MINUSEQUAL"
get_token_name op_starstar = "OP_STARSTAR"
get_token_name op_lessless = "OP_LESSLESS"
get_token_name op_greatergreater = "OP_GREATERGREATER"
get_token_name op_dotdot = "OP_DOTDOT"
get_token_name op_dotdotequal = "OP_DOTDOTEQUAL"
get_token_name op_amp = "OP_AMP"
get_token_name op_ampamp = "OP_AMPAMP"
get_token_name op_pipe = "OP_PIPE"
get_token_name op_pipepipe = "OP_PIPEPIPE"
get_token_name de_lparen = "DE_LPAREN"
get_token_name de_rparen = "DE_RPAREN"
get_token_name de_lbrace = "DE_LBRACE"
get_token_name de_rbrace = "DE_RBRACE"
get_token_name de_lbracket = "DE_LBRACKET"
get_token_name de_rbracket = "DE_RBRACKET"
get_token_name de_comma = "DE_COMMA"
get_token_name de_semicolon = "DE_SEMICOLON"
get_token_name de_colon = "DE_COLON"
get_token_name de_dot = "DE_DOT"
get_token_name de_returntype = "DE_RETURNTYPE"
get_token_name lt_integer = "LT_INTEGER"
get_token_name lt_float = "LT_FLOAT"
get_token_name lt_string = "LT_STRING"
get_token_name identifier = "IDENTIFIER"

unfoldable pub get_token_string : TokenKind → String
get_token_string unknown = "unknown"
get_token_string endoffile = "endoffile"
get_token_string kw_fn = "fn"
get_token_string kw_let = "let"
get_token_string kw_mut = "mut"
get_token_string kw_const = "const"
get_token_string kw_as = "as"
get_token_string kw_if = "if"
get_token_string kw_else = "else"
get_token_string kw_return = "return"
get_token_string kw_true = "true"
get_token_string kw_false = "false"
get_token_string kw_while = "while"
get_token_string kw_for = "for"
get_token_string kw_in = "in"
get_token_string op_plus = "+"
get_token_string op_minus = "-"
get_token_string op_star = "*"
get_token_string op_slash = "/"
get_token_string op_percent = "%"
get_token_string op_equal = "="
get_token_string op_equalequal = "=="
get_token_string op_bang = "!"
get_token_string op_bangequal = "!="
get_token_string op_less = "<"
get_token_string op_lessequal = "<="
get_token_string op_greater = ">"
get_token_string op_greaterequal = ">="
get_token_string op_coloncolon = "::"
get_token_string op_plusequal = "+="
get_token_string op_minusequal = "-="
get_token_string op_starstar = "**"
get_token_string op_lessless = "<<"
get_token_string op_greatergreater = ">>"
get_token_string op_dotdot = ".."
get_token_string op_dotdotequal = "..="
get_token_string op_amp = "&"
get_token_string op_ampamp = "&&"
get_token_string op_pipe = "|"
get_token_string op_pipepipe = "||"
get_token_string de_lparen = "("
get_token_string de_rparen = ")"
get_token_string de_lbrace = "{"
get_token_string de_rbrace = "}"
get_token_string de_lbracket = "["
get_token_string de_rbracket = "]"
get_token_string de_comma = ","
get_token_string de_semicolon = ";"
get_token_string de_colon = ":"
get_token_string de_dot = "."
get_token_string de_returntype = "->"
get_token_string lt_integer = "number"
get_token_string lt_float = "number"
get_token_string lt_string = "string"
get_token_string identifier = "identifier"

abbrev of_int : ℕ → TokenKind
of_int n = get_or kinds n unknown

of_int-to_int : (k : TokenKind) → of_int (to_int k) ≡ k
unfolding to_int
of_int-to_int unknown = refl
of_int-to_int _ = refl

-- `Kind == K`.
unfoldable pub is_kind : TokenKind → TokenKind → Bool
unfolding to_int
is_kind k k' = to_int k == to_int k'

pub to_int-injective : (k k' : TokenKind) → to_int k ≡ to_int k' → k ≡ k'
to_int-injective k k' e = sym (of_int-to_int k) ∙ ap of_int e ∙ of_int-to_int k'

pub is_kind-eq : (k k' : TokenKind) → is_kind k k' ≡ true → k ≡ k'
is_kind-eq k k' h = to_int-injective k k' ((==_iff (to_int k) (to_int k')).0 (unfold is_kind in h))

pub is_kind_refl : (k : TokenKind) → is_kind k k ≡ true
unfolding is_kind
is_kind_refl k = ==_refl (to_int k)

-- The value behind an `IdentifierInfo *`, with its address: the table hands out one address for
-- each spelling.
pub record IdentifierInfo : Type 0 where
  pub addr : ℕ
  pub name : Bytes
  pub token_kind : TokenKind

-- `Loc` is kept as the offset of the token in the buffer.
pub record Token : Type 0 where
  pub kind : TokenKind
  pub loc : ℕ
  pub text : Bytes
  pub id : Option IdentifierInfo
