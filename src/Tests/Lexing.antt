-- ===== src/Tests/Lexing.antt =====
-- Tests and examples of the lexer and the table of identifiers.
use trsc.Common.{Bytes, codes, ◌≡◌, refl, ◌↔◌, Option, none, some, List, [], ◌∷◌, map, arith}
use trsc.Lex.Token.{
  TokenKind, to_int, is_kind, Token, endoffile, op_plusequal, de_semicolon, lt_integer, identifier,
}
use trsc.Basic.IdentifierTable.Interning.{initial-IsInterned, get-addr_iff}
use trsc.Basic.IdentifierTable.Keywords.{keyword_of, get-keyword}
use trsc.Lex.Chars.{
  Buffer, is_space, is_digit, is_identifier_start, is_identifier_char, scan, slice, buffer_of,
}
use trsc.Lex.Lexer.{
  Lexer, start, form_token, skip_white_space, is_line_char, skip_line_comment, decode_escape,
  is_supported_escape, lex_identifier_or_keyword, lex_number, lex_string_literal, lex_slash,
  dispatch, pass, lex, tokenize,
}
use trsc.Lex.Lexer.Tokens.{Lexes, lex-IsToken}
use trsc.Lex.Lexer.Termination.{TokensFrom, tokenize-IsTokenList}
use trsc.Lex.Lexer.Comments.{IsLineEnd, lex_comment_third_byte}
use trsc.Lex.Lexer.Spellings.{AllSpelt, tokenize-AllSpelt}
use trsc.Basic.IdentifierTable
use trsc.Lex.Punctuation.{punctuation}

-- A comment, an operator of two characters and a name.
abbrev source : Bytes
source = codes "// c\nx += 1;"

abbrev sample : Buffer
sample = buffer_of source

abbrev kinds_of : Option (List Token × Lexer) → List TokenKind
kinds_of none = []
kinds_of (some (ts, l)) = map (λ t. t.kind) ts

tokenize_test :
    kinds_of (tokenize sample)
    ≡ identifier ∷ op_plusequal ∷ lt_integer ∷ de_semicolon ∷ endoffile ∷ []
unfolding tokenize lex pass skip_white_space scan is_space dispatch is_identifier_start is_digit
    lex_slash skip_line_comment is_kind lex_identifier_or_keyword form_token IdentifierTable.get
    IdentifierTable.find IdentifierTable.initial slice is_identifier_char decode_escape is_line_char
    is_supported_escape lex_number lex_string_literal punctuation start to_int
tokenize_test = refl

tokenize-IsTokenList_example : TokensFrom sample 0 (tokenize sample)
tokenize-IsTokenList_example = tokenize-IsTokenList sample

lex-IsToken_example : Lexes sample 0 (lex sample start)
unfolding start
lex-IsToken_example = lex-IsToken sample start

tokenize-AllSpelt_example : AllSpelt (tokenize-IsTokenList sample).0
tokenize-AllSpelt_example =
    tokenize-AllSpelt sample (tokenize-IsTokenList sample).0 (tokenize-IsTokenList sample).1
      (tokenize-IsTokenList sample).2

abbrev empty_comment : Buffer
empty_comment = buffer_of (codes "//\nx\ny")

next_line : IsLineEnd empty_comment 3 4
unfolding is_line_char
next_line = record {
  le = omega arith;
  inside = omega arith;
  same_line = λ i lo hi. let at : i ≡ 3 = omega arith in rw at refl;
  line_break = refl;
}

lex_comment_third_byte_example :
    lex empty_comment start ≡ lex empty_comment (record start { cur = 4 })
unfolding start
lex_comment_third_byte_example = lex_comment_third_byte empty_comment start 4 refl refl next_line

get-addr_iff_example :
    ((IdentifierTable.get IdentifierTable.initial (codes "x")).0.addr
      ≡ (IdentifierTable.get
          (IdentifierTable.get_all
            (IdentifierTable.get IdentifierTable.initial (codes "x")).1
            (codes "y" ∷ []))
          (codes "fn")).0.addr)
    ↔ (codes "x" ≡ codes "fn")
get-addr_iff_example =
    get-addr_iff IdentifierTable.initial (codes "x") (codes "fn") (codes "y" ∷ [])
      initial-IsInterned

get-keyword_example :
    (IdentifierTable.get
      (IdentifierTable.get_all IdentifierTable.initial (codes "x" ∷ []))
      (codes "fn")).0.token_kind
    ≡ keyword_of (codes "fn")
get-keyword_example = get-keyword (codes "x" ∷ []) (codes "fn")
