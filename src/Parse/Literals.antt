-- ===== src/Parse/Literals.antt =====
-- lib/Parse/Parser.cpp: `parseNumber` and `decodeStringLiteral`. A `string_view` that is not set is `none`.
use mathlib.Core.Option
use trsc.Common.{
  ltb, ◌==◌, if◌then◌else◌, Bytes, ℕ, ◌+◌, ◌-◌, ◌*◌, ◌≡◌, refl, ap, ◌∙◌, Bool, true, false, ◌||◌,
  Option, none, some, [], ◌∷◌, ◌++◌, arith,
}
use trsc.Lex.Chars.{is_digit}
use trsc.Lex.Lexer.{decode_escape}

-- `std::from_chars` in base 10: the digits at the start, and 0, which `Value` holds before, for a number that
-- is not below the limit.
digits_value : Bytes → ℕ → ℕ
unfolding is_digit
digits_value [] n = n
digits_value (c ∷ cs) n = if is_digit c then digits_value cs (10 * n + (c - b'0')) else n

unfoldable pub parse_number : ℕ → Bytes → ℕ
unfolding digits_value
parse_number limit text = let n = digits_value text 0 in if ltb n limit then n else 0

-- A text without its last byte, if that is a quote.
drop_quote : Bytes → Option Bytes
drop_quote [] = none
drop_quote (c ∷ []) = if c == b'"' then some [] else none
drop_quote (c ∷ d ∷ cs) = Option.map (◌∷◌ c) (drop_quote (d ∷ cs))

-- `Body`, or `none` where the literal is not terminated.
unfoldable pub literal_body : Bytes → Option Bytes
unfolding drop_quote
literal_body [] = none
literal_body (c ∷ cs) = if c == b'"' then drop_quote cs else none

unfoldable pub has_backslash : Bytes → Bool
has_backslash [] = false
has_backslash (c ∷ cs) = c == b'\\' || has_backslash cs

-- One round of the loop, given the escape of the second byte and what the rounds after give.
decode_round : Bool → ℕ → Option ℕ → Bytes → Bytes → Bytes
decode_round false c escaped after_one after_two = c ∷ after_one
decode_round true c none after_one after_two = c ∷ after_one
decode_round true c (some e) after_one after_two = e ∷ after_two

unfoldable pub decode_body : Bytes → Bytes
unfolding decode_round
decode_body [] = []
decode_body (c ∷ []) = c ∷ []
decode_body (c ∷ d ∷ cs) =
    decode_round (c == b'\\') c (decode_escape d) (decode_body (d ∷ cs)) (decode_body cs)

unfoldable pub decoded : Bytes → Bytes
unfolding has_backslash decode_body
decoded body = if has_backslash body then decode_body body else body

unfoldable pub decode_string_literal : Bytes → Option Bytes
unfolding literal_body decoded
decode_string_literal text = Option.map decoded (literal_body text)

decode_body_plain : (body : Bytes) → has_backslash body ≡ false → decode_body body ≡ body
unfolding decode_body has_backslash decode_round
decode_body_plain [] h = refl
decode_body_plain (c ∷ []) h = refl
decode_body_plain (c ∷ d ∷ cs) h = ground (arith, decode_body_plain (d ∷ cs))

-- The path that `decodeStringLiteral` takes for a body without escapes gives what its loop would.
pub decoded-decode_body : (body : Bytes) → decoded body ≡ decode_body body
unfolding decoded
decoded-decode_body body = ground (arith, decode_body_plain body)

-- An independent printer: each byte that has an escape is written with it.
unfoldable pub encode_byte : ℕ → Bytes → Bytes
encode_byte c rest =
    if c == b'\n'
    then b'\\' ∷ b'n' ∷ rest
    else if c == b'\r'
    then b'\\' ∷ b'r' ∷ rest
    else if c == b'\t'
    then b'\\' ∷ b't' ∷ rest
    else if c == 0
    then b'\\' ∷ b'0' ∷ rest
    else if c == b'\\'
    then b'\\' ∷ b'\\' ∷ rest
    else if c == 39
    then b'\\' ∷ 39 ∷ rest
    else if c == 34
    then b'\\' ∷ 34 ∷ rest
    else c ∷ rest

unfoldable pub encode_body : Bytes → Bytes
unfolding encode_byte
encode_body [] = []
encode_body (c ∷ cs) = encode_byte c (encode_body cs)

unfoldable pub encode_literal : Bytes → Bytes
encode_literal s = 34 ∷ encode_body s ++ 34 ∷ []

drop_quote-append : (body : Bytes) → drop_quote (body ++ 34 ∷ []) ≡ some body
unfolding drop_quote
drop_quote-append [] = refl
drop_quote-append (c ∷ []) = refl
drop_quote-append (c ∷ d ∷ cs) = rw (drop_quote-append (d ∷ cs)) refl

decode_body_cons :
    (c : ℕ) (cs : Bytes) → (c == b'\\') ≡ false → decode_body (c ∷ cs) ≡ c ∷ decode_body cs
unfolding decode_body decode_round
decode_body_cons c [] h = refl
decode_body_cons c (d ∷ cs) h = rw h refl

-- The decoder undoes the printing of one byte.
decode_body-encode_byte :
    (c : ℕ) (rest : Bytes) → decode_body (encode_byte c rest) ≡ c ∷ decode_body rest
unfolding encode_byte decode_body decode_round decode_escape
decode_body-encode_byte c rest = ground (arith, decode_body_cons c rest)

decode_body-encode : (s : Bytes) → decode_body (encode_body s) ≡ s
unfolding encode_body decode_body
decode_body-encode [] = refl
decode_body-encode (c ∷ cs) =
    decode_body-encode_byte c (encode_body cs) ∙ ap (◌∷◌ c) (decode_body-encode cs)

-- The literal that `encode_literal` writes for a string, with an escape for each byte that has one, is
-- decoded to the string, whatever its bytes are.
pub decode-encode_literal : (s : Bytes) → decode_string_literal (encode_literal s) ≡ some s
unfolding decode_string_literal encode_literal literal_body
decode-encode_literal s =
    rw (drop_quote-append (encode_body s))
      (ap some (decoded-decode_body (encode_body s) ∙ decode_body-encode s))
