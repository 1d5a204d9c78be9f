-- ===== src/Lex/Lexer/Tokens.antt =====
-- `Lex` returns a token, whose text is the part of the buffer that the call has read.
use trsc.Common.{
  leb, ◌==◌, Bool-cases, Option-cases, if_elim, length, ℕ, zero, suc, ◌+◌, ◌-◌, ◌≤◌, ◌<◌, ◌≡◌, refl,
  sym, ap, ◌⊎◌, inl, inr, true, Option, none, some, arith,
}
use trsc.Lex.Chars.{
  Buffer, is_space, is_digit, is_identifier_start, is_identifier_char, scan, slice, scan_bounds,
  length-slice, scan_moves,
}
use trsc.Basic.Diagnostics.{report, error, unknown_escape}
use trsc.Lex.Token.{
  TokenKind, IdentifierInfo, Token, unknown, endoffile, op_slash, lt_integer, lt_float, lt_string,
}
use trsc.Lex.Lexer.{
  Lexer, form_token, skip_white_space, is_line_char, skip_line_comment, lex_identifier_or_keyword,
  lex_number, lex_string_literal, Pass, lex_slash, dispatch, pass, lex_within, lex, string_loop,
  token, comment,
}
use trsc.Lex.Punctuation.{punctuation}

-- `t` is a token of the buffer that begins no earlier than `from` and ends where `l` stands. It is
-- empty only at the end of the file.
pub record IsToken (b : Buffer) (from : ℕ) (t : Token) (l : Lexer) : Type 0 where
  pub begins : from ≤ t.loc
  pub ends : t.loc + length t.text ≡ l.cur
  pub text_lem : t.text ≡ slice b.byte t.loc (length t.text)
  pub progress : ((t.kind ≡ endoffile) × (b.size ≤ l.cur)) ⊎ ((t.loc < l.cur) × (t.loc < b.size))

form_token-IsToken :
    (b : Buffer) (l : Lexer) (k : TokenKind) (from : ℕ) (id : Option IdentifierInfo)
    → from < l.cur
    → from < b.size
    → IsToken b from (form_token b l k from id) l
unfolding form_token
form_token-IsToken b l k from id h inside =
    let long = length-slice b.byte from (l.cur - from) in
    record {
      begins = omega arith;
      ends = omega (arith, long);
      text_lem = ap (slice b.byte from) (sym long);
      progress = inr (h, inside);
    }

end_of_file-IsToken :
    (b : Buffer) (l : Lexer) (from : ℕ)
    → from ≤ l.cur
    → b.size ≤ l.cur
    → IsToken b from (form_token b l endoffile l.cur none) l
unfolding form_token
end_of_file-IsToken b l from h e =
    let long = length-slice b.byte l.cur (l.cur - l.cur) in
    record {
      begins = h;
      ends = omega (arith, long);
      text_lem = ap (slice b.byte l.cur) (sym long);
      progress = inl (refl, e);
    }

string_loop-le : (b : Buffer) (n : ℕ) (l : Lexer) → l.cur ≤ (string_loop b n l).0.cur
unfolding string_loop
string_loop-le b zero l = omega arith
string_loop-le b (suc n) l = ground (
  arith,
  string_loop-le b n (record l { cur = l.cur + 1 }),
  string_loop-le b n (record l { cur = l.cur + 1 + 1; diags = l.diags }),
  string_loop-le b n (record l {
    cur = l.cur + 1 + 1;
    diags = report l.diags error (unknown_escape (b.byte (l.cur + 1)));
  }),
)

abbrev Reads : Buffer → ℕ → Token × Lexer → Type 0
Reads b from (t, l) = IsToken b from t l

lex_string_literal-IsToken :
    (b : Buffer) (l : Lexer) → l.cur < b.size → Reads b l.cur (lex_string_literal b l l.cur)
unfolding lex_string_literal
lex_string_literal-IsToken b l h =
    let opened = record l { cur = l.cur + 1 } in
    form_token-IsToken b _ lt_string l.cur none
      (ground (arith, string_loop-le b (b.size - opened.cur) opened)) h

lex_number-IsToken :
    (b : Buffer) (l : Lexer)
    → l.cur < b.size
    → is_digit (b.byte l.cur) ≡ true
    → Reads b l.cur (lex_number b l l.cur)
unfolding lex_number
lex_number-IsToken b l h e =
    let moved = scan_moves b is_digit l.cur h e in
    let frac = scan_bounds b is_digit (scan b is_digit l.cur + 1) in
    let token = λ (k : TokenKind) (cur : ℕ) (later : l.cur < cur).
      form_token-IsToken b (record l { cur = cur }) k l.cur none later h in
    elim (Bool-cases (b.byte (scan b is_digit l.cur) == b'.')) [
      | inl dot ↦ rw dot (elim (Bool-cases (b.byte (scan b is_digit l.cur + 1) == b'.')) [
        | inl dots ↦ rw dots (token lt_integer _ moved)
        | inr no_dots ↦ rw no_dots (token lt_float _ (omega arith))
      ])
      | inr no_dot ↦ rw no_dot (token lt_integer _ moved)
    ]

lex_identifier_or_keyword-IsToken :
    (b : Buffer) (l : Lexer)
    → l.cur < b.size
    → is_identifier_start (b.byte l.cur) ≡ true
    → Reads b l.cur (lex_identifier_or_keyword b l l.cur)
unfolding lex_identifier_or_keyword
lex_identifier_or_keyword-IsToken b l h e =
    form_token-IsToken b _ _ l.cur _
      (scan_moves b is_identifier_char l.cur h (unfold is_identifier_char in ground arith)) h

punctuation-width :
    (c c1 c2 : ℕ) (k : TokenKind) (n : ℕ) → punctuation c c1 c2 ≡ some (k, n) → 0 < n
unfolding punctuation
punctuation-width c c1 c2 k n e = ground arith

-- What a pass does: a token behind the white space, or a comment of two bytes at least.
abbrev PassIs : Buffer → ℕ → Pass → Type 0
PassIs b from (token t l) = IsToken b from t l
PassIs b from (comment l) = (from + 2 ≤ l.cur) × (from < b.size)

skip_line_comment-le : (b : Buffer) (l : Lexer) → l.cur + 2 ≤ (skip_line_comment b l).cur
unfolding skip_line_comment
skip_line_comment-le b l = (scan_bounds b is_line_char (l.cur + 2)).0

lex_slash-PassIs : (b : Buffer) (l : Lexer) → l.cur < b.size → PassIs b l.cur (lex_slash b l l.cur)
unfolding lex_slash
lex_slash-PassIs b l h =
    if_elim (PassIs b l.cur) (b.byte (l.cur + 1) == b'/')
      (λ _. (omega (arith, skip_line_comment-le b (record l { cur = l.cur + 1 })), h))
      (λ _. form_token-IsToken b (record l { cur = l.cur + 1 }) op_slash l.cur none (omega arith) h)

dispatch-PassIs :
    (b : Buffer) (l : Lexer) → l.cur < b.size → PassIs b l.cur (dispatch b l (b.byte l.cur))
unfolding dispatch
dispatch-PassIs b l h =
    let c = b.byte l.cur in
    let token = λ (k : TokenKind) (n : ℕ) (wide : 0 < n).
      form_token-IsToken b (record l { cur = l.cur + n }) k l.cur none (omega arith) h in
    if_elim (PassIs b l.cur) (is_identifier_start c) (lex_identifier_or_keyword-IsToken b l h) λ _.
      if_elim (PassIs b l.cur) (is_digit c) (lex_number-IsToken b l h) λ _.
        if_elim (PassIs b l.cur) (c == 34) (λ _. lex_string_literal-IsToken b l h)
          λ _.
            if_elim (PassIs b l.cur) (c == b'/') (λ _. lex_slash-PassIs b l h)
              λ _. elim (Option-cases (punctuation c (b.byte (l.cur + 1)) (b.byte (l.cur + 2)))) [
                | inl e ↦ rw e (token unknown 1 (omega arith))
                | inr ((k, n), e) ↦ rw e (token k n (punctuation-width _ _ _ k n e))
              ]

-- A token, or a comment, of what follows the white space is one of what stands before it too.
PassIs-earlier :
    (b : Buffer) (from later : ℕ) (p : Pass) → from ≤ later → PassIs b later p → PassIs b from p
PassIs-earlier b from later (token t l) h i = record {
  begins = omega arith;
  ends = i.ends;
  text_lem = i.text_lem;
  progress = i.progress;
}
PassIs-earlier b from later (comment l) h i = omega arith

pub pass-PassIs : (b : Buffer) (l : Lexer) → PassIs b l.cur (pass b l)
unfolding pass skip_white_space
pass-PassIs b l =
    let skipped = (scan_bounds b is_space l.cur).0 in
    let l' = record l { cur = scan b is_space l.cur } in
    if_elim (PassIs b l.cur) (leb b.size l'.cur)
      (λ e. end_of_file-IsToken b l' l.cur skipped (ground arith))
      (λ e. PassIs-earlier b l.cur l'.cur _ skipped (dispatch-PassIs b l' (ground arith)))

pub Pass-cases :
    (p : Pass) → ((t : Token) × (l : Lexer) × (p ≡ token t l)) ⊎ ((l : Lexer) × (p ≡ comment l))
Pass-cases (token t l) = inl (t, l, refl)
Pass-cases (comment l) = inr (l, refl)

-- What `Lex` promises at the pointer `from`.
abbrev pub Lexes : Buffer → ℕ → Option (Token × Lexer) → Type 0
Lexes b from r = (t : Token) × (l : Lexer) × (r ≡ some (t, l)) × IsToken b from t l

lex_within-IsToken :
    (n : ℕ) (b : Buffer) (l : Lexer) → b.size - l.cur < n → Lexes b l.cur (lex_within n b l)
unfolding lex_within
lex_within-IsToken zero b l h = absurd (omega arith)
lex_within-IsToken (suc n) b l h = elim (Pass-cases (pass b l)) [
  | inl (t, l', e) ↦ (t, l', rw (e, lex_within), rw e at (pass-PassIs b l))
  | inr (l', e) ↦
      let (moved, inside) =
        (let x : (l.cur + 2 ≤ l'.cur) × (l.cur < b.size) = (rw e at (pass-PassIs b l)) in x) in
      let (t, l'', r, i) = lex_within-IsToken n b l' (omega arith) in
      (t, l'', rw (e, lex_within) r, PassIs-earlier b l.cur l'.cur (token t l'') (omega arith) i)
]

-- `Lex` returns for every buffer and from every state. Its token begins at the pointer or later,
-- ends where the pointer then stands, and its text is what the buffer holds between. The token
-- starts inside the buffer and is not empty, unless it is the end-of-file token and the pointer is at
-- the end of the buffer or behind it.
pub lex-IsToken : (b : Buffer) (l : Lexer) → Lexes b l.cur (lex b l)
unfolding lex
lex-IsToken b l = lex_within-IsToken (suc (b.size - l.cur)) b l (omega arith)
