-- ===== src/Lex/Lexer/Comments.antt =====
-- Line comments. `case '/'` has moved the pointer past the first slash when `SkipLineComment` moves it
-- on by two more, so the byte behind `//` is skipped without a look at it.
use trsc.Common.{
  leb, ℕ, zero, suc, ◌+◌, ◌-◌, ◌≤◌, ◌<◌, ◌≡◌, refl, sym, ap, ◌∙◌, inl, inr, false, some, arith,
}
use trsc.Lex.Chars.{Buffer, is_space, is_digit, is_identifier_start, scan, Passes, scan_unique}
use trsc.Lex.Token.{Token}
use trsc.Lex.Lexer.{
  Lexer, skip_white_space, is_line_char, skip_line_comment, lex_slash, dispatch, pass, lex_within,
  lex, comment,
}
use trsc.Lex.Lexer.Tokens.{pass-PassIs, Pass-cases, lex-IsToken}

lex_within_mono :
    (n m : ℕ) (b : Buffer) (l : Lexer) (r : Token × Lexer)
    → n ≤ m
    → lex_within n b l ≡ some r
    → lex_within m b l ≡ some r
unfolding lex_within
lex_within_mono zero m b l r h e = cc
lex_within_mono (suc n) zero b l r h e = absurd (omega arith)
lex_within_mono (suc n) (suc m) b l r h e = elim (Pass-cases (pass b l)) [
  | inl (t, l', q) ↦ rw (q, lex_within) (rw (q, lex_within) at e)
  | inr (l', q) ↦
      rw (q, lex_within) (lex_within_mono n m b l' r (omega arith) (rw (q, lex_within) at e))
]

-- A pass that skips a comment leaves the token to the next one.
lex-comment : (b : Buffer) (l l' : Lexer) → pass b l ≡ comment l' → lex b l ≡ lex b l'
unfolding lex lex_within
lex-comment b l l' e =
    let (moved, inside) =
      (let x : (l.cur + 2 ≤ l'.cur) × (l.cur < b.size) = (rw e at (pass-PassIs b l)) in x) in
    let (t, l'', r, _) = lex-IsToken b l' in
    rw (e, lex_within)
      (lex_within_mono (suc (b.size - l'.cur)) (b.size - l.cur) b l' (t, l'') (omega arith) r
        ∙ sym r)

skip_white_space_here :
    (b : Buffer) (l : Lexer)
    → l.cur < b.size
    → is_space (b.byte l.cur) ≡ false
    → skip_white_space b l ≡ l
unfolding skip_white_space
skip_white_space_here b l h e =
    ap (λ at. record l { cur = at })
      (scan_unique b is_space l.cur l.cur (omega arith) h (λ i lo hi. absurd (omega arith)) e)

pub pass_here :
    (b : Buffer) (l : Lexer)
    → l.cur < b.size
    → is_space (b.byte l.cur) ≡ false
    → pass b l ≡ dispatch b l (b.byte l.cur)
unfolding pass
pass_here b l h e =
    let inside : leb b.size l.cur ≡ false = ground arith in
    rw (skip_white_space_here b l h e, inside)

-- At two slashes the pass skips a comment, from the byte behind the byte behind them.
pass_slashes :
    (b : Buffer) (l : Lexer)
    → l.cur < b.size
    → b.byte l.cur ≡ b'/'
    → b.byte (l.cur + 1) ≡ b'/'
    → pass b l ≡ comment (record l { cur = scan b is_line_char (l.cur + 3) })
unfolding dispatch lex_slash skip_line_comment is_identifier_start is_digit
pass_slashes b l h e e' =
    pass_here b l h (rw e (unfold is_space in refl))
    ∙ rw (e, e') (let behind : l.cur + 1 + 2 ≡ l.cur + 3 = omega arith in rw behind)

-- `end` is the end of the line that holds the offset `from`.
pub record IsLineEnd (b : Buffer) (from end : ℕ) : Type 0 where
  pub le : from ≤ end
  pub inside : end < b.size
  pub same_line : Passes b is_line_char from end
  pub line_break : is_line_char (b.byte end) ≡ false

-- Whatever byte stands behind `//`, it is skipped without a look at it: `Lex` goes on at the end of
-- the line that holds the byte after it. So where a line break stands directly behind `//`, the whole
-- next line is skipped, and no token comes from it.
pub lex_comment_third_byte :
    (b : Buffer) (l : Lexer) (end : ℕ)
    → b.byte l.cur ≡ b'/'
    → b.byte (l.cur + 1) ≡ b'/'
    → IsLineEnd b (l.cur + 3) end
    → lex b l ≡ lex b (record l { cur = end })
lex_comment_third_byte b l end e e' at =
    let from_here = at.le in
    let inside = at.inside in
    lex-comment b l _ (pass_slashes b l (omega arith) e e')
    ∙ rw (scan_unique b is_line_char (l.cur + 3) end at.le at.inside at.same_line at.line_break)
