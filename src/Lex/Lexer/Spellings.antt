-- ===== src/Lex/Lexer/Spellings.antt =====
-- The text of a token of a fixed spelling is that spelling.
use trsc.Common.{
  leb, ◌==◌, ==_iff, Bool-cases, Option-cases, if_elim, some_pair, Bytes, codes, bytes_eq,
  bytes_eq_iff, ℕ, zero, suc, ◌+◌, ◌-◌, ◌≡◌, refl, sym, ap, ◌∙◌, subst, inl, inr, true, false,
  Option, none, some, List, [], ◌∷◌, arith,
}
use trsc.Lex.Chars.{
  Buffer, is_space, is_digit, is_identifier_start, is_identifier_char, scan, slice,
}
use trsc.Basic.IdentifierTable.Keywords.{
  spelled, keyword_kinds, IsClassified, initial-IsClassified, get-IsClassified, get-keyword_of,
}
use trsc.Lex.Lexer.Tokens.{Pass-cases}
use trsc.Basic.Diagnostics.{report, error, unknown_escape}
use trsc.Lex.Token.{TokenKind, get_token_string, is_kind, Token, unknown, endoffile}
use trsc.Lex.Lexer.{
  Lexer, start, form_token, skip_white_space, skip_line_comment, lex_identifier_or_keyword,
  lex_number, lex_string_literal, Pass, lex_slash, dispatch, pass, lex_within, lex, tokens_within,
  tokenize, string_loop, token_of, token, comment,
}
use trsc.Lex.Punctuation.{punctuation}
use trsc.Lex.Punctuation.Spellings.{varies, IsSpelled, punctuation-IsSpelled, slice-first_bytes}

-- A token of a kind with one spelling has it for its text.
abbrev pub Spelt : Token → Type 0
Spelt t = varies t.kind ≡ false → t.text ≡ codes (get_token_string t.kind)

spelled-codes :
    (ks : List TokenKind) (s : Bytes)
    → varies (spelled ks s) ≡ false
    → s ≡ codes (get_token_string (spelled ks s))
unfolding spelled varies
spelled-codes [] s h = cc
spelled-codes (k ∷ ks) s h = elim (Bool-cases (bytes_eq (codes (get_token_string k)) s)) [
  | inl e ↦ rw e (sym ((bytes_eq_iff _ s).0 e))
  | inr e ↦ rw e (spelled-codes ks s (rw (e, spelled) at h))
]

-- The entries of the table have the kinds of their spellings.
abbrev pub Classified : Lexer → Type 0
Classified l = IsClassified l.idents

abbrev PassSpelt : Pass → Type 0
PassSpelt (token t l) = Spelt t × Classified l
PassSpelt (comment l) = Classified l

form_token-Spelt :
    (b : Buffer) (l : Lexer) (k : TokenKind) (from : ℕ)
    → varies k ≡ true
    → Spelt (form_token b l k from none)
unfolding form_token
form_token-Spelt b l k from e h = cc

lex_identifier_or_keyword-Spelt :
    (b : Buffer) (l : Lexer)
    → Classified l
    → PassSpelt (token_of (lex_identifier_or_keyword b l l.cur))
unfolding lex_identifier_or_keyword form_token
lex_identifier_or_keyword-Spelt b l c =
    let s = slice b.byte l.cur (scan b is_identifier_char l.cur - l.cur) in
    (
      rw (get-keyword_of l.idents s c) (spelled-codes keyword_kinds s),
      get-IsClassified l.idents s c,
    )

lex_number-Spelt :
    (b : Buffer) (l : Lexer) → Classified l → PassSpelt (token_of (lex_number b l l.cur))
unfolding lex_number form_token varies
lex_number-Spelt b l c =
    if_elim (λ p. PassSpelt (token_of p)) (b.byte (scan b is_digit l.cur) == b'.')
      (λ _.
        if_elim (λ p. PassSpelt (token_of p)) (b.byte (scan b is_digit l.cur + 1) == b'.')
          (λ _. (λ h. cc, c)) (λ _. (λ h. cc, c)))
      (λ _. (λ h. cc, c))

string_loop-idents : (b : Buffer) (n : ℕ) (l : Lexer) → (string_loop b n l).0.idents ≡ l.idents
unfolding string_loop
string_loop-idents b zero l = refl
string_loop-idents b (suc n) l = ground (
  arith,
  string_loop-idents b n (record l { cur = l.cur + 1 }),
  string_loop-idents b n (record l { cur = l.cur + 1 + 1; diags = l.diags }),
  string_loop-idents b n (record l {
    cur = l.cur + 1 + 1;
    diags = report l.diags error (unknown_escape (b.byte (l.cur + 1)));
  }),
)

lex_string_literal-Spelt :
    (b : Buffer) (l : Lexer) → Classified l → PassSpelt (token_of (lex_string_literal b l l.cur))
unfolding lex_string_literal form_token varies
lex_string_literal-Spelt b l c =
    let opened = record l { cur = l.cur + 1 } in
    let loop = string_loop b (b.size - opened.cur) opened in
    let kept : loop.0.idents ≡ l.idents = string_loop-idents b (b.size - opened.cur) opened in
    (
      λ h. cc,
      if_elim Classified loop.1 (λ _. subst IsClassified (sym kept) c)
          (λ _. subst IsClassified (sym kept) c),
    )

lex_slash-Spelt :
    (b : Buffer) (l : Lexer) → Classified l → b.byte l.cur ≡ b'/' → PassSpelt (lex_slash b l l.cur)
unfolding lex_slash skip_line_comment form_token get_token_string slice
lex_slash-Spelt b l c e =
    if_elim PassSpelt (b.byte (l.cur + 1) == b'/') (λ _. c)
      (λ _. let one : l.cur + 1 - l.cur ≡ 1 = omega arith in (λ _. rw one (ap (λ x. x ∷ []) e), c))

operator-Spelt :
    (b : Buffer) (l : Lexer) (k : TokenKind) (n : ℕ)
    → punctuation (b.byte l.cur) (b.byte (l.cur + 1)) (b.byte (l.cur + 2)) ≡ some (k, n)
    → Spelt (form_token b (record l { cur = l.cur + n }) k l.cur none)
unfolding form_token
operator-Spelt b l k n e h =
    let spelt : IsSpelled (b.byte l.cur) (b.byte (l.cur + 1)) (b.byte (l.cur + 2)) (some (k, n)) =
      (rw e at (punctuation-IsSpelled (b.byte l.cur) (b.byte (l.cur + 1)) (b.byte (l.cur + 2)))) in
    let width : l.cur + n - l.cur ≡ n = omega arith in
    rw width (slice-first_bytes b.byte l.cur n spelt.1 ∙ spelt.0)

dispatch-Spelt : (b : Buffer) (l : Lexer) → Classified l → PassSpelt (dispatch b l (b.byte l.cur))
unfolding dispatch
dispatch-Spelt b l c =
    let byte = b.byte l.cur in
    if_elim PassSpelt (is_identifier_start byte) (λ _. lex_identifier_or_keyword-Spelt b l c)
      λ _.
        if_elim PassSpelt (is_digit byte) (λ _. lex_number-Spelt b l c)
          λ _.
            if_elim PassSpelt (byte == 34) (λ _. lex_string_literal-Spelt b l c)
              λ _.
                if_elim PassSpelt (byte == b'/')
                  (λ e. lex_slash-Spelt b l c ((==_iff byte b'/').0 e))
                  λ _.
                    elim (Option-cases
                      (punctuation byte (b.byte (l.cur + 1)) (b.byte (l.cur + 2)))) [
                        | inl e ↦ rw e (
                          form_token-Spelt b (record l { cur = l.cur + 1 }) unknown l.cur
                              (unfold varies in refl),
                          c,
                        )
                        | inr ((k, n), e) ↦ rw e (operator-Spelt b l k n e, c)
                      ]

pass-Spelt : (b : Buffer) (l : Lexer) → Classified l → PassSpelt (pass b l)
unfolding pass skip_white_space
pass-Spelt b l c =
    let l' = record l { cur = scan b is_space l.cur } in
    if_elim PassSpelt (leb b.size l'.cur)
      (λ _. (form_token-Spelt b l' endoffile l'.cur (unfold varies in refl), c))
      (λ _. dispatch-Spelt b l' c)

lex_within-Spelt :
    (n : ℕ) (b : Buffer) (l : Lexer) (t : Token) (l' : Lexer)
    → Classified l
    → lex_within n b l ≡ some (t, l')
    → Spelt t × Classified l'
unfolding lex_within
lex_within-Spelt zero b l t l' c e = cc
lex_within-Spelt (suc n) b l t l' c e = elim (Pass-cases (pass b l)) [
  | inl (u, m, q) ↦
      let (same_token, same_lexer) =
        some_pair (let r : some (u, m) ≡ some (t, l') = (rw (q, lex_within) at e) in r) in
      let (spelt, c') = (let r : Spelt u × Classified m = (rw q at (pass-Spelt b l c)) in r) in
      (subst Spelt same_token spelt, subst Classified same_lexer c')
  | inr (m, q) ↦ lex_within-Spelt n b m t l' (rw q at (pass-Spelt b l c)) (rw (q, lex_within) at e)
]

pub lex-Spelt :
    (b : Buffer) (l : Lexer) (t : Token) (l' : Lexer)
    → Classified l
    → lex b l ≡ some (t, l')
    → Spelt t × Classified l'
unfolding lex
lex-Spelt b l t l' = lex_within-Spelt (suc (b.size - l.cur)) b l t l'

abbrev pub AllSpelt : List Token → Type 0
AllSpelt [] = Unit
AllSpelt (t ∷ ts) = Spelt t × AllSpelt ts

tokens_within-AllSpelt :
    (n : ℕ) (b : Buffer) (l : Lexer) (ts : List Token) (l' : Lexer)
    → Classified l
    → tokens_within n b l ≡ some (ts, l')
    → AllSpelt ts
unfolding tokens_within
tokens_within-AllSpelt zero b l ts l' c e = cc
tokens_within-AllSpelt (suc n) b l ts l' c e = elim (Option-cases (lex b l)) [
  | inl q ↦ cc (rw (q, tokens_within) at e)
  | inr ((t, m), q) ↦
      let (spelt, c') = lex-Spelt b l t m c q in
      elim (Bool-cases (is_kind t.kind endoffile)) [
        | inl end ↦
            let r : some (t ∷ [], m) ≡ some (ts, l') = (rw (q, tokens_within, end) at e) in
            subst AllSpelt (some_pair r).0 (spelt, tt)
        | inr go_on ↦ elim (Option-cases (tokens_within n b m)) [
          | inl r ↦ cc (
              let x : ◌≡◌ {A = Option (List Token × Lexer)} none (some (ts, l')) =
                (rw (q, tokens_within, go_on, r) at e) in
              x)
          | inr ((us, m'), r) ↦
              let x : some (t ∷ us, m') ≡ some (ts, l') = (rw (q, tokens_within, go_on, r) at e) in
              subst AllSpelt (some_pair x).0 (spelt, tokens_within-AllSpelt n b m us m' c' r)
        ]
      ]
]

-- Every token that the driver collects and whose kind has one spelling, a keyword, an operator or a
-- delimiter, has the `getTokenString` of its kind for its text.
pub tokenize-AllSpelt :
    (b : Buffer) (ts : List Token) (l : Lexer) → tokenize b ≡ some (ts, l) → AllSpelt ts
unfolding tokenize
tokenize-AllSpelt b ts l =
    tokens_within-AllSpelt (suc b.size) b start ts l (unfold start in initial-IsClassified)
