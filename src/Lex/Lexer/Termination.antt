-- ===== src/Lex/Lexer/Termination.antt =====
-- The loop of `main` that collects the tokens.
use trsc.Common.{
  Bool-cases, length, ℕ, zero, suc, ◌+◌, ◌-◌, ◌≤◌, ◌<◌, ◌≡◌, ap, ◌≢◌, inl, inr, false, Option, some,
  List, [], ◌∷◌, arith,
}
use trsc.Lex.Chars.{Buffer, slice}
use trsc.Lex.Token.{TokenKind, is_kind, is_kind-eq, is_kind_refl, Token, endoffile}
use trsc.Lex.Lexer.{Lexer, start, tokens_within, tokenize}
use trsc.Lex.Lexer.Tokens.{lex-IsToken}

-- Tokens one behind the other from `from` on, none of them empty but the last, which alone is of
-- kind `ENDOFFILE`.
pub data IsTokenList (b : Buffer) : ℕ → List Token → Type 0 where
  last : {from : ℕ} {t : Token} → from ≤ t.loc → t.kind ≡ endoffile → IsTokenList b from (t ∷ [])
  more :
      {from : ℕ} {t : Token} {ts : List Token}
      → from ≤ t.loc
      → t.loc < b.size
      → 0 < length t.text
      → t.text ≡ slice b.byte t.loc (length t.text)
      → t.kind ≢ endoffile
      → IsTokenList b (t.loc + length t.text) ts
      → IsTokenList b from (t ∷ ts)

not_endoffile : (k : TokenKind) → is_kind k endoffile ≡ false → k ≢ endoffile
not_endoffile k h e = cc (h, is_kind_refl endoffile, ap (λ x. is_kind x endoffile) e)

abbrev pub TokensFrom : Buffer → ℕ → Option (List Token × Lexer) → Type 0
TokensFrom b from r = (ts : List Token) × (l : Lexer) × (r ≡ some (ts, l)) × IsTokenList b from ts

tokens_within-TokensFrom :
    (n : ℕ) (b : Buffer) (l : Lexer) → b.size - l.cur < n → TokensFrom b l.cur (tokens_within n b l)
unfolding tokens_within
tokens_within-TokensFrom zero b l h = absurd (omega arith)
tokens_within-TokensFrom (suc n) b l h =
    let (t, l', e, i) = lex-IsToken b l in
    rw (e, tokens_within)
      (elim (Bool-cases (is_kind t.kind endoffile)) [
        | inl end ↦ (t ∷ [], l', rw end, last i.begins (is_kind-eq t.kind endoffile end))
        | inr go_on ↦ elim i.progress [
          | inl (end, _) ↦ absurd (not_endoffile t.kind go_on end)
          | inr (moved, inside) ↦
              let (ts, l'', r, rest) =
                tokens_within-TokensFrom n b l' (let at = i.begins in omega arith) in
              (
                t ∷ ts,
                l'',
                rw (go_on, r),
                more i.begins inside (let at = i.ends in omega arith) i.text_lem
                    (not_endoffile t.kind go_on) (rw i.ends rest),
              )
        ]
      ])

-- For every buffer the loop of the driver ends. Its tokens follow one another in the buffer without
-- overlap; each but the last is not empty, starts inside the buffer and has the buffer's bytes for its
-- text; and the last one is the only one of kind `ENDOFFILE`.
pub tokenize-IsTokenList : (b : Buffer) → TokensFrom b 0 (tokenize b)
unfolding tokenize
tokenize-IsTokenList b = tokens_within-TokensFrom (suc b.size) b start (unfold start in omega arith)
