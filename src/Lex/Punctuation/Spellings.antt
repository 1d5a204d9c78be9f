-- ===== src/Lex/Punctuation/Spellings.antt =====
-- What the pointer moves over at a delimiter or an operator is its spelling.
use trsc.Common.{
  or_else, Bytes, codes, ℕ, zero, suc, ◌+◌, ◌≤◌, ◌≡◌, refl, Bool, true, false, Option, none, some,
  [], ◌∷◌, arith,
}
use trsc.Lex.Chars.{slice}
use trsc.Lex.Token.{
  TokenKind, get_token_string, unknown, endoffile, lt_integer, lt_float, lt_string, identifier,
}
use trsc.Lex.Punctuation.{delimiter, arithmetic, dots_and_equals, comparison, punctuation}

-- The kinds whose tokens have various texts.
unfoldable pub varies : TokenKind → Bool
varies unknown = true
varies endoffile = true
varies lt_integer = true
varies lt_float = true
varies lt_string = true
varies identifier = true
varies _ = false

-- The first `n` of the three bytes.
abbrev pub first_bytes : ℕ → ℕ → ℕ → ℕ → Bytes
first_bytes zero c c1 c2 = []
first_bytes (suc zero) c c1 c2 = c ∷ []
first_bytes (suc (suc zero)) c c1 c2 = c ∷ c1 ∷ []
first_bytes _ c c1 c2 = c ∷ c1 ∷ c2 ∷ []

abbrev pub IsSpelled : ℕ → ℕ → ℕ → Option (TokenKind × ℕ) → Type 0
IsSpelled c c1 c2 none = Unit
IsSpelled c c1 c2 (some (k, n)) = (first_bytes n c c1 c2 ≡ codes (get_token_string k)) × (n ≤ 3)

delimiter-IsSpelled : (c c1 c2 : ℕ) → IsSpelled c c1 c2 (delimiter c c1)
unfolding delimiter get_token_string
delimiter-IsSpelled c c1 c2 = ground arith

arithmetic-IsSpelled : (c c1 c2 : ℕ) → IsSpelled c c1 c2 (arithmetic c c1)
unfolding arithmetic get_token_string
arithmetic-IsSpelled c c1 c2 = ground arith

dots_and_equals-IsSpelled : (c c1 c2 : ℕ) → IsSpelled c c1 c2 (dots_and_equals c c1 c2)
unfolding dots_and_equals get_token_string
dots_and_equals-IsSpelled c c1 c2 = ground arith

comparison-IsSpelled : (c c1 c2 : ℕ) → IsSpelled c c1 c2 (comparison c c1)
unfolding comparison get_token_string
comparison-IsSpelled c c1 c2 = ground arith

or_else-IsSpelled :
    (c c1 c2 : ℕ) (o o' : Option (TokenKind × ℕ))
    → IsSpelled c c1 c2 o
    → IsSpelled c c1 c2 o'
    → IsSpelled c c1 c2 (or_else o o')
or_else-IsSpelled c c1 c2 none o' h h' = h'
or_else-IsSpelled c c1 c2 (some x) o' h h' = h

pub punctuation-IsSpelled : (c c1 c2 : ℕ) → IsSpelled c c1 c2 (punctuation c c1 c2)
unfolding punctuation
punctuation-IsSpelled c c1 c2 =
    or_else-IsSpelled c c1 c2 (delimiter c c1) _ (delimiter-IsSpelled c c1 c2) (
      or_else-IsSpelled c c1 c2 (arithmetic c c1) _ (arithmetic-IsSpelled c c1 c2) (
        or_else-IsSpelled c c1 c2 (dots_and_equals c c1 c2) _ (dots_and_equals-IsSpelled c c1 c2)
          (comparison-IsSpelled c c1 c2)))

pub slice-first_bytes :
    (byte : ℕ → ℕ) (cur n : ℕ)
    → n ≤ 3
    → slice byte cur n ≡ first_bytes n (byte cur) (byte (cur + 1)) (byte (cur + 2))
unfolding slice
slice-first_bytes byte cur zero h = refl
slice-first_bytes byte cur (suc zero) h = refl
slice-first_bytes byte cur (suc (suc zero)) h = refl
slice-first_bytes byte cur (suc (suc (suc zero))) h =
    let two : cur + 1 + 1 ≡ cur + 2 = omega arith in rw two
slice-first_bytes byte cur (suc (suc (suc (suc n)))) h = absurd (omega arith)
