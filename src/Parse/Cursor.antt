-- ===== src/Parse/Cursor.antt =====
-- lib/Parse/Parser.cpp: the parser's state and its helpers on tokens, and the results of its methods.
use trsc.Common.{if◌then◌else◌, get_or, ℕ, ◌+◌, ◌%◌, ◌^◌, Bool, true, false, List, [], ◌∷◌}
use trsc.Lex.Token.{TokenKind, is_kind, Token, endoffile}
use trsc.Basic.Diagnostics.{Message, DiagnosticsEngine, report, error, expected_token}

-- `Tokens` is `tokens` with `back` after them: it is not empty, since the lexer ends it with ENDOFFILE.
pub record Parser : Type 0 where
  pub tokens : List Token
  pub back : Token
  pub current_token_idx : ℕ
  pub diag : DiagnosticsEngine

-- `undefined` stands for a null pointer that is followed and for a `bool` that is read before it is set.
pub data Result (A : Type 0) : Type 0 where
  returned : A → Parser → Result A
  out_of_fuel : Result A
  undefined : Result A

abbrev pub Parse : Type 0 → Type 0
Parse A = Parser → Result A

abbrev pub pure : {A : Type 0} → A → Parse A
pure = returned

module _ {A B : Type 0} where
  unfoldable pub and_then : Result A → (A → Parse B) → Result B
  and_then (returned a p) k = k a p
  and_then out_of_fuel k = out_of_fuel
  and_then undefined k = undefined

  infixl 5 ◌>>=◌ ◌>>◌
  unfoldable pub ◌>>=◌ : Parse A → (A → Parse B) → Parse B
  unfolding and_then
  ◌>>=◌ m k = λ p. and_then (m p) k

  abbrev pub ◌>>◌ : Parse A → Parse B → Parse B
  m >> n = m >>= λ _. n

-- `peek(Offset)`; the sum is `unsigned`.
unfoldable pub peek_at : Parser → ℕ → Token
peek_at p offset = get_or p.tokens ((p.current_token_idx + offset) % 2 ^ 32) p.back

unfoldable pub current_kind_of : Parser → TokenKind
unfolding peek_at
current_kind_of p = (peek_at p 0).kind

unfoldable pub is_at_end : Parser → Bool
unfolding current_kind_of
is_at_end p = is_kind (current_kind_of p) endoffile

unfoldable pub advanced : Parser → Parser
unfolding is_at_end
advanced p =
    if is_at_end p then p else record p { current_token_idx = (p.current_token_idx + 1) % 2 ^ 32 }

unfoldable pub current_token : Parse Token
unfolding peek_at
current_token p = returned (peek_at p 0) p

unfoldable pub current_kind : Parse TokenKind
unfolding current_kind_of
current_kind p = returned (current_kind_of p) p

unfoldable pub at_end : Parse Bool
unfolding is_at_end
at_end p = returned (is_at_end p) p

unfoldable pub advance : Parse (Unit {0})
unfolding advanced
advance p = returned tt (advanced p)

unfoldable pub report_error : Message → Parse (Unit {0})
report_error m p = returned tt (record p { diag = report p.diag error m })

unfoldable pub report_expected_error : TokenKind → Parse (Unit {0})
unfolding report_error ◌>>=◌
report_expected_error expected = do
  actual ← current_kind
  report_error (expected_token expected actual)

-- The token that `consume` returns, whether or not it is the one that is expected.
unfoldable pub consume : TokenKind → Parse Token
unfolding current_kind advance report_expected_error current_token ◌>>=◌
consume expected = do
  k ← current_kind
  consumed ← current_token
  if is_kind k expected
      then (do advance; pure consumed)
      else (do report_expected_error expected; pure consumed)

unfoldable pub expect_token : TokenKind → Parse Bool
unfolding current_kind consume report_expected_error ◌>>=◌
expect_token k = do
  actual ← current_kind
  if is_kind actual k then (do consume k; pure true) else (do report_expected_error k; pure false)

-- `match`, of the kinds in turn.
unfoldable pub match_kinds : List TokenKind → Parse Bool
unfolding current_kind advance ◌>>=◌
match_kinds [] = pure false
match_kinds (k ∷ ks) = do
  actual ← current_kind
  if is_kind actual k then (do advance; pure true) else match_kinds ks
