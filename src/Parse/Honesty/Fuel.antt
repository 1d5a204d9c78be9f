-- ===== src/Parse/Honesty/Fuel.antt =====
-- Steps of the parser that do not run out of fuel, and how many tokens they leave.
use trsc.Common.{
  if◌then◌else◌, Bool-cases, length, ℕ, ◌+◌, ◌-◌, ◌%◌, ◌^◌, ◌≤◌, ◌<◌, ◌≡◌, refl, sym, ◌∙◌, ◌≢◌, inl,
  inr, Bool, true, false, arith,
}
use trsc.Lex.Token.{TokenKind, is_kind, is_kind-eq, Token, endoffile}
use trsc.Basic.Diagnostics.{Message, expected_token}
use trsc.Parse.Cursor.{
  Parser, Result, Parse, pure, and_then, ◌>>=◌, peek_at, current_kind_of, is_at_end, advanced,
  current_token, current_kind, advance, report_error, report_expected_error, consume, expect_token,
  returned, out_of_fuel, undefined,
}
use trsc.Parse.Honesty.{IsParser, Follows, Steady}
use trsc.Parse.Honesty.Helpers.{
  not_at_end, current_kind-Steady, current_token-Steady, advance-Steady, consume-Steady,
}
use trsc.Parse.Honesty.Interface.{report_expected_error-Steady}

-- The tokens from the cursor on, before the end marker.
unfoldable pub remaining : Parser → ℕ
remaining p = length p.tokens - p.current_token_idx

-- What does not run out of fuel on so many tokens.
pub record Enough {A : Type 0} (d : ℕ) (m : Parse A) : Type 0 where
  pub at : (p : Parser) → IsParser p → remaining p ≤ d → m p ≢ out_of_fuel

remaining_mono : (p q : Parser) → Follows p q → remaining q ≤ remaining p
unfolding remaining
remaining_mono p q f = rw f.tokens_same (omega (arith, f.idx_mono))

and_then-fuel :
    {A B : Type 0} (r : Result A) (k : A → Parse B)
    → r ≢ out_of_fuel
    → ((a : A) (q : Parser) → r ≡ returned a q → k a q ≢ out_of_fuel)
    → and_then r k ≢ out_of_fuel
unfolding and_then
and_then-fuel (returned a q) k x y e = y a q refl e
and_then-fuel out_of_fuel k x y e = x refl
and_then-fuel undefined k x y e = cc e

pub Enough-bind :
    {A B : Type 0} (d : ℕ) (m : Parse A) (k : A → Parse B)
    → Enough d m
    → Steady m
    → ((a : A) → Enough d (k a))
    → Enough d (m >>= k)
unfolding ◌>>=◌
Enough-bind d m k x s y = record {
  at = λ p v le. and_then-fuel (m p) k (x.at p v le) (λ a q e.
      let f = s.at p a q v e in
      let less = remaining_mono p q f in (y a).at q f.valid (omega arith));
}

pub Enough-if :
    {A : Type 0} (d : ℕ) (b : Bool) (m n : Parse A)
    → Enough d m
    → Enough d n
    → Enough d (if b then m else n)
Enough-if d true m n x y = x
Enough-if d false m n x y = y

pub pure-Enough : {A : Type 0} (d : ℕ) (a : A) → Enough d (pure a)
pure-Enough d a = record { at = λ p v le e. cc e }

pub current_kind-Enough : (d : ℕ) → Enough d current_kind
unfolding current_kind
current_kind-Enough d = record { at = λ p v le e. cc e }

pub current_token-Enough : (d : ℕ) → Enough d current_token
unfolding current_token
current_token-Enough d = record { at = λ p v le e. cc e }

advance-Enough : (d : ℕ) → Enough d advance
unfolding advance
advance-Enough d = record { at = λ p v le e. cc e }

pub report_error-Enough : (d : ℕ) (m : Message) → Enough d (report_error m)
unfolding report_error
report_error-Enough d m = record { at = λ p v le e. cc e }

pub report_expected_error-Enough : (d : ℕ) (k : TokenKind) → Enough d (report_expected_error k)
unfolding report_expected_error
report_expected_error-Enough d k =
    Enough-bind d _ _ (current_kind-Enough d) current_kind-Steady
      λ a. report_error-Enough d (expected_token k a)

pub consume-Enough : (d : ℕ) (k : TokenKind) → Enough d (consume k)
unfolding consume
consume-Enough d k = Enough-bind d _ _ (current_kind-Enough d) current_kind-Steady λ a.
    Enough-bind d _ _ (current_token-Enough d) current_token-Steady λ t.
      Enough-if d (is_kind a k) _ _
        (Enough-bind d _ _ (advance-Enough d) advance-Steady λ u. pure-Enough d t)
        (Enough-bind d _ _ (report_expected_error-Enough d k) (report_expected_error-Steady k)
          λ u. pure-Enough d t)

pub expect_token-Enough : (d : ℕ) (k : TokenKind) → Enough d (expect_token k)
unfolding expect_token
expect_token-Enough d k = Enough-bind d _ _ (current_kind-Enough d) current_kind-Steady λ a.
    Enough-if d (is_kind a k) _ _
      (Enough-bind d _ _ (consume-Enough d k) (consume-Steady k) λ t. pure-Enough d true)
      (Enough-bind d _ _ (report_expected_error-Enough d k) (report_expected_error-Steady k)
        λ u. pure-Enough d false)

consume_here :
    (p : Parser) (k : TokenKind)
    → is_kind (current_kind_of p) k ≡ true
    → consume k p ≡ returned (peek_at p 0) (advanced p)
unfolding consume advance current_kind current_token ◌>>=◌ and_then
consume_here p k h = rw h refl

-- A token before the end marker leaves fewer of them.
remaining-advanced :
    (p : Parser) (k : TokenKind)
    → IsParser p
    → is_kind (current_kind_of p) k ≡ true
    → k ≢ endoffile
    → remaining (advanced p) < remaining p
unfolding remaining advanced is_at_end
remaining-advanced p k v h ne = elim (Bool-cases (is_at_end p)) [
  | inl end ↦
      absurd (
        ne
          (sym (is_kind-eq (current_kind_of p) k h) ∙ is_kind-eq (current_kind_of p) endoffile end))
  | inr on ↦
      let lt = not_at_end p v on in
      let fits = v.fits in
      let next : (p.current_token_idx + 1) % 2 ^ 32 ≡ p.current_token_idx + 1 = omega arith in
      rw (on, advanced, next) (omega arith)
]

pub Enough-consume :
    {A : Type 0} (d : ℕ) (k : TokenKind) (f : Token → Parse A) (p : Parser)
    → k ≢ endoffile
    → ((d' : ℕ) → d' < d → (t : Token) → Enough d' (f t))
    → IsParser p
    → remaining p ≤ d
    → is_kind (current_kind_of p) k ≡ true
    → (consume k >>= f) p ≢ out_of_fuel
unfolding ◌>>=◌ and_then
Enough-consume d k f p ne h v le e =
    let moved = consume_here p k e in
    let valid = ((consume-Steady k).at p (peek_at p 0) (advanced p) v moved).valid in
    let less = remaining-advanced p k v e ne in
    rw moved
      ((h (remaining (advanced p)) (omega arith) (peek_at p 0)).at (advanced p) valid (omega arith))
