-- ===== src/Parse/Honesty/Helpers.antt =====
-- The helpers on tokens keep what every method keeps.
use trsc.Common.{
  Bool-cases, length, get_elem?, get_or, Bytes, ℕ, zero, suc, ◌+◌, ◌%◌, ◌^◌, ◌≤◌, ◌<◌, ◌≡◌, refl,
  sym, ap, ◌∙◌, subst, ◌≢◌, inl, inr, Bool, true, false, not, Option, none, some, List, [], ◌∷◌,
  dec_lt, arith,
}
use trsc.Lex.Token.{TokenKind, is_kind, is_kind-eq, is_kind_refl, Token, endoffile, lt_string}
use trsc.Basic.Diagnostics.{Message, DiagnosticsEngine, report, error, expected_token}
use trsc.Parse.Literals.{decode_string_literal}
use trsc.Parse.Cursor.{
  Parser, Result, Parse, pure, and_then, ◌>>=◌, ◌>>◌, peek_at, current_kind_of, is_at_end, advanced,
  current_token, current_kind, at_end, advance, report_error, report_expected_error, consume,
  expect_token, returned,
}
use trsc.Parse.Honesty.{
  IsParser, reports, Follows, Follows-refl, Steady, Honest, returned-snd, pure-Steady, pure-Honest,
  Steady-if, Honest-if, Steady-bind, Honest-try, Honest-bind,
}

get_or_beyond : (xs : List Token) (i : ℕ) (d : Token) → length xs ≤ i → get_or xs i d ≡ d
get_or_beyond [] i d h = refl
get_or_beyond (x ∷ xs) zero d h = absurd (omega arith)
get_or_beyond (x ∷ xs) (suc i) d h = get_or_beyond xs i d (omega arith)

get_or_kind :
    (xs : List Token) (i : ℕ) (d : Token) (k : TokenKind)
    → (get_or xs i d).kind ≡ k
    → d.kind ≢ k
    → get_elem? xs i ≡ some (get_or xs i d)
get_or_kind [] i d k e h = absurd (h e)
get_or_kind (x ∷ xs) zero d k e h = refl
get_or_kind (x ∷ xs) (suc i) d k e h = get_or_kind xs i d k e h

-- The current token, with no wrap-around.
current_token_at :
    (p : Parser) → IsParser p → peek_at p 0 ≡ get_or p.tokens p.current_token_idx p.back
unfolding peek_at
current_token_at p v =
    let small : (p.current_token_idx + 0) % 2 ^ 32 ≡ p.current_token_idx =
      omega (arith, v.idx_le, v.fits) in
    ap (λ i. get_or p.tokens i p.back) small

-- Before the end marker there is a token.
pub not_at_end :
    (p : Parser) → IsParser p → is_at_end p ≡ false → p.current_token_idx < length p.tokens
unfolding is_at_end current_kind_of
not_at_end p v h = elim (dec_lt p.current_token_idx (length p.tokens)) [
  | yes lt ↦ lt
  | no ge ↦
      let at =
        current_token_at p v ∙ get_or_beyond p.tokens p.current_token_idx p.back (omega arith) in
      cc (is_kind_refl endoffile, at, v.back_kind, h)
]

module _ {A : Type 0} where
  plain-Steady :
      (f : Parser → A) (g : Parser → Parser)
      → ((p : Parser) → IsParser p → Follows p (g p))
      → Steady (λ p. returned (f p) (g p))
  plain-Steady f g h = record {
    at = λ p a p' v e. subst (Follows p) (returned-snd (f p) a (g p) p' e) (h p v);
  }

pub current_kind-Steady : Steady current_kind
unfolding current_kind
current_kind-Steady = plain-Steady current_kind_of (λ p. p) Follows-refl

pub current_token-Steady : Steady current_token
unfolding current_token
current_token-Steady = plain-Steady (λ p. peek_at p 0) (λ p. p) Follows-refl

pub at_end-Steady : Steady at_end
unfolding at_end
at_end-Steady = plain-Steady is_at_end (λ p. p) Follows-refl

-- The cursor moves by one, unless it is at the end marker.
advanced-Follows : (p : Parser) → IsParser p → Follows p (advanced p)
unfolding advanced
advanced-Follows p v = elim (Bool-cases (is_at_end p)) [
  | inl e ↦ rw (e, advanced) (Follows-refl p v)
  | inr e ↦
      let lt = not_at_end p v e in
      let fits = v.fits in
      let next : (p.current_token_idx + 1) % 2 ^ 32 ≡ p.current_token_idx + 1 = omega arith in
      rw (e, advanced, next)
        (record {
          valid = record {
            back_kind = v.back_kind;
            idx_le = omega arith;
            fits = v.fits;
            strings = v.strings;
          };
          tokens_same = refl;
          back_same = refl;
          idx_mono = omega arith;
          reports_mono = omega arith;
        })
]

pub advance-Steady : Steady advance
unfolding advance
advance-Steady = plain-Steady (λ p. tt) advanced advanced-Follows

reported_once :
    (d : DiagnosticsEngine) (m : Message) → length (report d error m).log ≡ length d.log + 1
unfolding report
reported_once d m = omega arith

error-Follows :
    (p : Parser) (m : Message) → IsParser p → Follows p (record p { diag = report p.diag error m })
error-Follows p m v = record {
  valid = record { back_kind = v.back_kind; idx_le = v.idx_le; fits = v.fits; strings = v.strings };
  tokens_same = refl;
  back_same = refl;
  idx_mono = omega arith;
  reports_mono = omega (arith, reported_once p.diag m);
}

-- `report_error` fails, whatever follows.
pub report_error-Honest : (m : Message) → Honest (λ a. true) (report_error m)
unfolding report_error
report_error-Honest m = record {
  steady =
      plain-Steady (λ p. tt) (λ p. record p { diag = report p.diag error m })
        (λ p v. error-Follows p m v);
  reported = λ p a p' v e n.
      let same = returned-snd tt a (record p { diag = report p.diag error m }) p' e in
      subst (λ q. reports p < reports q) same (omega (arith, reported_once p.diag m));
}

pub report_expected_error-Honest : (k : TokenKind) → Honest (λ a. true) (report_expected_error k)
unfolding report_expected_error
report_expected_error-Honest k =
    Honest-bind (λ a. true) current_kind (λ actual. report_error (expected_token k actual))
      current_kind-Steady (λ actual. report_error-Honest (expected_token k actual))

module _ {A : Type 0} where
  -- A result after a report is honest.
  pub Honest-report :
      (null : A → Bool) (m : Parse (Unit {0})) (z : A)
      → Honest (λ a. true) m
      → Honest null (m >> pure z)
  Honest-report null m z h =
      Honest-try (λ a. true) null m (λ a. pure z) h (λ a t. pure-Steady z) (λ a t. cc t)

pub consume-Steady : (k : TokenKind) → Steady (consume k)
unfolding consume
consume-Steady k = Steady-bind current_kind _ current_kind-Steady (λ actual.
    Steady-bind current_token _ current_token-Steady (λ t.
      Steady-if (is_kind actual k) _ _ (Steady-bind advance _ advance-Steady (λ u. pure-Steady t)) (
        Steady-bind (report_expected_error k) _ (report_expected_error-Honest k).steady
          (λ u. pure-Steady t))))

pub expect_token-Honest : (k : TokenKind) → Honest not (expect_token k)
unfolding expect_token
expect_token-Honest k = Honest-bind not current_kind _ current_kind-Steady (λ actual.
    Honest-if not (is_kind actual k) _ _
      (Honest-bind not (consume k) _ (consume-Steady k) (λ t. pure-Honest not true refl))
      (Honest-report not (report_expected_error k) false (report_expected_error-Honest k)))

-- A result that is no literal.
unfoldable pub is_none_text : Option Bytes → Bool
is_none_text none = true
is_none_text (some _) = false

is_none_text_iff : (o : Option Bytes) → is_none_text o ≡ true → o ≡ none
unfolding is_none_text
is_none_text_iff none h = refl
is_none_text_iff (some x) h = cc h

abbrev pub undecoded : Token → Bool
undecoded t = is_none_text (decode_string_literal t.text)

-- The two ways in which `consume` goes.
consume_found :
    (p : Parser) (k : TokenKind) (t : Token) (p' : Parser)
    → is_kind (current_kind_of p) k ≡ true
    → consume k p ≡ returned t p'
    → t ≡ peek_at p 0
unfolding consume advance current_kind current_token ◌>>=◌ and_then
consume_found p k t p' h e =
    let e' : ◌≡◌ {A = Result Token} (returned (peek_at p 0) (advanced p)) (returned t p') =
      (rw h at e) in
    cc e'

consume_missed :
    (p : Parser) (k : TokenKind)
    → is_kind (current_kind_of p) k ≡ false
    → consume k p ≡ (report_expected_error k >> pure (peek_at p 0)) p
unfolding consume advance current_kind current_token ◌>>=◌ and_then
consume_missed p k h = rw h refl

-- A string token is decoded, or there was none and that is reported.
pub consume_string-Honest : Honest undecoded (consume lt_string)
unfolding current_kind_of
consume_string-Honest = record {
  steady = consume-Steady lt_string;
  reported = λ p a p' v e n. elim (Bool-cases (is_kind (current_kind_of p) lt_string)) [
    | inl found ↦
        let at = consume_found p lt_string a p' found e in
        let kind = is_kind-eq (current_kind_of p) lt_string found in
        let here = current_token_at p v in
        let marker : p.back.kind ≢ lt_string = λ x. cc (v.back_kind, x) in
        let there =
          get_or_kind p.tokens p.current_token_idx p.back lt_string
            (ap (λ t. t.kind) (sym here) ∙ kind) marker in
        absurd (
          v.strings p.current_token_idx a (there ∙ ap some (sym here ∙ sym at))
            (ap (λ t. t.kind) at ∙ kind) (is_none_text_iff (decode_string_literal a.text) n))
    | inr missed ↦
        (Honest-report (λ t. true) (report_expected_error lt_string) (peek_at p 0)
            (report_expected_error-Honest lt_string)).reported
          p a p' v (sym (consume_missed p lt_string missed) ∙ e) refl
  ];
}
