-- ===== src/Parse/Honesty.antt =====
-- What every method keeps: the tokens, a cursor that stays within them and moves forward only, and
-- the reports made so far; and that a null result has an error reported for it.
pub mod Helpers
pub mod Interface
pub mod Types
pub mod Methods
pub mod Fuel
pub mod TypeFuel
pub mod Primary
pub mod Statements
pub mod Expressions
use trsc.Common.{
  if◌then◌else◌, Bool-cases, length, get_elem?, ℕ, ◌^◌, ◌≤◌, ◌<◌, ◌≡◌, refl, ◌∙◌, subst, ◌≢◌, inl,
  inr, Bool, true, false, not, none, some, arith,
}
use trsc.Lex.Token.{Token, endoffile, lt_string}
use trsc.Parse.Cursor.{
  Parser, Result, Parse, pure, and_then, ◌>>=◌, returned, out_of_fuel, undefined,
}
use trsc.Parse.Literals.{decode_string_literal}

-- The tokens that the lexer makes of a text in which every string literal is terminated.
pub record IsParser (p : Parser) : Type 0 where
  pub back_kind : p.back.kind ≡ endoffile
  pub idx_le : p.current_token_idx ≤ length p.tokens
  pub fits : length p.tokens < 2 ^ 32
  pub strings :
      (i : ℕ) (t : Token)
      → get_elem? p.tokens i ≡ some t
      → t.kind ≡ lt_string
      → decode_string_literal t.text ≢ none

-- How many diagnostics were reported.
abbrev pub reports : Parser → ℕ
reports p = length p.diag.log

pub record Follows (p p' : Parser) : Type 0 where
  pub valid : IsParser p'
  pub tokens_same : p'.tokens ≡ p.tokens
  pub back_same : p'.back ≡ p.back
  pub idx_mono : p.current_token_idx ≤ p'.current_token_idx
  pub reports_mono : reports p ≤ reports p'

pub Follows-refl : (p : Parser) → IsParser p → Follows p p
Follows-refl p v = record {
  valid = v;
  tokens_same = refl;
  back_same = refl;
  idx_mono = omega arith;
  reports_mono = omega arith;
}

pub Follows-trans : (p q r : Parser) → Follows p q → Follows q r → Follows p r
Follows-trans p q r a b = record {
  valid = b.valid;
  tokens_same = b.tokens_same ∙ a.tokens_same;
  back_same = b.back_same ∙ a.back_same;
  idx_mono = omega (arith, a.idx_mono, b.idx_mono);
  reports_mono = omega (arith, a.reports_mono, b.reports_mono);
}

module _ {A : Type 0} where
  pub record Steady (m : Parse A) : Type 0 where
    pub at : (p : Parser) (a : A) (p' : Parser) → IsParser p → m p ≡ returned a p' → Follows p p'

  -- `null` says which results stand for a failure.
  pub record Honest (null : A → Bool) (m : Parse A) : Type 0 where
    pub steady : Steady m
    pub reported :
        (p : Parser) (a : A) (p' : Parser)
        → IsParser p
        → m p ≡ returned a p'
        → null a ≡ true
        → reports p < reports p'

  returned-fst : (a b : A) (p q : Parser) → ◌≡◌ {A = Result A} (returned a p) (returned b q) → a ≡ b
  returned-fst a b p q e = cc e

  pub returned-snd :
      (a b : A) (p q : Parser) → ◌≡◌ {A = Result A} (returned a p) (returned b q) → p ≡ q
  returned-snd a b p q e = cc e

  pub pure-Steady : (a : A) → Steady (pure a)
  pure-Steady a = record {
    at = λ p b p' v e. subst (Follows p) (returned-snd a b p p' e) (Follows-refl p v);
  }

  pub pure-Honest : (null : A → Bool) (a : A) → null a ≡ false → Honest null (pure a)
  pure-Honest null a h = record {
    steady = pure-Steady a;
    reported = λ p b p' v e n. cc (returned-fst a b p p' e, h, n);
  }

  pub undefined-Honest : (null : A → Bool) → Honest null (λ p. undefined)
  undefined-Honest null = record {
    steady = record { at = λ p b p' v e. cc e };
    reported = λ p b p' v e n. cc e;
  }

  pub out_of_fuel-Honest : (null : A → Bool) → Honest null (λ p. out_of_fuel)
  out_of_fuel-Honest null = record {
    steady = record { at = λ p b p' v e. cc e };
    reported = λ p b p' v e n. cc e;
  }

  pub Steady-if : (b : Bool) (m n : Parse A) → Steady m → Steady n → Steady (if b then m else n)
  Steady-if true m n x y = x
  Steady-if false m n x y = y

  pub Honest-if :
      (null : A → Bool) (b : Bool) (m n : Parse A)
      → Honest null m
      → Honest null n
      → Honest null (if b then m else n)
  Honest-if null true m n x y = x
  Honest-if null false m n x y = y

module _ {A B : Type 0} where
  pub and_then_inv :
      (r : Result A) (k : A → Parse B) (b : B) (p' : Parser)
      → and_then r k ≡ returned b p'
      → (a : A) × (q : Parser) × (r ≡ returned a q) × (k a q ≡ returned b p')
  unfolding and_then
  and_then_inv (returned a q) k b p' e = (a, q, refl, e)
  and_then_inv out_of_fuel k b p' e = cc e
  and_then_inv undefined k b p' e = cc e

  pub Steady-bind :
      (m : Parse A) (k : A → Parse B) → Steady m → ((a : A) → Steady (k a)) → Steady (m >>= k)
  unfolding ◌>>=◌
  Steady-bind m k x y = record {
    at = λ p b p' v e.
        let (a, q, e1, e2) = and_then_inv (m p) k b p' e in
        let f = x.at p a q v e1 in Follows-trans p q p' f ((y a).at q b p' f.valid e2);
  }

  -- A step that fails may be followed by anything, since it has reported an error.
  pub Honest-try :
      (f : A → Bool) (null : B → Bool) (m : Parse A) (k : A → Parse B)
      → Honest f m
      → ((a : A) → f a ≡ true → Steady (k a))
      → ((a : A) → f a ≡ false → Honest null (k a))
      → Honest null (m >>= k)
  unfolding ◌>>=◌
  Honest-try f null m k x y z =
      let each : (a : A) → Steady (k a) =
        λ a. elim (Bool-cases (f a)) [ inl t ↦ y a t | inr t ↦ (z a t).steady ] in
      record {
        steady = Steady-bind m k x.steady each;
        reported = λ p b p' v e n.
            let (a, q, e1, e2) = and_then_inv (m p) k b p' e in
            let fol = x.steady.at p a q v e1 in
            let fol' = (each a).at q b p' fol.valid e2 in
            elim (Bool-cases (f a)) [
              | inl t ↦ omega (arith, x.reported p a q v e1 t, fol'.reports_mono)
              | inr t ↦ omega (arith, fol.reports_mono, (z a t).reported q b p' fol.valid e2 n)
            ];
      }

  pub Honest-bind :
      (null : B → Bool) (m : Parse A) (k : A → Parse B)
      → Steady m
      → ((a : A) → Honest null (k a))
      → Honest null (m >>= k)
  Honest-bind null m k x y =
      Honest-try (λ a. false) null m k (record { steady = x; reported = λ p a p' v e n. cc n })
        (λ a t. (y a).steady) (λ a t. y a)

  -- `if (!E) return nullptr;`
  pub Honest-unless :
      (f : A → Bool) (null : B → Bool) (m : Parse A) (z : B) (k : A → Parse B)
      → Honest f m
      → ((a : A) → f a ≡ false → Honest null (k a))
      → Honest null (m >>= λ a. if f a then pure z else k a)
  Honest-unless f null m z k x y =
      Honest-try f null m (λ a. if f a then pure z else k a) x (λ a t. rw t (pure-Steady z))
        (λ a t. rw t (y a t))

module _ {A : Type 0} where
  expected-Steady :
      (b : Bool) (n : Parse A) (z : A) → not b ≡ true → Steady (if b then n else pure z)
  expected-Steady true n z t = cc t
  expected-Steady false n z t = pure-Steady z

  expected-Honest :
      (null : A → Bool) (b : Bool) (n : Parse A) (z : A)
      → Honest null n
      → not b ≡ false
      → Honest null (if b then n else pure z)
  expected-Honest null true n z y t = y
  expected-Honest null false n z y t = cc t

  -- `if (!expectToken(..)) return nullptr;`
  pub Honest-expect :
      (null : A → Bool) (m : Parse Bool) (n : Parse A) (z : A)
      → Honest not m
      → Honest null n
      → Honest null (m >>= λ b. if b then n else pure z)
  Honest-expect null m n z x y =
      Honest-try not null m (λ b. if b then n else pure z) x (λ b t. expected-Steady b n z t)
        (λ b t. expected-Honest null b n z y t)
