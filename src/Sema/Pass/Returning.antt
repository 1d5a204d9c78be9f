-- ===== src/Sema/Pass/Returning.antt =====
-- The passes that return from every state.
use trsc.Common.{◌≡◌, refl, some}
use trsc.Sema.Pass.{Pass, pure, and_then, ◌>>=◌}

-- From every state the pass returns something with `P`.
pub record Returns {S A : Type 0} (P : A → Type 0) (m : Pass S A) : Type 0 where
  pub at : (s : S) → (a : A) × (s' : S) × (m s ≡ some (a, s')) × P a

abbrev pub Any : {A : Type 0} → A → Type 0
Any _ = Unit {0}

module _ {S A : Type 0} where
  pub Returns-pure : {P : A → Type 0} (a : A) → P a → Returns {S = S} P (pure a)
  Returns-pure a p = record { at = λ s. (a, s, refl, p) }

  pub Returns-run :
      (m : Pass S A) (f : S → A) (g : S → S) → ((s : S) → m s ≡ some (f s, g s)) → Returns Any m
  Returns-run m f g run = record { at = λ s. (f s, g s, run s, tt) }

  pub Returns-bind :
      {B : Type 0} {P : A → Type 0} {Q : B → Type 0} {m : Pass S A} {k : A → Pass S B}
      → Returns P m
      → ((a : A) → P a → Returns Q (k a))
      → Returns Q (m >>= k)
  unfolding ◌>>=◌ and_then
  Returns-bind h hk = record {
    at = λ s.
        let (a, t, run, p) = h.at s in
        let (b, t', run', q) = (hk a p).at t in (b, t', rw run run', q);
  }

pub any : {S A : Type 0} {P : A → Type 0} {m : Pass S A} → Returns P m → Returns Any m
any h = record { at = λ s. let (a, t, run, p) = h.at s in (a, t, run, tt) }

module _ {S A B : Type 0} where
  -- One, two or three visits, and a node that is made of what they return.
  pub one :
      {P : A → Type 0} {m : Pass S A} (f : A → B)
      → Returns P m
      → Returns Any (m >>= λ a. pure (f a))
  one f h = Returns-bind h λ a _. Returns-pure _ tt

  pub two :
      {C : Type 0} {P : A → Type 0} {Q : B → Type 0} {m : Pass S A} {n : Pass S B} (f : A → B → C)
      → Returns P m
      → Returns Q n
      → Returns Any (m >>= λ a. n >>= λ b. pure (f a b))
  two f h k = Returns-bind h λ a _. Returns-bind k λ b _. Returns-pure _ tt

pub three :
    {S A B C D : Type 0} {P : A → Type 0} {Q : B → Type 0} {R : C → Type 0} {m : Pass S A}
    {n : Pass S B} {o : Pass S C} (f : A → B → C → D)
    → Returns P m
    → Returns Q n
    → Returns R o
    → Returns Any (m >>= λ a. n >>= λ b. o >>= λ c. pure (f a b c))
three f h k l = Returns-bind h λ a _. Returns-bind k λ b _. Returns-bind l λ c _. Returns-pure _ tt
