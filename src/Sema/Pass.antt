-- ===== src/Sema/Pass.antt =====
-- lib/Sema: what the passes over the tree share. A pass that follows a null pointer, or takes a node
-- for one of another class, has no result.

pub mod Rules
pub mod Returning
use trsc.Common.{Option, none, some}

abbrev pub Pass : Type 0 → Type 0 → Type 0
Pass S A = S → Option (A × S)

module _ {S : Type 0} where
  abbrev pub pure : {A : Type 0} → A → Pass S A
  pure a s = some (a, s)

  abbrev pub undefined : {A : Type 0} → Pass S A
  undefined s = none

  module _ {A B : Type 0} where
    unfoldable pub and_then : Option (A × S) → (A → Pass S B) → Option (B × S)
    and_then (some (a, s)) k = k a s
    and_then none k = none

    infixl 5 ◌>>=◌ ◌>>◌
    unfoldable pub ◌>>=◌ : Pass S A → (A → Pass S B) → Pass S B
    unfolding and_then
    ◌>>=◌ m k = λ s. and_then (m s) k

    abbrev pub ◌>>◌ : Pass S A → Pass S B → Pass S B
    m >> n = m >>= λ _. n
