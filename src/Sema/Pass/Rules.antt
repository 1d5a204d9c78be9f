-- ===== src/Sema/Pass/Rules.antt =====
-- What a pass keeps, and what its result is where it reports nothing.
use trsc.Common.{
  if◌then◌else◌, Option-cases, if_elim, some_pair, ℕ, ◌≤◌, ◌≡◌, sym, ap, ◌∙◌, subst, inl, inr, Bool,
  true, false, Option, none, some, arith,
}
use trsc.Sema.Pass.{Pass, pure, undefined, and_then, ◌>>=◌}

-- `Inv` holds of the state throughout, `log` counts what was reported and does not fall, and where
-- it stays the result satisfies `Q`.
module _ {S : Type 0} (log : S → ℕ) (Inv : S → Type 0) where
  pub record Yields {A : Type 0} (Q : A → Type 0) (m : Pass S A) : Type 0 where
    pub kept : (s : S) (a : A) (s' : S) → Inv s → m s ≡ some (a, s') → Inv s'
    pub logged : (s : S) (a : A) (s' : S) → Inv s → m s ≡ some (a, s') → log s ≤ log s'
    pub holds : (s : S) (a : A) (s' : S) → Inv s → m s ≡ some (a, s') → log s' ≡ log s → Q a

module _ {S A : Type 0} where
  pub result-eq :
      (a b : A) (s t : S) → ◌≡◌ {A = Option (A × S)} (some (a, s)) (some (b, t)) → (a ≡ b) × (s ≡ t)
  result-eq a b s t e = some_pair e

module _ {S : Type 0} where
  -- The two halves of a run.
  pub bind_split :
      {A B : Type 0} (m : Pass S A) (k : A → Pass S B) (s : S) (b : B) (s' : S)
      → (m >>= k) s ≡ some (b, s')
      → (a : A) × (t : S) × (m s ≡ some (a, t)) × (k a t ≡ some (b, s'))
  unfolding ◌>>=◌ and_then
  bind_split m k s b s' e = elim (Option-cases (m s)) [
    | inl n ↦ absurd (let none_eq : none ≡ some (b, s') = (rw n at e) in cc none_eq)
    | inr ((a, t), y) ↦ let rest : k a t ≡ some (b, s') = (rw y at e) in (a, t, y, rest)
  ]

module _ {S : Type 0} (log : S → ℕ) (Inv : S → Type 0) where
  pub Yields-pure : {A : Type 0} {Q : A → Type 0} (a : A) → Q a → Yields log Inv Q (pure a)
  Yields-pure {Q = Q} a q = record {
    kept = λ s b s' h e. subst Inv (result-eq a b s s' e).1 h;
    logged = λ s b s' h e. let same = (result-eq a b s s' e).1 in rw (← same) (omega arith);
    holds = λ s b s' h e quiet. subst Q (result-eq a b s s' e).0 q;
  }

  -- A pass with a result in every state.
  pub Yields-run :
      {A : Type 0} {Q : A → Type 0} (m : Pass S A) (f : S → A) (g : S → S)
      → ((s : S) → m s ≡ some (f s, g s))
      → ((s : S) → Inv s → Inv (g s) × (log s ≤ log (g s)) × (log (g s) ≡ log s → Q (f s)))
      → Yields log Inv Q m
  Yields-run {Q = Q} m f g run h = record {
    kept = λ s a s' i e. subst Inv (result-eq (f s) a (g s) s' (sym (run s) ∙ e)).1 (h s i).0;
    logged = λ s a s' i e.
        let same = (result-eq (f s) a (g s) s' (sym (run s) ∙ e)).1 in rw (← same) ((h s i).1);
    holds = λ s a s' i e quiet.
        let (same, next) = result-eq (f s) a (g s) s' (sym (run s) ∙ e) in
        subst Q same ((h s i).2 (ap log next ∙ quiet));
  }

  pub Yields-undefined :
      {A : Type 0} {Q : A → Type 0} → Yields log Inv Q (undefined {S = S} {A = A})
  Yields-undefined = record {
    kept = λ s a s' h e. absurd (cc e);
    logged = λ s a s' h e. absurd (cc e);
    holds = λ s a s' h e quiet. absurd (cc e);
  }

  -- The rest may use what the first half yields.
  pub Yields-bind :
      {A B : Type 0} {P : A → Type 0} {Q : B → Type 0} (m : Pass S A) (k : A → Pass S B)
      → Yields log Inv P m
      → ((a : A) → Yields log Inv (λ b. P a → Q b) (k a))
      → Yields log Inv Q (m >>= k)
  Yields-bind m k h hk = record {
    kept = λ s b s' i e.
        let (a, t, x, y) = bind_split m k s b s' e in (hk a).kept t b s' (h.kept s a t i x) y;
    logged = λ s b s' i e.
        let (a, t, x, y) = bind_split m k s b s' e in
        let p = h.logged s a t i x in
        let q = (hk a).logged t b s' (h.kept s a t i x) y in omega arith;
    holds = λ s b s' i e quiet.
        let (a, t, x, y) = bind_split m k s b s' e in
        let p = h.logged s a t i x in
        let q = (hk a).logged t b s' (h.kept s a t i x) y in
        (hk a).holds t b s' (h.kept s a t i x) y (omega arith) (h.holds s a t i x (omega arith));
  }

  pub Yields-weaken :
      {A : Type 0} {P Q : A → Type 0} (m : Pass S A)
      → ((a : A) → P a → Q a)
      → Yields log Inv P m
      → Yields log Inv Q m
  Yields-weaken m f h = record {
    kept = h.kept;
    logged = h.logged;
    holds = λ s a s' i e quiet. f a (h.holds s a s' i e quiet);
  }

  pub Yields-if :
      {A : Type 0} {Q : A → Type 0} (b : Bool) (m n : Pass S A)
      → (b ≡ true → Yields log Inv Q m)
      → (b ≡ false → Yields log Inv Q n)
      → Yields log Inv Q (if b then m else n)
  Yields-if b m n hm hn = if_elim (Yields log Inv _) b hm hn
