-- ===== src/Sema/NameResolver/Scoped.antt =====
-- What the steps of the passes make and report over the stack of frames.
use trsc.Common.{
  Bool-cases, Option-cases, Bytes, codes, bytes_eq, ℕ, ◌≡◌, refl, inl, inr, Bool, Option, none,
  some, List, [], ◌∷◌, ◌++◌,
}
use trsc.Lex.Token.{IdentifierInfo}
use trsc.Types.QualType.{QualType}
use trsc.Ast.{Expr, Param, expr, var_node}
use trsc.Basic.Diagnostics.{Message, DiagnosticsEngine, report, error}
use trsc.Sema.Scope.{SymbolKind, ScopeKind, linear_find}
use trsc.Sema.SymbolTable.Steps.{Stack, leave, declare, stack_step}
use trsc.Sema.SymbolTable.Frames.{lookup_frames}
use trsc.Sema.Pass.{Pass, pure, and_then, ◌>>=◌}
use trsc.Sema.NameResolver.{
  Resolver, report_error, open_scope, close_scope, add_name, look_up, scoped, link, declare_var,
  resolve, declare_params, check_macro_name,
}
use trsc.Sema.NameResolver.Lexical.{lexical}
use trsc.Sema.NameResolver.Named.{IsVar, NamedParams}
use trsc.Sema.NameResolver.Binding.{
  in_scope, linked_use, undeclared, use_messages, made_symbol, linked_name, redeclared,
  name_messages, behind_name, opened, closed, macro_messages,
}
use trsc.Sema.NameResolver.Scoping.{behind_params, linked_params, params_messages}

unfoldable pub reported : DiagnosticsEngine → List Message → DiagnosticsEngine
unfolding report
reported d [] = d
reported d (m ∷ ms) = reported (report d error m) ms

reported-append :
    (d : DiagnosticsEngine) (ms ns : List Message)
    → reported d (ms ++ ns) ≡ reported (reported d ms) ns
unfolding reported
reported-append d [] ns = refl
reported-append d (m ∷ ms) ns = reported-append (report d error m) ms ns

abbrev pub state : Stack → DiagnosticsEngine → Resolver Stack
state s d = record { table = s; diag = d }

-- From a stack the pass returns a result and another stack, and reports the messages.
pub record Makes {A : Type 0} (s : Stack) (m : Pass (Resolver Stack) A) (a : A) (s' : Stack)
    (ms : List Message) : Type 0 where
  pub at : (d : DiagnosticsEngine) → m (state s d) ≡ some (a, state s' (reported d ms))

pub Makes-pure : {A : Type 0} (s : Stack) (a : A) → Makes s (pure a) a s []
unfolding reported
Makes-pure s a = record { at = λ d. refl }

module _ {A B : Type 0} where
  pub Makes-bind :
      {s t u : Stack} {m : Pass (Resolver Stack) A} {a : A} {b : B} {ms ns : List Message}
      (k : A → Pass (Resolver Stack) B)
      → Makes s m a t ms
      → Makes t (k a) b u ns
      → Makes s (m >>= k) b u (ms ++ ns)
  unfolding ◌>>=◌ and_then
  Makes-bind {ms = ms} {ns} k h h' = record {
    at = λ d. rw (h.at d, reported-append d ms ns) (h'.at (reported d ms));
  }

  -- One visit, and a node that is made of what it returns.
  pub one :
      {s t : Stack} {m : Pass (Resolver Stack) A} {a : A} {ms : List Message} (f : A → B)
      → Makes s m a t ms
      → Makes s (m >>= λ x. pure (f x)) (f a) t ms
  unfolding ◌>>=◌ and_then
  one f h = record { at = λ d. rw (h.at d) refl }

pub two :
    {A B C : Type 0} {s t u : Stack} {m : Pass (Resolver Stack) A} {n : Pass (Resolver Stack) B}
    {a : A} {b : B} {ms ns : List Message} (f : A → B → C)
    → Makes s m a t ms
    → Makes t n b u ns
    → Makes s (m >>= λ x. n >>= λ y. pure (f x y)) (f a b) u (ms ++ ns)
two f h k = Makes-bind _ h (one _ k)

pub three :
    {A B C D : Type 0} {s t u v : Stack} {m : Pass (Resolver Stack) A} {n : Pass (Resolver Stack) B}
    {o : Pass (Resolver Stack) C} {a : A} {b : B} {c : C} {ms ns os : List Message}
    (f : A → B → C → D)
    → Makes s m a t ms
    → Makes t n b u ns
    → Makes u o c v os
    → Makes s (m >>= λ x. n >>= λ y. o >>= λ z. pure (f x y z)) (f a b c) v (ms ++ (ns ++ os))
three f h k l = Makes-bind _ h (two _ k l)

-- A use, a declaration and a macro.
pub resolve-Makes :
    (s : Stack) (m : Message) (e : Expr)
    → IsVar e
    → Makes s (resolve lexical m e) (linked_use s e) s (use_messages s m e)
unfolding resolve look_up lexical link report_error ◌>>=◌ and_then IsVar linked_use use_messages
    undeclared in_scope reported
resolve-Makes s m (expr t (var_node (some id) old)) h = record {
  at = λ d. elim (Option-cases (lookup_frames (s.top ∷ s.below) id.addr)) [
    | inl e ↦ rw e refl
    | inr (a, e) ↦ rw e refl
  ];
}
resolve-Makes s m _ h = absurd h

link-Makes :
    (s : Stack) (next : ℕ) (t : QualType) (id : IdentifierInfo) (old : Option ℕ) (m : Message)
    (found : Option ℕ)
    → Makes s
        (link lexical t (some id) old m (elim found [ some _ ↦ none | none ↦ some next ]))
        (expr t (var_node (some id) (made_symbol next old found)))
        s
        (redeclared m found)
unfolding link report_error made_symbol redeclared reported ◌>>=◌ and_then
link-Makes s next t id old m (some a) = record { at = λ d. refl }
link-Makes s next t id old m none = record { at = λ d. refl }

pub declare_var-Makes :
    (s : Stack) (k : SymbolKind) (i : Bool) (m : Message) (e : Expr)
    → IsVar e
    → Makes s
        (declare_var lexical k i m e)
        (linked_name s e)
        (behind_name s e)
        (name_messages s m e)
unfolding declare_var add_name lexical stack_step ◌>>=◌ and_then IsVar linked_name behind_name
    name_messages
declare_var-Makes s k i m (expr t (var_node (some id) old)) h =
    let found = linear_find s.top id.addr in
    let linked = link-Makes (declare s found id.addr) s.symbols t id old m found in
    record { at = λ d. linked.at d }
declare_var-Makes s k i m _ h = absurd h

pub check_macro_name-Makes :
    (s : Stack) (name : Bytes) → Makes s (check_macro_name lexical name) tt s (macro_messages name)
unfolding check_macro_name macro_messages report_error reported
check_macro_name-Makes s name = record {
  at = λ d. elim (Bool-cases (bytes_eq name (codes "println"))) [
    | inl e ↦ rw e refl
    | inr e ↦ rw e refl
  ];
}

pub declare_params-Makes :
    (s : Stack) (ps : List Param)
    → NamedParams ps
    → Makes s
        (declare_params lexical ps)
        (linked_params s ps)
        (behind_params s ps)
        (params_messages s ps)
unfolding declare_params NamedParams linked_params behind_params params_messages
declare_params-Makes s [] h = Makes-pure s []
declare_params-Makes s ((name, t) ∷ ps) (h, hs) =
    two _ (declare_var-Makes s _ _ _ name h) (declare_params-Makes (behind_name s name) ps hs)

-- Under a `ScopedRAII` the pass runs in a new frame, which is left behind it.
pub scoped-Makes :
    {A : Type 0} (s : Stack) (k : ScopeKind) {m : Pass (Resolver Stack) A} {a : A} (t : Stack)
    {ms : List Message}
    → t.below ≡ s.top ∷ s.below
    → Makes (opened s) m a t ms
    → Makes s (scoped lexical k m) a (closed s t) ms
unfolding scoped open_scope close_scope lexical stack_step leave opened closed ◌>>=◌ and_then
scoped-Makes s k t outer h = record { at = λ d. rw (h.at d) (rw outer refl) }
