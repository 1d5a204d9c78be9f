-- ===== src/Sema/TypeChecker/Steps.antt =====
-- What the helpers of the type checker yield where they report nothing; an expression leaves the symbols as they are.
use trsc.Common.{
  Bool-cases, and_split, or_split, length, get_elem?, ℕ, ◌≡◌, refl, subst, inl, inr, true, false,
  ◌||◌, Option, none, some, List, arith,
}
use trsc.Lex.Token.{
  TokenKind, IdentifierInfo, op_plus, op_minus, op_star, op_slash, op_equal, op_equalequal,
  op_bangequal, op_less, op_lessequal, op_greater, op_greaterequal, op_plusequal, op_minusequal,
  op_ampamp, op_pipepipe,
}
use trsc.Types.QualType.{QualType, is_null, type_eq, bool, builtin}
use trsc.Types.QualTypeEq.{type_eq_iff}
use trsc.Types.Conversion.{are_types_compatible, can_implicitly_convert, can_convert_iff}
use trsc.Ast.{
  TypeNode, Expr, get_type, is_null_expr, null_type, type_name, pointer_type_name,
  reference_type_name, array_type_name, null_expr, expr, var_node,
}
use trsc.Basic.Diagnostics.{Message, report, error}
use trsc.Sema.Scope.{Symbol}
use trsc.Sema.Pass.{pure, ◌>>=◌}
use trsc.Sema.Pass.Rules.{Yields, Yields-pure, Yields-run, Yields-undefined, Yields-bind, Yields-if}
use trsc.Sema.TypeChecker.{
  TypeChecker, Check, report_error, get_expected_type, set_expected_type, with_expected,
  symbol_or_undefined, symbol_at, get_symbol, get_name, type_of, resolve_type,
}
use trsc.Sema.TypeChecker.Operators.{
  arithmetic_type, comparison_type, logical_type, assigned_type, binary_type,
}
use trsc.Sema.TypeChecker.Typing.{HasType}
use trsc.Sema.TypeChecker.OperatorRules.{
  is_arithmetic, is_comparison, is_logical, Operator, assignment, arithmetic, comparison, logical,
}

abbrev pub logged : TypeChecker → ℕ
logged c = length c.diag.log

abbrev pub Keeps : List Symbol → TypeChecker → Type 0
Keeps symbols c = c.symbols ≡ symbols

abbrev pub Good : {A : Type 0} → List Symbol → (A → Type 0) → Check A → Type 0
Good symbols Q m = Yields logged (Keeps symbols) Q m

compatible-eq : (l r : QualType) → are_types_compatible l r ≡ true → l ≡ r
unfolding are_types_compatible
compatible-eq l r h = elim (Bool-cases (is_null l || is_null r)) [
  | inl n ↦ absurd (let no : false ≡ true = (rw (n, are_types_compatible) at h) in cc no)
  | inr n ↦
      (type_eq_iff l r).0
        (let same : type_eq l r ≡ true = (rw (n, are_types_compatible) at h) in same)
]

module _ (symbols : List Symbol) where
  pub report_error-Good : (m : Message) → Good symbols (λ u. ⊥) (report_error m)
  unfolding report_error report
  report_error-Good m =
      Yields-run logged (Keeps symbols) _ (λ c. tt) (λ c. record c { diag = report c.diag error m })
        (λ c. refl) λ c i. (i, omega arith, λ q. absurd (omega (arith, q)))

  -- A report, and then any result.
  pub reported-Good :
      {A : Type 0} {Q : A → Type 0} (m : Message) (a : A)
      → Good symbols Q (report_error m >>= λ u. pure a)
  reported-Good m a =
      Yields-bind _ _ _ _ (report_error-Good m) λ u. Yields-pure _ _ _ λ no. absurd no

  pub get_expected_type-Good : Good symbols (λ t. Unit {0}) get_expected_type
  unfolding get_expected_type
  get_expected_type-Good =
      Yields-run logged (Keeps symbols) _ (λ c. c.expected_type) (λ c. c) (λ c. refl)
        λ c i. (i, omega arith, λ q. tt)

  set_expected_type-Good : (t : QualType) → Good symbols (λ u. Unit {0}) (set_expected_type t)
  unfolding set_expected_type
  set_expected_type-Good t =
      Yields-run logged (Keeps symbols) _ (λ c. tt) (λ c. record c { expected_type = t })
        (λ c. refl) λ c i. (i, omega arith, λ q. tt)

  pub with_expected-Good :
      {A : Type 0} {Q : A → Type 0} (t : QualType) (m : Check A)
      → Good symbols Q m
      → Good symbols Q (with_expected t m)
  unfolding with_expected
  with_expected-Good t m h = Yields-bind _ _ _ _ get_expected_type-Good λ old.
      Yields-bind _ _ _ _ (set_expected_type-Good t) λ u.
        Yields-bind _ _ _ _ h
          λ a. Yields-bind _ _ _ _ (set_expected_type-Good old) λ v. Yields-pure _ _ _ λ _ q _ _. q

  symbol_or_undefined-Good :
      (a : ℕ) (o : Option Symbol)
      → get_elem? symbols a ≡ o
      → Good symbols (λ s. get_elem? symbols a ≡ some s) (symbol_or_undefined o)
  unfolding symbol_or_undefined
  symbol_or_undefined-Good a none e = Yields-undefined _ _
  symbol_or_undefined-Good a (some s) e = Yields-pure _ _ _ e

  run_same :
      (a : ℕ) (c : TypeChecker) (s : Symbol) (c' : TypeChecker)
      → Keeps symbols c
      → symbol_at a c ≡ some (s, c')
      → symbol_or_undefined (get_elem? symbols a) c ≡ some (s, c')
  unfolding symbol_at
  run_same a c s c' i e = subst (λ xs. symbol_or_undefined (get_elem? xs a) c ≡ some (s, c')) i e

  pub symbol_at-Good : (a : ℕ) → Good symbols (λ s. get_elem? symbols a ≡ some s) (symbol_at a)
  unfolding symbol_at
  symbol_at-Good a =
      let h = symbol_or_undefined-Good a (get_elem? symbols a) refl in
      record {
        kept = λ c s c' i e. h.kept c s c' i (run_same a c s c' i e);
        logged = λ c s c' i e. h.logged c s c' i (run_same a c s c' i e);
        holds = λ c s c' i e quiet. h.holds c s c' i (run_same a c s c' i e) quiet;
      }

  pub type_of-Good :
      (e : Expr) → Good symbols (λ t. (get_type e ≡ t) × (is_null_expr e ≡ false)) (type_of e)
  unfolding type_of get_type is_null_expr
  type_of-Good null_expr = Yields-undefined _ _
  type_of-Good (expr t e) = Yields-pure _ _ _ (refl, refl)

  pub get_name-Good : (e : Expr) → Good symbols (λ n. Unit {0}) (get_name e)
  unfolding get_name
  get_name-Good (expr t (var_node (some id) s)) = Yields-pure _ _ _ tt
  get_name-Good _ = Yields-undefined _ _

  pub get_symbol-Good :
      (e : Expr)
      → Good symbols
          (λ s. (t : QualType) × (id : Option IdentifierInfo) × (e ≡ expr t (var_node id s)))
          (get_symbol e)
  unfolding get_symbol
  get_symbol-Good (expr t (var_node id s)) = Yields-pure _ _ _ (t, id, refl)
  get_symbol-Good _ = Yields-undefined _ _

  pub resolve_type-Good : (t : TypeNode) → Good symbols (λ q. Unit {0}) (resolve_type t)
  unfolding resolve_type
  resolve_type-Good null_type = Yields-undefined _ _
  resolve_type-Good (type_name none) = Yields-undefined _ _
  resolve_type-Good (type_name (some id)) = Yields-pure _ _ _ tt
  resolve_type-Good (pointer_type_name t m) =
      Yields-bind _ _ _ _ (resolve_type-Good t) λ p. Yields-pure _ _ _ λ u. tt
  resolve_type-Good (reference_type_name t m) =
      Yields-bind _ _ _ _ (resolve_type-Good t) λ p. Yields-pure _ _ _ λ u. tt
  resolve_type-Good (array_type_name t n) =
      Yields-bind _ _ _ _ (resolve_type-Good t) λ p. Yields-pure _ _ _ λ u. tt

  arithmetic_type-Good :
      (op : TokenKind) (l r : QualType)
      → is_arithmetic op ≡ true
      → Good symbols
          (λ o. (t : QualType) × (o ≡ some t) × Operator op l r t)
          (arithmetic_type op l r)
  unfolding arithmetic_type
  arithmetic_type-Good op l r h =
      Yields-if _ _ _ _ _
        (λ b. let (p, q) = and_split _ _ b in Yields-pure _ _ _ (l, refl, arithmetic h p q))
        (λ b. reported-Good _ _)

  comparison_type-Good :
      (op : TokenKind) (l r : QualType)
      → is_comparison op ≡ true
      → Good symbols
          (λ o. (t : QualType) × (o ≡ some t) × Operator op l r t)
          (comparison_type op l r)
  unfolding comparison_type
  comparison_type-Good op l r h =
      Yields-if _ _ _ _ _
        (λ b. Yields-pure _ _ _ (
          builtin bool,
          refl,
          comparison h (elim (or_split _ _ b) [
            | inl equal ↦ inl (compatible-eq l r equal)
            | inr both ↦ inr (and_split _ _ both)
          ]),
        ))
        (λ b. reported-Good _ _)

  logical_type-Good :
      (op : TokenKind) (l r : QualType)
      → is_logical op ≡ true
      → Good symbols (λ o. (t : QualType) × (o ≡ some t) × Operator op l r t) (logical_type op l r)
  unfolding logical_type
  logical_type-Good op l r h =
      Yields-if _ _ _ _ _
        (λ b. let (p, q) = and_split _ _ b in Yields-pure _ _ _ (builtin bool, refl, logical h p q))
        (λ b. reported-Good _ _)

  assigned_type-Good :
      (l r : QualType)
      → Good symbols
          (λ o. (t : QualType) × (o ≡ some t) × Operator op_equal l r t)
          (assigned_type l r)
  unfolding assigned_type can_implicitly_convert
  assigned_type-Good l r =
      Yields-if _ _ _ _ _
        (λ b. Yields-pure _ _ _ (l, refl, assignment ((can_convert_iff r l false).0 b)))
        (λ b. reported-Good _ _)

  pub binary_type-Good :
      (op : TokenKind) (l r : QualType)
      → Good symbols (λ o. (t : QualType) × (o ≡ some t) × Operator op l r t) (binary_type op l r)
  unfolding binary_type is_arithmetic is_comparison is_logical
  binary_type-Good op_equal l r = assigned_type-Good l r
  binary_type-Good op_plus l r = arithmetic_type-Good _ l r refl
  binary_type-Good op_minus l r = arithmetic_type-Good _ l r refl
  binary_type-Good op_star l r = arithmetic_type-Good _ l r refl
  binary_type-Good op_slash l r = arithmetic_type-Good _ l r refl
  binary_type-Good op_minusequal l r = arithmetic_type-Good _ l r refl
  binary_type-Good op_plusequal l r = arithmetic_type-Good _ l r refl
  binary_type-Good op_equalequal l r = comparison_type-Good _ l r refl
  binary_type-Good op_bangequal l r = comparison_type-Good _ l r refl
  binary_type-Good op_less l r = comparison_type-Good _ l r refl
  binary_type-Good op_lessequal l r = comparison_type-Good _ l r refl
  binary_type-Good op_greater l r = comparison_type-Good _ l r refl
  binary_type-Good op_greaterequal l r = comparison_type-Good _ l r refl
  binary_type-Good op_ampamp l r = logical_type-Good _ l r refl
  binary_type-Good op_pipepipe l r = logical_type-Good _ l r refl
  binary_type-Good _ l r = reported-Good _ _

  -- The expression has the type of its node.
  abbrev pub Judged : Expr → Type 0
  Judged e = HasType symbols e (get_type e)
