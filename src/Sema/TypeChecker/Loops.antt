-- ===== src/Sema/TypeChecker/Loops.antt =====
-- What the loops of the type checker yield: over indices, arguments and what `println!` prints; and the array literals.
use trsc.Common.{
  leb, ◌==◌, if◌then◌else◌, ==_iff, and_split, some-injective, get_elem?, Bytes, ℕ, ◌≡◌, refl, sym,
  ap, ◌∙◌, subst, Bool, true, false, not, ◌&&◌, ◌||◌, Option, none, some, List, arith,
}
use trsc.Lex.Token.{TokenKind, IdentifierInfo}
use trsc.Types.QualType.{
  kind_value, QualType, QualTypes, get_kind, kind_eq, has_kind, is_integer, is_floating,
  is_integer_type, is_floating_type, is_pointer_type, is_reference_type, is_array_type, is_null,
  get_params_type, i32, f64, null, builtin, array, cons,
}
use trsc.Ast.{Expr, Exprs, get_type, expr, int_node, var_node, array_node, no_exprs, add_expr}
use trsc.Basic.Diagnostics.{Message}
use trsc.Sema.Scope.{Symbol}
use trsc.Sema.Pass.{pure, ◌>>=◌}
use trsc.Sema.Pass.Rules.{Yields-pure, Yields-undefined, Yields-bind, Yields-weaken, Yields-if}
use trsc.Sema.FormatString.{count_format_arguments}
use trsc.Sema.TypeChecker.{
  Check, report_error, exprs_length, types_length, count_value, first_type, array_type, check_bound,
  check_index,
}
use trsc.Sema.TypeChecker.Operators.{
  is_assignment, under_left, check_placeholders, check_format, printed_type, is_printable,
  check_printed,
}
use trsc.Sema.TypeChecker.Visit.{call_typed, check_call, element_type, check_access, check_argument}
use trsc.Sema.TypeChecker.Typing.{
  InBounds, Formats, HasType, HaveTypes, Indices, Arguments, of_expected_array, of_array, of_access,
  of_call, of_untyped_call, and_type, argument,
}
use trsc.Sema.TypeChecker.Steps.{
  Good, report_error-Good, reported-Good, with_expected-Good, symbol_at-Good, type_of-Good,
  get_name-Good, Judged,
}
use trsc.Sema.TypeChecker.Nodes.{read}
use trsc.Types.QualTypeEq.{type_eq_iff}

module _ (symbols : List Symbol) where
  HaveTypes-head : (e : Expr) (es : Exprs) → HaveTypes symbols (add_expr e es) → Judged symbols e
  HaveTypes-head _ _ (and_type h hs) = h

  pub tt_if-Good :
      (b : Bool) (m : Message)
      → Good symbols (λ u. b ≡ true) (if b then pure tt else report_error m)
  tt_if-Good b m =
      Yields-if _ _ _ _ _ (λ h. Yields-pure _ _ _ h)
        (λ h. Yields-weaken _ _ _ (λ u no. absurd no) (report_error-Good symbols m))

  pub bound-Good : (e : Expr) (n : ℕ) → Good symbols (λ u. InBounds e n) (check_bound e n)
  unfolding check_bound InBounds
  bound-Good (expr t (int_node k)) n =
      Yields-if _ _ (leb n k) _ _
        (λ h. Yields-weaken _ _ _ (λ u no. absurd no) (report_error-Good symbols _))
        (λ h. Yields-pure _ _ _ (ground (arith, h)))
  bound-Good _ n = Yields-pure _ _ _ tt

  pub index-Good :
      (e : Expr) (t : QualType)
      → Good symbols
          (λ u.
            (b : QualType) × (n : ℕ) × (t ≡ array b n)
            × (is_integer_type (get_type e) ≡ true)
            × InBounds e n)
          (check_index e t)
  unfolding check_index
  index-Good e (array b n) = Yields-bind _ _ _ _ (type_of-Good symbols e) λ i.
      Yields-bind _ _ _ _ (tt_if-Good (is_integer_type i) _) λ u.
        Yields-weaken _ _ _ (λ v bounded int (p, _). (b, n, refl, rw p int, bounded))
          (bound-Good e n)
  index-Good e _ = Yields-undefined _ _

  pub placeholders-Good :
      (o : Option ℕ) (n : ℕ) → Good symbols (λ u. o ≡ some n) (check_placeholders o n)
  unfolding check_placeholders
  placeholders-Good none n = Yields-weaken _ _ _ (λ u no. absurd no) (report_error-Good symbols _)
  placeholders-Good (some k) n =
      Yields-weaken _ _ _ (λ u b. ap some ((==_iff k n).0 b)) (tt_if-Good (k == n) _)

  pub format-Good :
      (format : Bytes) (h : Bool) (n : ℕ)
      → Good symbols (λ u. Formats format h n) (check_format format h n)
  unfolding check_format Formats
  format-Good format false n = Yields-weaken _ _ _ (λ u b. (==_iff n 0).0 b) (tt_if-Good (n == 0) _)
  format-Good format true n = placeholders-Good (count_format_arguments format) n

  pub printed-Good :
      (t : QualType)
      → Good symbols (λ u. (is_null t || is_printable (printed_type t)) ≡ true) (check_printed t)
  unfolding check_printed
  printed-Good t =
      Yields-if _ _ (is_null t) _ _ (λ h. Yields-pure _ _ _ (rw h refl))
        (λ h. Yields-weaken _ _ _ (λ u b. rw h b) (tt_if-Good (is_printable (printed_type t)) _))

  pub count_value-Good :
      (e : Expr) → Good symbols (λ n. (u : QualType) × (e ≡ expr u (int_node n))) (count_value e)
  unfolding count_value
  count_value-Good (expr u (int_node n)) = Yields-pure _ _ _ (u, refl)
  count_value-Good _ = Yields-undefined _ _

  pub first-Good :
      (es : Exprs) (n : ℕ) (shape : List ℕ)
      → Good symbols
          (λ t.
            (u : QualType)
            → HaveTypes symbols es
            → HasType symbols (expr t (array_node es (expr u (int_node n)) shape)) t)
          (first_type es >>= λ t. pure (array t n))
  unfolding first_type
  first-Good no_exprs n shape =
      Yields-bind _ _ _ _ (Yields-undefined _ _) λ t. Yields-pure _ _ _ λ no. absurd no
  first-Good (add_expr e es) n shape =
      Yields-bind _ _ _ _ (type_of-Good symbols e)
        λ t. Yields-pure _ _ _ λ (p, _) u h. of_array h (read symbols (HaveTypes-head e es h) p)

  is_array_split :
      (old : QualType)
      → (not (is_null old)
          && is_array_type old
          && not (is_reference_type old)
          && not (is_pointer_type old))
        ≡ true
      → is_array_type old ≡ true
  is_array_split old b =
      let p =
        (and_split (not (is_null old) && is_array_type old && not (is_reference_type old))
          (not (is_pointer_type old)) b).0 in
      let q =
        (and_split (not (is_null old) && is_array_type old) (not (is_reference_type old)) p).0 in
      (and_split (not (is_null old)) (is_array_type old) q).1

  -- The first element has a type where the literal is given one by it.
  pub array_type-Good :
      (old : QualType) (es : Exprs) (n : ℕ) (shape : List ℕ)
      → Good symbols
          (λ t.
            (u : QualType)
            → HaveTypes symbols es
            → HasType symbols (expr t (array_node es (expr u (int_node n)) shape)) t)
          (array_type old es n)
  unfolding array_type
  array_type-Good old es n shape =
      Yields-if _ _
        (not (is_null old)
          && is_array_type old
          && not (is_reference_type old)
          && not (is_pointer_type old))
        _ _ (λ b. Yields-pure _ _ _ λ u h. of_expected_array h (is_array_split old b))
        (λ b. first-Good es n shape)

  pub argument-Good :
      (name e : Expr) (es : Exprs) (t : QualType) (ts : QualTypes) (m : Check Exprs)
      → Good symbols (Arguments symbols ts) m
      → Good symbols
          (λ es'. Judged symbols e → Arguments symbols (cons t ts) es')
          (check_argument name e es t m)
  unfolding check_argument
  argument-Good name e es t ts m hm = Yields-bind _ _ _ _ (type_of-Good symbols e) λ given.
      Yields-if _ _ _ _ _
        (λ b. Yields-bind _ _ _ _ hm λ rest.
          Yields-pure _ _ _
            λ args (p, _) h. argument (read symbols h (p ∙ (type_eq_iff given t).0 b)) args)
        (λ b. Yields-bind _ _ _ _ (get_name-Good symbols name) λ text. reported-Good symbols _ _)

  abbrev pub Names : Expr → Option ℕ → Type 0
  Names name o = (u : QualType) × (id : Option IdentifierInfo) × (name ≡ expr u (var_node id o))

  pub call-Good :
      (name : Expr) (es : Exprs) (o : Option ℕ) (m : QualTypes → Check Exprs)
      → ((ts : QualTypes)
          → types_length ts ≡ exprs_length es
          → Good symbols (Arguments symbols ts) (m ts))
      → Good symbols (λ x. Names name o → Judged symbols x) (check_call null name es o m)
  unfolding check_call call_typed get_type
  call-Good name es none m h = reported-Good symbols _ _
  call-Good name es (some a) m h = Yields-bind _ _ _ _ (symbol_at-Good symbols a) λ s.
      Yields-if _ _ (is_null s.ty) _ _
        (λ b. Yields-pure _ _ _ λ e (u, id, n). rw n (of_untyped_call e b))
        (λ b.
          Yields-if _ _ (types_length (get_params_type s.ty) == exprs_length es) _ _
            (λ same.
              Yields-bind _ _ _ _
                (h (get_params_type s.ty)
                  ((==_iff (types_length (get_params_type s.ty)) (exprs_length es)).0 same))
                λ es'. Yields-pure _ _ _ λ args e (u, id, n). rw n (of_call e args))
            (λ differ.
              Yields-bind _ _ _ _ (get_name-Good symbols name) λ text. reported-Good symbols _ _))

  pub element-Good :
      (t : QualType) (name : Expr) (a : ℕ) (s : Symbol) (found : Option QualType × Exprs)
      → Good symbols
          (λ e.
            ((ty : QualType) × (found.0 ≡ some ty) × Indices symbols s.ty found.1 ty)
            → get_elem? symbols a ≡ some s
            → Names name (some a)
            → Judged symbols e)
          (element_type t name found)
  unfolding element_type get_type
  element-Good t name a s (some ty, es') = Yields-pure _ _ _ λ (ty', e, h) at (u, id, n).
      rw n (of_access at (subst (λ x. Indices symbols s.ty es' x) (sym (some-injective e)) h))
  element-Good t name a s (none, es') = Yields-pure _ _ _ λ (ty', e, h) at n. absurd (cc e)

  pub access-Good :
      (t : QualType) (name : Expr) (es : Exprs) (o : Option ℕ)
      (m : QualType → Check (Option QualType × Exprs))
      → ((ty : QualType)
          → Good symbols (λ r. (e : QualType) × (r.0 ≡ some e) × Indices symbols ty r.1 e) (m ty))
      → Good symbols (λ x. Names name o → Judged symbols x) (check_access t name es o m)
  unfolding check_access
  access-Good t name es none m h = reported-Good symbols _ _
  access-Good t name es (some a) m h = Yields-bind _ _ _ _ (symbol_at-Good symbols a) λ s.
      Yields-if _ _ (is_array_type s.ty) _ _
        (λ b. Yields-bind _ _ _ _ (h s.ty) λ found. element-Good t name a s found)
        (λ b. Yields-bind _ _ _ _ (get_name-Good symbols name) λ text. reported-Good symbols _ _)

  pub under_left-Good :
      {Q : Expr → Type 0} (op : TokenKind) (l : Expr) (m : Check Expr)
      → Good symbols Q m
      → Good symbols Q (under_left op l m)
  unfolding under_left
  under_left-Good op l m h =
      Yields-if _ _ (is_assignment op) _ _
        (λ b.
          Yields-bind _ _ _ _ (type_of-Good symbols l)
            λ t. Yields-weaken _ _ _ (λ a p _. p) (with_expected-Good symbols t m h))
        (λ b. h)

  pub i32_lem : is_integer_type (builtin i32) ≡ true
  unfolding is_integer_type has_kind get_kind is_integer kind_value
  i32_lem = refl

  pub f64_lem : is_floating_type (builtin f64) ≡ true
  unfolding is_floating_type has_kind get_kind is_floating kind_eq kind_value
  f64_lem = refl
