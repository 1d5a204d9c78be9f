-- ===== src/Sema/TypeChecker/Nodes.antt =====
-- What the methods of the type checker yield at a node whose children are typed.
use trsc.Common.{
  inl, inr, Bool-cases, not, ◌&&◌, if_elim, and_split, get_elem?, Bytes, ℕ, ◌≡◌, refl, subst, Bool,
  true, false, Option, none, some, List,
}
use trsc.Lex.Token.{TokenKind, IdentifierInfo, op_minus, op_bang}
use trsc.Types.QualType.{
  TypeKind, QualType, get_kind, kind_eq, has_kind, is_string_type, is_pointer_type,
  is_reference_type, is_null, null, builtin,
}
use trsc.Types.Conversion.{can_explicitly_convert, can_convert_iff}
use trsc.Ast.{TypeNode, Expr, get_type, expr, var_node, unary_node, array_access_node}
use trsc.Sema.Scope.{Symbol}
use trsc.Sema.Pass.Rules.{Yields-pure, Yields-bind, Yields-weaken, Yields-if}
use trsc.Sema.TypeChecker.{adopted, adopted_string, check_as, check_var}
use trsc.Sema.TypeChecker.Operators.{
  check_unary, is_assignment, target_of, check_mutable, check_target, result_type, check_binary,
}
use trsc.Sema.TypeChecker.Typing.{
  Assignable, HasType, variable, element, of_unlinked, of_var, of_minus, of_bang, of_binary,
  of_untyped_binary, of_as,
}
use trsc.Sema.TypeChecker.Steps.{
  Good, reported-Good, symbol_at-Good, type_of-Good, get_name-Good, get_symbol-Good,
  resolve_type-Good, binary_type-Good, Judged,
}

pub null-eq : (t : QualType) → is_null t ≡ true → t ≡ null
unfolding is_null
null-eq null e = refl
null-eq _ e = cc e

pub adopted_lem :
    (suits : QualType → Bool) (expected : QualType) (default : TypeKind)
    → suits (builtin default) ≡ true
    → suits (adopted suits expected default) ≡ true
unfolding adopted
adopted_lem suits expected default h =
    let usable = not (is_reference_type expected) && not (is_pointer_type expected) in
    let condition = not (is_null expected) && suits expected && usable in
    elim (Bool-cases condition) [
      | inl b ↦
          let suited = (and_split (not (is_null expected) && suits expected) usable b).0 in
          rw (b, adopted) ((and_split (not (is_null expected)) (suits expected) suited).1)
      | inr b ↦ rw (b, adopted) h
    ]

pub adopted_string_lem : (expected : QualType) → is_string_type (adopted_string expected) ≡ true
unfolding adopted_string is_string_type has_kind get_kind kind_eq
adopted_string_lem expected =
    if_elim (λ t. is_string_type t ≡ true) (not (is_null expected) && is_string_type expected)
      {x = expected} (λ b. (and_split (not (is_null expected)) (is_string_type expected) b).1)
      (λ b. refl)

module _ (symbols : List Symbol) where
  pub var-Good :
      (id : Option IdentifierInfo) (s : Option ℕ)
      → Good symbols (Judged symbols) (check_var null id s)
  unfolding check_var get_type
  var-Good id none = Yields-pure _ _ _ of_unlinked
  var-Good id (some a) =
      Yields-bind _ _ _ _ (symbol_at-Good symbols a) λ s. Yields-pure _ _ _ λ e. of_var e

  -- The type of a node that has been read.
  pub read :
      {e : Expr} {t : QualType}
      → HasType symbols e (get_type e)
      → get_type e ≡ t
      → HasType symbols e t
  read {e} h p = subst (HasType symbols e) p h

  pub unary-Good :
      (op : TokenKind) (e : Expr) (t : QualType)
      → Good symbols
          (λ u. HasType symbols e t → HasType symbols (expr u (unary_node op e)) u)
          (check_unary op t)
  unfolding check_unary
  unary-Good op_minus e t =
      Yields-if _ _ _ _ _ (λ b. Yields-pure _ _ _ λ h. of_minus h b)
        (λ b. reported-Good symbols _ _)
  unary-Good op_bang e t =
      Yields-if _ _ _ _ _ (λ b. Yields-pure _ _ _ λ h. of_bang h b) (λ b. reported-Good symbols _ _)
  unary-Good _ e t = reported-Good symbols _ _

  pub as-Good :
      (e : Expr) (to : TypeNode)
      → Good symbols (λ x. Judged symbols e → Judged symbols x) (check_as null e to)
  unfolding check_as can_explicitly_convert get_type
  as-Good e to = Yields-bind _ _ _ _ (type_of-Good symbols e) λ from.
      Yields-bind _ _ _ _ (resolve_type-Good symbols to) λ u.
        Yields-if _ _ _ _ _
          (λ b.
            Yields-pure _ _ _ λ _ (p, n) h. of_as (read h p) ((can_convert_iff from u true).0 b))
          (λ b. reported-Good symbols _ _)

  target-Good :
      (e : Expr)
      → Good symbols
          (λ target.
            (a : ℕ) (s : Symbol)
            → target.0 ≡ some a
            → get_elem? symbols a ≡ some s
            → s.is_mutable ≡ true
            → Assignable symbols e)
          (target_of e)
  unfolding target_of
  target-Good (expr t (var_node id o)) =
      Yields-bind _ _ _ _ (get_name-Good symbols (expr t (var_node id o)))
        λ name. Yields-pure _ _ _ λ u a s p e m. rw p (variable e m)
  target-Good (expr t (array_access_node array_name es)) =
      Yields-bind _ _ _ _ (get_symbol-Good symbols array_name) λ o.
        Yields-bind _ _ _ _ (get_name-Good symbols array_name)
          λ name. Yields-pure _ _ _ λ u (t', id, same) a s p e m. rw (same, p) (element e m)
  target-Good _ = Yields-pure _ _ _ λ a s p e m. cc p

  mutable-Good :
      (target : Option ℕ) (name : Bytes)
      → Good symbols
          (λ b.
            (b ≡ false)
            × ((a : ℕ) × (s : Symbol) × (target ≡ some a)
                × (get_elem? symbols a ≡ some s)
                × (s.is_mutable ≡ true)))
          (check_mutable target name)
  unfolding check_mutable
  mutable-Good none name = reported-Good symbols _ _
  mutable-Good (some a) name = Yields-bind _ _ _ _ (symbol_at-Good symbols a) λ s.
      Yields-if _ _ _ _ _ (λ b. Yields-pure _ _ _ λ e. (refl, (a, s, refl, e, b)))
        (λ b. reported-Good symbols _ _)

  check_target-Good :
      (op : TokenKind) (l : Expr)
      → Good symbols
          (λ b. (b ≡ false) × (is_assignment op ≡ true → Assignable symbols l))
          (check_target op l)
  unfolding check_target
  check_target-Good op l =
      Yields-if _ _ _ _ _
        (λ b. Yields-bind _ _ _ _ (target-Good l) λ target.
          Yields-weaken _ _ _
            (λ failed (none_failed, (a, s, p, e, m)) h. (none_failed, λ _. h a s p e m))
            (mutable-Good target.0 target.1))
        (λ b. Yields-pure _ _ _ (refl, λ yes. cc (b, yes)))

  pub binary-Good :
      (op : TokenKind) (l r : Expr)
      → Good symbols
          (λ x. Judged symbols r → Judged symbols l → Judged symbols x)
          (check_binary op l r)
  unfolding check_binary get_type result_type
  binary-Good op l r = Yields-bind _ _ _ _ (type_of-Good symbols l) λ lt.
      Yields-bind _ _ _ _ (type_of-Good symbols r) λ rt.
        Yields-if _ _ _ _ _
          (λ b.
            Yields-pure _ _ _ λ (q, _) (p, _) hr hl. of_untyped_binary (read hl p) (read hr q) b)
          (λ b. Yields-bind _ _ _ _ (check_target-Good op l) λ failed.
            Yields-bind _ _ _ _ (binary_type-Good symbols op lt rt) λ result.
              Yields-pure _ _ _ λ (t, made, rule) (ok, assignable) (q, _) (p, _) hr hl.
                rw (ok, made) (of_binary (read hl p) (read hr q) rule assignable))
