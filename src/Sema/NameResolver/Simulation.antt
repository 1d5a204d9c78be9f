-- ===== src/Sema/NameResolver/Simulation.antt =====
-- Two symbol tables whose operations agree give the passes the same tree and the same reports.
use trsc.Common.{
  Bool-cases, Bytes, codes, bytes_eq, ℕ, ◌≡◌, ap, inl, inr, Bool, Option, none, some, List, [], ◌∷◌,
}
use trsc.Lex.Token.{IdentifierInfo}
use trsc.Types.QualType.{QualType}
use trsc.Ast.{Expr, Param, expr, var_node}
use trsc.Basic.Diagnostics.{Message, report, error, unsupported_macro}
use trsc.Sema.Scope.{SymbolKind, ScopeKind, Symbol}
use trsc.Sema.Pass.{Pass, pure, undefined, and_then, ◌>>=◌}
use trsc.Sema.NameResolver.{
  ScopeTable, Resolver, new_symbol, report_error, open_scope, close_scope, add_name, look_up,
  scoped, link, declare_var, resolve, declare_params, check_macro_name,
}

-- The operations keep the relation between the two tables, and agree in what they return. The
-- symbols that are added may differ.
pub record Agrees {S S' : Type 0} (R : S → S' → Type 0) (T : ScopeTable S) (T' : ScopeTable S')
    : Type 0 where
  pub enter_agrees :
      (s : S) (s' : S') (k : ScopeKind) → R s s' → R (T.enter_scope s k) (T'.enter_scope s' k)
  pub exit_agrees : (s : S) (s' : S') → R s s' → R (T.exit_scope s) (T'.exit_scope s')
  pub add_agrees :
      (s : S) (s' : S') (name : ℕ) (x x' : Symbol)
      → R s s'
      → ((T.add_symbol s name x).0 ≡ (T'.add_symbol s' name x').0)
        × R (T.add_symbol s name x).1 (T'.add_symbol s' name x').1
  pub lookup_agrees :
      (s : S) (s' : S') (name : ℕ) → R s s' → T.lookup_symbol s name ≡ T'.lookup_symbol s' name

module _ {S S' : Type 0} (R : S → S' → Type 0) where
  pub record Related (r : Resolver S) (r' : Resolver S') : Type 0 where
    pub tables : R r.table r'.table
    pub reports_same : r.diag ≡ r'.diag

  -- Both have no result, or the same one in related states.
  pub data Same {A : Type 0} : Option (A × Resolver S) → Option (A × Resolver S') → Type 0 where
    neither : Same none none
    both :
        (a : A) (r : Resolver S) (r' : Resolver S')
        → Related r r'
        → Same (some (a, r)) (some (a, r'))

  pub record Sim {A : Type 0} (m : Pass (Resolver S) A) (m' : Pass (Resolver S') A) : Type 0 where
    pub at : (r : Resolver S) (r' : Resolver S') → Related r r' → Same (m r) (m' r')

module _ {S S' : Type 0} (R : S → S' → Type 0) where
  pub pure-Sim : {A : Type 0} (a : A) → Sim R (pure a) (pure a)
  pure-Sim a = record { at = λ r r' h. both a r r' h }

  pub undefined-Sim : {A : Type 0} → Sim R {A = A} undefined undefined
  undefined-Sim = record { at = λ r r' h. neither }

  module _ {A B : Type 0} where
    Same-and_then :
        (o : Option (A × Resolver S)) (o' : Option (A × Resolver S')) (k : A → Pass (Resolver S) B)
        (k' : A → Pass (Resolver S') B)
        → Same R o o'
        → ((a : A) → Sim R (k a) (k' a))
        → Same R (and_then o k) (and_then o' k')
    unfolding and_then
    Same-and_then _ _ k k' neither h = neither
    Same-and_then _ _ k k' (both a r r' related) h = (h a).at r r' related

    pub Sim-bind :
        (m : Pass (Resolver S) A) (m' : Pass (Resolver S') A) (k : A → Pass (Resolver S) B)
        (k' : A → Pass (Resolver S') B)
        → Sim R m m'
        → ((a : A) → Sim R (k a) (k' a))
        → Sim R (m >>= k) (m' >>= k')
    unfolding ◌>>=◌
    Sim-bind m m' k k' h hk = record {
      at = λ r r' related. Same-and_then (m r) (m' r') k k' (h.at r r' related) hk;
    }

  module _ (T : ScopeTable S) (T' : ScopeTable S') (laws : Agrees R T T') where
    pub report_error-Sim : (m : Message) → Sim R (report_error T m) (report_error T' m)
    unfolding report_error
    report_error-Sim m = record {
      at = λ r r' h.
          both tt _ _ (record {
            tables = h.tables;
            reports_same = ap (λ d. report d error m) h.reports_same;
          });
    }

    pub open_scope-Sim : (k : ScopeKind) → Sim R (open_scope T k) (open_scope T' k)
    unfolding open_scope
    open_scope-Sim k = record {
      at = λ r r' h. both tt _ _ (record {
        tables = laws.enter_agrees r.table r'.table k h.tables;
        reports_same = h.reports_same;
      });
    }

    pub close_scope-Sim : Sim R (close_scope T) (close_scope T')
    unfolding close_scope
    close_scope-Sim = record {
      at = λ r r' h. both tt _ _ (record {
        tables = laws.exit_agrees r.table r'.table h.tables;
        reports_same = h.reports_same;
      });
    }

    pub look_up-Sim : (name : ℕ) → Sim R (look_up T name) (look_up T' name)
    unfolding look_up
    look_up-Sim name = record {
      at = λ r r' h. rw (laws.lookup_agrees r.table r'.table name h.tables) (both _ r r' h);
    }

    pub add_name-Sim :
        (name : ℕ) (k : SymbolKind) (b : Bool) → Sim R (add_name T name k b) (add_name T' name k b)
    unfolding add_name
    add_name-Sim name k b = record {
      at = λ r r' h.
          let (same, tables) =
            laws.add_agrees r.table r'.table name (new_symbol k b (T.current_scope r.table))
              (new_symbol k b (T'.current_scope r'.table)) h.tables in
          rw same (both _ _ _ (record { tables = tables; reports_same = h.reports_same }));
    }

    pub scoped-Sim :
        {A : Type 0} (k : ScopeKind) (m : Pass (Resolver S) A) (m' : Pass (Resolver S') A)
        → Sim R m m'
        → Sim R (scoped T k m) (scoped T' k m')
    unfolding scoped
    scoped-Sim k m m' h =
        Sim-bind _ _ _ _ (open_scope-Sim k)
          λ u. Sim-bind _ _ _ _ h λ a. Sim-bind _ _ _ _ close_scope-Sim λ v. pure-Sim a

    pub link-Sim :
        (t : QualType) (id : Option IdentifierInfo) (old : Option ℕ) (m : Message) (o : Option ℕ)
        → Sim R (link T t id old m o) (link T' t id old m o)
    unfolding link
    link-Sim t id old m (some a) = pure-Sim _
    link-Sim t id old m none = Sim-bind _ _ _ _ (report_error-Sim m) λ u. pure-Sim _

    pub declare_var-Sim :
        (k : SymbolKind) (b : Bool) (m : Message) (e : Expr)
        → Sim R (declare_var T k b m e) (declare_var T' k b m e)
    unfolding declare_var
    declare_var-Sim k b m (expr t (var_node (some id) old)) =
        Sim-bind _ _ _ _ (add_name-Sim id.addr k b) λ made. link-Sim t (some id) old m made
    declare_var-Sim k b m _ = undefined-Sim

    pub resolve-Sim : (m : Message) (e : Expr) → Sim R (resolve T m e) (resolve T' m e)
    unfolding resolve
    resolve-Sim m (expr t (var_node (some id) old)) =
        Sim-bind _ _ _ _ (look_up-Sim id.addr) λ found. link-Sim t (some id) old m found
    resolve-Sim m _ = undefined-Sim

    pub declare_params-Sim : (ps : List Param) → Sim R (declare_params T ps) (declare_params T' ps)
    unfolding declare_params
    declare_params-Sim [] = pure-Sim _
    declare_params-Sim ((name, t) ∷ ps) =
        Sim-bind _ _ _ _ (declare_var-Sim _ _ _ name)
          λ name'. Sim-bind _ _ _ _ (declare_params-Sim ps) λ ps'. pure-Sim _

    pub check_macro_name-Sim :
        (name : Bytes) → Sim R (check_macro_name T name) (check_macro_name T' name)
    unfolding check_macro_name
    check_macro_name-Sim name = elim (Bool-cases (bytes_eq name (codes "println"))) [
      | inl e ↦ rw e (pure-Sim tt)
      | inr e ↦ rw e (report_error-Sim (unsupported_macro name))
    ]
