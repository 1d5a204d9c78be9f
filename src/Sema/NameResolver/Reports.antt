-- ===== src/Sema/NameResolver/Reports.antt =====
-- What the steps of the passes keep of the stack of frames, and what they yield where they report nothing.
use trsc.Common.{
  Bool-cases, Option-cases, length, Bytes, codes, bytes_eq, ℕ, ◌≡◌, refl, ap, ◌∙◌, inl, inr, Bool,
  true, false, Option, none, some, List, [], ◌∷◌, arith,
}
use trsc.Lex.Token.{IdentifierInfo}
use trsc.Types.QualType.{QualType}
use trsc.Ast.{Expr, Param, expr, var_node}
use trsc.Basic.Diagnostics.{Message, report, error, unsupported_macro}
use trsc.Sema.Scope.{SymbolKind, ScopeKind, EntryList, linear_find}
use trsc.Sema.Pass.{Pass, pure, and_then, ◌>>=◌, ◌>>◌}
use trsc.Sema.Pass.Rules.{
  Yields, result-eq, bind_split, Yields-pure, Yields-run, Yields-undefined, Yields-bind,
  Yields-weaken,
}
use trsc.Sema.SymbolTable.Steps.{Stack, leave, declare, stack_step, enter, exit}
use trsc.Sema.NameResolver.{
  Resolver, report_error, open_scope, close_scope, add_name, look_up, scoped, link, declare_var,
  resolve, declare_params, check_macro_name, block_scope,
}
use trsc.Sema.NameResolver.Lexical.{lexical}
use trsc.Sema.NameResolver.Linked.{Linked, LinkedParams}

abbrev pub reports : {S : Type 0} → Resolver S → ℕ
reports r = length r.diag.log

-- The frames around the current one.
abbrev pub Below : List EntryList → Resolver Stack → Type 0
Below b r = r.table.below ≡ b

abbrev pub Good : {A : Type 0} → List EntryList → (A → Type 0) → Pass (Resolver Stack) A → Type 0
Good b Q m = Yields reports (Below b) Q m

pub report_error-Good :
    (b : List EntryList) (m : Message) → Good b (λ u. ⊥) (report_error lexical m)
unfolding report_error report
report_error-Good b m =
    Yields-run reports (Below b) _ (λ r. tt) (λ r. record r { diag = report r.diag error m })
      (λ r. refl) λ r i. (i, omega arith, λ q. absurd (omega (arith, q)))

pub add_name-Good :
    (b : List EntryList) (name : ℕ) (k : SymbolKind) (i : Bool)
    → Good b (λ o. Unit {0}) (add_name lexical name k i)
unfolding add_name lexical stack_step declare
add_name-Good b name k i =
    Yields-run reports (Below b) _
      (λ r. elim (linear_find r.table.top name) [ some _ ↦ none | none ↦ some r.table.symbols ])
      (λ r. record r { table = declare r.table (linear_find r.table.top name) name }) (λ r. refl)
      λ r h. (
        elim (Option-cases (linear_find r.table.top name)) [
          | inl e ↦ rw (e, declare) h
          | inr (x, e) ↦ rw (e, declare) h
        ],
        omega arith,
        λ q. tt,
      )

pub look_up-Good : (b : List EntryList) (name : ℕ) → Good b (λ o. Unit {0}) (look_up lexical name)
unfolding look_up
look_up-Good b name =
    Yields-run reports (Below b) _ (λ r. lexical.lookup_symbol r.table name) (λ r. r) (λ r. refl)
      λ r h. (h, omega arith, λ q. tt)

pub link-Good :
    (b : List EntryList) (t : QualType) (id : Option IdentifierInfo) (old : Option ℕ) (m : Message)
    (o : Option ℕ)
    → Good b Linked (link lexical t id old m o)
unfolding link Linked
link-Good b t id old m (some a) = Yields-pure _ _ _ (a, refl)
link-Good b t id old m none =
    Yields-bind _ _ _ _ (report_error-Good b m) λ u. Yields-pure _ _ _ (λ no. absurd no)

pub declare_var-Good :
    (b : List EntryList) (k : SymbolKind) (i : Bool) (m : Message) (e : Expr)
    → Good b Linked (declare_var lexical k i m e)
unfolding declare_var
declare_var-Good b k i m (expr t (var_node (some id) old)) =
    Yields-bind _ _ _ _ (add_name-Good b id.addr k i)
      λ made. Yields-weaken _ _ _ (λ a p u. p) (link-Good b t (some id) old m made)
declare_var-Good b k i m _ = Yields-undefined _ _

pub resolve-Good :
    (b : List EntryList) (m : Message) (e : Expr) → Good b Linked (resolve lexical m e)
unfolding resolve
resolve-Good b m (expr t (var_node (some id) old)) =
    Yields-bind _ _ _ _ (look_up-Good b id.addr)
      λ made. Yields-weaken _ _ _ (λ a p u. p) (link-Good b t (some id) old m made)
resolve-Good b m _ = Yields-undefined _ _

pub declare_params-Good :
    (b : List EntryList) (ps : List Param) → Good b LinkedParams (declare_params lexical ps)
unfolding declare_params LinkedParams
declare_params-Good b [] = Yields-pure _ _ _ tt
declare_params-Good b ((name, t) ∷ ps) =
    Yields-bind _ _ _ _ (declare_var-Good b _ _ _ name)
      λ n. Yields-bind _ _ _ _ (declare_params-Good b ps) λ l. Yields-pure _ _ _ λ p q. (q, p)

pub check_macro_name-Good :
    (b : List EntryList) (name : Bytes) → Good b (λ u. Unit {0}) (check_macro_name lexical name)
unfolding check_macro_name
check_macro_name-Good b name = elim (Bool-cases (bytes_eq name (codes "println"))) [
  | inl e ↦ rw e (Yields-pure _ _ _ tt)
  | inr e ↦ rw e (Yields-weaken _ _ _ (λ u no. tt) (report_error-Good b (unsupported_macro name)))
]

abbrev opened : ScopeKind → Resolver Stack → Resolver Stack
opened k r = record r { table = stack_step r.table (enter k) }

abbrev closed : Resolver Stack → Resolver Stack
closed r = record r { table = stack_step r.table exit }

-- A run under a `ScopedRAII`: the pass runs in the new scope, which is left behind it.
scoped-run :
    {A : Type 0} (k : ScopeKind) (m : Pass (Resolver Stack) A) (r : Resolver Stack) (a : A)
    (r' : Resolver Stack)
    → scoped lexical k m r ≡ some (a, r')
    → (t : Resolver Stack) × (m (opened k r) ≡ some (a, t)) × (closed t ≡ r')
unfolding scoped open_scope close_scope lexical ◌>>=◌ and_then
scoped-run k m r a r' e =
    let (b, t, x, y) = bind_split m (λ b. close_scope lexical >> pure b) (opened k r) a r' e in
    let (same, next) = result-eq b a (closed t) r' y in (t, rw (← same) x, next)

closed-Below :
    (t : Resolver Stack) (f : EntryList) (b : List EntryList) → Below (f ∷ b) t → Below b (closed t)
unfolding stack_step leave
closed-Below t f b h = rw (h, leave)

pub scoped-Good :
    {A : Type 0} {Q : A → Type 0} (b : List EntryList) (k : ScopeKind) (m : Pass (Resolver Stack) A)
    → ((c : List EntryList) → Good c Q m)
    → Good b Q (scoped lexical k m)
unfolding stack_step
scoped-Good b k m h = record {
  kept = λ r a r' i e.
      let (t, x, next) = scoped-run k m r a r' e in
      let inner = (h (r.table.top ∷ b)).kept (opened k r) a t (ap (◌∷◌ r.table.top) i) x in
      rw (← next) (closed-Below t r.table.top b inner);
  logged = λ r a r' i e.
      let (t, x, next) = scoped-run k m r a r' e in
      rw (← next) ((h (r.table.top ∷ b)).logged (opened k r) a t (ap (◌∷◌ r.table.top) i) x);
  holds = λ r a r' i e quiet.
      let (t, x, next) = scoped-run k m r a r' e in
      (h (r.table.top ∷ b)).holds (opened k r) a t (ap (◌∷◌ r.table.top) i) x
        (ap reports next ∙ quiet);
}

pub block_scope-Good :
    {A : Type 0} {Q : A → Type 0} (b : List EntryList) (body : Bool) (m : Pass (Resolver Stack) A)
    → ((c : List EntryList) → Good c Q m)
    → Good b Q (block_scope lexical body m)
unfolding block_scope
block_scope-Good b true m h = h b
block_scope-Good b false m h = scoped-Good b _ m h

-- A node with one child, with two and with three.
pub one :
    {A B : Type 0} {P : A → Type 0} {Q : B → Type 0} (b : List EntryList)
    (m : Pass (Resolver Stack) A) (f : A → B)
    → Good b P m
    → ((x : A) → P x → Q (f x))
    → Good b Q (m >>= λ x. pure (f x))
one b m f h q = Yields-bind _ _ _ _ h λ x. Yields-pure _ _ _ (q x)

pub two :
    {A B C : Type 0} {P : A → Type 0} {P' : B → Type 0} {Q : C → Type 0} (b : List EntryList)
    (m : Pass (Resolver Stack) A) (n : Pass (Resolver Stack) B) (f : A → B → C)
    → Good b P m
    → Good b P' n
    → ((x : A) (y : B) → P x → P' y → Q (f x y))
    → Good b Q (m >>= λ x. n >>= λ y. pure (f x y))
two b m n f h k q =
    Yields-bind _ _ _ _ h λ x. Yields-bind _ _ _ _ k λ y. Yields-pure _ _ _ λ p' p. q x y p p'

pub three :
    {A B C D : Type 0} {P : A → Type 0} {P' : B → Type 0} {P'' : C → Type 0} {Q : D → Type 0}
    (b : List EntryList) (m : Pass (Resolver Stack) A) (n : Pass (Resolver Stack) B)
    (o : Pass (Resolver Stack) C) (f : A → B → C → D)
    → Good b P m
    → Good b P' n
    → Good b P'' o
    → ((x : A) (y : B) (z : C) → P x → P' y → P'' z → Q (f x y z))
    → Good b Q (m >>= λ x. n >>= λ y. o >>= λ z. pure (f x y z))
three b m n o f h k l q = Yields-bind _ _ _ _ h λ x.
    Yields-bind _ _ _ _ k
      λ y. Yields-bind _ _ _ _ l λ z. Yields-pure _ _ _ λ p'' p' p. q x y z p p' p''
