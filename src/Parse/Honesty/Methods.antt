-- ===== src/Parse/Honesty/Methods.antt =====
-- All the methods keep the laws, whatever the fuel.
use trsc.Common.{
  if◌then◌else◌, Bool-cases, ℕ, zero, suc, ◌<◌, ◌≡◌, subst, inl, inr, Bool, true, false, List, [],
  ◌∷◌, ◌++◌,
}
use trsc.Ast.{TypeNode, Expr, Stmt, Stmts, stmts, is_null_expr, is_null_stmt, is_null_type}
use trsc.Parse.Cursor.{Parser, Result, Parse, pure, and_then, ◌>>=◌, is_at_end, at_end, returned}
use trsc.Parse.Grammar.{Grammar}
use trsc.Parse.Knot.{no_fuel, methods, grammar, parse}
use trsc.Parse.Statements.{parse_program}
use trsc.Parse.Honesty.{
  IsParser, reports, Follows, returned-snd, pure-Steady, out_of_fuel-Honest, and_then_inv,
  Steady-bind,
}
use trsc.Parse.Honesty.Interface.{is_none_list, IsHonest}
use trsc.Parse.Honesty.Types.{type-Honest}
use trsc.Parse.Honesty.Expressions.{
  elements-Steady, indices-Steady, arguments-Honest, macro_arguments-Honest,
}
use trsc.Parse.Honesty.Primary.{primary-Honest, operators-Honest, expr-Honest}
use trsc.Parse.Honesty.Statements.{
  recover-Steady, items-Steady, params-Honest, stmt-Honest, program-Steady,
}

no_fuel-IsHonest : IsHonest no_fuel
unfolding no_fuel
no_fuel-IsHonest = record {
  primary = out_of_fuel-Honest is_null_expr;
  expr = λ min. out_of_fuel-Honest is_null_expr;
  operators = λ min e made. out_of_fuel-Honest is_null_expr;
  type_node = out_of_fuel-Honest is_null_type;
  elements = λ es. (out_of_fuel-Honest (λ a. true)).steady;
  indices = λ es. (out_of_fuel-Honest (λ a. true)).steady;
  arguments = λ es. out_of_fuel-Honest is_none_list;
  macro_arguments = λ es. out_of_fuel-Honest is_none_list;
  stmt = out_of_fuel-Honest is_null_stmt;
  items = λ ss. (out_of_fuel-Honest (λ a. true)).steady;
  recover = (out_of_fuel-Honest (λ a. true)).steady;
  params = λ ps. out_of_fuel-Honest is_none_list;
  program = λ ss. (out_of_fuel-Honest (λ a. true)).steady;
}

methods-IsHonest : (self : Grammar) → IsHonest self → IsHonest (methods self)
unfolding methods
methods-IsHonest self h = record {
  primary = primary-Honest self h;
  expr = λ min. expr-Honest self min h;
  operators = λ min e made. operators-Honest self min e h made;
  type_node = type-Honest self h;
  elements = λ es. elements-Steady self es h;
  indices = λ es. indices-Steady self es h;
  arguments = λ es. arguments-Honest self es h;
  macro_arguments = λ es. macro_arguments-Honest self es h;
  stmt = stmt-Honest self h;
  items = λ ss. items-Steady self ss h;
  recover = recover-Steady self h;
  params = λ ps. params-Honest self ps h;
  program = λ ss. program-Steady self ss h;
}

pub grammar-IsHonest : (n : ℕ) → IsHonest (grammar n)
unfolding grammar
grammar-IsHonest zero = no_fuel-IsHonest
grammar-IsHonest (suc n) = methods-IsHonest (grammar n) (grammar-IsHonest n)

-- A method that returns a null pointer has reported an error.
abbrev pub NullReported : Grammar → Parser → Parser → Type 0
NullReported g p p' =
    ((s : Stmt) → g.stmt p ≡ returned s p' → is_null_stmt s ≡ true → reports p < reports p')
    × ((min : ℕ) (e : Expr)
        → g.expr min p ≡ returned e p'
        → is_null_expr e ≡ true
        → reports p < reports p')
    × ((t : TypeNode)
        → g.type_node p ≡ returned t p'
        → is_null_type t ≡ true
        → reports p < reports p')

-- With a cursor within fewer than 2 ^ 32 tokens, which end with `ENDOFFILE` and whose string literals
-- are all terminated, each of the methods `parseStmt`, `parseExpr` and `parseType` that returns a null
-- pointer has reported an error.
pub null-reported : (n : ℕ) (p p' : Parser) → IsParser p → NullReported (grammar n) p p'
null-reported n p p' v =
    let h = grammar-IsHonest n in
    (
      λ s e m. h.stmt.reported p s p' v e m,
      λ min x e m. (h.expr min).reported p x p' v e m,
      λ t e m. h.type_node.reported p t p' v e m,
    )

-- What returns only at the end marker.
record Ends {A : Type 0} (m : Parse A) : Type 0 where
  at : (p : Parser) (a : A) (p' : Parser) → m p ≡ returned a p' → is_at_end p' ≡ true

Ends-bind : {A B : Type 0} (m : Parse A) (k : A → Parse B) → ((a : A) → Ends (k a)) → Ends (m >>= k)
unfolding ◌>>=◌
Ends-bind m k h = record {
  at = λ p b p' e. let (a, q, e1, e2) = and_then_inv (m p) k b p' e in (h a).at q b p' e2;
}

Ends-if : {A : Type 0} (b : Bool) (m n : Parse A) → Ends m → Ends n → Ends (if b then m else n)
Ends-if true m n x y = x
Ends-if false m n x y = y

Ends-loop :
    (ss : List Stmt) (m : Parse (List Stmt))
    → Ends m
    → Ends (at_end >>= λ ended. if ended then pure ss else m)
unfolding at_end ◌>>=◌ and_then
Ends-loop ss m h = record {
  at = λ p a p' e. elim (Bool-cases (is_at_end p)) [
    | inl t ↦
        let e' : ◌≡◌ {A = Result (List Stmt)} (returned ss p) (returned a p') = (rw t at e) in
        subst (λ q. is_at_end q ≡ true) (returned-snd ss a p p' e') t
    | inr t ↦ let e' : m p ≡ returned a p' = (rw t at e) in h.at p a p' e'
  ];
}

program-Ends : (n : ℕ) (ss : List Stmt) → Ends ((grammar n).program ss)
unfolding grammar no_fuel methods parse_program
program-Ends zero ss = record { at = λ p a p' e. cc e }
program-Ends (suc n) ss = Ends-loop ss _ (
    Ends-bind _ _
      λ s. Ends-if _ _ _ (Ends-bind _ _ λ u. program-Ends n ss) (program-Ends n (ss ++ s ∷ [])))

-- With a cursor within fewer than 2 ^ 32 tokens, which end with `ENDOFFILE` and whose string literals
-- are all terminated, a parser that returns a program has kept the tokens, has moved its cursor
-- neither back nor past the end marker, has dropped no report, and stands at an `ENDOFFILE`.
pub parse-Follows :
    (n : ℕ) (p p' : Parser) (ss : Stmts)
    → IsParser p
    → parse n p ≡ returned ss p'
    → Follows p p' × (is_at_end p' ≡ true)
unfolding parse
parse-Follows n p p' ss v e =
    let loop = (grammar-IsHonest n).program [] in
    let whole = Steady-bind _ (λ ss. pure (stmts ss)) loop λ ss. pure-Steady (stmts ss) in
    let (rs, q, e1, e2) =
      and_then_inv ((grammar n).program [] p) (λ ss. pure (stmts ss)) ss p' (unfold ◌>>=◌ in e) in
    (
      whole.at p ss p' v e,
      subst (λ r. is_at_end r ≡ true) (returned-snd (stmts rs) ss q p' e2)
          ((program-Ends n []).at p rs q e1),
    )
