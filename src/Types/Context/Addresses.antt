-- ===== src/Types/Context/Addresses.antt =====
-- ASTContext.cpp: the comparison of the addresses of two types is the comparison of the types.
use trsc.Common.{
  get_elem?, ℕ, zero, suc, ◌≤◌, ◌≡◌, sym, ap, ◌∙◌, subst, ◌↔◌, true, Option, none, some, List, [],
  ◌∷◌, arith,
}
use Prim.Native.Nat.{max}
use trsc.Types.QualType.{
  QualType, QualTypes, null, builtin, pointer, reference, array, function, nil, cons, type_eq,
}
use trsc.Types.QualTypeEq.{type_eq_iff}
use trsc.Types.Context.{
  TypePtr, TypeObject, AstContext, ptr_eq, new_context, builtin_object, pointer_object,
  reference_object, array_object, function_object,
}
use trsc.Types.Context.Denotation.{Denotes, DenoteAll, ptr_eq_iff}
use trsc.Types.Context.Uniqueness.{Denotes-address, new_context-IsCanonical}
use trsc.Types.Context.Requests.{Request, serve_all, serve_all-IsCanonical}

-- The type that a pointer leads to, read as deep as a number says.
read_all : (TypePtr → QualType) → List TypePtr → QualTypes
read_all f [] = nil
read_all f (p ∷ ps) = cons (f p) (read_all f ps)

read_object : (TypePtr → QualType) → Option TypeObject → QualType
unfolding read_all
read_object f none = null
read_object f (some (builtin_object k)) = builtin k
read_object f (some (pointer_object p m)) = pointer (f p) m
read_object f (some (reference_object p m)) = reference (f p) m
read_object f (some (array_object p n)) = array (f p) n
read_object f (some (function_object p ps)) = function (f p) (read_all f ps)

read : ℕ → AstContext → TypePtr → QualType
unfolding read_object
read n c none = null
read zero c (some i) = null
read (suc n) c (some i) = read_object (read n c) (get_elem? c.objects i)

mutual
  depth : QualType → ℕ
  depth null = 1
  depth (builtin k) = 1
  depth (pointer t m) = suc (depth t)
  depth (reference t m) = suc (depth t)
  depth (array t n) = suc (depth t)
  depth (function t ts) = suc (max (depth t) (depth_all ts))

  depth_all : QualTypes → ℕ
  depth_all nil = 0
  depth_all (cons t ts) = max (depth t) (depth_all ts)

mutual
  unfolding Denotes read read_object read_all depth

  read-Denotes :
      (n : ℕ) (c : AstContext) (t : QualType) (a : TypePtr)
      → depth t ≤ n
      → Denotes c a t
      → read n c a ≡ t
  read-Denotes zero c null a le e = ap (read zero c) e
  read-Denotes zero c (builtin k) a le h = absurd (omega arith)
  read-Denotes zero c (pointer t m) a le h = absurd (omega arith)
  read-Denotes zero c (reference t m) a le h = absurd (omega arith)
  read-Denotes zero c (array t n) a le h = absurd (omega arith)
  read-Denotes zero c (function t ts) a le h = absurd (omega arith)
  read-Denotes (suc n) c null a le e = ap (read (suc n) c) e
  read-Denotes (suc n) c (builtin k) a le (i, at, e) =
      ap (read (suc n) c) at ∙ ap (read_object (read n c)) e
  read-Denotes (suc n) c (pointer t m) a le (i, p, at, e, h) =
      ap (read (suc n) c) at
      ∙ ap (read_object (read n c)) e
      ∙ ap (λ u. pointer u m) (read-Denotes n c t p (omega arith) h)
  read-Denotes (suc n) c (reference t m) a le (i, p, at, e, h) =
      ap (read (suc n) c) at
      ∙ ap (read_object (read n c)) e
      ∙ ap (λ u. reference u m) (read-Denotes n c t p (omega arith) h)
  read-Denotes (suc n) c (array t k) a le (i, p, at, e, h) =
      ap (read (suc n) c) at
      ∙ ap (read_object (read n c)) e
      ∙ ap (λ u. array u k) (read-Denotes n c t p (omega arith) h)
  read-Denotes (suc n) c (function t ts) a le (i, p, ps, at, e, h, hs) =
      ap (read (suc n) c) at
      ∙ ap (read_object (read n c)) e
      ∙ ap (λ u. function u (read_all (read n c) ps)) (read-Denotes n c t p (omega arith) h)
      ∙ ap (function t) (read_all-DenoteAll n c ts ps (omega arith) hs)

  read_all-DenoteAll :
      (n : ℕ) (c : AstContext) (ts : QualTypes) (ps : List TypePtr)
      → depth_all ts ≤ n
      → DenoteAll c ps ts
      → read_all (read n c) ps ≡ ts
  read_all-DenoteAll n c nil ps le e = ap (read_all (read n c)) e
  read_all-DenoteAll n c (cons t ts) ps le (p, rest, e, h, hs) =
      ap (read_all (read n c)) e
      ∙ ap (λ u. cons u (read_all (read n c) rest)) (read-Denotes n c t p (omega arith) h)
      ∙ ap (cons t) (read_all-DenoteAll n c ts rest (omega arith) hs)

-- A pointer leads to one type only.
Denotes-type :
    (c : AstContext) (t t' : QualType) (a : TypePtr) → Denotes c a t → Denotes c a t' → t ≡ t'
Denotes-type c t t' a h h' =
    let n : ℕ = max (depth t) (depth t') in
    sym (read-Denotes n c t a (omega arith) h) ∙ read-Denotes n c t' a (omega arith) h'

-- After any run of requests to a new context, two pointers to types are equal exactly when the comparison
-- of the types as trees says so.
pub ptr_eq-type_eq :
    (rs : List Request) (t t' : QualType) (a b : TypePtr)
    → Denotes (serve_all rs new_context) a t
    → Denotes (serve_all rs new_context) b t'
    → (ptr_eq a b ≡ true) ↔ (type_eq t t' ≡ true)
ptr_eq-type_eq rs t t' a b h h' =
    let c : AstContext = serve_all rs new_context in
    let canonical = serve_all-IsCanonical rs new_context new_context-IsCanonical in
    (
      λ e.
          (type_eq_iff t t').1
            (Denotes-type c t t' a h (subst (λ p. Denotes c p t') (sym ((ptr_eq_iff a b).0 e)) h')),
      λ e. (ptr_eq_iff a b).1 (
          Denotes-address c canonical t a b h
            (subst (Denotes c b) (sym ((type_eq_iff t t').0 e)) h')),
    )
