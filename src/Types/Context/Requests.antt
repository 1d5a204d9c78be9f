-- ===== src/Types/Context/Requests.antt =====
-- ASTContext.cpp: runs of requests for types, and the comparison of the pointers that they return.
use trsc.Common.{
  length, get_elem?, get_elem?-append, get_elem?-append_end, lt_of_get_elem?, ℕ, ◌≡◌, refl, ◌∙◌,
  inl, inr, Bool, some, List, [], ◌∷◌,
}
use trsc.Types.QualType.{
  QualType, QualTypes, null, builtin, pointer, reference, array, function, nil, cons,
}
use trsc.Types.Context.{
  TypePtr, TypeObject, AstContext, try_emplace, get_pointer_type, get_reference_type,
  get_array_type, get_function_type, pointer_object, reference_object, array_object,
  function_object,
}
use trsc.Types.Context.Denotation.{Denotes, DenoteAll}
use trsc.Types.Context.Uniqueness.{IsCanonical, try_emplace-cases, try_emplace-IsCanonical}

-- The calls of the methods that may make an object.
pub data Request : Type 0 where
  ask_pointer ask_reference : TypePtr → Bool → Request
  ask_array : TypePtr → ℕ → Request
  ask_function : TypePtr → List TypePtr → Request

unfoldable pub serve : Request → AstContext → TypePtr × AstContext
unfolding get_pointer_type get_reference_type get_array_type get_function_type
serve (ask_pointer p m) = get_pointer_type p m
serve (ask_reference p m) = get_reference_type p m
serve (ask_array p n) = get_array_type p n
serve (ask_function p ps) = get_function_type p ps

unfoldable pub serve_all : List Request → AstContext → AstContext
unfolding serve
serve_all [] c = c
serve_all (r ∷ rs) c = serve_all rs (serve r c).1

-- The type that a request asks for.
unfoldable pub Asks : AstContext → Request → QualType → Type 0
unfolding Denotes
Asks c (ask_pointer p m) u = (t : QualType) × (u ≡ pointer t m) × Denotes c p t
Asks c (ask_reference p m) u = (t : QualType) × (u ≡ reference t m) × Denotes c p t
Asks c (ask_array p n) u = (t : QualType) × (u ≡ array t n) × Denotes c p t
Asks c (ask_function p ps) u =
    (t : QualType) × (ts : QualTypes) × (u ≡ function t ts) × Denotes c p t × DenoteAll c ps ts

-- What denotes a type goes on to denote it when the context has grown.
module _ (c d : AstContext)
    (grown : (i : ℕ) (o : TypeObject)
      → get_elem? c.objects i ≡ some o
      → get_elem? d.objects i ≡ some o) where
  mutual
    unfolding Denotes

    Denotes-grown : (t : QualType) (a : TypePtr) → Denotes c a t → Denotes d a t
    Denotes-grown null a e = e
    Denotes-grown (builtin k) a (i, at, e) = (i, at, grown i _ e)
    Denotes-grown (pointer t m) a (i, p, at, e, h) = (i, p, at, grown i _ e, Denotes-grown t p h)
    Denotes-grown (reference t m) a (i, p, at, e, h) = (i, p, at, grown i _ e, Denotes-grown t p h)
    Denotes-grown (array t n) a (i, p, at, e, h) = (i, p, at, grown i _ e, Denotes-grown t p h)
    Denotes-grown (function t ts) a (i, p, ps, at, e, h, hs) =
        (i, p, ps, at, grown i _ e, Denotes-grown t p h, DenoteAll-grown ts ps hs)

    DenoteAll-grown : (ts : QualTypes) (ps : List TypePtr) → DenoteAll c ps ts → DenoteAll d ps ts
    DenoteAll-grown nil ps e = e
    DenoteAll-grown (cons t ts) ps (p, rest, e, h, hs) =
        (p, rest, e, Denotes-grown t p h, DenoteAll-grown ts rest hs)

try_emplace-grown :
    (k : TypeObject) (c : AstContext) (i : ℕ) (o : TypeObject)
    → get_elem? c.objects i ≡ some o
    → get_elem? (try_emplace k c).1.objects i ≡ some o
try_emplace-grown k c i o e = elim (try_emplace-cases k c) [
  | inl (n, there, same) ↦ rw same e
  | inr (missing, same) ↦
      rw same (get_elem?-append c.objects (k ∷ []) i (lt_of_get_elem? c.objects i e) ∙ e)
]

-- What is asked for lies at the address that is returned.
try_emplace-at :
    (k : TypeObject) (c : AstContext)
    → (i : ℕ) × ((try_emplace k c).0 ≡ some i) × (get_elem? (try_emplace k c).1.objects i ≡ some k)
try_emplace-at k c = elim (try_emplace-cases k c) [
  | inl (n, there, same) ↦ (n, rw same refl, rw same there)
  | inr (missing, same) ↦
      (length c.objects, rw same refl, rw same (get_elem?-append_end c.objects k))
]

-- The pointer that a request returns denotes what was asked for, in the context behind the request.
pub serve-Denotes :
    (c : AstContext) (r : Request) (u : QualType)
    → Asks c r u
    → Denotes (serve r c).1 (serve r c).0 u
unfolding serve Asks Denotes get_pointer_type get_reference_type get_array_type get_function_type
serve-Denotes c (ask_pointer p m) u (t, e, h) =
    let (i, at, there) = try_emplace-at (pointer_object p m) c in
    rw e ((i, p, at, there, Denotes-grown c _ (try_emplace-grown _ c) t p h))
serve-Denotes c (ask_reference p m) u (t, e, h) =
    let (i, at, there) = try_emplace-at (reference_object p m) c in
    rw e ((i, p, at, there, Denotes-grown c _ (try_emplace-grown _ c) t p h))
serve-Denotes c (ask_array p n) u (t, e, h) =
    let (i, at, there) = try_emplace-at (array_object p n) c in
    rw e ((i, p, at, there, Denotes-grown c _ (try_emplace-grown _ c) t p h))
serve-Denotes c (ask_function p ps) u (t, ts, e, h, hs) =
    let (i, at, there) = try_emplace-at (function_object p ps) c in
    rw e (
      (
        i,
        p,
        ps,
        at,
        there,
        Denotes-grown c _ (try_emplace-grown _ c) t p h,
        DenoteAll-grown c _ (try_emplace-grown _ c) ts ps hs,
      ))

-- What denotes a type before a request denotes it behind it.
pub serve-keeps :
    (c : AstContext) (r : Request) (t : QualType) (a : TypePtr)
    → Denotes c a t
    → Denotes (serve r c).1 a t
unfolding serve get_pointer_type get_reference_type get_array_type get_function_type
serve-keeps c (ask_pointer p m) t a h = Denotes-grown c _ (try_emplace-grown _ c) t a h
serve-keeps c (ask_reference p m) t a h = Denotes-grown c _ (try_emplace-grown _ c) t a h
serve-keeps c (ask_array p n) t a h = Denotes-grown c _ (try_emplace-grown _ c) t a h
serve-keeps c (ask_function p ps) t a h = Denotes-grown c _ (try_emplace-grown _ c) t a h

pub serve_all-IsCanonical :
    (rs : List Request) (c : AstContext) → IsCanonical c → IsCanonical (serve_all rs c)
unfolding serve_all serve get_pointer_type get_reference_type get_array_type get_function_type
serve_all-IsCanonical [] c h = h
serve_all-IsCanonical (ask_pointer p m ∷ rs) c h =
    serve_all-IsCanonical rs _ (try_emplace-IsCanonical _ c h)
serve_all-IsCanonical (ask_reference p m ∷ rs) c h =
    serve_all-IsCanonical rs _ (try_emplace-IsCanonical _ c h)
serve_all-IsCanonical (ask_array p n ∷ rs) c h =
    serve_all-IsCanonical rs _ (try_emplace-IsCanonical _ c h)
serve_all-IsCanonical (ask_function p ps ∷ rs) c h =
    serve_all-IsCanonical rs _ (try_emplace-IsCanonical _ c h)
