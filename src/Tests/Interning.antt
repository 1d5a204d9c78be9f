-- ===== src/Tests/Interning.antt =====
-- Tests and examples of the context that owns the types.
use trsc.Common.{◌≡◌, refl, ◌↔◌, true, some, List, [], ◌∷◌}
use trsc.Types.QualType.{QualType, i32, builtin, pointer, type_eq}
use trsc.Types.Context.{ptr_eq, new_context}
use trsc.Types.Context.Denotation.{Denotes}
use trsc.Types.Context.Requests.{Request, serve, serve_all, Asks, serve-Denotes, ask_pointer}
use trsc.Types.Context.Addresses.{ptr_eq-type_eq}

-- The address of `i32` is its place among the builtin types. The pointer to it is asked for twice.
abbrev requests : List Request
requests = ask_pointer (some 8) true ∷ ask_pointer (some 8) true ∷ []

abbrev pointer_to_i32 : QualType
pointer_to_i32 = pointer (builtin i32) true

i32-Denotes : Denotes new_context (some 8) (builtin i32)
unfolding Denotes new_context
i32-Denotes = (8, refl, refl)

pointer-Denotes : Denotes (serve_all requests new_context) (some 18) pointer_to_i32
unfolding Denotes serve_all new_context
pointer-Denotes = (18, some 8, refl, refl, (8, refl, refl))

ptr_eq-type_eq_example :
    (ptr_eq (some 18) (some 18) ≡ true) ↔ (type_eq pointer_to_i32 pointer_to_i32 ≡ true)
ptr_eq-type_eq_example =
    ptr_eq-type_eq requests pointer_to_i32 pointer_to_i32 (some 18) (some 18) pointer-Denotes
      pointer-Denotes

serve-Denotes_example :
    Denotes
      (serve (ask_pointer (some 8) true) new_context).1
      (serve (ask_pointer (some 8) true) new_context).0
      pointer_to_i32
unfolding Asks
serve-Denotes_example =
    serve-Denotes new_context (ask_pointer (some 8) true) pointer_to_i32
      (builtin i32, refl, i32-Denotes)
