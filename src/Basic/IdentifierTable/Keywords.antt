-- ===== src/Basic/IdentifierTable/Keywords.antt =====
-- The token kind that comes with an entry is that of the keyword it spells.
use trsc.Common.{
  if◌then◌else◌, Bytes, codes, bytes_eq, bytes_eq_iff, ◌≡◌, refl, inl, inr, none, some, List, [],
  ◌∷◌, map, arith,
}
use trsc.Basic.IdentifierTable.{
  IdentifierTable, find_in, find, fresh, insert, get, initial, get_all,
}
use trsc.Basic.IdentifierTable.Interning.{find_in-append, insert_cases, get-insert, find-insert}
use trsc.Lex.Token.{
  TokenKind, get_token_string, IdentifierInfo, kw_fn, kw_let, kw_mut, kw_const, kw_as, kw_if,
  kw_else, kw_return, kw_true, kw_false, kw_while, kw_for, kw_in, identifier,
}

-- The first of the kinds that is spelled `s`.
unfoldable pub spelled : List TokenKind → Bytes → TokenKind
spelled [] s = identifier
spelled (k ∷ ks) s = if bytes_eq (codes (get_token_string k)) s then k else spelled ks s

abbrev pub keyword_kinds : List TokenKind
keyword_kinds =
    kw_fn ∷ kw_let ∷ kw_mut ∷ kw_const ∷ kw_as ∷ kw_if ∷ kw_else ∷ kw_return ∷ kw_true ∷ kw_false
    ∷ kw_while ∷ kw_for ∷ kw_in ∷ []

abbrev pub keyword_of : Bytes → TokenKind
keyword_of = spelled keyword_kinds

-- Every entry has the kind of its spelling, and no keyword is missing.
abbrev pub ClassifiedAt : IdentifierTable → Bytes → Type 0
ClassifiedAt t s = elim (find t s) [ some i ↦ i.token_kind | none ↦ identifier ] ≡ keyword_of s

abbrev pub IsClassified : IdentifierTable → Type 0
IsClassified t = (s : Bytes) → ClassifiedAt t s

abbrev Spells : List IdentifierInfo → Type 0
Spells [] = Unit
Spells (i ∷ is) = (i.name ≡ codes (get_token_string i.token_kind)) × Spells is

find_in-spelled :
    (s : Bytes) (is : List IdentifierInfo)
    → Spells is
    → elim (find_in s is) [ some i ↦ i.token_kind | none ↦ identifier ]
      ≡ spelled (map (λ i. i.token_kind) is) s
unfolding find_in spelled
find_in-spelled s [] h = refl
find_in-spelled s (i ∷ is) h = ground (arith, find_in-spelled s is h.1)

initial-Spells : Spells initial.infos
unfolding initial get_token_string
initial-Spells = (
  refl,
  (
    refl,
    (refl, (refl, (refl, (refl, (refl, (refl, (refl, (refl, (refl, (refl, (refl, tt))))))))))),
  ),
)

initial-keywords : map (λ (i : IdentifierInfo). i.token_kind) initial.infos ≡ keyword_kinds
unfolding initial
initial-keywords = refl

pub initial-IsClassified : IsClassified initial
unfolding find
initial-IsClassified s = rw initial-keywords at (find_in-spelled s initial.infos initial-Spells)

insert-IsClassified :
    (t : IdentifierTable) (s : Bytes) → IsClassified t → IsClassified (insert t s identifier).1
unfolding find
insert-IsClassified t s h s' = elim (insert_cases t s identifier) [
  | inl (i, e, p) ↦ rw p (h s')
  | inr (e, p) ↦ rw p (
      ground
        (arith, h s, h s', find_in-append s' t.infos (fresh t s identifier), bytes_eq_iff s s'))
]

pub get-IsClassified : (t : IdentifierTable) (s : Bytes) → IsClassified t → IsClassified (get t s).1
get-IsClassified t s h = rw (get-insert t s) (insert-IsClassified t s h)

get_all-IsClassified :
    (t : IdentifierTable) (ss : List Bytes) → IsClassified t → IsClassified (get_all t ss)
unfolding get_all
get_all-IsClassified t [] h = h
get_all-IsClassified t (s ∷ ss) h = get_all-IsClassified (get t s).1 ss (get-IsClassified t s h)

pub get-keyword_of :
    (t : IdentifierTable) (s : Bytes) → IsClassified t → (get t s).0.token_kind ≡ keyword_of s
get-keyword_of t s h =
    let after = insert-IsClassified t s h s in
    rw (get-insert t s) (rw (find-insert t s identifier) at after)

-- After any calls of `get` on a new table, the entry for a spelling has the kind of the keyword with that spelling
-- in `getTokenString`, and `IDENTIFIER` if there is none.
pub get-keyword :
    (ss : List Bytes) (s : Bytes) → (get (get_all initial ss) s).0.token_kind ≡ keyword_of s
get-keyword ss s =
    get-keyword_of (get_all initial ss) s (get_all-IsClassified initial ss initial-IsClassified)
