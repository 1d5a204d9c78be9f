-- ===== src/Basic/IdentifierTable.antt =====
-- lib/Basic/IdentifierTable.cpp: one `IdentifierInfo` for each spelling, the keywords first.
-- The table lists its entries in the order of their insertion; the address of an entry is its place.
pub mod Interning
pub mod Keywords
use trsc.Common.{
  Option, none, some, List, [], ◌∷◌, ◌++◌, Bytes, codes, bytes_eq, if◌then◌else◌, length, String,
}
use trsc.Lex.Token.{
  TokenKind, kw_fn, kw_let, kw_mut, kw_const, kw_as, kw_if, kw_else, kw_return, kw_true, kw_false,
  kw_while, kw_for, kw_in, identifier, IdentifierInfo,
}

pub record IdentifierTable : Type 0 where
  pub infos : List IdentifierInfo

-- The probe of the hash map, by spelling.
unfoldable pub find_in : Bytes → List IdentifierInfo → Option IdentifierInfo
find_in s [] = none
find_in s (i ∷ is) = if bytes_eq i.name s then some i else find_in s is

-- `find`: never grows the table.
unfoldable pub find : IdentifierTable → Bytes → Option IdentifierInfo
unfolding find_in
find t s = find_in s t.infos

abbrev pub fresh : IdentifierTable → Bytes → TokenKind → IdentifierInfo
fresh t s k = record { addr = length t.infos; name = s; token_kind = k }

-- `insert`: `emplace` keeps an entry that is there.
unfoldable pub insert : IdentifierTable → Bytes → TokenKind → IdentifierInfo × IdentifierTable
insert t s k = elim (find t s) [
  | some i ↦ (i, t)
  | none ↦ (fresh t s k, record { infos = t.infos ++ fresh t s k ∷ [] })
]

-- `get`
unfoldable pub get : IdentifierTable → Bytes → IdentifierInfo × IdentifierTable
unfolding insert
get t s = elim (find t s) [ some i ↦ (i, t) | none ↦ insert t s identifier ]

abbrev pub empty : IdentifierTable
empty = record { infos = [] }

abbrev pub keywords : List (String × TokenKind)
keywords =
    ("fn", kw_fn)
    ∷ ("let", kw_let)
    ∷ ("mut", kw_mut)
    ∷ ("const", kw_const)
    ∷ ("as", kw_as)
    ∷ ("if", kw_if)
    ∷ ("else", kw_else)
    ∷ ("return", kw_return)
    ∷ ("true", kw_true)
    ∷ ("false", kw_false)
    ∷ ("while", kw_while)
    ∷ ("for", kw_for)
    ∷ ("in", kw_in)
    ∷ []

unfoldable pub insert_all : List (String × TokenKind) → IdentifierTable → IdentifierTable
insert_all [] t = t
insert_all ((s, k) ∷ r) t = insert_all r (insert t (codes s) k).1

-- The constructor of `IdentifierTable`.
unfoldable pub initial : IdentifierTable
unfolding insert insert_all find bytes_eq
initial = insert_all keywords empty

-- The table after a run of calls of `get`.
unfoldable pub get_all : IdentifierTable → List Bytes → IdentifierTable
get_all t [] = t
get_all t (s ∷ ss) = get_all (get t s).1 ss
