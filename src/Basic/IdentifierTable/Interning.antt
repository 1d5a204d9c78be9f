-- ===== src/Basic/IdentifierTable/Interning.antt =====
-- One address for each spelling, and it stays where it is.
use trsc.Common.{
  if◌then◌else◌, Bool-cases, Option-cases, get_elem?, get_elem?-concat, Bytes, codes, bytes_eq,
  bytes_eq_iff, bytes_eq_refl, ℕ, zero, suc, String, ◌≡◌, refl, ◌↔◌, ◌⊎◌, inl, inr, none, some,
  List, [], ◌∷◌, ◌++◌, arith,
}
use trsc.Basic.IdentifierTable.{
  IdentifierTable, find_in, find, fresh, insert, get, empty, keywords, insert_all, initial, get_all,
}
use trsc.Lex.Token.{TokenKind, IdentifierInfo, identifier}

pub find_in-append :
    (s : Bytes) (is : List IdentifierInfo) (j : IdentifierInfo)
    → find_in s (is ++ j ∷ [])
      ≡ elim (find_in s is) [ some i ↦ some i | none ↦ if bytes_eq j.name s then some j else none ]
unfolding find_in
find_in-append s [] j = refl
find_in-append s (i ∷ is) j = ground (arith, find_in-append s is j)

find_in-name :
    (s : Bytes) (is : List IdentifierInfo) (i : IdentifierInfo) → find_in s is ≡ some i → i.name ≡ s
unfolding find_in
find_in-name s [] i e = cc
find_in-name s (j ∷ is) i e = ground (arith, find_in-name s is i, bytes_eq_iff j.name s)

find_in-place :
    (s : Bytes) (is : List IdentifierInfo) (i : IdentifierInfo)
    → find_in s is ≡ some i
    → (j : ℕ) × (get_elem? is j ≡ some i)
unfolding find_in
find_in-place s [] i e = cc
find_in-place s (x ∷ is) i e = elim (Bool-cases (bytes_eq x.name s)) [
  | inl hit ↦ (zero, ground arith)
  | inr miss ↦ let (j, p) = find_in-place s is i (ground arith) in (suc j, p)
]

pub insert_cases :
    (t : IdentifierTable) (s : Bytes) (k : TokenKind)
    → ((i : IdentifierInfo) × (find t s ≡ some i) × (insert t s k ≡ (i, t)))
      ⊎ ((find t s ≡ none)
          × (insert t s k ≡ (fresh t s k, record { infos = t.infos ++ fresh t s k ∷ [] })))
unfolding insert
insert_cases t s k = elim (Option-cases (find t s)) [
  | inl e ↦ inr (e, rw (e, insert))
  | inr (i, e) ↦ inl (i, e, rw (e, insert))
]

pub get-insert : (t : IdentifierTable) (s : Bytes) → get t s ≡ insert t s identifier
unfolding get insert
get-insert t s = ground arith

find-fresh :
    (t : IdentifierTable) (s : Bytes) (k : TokenKind)
    → find t s ≡ none
    → find (record { infos = t.infos ++ fresh t s k ∷ [] }) s ≡ some (fresh t s k)
unfolding find
find-fresh t s k e = ground (arith, find_in-append s t.infos (fresh t s k), bytes_eq_refl s)

-- What `insert` hands out is what the table holds from then on.
pub find-insert :
    (t : IdentifierTable) (s : Bytes) (k : TokenKind)
    → find (insert t s k).1 s ≡ some (insert t s k).0
find-insert t s k = elim (insert_cases t s k) [
  | inl (i, e, p) ↦ rw p e
  | inr (e, p) ↦ rw p (find-fresh t s k e)
]

pub find-insert_keep :
    (t : IdentifierTable) (s s' : Bytes) (k : TokenKind) (i : IdentifierInfo)
    → find t s ≡ some i
    → find (insert t s' k).1 s ≡ some i
unfolding find
find-insert_keep t s s' k i h = elim (insert_cases t s' k) [
  | inl (j, e, p) ↦ rw p h
  | inr (e, p) ↦ rw p (ground (arith, find_in-append s t.infos (fresh t s' k)))
]

-- Each entry lies at its address.
pub IsInterned : IdentifierTable → Type 0
IsInterned t = (j : ℕ) (i : IdentifierInfo) → get_elem? t.infos j ≡ some i → i.addr ≡ j

pub insert-IsInterned :
    (t : IdentifierTable) (s : Bytes) (k : TokenKind) → IsInterned t → IsInterned (insert t s k).1
unfolding IsInterned
insert-IsInterned t s k h j i = elim (insert_cases t s k) [
  | inl (_, e, p) ↦ rw p (h j i)
  | inr (e, p) ↦ rw p (λ q. elim (get_elem?-concat t.infos (fresh t s k) i j q) [
    | inl old ↦ h j i old
    | inr (at, new) ↦ ground arith
  ])
]

insert_all-IsInterned :
    (ks : List (String × TokenKind)) (t : IdentifierTable)
    → IsInterned t
    → IsInterned (insert_all ks t)
unfolding insert_all
insert_all-IsInterned [] t h = h
insert_all-IsInterned ((s, k) ∷ ks) t h =
    insert_all-IsInterned ks _ (insert-IsInterned t (codes s) k h)

pub initial-IsInterned : IsInterned initial
unfolding initial
initial-IsInterned = insert_all-IsInterned keywords empty (unfold IsInterned in λ j i e. cc)

pub get_all-IsInterned :
    (t : IdentifierTable) (ss : List Bytes) → IsInterned t → IsInterned (get_all t ss)
unfolding get_all
get_all-IsInterned t [] h = h
get_all-IsInterned t (s ∷ ss) h =
    get_all-IsInterned (get t s).1 ss (rw (get-insert t s) (insert-IsInterned t s identifier h))

pub find-get_all :
    (t : IdentifierTable) (ss : List Bytes) (s : Bytes) (i : IdentifierInfo)
    → find t s ≡ some i
    → find (get_all t ss) s ≡ some i
unfolding get_all
find-get_all t [] s i h = h
find-get_all t (s' ∷ ss) s i h =
    find-get_all (get t s').1 ss s i (rw (get-insert t s') (find-insert_keep t s s' identifier i h))

pub eq_of_addr :
    (t : IdentifierTable) (s s' : Bytes) (i i' : IdentifierInfo)
    → IsInterned t
    → find t s ≡ some i
    → find t s' ≡ some i'
    → i.addr ≡ i'.addr
    → s ≡ s'
unfolding find IsInterned
eq_of_addr t s s' i i' h e e' a =
    let (j, p) = find_in-place s t.infos i e in
    let (j', p') = find_in-place s' t.infos i' e' in
    cc (a, h j i p, h j' i' p', p, p', find_in-name s t.infos i e, find_in-name s' t.infos i' e')

-- In a table whose entries lie at their addresses, whatever is interned between two calls of `get`,
-- the two addresses are equal exactly when the two spellings are.
pub get-addr_iff :
    (t : IdentifierTable) (s s' : Bytes) (between : List Bytes)
    → IsInterned t
    → ((get t s).0.addr ≡ (get (get_all (get t s).1 between) s').0.addr) ↔ (s ≡ s')
get-addr_iff t s s' between h = rw (get-insert t s, get-insert _ s') (forward, backward)
  where
    t1 : IdentifierTable
    t1 = (insert t s identifier).1

    t2 : IdentifierTable
    t2 = get_all t1 between

    kept : find (insert t2 s' identifier).1 s ≡ some (insert t s identifier).0
    kept =
        find-insert_keep t2 s s' identifier _
          (find-get_all t1 between s _ (find-insert t s identifier))

    forward : (insert t s identifier).0.addr ≡ (insert t2 s' identifier).0.addr → s ≡ s'
    forward =
        eq_of_addr (insert t2 s' identifier).1 s s' _ _
          (insert-IsInterned t2 s' identifier
            (get_all-IsInterned t1 between (insert-IsInterned t s identifier h)))
          kept (find-insert t2 s' identifier)

    backward : s ≡ s' → (insert t s identifier).0.addr ≡ (insert t2 s' identifier).0.addr
    backward e = cc (kept, find-insert t2 s' identifier)
