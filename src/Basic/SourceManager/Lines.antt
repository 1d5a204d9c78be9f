-- ===== src/Basic/SourceManager/Lines.antt =====
-- The line that a place in the buffer is on, in the cache of line starts, and the count of line breaks.
use trsc.Common.{
  ltb, leb, ◌==◌, if◌then◌else◌, ==_iff, Bool-cases, and_split, or_split, length, get_or, Bytes, ℕ,
  zero, suc, ◌+◌, ◌-◌, ◌≤◌, ◌<◌, ◌≡◌, refl, ◌∙◌, subst, ◌⊎◌, inl, inr, true, ◌||◌, List, [], ◌∷◌,
  arith,
}
use trsc.Basic.SourceManager.{line_starts, on_line, lower_bound, step_back}

-- The line and the column behind some bytes of a text, counted byte by byte.
unfoldable pub walk : Bytes → ℕ → ℕ → ℕ → ℕ × ℕ
walk xs zero line column = (line, column)
walk [] (suc p) line column = (line, column)
walk (x ∷ xs) (suc p) line column =
    if x == 10 then walk xs p (line + 1) 1 else walk xs p line (column + 1)

-- The entries of a list ascend from a first one.
unfoldable pub Ascends : ℕ → List ℕ → Type 0
Ascends s [] = Unit
Ascends s (x ∷ xs) = (s < x) × Ascends x xs

pub Ascends-weaken : (s t : ℕ) (xs : List ℕ) → s ≤ t → Ascends t xs → Ascends s xs
unfolding Ascends
Ascends-weaken s t [] h a = tt
Ascends-weaken s t (x ∷ xs) h (p, a) = (omega arith, a)

pub line_starts-Ascends : (offset : ℕ) (xs : Bytes) → Ascends offset (line_starts offset xs)
unfolding line_starts Ascends
line_starts-Ascends offset [] = tt
line_starts-Ascends offset (x ∷ xs) = elim (Bool-cases (x == 10)) [
  | inl b ↦ rw (b, line_starts) (omega arith, line_starts-Ascends (offset + 1) xs)
  | inr b ↦
      rw (b, line_starts)
        (Ascends-weaken offset (offset + 1) _ (omega arith) (line_starts-Ascends (offset + 1) xs))
]

-- Beyond its first entry, an ascending list has greater ones.
pub Ascends-get_or :
    (s : ℕ) (xs : List ℕ) (i : ℕ) → Ascends s xs → i < length xs → s < get_or xs i 0
unfolding Ascends
Ascends-get_or s [] i a h = absurd (omega (arith, h))
Ascends-get_or s (x ∷ xs) zero (p, a) h = p
Ascends-get_or s (x ∷ xs) (suc i) (p, a) h =
    let q = Ascends-get_or x xs i a (omega (arith, h)) in omega arith

-- The index of a line that has the place.
pub record IsLine (cache : List ℕ) (ptr idx : ℕ) : Type 0 where
  pub idx_lt : idx < length cache
  pub starts : get_or cache idx 0 ≤ ptr
  pub ends : (suc idx ≡ length cache) ⊎ (ptr < get_or cache (suc idx) 0)

pub on_line-IsLine :
    (cache : List ℕ) (ptr idx : ℕ)
    → idx < length cache
    → on_line cache ptr idx ≡ true
    → IsLine cache ptr idx
unfolding on_line
on_line-IsLine cache ptr idx lt h =
    let (p, q) =
      and_split (leb (get_or cache idx 0) ptr)
        (idx + 1 == length cache || ltb ptr (get_or cache (idx + 1) 0)) h in
    record {
      idx_lt = lt;
      starts = ground (arith, p);
      ends = elim (or_split (idx + 1 == length cache) (ltb ptr (get_or cache (idx + 1) 0)) q) [
        | inl e ↦ inl (let at = (==_iff (idx + 1) (length cache)).0 e in omega arith)
        | inr l ↦
            let below : ptr < get_or cache (idx + 1) 0 = ground (arith, l) in
            let next : idx + 1 ≡ suc idx = omega arith in
            inr (subst (λ i. ptr < get_or cache i 0) next below)
      ];
    }

IsLine-tail :
    (s : ℕ) (xs : List ℕ) (ptr idx : ℕ) → IsLine (s ∷ xs) ptr (suc idx) → IsLine xs ptr idx
IsLine-tail s xs ptr idx l = record {
  idx_lt = let lt = l.idx_lt in omega arith;
  starts = l.starts;
  ends = elim l.ends [ inl e ↦ inl (omega arith) | inr lt ↦ inr lt ];
}

IsLine-cons :
    (s : ℕ) (xs : List ℕ) (ptr idx : ℕ) → IsLine xs ptr idx → IsLine (s ∷ xs) ptr (suc idx)
IsLine-cons s xs ptr idx l = record {
  idx_lt = let lt = l.idx_lt in omega arith;
  starts = l.starts;
  ends = elim l.ends [ inl e ↦ inl (omega arith) | inr lt ↦ inr lt ];
}

pub pair_path : {a b c d : ℕ} → a ≡ b → c ≡ d → ◌≡◌ {A = ℕ × ℕ} (a, c) (b, d)
pair_path p q = cc (p, q)

-- Behind a line break, the place is on a later line.
next_line :
    (x : ℕ) (xs : Bytes) (s offset p line idx ptr : ℕ)
    → s ≤ offset
    → p ≤ length xs
    → ptr ≡ offset + suc p
    → IsLine (s ∷ (offset + 1) ∷ line_starts (offset + 1) xs) ptr idx
    → ((j line' : ℕ)
        → IsLine ((offset + 1) ∷ line_starts (offset + 1) xs) ptr j
        → walk xs p line' 1
          ≡ (line' + j, ptr - get_or ((offset + 1) ∷ line_starts (offset + 1) xs) j 0 + 1))
    → walk xs p (line + 1) 1
      ≡ (line + idx, ptr - get_or (s ∷ (offset + 1) ∷ line_starts (offset + 1) xs) idx 0 + 1)
next_line x xs s offset p line zero ptr h k e l rest =
    absurd (elim l.ends [ inl q ↦ omega arith | inr q ↦ omega arith ])
next_line x xs s offset p line (suc j) ptr h k e l rest =
    rest j (line + 1) (IsLine-tail s _ ptr j l) ∙ pair_path (omega arith) refl

-- A line that has the place gives the location that is counted.
pub walk-IsLine :
    (xs : Bytes) (s offset p line idx ptr column : ℕ)
    → s ≤ offset
    → p ≤ length xs
    → ptr ≡ offset + p
    → column ≡ offset - s + 1
    → IsLine (s ∷ line_starts offset xs) ptr idx
    → walk xs p line column ≡ (line + idx, ptr - get_or (s ∷ line_starts offset xs) idx 0 + 1)
unfolding walk line_starts
walk-IsLine xs s offset zero line zero ptr column h k e c l = pair_path (omega arith) (omega arith)
walk-IsLine xs s offset zero line (suc idx) ptr column h k e c l =
    let lt = l.idx_lt in
    let up =
      Ascends-get_or offset (line_starts offset xs) idx (line_starts-Ascends offset xs)
        (omega arith) in
    let q = l.starts in absurd (omega arith)
walk-IsLine [] s offset (suc p) line idx ptr column h k e c l = absurd (omega (arith, k))
walk-IsLine (x ∷ xs) s offset (suc p) line idx ptr column h k e c l = elim (Bool-cases (x == 10)) [
  | inr b ↦
      let l' : IsLine (s ∷ line_starts (offset + 1) xs) ptr idx = (rw (b, line_starts) at l) in
      rw (b, line_starts)
        (walk-IsLine xs s (offset + 1) p line idx ptr (column + 1) (omega arith) (omega arith)
          (omega arith) (omega arith) l')
  | inl b ↦
      let l' : IsLine (s ∷ (offset + 1) ∷ line_starts (offset + 1) xs) ptr idx =
        (rw (b, line_starts) at l) in
      rw (b, line_starts)
        (next_line x xs s offset p line idx ptr h (omega arith) e l' (λ j line' l''.
          walk-IsLine xs (offset + 1) (offset + 1) p line' j ptr 1 (omega arith) (omega arith)
            (omega arith) (omega arith) l''))
]

-- The search finds a line that has the place.
step_back-suc :
    (s x : ℕ) (xs : List ℕ) (ptr k : ℕ)
    → x ≤ ptr
    → step_back (s ∷ x ∷ xs) ptr (suc k) ≡ suc (step_back (x ∷ xs) ptr k)
unfolding step_back
step_back-suc s x xs ptr zero h = ground arith
step_back-suc s x xs ptr (suc k) h = ground arith

pub search-IsLine :
    (s : ℕ) (xs : List ℕ) (ptr : ℕ)
    → Ascends s xs
    → s ≤ ptr
    → IsLine (s ∷ xs) ptr (step_back (s ∷ xs) ptr (lower_bound (s ∷ xs) ptr))
unfolding Ascends lower_bound step_back
search-IsLine s [] ptr a h =
    let here : IsLine (s ∷ []) ptr 0 = record {
      idx_lt = omega arith;
      starts = h;
      ends = inl (omega arith);
    } in
    (let at : 0 ≡ step_back (s ∷ []) ptr (lower_bound (s ∷ []) ptr) = (ground arith) in
      subst (IsLine (s ∷ []) ptr) at here)
search-IsLine s (x ∷ xs) ptr (p, a) h = elim (Bool-cases (ltb s ptr)) [
  | inr b ↦
      let here : IsLine (s ∷ x ∷ xs) ptr 0 = record {
        idx_lt = omega arith;
        starts = h;
        ends = inr (ground (arith, b));
      } in
      rw (b, lower_bound, step_back) here
  | inl b ↦ elim (Bool-cases (leb x ptr)) [
    | inl c ↦
        let le : x ≤ ptr = ground (arith, c) in
        rw (b, lower_bound)
          (rw (step_back-suc s x xs ptr (lower_bound (x ∷ xs) ptr) le)
            (IsLine-cons s (x ∷ xs) ptr _ (search-IsLine x xs ptr a le)))
    | inr c ↦
        let here : IsLine (s ∷ x ∷ xs) ptr 0 = record {
          idx_lt = omega arith;
          starts = h;
          ends = inr (ground (arith, c));
        } in
        (let at : 0 ≡ step_back (s ∷ x ∷ xs) ptr (lower_bound (s ∷ x ∷ xs) ptr) =
            (ground (arith, b, c)) in
          subst (IsLine (s ∷ x ∷ xs) ptr) at here)
  ]
]
