-- ===== src/Sema/FormatString/Placeholders.antt =====
-- What `countFormatArguments` accepts: the format strings that a list of pieces is written as.
use trsc.Common.{
  ◌==◌, if◌then◌else◌, ==_iff, Bool-cases, Option-cases, some_pair, or_split, length, length-append,
  Bytes, codes, bytes_eq, bytes_eq_iff, ℕ, zero, suc, ◌+◌, ◌≤◌, ◌≡◌, refl, ap, ◌∙◌, ◌↔◌, inl, inr,
  Bool, true, false, ◌||◌, Option, none, some, List, [], ◌∷◌, ◌++◌, arith,
}
use trsc.Sema.FormatString.{
  open_brace, close_brace, split_close, starts_with, drop_one, placeholder, format_round,
  count_loop, count_format_arguments,
}

-- A byte of text, or a placeholder: `{}`, or `{:?}` for the debugging form.
pub data Piece : Type 0 where
  text : ℕ → Piece
  hole : Bool → Piece

unfoldable pub print_text : ℕ → Bytes
print_text x =
    if x == open_brace then codes "{{" else if x == close_brace then codes "}}" else x ∷ []

unfoldable pub print_piece : Piece → Bytes
unfolding print_text
print_piece (text x) = print_text x
print_piece (hole false) = codes "{}"
print_piece (hole true) = codes "{:?}"

unfoldable pub print : List Piece → Bytes
unfolding print_piece
print [] = []
print (p ∷ ps) = print_piece p ++ print ps

unfoldable pub hole_count : Piece → ℕ
hole_count (text x) = 0
hole_count (hole b) = 1

unfoldable pub holes : List Piece → ℕ
unfolding hole_count
holes [] = 0
holes (p ∷ ps) = hole_count p + holes ps

split_close-append :
    (xs spec rest : Bytes) → split_close xs ≡ some (spec, rest) → spec ++ close_brace ∷ rest ≡ xs
unfolding split_close
split_close-append [] spec rest e = absurd (cc e)
split_close-append (x ∷ xs) spec rest e = elim (Bool-cases (x == close_brace)) [
  | inl b ↦
      let found : ◌≡◌ {A = Option (Bytes × Bytes)} (some ([], xs)) (some (spec, rest)) =
        (rw (b, split_close) at e) in
      let (p, q) = some_pair found in
      let closed : x ≡ close_brace = (==_iff x close_brace).0 b in rw (← p, ← q, closed) refl
  | inr b ↦ elim (Option-cases (split_close xs)) [
    | inl n ↦ absurd (let no : none ≡ some (spec, rest) = (rw (b, n, split_close) at e) in cc no)
    | inr ((spec', rest'), y) ↦
        let found : ◌≡◌ {A = Option (Bytes × Bytes)} (some (x ∷ spec', rest')) (some (spec, rest)) =
          (rw (b, y, split_close) at e) in
        let (p, q) = some_pair found in
        let rest_same = split_close-append xs spec' rest' y in rw (← p, ← q) (ap (◌∷◌ x) rest_same)
  ]
]

placeholder_lem :
    (count count' : ℕ) (xs rest : Bytes)
    → placeholder count (split_close xs) ≡ some (count', rest)
    → (b : Bool) × (print_piece (hole b) ++ rest ≡ open_brace ∷ xs) × (count + 1 ≡ count')
unfolding placeholder print_piece
placeholder_lem count count' xs rest e = elim (Option-cases (split_close xs)) [
  | inl n ↦ absurd (let no : none ≡ some (count', rest) = (rw (n, placeholder) at e) in cc no)
  | inr ((spec, rest'), y) ↦
      let whole = split_close-append xs spec rest' y in
      elim (Bool-cases (bytes_eq spec [] || bytes_eq spec (codes ":?"))) [
        | inr b ↦
            absurd (let no : none ≡ some (count', rest) = (rw (y, b, placeholder) at e) in cc no)
        | inl b ↦
            let found : ◌≡◌ {A = Option (ℕ × Bytes)} (some (count + 1, rest'))
                (some (count', rest)) =
              (rw (y, b, placeholder) at e) in
            let (p, q) = some_pair found in
            elim (or_split (bytes_eq spec []) (bytes_eq spec (codes ":?")) b) [
              | inl empty ↦
                  let same : spec ≡ [] = (bytes_eq_iff spec []).0 empty in
                  (
                    false,
                    (let closed : close_brace ∷ rest ≡ xs = (rw (same, q) at whole) in
                        ap (◌∷◌ open_brace) closed),
                    p,
                  )
              | inr debug ↦
                  let same : spec ≡ codes ":?" = (bytes_eq_iff spec (codes ":?")).0 debug in
                  (
                    true,
                    (let closed : 58 ∷ 63 ∷ close_brace ∷ rest ≡ xs = (rw (same, q) at whole) in
                        ap (◌∷◌ open_brace) closed),
                    p,
                  )
            ]
      ]
]

starts_with_lem : (b : ℕ) (xs : Bytes) → starts_with b xs ≡ true → b ∷ drop_one xs ≡ xs
unfolding starts_with
starts_with_lem b [] e = absurd (cc e)
starts_with_lem b (x ∷ xs) e = let same : x ≡ b = (==_iff x b).0 e in rw same refl

-- A round takes one piece.
round-piece :
    (count count' x : ℕ) (xs rest : Bytes)
    → format_round count x xs ≡ some (count', rest)
    → (p : Piece) × (print_piece p ++ rest ≡ x ∷ xs) × (count + hole_count p ≡ count')
unfolding format_round print_piece print_text hole_count starts_with
round-piece count count' x xs rest e = elim (Bool-cases (x == open_brace)) [
  | inl b ↦
      let is_open : x ≡ open_brace = (==_iff x open_brace).0 b in
      elim (Bool-cases (starts_with open_brace xs)) [
        | inl doubled ↦
            let found : ◌≡◌ {A = Option (ℕ × Bytes)} (some (count, drop_one xs))
                (some (count', rest)) =
              (rw (b, doubled, format_round) at e) in
            let (p, q) = some_pair found in
            (
              text x,
              rw (is_open, ← q) (ap (◌∷◌ open_brace) (starts_with_lem open_brace xs doubled)),
              omega arith,
            )
        | inr single ↦
            let found : placeholder count (split_close xs) ≡ some (count', rest) =
              (rw (b, single, format_round) at e) in
            let (h, printed, counted) = placeholder_lem count count' xs rest found in
            (hole h, rw is_open printed, counted)
      ]
  | inr b ↦ elim (Bool-cases (x == close_brace)) [
    | inr other ↦
        let found : ◌≡◌ {A = Option (ℕ × Bytes)} (some (count, xs)) (some (count', rest)) =
          (rw (b, other, format_round) at e) in
        let (p, q) = some_pair found in (text x, rw (b, other, print_text, ← q) refl, omega arith)
    | inl c ↦ elim (Bool-cases (starts_with close_brace xs)) [
      | inl doubled ↦
          let is_close : x ≡ close_brace = (==_iff x close_brace).0 c in
          let found : ◌≡◌ {A = Option (ℕ × Bytes)} (some (count, drop_one xs))
              (some (count', rest)) =
            (rw (b, c, doubled, format_round) at e) in
          let (p, q) = some_pair found in
          (
            text x,
            rw (is_close, ← q) (ap (◌∷◌ close_brace) (starts_with_lem close_brace xs doubled)),
            omega arith,
          )
      | inr single ↦
          absurd
            (let no : none ≡ some (count', rest) = (rw (b, c, single, format_round) at e) in cc no)
    ]
  ]
]

loop-print :
    (n count result : ℕ) (format : Bytes)
    → count_loop n count format ≡ some result
    → (ps : List Piece) × (print ps ≡ format) × (count + holes ps ≡ result)
unfolding count_loop print holes
loop-print n count result [] e = ([], refl, ground (arith, e))
loop-print zero count result (x ∷ xs) e = absurd (cc e)
loop-print (suc n) count result (x ∷ xs) e = elim (Option-cases (format_round count x xs)) [
  | inl none_eq ↦ absurd (let no : none ≡ some result = (rw (none_eq, count_loop) at e) in cc no)
  | inr ((count', rest), y) ↦
      let go : count_loop n count' rest ≡ some result = (rw (y, count_loop) at e) in
      let (p, printed, counted) = round-piece count count' x xs rest y in
      let (ps, printed', counted') = loop-print n count' result rest go in
      (p ∷ ps, rw printed' printed, omega arith)
]

-- A round on what a piece is written as takes that piece.
piece-round :
    (p : Piece) (count : ℕ) (rest : Bytes)
    → (x : ℕ) × (xs : Bytes) × (print_piece p ++ rest ≡ x ∷ xs)
      × (format_round count x xs ≡ some (count + hole_count p, rest))
      × (1 ≤ length (print_piece p))
unfolding format_round print_piece print_text hole_count starts_with split_close placeholder
    bytes_eq
piece-round (hole false) count rest = (123, 125 ∷ rest, refl, refl, omega arith)
piece-round (hole true) count rest = (123, 58 ∷ 63 ∷ 125 ∷ rest, refl, refl, omega arith)
piece-round (text x) count rest = elim (Bool-cases (x == open_brace)) [
  | inl b ↦
      let is_open : x ≡ open_brace = (==_iff x open_brace).0 b in
      (123, 123 ∷ rest, rw is_open refl, ground arith, rw is_open (omega arith))
  | inr b ↦ elim (Bool-cases (x == close_brace)) [
    | inl c ↦
        let is_close : x ≡ close_brace = (==_iff x close_brace).0 c in
        (125, 125 ∷ rest, rw is_close refl, ground arith, rw is_close (omega arith))
    | inr c ↦ (
      x,
      rest,
      rw (b, c, print_text) refl,
      rw (b, c, format_round) (ground arith),
      rw (b, c, print_text) (omega arith),
    )
  ]
]

-- The loop counts the holes of what a list of pieces is written as.
print-loop :
    (ps : List Piece) (n count : ℕ)
    → length (print ps) ≤ n
    → count_loop n count (print ps) ≡ some (count + holes ps)
unfolding count_loop print holes
print-loop [] n count h = ground arith
print-loop (p ∷ ps) zero count h =
    let (x, xs, written, round, size) = piece-round p count (print ps) in
    absurd (omega (arith, length-append (print_piece p) (print ps)))
print-loop (p ∷ ps) (suc n) count h =
    let (x, xs, written, round, size) = piece-round p count (print ps) in
    let rest =
      print-loop ps n (count + hole_count p)
        (omega (arith, length-append (print_piece p) (print ps))) in
    rw (written, count_loop, round) (rest ∙ ap some (omega arith))

-- countFormatArguments accepts a format string and counts n placeholders just if the string is what
-- some list of pieces of text and placeholders is written as, with doubled braces in the text, and n of the pieces are placeholders.
pub count_format_arguments_iff :
    (format : Bytes) (n : ℕ)
    → (count_format_arguments format ≡ some n)
      ↔ ((ps : List Piece) × (print ps ≡ format) × (holes ps ≡ n))
unfolding count_format_arguments
count_format_arguments_iff format n = (
  λ e.
      let (ps, printed, counted) = loop-print (length format) 0 n format e in
      (ps, printed, omega arith),
  λ (ps, printed, counted).
      let run = print-loop ps (length (print ps)) 0 (omega arith) in
      rw (← printed) (run ∙ ap some (omega arith)),
)
