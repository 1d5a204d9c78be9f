-- ===== src/Sema/FormatString.antt =====
-- `countFormatArguments` of lib/Sema/TypeChecker.cpp: the placeholders of a format string.
pub mod Placeholders
use trsc.Common.{
  ◌==◌, if◌then◌else◌, length, Bytes, codes, bytes_eq, ℕ, zero, suc, ◌+◌, Bool, false, ◌||◌, Option,
  none, some, [], ◌∷◌,
}

abbrev pub open_brace : ℕ
open_brace = 123

abbrev pub close_brace : ℕ
close_brace = 125

-- `Format.find('}', I + 1)` in the bytes from there: those before the brace, and those behind it.
unfoldable pub split_close : Bytes → Option (Bytes × Bytes)
split_close [] = none
split_close (x ∷ xs) =
    if x == close_brace
    then some ([], xs)
    else elim (split_close xs) [ some (spec, rest) ↦ some (x ∷ spec, rest) | none ↦ none ]

unfoldable pub starts_with : ℕ → Bytes → Bool
starts_with b [] = false
starts_with b (x ∷ xs) = x == b

abbrev pub drop_one : Bytes → Bytes
drop_one [] = []
drop_one (x ∷ xs) = xs

-- The test of the specification, and the count.
unfoldable pub placeholder : ℕ → Option (Bytes × Bytes) → Option (ℕ × Bytes)
placeholder count none = none
placeholder count (some (spec, rest)) =
    if bytes_eq spec [] || bytes_eq spec (codes ":?") then some (count + 1, rest) else none

-- One round of the loop, at a byte and the bytes behind it: the count, and the bytes left, or `none` for
-- the early return of `false`.
unfoldable pub format_round : ℕ → ℕ → Bytes → Option (ℕ × Bytes)
unfolding split_close starts_with placeholder
format_round count x xs =
    if x == open_brace
    then if starts_with open_brace xs
      then some (count, drop_one xs)
      else placeholder count (split_close xs)
    else if x == close_brace
    then if starts_with close_brace xs then some (count, drop_one xs) else none
    else some (count, xs)

-- Every round takes a byte at least.
unfoldable pub count_loop : ℕ → ℕ → Bytes → Option ℕ
unfolding format_round
count_loop n count [] = some count
count_loop zero count (x ∷ xs) = none
count_loop (suc n) count (x ∷ xs) = elim (format_round count x xs) [
  | some (count', rest) ↦ count_loop n count' rest
  | none ↦ none
]

-- The count, or `none` where the function returns `false`.
unfoldable pub count_format_arguments : Bytes → Option ℕ
unfolding count_loop
count_format_arguments format = count_loop (length format) 0 format
