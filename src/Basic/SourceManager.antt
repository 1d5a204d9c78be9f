-- ===== src/Basic/SourceManager.antt =====
-- lib/Basic/SourceManager.cpp: the text of a file, and the line and column of a place in it. A pointer
-- into the buffer is its offset.
pub mod Lines
pub mod Locations
use trsc.Common.{
  ltb, leb, ◌==◌, if◌then◌else◌, length, get_or, Bytes, ℕ, suc, ◌+◌, ◌-◌, ◌%◌, ◌^◌, Bool, not, ◌&&◌,
  ◌||◌, List, [], ◌∷◌,
}

-- `LastLineIdx` is mutable, and part of the state.
pub record SourceManager : Type 0 where
  pub buffer : Bytes
  pub line_start_cache : List ℕ
  pub last_line_idx : ℕ

-- The rest of the loop of `buildLineStartCache`, from an offset on.
unfoldable pub line_starts : ℕ → Bytes → List ℕ
line_starts offset [] = []
line_starts offset (x ∷ xs) =
    let rest = line_starts (offset + 1) xs in if x == 10 then (offset + 1) ∷ rest else rest

unfoldable pub build_line_start_cache : Bytes → List ℕ
build_line_start_cache buffer = 0 ∷ line_starts 0 buffer

-- `loadBuffer`
unfoldable pub load_buffer : Bytes → SourceManager
load_buffer source = record {
  buffer = source;
  line_start_cache = build_line_start_cache source;
  last_line_idx = 0;
}

unfoldable pub on_line : List ℕ → ℕ → ℕ → Bool
on_line cache ptr idx =
    leb (get_or cache idx 0) ptr && (idx + 1 == length cache || ltb ptr (get_or cache (idx + 1) 0))

-- `std::lower_bound`: the place of the first entry that is not less, in a list that is sorted.
unfoldable pub lower_bound : List ℕ → ℕ → ℕ
lower_bound [] ptr = 0
lower_bound (x ∷ xs) ptr = if ltb x ptr then suc (lower_bound xs ptr) else 0

-- The step back to the line that begins before.
unfoldable pub step_back : List ℕ → ℕ → ℕ → ℕ
step_back cache ptr it =
    if not (it == 0) && (it == length cache || ltb ptr (get_or cache it 0)) then it - 1 else it

-- The index of the line that `getLocation` ends with: that of the last query, the one after it, or
-- the one that the search finds.
unfoldable pub line_index : SourceManager → ℕ → ℕ
unfolding on_line lower_bound step_back
line_index m ptr =
    let cache = m.line_start_cache in
    let last = m.last_line_idx in
    if ltb last (length cache) && on_line cache ptr last
    then last
    else if ltb last (length cache)
        && (ltb (last + 1) (length cache) && on_line cache ptr (last + 1))
    then last + 1
    else step_back cache ptr (lower_bound cache ptr)

-- `getLocation`: the line and the column, which are `unsigned`, and the state with the new `LastLineIdx`.
unfoldable pub get_location : SourceManager → ℕ → (ℕ × ℕ) × SourceManager
unfolding line_index
get_location m ptr =
    let idx = line_index m ptr in
    (
      ((idx + 1) % 2 ^ 32, (ptr - get_or m.line_start_cache idx 0 + 1) % 2 ^ 32),
      record m { last_line_idx = idx },
    )
