-- ===== src/Tests/Locations.antt =====
-- Tests and examples of the locations in a text.
use trsc.Common.{Bytes, ◌%◌, ◌^◌, ◌≤◌, ◌≡◌, refl, [], ◌∷◌, arith}
use trsc.Basic.SourceManager.{
  line_starts, build_line_start_cache, load_buffer, on_line, lower_bound, step_back, line_index,
  get_location,
}
use trsc.Basic.SourceManager.Lines.{walk}
use trsc.Basic.SourceManager.Locations.{with_last, get_location-walk, get_location-bounds}

-- Three lines, the second of them empty.
abbrev lines : Bytes
lines = 97 ∷ 10 ∷ 10 ∷ 98 ∷ 99 ∷ []

located_test : (get_location (with_last lines 7) 4).0 ≡ (3, 2)
unfolding get_location with_last load_buffer build_line_start_cache line_starts line_index on_line
    lower_bound step_back
located_test = refl

get_location-walk_example :
    (get_location (with_last lines 1) 4).0
    ≡ ((walk lines 4 1 1).0 % 2 ^ 32, (walk lines 4 1 1).1 % 2 ^ 32)
get_location-walk_example = get_location-walk lines 1 4 (omega arith)

get_location-bounds_example :
    (1 ≤ (get_location (with_last lines 0) 4).0.0)
    × ((get_location (with_last lines 0) 4).0.0 ≤ 5)
    × (1 ≤ (get_location (with_last lines 0) 4).0.1)
    × ((get_location (with_last lines 0) 4).0.1 ≤ 5)
get_location-bounds_example = get_location-bounds lines 0 4 (omega arith) (omega arith)
