-- ===== src/Basic/SourceManager/Locations.antt =====
-- The location of a place in the buffer is the count of the line breaks before it and of the bytes
-- since the last of them.
use trsc.Common.{
  ltb, ◌==◌, Bool-cases, if_elim, and_split, length, get_or, Bytes, ℕ, zero, suc, ◌+◌, ◌-◌, ◌%◌,
  ◌^◌, ◌≤◌, ◌<◌, ◌≡◌, sym, ap, inl, inr, ◌&&◌, [], ◌∷◌, arith,
}
use trsc.Basic.SourceManager.{
  SourceManager, line_starts, build_line_start_cache, load_buffer, on_line, line_index,
  get_location,
}
use trsc.Basic.SourceManager.Lines.{
  walk, line_starts-Ascends, IsLine, on_line-IsLine, pair_path, walk-IsLine, search-IsLine,
}

-- A manager with some text, and with any index for the line of the last query.
unfoldable pub with_last : Bytes → ℕ → SourceManager
with_last buffer last = record (load_buffer buffer) { last_line_idx = last }

line_index-IsLine :
    (buffer : Bytes) (last ptr : ℕ)
    → IsLine (build_line_start_cache buffer) ptr (line_index (with_last buffer last) ptr)
unfolding line_index with_last load_buffer build_line_start_cache
line_index-IsLine buffer last ptr =
    let cache = 0 ∷ line_starts 0 buffer in
    if_elim (IsLine cache ptr) (ltb last (length cache) && on_line cache ptr last)
      (λ b.
        let (p, q) = and_split (ltb last (length cache)) (on_line cache ptr last) b in
        on_line-IsLine cache ptr last (ground (arith, p)) q)
      (λ _.
        if_elim (IsLine cache ptr)
          (ltb last (length cache)
            && (ltb (last + 1) (length cache) && on_line cache ptr (last + 1)))
          (λ b.
            let (_, p) =
              and_split (ltb last (length cache))
                (ltb (last + 1) (length cache) && on_line cache ptr (last + 1)) b in
            let (q, r) =
              and_split (ltb (last + 1) (length cache)) (on_line cache ptr (last + 1)) p in
            on_line-IsLine cache ptr (last + 1) (ground (arith, q)) r)
          (λ _.
            search-IsLine 0 (line_starts 0 buffer) ptr (line_starts-Ascends 0 buffer)
              (omega arith)))

-- Whatever the line of the last query, getLocation gives for a place in the loaded text, or at its end, the line
-- and the column that a count from the beginning gives, both modulo 2 ^ 32.
pub get_location-walk :
    (buffer : Bytes) (last ptr : ℕ)
    → ptr ≤ length buffer
    → (get_location (with_last buffer last) ptr).0
      ≡ ((walk buffer ptr 1 1).0 % 2 ^ 32, (walk buffer ptr 1 1).1 % 2 ^ 32)
unfolding get_location with_last load_buffer build_line_start_cache
get_location-walk buffer last ptr h =
    let at = line_index (with_last buffer last) ptr in
    let counted =
      walk-IsLine buffer 0 0 ptr 1 at ptr 1 (omega arith) h (omega arith) (omega arith)
        (line_index-IsLine buffer last ptr) in
    let line : at + 1 ≡ (walk buffer ptr 1 1).0 = omega (arith, ap (λ x. x.0) counted) in
    let column : ptr - get_or (build_line_start_cache buffer) at 0 + 1 ≡ (walk buffer ptr 1 1).1 =
      sym (ap (λ x. x.1) counted) in
    pair_path (ap (λ x. x % 2 ^ 32) line) (ap (λ x. x % 2 ^ 32) column)

walk-bounds :
    (xs : Bytes) (p line column : ℕ)
    → p ≤ length xs
    → 1 ≤ line
    → 1 ≤ column
    → (1 ≤ (walk xs p line column).0)
      × ((walk xs p line column).0 ≤ line + p)
      × (1 ≤ (walk xs p line column).1)
      × ((walk xs p line column).1 ≤ column + p)
unfolding walk
walk-bounds xs zero line column h l c = (l, omega arith, c, omega arith)
walk-bounds [] (suc p) line column h l c = absurd (omega (arith, h))
walk-bounds (x ∷ xs) (suc p) line column h l c = elim (Bool-cases (x == 10)) [
  | inl b ↦
      let (a1, a2, a3, a4) =
        walk-bounds xs p (line + 1) 1 (omega (arith, h)) (omega arith) (omega arith) in
      rw (b, walk) (a1, omega arith, a3, omega arith)
  | inr b ↦
      let (a1, a2, a3, a4) =
        walk-bounds xs p line (column + 1) (omega (arith, h)) l (omega arith) in
      rw (b, walk) (a1, omega arith, a3, omega arith)
]

small_mod : (a : ℕ) → a < 2 ^ 32 → a % 2 ^ 32 ≡ a
small_mod a h = omega arith

-- In a text of fewer than 2 ^ 32 - 1 bytes nothing wraps around: the line and the column of a place are at least 1 and at most
-- one more than the offset of the place.
pub get_location-bounds :
    (buffer : Bytes) (last ptr : ℕ)
    → length buffer + 1 < 2 ^ 32
    → ptr ≤ length buffer
    → (1 ≤ (get_location (with_last buffer last) ptr).0.0)
      × ((get_location (with_last buffer last) ptr).0.0 ≤ ptr + 1)
      × (1 ≤ (get_location (with_last buffer last) ptr).0.1)
      × ((get_location (with_last buffer last) ptr).0.1 ≤ ptr + 1)
get_location-bounds buffer last ptr small h =
    let (a1, a2, a3, a4) = walk-bounds buffer ptr 1 1 h (omega arith) (omega arith) in
    let line = small_mod (walk buffer ptr 1 1).0 (omega arith) in
    let column = small_mod (walk buffer ptr 1 1).1 (omega arith) in
    rw (get_location-walk buffer last ptr h, line, column) (a1, omega arith, a3, omega arith)
