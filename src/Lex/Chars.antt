-- ===== src/Lex/Chars.antt =====
-- The buffer that the lexer reads, `<cctype>` in the C locale, and the scanning loops.
use trsc.Common.{
  leb, ◌==◌, if◌then◌else◌, Bool-cases, length, get_or, Bytes, ℕ, zero, suc, ◌+◌, ◌-◌, ◌≤◌, ◌<◌,
  ◌≡◌, refl, ap, ◌⊎◌, inl, inr, Bool, true, false, ◌&&◌, ◌||◌, [], ◌∷◌, dec_lt, arith,
}

-- `SourceManager::Buffer`. A pointer is the offset from the start of the buffer. The vector holds
-- `size` bytes; a read at an offset of `size` or more is outside it and may give any byte.
pub record Buffer : Type 0 where
  pub byte : ℕ → ℕ
  pub size : ℕ

abbrev pub within : ℕ → ℕ → ℕ → Bool
within lo hi c = leb lo c && leb c hi

unfoldable pub is_space : ℕ → Bool
is_space c = c == 32 || within 9 13 c

unfoldable pub is_digit : ℕ → Bool
is_digit c = within b'0' b'9' c

-- The letters and `_`: the first group of cases of `Lexer::Lex`.
unfoldable pub is_identifier_start : ℕ → Bool
is_identifier_start c = within b'a' b'z' c || within b'A' b'Z' c || c == b'_'

-- `isalnum(c) || c == '_'`
unfoldable pub is_identifier_char : ℕ → Bool
unfolding is_identifier_start is_digit
is_identifier_char c = is_identifier_start c || is_digit c

-- The rounds of `while (CurPtr < BufferEnd && p(*CurPtr)) CurPtr++`, at most `n`.
pub skip_while : (ℕ → ℕ) → (ℕ → Bool) → ℕ → ℕ → ℕ
skip_while byte p zero cur = cur
skip_while byte p (suc n) cur =
    let next = skip_while byte p n (cur + 1) in if p (byte cur) then next else cur

-- The loop itself: before the end of the buffer there are `size - cur` rounds left.
unfoldable pub scan : Buffer → (ℕ → Bool) → ℕ → ℕ
unfolding skip_while
scan b p cur = skip_while b.byte p (b.size - cur) cur

-- The bytes of a string view.
unfoldable pub slice : (ℕ → ℕ) → ℕ → ℕ → Bytes
slice byte start zero = []
slice byte start (suc n) = byte start ∷ slice byte (start + 1) n

-- A buffer that holds the text, with a NUL after it.
abbrev pub buffer_of : Bytes → Buffer
buffer_of s = record { byte = λ i. get_or s i 0; size = length s }

skip_while-bounds :
    (byte : ℕ → ℕ) (p : ℕ → Bool) (n cur : ℕ)
    → (cur ≤ skip_while byte p n cur) × (skip_while byte p n cur ≤ cur + n)
unfolding skip_while
skip_while-bounds byte p zero cur = omega arith
skip_while-bounds byte p (suc n) cur = ground (arith, skip_while-bounds byte p n (cur + 1))

skip_while_stops :
    (byte : ℕ → ℕ) (p : ℕ → Bool) (n cur : ℕ)
    → (skip_while byte p n cur ≡ cur + n) ⊎ (p (byte (skip_while byte p n cur)) ≡ false)
unfolding skip_while
skip_while_stops byte p zero cur = inl (omega arith)
skip_while_stops byte p (suc n) cur = elim (Bool-cases (p (byte cur))) [
  | inl e ↦
      rw e
        (elim (skip_while_stops byte p n (cur + 1)) [ inl h ↦ inl (omega arith) | inr h ↦ inr h ])
  | inr e ↦ rw e (inr e)
]

skip_while_passed :
    (byte : ℕ → ℕ) (p : ℕ → Bool) (n cur i : ℕ)
    → cur ≤ i
    → i < skip_while byte p n cur
    → p (byte i) ≡ true
unfolding skip_while
skip_while_passed byte p zero cur i lo hi = absurd (omega arith)
skip_while_passed byte p (suc n) cur i lo hi = elim (Bool-cases (p (byte cur))) [
  | inl e ↦ elim (Bool-cases (i == cur)) [
    | inl here ↦ let at : i ≡ cur = ground arith in rw at e
    | inr later ↦ skip_while_passed byte p n (cur + 1) i (ground arith) (rw e at hi)
  ]
  | inr e ↦ absurd (let stopped : i < cur = (rw e at hi) in omega arith)
]

pub scan_bounds :
    (b : Buffer) (p : ℕ → Bool) (cur : ℕ)
    → (cur ≤ scan b p cur) × (cur ≤ b.size → scan b p cur ≤ b.size)
unfolding scan
scan_bounds b p cur = omega (arith, skip_while-bounds b.byte p (b.size - cur) cur)

-- A scan ends at the end of the buffer or at a byte that it does not skip, and skips only such bytes.
pub scan_maximal :
    (b : Buffer) (p : ℕ → Bool) (cur : ℕ)
    → cur ≤ b.size
    → (scan b p cur ≡ b.size) ⊎ (p (b.byte (scan b p cur)) ≡ false)
unfolding scan
scan_maximal b p cur h = elim (skip_while_stops b.byte p (b.size - cur) cur) [
  | inl e ↦ inl (omega arith)
  | inr e ↦ inr e
]

pub scan_passed :
    (b : Buffer) (p : ℕ → Bool) (cur i : ℕ) → cur ≤ i → i < scan b p cur → p (b.byte i) ≡ true
unfolding scan
scan_passed b p cur i = skip_while_passed b.byte p (b.size - cur) cur i

pub scan_end : (b : Buffer) (p : ℕ → Bool) (cur : ℕ) → b.size ≤ cur → scan b p cur ≡ cur
unfolding scan
scan_end b p cur h = let none_left : b.size - cur ≡ 0 = omega arith in rw none_left

pub length-slice : (byte : ℕ → ℕ) (start n : ℕ) → length (slice byte start n) ≡ n
unfolding slice
length-slice byte start zero = refl
length-slice byte start (suc n) = ap suc (length-slice byte (start + 1) n)

pub scan_moves :
    (b : Buffer) (p : ℕ → Bool) (cur : ℕ)
    → cur < b.size
    → p (b.byte cur) ≡ true
    → cur < scan b p cur
scan_moves b p cur h e = elim (Bool-cases (cur == scan b p cur)) [
  | inl same ↦
      let stuck : cur ≡ scan b p cur = ground arith in
      elim (scan_maximal b p cur (omega arith)) [
        | inl end ↦ absurd (omega arith)
        | inr no_more ↦ cc (e, rw (← stuck) at no_more)
      ]
  | inr moved ↦ ground (arith, scan_bounds b p cur)
]

-- The bytes from `cur` to `e`, that one left out, are all skipped.
abbrev pub Passes : Buffer → (ℕ → Bool) → ℕ → ℕ → Type 0
Passes b p cur e = (i : ℕ) → cur ≤ i → i < e → p (b.byte i) ≡ true

-- So the place where a scan stops is determined.
pub scan_unique :
    (b : Buffer) (p : ℕ → Bool) (cur e : ℕ)
    → cur ≤ e
    → e < b.size
    → Passes b p cur e
    → p (b.byte e) ≡ false
    → scan b p cur ≡ e
scan_unique b p cur e le inside passes stops =
    let (above, below) = scan_bounds b p cur in
    elim (dec_lt (scan b p cur) e) [
      | yes early ↦ elim (scan_maximal b p cur (omega arith)) [
        | inl end ↦ absurd (omega arith)
        | inr no_more ↦ cc (no_more, passes (scan b p cur) above early)
      ]
      | no not_early ↦ elim (dec_lt e (scan b p cur)) [
        | yes late ↦ cc (stops, scan_passed b p cur e le late)
        | no not_late ↦ omega arith
      ]
    ]
