-- ===== src/Print/Digits.antt =====
-- The digits that `std::to_string`, `operator<<` and `std::hex` write of a number without a sign.
use trsc.Common.{ltb, if◌then◌else◌, Bytes, ℕ, zero, suc, ◌+◌, ◌/◌, ◌%◌, true, false, [], ◌∷◌}

-- Hexadecimal digits are small letters.
unfoldable pub digit : ℕ → ℕ
digit d = if ltb d 10 then 48 + d else 87 + d

-- From the last digit to the first; each round needs one of the fuel, and a number has fewer digits
-- than its successor has units.
unfoldable pub digits_onto : ℕ → ℕ → ℕ → Bytes → Bytes
unfolding digit
digits_onto zero base n acc = acc
digits_onto (suc fuel) base n acc = elim (ltb n base) [
  | true ↦ digit n ∷ acc
  | false ↦ digits_onto fuel base (n / base) (digit (n % base) ∷ acc)
]

unfoldable pub decimal : ℕ → Bytes
unfolding digits_onto
decimal n = digits_onto (suc n) 10 n []

unfoldable pub hexadecimal : ℕ → Bytes
unfolding digits_onto
hexadecimal n = digits_onto (suc n) 16 n []
