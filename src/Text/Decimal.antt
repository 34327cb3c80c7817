-- ===== src/Text/Decimal.antt =====
-- `Display` of an unsigned integer of at most 64 bits.
use ai_auth.Common.{ℕ, suc, zero, ◌+◌, ◌/◌, ◌%◌, ◌++◌, [], ◌∷◌, ltb, if◌then◌else◌}
use ai_auth.Text.{Str}

-- The last `k` digits at most, without leading zeros.
unfoldable pub digits : ℕ → ℕ → Str
digits zero n = []
digits (suc k) n =
    let front = digits k (n / 10) in if ltb n 10 then (48 + n) ∷ [] else front ++ (48 + n % 10) ∷ []

-- A number below 2^64 has at most 20 digits.
unfoldable pub decimal : ℕ → Str
decimal n = digits 20 n
