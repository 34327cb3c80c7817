-- ===== src/Words.antt =====
-- Big-endian words: `u64::to_be_bytes`, `u32::from_be_bytes` and `u32::to_be_bytes`.
use ai_auth.Common.{ℕ, ◌+◌, ◌*◌, ◌/◌, ◌%◌, ◌^◌, ◌<◌, ◌≡◌, refl, [], ◌∷◌, arith, length}
use ai_auth.Text.{Bytes}

-- The cast to u64 is in the digits: what is above 2^64 falls away.
unfoldable pub u64_to_be_bytes : ℕ → Bytes
u64_to_be_bytes n =
    (n / 2 ^ 56 % 256)
    ∷ (n / 2 ^ 48 % 256)
    ∷ (n / 2 ^ 40 % 256)
    ∷ (n / 2 ^ 32 % 256)
    ∷ (n / 2 ^ 24 % 256)
    ∷ (n / 2 ^ 16 % 256)
    ∷ (n / 2 ^ 8 % 256)
    ∷ (n % 256)
    ∷ []

unfoldable pub u32_from_be_bytes : ℕ → ℕ → ℕ → ℕ → ℕ
u32_from_be_bytes a b c d = a * 2 ^ 24 + b * 2 ^ 16 + c * 2 ^ 8 + d

unfoldable pub u32_to_be_bytes : ℕ → Bytes
u32_to_be_bytes n = (n / 2 ^ 24 % 256) ∷ (n / 2 ^ 16 % 256) ∷ (n / 2 ^ 8 % 256) ∷ (n % 256) ∷ []

pub length-u64_to_be_bytes : (n : ℕ) → length (u64_to_be_bytes n) ≡ 8
unfolding u64_to_be_bytes
length-u64_to_be_bytes n = refl

u64_value : Bytes → ℕ
u64_value (a ∷ b ∷ c ∷ d ∷ e ∷ f ∷ g ∷ h ∷ []) =
    a * 2 ^ 56 + b * 2 ^ 48 + c * 2 ^ 40 + d * 2 ^ 32 + e * 2 ^ 24 + f * 2 ^ 16 + g * 2 ^ 8 + h
u64_value _ = 0

u64_value-to_be_bytes : (n : ℕ) → n < 2 ^ 64 → u64_value (u64_to_be_bytes n) ≡ n
unfolding u64_value u64_to_be_bytes
u64_value-to_be_bytes n h = omega arith

pub u64_to_be_bytes_injective :
    (m n : ℕ) → m < 2 ^ 64 → n < 2 ^ 64 → u64_to_be_bytes m ≡ u64_to_be_bytes n → m ≡ n
u64_to_be_bytes_injective m n hm hn e = cc (u64_value-to_be_bytes m hm, u64_value-to_be_bytes n hn)
