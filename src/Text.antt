-- ===== src/Text.antt =====
-- Rust's `str` as its code points, and its UTF-8 bytes (`as_bytes`, `len`).
pub mod Utf8
pub mod Decimal
pub mod Json
use Prim.Native.Char.{code}
use Prim.Native.String.{String}
use ai_auth.Common.{
  ℕ, ◌+◌, ◌/◌, ◌%◌, ◌<◌, ◌++◌, List, [], ◌∷◌, ltb, if◌then◌else◌, length, All, ℕ_discrete,
}

abbrev pub Str : Type 0
Str = List ℕ

abbrev pub Bytes : Type 0
Bytes = List ℕ

-- A literal of the source.
unfoldable pub str : String → Str
str String.[] = []
str (String.◌∷◌ c s) = code c ∷ str s

unfoldable pub Str-discrete : Discrete Str
Str-discrete = hlevel ℕ_discrete

-- Every `char` is below 0x11_0000.
abbrev pub IsStr : Str → Type 0
IsStr = All (λ c. c < 0x11_0000)

pub encode_utf8 : ℕ → Bytes
encode_utf8 c =
    if ltb c 0x80
    then c ∷ []
    else if ltb c 0x800
    then (0xc0 + c / 64) ∷ (0x80 + c % 64) ∷ []
    else if ltb c 0x1_0000
    then (0xe0 + c / 4096) ∷ (0x80 + c / 64 % 64) ∷ (0x80 + c % 64) ∷ []
    else (0xf0 + c / 262144) ∷ (0x80 + c / 4096 % 64) ∷ (0x80 + c / 64 % 64) ∷ (0x80 + c % 64) ∷ []

unfoldable pub as_bytes : Str → Bytes
unfolding encode_utf8
as_bytes [] = []
as_bytes (c ∷ s) = encode_utf8 c ++ as_bytes s

-- `str::len`, in bytes.
abbrev pub len : Str → ℕ
len s = length (as_bytes s)
