-- ===== src/Secret.antt =====
-- crypto/src/lib.rs: `SecretBuf`. `Zeroizing`, which wipes the bytes when they are dropped, is a
-- container of them here.
use ai_auth.Common.{ℕ, Bool, ◌++◌, length, is_empty}
use ai_auth.Text.{Str, Bytes, str}
use ai_auth.Text.Decimal.{decimal}

pub record SecretBuf : Type 0 where
  pub zeroizing : Bytes

unfoldable pub new : Bytes → SecretBuf
new bytes = record { zeroizing = bytes }

unfoldable pub expose : SecretBuf → Bytes
expose s = s.zeroizing

unfoldable pub len : SecretBuf → ℕ
len s = length s.zeroizing

unfoldable pub has_none : SecretBuf → Bool
has_none s = is_empty s.zeroizing

-- `Debug`
unfoldable pub debug : SecretBuf → Str
debug s = str "SecretBuf(len=" ++ decimal (length s.zeroizing) ++ str ", contents hidden)"
