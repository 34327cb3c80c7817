-- ===== src/Scenarios.antt =====
-- The scenarios of the crate's own unit tests, as functions into Bool, and what their assertions use.
pub mod Limits
pub mod Context
pub mod Profile
pub mod Webauthn
pub mod Secret
pub mod Software
pub mod Service
use ai_auth.Common.{Bool, true, false, ◌||◌, ◌&&◌, List, [], ◌∷◌, Result, ok, err, ◌==◌}
use ai_auth.Text.{Str}

-- `is_ok`
unfoldable pub is_ok : {A E : Type 0} → Result A E → Bool
is_ok (ok a) = true
is_ok (err e) = false

unfoldable pub starts_with : Str → Str → Bool
starts_with [] s = true
starts_with (p ∷ ps) [] = false
starts_with (p ∷ ps) (c ∷ s) = (p == c) && starts_with ps s

-- `str::contains`
unfoldable pub contains : Str → Str → Bool
unfolding starts_with
contains [] needle = starts_with needle []
contains (c ∷ s) needle = starts_with needle (c ∷ s) || contains s needle
