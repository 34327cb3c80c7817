-- ===== src/Scenarios/Secret.antt =====
-- crypto/src/lib.rs: the tests of the secret buffer.
use ai_auth.Common.{Bool, true, false, not, ◌&&◌, ◌==◌, [], ◌∷◌, ite}
use ai_auth.Scenarios.{contains}
use ai_auth.Secret.{new, expose, len, has_none, debug}
use ai_auth.Text.{str, Str-discrete, as_bytes}

unfoldable pub expose_returns_contents : Bool
expose_returns_contents =
    let s = new (1 ∷ 2 ∷ 3 ∷ []) in
    ite (Str-discrete (expose s) (1 ∷ 2 ∷ 3 ∷ [])) true false && (len s == 3) && not (has_none s)

unfoldable pub debug_never_prints_contents : Bool
debug_never_prints_contents =
    let printed = debug (new (as_bytes (str "kek-material"))) in
    not (contains printed (str "kek")) && contains printed (str "hidden")
