-- ===== src/Profile.antt =====
-- crypto/src/profile.rs: deployment profiles and the precondition checked before the server binds.
pub mod Parse
pub mod Check
use ai_auth.Common.{
  ℕ, ◌+◌, Bool, true, false, not, ◌&&◌, ◌||◌, List, [], ◌∷◌, ◌++◌, map, Result, ok, err, leb, ◌==◌,
  if◌then◌else◌, ite,
}
use ai_auth.Provider.{ProviderAttestation}
use ai_auth.Text.{Str, str, Str-discrete}
use mathlib.Core.List.{reverse}

pub data Profile : Type 0 where
  strict balanced legacy regulated : Profile

unfoldable pub Profile-discrete : Discrete Profile
Profile-discrete = hlevel

-- `char::is_whitespace`
unfoldable pub is_whitespace : ℕ → Bool
is_whitespace c =
    (leb 0x9 c && leb c 0xd)
    || c == 0x20
    || c == 0x85
    || c == 0xa0
    || c == 0x1680
    || (leb 0x2000 c && leb c 0x200a)
    || c == 0x2028
    || c == 0x2029
    || c == 0x202f
    || c == 0x205f
    || c == 0x3000

unfoldable pub trim_start : Str → Str
trim_start [] = []
trim_start (c ∷ s) = if is_whitespace c then trim_start s else c ∷ s

-- `str::trim`
unfoldable pub trim : Str → Str
trim s = reverse (trim_start (reverse (trim_start s)))

unfoldable pub ascii_lower : ℕ → ℕ
ascii_lower c = if leb b'A' c && leb c b'Z' then c + 32 else c

-- `str::to_ascii_lowercase`
unfoldable pub to_ascii_lowercase : Str → Str
to_ascii_lowercase = map ascii_lower

-- `Profile::as_str`
unfoldable pub as_str : Profile → Str
as_str strict = str "strict"
as_str balanced = str "balanced"
as_str legacy = str "legacy"
as_str regulated = str "regulated"

-- The message for a name of no profile. `debug` is `{:?}` of a str, which Rust's library writes.
unfoldable pub unknown_profile : (Str → Str) → Str → Str
unknown_profile debug other =
    str "unknown profile " ++ debug other ++ str ": expected strict, balanced, legacy, or regulated"

unfoldable pub parse_name : (Str → Str) → Str → Result Profile Str
parse_name debug name = ite (Str-discrete name (str "strict")) (ok strict) (
    ite (Str-discrete name (str "balanced")) (ok balanced) (
      ite (Str-discrete name (str "legacy")) (ok legacy) (
        ite (Str-discrete name (str "regulated")) (ok regulated)
          (err (unknown_profile debug name)))))

-- `Profile::parse`
unfoldable pub parse : (Str → Str) → Str → Result Profile Str
unfolding parse_name
parse debug s = parse_name debug (to_ascii_lowercase (trim s))

unfoldable pub default : Profile
default = strict

pub data StartupRefusal : Type 0 where
  provider_not_validated : (profile module_name : Str) → StartupRefusal

-- `Display` of a refusal.
unfoldable pub refusal_text : StartupRefusal → Str
refusal_text (provider_not_validated profile module_name) =
    str "profile "
    ++ profile
    ++ str " requires a FIPS 140-3 validated cryptographic module, but the configured provider is "
    ++ module_name
    ++ str ", which is not validated. Configure a validated backend or run a different profile."

unfoldable pub check : Profile → ProviderAttestation → Result (Unit {0}) StartupRefusal
check profile attestation =
    if ite (Profile-discrete profile regulated) true false && not attestation.fips
    then err (provider_not_validated (as_str profile) attestation.name)
    else ok tt
