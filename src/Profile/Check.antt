-- ===== src/Profile/Check.antt =====
-- Which profiles start on which provider.
use ai_auth.Common.{◌≡◌, ◌≢◌, ◌⊎◌, ◌↔◌, inl, inr, true, ok, arith}
use ai_auth.Profile.{Profile, regulated, check, Profile-discrete}
use ai_auth.Provider.{ProviderAttestation}

-- A deployment passes exactly when it is not `regulated`, or its module is validated.
pub check_iff :
    (profile : Profile) (a : ProviderAttestation)
    → (check profile a ≡ ok tt) ↔ ((profile ≢ regulated) ⊎ (a.fips ≡ true))
unfolding check
check_iff profile a = (
  λ h. elim (Profile-discrete profile regulated) [ yes p ↦ inr (ground arith) | no n ↦ inl n ],
  λ h. ground arith,
)
