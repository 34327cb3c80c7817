-- ===== src/Profile/Parse.antt =====
-- Which texts name a profile.
use ai_auth.Common.{◌≡◌, ◌↔◌, ◌⊎◌, inl, inr, refl, ap, ◌∙◌, Result, ok, ite}
use ai_auth.Profile.{
  Profile, strict, balanced, legacy, regulated, trim, to_ascii_lowercase, as_str, parse_name, parse,
}
use ai_auth.Text.{Str, str, Str-discrete}

-- The first arm that answers is the one whose name was met.
arm :
    {P : Type 0} {q p : Profile} {rest : Result Profile Str} (d : Dec P)
    → ite d (ok q) rest ≡ ok p
    → (P × (q ≡ p)) ⊎ (rest ≡ ok p)
arm (yes e) h = inl (e, cc)
arm (no n) h = inr h

parse_name-as_str : (debug : Str → Str) (p : Profile) → parse_name debug (as_str p) ≡ ok p
unfolding parse_name as_str str Str-discrete ai_auth.Common.ℕ_discrete
parse_name-as_str debug strict = refl
parse_name-as_str debug balanced = refl
parse_name-as_str debug legacy = refl
parse_name-as_str debug regulated = refl

met : {n : Str} {q p : Profile} → (n ≡ as_str q) × (q ≡ p) → n ≡ as_str p
met (e, f) = e ∙ ap as_str f

parse_name-eq-ok :
    (debug : Str → Str) (n : Str) (p : Profile) → parse_name debug n ≡ ok p → n ≡ as_str p
unfolding parse_name as_str
parse_name-eq-ok debug n p h = elim (arm (Str-discrete n (str "strict")) h) [
  | inl a ↦ met {q = strict} a
  | inr h1 ↦ elim (arm (Str-discrete n (str "balanced")) h1) [
    | inl a ↦ met {q = balanced} a
    | inr h2 ↦ elim (arm (Str-discrete n (str "legacy")) h2) [
      | inl a ↦ met {q = legacy} a
      | inr h3 ↦ elim (arm (Str-discrete n (str "regulated")) h3) [
        | inl a ↦ met {q = regulated} a
        | inr h4 ↦ absurd (cc)
      ]
    ]
  ]
]

-- A text parses to a profile exactly when, trimmed and in lower case, it is that profile's name:
-- nothing else falls back to a profile.
pub parse_iff :
    (debug : Str → Str) (s : Str) (p : Profile)
    → (parse debug s ≡ ok p) ↔ (to_ascii_lowercase (trim s) ≡ as_str p)
unfolding parse
parse_iff debug s p = (
  parse_name-eq-ok debug (to_ascii_lowercase (trim s)) p,
  λ h. ap (parse_name debug) h ∙ parse_name-as_str debug p,
)
