-- ===== src/Tests/Budgets.antt =====
-- The gate and the limiter on concrete inputs.
use ai_auth.Common.{
  ◌++◌, ℕ, ◌+◌, ◌-◌, ◌*◌, ◌≤◌, ◌≡◌, ◌≢◌, ◌↔◌, ◌⊎◌, inl, inr, refl, sym, ap, get_or, Bool, true,
  false, List, [], ◌∷◌, none, some, ok, err, length, leb, min, arith,
}
use ai_auth.Context.{validate, mismatch_message}
use ai_auth.Context.Gate.{
  AdmitsRequest, Mismatches, IsInvalidArgument, validate_iff, validate-refusal,
}
use ai_auth.HashMap.{lookup, IsMap}
use ai_auth.Limits.{
  Key, Key-discrete, Bucket, RateLimiter, new, take_token, or_insert, allow, evict_least_recent,
}
use ai_auth.Limits.Bound.{new-IsWellFormed}
use ai_auth.Limits.Ceiling.{granted-le_ceiling}
use ai_auth.Limits.Evict.{evict_least_recent-lru}
use ai_auth.Limits.Float.{nanos, nanos-IsExact, nano}
use ai_auth.Limits.Isolation.{lookup-allow_or}
use ai_auth.Limits.Refill.{price, take_token_lem, take_token_rewind}
use ai_auth.Limits.Trace.{Call, granted}
use ai_auth.Proto.{RequestContext, permission_denied}
use ai_auth.Proto.Purpose
use ai_auth.Tests.Fixtures.{in_order, in_order-perm}
use ai_auth.Text.{Str, str, Str-discrete}

abbrev ctx : RequestContext
ctx = record { tenant_id = str "a"; subject_id = []; purpose = 4; request_id = str "r" }

validate_iff_example :
    (validate (some ctx) Purpose.blind_index false ≡ ok tt)
    ↔ AdmitsRequest (some ctx) Purpose.blind_index false
validate_iff_example = validate_iff (some ctx) Purpose.blind_index false (λ h. cc)

validate-refusal_example :
    (Mismatches ctx Purpose.passkey_login false
      × (permission_denied (mismatch_message Purpose.blind_index)
          ≡ permission_denied (
              str "purpose "
              ++ Purpose.debug (Purpose.from_i32 4)
              ++ str " does not match this operation (T9)")))
    ⊎ ((¬ Mismatches ctx Purpose.passkey_login false)
        × IsInvalidArgument (permission_denied (mismatch_message Purpose.blind_index)))
unfolding validate str Purpose.from_i32 Purpose.Purpose-discrete
validate-refusal_example =
    validate-refusal ctx Purpose.passkey_login false
      (permission_denied (mismatch_message Purpose.blind_index)) refl

abbrev limiter : RateLimiter nanos
limiter = new nanos 2 (1 * nano)

-- A bucket of half a token, and an empty one.
abbrev half : Bucket nanos
half = record { tokens = 500_000_000; last = 7 }

abbrev empty : Bucket nanos
empty = record { tokens = 0; last = 2_000_000_000 }

abbrev key_a : Key
key_a = (str "a", str "o")

abbrev key_b : Key
key_b = (str "b", str "o")

b-ne-a : str "b" ≢ str "a"
unfolding str
b-ne-a h = omega (arith, ap (λ (l : Str). get_or l 0 0) h)

key_a-ne-key_b : key_a ≢ key_b
key_a-ne-key_b h = b-ne-a (sym (ap (λ (k : Key). k.0) h))

lookup-allow_or_example :
    (lookup Key-discrete key_b (allow nanos in_order limiter 5 (str "a") (str "o")).0.buckets
      ≡ none)
    ⊎ (lookup Key-discrete key_b (allow nanos in_order limiter 5 (str "a") (str "o")).0.buckets
        ≡ lookup Key-discrete key_b limiter.buckets)
lookup-allow_or_example =
    lookup-allow_or nanos in_order in_order-perm limiter 5 (str "a") (str "o") key_b
      (new-IsWellFormed nanos 2 (1 * nano)) key_a-ne-key_b

abbrev calls : List Call
calls =
    record { now = 1; tenant_id = str "a"; op = str "o" }
    ∷ record { now = 3; tenant_id = str "b"; op = str "o" }
    ∷ []

granted-le_ceiling_example :
    granted nanos in_order (str "o") limiter calls * nano ≤ 50 * 2 * nano + (4 - 1) * (50 * 1)
granted-le_ceiling_example =
    granted-le_ceiling nanos-IsExact in_order (str "o") 2 1 1 4 calls
      (omega arith, (omega arith, omega arith))

take_token_lem_example :
    let balance = min (500_000_000 + (9 - 7) * 250_000_000) (2 * nano) in
    let (b', allowed) = take_token nanos half 9 (2 * nano) (250_000_000 * nano) in
    (allowed ≡ leb nano balance) × (b'.tokens + price allowed ≡ balance) × (b'.last ≡ 9)
unfolding nanos-IsExact
take_token_lem_example = take_token_lem nanos-IsExact half 9 250_000_000 (2 * nano)

take_token_rewind_example :
    ((take_token nanos empty 2_000_000_000 (2 * nano) (1 * nano)).1 ≡ false)
    × ((take_token nanos
          (take_token nanos empty (2_000_000_000 - 1_000_000_000) (2 * nano) (1 * nano)).0
          2_000_000_000
          (2 * nano)
          (1 * nano)).1
        ≡ true)
unfolding nanos-IsExact
take_token_rewind_example =
    take_token_rewind nanos-IsExact empty 1_000_000_000 1 (2 * nano) refl (omega arith)
      (omega arith) (omega arith)

abbrev older : Bucket nanos
older = record { tokens = 0; last = 3 }

abbrev newer : Bucket nanos
newer = record { tokens = 0; last = 8 }

abbrev pair : List (Key × Bucket nanos)
pair = (key_a, older) ∷ (key_b, newer) ∷ []

pair-IsMap : IsMap Key-discrete pair
unfolding lookup Key-discrete str Str-discrete ai_auth.Common.ℕ_discrete
pair-IsMap = (refl, (refl, tt))

evict_least_recent-lru_example : 3 ≤ 8
unfolding evict_least_recent ai_auth.Limits.least_recent ai_auth.Limits.by_last_use
    ai_auth.HashMap.remove_all ai_auth.HashMap.remove lookup Key-discrete str Str-discrete
    ai_auth.Common.ℕ_discrete ai_auth.Limits.Sort.sort_by_key ai_auth.Limits.Sort.place
evict_least_recent-lru_example =
    evict_least_recent-lru nanos in_order in_order-perm 1 key_a key_b older newer pair pair-IsMap
      refl refl refl (λ h. cc)
