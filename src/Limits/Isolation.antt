-- ===== src/Limits/Isolation.antt =====
-- Budgets of different tenants and operations do not meet.
use ai_auth.Common.{ℕ, ◌<◌, ◌≡◌, ◌≢◌, ◌⊎◌, refl, ap, List, none, arith, length}
use ai_auth.Text.{Str, Str-discrete}
use ai_auth.Limits.{
  Key, Key-discrete, Bucket, RateLimiter, make_room, charge_global, charge_tenant, allow,
}
use ai_auth.Limits.Bound.{IsWellFormed, make_room-Roomy, charge_global-IsWellFormed}
use ai_auth.Limits.Float.{F64}
use ai_auth.HashMap.{lookup, lookup-insert_ne}
use mathlib.Core.List.{Perm}

module _ (F : F64) (iter : List (Key × Bucket F) → List (Key × Bucket F)) where
  pub make_room_free :
      (l : RateLimiter F) (now : ℕ)
      → length l.buckets < l.max_buckets
      → make_room F iter l now ≡ l.buckets
  unfolding make_room
  make_room_free l now h = ground arith

  lookup-charge_tenant :
      (l : RateLimiter F) (now : ℕ) (tenant_id op : Str) (k : Key)
      → ◌≢◌ {A = Key} (tenant_id, op) k
      → lookup Key-discrete k (charge_tenant F iter l now tenant_id op).0.buckets
        ≡ lookup Key-discrete k (make_room F iter l now)
  unfolding charge_tenant
  lookup-charge_tenant l now tenant_id op k h =
      lookup-insert_ne Key-discrete (tenant_id, op) k _ (make_room F iter l now) h

  pub global-charge_tenant :
      (l : RateLimiter F) (now : ℕ) (tenant_id op : Str)
      → (charge_tenant F iter l now tenant_id op).0.global ≡ l.global
  unfolding charge_tenant
  global-charge_tenant l now tenant_id op = refl

  -- While the map has room, a call of one operation by one tenant leaves the bucket of every other
  -- (tenant, operation) pair as it was.
  pub lookup-allow :
      (l : RateLimiter F) (now : ℕ) (tenant_id op : Str) (k : Key)
      → length l.buckets < l.max_buckets
      → ◌≢◌ {A = Key} (tenant_id, op) k
      → lookup Key-discrete k (allow F iter l now tenant_id op).0.buckets
        ≡ lookup Key-discrete k l.buckets
  unfolding allow charge_global
  lookup-allow l now tenant_id op k free h =
      let charged = (charge_global F l now op).0 in
      ground (
        arith,
        lookup-charge_tenant charged now tenant_id op k h,
        ap (lookup Key-discrete k) (make_room_free charged now free),
      )

  lookup-charge_global :
      (l : RateLimiter F) (now : ℕ) (op other : Str)
      → op ≢ other
      → lookup Str-discrete other (charge_global F l now op).0.global
        ≡ lookup Str-discrete other l.global
  unfolding charge_global
  lookup-charge_global l now op other h = lookup-insert_ne Str-discrete op other _ l.global h

  -- A call leaves the ceiling of every other operation as it was.
  pub lookup-allow_global :
      (l : RateLimiter F) (now : ℕ) (tenant_id op other : Str)
      → op ≢ other
      → lookup Str-discrete other (allow F iter l now tenant_id op).0.global
        ≡ lookup Str-discrete other l.global
  unfolding allow
  lookup-allow_global l now tenant_id op other h =
      let charged = (charge_global F l now op).0 in
      ground (
        arith,
        ap (lookup Str-discrete other) (global-charge_tenant charged now tenant_id op),
        lookup-charge_global l now op other h,
      )

module _ (F : F64) (iter : List (Key × Bucket F) → List (Key × Bucket F))
    (iter_perm : (m : List (Key × Bucket F)) → Perm (iter m) m) where
  -- Full or not, a call at a well-formed limiter leaves the bucket of every other (tenant,
  -- operation) pair as it was or evicts it.
  pub lookup-allow_or :
      (l : RateLimiter F) (now : ℕ) (tenant_id op : Str) (k : Key)
      → IsWellFormed l
      → ◌≢◌ {A = Key} (tenant_id, op) k
      → let after = lookup Key-discrete k (allow F iter l now tenant_id op).0.buckets in
        (after ≡ none) ⊎ (after ≡ lookup Key-discrete k l.buckets)
  unfolding allow charge_global
  lookup-allow_or l now tenant_id op k w h =
      let charged = (charge_global F l now op).0 in
      ground (
        arith,
        lookup-charge_tenant F iter charged now tenant_id op k h,
        (make_room-Roomy F iter iter_perm charged now
              (charge_global-IsWellFormed F iter iter_perm l now op w)).kept
            k,
      )
