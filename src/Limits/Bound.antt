-- ===== src/Limits/Bound.antt =====
-- The limiter's invariant, and which buckets a call can touch.
use ai_auth.Common.{
  ℕ, ◌/◌, ◌≤◌, ◌<◌, ◌≡◌, ◌⊎◌, refl, inl, inr, List, true, Bool-cases, none, arith, length, leb,
  leb→le, if◌then◌else◌,
}
use ai_auth.Text.{Str, Str-discrete}
use ai_auth.Limits.{
  Key, Key-discrete, Bucket, RateLimiter, new, drop_full, evict_least_recent, make_room,
  charge_global, charge_tenant, allow,
}
use ai_auth.Limits.Evict.{
  length-evict_least_recent, evict_least_recent-IsMap, lookup-evict_least_recent,
}
use ai_auth.Limits.Float.{F64}
use ai_auth.HashMap.{
  lookup, IsMap, insert-IsMap, retain-IsMap, length-retain-le, length-insert-le, lookup-retain_or,
}
use mathlib.Core.List.{Perm}

-- Distinct keys in both maps, and no more buckets than the bound.
pub record IsWellFormed {F : F64} (l : RateLimiter F) : Type 0 where
  pub tenants : IsMap Key-discrete l.buckets
  pub operations : IsMap Str-discrete l.global
  pub room : 1 ≤ l.max_buckets
  pub bounded : length l.buckets ≤ l.max_buckets

pub new-IsWellFormed :
    (F : F64) (capacity : ℕ) (refill : F.f64) → IsWellFormed (new F capacity refill)
unfolding new
new-IsWellFormed F capacity refill = record {
  tenants = tt;
  operations = tt;
  room = omega arith;
  bounded = omega arith;
}

module _ (F : F64) (iter : List (Key × Bucket F) → List (Key × Bucket F))
    (iter_perm : (m : List (Key × Bucket F)) → Perm (iter m) m) where
  drop_full-IsMap :
      (l : RateLimiter F) (now : ℕ) (m : List (Key × Bucket F))
      → IsMap Key-discrete m
      → IsMap Key-discrete (drop_full F l now m)
  unfolding drop_full
  drop_full-IsMap l now m h = retain-IsMap Key-discrete _ m h

  pub length-drop_full-le :
      (l : RateLimiter F) (now : ℕ) (m : List (Key × Bucket F))
      → length (drop_full F l now m) ≤ length m
  unfolding drop_full
  length-drop_full-le l now m = length-retain-le _ m

  -- What the lossless pass keeps, it keeps unchanged.
  lookup-drop_full :
      (l : RateLimiter F) (now : ℕ) (k : Key) (m : List (Key × Bucket F))
      → IsMap Key-discrete m
      → (lookup Key-discrete k (drop_full F l now m) ≡ none)
        ⊎ (lookup Key-discrete k (drop_full F l now m) ≡ lookup Key-discrete k m)
  unfolding drop_full
  lookup-drop_full l now k m h = lookup-retain_or Key-discrete _ k m h

  pub record Roomy (l : RateLimiter F) (m : List (Key × Bucket F)) : Type 0 where
    pub tenants : IsMap Key-discrete m
    pub below : length m < l.max_buckets
    pub kept :
        (k : Key)
        → (lookup Key-discrete k m ≡ none)
          ⊎ (lookup Key-discrete k m ≡ lookup Key-discrete k l.buckets)

  after_full :
      (l : RateLimiter F) (now : ℕ)
      → IsWellFormed l
      → let m = drop_full F l now l.buckets in
        Roomy l (
          if leb l.max_buckets (length m)
          then evict_least_recent F iter (l.max_buckets / 2) m
          else m)
  after_full l now w = elim (Bool-cases (leb l.max_buckets (length m))) [
    | inr free ↦ rw free (record {
      tenants = hm;
      below = ground arith;
      kept = λ k. lookup-drop_full l now k l.buckets w.tenants;
    })
    | inl still ↦ rw still (record {
      tenants = evict_least_recent-IsMap F iter iter_perm (l.max_buckets / 2) m hm;
      below = below still;
      kept = λ k. ground (
        arith,
        lookup-evict_least_recent F iter iter_perm (l.max_buckets / 2) k m hm,
        lookup-drop_full l now k l.buckets w.tenants,
      );
    })
  ]
    where
      m : List (Key × Bucket F)
      m = drop_full F l now l.buckets

      hm : IsMap Key-discrete m
      hm = drop_full-IsMap l now l.buckets w.tenants

      below :
          leb l.max_buckets (length m) ≡ true
          → length (evict_least_recent F iter (l.max_buckets / 2) m) < l.max_buckets
      below still =
          let enough : l.max_buckets ≤ length m = leb→le _ _ still in
          let left =
            length-evict_least_recent F iter iter_perm (l.max_buckets / 2) m hm (omega arith) in
          let room = w.room in omega arith

  pub make_room-Roomy :
      (l : RateLimiter F) (now : ℕ) → IsWellFormed l → Roomy l (make_room F iter l now)
  unfolding make_room
  make_room-Roomy l now w = elim (Bool-cases (leb l.max_buckets (length l.buckets))) [
    | inr free ↦
        rw free (record { tenants = w.tenants; below = ground arith; kept = λ k. inr refl })
    | inl full ↦ rw full (after_full l now w)
  ]

  pub charge_global-IsWellFormed :
      (l : RateLimiter F) (now : ℕ) (op : Str)
      → IsWellFormed l
      → IsWellFormed (charge_global F l now op).0
  unfolding charge_global
  charge_global-IsWellFormed l now op w = record {
    tenants = w.tenants;
    operations = insert-IsMap Str-discrete op _ l.global w.operations;
    room = w.room;
    bounded = w.bounded;
  }

  pub charge_tenant-IsWellFormed :
      (l : RateLimiter F) (now : ℕ) (tenant_id op : Str)
      → IsWellFormed l
      → IsWellFormed (charge_tenant F iter l now tenant_id op).0
  unfolding charge_tenant
  charge_tenant-IsWellFormed l now tenant_id op w =
      let r = make_room-Roomy l now w in
      record {
        tenants = insert-IsMap Key-discrete (tenant_id, op) _ (make_room F iter l now) r.tenants;
        operations = w.operations;
        room = w.room;
        bounded = omega (
          arith,
          r.below,
          length-insert-le Key-discrete (tenant_id, op) _ (make_room F iter l now),
        );
      }

  -- A well-formed limiter (distinct keys, at most `max_buckets` buckets, room for one) is
  -- well-formed after every call, whatever its outcome and in whatever order the map is iterated.
  pub allow-IsWellFormed :
      (l : RateLimiter F) (now : ℕ) (tenant_id op : Str)
      → IsWellFormed l
      → IsWellFormed (allow F iter l now tenant_id op).0
  unfolding allow
  allow-IsWellFormed l now tenant_id op w = elim (Bool-cases (charge_global F l now op).1) [
    | inl yes_ ↦
        rw yes_
          (charge_tenant-IsWellFormed _ now tenant_id op (charge_global-IsWellFormed l now op w))
    | inr no_ ↦ rw no_ (charge_global-IsWellFormed l now op w)
  ]
