-- ===== src/Limits.antt =====
-- crypto/src/limits.rs: token buckets for each (tenant, operation) and a ceiling for each operation.
-- An `Instant` is a number of nanoseconds. The clock's reading is an argument of each call. The two
-- maps behind mutexes are fields, and each locked region of `allow` is a function of its own:
-- `charge_global` and `charge_tenant`. `iter` is the order in which the map of buckets is iterated,
-- which Rust leaves open.
pub mod Float
pub mod Evict
pub mod Bound
pub mod Refill
pub mod Trace
pub mod Contract
pub mod Matching
pub mod Refines
pub mod Refinement
pub mod Share
pub mod Burst
pub mod Isolation
pub mod Credit
pub mod Skew
pub mod Ceiling
pub mod Threads
pub mod Through
pub mod Accrued
pub mod Waits
pub mod Interleaved
pub mod Finishes
pub mod Sort
use ai_auth.Common.{
  ℕ, ◌-◌, ◌/◌, Bool, true, false, List, [], ◌∷◌, Option, none, some, length, take, leb, map,
  if◌then◌else◌,
}
use ai_auth.Text.{Str, str, Str-discrete}
use Float.{F64}
use ai_auth.HashMap.Keys.{stamped}
use ai_auth.HashMap.{lookup, insert, remove_all, retain}
use Sort.{sort_by_key}

-- (tenant, operation)
abbrev pub Key : Type 0
Key = Str × Str

unfoldable pub Key-discrete : Discrete Key
Key-discrete = hlevel Str-discrete

pub record Bucket (F : F64) : Type 0 where
  pub tokens : F.f64
  pub last : ℕ

pub record RateLimiter (F : F64) : Type 0 where
  pub buckets : List (Key × Bucket F)
  pub global : List (Str × Bucket F)
  pub capacity : F.f64
  pub refill_per_sec : F.f64
  pub global_capacity : F.f64
  pub global_refill_per_sec : F.f64
  pub max_buckets : ℕ

module _ (F : F64) where
  unfoldable pub new : ℕ → F.f64 → RateLimiter F
  new capacity refill_per_sec = record {
    buckets = [];
    global = [];
    capacity = F.from capacity;
    refill_per_sec = refill_per_sec;
    global_capacity = F.mul (F.from capacity) (F.from 50);
    global_refill_per_sec = F.mul refill_per_sec (F.from 50);
    max_buckets = 10_000;
  }

  unfoldable pub default_limiter : RateLimiter F
  unfolding new
  default_limiter = new 120 (F.from 20)

  -- `tokens + elapsed * refill`, with the saturating difference of two instants.
  unfoldable pub refilled : Bucket F → ℕ → F.f64 → F.f64
  refilled bucket now refill =
      F.add bucket.tokens (F.mul (F.as_secs_f64 (now - bucket.last)) refill)

  -- `RateLimiter::take`: the bucket afterwards, and whether a token was there.
  unfoldable pub take_token : Bucket F → ℕ → F.f64 → F.f64 → Bucket F × Bool
  unfolding refilled
  take_token bucket now capacity refill =
      let tokens = F.minimum (refilled bucket now refill) capacity in
      if F.ge tokens (F.from 1)
      then (record { tokens = F.sub tokens (F.from 1); last = now }, true)
      else (record { tokens = tokens; last = now }, false)

  -- `entry(key).or_insert(Bucket { tokens: capacity, last: now })`
  unfoldable pub or_insert : Option (Bucket F) → F.f64 → ℕ → Bucket F
  or_insert none capacity now = record { tokens = capacity; last = now }
  or_insert (some b) capacity now = b

  -- The region under the lock of `global`.
  unfoldable pub charge_global : RateLimiter F → ℕ → Str → RateLimiter F × Bool
  charge_global l now op =
      let b = or_insert (lookup Str-discrete op l.global) l.global_capacity now in
      let (b', allowed) = take_token b now l.global_capacity l.global_refill_per_sec in
      (record l { global = insert Str-discrete op b' l.global }, allowed)

  -- The lossless pass: a bucket at capacity goes.
  unfoldable pub drop_full : RateLimiter F → ℕ → List (Key × Bucket F) → List (Key × Bucket F)
  unfolding refilled
  drop_full l now = retain (λ _ b. F.lt (refilled b now l.refill_per_sec) l.capacity)

  module _ (iter : List (Key × Bucket F) → List (Key × Bucket F)) where
    -- `(b.last, k)` of each entry, in the order of the last use.
    unfoldable pub by_last_use : List (Key × Bucket F) → List (ℕ × Key)
    by_last_use m = sort_by_key (stamped (λ b. b.last) (iter m))

    -- The keys of all buckets but the `target` that were used last.
    unfoldable pub least_recent : ℕ → List (Key × Bucket F) → List (ℕ × Key)
    unfolding by_last_use
    least_recent target m = take (length m - target) (by_last_use m)

    unfoldable pub evict_least_recent : ℕ → List (Key × Bucket F) → List (Key × Bucket F)
    unfolding least_recent
    evict_least_recent target m = remove_all Key-discrete (map (λ e. e.1) (least_recent target m)) m

    unfoldable pub make_room : RateLimiter F → ℕ → List (Key × Bucket F)
    make_room l now =
        if leb l.max_buckets (length l.buckets)
        then (let kept = drop_full l now l.buckets in
            if leb l.max_buckets (length kept)
            then evict_least_recent (l.max_buckets / 2) kept
            else kept)
        else l.buckets

    -- The region under the lock of `buckets`.
    unfoldable pub charge_tenant : RateLimiter F → ℕ → Str → Str → RateLimiter F × Bool
    charge_tenant l now tenant_id op =
        let m = make_room l now in
        let b = or_insert (lookup Key-discrete (tenant_id, op) m) l.capacity now in
        let (b', allowed) = take_token b now l.capacity l.refill_per_sec in
        (record l { buckets = insert Key-discrete (tenant_id, op) b' m }, allowed)

    unfoldable pub allow : RateLimiter F → ℕ → Str → Str → RateLimiter F × Bool
    allow l now tenant_id op =
        let (charged, within_ceiling) = charge_global l now op in
        if within_ceiling then charge_tenant charged now tenant_id op else (charged, false)
