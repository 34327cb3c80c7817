-- ===== src/Limits/Threads.antt =====
-- crypto/src/limits.rs: concurrent calls of `RateLimiter::allow`. A call reads the clock, runs the
-- region under the lock of `global`, and then the one under the lock of `buckets`; a lock makes each
-- region one step, and between two steps of a call any other call may take steps.
use ai_auth.Common.{ℕ, Bool, true, false, List}
use ai_auth.Limits.{Key, Bucket, RateLimiter, charge_global, charge_tenant}
use ai_auth.Limits.Float.{F64}
use ai_auth.Schedule
use ai_auth.Text.{Str}

-- Where a call of a tenant and an operation stands: before `self.clock.now()`, before the lock of
-- `global`, before the lock of `buckets`, or after its return.
pub data Thread : Type 0 where
  waiting : Str → Str → Thread
  timed : ℕ → Str → Str → Thread
  passed : ℕ → Str → Str → Thread
  answered : Str → Bool → Thread

-- The steps that a call has left.
abbrev pub left : Thread → ℕ
left (waiting tenant_id op) = 3
left (timed now tenant_id op) = 2
left (passed now tenant_id op) = 1
left (answered op allowed) = 0

module _ (F : F64) (iter : List (Key × Bucket F) → List (Key × Bucket F)) where
  unfoldable pub after_ceiling : ℕ → Str → Str → Bool → Thread
  after_ceiling now tenant_id op true = passed now tenant_id op
  after_ceiling now tenant_id op false = answered op false

  -- The next step of a call, at a reading of the clock.
  unfoldable pub advance : ℕ → RateLimiter F → Thread → RateLimiter F × Thread
  unfolding after_ceiling
  advance clock l (waiting tenant_id op) = (l, timed clock tenant_id op)
  advance clock l (timed now tenant_id op) =
      let (l', within) = charge_global F l now op in (l', after_ceiling now tenant_id op within)
  advance clock l (passed now tenant_id op) =
      let (l', allowed) = charge_tenant F iter l now tenant_id op in (l', answered op allowed)
  advance clock l (answered op allowed) = (l, answered op allowed)

-- A call starts before its reading of the clock.
abbrev pub IsNew : Thread → Type 0
IsNew (waiting tenant_id op) = Unit
IsNew _ = ⊥

-- Concurrent calls at a limiter.
module _ (F : F64) (iter : List (Key × Bucket F) → List (Key × Bucket F)) where
  abbrev pub System : Type 0
  System = Schedule.System (advance F iter) left IsNew

  abbrev pub Step : System → System → Type 0
  Step = Schedule.Step (advance F iter) left IsNew

  abbrev pub Reach : System → System → Type 0
  Reach = Schedule.Reach (advance F iter) left IsNew
