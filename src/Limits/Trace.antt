-- ===== src/Limits/Trace.antt =====
-- Histories of calls, in the order in which they take the locks.
use ai_auth.Common.{ℕ, ◌+◌, ◌≤◌, List, [], ◌∷◌, if◌then◌else◌, ite, Bool}
use ai_auth.Text.{Str, Str-discrete}
use ai_auth.Limits.{Key, Bucket, RateLimiter, allow}
use ai_auth.Limits.Float.{F64}

-- The reading of the clock, the tenant and the operation of a call of `allow`.
pub record Call : Type 0 where
  pub now : ℕ
  pub tenant_id : Str
  pub op : Str

module _ (F : F64) (iter : List (Key × Bucket F) → List (Key × Bucket F)) where
  unfoldable pub step : RateLimiter F → Call → RateLimiter F × Bool
  step l c = allow F iter l c.now c.tenant_id c.op

  unfoldable pub run : RateLimiter F → List Call → RateLimiter F
  unfolding step
  run l [] = l
  run l (c ∷ cs) = run (step l c).0 cs

  -- The answers, in turn.
  unfoldable pub answers : RateLimiter F → List Call → List Bool
  unfolding step
  answers l [] = []
  answers l (c ∷ cs) = (step l c).1 ∷ answers (step l c).0 cs

  -- How many calls of the operation are granted, over all tenants.
  unfoldable pub granted : Str → RateLimiter F → List Call → ℕ
  unfolding step
  granted op l [] = 0
  granted op l (c ∷ cs) =
      (ite (Str-discrete c.op op) (if (step l c).1 then 1 else 0) 0) + granted op (step l c).0 cs

-- The clock's readings do not fall, from `start` on, and stay at or before `end`.
abbrev pub IsOrdered : ℕ → ℕ → List Call → Type 0
IsOrdered start end [] = start ≤ end
IsOrdered start end (c ∷ cs) = (start ≤ c.now) × IsOrdered c.now end cs
