-- ===== src/Limits/Interleaved.antt =====
-- What holds however the steps of concurrent calls interleave.
use ai_auth.Common.{ℕ, sym, subst, List}
use ai_auth.Limits.{Key, Bucket, RateLimiter}
use ai_auth.Limits.Bound.{IsWellFormed, charge_global-IsWellFormed, charge_tenant-IsWellFormed}
use ai_auth.Limits.Float.{F64}
use ai_auth.Limits.Threads.{
  Thread, waiting, timed, passed, answered, left, IsNew, System, Step, Reach, advance,
}
use ai_auth.Schedule.{ticks, arrives, moves, Reach-keeps}
use mathlib.Core.List.{Perm}

module _ (F : F64) (iter : List (Key × Bucket F) → List (Key × Bucket F))
    (iter_perm : (m : List (Key × Bucket F)) → Perm (iter m) m) where
  advance-IsWellFormed :
      (clock : ℕ) (l : RateLimiter F) (t : Thread)
      → IsWellFormed l
      → IsWellFormed (advance F iter clock l t).0
  unfolding advance
  advance-IsWellFormed clock l (waiting tenant_id op) w = w
  advance-IsWellFormed clock l (timed now tenant_id op) w =
      charge_global-IsWellFormed F iter iter_perm l now op w
  advance-IsWellFormed clock l (passed now tenant_id op) w =
      charge_tenant-IsWellFormed F iter iter_perm l now tenant_id op w
  advance-IsWellFormed clock l (answered op allowed) w = w

  Step-IsWellFormed :
      (s s' : System F iter) → Step F iter s s' → IsWellFormed s.shared → IsWellFormed s'.shared
  Step-IsWellFormed s s' (ticks d same) w = subst (λ x. IsWellFormed x.shared) (sym same) w
  Step-IsWellFormed s s' (arrives t new same) w = subst (λ x. IsWellFormed x.shared) (sym same) w
  Step-IsWellFormed s s' (moves m) w =
      subst (λ x. IsWellFormed x.shared) (sym m.becomes)
        (advance-IsWellFormed s.clock s.shared m.thread w)

  -- However the steps of concurrent calls interleave, a well-formed limiter (distinct keys, at most
  -- `max_buckets` buckets, room for one) stays well-formed.
  pub Reach-IsWellFormed :
      (s u : System F iter) → Reach F iter s u → IsWellFormed s.shared → IsWellFormed u.shared
  Reach-IsWellFormed s u r w = Reach-keeps (advance F iter) left IsNew Step-IsWellFormed r w
