-- ===== src/Limits/Finishes.antt =====
-- Concurrent calls finish: no step waits for another call, and each call has three.
use ai_auth.Common.{
  ◌⊎◌, inl, inr, ℕ, ◌+◌, ◌*◌, ◌≤◌, refl, Bool, true, false, List, arith, length, All, Bool-cases,
}
use ai_auth.Limits.{Key, Bucket, RateLimiter, charge_global, allow}
use ai_auth.Limits.Float.{F64}
use ai_auth.Limits.Threads.{
  Thread, waiting, timed, passed, answered, left, IsNew, System, after_ceiling, advance,
}
use ai_auth.Schedule.{total}
use ai_auth.Schedule
use ai_auth.Schedule.Progress
use ai_auth.Schedule.Progress.{none_, one_more}
use ai_auth.Text.{Str}

left-le : (t : Thread) → left t ≤ 3
left-le (waiting tenant_id op) = omega arith
left-le (timed now tenant_id op) = omega arith
left-le (passed now tenant_id op) = omega arith
left-le (answered op allowed) = omega arith

module _ (F : F64) (iter : List (Key × Bucket F) → List (Key × Bucket F)) where
  abbrev pub Moves : System F iter → System F iter → Type 0
  Moves = Schedule.Moves (advance F iter) left IsNew

  abbrev pub Moved : System F iter → System F iter → ℕ → Type 0
  Moved = Progress.Moved (advance F iter) left IsNew

  abbrev pub Returned : Thread → Type 0
  Returned = Progress.Returned (advance F iter) left IsNew

  left-after :
      (now : ℕ) (tenant_id op : Str) (b : Bool) → left (after_ceiling F iter now tenant_id op b) ≤ 1
  unfolding after_ceiling
  left-after now tenant_id op true = omega arith
  left-after now tenant_id op false = omega arith

  left-advance :
      (clock : ℕ) (l : RateLimiter F) (t : Thread)
      → 1 ≤ left t
      → 1 + left (advance F iter clock l t).1 ≤ left t
  unfolding advance
  left-advance clock l (waiting tenant_id op) h = omega arith
  left-advance clock l (timed now tenant_id op) h = omega (arith, left-after now tenant_id op _)
  left-advance clock l (passed now tenant_id op) h = omega arith
  left-advance clock l (answered op allowed) h = omega arith

  -- Concurrent calls finish in any interleaving: they take at most three steps for each call, and
  -- until all have returned one of them can take a step.
  pub Moved-finishes :
      (s u : System F iter) (n : ℕ)
      → Moved s u n
      → (n ≤ 3 * length s.threads) × (((v : System F iter) × Moves u v) ⊎ All Returned u.threads)
  Moved-finishes s u n m = (
    omega (
      arith,
      Progress.Moved-le (advance F iter) left IsNew left-advance s u n m,
      Progress.total-le (advance F iter) left IsNew 3 left-le s.threads,
    ),
    Progress.Moves-cases (advance F iter) left IsNew u,
  )

  -- A limiter with one call.
  abbrev pub alone : ℕ → RateLimiter F → Thread → System F iter
  alone = Progress.alone (advance F iter) left IsNew

  -- The steps of a call that no other comes between make up `allow`: they leave its limiter and
  -- its answer.
  pub alone-allow :
      (clock : ℕ) (l : RateLimiter F) (tenant_id op : Str)
      → let (l', allowed) = allow F iter l clock tenant_id op in
        (n : ℕ) × Moved
          (alone clock l (waiting tenant_id op))
          (alone clock l' (answered op allowed))
          n
  unfolding allow advance after_ceiling
  alone-allow clock l tenant_id op =
      let charged = charge_global F l clock op in
      let reads =
        Progress.alone-advance (advance F iter) left IsNew clock l l (waiting tenant_id op)
          (timed clock tenant_id op) (omega arith) refl in
      elim (Bool-cases charged.1) [
        | inl yes_ ↦ rw yes_ (
          3,
          one_more
              (one_more (one_more none_ reads) (
                Progress.alone-advance (advance F iter) left IsNew clock l charged.0
                  (timed clock tenant_id op) (passed clock tenant_id op) (omega arith)
                  (rw yes_ refl)))
              (Progress.alone-advance (advance F iter) left IsNew clock charged.0 _
                (passed clock tenant_id op) _ (omega arith) refl),
        )
        | inr no_ ↦ rw no_ (
          2,
          one_more (one_more none_ reads) (
              Progress.alone-advance (advance F iter) left IsNew clock l charged.0
                (timed clock tenant_id op) (answered op false) (omega arith) (rw no_ refl)),
        )
      ]
