-- ===== src/Limits/Through.antt =====
-- The concurrent calls of an operation that its ceiling has let through.
use ai_auth.Common.{
  ℕ, ◌*◌, ◌≤◌, ◌≡◌, ◌≢◌, refl, if_pos, if_neg, Bool, true, false, List, arith, ite,
}
use ai_auth.Limits.{Key, Bucket}
use ai_auth.Limits.Float.{F64, nano}
use ai_auth.Limits.Refill.{price}
use ai_auth.Limits.Threads.{Thread, passed, answered, after_ceiling}
use ai_auth.Schedule.{total}
use ai_auth.Text.{Str, Str-discrete}

-- How many of the calls of an operation have been let through by the ceiling and not been refused.
abbrev pub through : Str → Thread → ℕ
through op (passed now tenant_id name) = ite (Str-discrete name op) 1 0
through op (answered name true) = ite (Str-discrete name op) 1 0
through op (answered name false) = 0
through op _ = 0

abbrev pub count : Str → List Thread → ℕ
count op = total (through op)

module _ (F : F64) (iter : List (Key × Bucket F) → List (Key × Bucket F)) (op : Str) where
  pub through-after :
      (now : ℕ) (tenant_id : Str) (b : Bool)
      → through op (after_ceiling F iter now tenant_id op b) * nano ≡ price b
  unfolding after_ceiling
  through-after now tenant_id true = rw (if_pos (Str-discrete op op) refl) refl
  through-after now tenant_id false = refl

  pub through-other :
      (now : ℕ) (tenant_id other : Str) (b : Bool)
      → other ≢ op
      → through op (after_ceiling F iter now tenant_id other b) ≡ 0
  unfolding after_ceiling
  through-other now tenant_id other true d = if_neg (Str-discrete other op) d 1 0
  through-other now tenant_id other false d = refl

  pub through-answered :
      (now : ℕ) (tenant_id name : Str) (b : Bool)
      → through op (answered name b) ≤ through op (passed now tenant_id name)
  through-answered now tenant_id name true = omega arith
  through-answered now tenant_id name false = omega arith
