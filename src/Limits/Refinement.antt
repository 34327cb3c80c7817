-- ===== src/Limits/Refinement.antt =====
-- A fresh limiter implements its contract.
use ai_auth.Common.{ℕ, ◌+◌, ◌*◌, ◌≤◌, ◌<◌, ◌≡◌, ap, ◌∙◌, refl, List, [], ◌∷◌, arith, length}
use ai_auth.Limits.Isolation.{make_room_free}
use ai_auth.Limits.Bound.{length-drop_full-le}
use ai_auth.HashMap.{length-insert-le, lookup}
use ai_auth.Limits.{
  Key, Key-discrete, Bucket, RateLimiter, new, make_room, charge_global, charge_tenant, allow,
}
use ai_auth.Limits.Bound.{new-IsWellFormed}
use ai_auth.Limits.Contract.{Contract, grants, opened}
use ai_auth.Limits.Float.{F64, IsExact, nano}
use ai_auth.Limits.Refines.{Refines, Spares, Unforced, answers-eq-grants}
use ai_auth.Limits.Trace.{Call, step, answers, IsOrdered}
use ai_auth.Text.{Str}
use mathlib.Core.List.{Perm}

-- The contract of a limiter with this capacity and this refill rate.
abbrev pub contract : ℕ → ℕ → Contract
contract capacity r = record {
  pair = record { capacity = capacity * nano; rate = r };
  operation = record { capacity = capacity * 50 * nano; rate = r * 50 };
}

module _ {F : F64} (e : IsExact F) (iter : List (Key × Bucket F) → List (Key × Bucket F))
    (iter_perm : (m : List (Key × Bucket F)) → Perm (iter m) m) (capacity r : ℕ) where
  new-Refines :
      (start : ℕ)
      → Refines e iter iter_perm
          (contract capacity r)
          start
          (new F capacity (F.from r))
          (opened (contract capacity r) start)
  unfolding new lookup
  new-Refines start = record {
    honours = record {
      capacity = e.val_from capacity;
      rate = refl;
      global_capacity = ap e.val (e.mul_from capacity 50) ∙ e.val_from (capacity * 50);
      global_rate = e.mul_from r 50;
    };
    well = new-IsWellFormed F capacity (F.from r);
    pairs = λ k. omega arith;
    operations = λ op. omega arith;
  }

  -- The limiter implements its contract, under exact arithmetic and with a whole refill rate: in a
  -- history whose clock does not run backwards, as long as the lossless pass makes room enough,
  -- the answers from a fresh limiter are those of a ledger that keeps an account for every pair
  -- and every operation and drops none.
  pub new_refines :
      (start end : ℕ) (calls : List Call)
      → IsOrdered start end calls
      → Unforced e iter iter_perm (contract capacity r) (new F capacity (F.from r)) calls
      → answers F iter (new F capacity (F.from r)) calls
        ≡ grants (contract capacity r) (opened (contract capacity r) start) calls
  new_refines start end calls o u =
      answers-eq-grants e iter iter_perm (contract capacity r) _ _ start end calls
        (new-Refines start) o u

-- A history with no more calls than the map has room for forces nothing.
module _ {F : F64} (e : IsExact F) (iter : List (Key × Bucket F) → List (Key × Bucket F))
    (iter_perm : (m : List (Key × Bucket F)) → Perm (iter m) m) (c : Contract) where
  max_buckets-step :
      (l : RateLimiter F) (call : Call) → (step F iter l call).0.max_buckets ≡ l.max_buckets
  unfolding step allow charge_tenant charge_global
  max_buckets-step l call = ground arith

  length-charge_tenant-le :
      (l : RateLimiter F) (now : ℕ) (tenant_id op : Str)
      → length l.buckets < l.max_buckets
      → length (charge_tenant F iter l now tenant_id op).0.buckets ≤ length l.buckets + 1
  unfolding charge_tenant
  length-charge_tenant-le l now tenant_id op h = omega (
    arith,
    length-insert-le Key-discrete (tenant_id, op) _ (make_room F iter l now),
    ap length (make_room_free F iter l now h),
  )

  length-step-le :
      (l : RateLimiter F) (call : Call)
      → length l.buckets < l.max_buckets
      → length (step F iter l call).0.buckets ≤ length l.buckets + 1
  unfolding step allow charge_global
  length-step-le l call h = ground (
    arith,
    length-charge_tenant-le (charge_global F l call.now call.op).0 call.now call.tenant_id call.op,
  )

  pub Unforced-short :
      (l : RateLimiter F) (calls : List Call)
      → length l.buckets + length calls ≤ l.max_buckets
      → Unforced e iter iter_perm c l calls
  Unforced-short l [] h = tt
  Unforced-short l (call ∷ calls) h =
      let spare : Spares e iter iter_perm c l call.now =
        omega (arith, length-drop_full-le F iter iter_perm l call.now l.buckets) in
      (
        spare,
        Unforced-short (step F iter l call).0 calls
            (omega (arith, max_buckets-step l call, length-step-le l call (omega arith))),
      )
