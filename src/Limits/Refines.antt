-- ===== src/Limits/Refines.antt =====
-- The limiter keeps its contract, as long as the lossless pass makes room enough.
use ai_auth.Common.{
  ℕ, ◌≤◌, ◌<◌, ◌≡◌, sym, ◌∙◌, refl, false, List, [], ◌∷◌, arith, leb, length, Bool-cases, inl, inr,
}
use ai_auth.HashMap.{lookup, lookup-retain}
use ai_auth.Limits.{
  Key, Key-discrete, Bucket, RateLimiter, drop_full, make_room, refilled, charge_global,
  charge_tenant, allow,
}
use ai_auth.Limits.Bound.{IsWellFormed, charge_global-IsWellFormed, charge_tenant-IsWellFormed}
use ai_auth.Limits.Contract.{Ledger, Contract, update, spend, grant, grants}
use ai_auth.Limits.Float.{F64, IsExact}
use ai_auth.Limits.Matching.{
  Matches, Matches-later, retained-Matches, charged-Matches, insert-Matches,
}
use ai_auth.Limits.Trace.{Call, step, answers, IsOrdered}
use ai_auth.Text.{Str, Str-discrete}
use mathlib.Core.List.{Perm}

module _ {F : F64} (e : IsExact F) (iter : List (Key × Bucket F) → List (Key × Bucket F))
    (iter_perm : (m : List (Key × Bucket F)) → Perm (iter m) m) (c : Contract) where
  open e use {val}

  -- The limiter's capacities and rates are the contract's.
  pub record Honours (l : RateLimiter F) : Type 0 where
    pub capacity : val l.capacity ≡ c.pair.capacity
    pub rate : l.refill_per_sec ≡ F.from c.pair.rate
    pub global_capacity : val l.global_capacity ≡ c.operation.capacity
    pub global_rate : l.global_refill_per_sec ≡ F.from c.operation.rate

  pub record Refines (now : ℕ) (l : RateLimiter F) (g : Ledger) : Type 0 where
    pub honours : Honours l
    pub well : IsWellFormed l
    pub pairs : (k : Key) → Matches e c.pair now (lookup Key-discrete k l.buckets) (g.pairs k)
    pub operations :
        (op : Str) → Matches e c.operation now (lookup Str-discrete op l.global) (g.operations op)

  -- The second pass, which gives tenants fresh buckets, does not run.
  abbrev pub Spares : RateLimiter F → ℕ → Type 0
  Spares l now = length (drop_full F l now l.buckets) < l.max_buckets

  -- The lossless pass drops only buckets whose accounts are full.
  drop_full-Matches :
      (l : RateLimiter F) (g : Ledger) (now : ℕ) (k : Key)
      → Refines now l g
      → Matches e c.pair now (lookup Key-discrete k (drop_full F l now l.buckets)) (g.pairs k)
  unfolding drop_full
  drop_full-Matches l g now k r =
      rw
        (lookup-retain Key-discrete (λ _ b. F.lt (refilled F b now l.refill_per_sec) l.capacity) k
          l.buckets r.well.tenants)
        (retained-Matches e c.pair l.capacity l.refill_per_sec now (lookup Key-discrete k l.buckets)
          (g.pairs k) r.honours.capacity r.honours.rate (r.pairs k))

  make_room-Matches :
      (l : RateLimiter F) (g : Ledger) (now : ℕ) (k : Key)
      → Spares l now
      → Refines now l g
      → Matches e c.pair now (lookup Key-discrete k (make_room F iter l now)) (g.pairs k)
  unfolding make_room
  make_room-Matches l g now k spare r = elim (Bool-cases (leb l.max_buckets (length l.buckets))) [
    | inr free ↦ rw free (r.pairs k)
    | inl full ↦
        let roomy : leb l.max_buckets (length (drop_full F l now l.buckets)) ≡ false =
          ground (arith, spare) in
        rw full (rw roomy (drop_full-Matches l g now k r))
  ]

  -- Time that passes breaks nothing.
  Refines-later :
      (now later : ℕ) (l : RateLimiter F) (g : Ledger)
      → now ≤ later
      → Refines now l g
      → Refines later l g
  Refines-later now later l g h r = record {
    honours = r.honours;
    well = r.well;
    pairs = λ k. Matches-later e c.pair now later _ (g.pairs k) h (r.pairs k);
    operations =
        λ op. Matches-later e c.operation now later _ (g.operations op) h (r.operations op);
  }

  -- The region under the lock of `global` against the operation's account.
  charge_global-Refines :
      (l : RateLimiter F) (g : Ledger) (now : ℕ) (op : Str)
      → Refines now l g
      → let (a, paid) = spend c.operation (g.operations op) now in
        ((charge_global F l now op).1 ≡ paid)
        × Refines now
            (charge_global F l now op).0
            (record g { operations = update Str-discrete g.operations op a })
  unfolding charge_global
  charge_global-Refines l g now op r =
      let o = lookup Str-discrete op l.global in
      let (answer, written) =
        charged-Matches e c.operation l.global_capacity l.global_refill_per_sec now o
          (g.operations op) r.honours.global_capacity r.honours.global_rate (r.operations op) in
      (
        answer,
        record {
          honours = record {
            capacity = r.honours.capacity;
            rate = r.honours.rate;
            global_capacity = r.honours.global_capacity;
            global_rate = r.honours.global_rate;
          };
          well = charge_global-IsWellFormed F iter iter_perm l now op r.well;
          pairs = r.pairs;
          operations =
              insert-Matches e Str-discrete c.operation now op _ _ l.global g.operations written
                r.operations;
        },
      )

  -- The region under the lock of `buckets` against the pair's account.
  charge_tenant-Refines :
      (l : RateLimiter F) (g : Ledger) (now : ℕ) (tenant_id op : Str)
      → Spares l now
      → Refines now l g
      → let (a, paid) = spend c.pair (g.pairs (tenant_id, op)) now in
        ((charge_tenant F iter l now tenant_id op).1 ≡ paid)
        × Refines now
            (charge_tenant F iter l now tenant_id op).0
            (record g { pairs = update Key-discrete g.pairs (tenant_id, op) a })
  unfolding charge_tenant
  charge_tenant-Refines l g now tenant_id op spare r =
      let k : Key = (tenant_id, op) in
      let m = make_room F iter l now in
      let kept = λ (j : Key). make_room-Matches l g now j spare r in
      let (answer, written) =
        charged-Matches e c.pair l.capacity l.refill_per_sec now (lookup Key-discrete k m)
          (g.pairs k) r.honours.capacity r.honours.rate (kept k) in
      (
        answer,
        record {
          honours = record {
            capacity = r.honours.capacity;
            rate = r.honours.rate;
            global_capacity = r.honours.global_capacity;
            global_rate = r.honours.global_rate;
          };
          well = charge_tenant-IsWellFormed F iter iter_perm l now tenant_id op r.well;
          pairs = insert-Matches e Key-discrete c.pair now k _ _ m g.pairs written kept;
          operations = r.operations;
        },
      )

  Spares-charged :
      (l : RateLimiter F) (now : ℕ) (op : Str)
      → Spares l now
      → Spares (charge_global F l now op).0 now
  unfolding charge_global drop_full
  Spares-charged l now op h = h

  -- A call gives the answer that the contract gives, and leaves both in step.
  step-Refines :
      (l : RateLimiter F) (g : Ledger) (call : Call)
      → Spares l call.now
      → Refines call.now l g
      → ((step F iter l call).1 ≡ (grant c g call).1)
        × Refines call.now (step F iter l call).0 (grant c g call).0
  unfolding step allow grant
  step-Refines l g call spare r =
      let (answer, r₁) = charge_global-Refines l g call.now call.op r in
      let l₁ = (charge_global F l call.now call.op).0 in
      let (answer₂, r₂) =
        charge_tenant-Refines l₁ _ call.now call.tenant_id call.op
          (Spares-charged l call.now call.op spare) r₁ in
      elim (Bool-cases (charge_global F l call.now call.op).1) [
        | inl paid ↦ rw (paid, sym answer ∙ paid) (answer₂, r₂)
        | inr unpaid ↦ rw (unpaid, sym answer ∙ unpaid) (refl, r₁)
      ]

  -- In the history, the lossless pass makes room enough for each call.
  abbrev pub Unforced : RateLimiter F → List Call → Type 0
  Unforced l [] = Unit
  Unforced l (call ∷ calls) = Spares l call.now × Unforced (step F iter l call).0 calls

  pub answers-eq-grants :
      (l : RateLimiter F) (g : Ledger) (start end : ℕ) (calls : List Call)
      → Refines start l g
      → IsOrdered start end calls
      → Unforced l calls
      → answers F iter l calls ≡ grants c g calls
  unfolding answers grants
  answers-eq-grants l g start end [] r o u = refl
  answers-eq-grants l g start end (call ∷ calls) r (h, o) (spare, u) =
      let (answer, r') = step-Refines l g call spare (Refines-later start call.now l g h r) in
      let rest =
        answers-eq-grants (step F iter l call).0 (grant c g call).0 call.now end calls r' o u in
      λ i. answer i ∷ rest i
