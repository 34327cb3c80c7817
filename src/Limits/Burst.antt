-- ===== src/Limits/Burst.antt =====
-- A burst that is no longer than the capacity is never refused.
use ai_auth.Common.{
  ℕ, zero, suc, ◌*◌, ◌≤◌, ◌≡◌, refl, ap, sym, ◌∙◌, true, List, [], ◌∷◌, Option, none, some, arith,
  length, inl, inr, All,
}
use ai_auth.HashMap.{lookup, insert, lookup-insert_self, lookup-insert_ne}
use ai_auth.Limits.{
  Key, Key-discrete, Bucket, RateLimiter, new, make_room, or_insert, take_token, charge_global,
  charge_tenant, allow,
}
use ai_auth.Limits.Bound.{
  IsWellFormed, new-IsWellFormed, make_room-Roomy, charge_global-IsWellFormed,
  charge_tenant-IsWellFormed,
}
use ai_auth.Limits.Float.{F64, IsExact, nano}
use ai_auth.Limits.Refill.{take_token_lem}
use ai_auth.Limits.Trace.{Call, step, answers}
use ai_auth.Text.{Str, Str-discrete}
use mathlib.Core.List.{Perm}

module _ {F : F64} (e : IsExact F) (iter : List (Key × Bucket F) → List (Key × Bucket F))
    (iter_perm : (m : List (Key × Bucket F)) → Perm (iter m) m) where
  open e use {val}

  -- A bucket, if there is one, holds `n` tokens at least.
  abbrev Holds : ℕ → Option (Bucket F) → Type 0
  Holds n none = Unit
  Holds n (some b) = n * nano ≤ val b.tokens

  -- Each tenant's bucket can pay for `n` calls more, and so can a fresh one.
  record PairsPay (n : ℕ) (l : RateLimiter F) : Type 0 where
    well : IsWellFormed l
    pairs : (k : Key) → Holds n (lookup Key-discrete k l.buckets)
    capacity : n * nano ≤ val l.capacity
    rate : (r : ℕ) × (l.refill_per_sec ≡ F.from r)

  -- Each operation's ceiling can pay for `n` calls more, and so can a fresh one.
  record CeilingsPay (n : ℕ) (l : RateLimiter F) : Type 0 where
    operations : (op : Str) → Holds n (lookup Str-discrete op l.global)
    capacity : n * nano ≤ val l.global_capacity
    rate : (r : ℕ) × (l.global_refill_per_sec ≡ F.from r)

  -- A call takes one token of a bucket that has it.
  take_token-Holds :
      (n : ℕ) (o : Option (Bucket F)) (now : ℕ) (capacity refill : F.f64) (r : ℕ)
      → refill ≡ F.from r
      → suc n * nano ≤ val capacity
      → Holds (suc n) o
      → let (b, allowed) = take_token F (or_insert F o capacity now) now capacity refill in
        (allowed ≡ true) × (n * nano ≤ val b.tokens)
  unfolding or_insert
  take_token-Holds n none now capacity refill r same c h =
      let (answer, paid, _) =
        take_token_lem e (record { tokens = capacity; last = now }) now r capacity in
      rw same (ground (arith, answer, paid))
  take_token-Holds n (some b) now capacity refill r same c h =
      let (answer, paid, _) = take_token_lem e b now r capacity in
      rw same (ground (arith, answer, paid))

  Holds-less : (n : ℕ) (o : Option (Bucket F)) → Holds (suc n) o → Holds n o
  Holds-less n none h = tt
  Holds-less n (some b) h = omega arith

  insert-Holds :
      {K : Type 0} (dec : Discrete K) (n : ℕ) (k : K) (b : Bucket F) (m : List (K × Bucket F))
      → n * nano ≤ val b.tokens
      → ((j : K) → Holds (suc n) (lookup dec j m))
      → (j : K) → Holds n (lookup dec j (insert dec k b m))
  insert-Holds dec n k b m written all j = elim (dec k j) [
    | yes p ↦
        let found : lookup dec j (insert dec k b m) ≡ some b =
          ap (λ x. lookup dec x (insert dec k b m)) (sym p) ∙ lookup-insert_self dec k b m in
        rw found written
    | no p ↦ rw (lookup-insert_ne dec k j b m p) (Holds-less n _ (all j))
  ]

  make_room-Holds :
      (n : ℕ) (l : RateLimiter F) (now : ℕ)
      → PairsPay n l
      → (k : Key) → Holds n (lookup Key-discrete k (make_room F iter l now))
  make_room-Holds n l now a k = elim ((make_room-Roomy F iter iter_perm l now a.well).kept k) [
    | inl gone ↦ rw gone tt
    | inr same ↦ rw same (a.pairs k)
  ]

  charge_global-pays :
      (n : ℕ) (l : RateLimiter F) (now : ℕ) (op : Str)
      → CeilingsPay (suc n) l
      → let (l', allowed) = charge_global F l now op in (allowed ≡ true) × CeilingsPay n l'
  unfolding charge_global
  charge_global-pays n l now op a =
      let (r, same) = a.rate in
      let (answer, left) =
        take_token-Holds n (lookup Str-discrete op l.global) now l.global_capacity
          l.global_refill_per_sec r same a.capacity (a.operations op) in
      (
        answer,
        record {
          operations = insert-Holds Str-discrete n op _ l.global left a.operations;
          capacity = omega (arith, a.capacity);
          rate = a.rate;
        },
      )

  charge_global-PairsPay :
      (n : ℕ) (l : RateLimiter F) (now : ℕ) (op : Str)
      → PairsPay n l
      → PairsPay n (charge_global F l now op).0
  unfolding charge_global
  charge_global-PairsPay n l now op a = record {
    well = charge_global-IsWellFormed F iter iter_perm l now op a.well;
    pairs = a.pairs;
    capacity = a.capacity;
    rate = a.rate;
  }

  charge_tenant-pays :
      (n : ℕ) (l : RateLimiter F) (now : ℕ) (tenant_id op : Str)
      → PairsPay (suc n) l
      → let (l', allowed) = charge_tenant F iter l now tenant_id op in
        (allowed ≡ true) × PairsPay n l'
  unfolding charge_tenant
  charge_tenant-pays n l now tenant_id op a =
      let (r, same) = a.rate in
      let k : Key = (tenant_id, op) in
      let m = make_room F iter l now in
      let kept = make_room-Holds (suc n) l now a in
      let (answer, left) =
        take_token-Holds n (lookup Key-discrete k m) now l.capacity l.refill_per_sec r same
          a.capacity (kept k) in
      (
        answer,
        record {
          well = charge_tenant-IsWellFormed F iter iter_perm l now tenant_id op a.well;
          pairs = insert-Holds Key-discrete n k _ m left kept;
          capacity = omega (arith, a.capacity);
          rate = a.rate;
        },
      )

  charge_tenant-CeilingsPay :
      (n : ℕ) (l : RateLimiter F) (now : ℕ) (tenant_id op : Str)
      → CeilingsPay n l
      → CeilingsPay n (charge_tenant F iter l now tenant_id op).0
  unfolding charge_tenant
  charge_tenant-CeilingsPay n l now tenant_id op a = record {
    operations = a.operations;
    capacity = a.capacity;
    rate = a.rate;
  }

  step-pays :
      (n : ℕ) (l : RateLimiter F) (call : Call)
      → PairsPay (suc n) l
      → CeilingsPay (suc n) l
      → let (l', allowed) = step F iter l call in
        (allowed ≡ true) × PairsPay n l' × CeilingsPay n l'
  unfolding step allow
  step-pays n l call a b =
      let l₁ = (charge_global F l call.now call.op).0 in
      let (first, ceilings) = charge_global-pays n l call.now call.op b in
      let (second, pairs) =
        charge_tenant-pays n l₁ call.now call.tenant_id call.op
          (charge_global-PairsPay (suc n) l call.now call.op a) in
      rw first
        (second, pairs, charge_tenant-CeilingsPay n l₁ call.now call.tenant_id call.op ceilings)

  answers_pay :
      (n : ℕ) (l : RateLimiter F) (calls : List Call)
      → length calls ≤ n
      → PairsPay n l
      → CeilingsPay n l
      → All (λ b. b ≡ true) (answers F iter l calls)
  unfolding answers
  answers_pay n l [] h a b = tt
  answers_pay zero l (call ∷ calls) h a b = absurd (omega arith)
  answers_pay (suc n) l (call ∷ calls) h a b =
      let (answer, a', b') = step-pays n l call a b in
      (answer, answers_pay n (step F iter l call).0 calls (omega arith) a' b')

-- Under exact arithmetic and with a whole refill rate, a fresh limiter grants every call of a burst
-- that is no longer than its capacity, whatever the tenants, the operations and the readings of
-- the clock, and in whatever order the map is iterated.
pub burst_granted :
    {F : F64} (e : IsExact F) (iter : List (Key × Bucket F) → List (Key × Bucket F))
    (iter_perm : (m : List (Key × Bucket F)) → Perm (iter m) m) (capacity r : ℕ) (calls : List Call)
    → length calls ≤ capacity
    → All (λ b. b ≡ true) (answers F iter (new F capacity (F.from r)) calls)
unfolding new lookup
burst_granted {F} e iter iter_perm capacity r calls h =
    answers_pay e iter iter_perm capacity (new F capacity (F.from r)) calls h
      (record {
        well = new-IsWellFormed F capacity (F.from r);
        pairs = λ k. tt;
        capacity = omega (arith, e.val_from capacity);
        rate = (r, refl);
      })
      (record {
        operations = λ op. tt;
        capacity = omega (arith, ap e.val (e.mul_from capacity 50), e.val_from (capacity * 50));
        rate = (r * 50, e.mul_from r 50);
      })
