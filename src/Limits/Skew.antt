-- ===== src/Limits/Skew.antt =====
-- How many calls of an operation are granted when calls take the locks in another order than they
-- read the clock.
use ai_auth.Common.{
  ℕ, ◌+◌, ◌-◌, ◌*◌, ◌≤◌, ◌≡◌, ◌≢◌, refl, ap, ◌∙◌, if_pos, if_neg, List, [], ◌∷◌, Bool, true, false,
  some, arith, ite, if◌then◌else◌, length,
}
use Prim.Native.Nat.{max}
use ai_auth.Text.{Str, Str-discrete}
use ai_auth.Limits.{Key, Bucket, RateLimiter, new, charge_global, charge_tenant, allow, or_insert}
use ai_auth.Limits.Float.{F64, IsExact, nano}
use ai_auth.Limits.Isolation.{lookup-allow_global, global-charge_tenant}
use ai_auth.HashMap.{lookup}
use ai_auth.Limits.Refill.{price, take_token_lem}
use ai_auth.Limits.Trace.{Call, step, granted}
use ai_auth.Limits.Credit.{
  Stamped-mono, credit_of, credit_of_mono, credit, Serves, take-credit, charged_bucket-rate,
  charge_global-charged,
}

-- From the latest reading so far on, no call's reading is more than `skew` before a reading that an
-- earlier call came with, and all are at or before `end`.
abbrev pub IsSkewed : ℕ → ℕ → ℕ → List Call → Type 0
IsSkewed skew high end [] = high ≤ end
IsSkewed skew high end (c ∷ cs) = (high ≤ c.now + skew) × IsSkewed skew (max high c.now) end cs

IsSkewed-le : (skew high end : ℕ) (calls : List Call) → IsSkewed skew high end calls → high ≤ end
IsSkewed-le skew high end [] o = o
IsSkewed-le skew high end (c ∷ cs) (h, o) =
    omega (arith, IsSkewed-le skew (max high c.now) end cs o)

price-if : (b : Bool) → (if b then 1 else 0) * nano ≡ price b
price-if true = refl
price-if false = refl

module _ {F : F64} (e : IsExact F) (iter : List (Key × Bucket F) → List (Key × Bucket F)) (op : Str)
    (r : ℕ) where
  open e use {val}

  -- `allow` settles the ceiling first: its answer is no better, and its ceilings are the same.
  allow-ceiling :
      (l : RateLimiter F) (now : ℕ) (tenant_id : Str)
      → ((allow F iter l now tenant_id op).0.global ≡ (charge_global F l now op).0.global)
        × (price (allow F iter l now tenant_id op).1 ≤ price (charge_global F l now op).1)
  unfolding allow
  allow-ceiling l now tenant_id =
      ground (arith, global-charge_tenant F iter (charge_global F l now op).0 now tenant_id op)

  allow-limits :
      (l : RateLimiter F) (now : ℕ) (tenant_id any : Str)
      → let l' = (allow F iter l now tenant_id any).0 in
        (l'.global_capacity ≡ l.global_capacity)
        × (l'.global_refill_per_sec ≡ l.global_refill_per_sec)
  unfolding allow charge_tenant charge_global
  allow-limits l now tenant_id any = ground arith

  -- A call of `op` pays for its token out of the credit and the skew, and leaves the ceiling stamped
  -- no later than the latest reading.
  allow-credit :
      (skew : ℕ) (l : RateLimiter F) (high now end : ℕ) (tenant_id : Str)
      → Serves e iter op r l high
      → high ≤ now + skew
      → now ≤ end
      → high ≤ end
      → let (l', allowed) = allow F iter l now tenant_id op in
        Serves e iter op r l' (max high now)
        × (credit e iter op r l' (max high now) end + price allowed
            ≤ credit e iter op r l high end + skew * r)
  unfolding credit credit_of
  allow-credit skew l high now end tenant_id s h k j =
      let o = lookup Str-discrete op l.global in
      let (capacity, rate) = allow-limits l now tenant_id op in
      let (ceiling, answer) = allow-ceiling l now tenant_id in
      let (new_bucket, new_answer) = charge_global-charged e iter op r l now in
      let charged = charged_bucket-rate e iter op r l now s.rate in
      let found = ap (lookup Str-discrete op) ceiling ∙ new_bucket ∙ ap (λ p. some p.0) charged in
      let (_, _, stamp) =
        take_token_lem e (or_insert F o l.global_capacity now) now r l.global_capacity in
      (
        record { rate = rate ∙ s.rate; stamped = rw found (omega (arith, stamp)) },
        rw found (
            omega (
              arith,
              answer,
              ap price (new_answer ∙ ap (λ p. p.1) charged),
              take-credit e iter op r skew high now end o l.global_capacity s.stamped h k j,
            )),
      )

  other-credit :
      (l : RateLimiter F) (high later now end : ℕ) (tenant_id other : Str)
      → other ≢ op
      → Serves e iter op r l high
      → high ≤ later
      → later ≤ end
      → let l' = (allow F iter l now tenant_id other).0 in
        Serves e iter op r l' later
        × (credit e iter op r l' later end ≤ credit e iter op r l high end)
  unfolding credit
  other-credit l high later now end tenant_id other d s h k =
      let same = lookup-allow_global F iter l now tenant_id other op d in
      let (capacity, rate) = allow-limits l now tenant_id other in
      (
        record {
          rate = rate ∙ s.rate;
          stamped =
              rw same
                (Stamped-mono e iter op r (lookup Str-discrete op l.global) high later h s.stamped);
        },
        rw (same, capacity)
            (credit_of_mono e iter op r (lookup Str-discrete op l.global) l.global_capacity high
              later end h k),
      )

  -- The tokens of `op` that a call of `name` uses up.
  abbrev charge : Str → Bool → ℕ
  charge name allowed = ite (Str-discrete name op) (if allowed then 1 else 0) 0

  call-credit :
      (skew : ℕ) (l : RateLimiter F) (high now end : ℕ) (tenant_id name : Str)
      → Serves e iter op r l high
      → high ≤ now + skew
      → max high now ≤ end
      → let (l', allowed) = allow F iter l now tenant_id name in
        Serves e iter op r l' (max high now)
        × (credit e iter op r l' (max high now) end + charge name allowed * nano
            ≤ credit e iter op r l high end + skew * r)
  call-credit skew l high now end tenant_id name s h k =
      let before : high ≤ end = omega arith in
      let within : now ≤ end = omega arith in
      let later : high ≤ max high now = omega arith in
      elim (Str-discrete name op) [
        | yes same ↦ rw (if_pos _ same) (
            rw same (
              let (s', paid) = allow-credit skew l high now end tenant_id s h within before in
              (s', omega (arith, paid, price-if (allow F iter l now tenant_id op).1))))
        | no other ↦
            let (s', paid) =
              other-credit l high (max high now) now end tenant_id name other s later k in
            (s', rw (if_neg _ other) (omega (arith, paid)))
      ]

  granted-credit :
      (skew : ℕ) (l : RateLimiter F) (high end : ℕ) (calls : List Call)
      → Serves e iter op r l high
      → IsSkewed skew high end calls
      → granted F iter op l calls * nano ≤ credit e iter op r l high end + length calls * (skew * r)
  unfolding granted step
  granted-credit skew l high end [] s o = omega arith
  granted-credit skew l high end (c ∷ cs) s (h, o) =
      let high' = max high c.now in
      let (s', paid) =
        call-credit skew l high c.now end c.tenant_id c.op s h (IsSkewed-le skew high' end cs o) in
      let l' = (allow F iter l c.now c.tenant_id c.op).0 in
      omega (arith, paid, granted-credit skew l' high' end cs s' o)

-- Under exact arithmetic, from a fresh limiter with a whole refill rate: where no call takes the
-- locks with a reading of the clock more than `skew` before one that came earlier, an operation is
-- granted at most fifty times the capacity, plus fifty times the refill rate for the time that
-- passes and for the skew once for each call.
pub granted-le_skewed :
    {F : F64} (e : IsExact F) (iter : List (Key × Bucket F) → List (Key × Bucket F)) (op : Str)
    (capacity r skew start end : ℕ) (calls : List Call)
    → IsSkewed skew start end calls
    → granted F iter op (new F capacity (F.from r)) calls * nano
      ≤ 50 * capacity * nano + (end - start) * (50 * r) + length calls * (skew * (50 * r))
unfolding new credit credit_of lookup
granted-le_skewed {F} e iter op capacity r skew start end calls o =
    let s : Serves e iter op (r * 50) (new F capacity (F.from r)) start = record {
      rate = e.mul_from r 50;
      stamped = tt;
    } in
    let scale : length calls * (skew * (r * 50)) ≡ length calls * (skew * (50 * r)) = omega arith in
    omega (
      arith,
      granted-credit e iter op (r * 50) skew (new F capacity (F.from r)) start end calls s o,
      ap e.val (e.mul_from capacity 50),
      e.val_from (capacity * 50),
      scale,
    )
