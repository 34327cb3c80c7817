-- ===== src/Limits/Accrued.antt =====
-- What a step of a concurrent call does to the account of an operation's ceiling, which is refilled:
-- a call that comes to the lock of `global` with an early reading of the clock has the ceiling credit
-- its wait again.
use ai_auth.Common.{
  ℕ, ◌+◌, ◌-◌, ◌*◌, ◌≤◌, ◌≡◌, ◌≢◌, refl, ap, ◌∙◌, if_pos, if_neg, Bool, true, false, List, Option,
  none, some, arith, ite,
}
use ai_auth.HashMap.{lookup, lookup-insert_ne}
use ai_auth.Limits.{Key, Bucket, RateLimiter, or_insert, charge_global, charge_tenant}
use ai_auth.Limits.Through.{through, through-after, through-other, through-answered}
use ai_auth.Limits.Float.{F64, IsExact, nano}
use ai_auth.Limits.Refill.{price, take_token_lem}
use ai_auth.Limits.Credit.{
  Stamped, Stamped-mono, credit_of, credit, Serves, take-credit, charged_bucket-rate,
  charge_global-charged,
}
use ai_auth.Limits.Threads.{Thread, waiting, timed, passed, answered, after_ceiling, advance}
use ai_auth.Text.{Str, Str-discrete}

-- How long a call of `op` that takes the lock of `global` now has waited for it.
abbrev pub wait : Str → ℕ → Thread → ℕ
wait op clock (timed now tenant_id name) = ite (Str-discrete name op) (clock - now) 0
wait op clock _ = 0

-- A call has not read the clock in the future.
abbrev pub IsTimely : ℕ → Thread → Type 0
IsTimely clock (timed now tenant_id name) = now ≤ clock
IsTimely clock _ = Unit

pub IsTimely-mono :
    (clock later : ℕ) (t : Thread) → clock ≤ later → IsTimely clock t → IsTimely later t
IsTimely-mono clock later (waiting tenant_id name) h k = tt
IsTimely-mono clock later (timed now tenant_id name) h k = omega arith
IsTimely-mono clock later (passed now tenant_id name) h k = tt
IsTimely-mono clock later (answered name allowed) h k = tt

module _ {F : F64} (e : IsExact F) (iter : List (Key × Bucket F) → List (Key × Bucket F)) (op : Str)
    (r : ℕ) where
  -- `n` calls are let through at the time `clock`, with waits of `w` in all: what the ceiling still
  -- grants and the price of the calls are within a budget, what the time since `start` has refilled,
  -- and the waits again.
  module _ (start budget : ℕ) where
    pub record Accrued (clock : ℕ) (l : RateLimiter F) (n w : ℕ) : Type 0 where
      pub serves : Serves e iter op r l clock
      pub within :
          credit e iter op r l clock clock + n * nano + start * r ≤ budget + clock * r + w * r

    credit_of_ticks :
        (o : Option (Bucket F)) (capacity : F.f64) (clock d : ℕ)
        → Stamped e iter op r o clock
        → credit_of e iter op r o capacity (clock + d) (clock + d)
          ≤ credit_of e iter op r o capacity clock clock + d * r
    unfolding credit_of
    credit_of_ticks none capacity clock d s =
        let parts : (clock + d) - (clock + d) ≡ clock - clock = omega arith in
        omega (arith, ap (λ (t : ℕ). t * r) parts)
    credit_of_ticks (some b) capacity clock d s =
        let parts : (clock + d) - b.last ≡ (clock - b.last) + d = omega arith in
        omega (arith, ap (λ (t : ℕ). t * r) parts)

    pub ticks-Accrued :
        (clock d : ℕ) (l : RateLimiter F) (n w : ℕ)
        → Accrued clock l n w
        → Accrued (clock + d) l n w
    unfolding credit
    ticks-Accrued clock d l n w p =
        let o = lookup Str-discrete op l.global in
        let later : clock ≤ clock + d = omega arith in
        record {
          serves = record {
            rate = p.serves.rate;
            stamped = Stamped-mono e iter op r o clock (clock + d) later p.serves.stamped;
          };
          within =
              omega (arith, p.within, credit_of_ticks o l.global_capacity clock d p.serves.stamped);
        }

    charge_global-limits :
        (l : RateLimiter F) (now : ℕ) (name : Str)
        → let l' = (charge_global F l now name).0 in
          (l'.global_capacity ≡ l.global_capacity)
          × (l'.global_refill_per_sec ≡ l.global_refill_per_sec)
    unfolding charge_global
    charge_global-limits l now name = (refl, refl)

    charge_self :
        (clock : ℕ) (l : RateLimiter F) (now m w : ℕ) (tenant_id : Str)
        → now ≤ clock
        → Accrued clock l m w
        → let (l', within) = charge_global F l now op in
          Accrued clock l'
            (through op (after_ceiling F iter now tenant_id op within) + m)
            (w + (clock - now))
    unfolding credit credit_of
    charge_self clock l now m w tenant_id h p =
        let o = lookup Str-discrete op l.global in
        let (new_bucket, new_answer) = charge_global-charged e iter op r l now in
        let charged = charged_bucket-rate e iter op r l now p.serves.rate in
        let found = new_bucket ∙ ap (λ x. some x.0) charged in
        let (_, _, stamp) =
          take_token_lem e (or_insert F o l.global_capacity now) now r l.global_capacity in
        let paid =
          take-credit e iter op r (clock - now) clock now clock o l.global_capacity p.serves.stamped
            (omega arith) h (omega arith) in
        let let_through = through-after F iter op now tenant_id (charge_global F l now op).1 in
        let (_, rate) = charge_global-limits l now op in
        record {
          serves = record {
            rate = rate ∙ p.serves.rate;
            stamped = rw found (omega (arith, stamp, h));
          };
          within = rw found (
              omega (
                arith,
                p.within,
                paid,
                let_through,
                ap price (new_answer ∙ ap (λ x. x.1) charged),
              ));
        }

    charge_global-other :
        (l : RateLimiter F) (now : ℕ) (other : Str)
        → other ≢ op
        → lookup Str-discrete op (charge_global F l now other).0.global
          ≡ lookup Str-discrete op l.global
    unfolding charge_global
    charge_global-other l now other d = lookup-insert_ne Str-discrete other op _ l.global d

    charge-other :
        (clock : ℕ) (l : RateLimiter F) (now m w : ℕ) (tenant_id other : Str)
        → other ≢ op
        → Accrued clock l m w
        → let (l', within) = charge_global F l now other in
          Accrued clock l'
            (through op (after_ceiling F iter now tenant_id other within) + m)
            (w + 0)
    unfolding credit
    charge-other clock l now m w tenant_id other d p =
        let same = charge_global-other l now other d in
        let (capacity, rate) = charge_global-limits l now other in
        record {
          serves = record { rate = rate ∙ p.serves.rate; stamped = rw same p.serves.stamped };
          within =
              rw (same, capacity)
                (omega (arith, p.within, through-other F iter op now tenant_id other _ d));
        }

    charge-Accrued :
        (clock : ℕ) (l : RateLimiter F) (now m w : ℕ) (tenant_id name : Str)
        → now ≤ clock
        → Accrued clock l m w
        → let (l', within) = charge_global F l now name in
          Accrued clock l'
            (through op (after_ceiling F iter now tenant_id name within) + m)
            (w + ite (Str-discrete name op) (clock - now) 0)
    charge-Accrued clock l now m w tenant_id name h p = elim (Str-discrete name op) [
      | yes same ↦ rw (if_pos _ same, same) (charge_self clock l now m w tenant_id h p)
      | no d ↦ rw (if_neg _ d) (charge-other clock l now m w tenant_id name d p)
    ]

    tenant-Accrued :
        (clock : ℕ) (l : RateLimiter F) (now m w : ℕ) (tenant_id name : Str)
        → Accrued clock l (through op (passed now tenant_id name) + m) w
        → let (l', allowed) = charge_tenant F iter l now tenant_id name in
          Accrued clock l' (through op (answered name allowed) + m) w
    unfolding charge_tenant credit
    tenant-Accrued clock l now m w tenant_id name p = record {
      serves = record { rate = p.serves.rate; stamped = p.serves.stamped };
      within = omega (arith, p.within, through-answered F iter op now tenant_id name _);
    }

    pub no_wait :
        (clock : ℕ) (l : RateLimiter F) (n w : ℕ) → Accrued clock l n w → Accrued clock l n (w + 0)
    no_wait clock l n w p = record { serves = p.serves; within = omega (arith, p.within) }

    after_ceiling-IsTimely :
        (clock now : ℕ) (tenant_id name : Str) (b : Bool)
        → IsTimely clock (after_ceiling F iter now tenant_id name b)
    unfolding after_ceiling
    after_ceiling-IsTimely clock now tenant_id name true = tt
    after_ceiling-IsTimely clock now tenant_id name false = tt

    pub advance-Accrued :
        (clock : ℕ) (l : RateLimiter F) (t : Thread) (m w : ℕ)
        → IsTimely clock t
        → Accrued clock l (through op t + m) w
        → let (l', t') = advance F iter clock l t in
          IsTimely clock t' × Accrued clock l' (through op t' + m) (w + wait op clock t)
    unfolding advance
    advance-Accrued clock l (waiting tenant_id name) m w h p =
        (omega arith, no_wait clock l (0 + m) w p)
    advance-Accrued clock l (timed now tenant_id name) m w h p = (
      after_ceiling-IsTimely clock now tenant_id name _,
      charge-Accrued clock l now m w tenant_id name h
          (record { serves = p.serves; within = omega (arith, p.within) }),
    )
    advance-Accrued clock l (passed now tenant_id name) m w h p =
        (tt, no_wait clock _ _ w (tenant-Accrued clock l now m w tenant_id name p))
    advance-Accrued clock l (answered name allowed) m w h p = (tt, no_wait clock l _ w p)
