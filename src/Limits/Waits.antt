-- ===== src/Limits/Waits.antt =====
-- The ceiling of an operation that is refilled, under concurrent calls: a call that waits for the
-- lock of `global` with an early reading of the clock has the ceiling credit the wait again.
use ai_auth.Common.{ℕ, ◌+◌, ◌-◌, ◌*◌, ◌≤◌, ◌≡◌, refl, ap, ◌∙◌, List, [], arith}
use ai_auth.HashMap.{lookup}
use ai_auth.Limits.{RateLimiter, Key, Bucket, new}
use ai_auth.Limits.Through.{through, count}
use ai_auth.Limits.Float.{F64, IsExact, nano}
use ai_auth.Limits.Credit.{credit_of, credit}
use ai_auth.Limits.Threads.{
  Thread, waiting, timed, passed, answered, left, IsNew, System, Reach, advance,
}
use ai_auth.Schedule
use ai_auth.Schedule.{total}
use ai_auth.Schedule.Account
use ai_auth.Schedule.Account.{Account}
use ai_auth.Text.{Str}
use ai_auth.Limits.Accrued.{wait, IsTimely, IsTimely-mono, Accrued, ticks-Accrued, advance-Accrued}

module _ {F : F64} (iter : List (Key × Bucket F) → List (Key × Bucket F)) (op : Str) where
  -- The waits of the calls of `op` for the lock of `global`, in all.
  abbrev pub waits : {s u : System F iter} → Reach F iter s u → ℕ
  waits = Schedule.waits (advance F iter) left IsNew (wait op)

module _ {F : F64} (e : IsExact F) (iter : List (Key × Bucket F) → List (Key × Bucket F)) (op : Str)
    (r : ℕ) where
  module _ (start budget : ℕ) where
    fresh : (clock : ℕ) (t : Thread) → IsNew t → IsTimely clock t × (through op t ≡ 0)
    fresh clock (waiting tenant_id name) new = (tt, refl)
    fresh clock (timed now tenant_id name) new = elim new [ ]
    fresh clock (passed now tenant_id name) new = elim new [ ]
    fresh clock (answered name allowed) new = elim new [ ]

    abbrev account : Account (advance F iter) IsNew
    account = record {
      Q = IsTimely;
      weight = through op;
      wait = wait op;
      A = Accrued e iter op r start budget;
      later = λ clock d t. IsTimely-mono clock (clock + d) t (omega arith);
      fresh = fresh;
      tick = ticks-Accrued e iter op r start budget;
      step = advance-Accrued e iter op r start budget;
    }

times_mono : (a b r : ℕ) → a ≤ b → a * r ≤ b * r
times_mono a b r h = grind arith

times_elapsed : (later clock r : ℕ) → later * r ≤ clock * r + (later - clock) * r
times_elapsed later clock r =
    omega (arith, times_mono later (clock + (later - clock)) r (omega arith))

module _ {F : F64} (e : IsExact F) (iter : List (Key × Bucket F) → List (Key × Bucket F)) (op : Str)
    (capacity r start : ℕ) where
  -- The account of a limiter with a whole refill rate, opened at `start`.
  abbrev pub Opened : ℕ → RateLimiter F → ℕ → ℕ → Type 0
  Opened = Accrued e iter op (r * 50) start (50 * capacity * nano)

  pub new-Opened : Opened start (new F capacity (F.from r)) 0 0
  unfolding new lookup credit credit_of
  new-Opened =
      let full : e.val (F.mul (F.from capacity) (F.from 50)) ≡ capacity * 50 * nano =
        ap e.val (e.mul_from capacity 50) ∙ e.val_from (capacity * 50) in
      record {
        serves = record { rate = e.mul_from r 50; stamped = tt };
        within = omega (arith, full, times_mono (start - start) 0 (r * 50) (omega arith));
      }

  pub Opened-le :
      (clock : ℕ) (l : RateLimiter F) (n w : ℕ)
      → Opened clock l n w
      → n * nano ≤ 50 * capacity * nano + (clock - start + w) * (50 * r)
  Opened-le clock l n w p = omega (arith, p.within, times_elapsed clock start (r * 50))

-- Under exact arithmetic, a fresh limiter with a whole refill rate has, whatever tenants the calls
-- name and however their steps interleave, no more calls of an operation that its ceiling let
-- through and that were not refused since than fifty times its capacity, plus fifty times its refill
-- rate for the time that passed, and the same again for the time that the operation's calls spent
-- between reading the clock and taking the lock of the ceilings.
pub count-le_waits :
    {F : F64} (e : IsExact F) (iter : List (Key × Bucket F) → List (Key × Bucket F)) (op : Str)
    (capacity r clock : ℕ) (u : System F iter)
    (reach : Reach F iter
      (record { shared = new F capacity (F.from r); clock = clock; threads = [] })
      u)
    → count op u.threads * nano
      ≤ 50 * capacity * nano + (u.clock - clock + waits iter op reach) * (50 * r)
unfolding total
count-le_waits {F} e iter op capacity r clock u reach =
    let p : Account.Holds (advance F iter) left IsNew
        (account e iter op (r * 50) clock (50 * capacity * nano))
        (record { shared = new F capacity (F.from r); clock = clock; threads = [] }) 0 =
      record { known = tt; account = new-Opened e iter op capacity r clock } in
    let q =
      Account.Reach-Holds (advance F iter) left IsNew
        (account e iter op (r * 50) clock (50 * capacity * nano)) _ u reach p in
    Opened-le e iter op capacity r clock u.clock u.shared (count op u.threads) (waits iter op reach)
      q.account

-- Without a refill rate, the calls that are let through are at most fifty times the capacity.
count-le_ceiling :
    {F : F64} (e : IsExact F) (iter : List (Key × Bucket F) → List (Key × Bucket F)) (op : Str)
    (capacity clock : ℕ) (u : System F iter)
    → Reach F iter (record { shared = new F capacity (F.from 0); clock = clock; threads = [] }) u
    → count op u.threads ≤ 50 * capacity
count-le_ceiling e iter op capacity clock u reach =
    omega (arith, count-le_waits e iter op capacity 0 clock u reach)
