-- ===== src/Limits/Credit.antt =====
-- What the ceiling of an operation can still grant, and what a call takes out of it.
use ai_auth.Common.{ℕ, ◌+◌, ◌-◌, ◌*◌, ◌≤◌, ◌≡◌, refl, ap, List, Bool, Option, none, some, arith}
use ai_auth.Text.{Str, Str-discrete}
use ai_auth.Limits.{Key, Bucket, RateLimiter, charge_global, or_insert, take_token}
use ai_auth.Limits.Float.{F64, IsExact}
use ai_auth.HashMap.{lookup, lookup-insert_self}
use ai_auth.Limits.Refill.{price, take_token_lem}

module _ {F : F64} (e : IsExact F) (iter : List (Key × Bucket F) → List (Key × Bucket F)) (op : Str)
    (r : ℕ) where
  open e use {val}

  -- What the ceiling of `op` can still grant up to the time `end`, in billionths of a token, when
  -- the clock stands at `start`.
  unfoldable pub credit_of : Option (Bucket F) → F.f64 → ℕ → ℕ → ℕ
  credit_of none capacity start end = val capacity + (end - start) * r
  credit_of (some b) capacity start end = val b.tokens + (end - b.last) * r

  -- The ceiling's bucket is not stamped in the future.
  abbrev pub Stamped : Option (Bucket F) → ℕ → Type 0
  Stamped none start = Unit
  Stamped (some b) start = b.last ≤ start

  unfoldable pub credit : RateLimiter F → ℕ → ℕ → ℕ
  credit l start end = credit_of (lookup Str-discrete op l.global) l.global_capacity start end

  span : (a b c : ℕ) → a ≤ b → b ≤ c → (c - a) * r ≡ (b - a) * r + (c - b) * r
  span a b c h k =
      let parts : c - a ≡ (b - a) + (c - b) = omega arith in
      omega (arith, ap (λ (t : ℕ). t * r) parts)

  -- A late reading credits an interval again, which the skew bounds.
  span-skewed :
      (skew last now end : ℕ)
      → last ≤ now + skew
      → now ≤ end
      → last ≤ end
      → (now - last) * r + (end - now) * r ≤ (end - last) * r + skew * r
  span-skewed skew last now end h k j =
      let slack = (end - last) + skew - ((now - last) + (end - now)) in
      let parts : (end - last) + skew ≡ (now - last) + (end - now) + slack = omega arith in
      omega (arith, ap (λ (t : ℕ). t * r) parts)

  -- A call pays for its token out of the credit, and what the skew adds to it.
  pub take-credit :
      (skew high now end : ℕ) (o : Option (Bucket F)) (capacity : F.f64)
      → Stamped o high
      → high ≤ now + skew
      → now ≤ end
      → high ≤ end
      → let (b, allowed) = take_token F (or_insert F o capacity now) now capacity (F.from r) in
        val b.tokens + (end - b.last) * r + price allowed ≤ credit_of o capacity high end + skew * r
  unfolding credit_of or_insert
  take-credit skew high now end none capacity s h k j =
      let (_, paid, stamp) =
        take_token_lem e (record { tokens = capacity; last = now }) now r capacity in
      omega (arith, paid, ap (λ (t : ℕ). (end - t) * r) stamp, span-skewed skew high now end h k j)
  take-credit skew high now end (some b) capacity s h k j =
      let (_, paid, stamp) = take_token_lem e b now r capacity in
      let late : b.last ≤ now + skew = omega arith in
      let before : b.last ≤ end = omega arith in
      omega (
        arith,
        paid,
        ap (λ (t : ℕ). (end - t) * r) stamp,
        span-skewed skew b.last now end late k before,
      )

  -- The limiter's ceiling for `op` refills at `r` tokens a second and is not stamped ahead.
  pub record Serves (l : RateLimiter F) (start : ℕ) : Type 0 where
    pub rate : l.global_refill_per_sec ≡ F.from r
    pub stamped : Stamped (lookup Str-discrete op l.global) start

  pub Stamped-mono :
      (o : Option (Bucket F)) (start now : ℕ) → start ≤ now → Stamped o start → Stamped o now
  Stamped-mono none start now h s = tt
  Stamped-mono (some b) start now h s = omega arith

  pub credit_of_mono :
      (o : Option (Bucket F)) (capacity : F.f64) (start now end : ℕ)
      → start ≤ now
      → now ≤ end
      → credit_of o capacity now end ≤ credit_of o capacity start end
  unfolding credit_of
  credit_of_mono none capacity start now end h k = omega (arith, span start now end h k)
  credit_of_mono (some b) capacity start now end h k = omega arith

  pub charged_bucket : RateLimiter F → ℕ → Bucket F × Bool
  charged_bucket l now =
      take_token F (or_insert F (lookup Str-discrete op l.global) l.global_capacity now) now
        l.global_capacity l.global_refill_per_sec

  pub charged_bucket-rate :
      (l : RateLimiter F) (now : ℕ)
      → l.global_refill_per_sec ≡ F.from r
      → charged_bucket l now
        ≡ take_token F
            (or_insert F (lookup Str-discrete op l.global) l.global_capacity now)
            now
            l.global_capacity
            (F.from r)
  unfolding charged_bucket
  charged_bucket-rate l now h = ap (take_token F _ now l.global_capacity) h

  pub charge_global-charged :
      (l : RateLimiter F) (now : ℕ)
      → (lookup Str-discrete op (charge_global F l now op).0.global ≡ some (charged_bucket l now).0)
        × ((charge_global F l now op).1 ≡ (charged_bucket l now).1)
  unfolding charge_global charged_bucket
  charge_global-charged l now = (lookup-insert_self Str-discrete op _ l.global, refl)
