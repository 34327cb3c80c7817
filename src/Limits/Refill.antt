-- ===== src/Limits/Refill.antt =====
-- One bucket: `RateLimiter::take` under exact arithmetic, with a whole refill rate.
use ai_auth.Common.{
  ℕ, ap, sym, ◌∙◌, ◌+◌, ◌-◌, ◌*◌, ◌≤◌, ◌≡◌, Bool, true, false, none, arith, leb, min,
}
use ai_auth.Limits.{Bucket, refilled, take_token, or_insert}
use ai_auth.Limits.Float.{F64, IsExact, nano}

-- The price of an answer, in billionths of a token.
abbrev pub price : Bool → ℕ
price true = nano
price false = 0

module _ {F : F64} (e : IsExact F) where
  open e use {val}

  pub refilled-val :
      (b : Bucket F) (now r : ℕ)
      → val (refilled F b now (F.from r)) ≡ val b.tokens + (now - b.last) * r
  unfolding refilled
  refilled-val b now r = omega (
    arith,
    e.val_add b.tokens (F.mul (F.as_secs_f64 (now - b.last)) (F.from r)),
    e.val_elapsed (now - b.last) r,
  )

  -- Under exact arithmetic, with a whole refill rate, a call is granted exactly when the refilled,
  -- capped balance holds a token, the new balance is what is left of it, and the bucket is stamped
  -- with the call's time.
  pub take_token_lem :
      (b : Bucket F) (now r : ℕ) (capacity : F.f64)
      → let balance = min (val b.tokens + (now - b.last) * r) (val capacity) in
        let (b', allowed) = take_token F b now capacity (F.from r) in
        (allowed ≡ leb nano balance) × (val b'.tokens + price allowed ≡ balance) × (b'.last ≡ now)
  unfolding take_token
  take_token_lem b now r capacity =
      let before = refilled F b now (F.from r) in
      let tokens = F.minimum before capacity in
      ground (
        arith,
        e.ge_val tokens (F.from 1),
        e.val_from 1,
        e.val_minimum before capacity,
        e.val_sub tokens (F.from 1),
        refilled-val b now r,
      )

  -- The balance never exceeds the capacity, however long the bucket was idle.
  pub take_token-le_capacity :
      (b : Bucket F) (now r : ℕ) (capacity : F.f64)
      → val (take_token F b now capacity (F.from r)).0.tokens ≤ val capacity
  take_token-le_capacity b now r capacity =
      let (_, paid, _) = take_token_lem b now r capacity in omega (arith, paid)

  -- Under exact arithmetic, dropping a full bucket is lossless: the call that finds it gone gets
  -- the answer, the balance and the stamp that it would have got from the bucket.
  pub take_token-drop_full :
      (b : Bucket F) (now r : ℕ) (capacity : F.f64)
      → F.lt (refilled F b now (F.from r)) capacity ≡ false
      → let (kept, answer) = take_token F b now capacity (F.from r) in
        let (fresh, fresh_answer) =
          take_token F (or_insert F none capacity now) now capacity (F.from r) in
        (answer ≡ fresh_answer) × (val kept.tokens ≡ val fresh.tokens) × (kept.last ≡ fresh.last)
  unfolding or_insert
  take_token-drop_full b now r capacity full =
      let full_bucket : Bucket F = record { tokens = capacity; last = now } in
      let (answer, paid, stamp) = take_token_lem b now r capacity in
      let (answer', paid', stamp') = take_token_lem full_bucket now r capacity in
      let balance : min (val b.tokens + (now - b.last) * r) (val capacity) ≡ val capacity =
        ground (arith, e.lt_val (refilled F b now (F.from r)) capacity, refilled-val b now r) in
      let balance' : min (val capacity + (now - now) * r) (val capacity) ≡ val capacity =
        omega arith in
      let same = answer ∙ ap (leb nano) (balance ∙ sym balance') ∙ sym answer' in
      (same, omega (arith, paid, paid', balance, balance', ap price same), stamp ∙ sym stamp')

  -- Under exact arithmetic, the stamp is not kept from running backwards. A bucket that is empty
  -- at its stamp, with a capacity of a token at least, refuses a call at that instant. If a call
  -- with an earlier reading of the clock is served first, the time between the two readings is
  -- credited again: where it is worth a token, the same call is granted.
  pub take_token_rewind :
      (b : Bucket F) (d r : ℕ) (capacity : F.f64)
      → val b.tokens ≡ 0
      → d ≤ b.last
      → nano ≤ d * r
      → nano ≤ val capacity
      → ((take_token F b b.last capacity (F.from r)).1 ≡ false)
        × ((take_token F
              (take_token F b (b.last - d) capacity (F.from r)).0
              b.last
              capacity
              (F.from r)).1
            ≡ true)
  take_token_rewind b d r capacity empty early worth room =
      let (refused, _, _) = take_token_lem b b.last r capacity in
      let (_, paid, stamp) = take_token_lem b (b.last - d) r capacity in
      let b' = (take_token F b (b.last - d) capacity (F.from r)).0 in
      let (granted, _, _) = take_token_lem b' b.last r capacity in
      let gap : (b.last - b'.last) ≡ d = omega (arith, stamp) in
      let earned : nano ≤ (b.last - b'.last) * r =
        omega (arith, worth, ap (λ (t : ℕ). t * r) gap) in
      let still : b.last - b.last ≡ 0 = omega arith in
      (ground (arith, refused, empty, ap (λ (t : ℕ). t * r) still), ground (arith, granted, earned))
