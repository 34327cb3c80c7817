-- ===== src/Limits/Matching.antt =====
-- One bucket of the map, which may be gone, against one account.
use ai_auth.Common.{
  ℕ, ◌+◌, ◌-◌, ◌*◌, ◌≤◌, ◌≡◌, if_pos, if_neg, ap, sym, ◌∙◌, refl, Option, none, some, List, arith,
  min, inl, inr, if◌then◌else◌, Bool-cases,
}
use ai_auth.HashMap.{lookup, insert, lookup-insert_self, lookup-insert_ne}
use ai_auth.Limits.{Bucket, refilled, or_insert, take_token}
use ai_auth.Limits.Contract.{Account, Terms, balance, spend, update}
use ai_auth.Limits.Float.{F64, IsExact}
use ai_auth.Limits.Refill.{take_token_lem, refilled-val}

module _ {F : F64} (e : IsExact F) where
  open e use {val}

  -- A bucket holds what its account holds. Where there is none, the account is full by now.
  abbrev pub Matches : Terms → ℕ → Option (Bucket F) → Account → Type 0
  Matches t now none a = t.capacity ≤ a.tokens + (now - a.last) * t.rate
  Matches t now (some b) a = (val b.tokens ≡ a.tokens) × (b.last ≡ a.last)

  pub Matches-later :
      (t : Terms) (now later : ℕ) (o : Option (Bucket F)) (a : Account)
      → now ≤ later
      → Matches t now o a
      → Matches t later o a
  Matches-later t now later none a h m =
      let more : (now - a.last) * t.rate ≤ (later - a.last) * t.rate = grind arith in omega arith
  Matches-later t now later (some b) a h m = m

  -- The bucket that is taken from gives the answer that the account gives, and matches it again.
  pub take_token-Matches :
      (t : Terms) (capacity : F.f64) (now : ℕ) (o : Option (Bucket F)) (a : Account)
      → val capacity ≡ t.capacity
      → Matches t now o a
      → let (b, allowed) = take_token F (or_insert F o capacity now) now capacity (F.from t.rate) in
        let (a', paid) = spend t a now in (allowed ≡ paid) × Matches t now (some b) a'
  unfolding or_insert spend
  take_token-Matches t capacity now none a c m =
      let (allowed, paid, stamp) =
        take_token_lem e (record { tokens = capacity; last = now }) now t.rate capacity in
      let full : balance t a now ≡ t.capacity = omega arith in
      let same : min (val capacity + (now - now) * t.rate) (val capacity) ≡ t.capacity =
        omega arith in
      ground (arith, allowed, paid, stamp, full, same)
  take_token-Matches t capacity now (some b) a c (tokens, last) =
      let (allowed, paid, stamp) = take_token_lem e b now t.rate capacity in
      let same : min (val b.tokens + (now - b.last) * t.rate) (val capacity) ≡ balance t a now =
        rw (tokens, last, c) refl in
      ground (arith, allowed, paid, stamp, same)

  -- The lossless pass drops a bucket only where its account is full.
  pub retained-Matches :
      (t : Terms) (capacity refill : F.f64) (now : ℕ) (o : Option (Bucket F)) (a : Account)
      → val capacity ≡ t.capacity
      → refill ≡ F.from t.rate
      → Matches t now o a
      → Matches t now
          (elim o [
            | none ↦ none
            | some b ↦ if F.lt (refilled F b now refill) capacity then some b else none
          ])
          a
  retained-Matches t capacity refill now none a c r m = m
  retained-Matches t capacity refill now (some b) a c r (tokens, last) =
      elim (Bool-cases (F.lt (refilled F b now refill) capacity)) [
        | inl short ↦ rw short (tokens, last)
        | inr full ↦
            let test = e.lt_val (refilled F b now refill) capacity in
            let worth : val (refilled F b now refill) ≡ val b.tokens + (now - b.last) * t.rate =
              ap (λ (x : F.f64). val (refilled F b now x)) r ∙ refilled-val e b now t.rate in
            let worth' : val (refilled F b now refill) ≡ a.tokens + (now - a.last) * t.rate =
              rw (← tokens, ← last) worth in
            rw full (ground (arith, test, worth'))
      ]

  -- The same at a rate that is the terms'.
  pub charged-Matches :
      (t : Terms) (capacity refill : F.f64) (now : ℕ) (o : Option (Bucket F)) (a : Account)
      → val capacity ≡ t.capacity
      → refill ≡ F.from t.rate
      → Matches t now o a
      → let (b, allowed) = take_token F (or_insert F o capacity now) now capacity refill in
        let (a', paid) = spend t a now in (allowed ≡ paid) × Matches t now (some b) a'
  charged-Matches t capacity refill now o a c r m = rw r (take_token-Matches t capacity now o a c m)

  -- A map and a function that match, after a write of one key to both.
  pub insert-Matches :
      {K : Type 0} (dec : Discrete K) (t : Terms) (now : ℕ) (k : K) (b : Bucket F) (a : Account)
      (m : List (K × Bucket F)) (f : K → Account)
      → Matches t now (some b) a
      → ((j : K) → Matches t now (lookup dec j m) (f j))
      → (j : K) → Matches t now (lookup dec j (insert dec k b m)) (update dec f k a j)
  insert-Matches dec t now k b a m f written all j = elim (dec k j) [
    | yes p ↦
        let found : lookup dec j (insert dec k b m) ≡ some b =
          ap (λ x. lookup dec x (insert dec k b m)) (sym p) ∙ lookup-insert_self dec k b m in
        rw (if_pos _ p) (rw found written)
    | no p ↦ rw (if_neg _ p) (rw (lookup-insert_ne dec k j b m p) (all j))
  ]
