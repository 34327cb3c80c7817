-- ===== src/Scenarios/Limits.antt =====
-- crypto/src/limits.rs: the tests of the rate limiter. `SharedClock` is a clock that a test sets.
use ai_auth.Common.{
  ℕ, zero, suc, ◌+◌, ◌*◌, Bool, true, not, ◌&&◌, ◌==◌, ◌++◌, List, [], ◌∷◌, leb, length,
  if◌then◌else◌,
}
use ai_auth.Limits
use ai_auth.Limits.{Key, Bucket, RateLimiter, allow}
use ai_auth.Limits.Float.{F64, nano}
use ai_auth.Text.{Str, str}
use ai_auth.Text.Decimal.{decimal}

module _ (F : F64) (iter : List (Key × Bucket F) → List (Key × Bucket F)) where
  -- A limiter and the clock that it shares with the test.
  pub record Shared : Type 0 where
    pub l : RateLimiter F
    pub offset : ℕ

  unfoldable pub limiter : ℕ → F.f64 → Shared
  limiter capacity refill = record { l = Limits.new F capacity refill; offset = 0 }

  unfoldable pub advance : ℕ → Shared → Shared
  advance d s = record s { offset = s.offset + d }

  unfoldable pub ask : Shared → Str → Str → Shared × Bool
  ask s tenant_id op =
      let (l', allowed) = allow F iter s.l s.offset tenant_id op in (record s { l = l' }, allowed)

  -- A line of a test: an assertion on a call, or time that passes.
  pub data Line : Type 0 where
    allows refuses : Str → Str → Line
    passes : ℕ → Line

  unfoldable pub passing : List Line → Shared → Bool
  unfolding ask advance
  passing [] s = true
  passing (allows tenant_id op ∷ rest) s =
      let (s', allowed) = ask s tenant_id op in allowed && passing rest s'
  passing (refuses tenant_id op ∷ rest) s =
      let (s', allowed) = ask s tenant_id op in not allowed && passing rest s'
  passing (passes d ∷ rest) s = passing rest (advance d s)

  abbrev pub t1 : Line
  t1 = allows (str "t1") (str "decrypt_field")

  abbrev pub over : Line
  over = refuses (str "t1") (str "decrypt_field")

  unfoldable pub a_burst_within_capacity_is_allowed : Bool
  a_burst_within_capacity_is_allowed = passing (t1 ∷ t1 ∷ t1 ∷ t1 ∷ t1 ∷ []) (limiter 5 (F.from 1))

  unfoldable pub exceeding_capacity_is_refused : Bool
  exceeding_capacity_is_refused =
      passing (t1 ∷ t1 ∷ t1 ∷ t1 ∷ t1 ∷ over ∷ []) (limiter 5 (F.from 1))

  unfoldable pub tokens_refill_over_time : Bool
  tokens_refill_over_time =
      passing (t1 ∷ t1 ∷ over ∷ passes (1 * nano) ∷ t1 ∷ []) (limiter 2 (F.from 1))

  unfoldable pub refill_never_exceeds_capacity : Bool
  refill_never_exceeds_capacity =
      let granted = allows (str "t1") (str "op") in
      passing
        (granted
          ∷ passes (3600 * nano)
          ∷ granted
          ∷ granted
          ∷ granted
          ∷ refuses (str "t1") (str "op")
          ∷ [])
        (limiter 3 (F.from 100))

  unfoldable pub one_tenant_cannot_exhaust_anothers_budget : Bool
  one_tenant_cannot_exhaust_anothers_budget =
      let noisy = allows (str "noisy") (str "op") in
      passing
        (noisy ∷ noisy ∷ refuses (str "noisy") (str "op") ∷ allows (str "quiet") (str "op") ∷ [])
        (limiter 2 (F.from 1))

  unfoldable pub operations_are_budgeted_separately : Bool
  operations_are_budgeted_separately =
      passing (t1 ∷ over ∷ allows (str "t1") (str "blind_index") ∷ []) (limiter 1 (F.from 1))

  -- The calls of `n` tenants, numbered from `i`, and how many of them are allowed.
  unfoldable pub invents : Str → Str → ℕ → ℕ → Shared → Shared × ℕ
  unfolding ask
  invents prefix op zero i s = (s, 0)
  invents prefix op (suc n) i s =
      let (s', allowed) = ask s (prefix ++ decimal i) op in
      let (u, count) = invents prefix op n (1 + i) s' in (u, (if allowed then 1 else 0) + count)

  unfoldable pub bucket_map_stays_bounded_against_invented_tenants : Bool
  bucket_map_stays_bounded_against_invented_tenants =
      let s = limiter 4 (F.from 1000) in
      let small : Shared = record s { l = record s.l { max_buckets = 16 } } in
      leb (length (invents (str "tenant-") (str "op") 500 0 small).0.l.buckets) 16

  unfoldable pub a_global_ceiling_binds_a_caller_inventing_tenants : Bool
  a_global_ceiling_binds_a_caller_inventing_tenants =
      (invents (str "invented-") (str "decrypt_field") 500 0 (limiter 2 (F.from 0))).1 == 100
