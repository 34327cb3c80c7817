-- ===== src/Limits/Contract.antt =====
-- What the limiter promises, without its maps: an account for every pair of a tenant and an
-- operation and one for every operation, all there from the start. Amounts are in billionths of a
-- token.
use ai_auth.Common.{
  ℕ, ◌+◌, ◌-◌, ◌*◌, Bool, true, false, List, [], ◌∷◌, leb, min, ite, if◌then◌else◌,
}
use ai_auth.Text.{Str, Str-discrete}
use ai_auth.Limits.{Key, Key-discrete}
use ai_auth.Limits.Float.{nano}
use ai_auth.Limits.Trace.{Call}

pub record Account : Type 0 where
  pub tokens : ℕ
  pub last : ℕ

-- What an account holds at most, and what it earns in a second.
pub record Terms : Type 0 where
  pub capacity : ℕ
  pub rate : ℕ

abbrev pub balance : Terms → Account → ℕ → ℕ
balance t a now = min (a.tokens + (now - a.last) * t.rate) t.capacity

-- One token is spent where the balance has one.
unfoldable pub spend : Terms → Account → ℕ → Account × Bool
spend t a now =
    let held = balance t a now in
    if leb nano held
    then (record { tokens = held - nano; last = now }, true)
    else (record { tokens = held; last = now }, false)

pub record Ledger : Type 0 where
  pub pairs : Key → Account
  pub operations : Str → Account

pub record Contract : Type 0 where
  pub pair : Terms
  pub operation : Terms

-- A function, changed at one key.
abbrev pub update : {A K : Type 0} → Discrete K → (K → A) → K → A → K → A
update dec f k a j = ite (dec k j) a (f j)

-- The operation's account pays first; the pair's account is asked only if that one paid.
unfoldable pub grant : Contract → Ledger → Call → Ledger × Bool
grant c g call =
    let (a, paid) = spend c.operation (g.operations call.op) call.now in
    let charged : Ledger = record g { operations = update Str-discrete g.operations call.op a } in
    let k : Key = (call.tenant_id, call.op) in
    let (b, allowed) = spend c.pair (g.pairs k) call.now in
    if paid
    then (record charged { pairs = update Key-discrete g.pairs k b }, allowed)
    else (charged, false)

unfoldable pub grants : Contract → Ledger → List Call → List Bool
grants c g [] = []
grants c g (call ∷ calls) = let (g', allowed) = grant c g call in allowed ∷ grants c g' calls

-- Every account is full.
abbrev pub opened : Contract → ℕ → Ledger
opened c start = record {
  pairs = λ k. record { tokens = c.pair.capacity; last = start };
  operations = λ op. record { tokens = c.operation.capacity; last = start };
}
