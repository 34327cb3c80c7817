-- ===== src/Service/Begins.antt =====
-- How every handler of service.rs begins, in three cases.
use ai_auth.Common.{
  ℕ, ◌≡◌, ◌≢◌, inl, inr, refl, Bool, true, false, Option, none, some, ok, err, Result-cases,
  Bool-cases,
}
use ai_auth.Context.{validate}
use ai_auth.Context.Gate.{Admits, AdmitsRequest, validate_iff}
use ai_auth.Limits.{RateLimiter, allow}
use ai_auth.Proto.{RequestContext, Status, resource_exhausted}
use ai_auth.Proto.Purpose.{Purpose}
use ai_auth.Service.Guard.{Guard, State, Outcome, returned, Handler, audit, within_limits, gated}
use ai_auth.Text.{Str, str}

module _ (g : Guard) where
  -- The limiter after the call's charge, and whether it granted the call.
  abbrev pub charge : ℕ → Str → RequestContext → State g → RateLimiter g.floats × Bool
  charge now op c s = allow g.floats g.iter s.limiter now c.tenant_id op

  abbrev pub charged : ℕ → Str → RequestContext → State g → State g
  charged now op c s = record s { limiter = (charge now op c s).0 }

  -- The three ways in which a handler begins.
  pub data Begins {A : Type 0} (now : ℕ) (op : Str) (want : Purpose) (sr : Bool)
      (ctx : Option RequestContext) (body : Str → Handler g A) (s : State g)
      (r : Outcome A × State g) : Type 0 where
    refused :
        (e : Status)
        → ¬ AdmitsRequest ctx want sr
        → validate ctx want sr ≡ err e
        → r ≡ (returned (err e), audit g op ctx (str "rejected") s)
        → Begins now op want sr ctx body s r
    limited :
        (c : RequestContext)
        → ctx ≡ some c
        → Admits c want sr
        → (charge now op c s).1 ≡ false
        → r ≡ (
          returned (err (resource_exhausted (str "operation budget exceeded"))),
          audit g op ctx (str "rate_limited") (charged now op c s),
        )
        → Begins now op want sr ctx body s r
    admitted :
        (c : RequestContext)
        → ctx ≡ some c
        → Admits c want sr
        → (charge now op c s).1 ≡ true
        → r ≡ body c.tenant_id (charged now op c s)
        → Begins now op want sr ctx body s r

  module _ {A : Type 0} (now : ℕ) (op : Str) (want : Purpose) (sr : Bool) (body : Str → Handler g A)
      (s : State g) (specified : want ≢ Purpose.unspecified) where
    within_limits-false :
        (c : RequestContext)
        → (charge now op c s).1 ≡ false
        → within_limits g now op (some c) c.tenant_id s ≡ (
          err (resource_exhausted (str "operation budget exceeded")),
          audit g op (some c) (str "rate_limited") (charged now op c s),
        )
    unfolding within_limits
    within_limits-false c h = rw (h, within_limits)

    within_limits-true :
        (c : RequestContext)
        → (charge now op c s).1 ≡ true
        → within_limits g now op (some c) c.tenant_id s ≡ (ok tt, charged now op c s)
    unfolding within_limits
    within_limits-true c h = rw (h, within_limits)

    pub gated-Begins :
        (ctx : Option RequestContext)
        → Begins now op want sr ctx body s (gated g now op want sr ctx body s)
    unfolding gated
    gated-Begins none = elim (Result-cases (validate none want sr)) [
      | inl (u, passed) ↦ absurd ((validate_iff none want sr specified).0 passed)
      | inr (e, failed) ↦ refused e (λ a. a) failed (rw (failed, gated))
    ]
    gated-Begins (some c) = elim (Result-cases (validate (some c) want sr)) [
      | inr (e, failed) ↦ refused e (λ a. bad e failed a) failed (rw (failed, gated))
      | inl (u, passed) ↦ elim (Bool-cases (charge now op c s).1) [
        | inl within ↦ admitted c refl ((validate_iff (some c) want sr specified).0 passed) within (
            rw (passed, gated)
              (rw (within_limits-true c within) (rw (within_limits-true c within))))
        | inr over ↦
            limited c refl ((validate_iff (some c) want sr specified).0 passed) over (
              rw (passed, gated)
                (rw (within_limits-false c over) (rw (within_limits-false c over))))
      ]
    ]
      where
        bad : (e : Status) → validate (some c) want sr ≡ err e → ¬ Admits c want sr
        bad e failed a = let ok_ = (validate_iff (some c) want sr specified).1 a in cc
