-- ===== src/Service/Alone.antt =====
-- The steps of a handler that no other comes between make up the handler as one function.
use ai_auth.Common.{
  ℕ, ◌≡◌, inl, inr, refl, ap, true, false, Option, none, some, Result, ok, err, arith,
  if◌then◌else◌, Bool, Result-cases, Option-cases, Bool-cases, [],
}
use ai_auth.Context.{validate}
use ai_auth.Limits.{RateLimiter, charge_global, charge_tenant, allow}
use ai_auth.Proto.{RequestContext, Status, resource_exhausted}
use ai_auth.Schedule.Progress.{none_}
use ai_auth.Service.Guard.{
  Guard, State, Outcome, returned, panicked, Handler, audit, within_limits, gated,
}
use ai_auth.Service.Gate.{body, some-eq}
use ai_auth.Proto.Purpose.{Purpose}
use ai_auth.Service.Handlers.{verify_assertion, encrypt_field, decrypt_field, blind_index}
use ai_auth.Service.Serve.{
  Request, verifies, encrypts, decrypts, indexes, Response, context, operation, purpose,
  subject_required, serve,
}
use ai_auth.Service.Threads.{
  Stage, arrived, timed, passed, granted, finished, begin, limited, proceed, Reach, advance, left,
  IsNew,
}
use ai_auth.Schedule.{here, next, arrives}
use ai_auth.Schedule.Progress
use ai_auth.Text.{Str, str}
use ai_auth.Service.Runs.{Moved, alone, Ends, Ends-after, quiet-Ends, body-Ends}

module _ (g : Guard) where
  serve-body :
      (clock : ℕ) (q : Request) (s : State g)
      → serve g clock q s
        ≡ gated g clock (operation q) (purpose q) (subject_required q) (context q) (body g q) s
  unfolding serve verify_assertion encrypt_field decrypt_field blind_index
  serve-body clock (verifies m) s = refl
  serve-body clock (encrypts m) s = refl
  serve-body clock (decrypts m) s = refl
  serve-body clock (indexes m) s = refl

  -- The budget check is the two locked regions in turn.
  module _ (now : ℕ) (q : Request) (c : RequestContext) (s : State g) where
    abbrev ceiling : RateLimiter g.floats × Bool
    ceiling = charge_global g.floats s.limiter now (operation q)

    abbrev share : RateLimiter g.floats × Bool
    share = charge_tenant g.floats g.iter ceiling.0 now c.tenant_id (operation q)

    abbrev charged : State g
    charged = record s { limiter = ceiling.0 }

    abbrev settled : State g
    settled = record s { limiter = share.0 }

    abbrev refusal : State g → Result (Unit {0}) Status × State g
    refusal s' = (
      err (resource_exhausted (str "operation budget exceeded")),
      audit g (operation q) (context q) (str "rate_limited") s',
    )

    abbrev budget : Result (Unit {0}) Status × State g
    budget = within_limits g now (operation q) (context q) c.tenant_id s

    budget-paid : ceiling.1 ≡ true → share.1 ≡ true → budget ≡ (ok tt, settled)
    unfolding within_limits allow
    budget-paid h k = ground arith

    budget-over_share : ceiling.1 ≡ true → share.1 ≡ false → budget ≡ refusal settled
    unfolding within_limits allow
    budget-over_share h k = ground arith

    budget-over_ceiling : ceiling.1 ≡ false → budget ≡ refusal charged
    unfolding within_limits allow
    budget-over_ceiling h = ground arith

    -- What the handler does with the budget check.
    abbrev budgeted : Result (Unit {0}) Status × State g → Outcome (Response q) × State g
    budgeted x = elim x.0 [ err e ↦ (returned (err e), x.1) | ok _ ↦ body g q c.tenant_id x.1 ]

    charged-Ends :
        {stage : Stage g q} {r : Outcome (Response q) × State g}
        → (if ceiling.1 then passed now c else limited g q) ≡ stage
        → Ends g now q charged stage r
        → Ends g now q s (timed now c) r
    unfolding proceed
    charged-Ends h e = Ends-after g now q (omega arith) (ap (λ x. (charged, x)) h) e

    settled-Ends :
        {stage : Stage g q} {r : Outcome (Response q) × State g}
        → (if share.1 then granted c else limited g q) ≡ stage
        → Ends g now q settled stage r
        → Ends g now q charged (passed now c) r
    unfolding proceed
    settled-Ends h e = Ends-after g now q (omega arith) (ap (λ x. (settled, x)) h) e

    timed-Ends : Ends g now q s (timed now c) (budgeted budget)
    timed-Ends = elim (Bool-cases ceiling.1) [
      | inr over ↦
          rw (budget-over_ceiling over)
            (charged-Ends {stage = limited g q} (rw over refl) (quiet-Ends g now q charged _ _))
      | inl within ↦
          charged-Ends {stage = passed now c} (rw within refl) (elim (Bool-cases share.1) [
            | inr over ↦
                rw (budget-over_share within over) (
                  settled-Ends {stage = limited g q} (rw over refl)
                    (quiet-Ends g now q settled _ _))
            | inl paid ↦
                rw (budget-paid within paid)
                  (settled-Ends {stage = granted c} (rw paid refl) (body-Ends g now q c settled))
          ])
    ]

  -- How a handler begins, once the gate has its verdict.
  module _ {A : Type 0} (now : ℕ) (op : Str) (want : Purpose) (sr : Bool) (work : Str → Handler g A)
      (s : State g) where
    abbrev beyond_gate : Option RequestContext → RequestContext → Outcome A × State g
    beyond_gate ctx c =
        let (budget, s') = within_limits g now op ctx c.tenant_id s in
        elim budget [ err e ↦ (returned (err e), s') | ok _ ↦ work c.tenant_id s' ]

    gated-refused :
        (ctx : Option RequestContext) (e : Status)
        → validate ctx want sr ≡ err e
        → gated g now op want sr ctx work s ≡ (returned (err e), audit g op ctx (str "rejected") s)
    unfolding gated
    gated-refused ctx e h = rw (h, gated)

    gated-absent :
        (ctx : Option RequestContext) (u : Unit {0})
        → validate ctx want sr ≡ ok u
        → ctx ≡ none
        → gated g now op want sr ctx work s ≡ (panicked, s)
    unfolding gated
    gated-absent none u h k = rw (h, gated)
    gated-absent (some c) u h k = cc

    gated-present :
        (ctx : Option RequestContext) (c : RequestContext) (u : Unit {0})
        → validate ctx want sr ≡ ok u
        → ctx ≡ some c
        → gated g now op want sr ctx work s ≡ beyond_gate ctx c
    unfolding gated
    gated-present none c u h k = cc
    gated-present (some d) c u h k =
        rw (h, gated) (ap (λ (x : RequestContext). beyond_gate (some d) x) (some-eq k))

  -- The steps of a handler that no other comes between, at one reading of the clock, make up the
  -- handler: they leave its answer and its state.
  pub alone-serve :
      (clock : ℕ) (q : Request) (s : State g)
      → let (o, s') = serve g clock q s in
        (n : ℕ) × Moved g (alone g clock s q arrived) (alone g clock s' q (finished o)) n
  unfolding begin proceed gated
  alone-serve clock q s =
      rw (serve-body clock q s)
        (elim (Result-cases (validate (context q) (purpose q) (subject_required q))) [
          | inr (e, failed) ↦ rw (gated-refused clock _ _ _ (body g q) s (context q) e failed) (
              Ends-after g clock q (omega arith) (rw (failed, begin) refl)
                (quiet-Ends g clock q s (err e) (str "rejected")))
          | inl (u, admitted) ↦ elim (Option-cases (context q)) [
            | inl absent ↦
                rw (gated-absent clock _ _ _ (body g q) s (context q) u admitted absent) (
                  Ends-after g clock q {s' = s} {stage' = finished panicked} (omega arith)
                    (rw (admitted, begin) (rw (absent, begin) refl)) (0, none_))
            | inr (c, present) ↦
                rw (gated-present clock _ _ _ (body g q) s (context q) c u admitted present) (
                  Ends-after g clock q {s' = s} {stage' = timed clock c} (omega arith)
                    (rw (admitted, begin) (rw (present, begin) refl)) (timed-Ends clock q c s))
          ]
        ])

  -- A run in which one request is served.
  pub solo :
      (clock : ℕ) (q : Request) (s : State g)
      → let (o, s') = serve g clock q s in
        Reach g
          (record { shared = s; clock = clock; threads = [] })
          (alone g clock s' q (finished o))
  solo clock q s =
      let (n, steps) = alone-serve clock q s in
      Progress.Reach-Moved (advance g) (left g) (IsNew g)
        (next here (arrives (record { request = q; stage = arrived }) refl refl)) steps
