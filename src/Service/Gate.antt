-- ===== src/Service/Gate.antt =====
-- No work without both checks in front of it.
use ai_auth.Common.{
  ℕ, ◌≡◌, ◌≢◌, ap, sym, subst, ◌∙◌, Bool, true, false, Option, some, Result, ok, err, arith,
}
use ai_auth.Context.Gate.{Admits, AdmitsRequest}
use ai_auth.Proto.{RequestContext, Status, resource_exhausted}
use ai_auth.Proto.Purpose.{Purpose}
use ai_auth.Service.Guard.{Guard, State, Outcome, returned, panicked, Handler, audit}
use ai_auth.Service.Begins.{charge, charged, Begins, refused, limited, admitted, gated-Begins}
use ai_auth.Service.Handlers.{
  verify_assertion, verify_assertion_body, encrypt_field, encrypt_field_body, seal_row,
  decrypt_field, decrypt_field_body, blind_index, blind_index_body, refuse,
}
use ai_auth.Service.Serve.{
  Request, verifies, encrypts, decrypts, indexes, Response, context, operation, purpose,
  subject_required, serve,
}
use ai_auth.Text.{Str, str}
use mathlib.Core.Bool.{false≢true}

pub some-eq : {A : Type 0} {a b : A} → some a ≡ some b → a ≡ b
some-eq h = cc

err-ne-ok :
    {A : Type 0} (e : Status) (a : A) → ¬ (◌≡◌ {A = Outcome A} (returned (err e)) (returned (ok a)))
err-ne-ok e a h = cc

returned-ne-panicked : {A : Type 0} (r : Result A Status) → ¬ (returned r ≡ panicked)
returned-ne-panicked r h = cc

module _ (g : Guard) where
  -- What a call that did not get through leaves alone, and what it says.
  pub record Refuses {A : Type 0} (s : State g) (r : Outcome A × State g) : Type 0 where
    pub status : Status
    pub answer : r.0 ≡ returned (err status)
    pub provider : r.1.held ≡ s.held
    pub diagnostics : r.1.stderr ≡ s.stderr

  -- A request that the gate does not admit costs nothing: no budget is charged either.
  pub record Rejects {A : Type 0} (s : State g) (r : Outcome A × State g) : Type 0 where
    pub refuses : Refuses s r
    pub budget : r.1.limiter ≡ s.limiter

  gated-Rejects :
      {A : Type 0} {now : ℕ} {op : Str} {want : Purpose} {sr : Bool} {ctx : Option RequestContext}
      {body : Str → Handler g A} {s : State g} (r : Outcome A × State g)
      → Begins g now op want sr ctx body s r
      → ¬ AdmitsRequest ctx want sr
      → Rejects s r
  unfolding audit
  gated-Rejects r (refused e _ _ same) n = record {
    refuses = record {
      status = e;
      answer = ap (λ x. x.0) same;
      provider = ap (λ x. x.1.held) same;
      diagnostics = ap (λ x. x.1.stderr) same;
    };
    budget = ap (λ x. x.1.limiter) same;
  }
  gated-Rejects {want} {sr} r (limited c present a _ same) n =
      absurd (n (subst (λ o. AdmitsRequest o want sr) (sym present) a))
  gated-Rejects {want} {sr} r (admitted c present a _ same) n =
      absurd (n (subst (λ o. AdmitsRequest o want sr) (sym present) a))

  -- The rest of the handler of a request, behind the gate and the budget.
  abbrev pub body : (q : Request) → Str → Handler g (Response q)
  body (verifies m) = λ tenant. verify_assertion_body g m m.credential m.assertion
  body (encrypts m) = encrypt_field_body g m
  body (decrypts m) = decrypt_field_body g m
  body (indexes m) = blind_index_body g m

  pub serve-Begins :
      (now : ℕ) (q : Request) (s : State g)
      → Begins g now
          (operation q)
          (purpose q)
          (subject_required q)
          (context q)
          (body q)
          s
          (serve g now q s)
  unfolding serve verify_assertion encrypt_field decrypt_field blind_index
  serve-Begins now (verifies m) s = gated-Begins g now _ _ _ _ s (λ q. cc) m.context
  serve-Begins now (encrypts m) s = gated-Begins g now _ _ _ _ s (λ q. cc) m.context
  serve-Begins now (decrypts m) s = gated-Begins g now _ _ _ _ s (λ q. cc) m.context
  serve-Begins now (indexes m) s = gated-Begins g now _ _ _ _ s (λ q. cc) m.context

  -- A request that its gate does not admit is answered with an error, and neither the budgets nor
  -- the provider nor stderr see anything of it.
  pub serve-Rejects :
      (now : ℕ) (q : Request) (s : State g)
      → ¬ AdmitsRequest (context q) (purpose q) (subject_required q)
      → Rejects s (serve g now q s)
  serve-Rejects now q s n = gated-Rejects _ (serve-Begins now q s) n

  gated-exhausted :
      {A : Type 0} {now : ℕ} {op : Str} {want : Purpose} {sr : Bool} {ctx : Option RequestContext}
      {body : Str → Handler g A} {s : State g} (r : Outcome A × State g) (c : RequestContext)
      → Begins g now op want sr ctx body s r
      → ctx ≡ some c
      → (charge g now op c s).1 ≡ false
      → Refuses s r
  unfolding audit
  gated-exhausted r c (refused e _ _ same) p over = record {
    status = e;
    answer = ap (λ x. x.0) same;
    provider = ap (λ x. x.1.held) same;
    diagnostics = ap (λ x. x.1.stderr) same;
  }
  gated-exhausted r c (limited _ _ _ _ same) p over = record {
    status = resource_exhausted (str "operation budget exceeded");
    answer = ap (λ x. x.0) same;
    provider = ap (λ x. x.1.held) same;
    diagnostics = ap (λ x. x.1.stderr) same;
  }
  gated-exhausted {now} {op} {s} r c (admitted d q a within same) p over =
      absurd
        (false≢true (sym over ∙ ap (λ x. (charge g now op x s).1) (some-eq (sym p ∙ q)) ∙ within))

  -- A request over its budget is answered with an error, and the provider is not asked.
  pub serve-exhausted :
      (now : ℕ) (q : Request) (s : State g) (c : RequestContext)
      → context q ≡ some c
      → (charge g now (operation q) c s).1 ≡ false
      → Refuses s (serve g now q s)
  serve-exhausted now q s c p over = gated-exhausted _ c (serve-Begins now q s) p over

  -- What a reply proves: the request passed its gate, and its budget.
  pub record Authorised (now : ℕ) (q : Request) (s : State g) : Type 0 where
    pub ctx : RequestContext
    pub present : context q ≡ some ctx
    pub admits : Admits ctx (purpose q) (subject_required q)
    pub budgeted : (charge g now (operation q) ctx s).1 ≡ true

  gated-Authorised :
      {now : ℕ} {q : Request} {s : State g} (r : Outcome (Response q) × State g)
      → Begins g now (operation q) (purpose q) (subject_required q) (context q) (body q) s r
      → (a : Response q) → r.0 ≡ returned (ok a)
      → Authorised now q s
  gated-Authorised r (refused e _ _ same) a h =
      absurd (err-ne-ok e a (sym (ap (λ x. x.0) same) ∙ h))
  gated-Authorised r (limited _ _ _ _ same) a h =
      absurd (err-ne-ok _ a (sym (ap (λ x. x.0) same) ∙ h))
  gated-Authorised r (admitted c present admits budgeted same) a h = record {
    ctx = c;
    present = present;
    admits = admits;
    budgeted = budgeted;
  }

  -- No reply without both checks: if a request is answered with a reply, it carried a context with
  -- a request id, a tenant, this operation's purpose and, where required, a subject, and the
  -- limiter granted the call.
  pub serve-Authorised :
      (now : ℕ) (q : Request) (s : State g) (a : Response q)
      → (serve g now q s).0 ≡ returned (ok a)
      → Authorised now q s
  serve-Authorised now q s a h = gated-Authorised _ (serve-Begins now q s) a h

  body-ne-panicked : (q : Request) (tenant : Str) (s : State g) → (body q tenant s).0 ≢ panicked
  unfolding verify_assertion_body encrypt_field_body seal_row decrypt_field_body blind_index_body
      refuse
  body-ne-panicked (verifies m) tenant s = ground arith
  body-ne-panicked (encrypts m) tenant s = ground arith
  body-ne-panicked (decrypts m) tenant s = ground arith
  body-ne-panicked (indexes m) tenant s = ground arith

  gated-ne-panicked :
      (q : Request) {now : ℕ} {s : State g} (r : Outcome (Response q) × State g)
      → Begins g now (operation q) (purpose q) (subject_required q) (context q) (body q) s r
      → r.0 ≢ panicked
  gated-ne-panicked q r (refused e _ _ same) h =
      returned-ne-panicked _ (sym (ap (λ x. x.0) same) ∙ h)
  gated-ne-panicked q r (limited _ _ _ _ same) h =
      returned-ne-panicked _ (sym (ap (λ x. x.0) same) ∙ h)
  gated-ne-panicked q {now} {s} r (admitted c _ _ _ same) h =
      body-ne-panicked q c.tenant_id (charged g now (operation q) c s)
        (sym (ap (λ x. x.0) same) ∙ h)

  -- The context that the handlers expect to be there always is: no request makes one panic.
  pub serve-ne-panicked : (now : ℕ) (q : Request) (s : State g) → (serve g now q s).0 ≢ panicked
  serve-ne-panicked now q s = gated-ne-panicked q _ (serve-Begins now q s)

  gated-body :
      {now : ℕ} {q : Request} {s : State g} (r : Outcome (Response q) × State g)
      → Begins g now (operation q) (purpose q) (subject_required q) (context q) (body q) s r
      → (a : Authorised now q s) → r ≡ body q a.ctx.tenant_id (charged g now (operation q) a.ctx s)
  gated-body {q} r (refused e n _ same) a =
      absurd
        (n (subst (λ o. AdmitsRequest o (purpose q) (subject_required q)) (sym a.present) a.admits))
  gated-body {now} {q} {s} r (limited c p _ over same) a = absurd (
      false≢true (
        sym over
        ∙ ap (λ x. (charge g now (operation q) x s).1) (some-eq (sym p ∙ a.present))
        ∙ a.budgeted))
  gated-body {now} {q} {s} r (admitted c p _ _ same) a =
      same
      ∙ ap (λ x. body q x.tenant_id (charged g now (operation q) x s)) (some-eq (sym p ∙ a.present))

  -- An authorised request gets what the handler's body makes of it.
  pub serve-body :
      (now : ℕ) (q : Request) (s : State g) (a : Authorised now q s)
      → serve g now q s ≡ body q a.ctx.tenant_id (charged g now (operation q) a.ctx s)
  serve-body now q s a = gated-body _ (serve-Begins now q s) a
