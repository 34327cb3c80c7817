-- ===== src/Service/Truthful.antt =====
-- What the handler of a request will write in the audit trail fits what it will answer, wherever it
-- stands.
use ai_auth.Common.{
  ℕ, ◌≡◌, inl, inr, refl, [], ◌∷◌, Option, none, some, Result, Result-cases, Option-cases,
  Bool-cases, is_empty,
}
use ai_auth.Context.{validate}
use ai_auth.Limits.{charge_global, charge_tenant}
use ai_auth.Proto.{Status, VerifyAssertionRequest, EncryptFieldRequest, StoredCredential, Assertion}
use ai_auth.Provider.{ProviderError}
use ai_auth.Service.Audit.{
  Reports, unadmitted, incomplete, over_budget, denied, unavailable, IsRow, verdict_of-Reports,
  fail_status-cases,
}
use ai_auth.Service.Guard.{Guard, State, returned}
use ai_auth.Service.Serve.{
  Request, verifies, encrypts, decrypts, indexes, Response, operation, context, purpose,
  subject_required,
}
use ai_auth.Service.Threads.{
  Stage, arrived, timed, passed, granted, calling, concluding, reporting, finished, Ending, begin,
  limited, work, failing, checked, sealing, audited, proceed,
}
use ai_auth.Text.{Str, Bytes}

-- The outcome of an ending is a true one.
abbrev pub Fits : {q : Request} → Ending q → Type 0
Fits {q} x = Reports q (returned x.answer) x.outcome

module _ (g : Guard) where
  -- What is known of a handler: however it ends, its audit record is a true one.
  abbrev pub Truthful : {q : Request} → Stage g q → Type 0
  Truthful (calling f) = (held : g.provider.State) → Fits (f held).0
  Truthful (concluding x) = Fits x
  Truthful _ = Unit

  audited-Truthful :
      (q : Request) (answer : Result (Response q) Status) (detail : Str)
      → Truthful (audited g q answer detail)
  unfolding audited
  audited-Truthful q answer [] = tt
  audited-Truthful q answer (c ∷ detail) = tt

  checked-Fits :
      (m : VerifyAssertionRequest) (cred : Option StoredCredential) (a : Option Assertion)
      → m.credential ≡ cred
      → m.assertion ≡ a
      → Fits (checked g m cred a)
  unfolding checked
  checked-Fits m (some cred) (some a) h k = verdict_of-Reports g m _ cred a
  checked-Fits m (some cred) none h k = incomplete (inr k) refl refl
  checked-Fits m none a h k = incomplete (inl h) refl refl

  failing-Fits : (q : Request) (e : ProviderError) → IsRow q → Fits (failing g q e)
  unfolding failing
  failing-Fits q e row = denied row (fail_status-cases g e) refl

  sealing-Fits :
      (m : EncryptFieldRequest) (tenant : Str) (wrapped : Bytes) (held : g.provider.State)
      → Fits (sealing g m tenant wrapped held).0
  unfolding sealing
  sealing-Fits m tenant wrapped held =
      elim (Result-cases (g.provider.encrypt_field g.kek tenant wrapped m.plaintext held).0) [
        | inl (a, e) ↦ rw (e, sealing) refl
        | inr (x, e) ↦ rw (e, sealing) (failing-Fits (encrypts m) x tt)
      ]

  work-Truthful :
      (q : Request) (tenant : Str) (held : g.provider.State) → Truthful (work g q tenant held).0
  unfolding work
  work-Truthful (verifies m) tenant held = checked-Fits m m.credential m.assertion refl refl
  work-Truthful (encrypts m) tenant held = elim (Bool-cases (is_empty m.wrapped_dek)) [
    | inr old ↦ rw old (sealing-Fits m tenant m.wrapped_dek held)
    | inl new ↦ elim (Result-cases (g.provider.generate_wrapped_dek g.kek tenant held).0) [
      | inl (wrapped, e) ↦ rw new (rw e (λ later. sealing-Fits m tenant wrapped later))
      | inr (x, e) ↦ rw new (rw e (failing-Fits (encrypts m) x tt))
    ]
  ]
  work-Truthful (decrypts m) tenant held =
      elim (Result-cases
        (g.provider.decrypt_field g.kek tenant m.wrapped_dek m.ciphertext held).0) [
          | inl (a, e) ↦ rw (e, work) refl
          | inr (x, e) ↦ rw (e, work) (failing-Fits (decrypts m) x tt)
        ]
  work-Truthful (indexes m) tenant held =
      elim (Result-cases (g.provider.blind_index g.index_key tenant m.input held).0) [
        | inl (a, e) ↦ rw (e, work) refl
        | inr (x, e) ↦ rw (e, work) (unavailable tt refl refl)
      ]

  begin-Truthful : (clock : ℕ) (q : Request) → Truthful (begin g clock q)
  unfolding begin
  begin-Truthful clock q =
      elim (Result-cases (validate (context q) (purpose q) (subject_required q))) [
        | inr (e, failed) ↦ rw (failed, begin) (unadmitted failed refl)
        | inl (u, admitted) ↦ elim (Option-cases (context q)) [
          | inl absent ↦ rw (admitted, begin) (rw (absent, begin) tt)
          | inr (c, present) ↦ rw (admitted, begin) (rw (present, begin) tt)
        ]
      ]

  limited-Truthful : (q : Request) → Truthful (limited g q)
  limited-Truthful q = over_budget refl refl

  pub proceed-Truthful :
      (clock : ℕ) (s : State g) (q : Request) (stage : Stage g q)
      → Truthful stage
      → Truthful (proceed g clock s q stage).1
  unfolding proceed
  proceed-Truthful clock s q arrived h = begin-Truthful clock q
  proceed-Truthful clock s q (timed now c) h =
      elim (Bool-cases (charge_global g.floats s.limiter now (operation q)).1) [
        | inl within ↦ rw (within, proceed) tt
        | inr over ↦ rw (over, proceed) (limited-Truthful q)
      ]
  proceed-Truthful clock s q (passed now c) h =
      elim (Bool-cases (charge_tenant g.floats g.iter s.limiter now c.tenant_id (operation q)).1) [
        | inl allowed ↦ rw (allowed, proceed) tt
        | inr over ↦ rw (over, proceed) (limited-Truthful q)
      ]
  proceed-Truthful clock s q (granted c) h = work-Truthful q c.tenant_id s.held
  proceed-Truthful clock s q (calling f) h = h s.held
  proceed-Truthful clock s q (concluding x) h = audited-Truthful q x.answer x.detail
  proceed-Truthful clock s q (reporting answer detail) h = tt
  proceed-Truthful clock s q (finished o) h = tt
