-- ===== src/Service/Audit.antt =====
-- One audit record for each call, on every path, and a true one.
use ai_auth.Common.{
  ℕ, ◌≡◌, ◌⊎◌, inl, inr, refl, ap, sym, subst, ◌++◌, Option, none, some, Result, ok, err, arith,
  Result-cases, Bool-cases, is_empty,
}
use ai_auth.Context.{validate}
use ai_auth.Proto.{
  Status, invalid_argument, permission_denied, resource_exhausted, internal, EncryptFieldRequest,
  VerifyAssertionRequest, RequestContext, StoredCredential, Assertion,
}
use ai_auth.Proto.Verdict
use ai_auth.Provider.{ProviderError}
use ai_auth.Service.Begins.{Begins, refused, limited, admitted, charged}
use ai_auth.Service.Gate.{body, serve-Begins}
use ai_auth.Service.Guard.{
  Guard, State, Outcome, returned, panicked, audit, audit_ids, audit_line, fail, fail_status,
}
use ai_auth.Service.Handlers.{
  verify_assertion_body, verdict_of, encrypt_field_body, seal_row, decrypt_field_body,
  blind_index_body, refuse,
}
use ai_auth.Service.Serve.{
  Request, verifies, encrypts, decrypts, indexes, Response, context, operation, purpose,
  subject_required, serve,
}
use ai_auth.Text.{Str, Bytes, str}
use ai_auth.Webauthn.{Expectations}

-- A request for a row, and a verification without a credential or an assertion.
abbrev pub IsRow : Request → Type 0
IsRow (encrypts m) = Unit
IsRow (decrypts m) = Unit
IsRow q = ⊥

abbrev pub IsIndex : Request → Type 0
IsIndex (indexes m) = Unit
IsIndex q = ⊥

abbrev pub IsIncomplete : Request → Type 0
IsIncomplete (verifies m) = (m.credential ≡ none) ⊎ (m.assertion ≡ none)
IsIncomplete q = ⊥

-- The outcome that an error is recorded with: each cause has a status and an outcome of its own.
pub data Fault (q : Request) (e : Status) (o : Str) : Type 0 where
  unadmitted :
      validate (context q) (purpose q) (subject_required q) ≡ err e
      → o ≡ str "rejected"
      → Fault q e o
  incomplete :
      IsIncomplete q
      → e ≡ invalid_argument (str "credential and assertion are required")
      → o ≡ str "rejected"
      → Fault q e o
  over_budget :
      e ≡ resource_exhausted (str "operation budget exceeded")
      → o ≡ str "rate_limited"
      → Fault q e o
  denied :
      IsRow q
      → (e ≡ permission_denied (str "not available for this context"))
        ⊎ (e ≡ internal (str "operation unavailable"))
      → o ≡ str "denied"
      → Fault q e o
  unavailable :
      IsIndex q
      → e ≡ internal (str "blind index unavailable")
      → o ≡ str "backend_error"
      → Fault q e o

-- The outcome that a reply is recorded with.
abbrev pub Success : (q : Request) → Response q → Str → Type 0
Success (verifies m) v o =
    ((v.verdict ≡ Verdict.as_i32 Verdict.verified) × (o ≡ str "verified"))
    ⊎ ((v.verdict ≡ Verdict.as_i32 Verdict.rejected) × (o ≡ v.reason))
Success q v o = o ≡ str "ok"

-- The outcome that the record states is the one of the answer that the caller gets.
abbrev pub Reports : (q : Request) → Outcome (Response q) → Str → Type 0
Reports q (returned (ok v)) o = Success q v o
Reports q (returned (err e)) o = Fault q e o
Reports q panicked o = ⊥

module _ (g : Guard) where
  -- One line on stdout, with the operation, the caller's identifiers and the outcome of its answer.
  pub record Audits (q : Request) (s : State g) (r : Outcome (Response q) × State g) : Type 0 where
    pub outcome : Str
    pub reports : Reports q r.0 outcome
    pub line :
        r.1.stdout
        ≡ s.stdout
          ++ audit_line (operation q) (audit_ids (context q)).0 (audit_ids (context q)).1 outcome

  pub fail_status-cases :
      (e : ProviderError)
      → (fail_status g e ≡ permission_denied (str "not available for this context"))
        ⊎ (fail_status g e ≡ internal (str "operation unavailable"))
  unfolding fail_status
  fail_status-cases e = ground arith

  stdout-audit :
      (op : Str) (ctx : Option RequestContext) (outcome : Str) (s : State g)
      → (audit g op ctx outcome s).stdout
        ≡ s.stdout ++ audit_line op (audit_ids ctx).0 (audit_ids ctx).1 outcome
  unfolding audit
  stdout-audit op ctx outcome s = refl

  abbrev row_key :
      EncryptFieldRequest → Str → State g → Result Bytes ProviderError × g.provider.State
  row_key m tenant s = g.provider.generate_wrapped_dek g.kek tenant s.held

  seal_row-Audits :
      (m : EncryptFieldRequest) (tenant : Str) (wrapped : Bytes) (s s' : State g)
      → s'.stdout ≡ s.stdout
      → Audits (encrypts m) s (seal_row g m.context tenant wrapped m.plaintext s')
  unfolding seal_row refuse fail audit
  seal_row-Audits m tenant wrapped s s' same =
      elim (Result-cases (g.provider.encrypt_field g.kek tenant wrapped m.plaintext s'.held).0) [
        | inl (a, e) ↦ record {
          outcome = str "ok";
          reports = ground arith;
          line = ground (arith, same);
        }
        | inr (a, e) ↦ record {
          outcome = str "denied";
          reports = rw (e, seal_row) (denied tt (fail_status-cases a) refl);
          line = ground (arith, same);
        }
      ]

  minted-Audits :
      (m : EncryptFieldRequest) (tenant : Str) (s : State g)
      → let s' : State g = record s { held = (row_key m tenant s).1 } in
        Audits (encrypts m) s (elim (row_key m tenant s).0 [
          | ok wrapped ↦ seal_row g m.context tenant wrapped m.plaintext s'
          | err e ↦ refuse g (str "encrypt_field") m.context e s'
        ])
  unfolding refuse fail audit
  minted-Audits m tenant s = elim (Result-cases (row_key m tenant s).0) [
    | inl (w, e) ↦ rw e (seal_row-Audits m tenant w s _ refl)
    | inr (x, e) ↦ rw e (record {
      outcome = str "denied";
      reports = denied tt (fail_status-cases x) refl;
      line = ground arith;
    })
  ]

  encrypt_field_body-Audits :
      (m : EncryptFieldRequest) (tenant : Str) (s : State g)
      → Audits (encrypts m) s (encrypt_field_body g m tenant s)
  unfolding encrypt_field_body
  encrypt_field_body-Audits m tenant s = elim (Bool-cases (is_empty m.wrapped_dek)) [
    | inr old ↦ rw old (seal_row-Audits m tenant m.wrapped_dek s s refl)
    | inl new ↦ rw new (minted-Audits m tenant s)
  ]

  pub verdict_of-Reports :
      (m : VerifyAssertionRequest) (exp : Expectations) (cred : StoredCredential) (a : Assertion)
      → Reports (verifies m) (returned (ok (verdict_of g exp cred a).0)) (verdict_of g exp cred a).1
  unfolding verdict_of
  verdict_of-Reports m exp cred a = ground arith

  verify_assertion_body-Audits :
      (m : VerifyAssertionRequest) (cred : Option StoredCredential) (a : Option Assertion)
      (s : State g)
      → m.credential ≡ cred
      → m.assertion ≡ a
      → Audits (verifies m) s (verify_assertion_body g m cred a s)
  unfolding verify_assertion_body audit
  verify_assertion_body-Audits m (some cred) (some a) s h k = record {
    outcome = _;
    reports = verdict_of-Reports m _ cred a;
    line = refl;
  }
  verify_assertion_body-Audits m (some cred) none s h k = record {
    outcome = str "rejected";
    reports = incomplete (inr k) refl refl;
    line = refl;
  }
  verify_assertion_body-Audits m none a s h k = record {
    outcome = str "rejected";
    reports = incomplete (inl h) refl refl;
    line = refl;
  }

  body-Audits : (q : Request) (tenant : Str) (s : State g) → Audits q s (body g q tenant s)
  unfolding decrypt_field_body blind_index_body refuse fail audit
  body-Audits (verifies m) tenant s =
      verify_assertion_body-Audits m m.credential m.assertion s refl refl
  body-Audits (encrypts m) tenant s = encrypt_field_body-Audits m tenant s
  body-Audits (decrypts m) tenant s =
      elim (Result-cases
        (g.provider.decrypt_field g.kek tenant m.wrapped_dek m.ciphertext s.held).0) [
          | inl (a, e) ↦ record { outcome = str "ok"; reports = ground arith; line = ground arith }
          | inr (a, e) ↦ record {
            outcome = str "denied";
            reports = rw (e, decrypt_field_body) (denied tt (fail_status-cases a) refl);
            line = ground arith;
          }
        ]
  body-Audits (indexes m) tenant s =
      elim (Result-cases (g.provider.blind_index g.index_key tenant m.input s.held).0) [
        | inl (a, e) ↦ record { outcome = str "ok"; reports = ground arith; line = ground arith }
        | inr (a, e) ↦ record {
          outcome = str "backend_error";
          reports = rw (e, blind_index_body) (unavailable tt refl refl);
          line = ground arith;
        }
      ]

  Begins-Audits :
      (q : Request) {now : ℕ} {s : State g} (r : Outcome (Response q) × State g)
      → Begins g now (operation q) (purpose q) (subject_required q) (context q) (body g q) s r
      → Audits q s r
  unfolding audit
  Begins-Audits q {s} r (refused e _ failed same) = record {
    outcome = str "rejected";
    reports =
        subst (λ x. Reports q x (str "rejected")) (sym (ap (λ x. x.0) same))
          (unadmitted failed refl);
    line = ap (λ x. x.1.stdout) same;
  }
  Begins-Audits q {s} r (limited c p _ _ same) = record {
    outcome = str "rate_limited";
    reports =
        subst (λ x. Reports q x (str "rate_limited")) (sym (ap (λ x. x.0) same))
          (over_budget refl refl);
    line = ap (λ x. x.1.stdout) same;
  }
  Begins-Audits q {now} {s} r (admitted c _ _ _ same) =
      let a = body-Audits q c.tenant_id (charged g now (operation q) c s) in
      subst (Audits q s) (sym same)
        (record { outcome = a.outcome; reports = a.reports; line = a.line })

  -- Every call writes exactly one audit record, on every path: it carries the operation and the
  -- caller's tenant and request, and its outcome is the answer's.
  pub serve-Audits : (now : ℕ) (q : Request) (s : State g) → Audits q s (serve g now q s)
  serve-Audits now q s = Begins-Audits q _ (serve-Begins g now q s)
