-- ===== src/Service/Vault.antt =====
-- Rows under concurrent requests, with the software provider behind the service.
use ai_auth.Common.{
  ℕ, ◌≡◌, ◌⊎◌, inl, inr, refl, sym, ap, subst, ◌∙◌, [], List, ◌∷◌, ◌++◌, some, Result, ok, err,
  is_empty, true, false, Result-cases, Bool-cases, All,
}
use ai_auth.Context.{validate}
use ai_auth.Context.Gate.{validate_iff}
use ai_auth.Limits.{Key, Bucket}
use ai_auth.Limits.Float.{F64}
use ai_auth.Proto.{
  RequestContext, Status, resource_exhausted, EncryptFieldRequest, EncryptFieldResponse,
  DecryptFieldRequest, DecryptFieldResponse,
}
use ai_auth.Provider.{KeyHandle}
use ai_auth.Schedule.{All-at}
use ai_auth.Service.Answers.{Admitted, AdmitsWith, Answers, Ensured, Reach-Answers}
use ai_auth.Service.Gate.{some-eq}
use ai_auth.Service.Guard.{Guard, State, returned, fail_status}
use ai_auth.Service.Guarded.{Works-Answers, work-Works}
use ai_auth.Service.Rows.{guard}
use ai_auth.Service.Serve.{
  Request, verifies, encrypts, decrypts, indexes, Response, context, purpose, subject_required,
}
use ai_auth.Service.Threads.{finished, Thread, System, Reach, work, sealing, failing}
use ai_auth.Software
use ai_auth.Software.{Primitives, domain_dek_wrap, SoftwareProvider}
use ai_auth.Software.Assumptions.{IsAead}
use ai_auth.Text.{Str, Bytes, str}
use mathlib.Core.Bool.{false≢true}
use ai_auth.Webauthn.{Libraries}

module _ (P : Primitives) (h : IsAead P) (p : SoftwareProvider) (floats : F64)
    (iter : List (Key × Bucket floats) → List (Key × Bucket floats)) (libraries : Libraries)
    (index_key kek : KeyHandle) where
  abbrev pub g : Guard
  g = guard P h p floats iter libraries index_key kek

  -- The handler of a request that has returned this answer.
  abbrev pub gave : (q : Request) → Result (Response q) Status → Thread g
  gave q answer = record { request = q; stage = finished (returned answer) }

  -- A row of a tenant: a key that was generated for the tenant, and a text that was sealed under it,
  -- at whatever states of the generator.
  pub record Row (tenant : Str) (text : Bytes) (row : EncryptFieldResponse) : Type 0 where
    pub rng : P.Rng
    pub generated_at : P.Rng
    pub before : P.Rng
    pub after : P.Rng
    pub generated :
        Software.generate_wrapped_dek P p kek tenant rng ≡ (ok row.wrapped_dek, generated_at)
    pub sealed :
        Software.encrypt_field P p kek tenant row.wrapped_dek text before
        ≡ (ok row.ciphertext, after)

  -- The reply to a first write is a row of the caller's tenant.
  Writes : (q : Request) → Result (Response q) Status → Type 0
  Writes (encrypts e) (ok row) =
      (c : RequestContext)
      → e.context ≡ some c
      → e.wrapped_dek ≡ []
      → Row c.tenant_id e.plaintext row
  Writes _ _ = Unit

  sealing-Writes :
      (e : EncryptFieldRequest) (c : RequestContext) (wrapped : Bytes)
      (rng generated_at held : P.Rng)
      → e.context ≡ some c
      → Software.generate_wrapped_dek P p kek c.tenant_id rng ≡ (ok wrapped, generated_at)
      → Writes (encrypts e) (sealing g e c.tenant_id wrapped held).0.answer
  unfolding sealing Writes failing
  sealing-Writes e c wrapped rng generated_at held there made =
      elim (Result-cases (Software.encrypt_field P p kek c.tenant_id wrapped e.plaintext held).0) [
        | inr (x, failed) ↦ rw (failed, sealing) tt
        | inl (ct, sealed) ↦
            rw (sealed, sealing)
              λ d present first.
                let after =
                  (Software.encrypt_field P p kek c.tenant_id wrapped e.plaintext held).1 in
                let same = some-eq (sym there ∙ present) in
                let row : EncryptFieldResponse = record {
                  ciphertext = ct;
                  wrapped_dek = wrapped;
                } in
                let written : Row c.tenant_id e.plaintext row = record {
                  rng = rng;
                  generated_at = generated_at;
                  before = held;
                  after = after;
                  generated = made;
                  sealed = ap (λ x. (x, after)) sealed;
                } in
                subst (λ (x : RequestContext). Row x.tenant_id e.plaintext row) same written
      ]

  old-Writes :
      (e : EncryptFieldRequest)
      → is_empty e.wrapped_dek ≡ false
      → (answer : Result EncryptFieldResponse Status) → Writes (encrypts e) answer
  unfolding Writes
  old-Writes e old (ok row) = λ c present first. absurd (false≢true (sym old ∙ ap is_empty first))
  old-Writes e old (err x) = tt

  work-Writes :
      (q : Request) (c : RequestContext) (held : P.Rng)
      → AdmitsWith q c
      → Answers g Writes (work g q c.tenant_id held).0
  unfolding work Writes failing
  work-Writes (encrypts e) c held (there, a) = elim (Bool-cases (is_empty e.wrapped_dek)) [
    | inr old ↦ rw old (old-Writes e old _)
    | inl new ↦ elim (Result-cases (Software.generate_wrapped_dek P p kek c.tenant_id held).0) [
      | inr (x, e_) ↦ rw new (rw e_ tt)
      | inl (w, made) ↦ rw new (
          rw made λ later.
            sealing-Writes e c w held (Software.generate_wrapped_dek P p kek c.tenant_id held).1
              later there
              (ap (λ x. (x, (Software.generate_wrapped_dek P p kek c.tenant_id held).1)) made))
    ]
  ]
  work-Writes (verifies m) c held a =
      Works-Answers g Writes (verifies m) (work g (verifies m) c.tenant_id held).0 (λ r. tt)
        (work-Works g (verifies m) c.tenant_id held)
  work-Writes (decrypts m) c held a =
      Works-Answers g Writes (decrypts m) (work g (decrypts m) c.tenant_id held).0 (λ r. tt)
        (work-Works g (decrypts m) c.tenant_id held)
  work-Writes (indexes m) c held a =
      Works-Answers g Writes (indexes m) (work g (indexes m) c.tenant_id held).0 (λ r. tt)
        (work-Works g (indexes m) c.tenant_id held)

  Writes-Ensured : Ensured g Writes
  unfolding Writes
  Writes-Ensured = record { gate = gate_Writes; budget = budget_Writes; worked = work-Writes }
    where
      gate_Writes :
          (q : Request) (e : Status)
          → validate (context q) (purpose q) (subject_required q) ≡ err e
          → Writes q (err e)
      gate_Writes (verifies m) e h = tt
      gate_Writes (encrypts m) e h = tt
      gate_Writes (decrypts m) e h = tt
      gate_Writes (indexes m) e h = tt

      budget_Writes :
          (q : Request) → Writes q (err (resource_exhausted (str "operation budget exceeded")))
      budget_Writes (verifies m) = tt
      budget_Writes (encrypts m) = tt
      budget_Writes (decrypts m) = tt
      budget_Writes (indexes m) = tt

  -- What the provider makes of a row, as an answer.
  unfoldable pub opened : DecryptFieldRequest → Str → Result DecryptFieldResponse Status
  opened d tenant = elim (Software.decrypt_field P p kek tenant d.wrapped_dek d.ciphertext) [
    | ok text ↦ ok (record { plaintext = text })
    | err x ↦ err (fail_status g x)
  ]

  module _ (d : DecryptFieldRequest) (c : RequestContext) (present : d.context ≡ some c)
      (admitted : Admitted (decrypts d)) where
    abbrev pub Opened : Result DecryptFieldResponse Status → Type 0
    Opened answer =
        (answer ≡ opened d c.tenant_id)
        ⊎ (answer ≡ err (resource_exhausted (str "operation budget exceeded")))

    Opens : (q : Request) → Result (Response q) Status → Type 0
    Opens (decrypts m) answer = m ≡ d → Opened answer
    Opens _ _ = Unit

    gate_Opens :
        (q : Request) (e : Status)
        → validate (context q) (purpose q) (subject_required q) ≡ err e
        → Opens q (err e)
    unfolding Opens
    gate_Opens (decrypts m) e h = λ same.
        let passes =
          (validate_iff m.context (purpose (decrypts m)) true (λ x. cc)).1
            (subst (λ x. Admitted (decrypts x)) (sym same) admitted) in
        absurd (cc)
    gate_Opens (verifies m) e h = tt
    gate_Opens (encrypts m) e h = tt
    gate_Opens (indexes m) e h = tt

    budget_Opens :
        (q : Request) → Opens q (err (resource_exhausted (str "operation budget exceeded")))
    unfolding Opens
    budget_Opens (decrypts m) = λ same. inr refl
    budget_Opens (verifies m) = tt
    budget_Opens (encrypts m) = tt
    budget_Opens (indexes m) = tt

    work-Opens :
        (q : Request) (c' : RequestContext) (held : P.Rng)
        → AdmitsWith q c'
        → Answers g Opens (work g q c'.tenant_id held).0
    unfolding Opens work opened failing
    work-Opens (decrypts m) c' held (there, a) =
        let result = Software.decrypt_field P p kek c'.tenant_id m.wrapped_dek m.ciphertext in
        let same_as = λ (x : m ≡ d).
          ap (λ (y : DecryptFieldRequest × RequestContext). opened y.0 y.1.tenant_id)
            (λ i. (
              x i,
              some-eq (sym there ∙ ap (λ (y : DecryptFieldRequest). y.context) x ∙ present) i,
            )) in
        elim (Result-cases result) [
          | inl (t, e) ↦ rw (e, work) (λ x. inl (sym (rw (e, opened)) ∙ same_as x))
          | inr (t, e) ↦ rw (e, work) (λ x. inl (sym (rw (e, opened)) ∙ same_as x))
        ]
    work-Opens (verifies m) c' held a =
        Works-Answers g Opens (verifies m) (work g (verifies m) c'.tenant_id held).0 (λ r. tt)
          (work-Works g (verifies m) c'.tenant_id held)
    work-Opens (encrypts m) c' held a =
        Works-Answers g Opens (encrypts m) (work g (encrypts m) c'.tenant_id held).0 (λ r. tt)
          (work-Works g (encrypts m) c'.tenant_id held)
    work-Opens (indexes m) c' held a =
        Works-Answers g Opens (indexes m) (work g (indexes m) c'.tenant_id held).0 (λ r. tt)
          (work-Works g (indexes m) c'.tenant_id held)

    Opens-Ensured : Ensured g Opens
    Opens-Ensured = record { gate = gate_Opens; budget = budget_Opens; worked = work-Opens }

    -- An admitted decryption is answered with what the provider makes of its row, or is over budget.
    pub answer-Opened :
        (s : State g) (clock : ℕ) (u : System g) (before after : List (Thread g))
        (answer : Result DecryptFieldResponse Status)
        → Reach g (record { shared = s; clock = clock; threads = [] }) u
        → u.threads ≡ before ++ gave (decrypts d) answer ∷ after
        → Opened answer
    unfolding Opens
    answer-Opened s clock u before after answer r found =
        let all_answers =
          subst (All (λ t. Answers g Opens t.stage)) found
            (Reach-Answers g Opens Opens-Ensured s clock u r) in
        (All-at before _ after all_answers).0 refl

  -- A first write that was answered with a row, in any run of the Guard.
  pub answer-Row :
      (s : State g) (clock : ℕ) (u : System g) (before after : List (Thread g))
      (e : EncryptFieldRequest) (row : EncryptFieldResponse) (c : RequestContext)
      → Reach g (record { shared = s; clock = clock; threads = [] }) u
      → u.threads ≡ before ++ gave (encrypts e) (ok row) ∷ after
      → e.context ≡ some c
      → e.wrapped_dek ≡ []
      → Row c.tenant_id e.plaintext row
  unfolding Writes
  answer-Row s clock u before after e row c r found present first =
      let all_answers =
        subst (All (λ t. Answers g Writes t.stage)) found
          (Reach-Answers g Writes Writes-Ensured s clock u r) in
      (All-at before _ after all_answers).0 c present first
