-- ===== src/Service/Oracle.antt =====
-- What the caller learns from an error: of the provider and its keys, nothing but that they failed.
use ai_auth.Common.{
  ℕ, ◌≡◌, ◌⊎◌, inl, inr, refl, Bool, Option, none, some, err, arith, Result-cases, Bool-cases,
  is_empty,
}
use ai_auth.Context.{validate}
use ai_auth.Proto.{
  Status, invalid_argument, permission_denied, resource_exhausted, internal, RequestContext,
}
use ai_auth.Proto.Purpose.{Purpose}
use ai_auth.Provider.{ProviderError, unknown_key, backend, decrypt}
use ai_auth.Service.Begins.{charge, charged}
use ai_auth.Service.Gate.{body}
use ai_auth.Service.Guard.{
  Guard, State, Outcome, returned, Handler, within_limits, gated, fail, fail_status,
}
use ai_auth.Service.Handlers.{
  verify_assertion, verify_assertion_body, encrypt_field, encrypt_field_body, seal_row,
  decrypt_field, decrypt_field_body, blind_index, blind_index_body, refuse,
}
use ai_auth.Service.Serve.{
  Request, verifies, encrypts, decrypts, indexes, context, purpose, subject_required, serve,
}
use ai_auth.Text.{Str, Bytes, str}

-- The errors of an operation itself: constants.
abbrev pub Fails : Request → Status → Type 0
Fails (verifies m) e = e ≡ invalid_argument (str "credential and assertion are required")
Fails (encrypts m) e =
    (e ≡ permission_denied (str "not available for this context"))
    ⊎ (e ≡ internal (str "operation unavailable"))
Fails (decrypts m) e =
    (e ≡ permission_denied (str "not available for this context"))
    ⊎ (e ≡ internal (str "operation unavailable"))
Fails (indexes m) e = e ≡ internal (str "blind index unavailable")

-- The errors of a request: the gate's, which depend on its context alone, the budget's, which is a
-- constant, and the operation's.
abbrev pub Says : Request → Status → Type 0
Says q e =
    (validate (context q) (purpose q) (subject_required q) ≡ err e)
    ⊎ ((e ≡ resource_exhausted (str "operation budget exceeded")) ⊎ Fails q e)

returned_err-injective :
    {A : Type 0} {d e : Status} → ◌≡◌ {A = Outcome A} (returned (err d)) (returned (err e)) → d ≡ e
returned_err-injective h = cc

module _ (g : Guard) where
  gated-err :
      {A : Type 0} (now : ℕ) (op : Str) (want : Purpose) (sr : Bool) (ctx : Option RequestContext)
      (inner : Str → Handler g A) (s : State g) (e : Status)
      → (gated g now op want sr ctx inner s).0 ≡ returned (err e)
      → (validate ctx want sr ≡ err e)
        ⊎ ((e ≡ resource_exhausted (str "operation budget exceeded"))
            ⊎ ((tenant : Str) × (s' : State g) × ((inner tenant s').0 ≡ returned (err e))))
  unfolding gated within_limits
  gated-err now op want sr none inner s e h = elim (Result-cases (validate none want sr)) [
    | inr (d, failed) ↦ inl (ground (arith, failed))
    | inl (u, passed) ↦ absurd (ground (arith, passed))
  ]
  gated-err now op want sr (some c) inner s e h = elim (Result-cases (validate (some c) want sr)) [
    | inr (d, failed) ↦ inl (ground (arith, failed))
    | inl (u, passed) ↦ elim (Bool-cases (charge g now op c s).1) [
      | inl within ↦ inr (inr (c.tenant_id, charged g now op c s, ground (arith, passed, within)))
      | inr over ↦ inr (inl (ground (arith, passed, over)))
    ]
  ]

  fail_status_cases :
      (e : ProviderError)
      → (fail_status g e ≡ permission_denied (str "not available for this context"))
        ⊎ (fail_status g e ≡ internal (str "operation unavailable"))
  unfolding fail_status
  fail_status_cases (unknown_key h) = inr refl
  fail_status_cases (backend m) = inr refl
  fail_status_cases decrypt = inl refl

  refuse-Fails :
      {A : Type 0} (op : Str) (ctx : Option RequestContext) (d : ProviderError) (s : State g)
      (e : Status)
      → (refuse g {A = A} op ctx d s).0 ≡ returned (err e)
      → (e ≡ permission_denied (str "not available for this context"))
        ⊎ (e ≡ internal (str "operation unavailable"))
  unfolding refuse fail
  refuse-Fails op ctx d s e h =
      let same = returned_err-injective h in ground (arith, same, fail_status_cases d)

  seal_row-Fails :
      (ctx : Option RequestContext) (tenant : Str) (wrapped text : Bytes) (s : State g) (e : Status)
      → (seal_row g ctx tenant wrapped text s).0 ≡ returned (err e)
      → (e ≡ permission_denied (str "not available for this context"))
        ⊎ (e ≡ internal (str "operation unavailable"))
  unfolding seal_row
  seal_row-Fails ctx tenant wrapped text s e h =
      elim (Result-cases (g.provider.encrypt_field g.kek tenant wrapped text s.held).0) [
        | inl (a, sealed) ↦ absurd (ground arith)
        | inr (d, failed) ↦
            refuse-Fails (str "encrypt_field") ctx d _ e (rw (failed, seal_row) at h)
      ]

  body-Fails :
      (q : Request) (tenant : Str) (s : State g) (e : Status)
      → (body g q tenant s).0 ≡ returned (err e)
      → Fails q e
  unfolding verify_assertion_body encrypt_field_body decrypt_field_body blind_index_body
  body-Fails (verifies m) tenant s e h = ground arith
  body-Fails (encrypts m) tenant s e h = elim (Bool-cases (is_empty m.wrapped_dek)) [
    | inr again ↦ seal_row-Fails m.context tenant m.wrapped_dek m.plaintext s e (rw again at h)
    | inl first ↦ elim (Result-cases (g.provider.generate_wrapped_dek g.kek tenant s.held).0) [
      | inl (w, minted) ↦
          seal_row-Fails m.context tenant w m.plaintext _ e (rw (first, minted) at h)
      | inr (d, failed) ↦
          refuse-Fails (str "encrypt_field") m.context d _ e (rw (first, failed) at h)
    ]
  ]
  body-Fails (decrypts m) tenant s e h =
      elim (Result-cases
        (g.provider.decrypt_field g.kek tenant m.wrapped_dek m.ciphertext s.held).0) [
          | inl (a, opened) ↦ absurd (ground arith)
          | inr (d, failed) ↦
              refuse-Fails (str "decrypt_field") m.context d _ e
                (rw (failed, decrypt_field_body) at h)
        ]
  body-Fails (indexes m) tenant s e h = ground arith

  joined :
      (q : Request) (e : Status)
      → (validate (context q) (purpose q) (subject_required q) ≡ err e)
        ⊎ ((e ≡ resource_exhausted (str "operation budget exceeded"))
            ⊎ ((tenant : Str) × (s' : State g) × ((body g q tenant s').0 ≡ returned (err e))))
      → Says q e
  joined q e (inl refused) = inl refused
  joined q e (inr (inl limited)) = inr (inl limited)
  joined q e (inr (inr (tenant, s', failed))) = inr (inr (body-Fails q tenant s' e failed))

  -- An error is no oracle: whatever the provider is and whatever keys and bytes are involved, the
  -- status that a request is refused with is the gate's verdict on its context, or one of the
  -- constants for a budget that is exceeded and for an operation that failed.
  pub serve-Says :
      (now : ℕ) (q : Request) (s : State g) (e : Status)
      → (serve g now q s).0 ≡ returned (err e)
      → Says q e
  unfolding serve verify_assertion encrypt_field decrypt_field blind_index
  serve-Says now (verifies m) s e h = joined (verifies m) e (gated-err now _ _ _ m.context _ s e h)
  serve-Says now (encrypts m) s e h = joined (encrypts m) e (gated-err now _ _ _ m.context _ s e h)
  serve-Says now (decrypts m) s e h = joined (decrypts m) e (gated-err now _ _ _ m.context _ s e h)
  serve-Says now (indexes m) s e h = joined (indexes m) e (gated-err now _ _ _ m.context _ s e h)
