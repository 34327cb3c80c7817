-- ===== src/Service/Runs.antt =====
-- The steps of a granted request that no other comes between make up the body of its handler.
use ai_auth.Common.{
  ℕ, ◌+◌, ◌≤◌, ◌≡◌, inl, inr, refl, ap, ◌++◌, [], ◌∷◌, Option, none, some, Result, arith,
  Result-cases, Bool-cases, is_empty, append-nil,
}
use ai_auth.Proto.{
  RequestContext, Status, EncryptFieldRequest, DecryptFieldRequest, BlindIndexRequest,
  VerifyAssertionRequest, StoredCredential, Assertion,
}
use ai_auth.Schedule.Progress
use ai_auth.Schedule.Progress.{none_, one_more}
use ai_auth.Service.Guard.{Guard, State, Outcome, returned, audit, fail}
use ai_auth.Service.Gate.{body}
use ai_auth.Service.Handlers.{
  verify_assertion_body, encrypt_field_body, seal_row, decrypt_field_body, blind_index_body, refuse,
}
use ai_auth.Service.Serve.{
  Request, verifies, encrypts, decrypts, indexes, Response, context, operation,
}
use ai_auth.Service.Threads.{
  Stage, granted, calling, concluding, finished, Ending, Thread, System, work, audited, proceed,
  advance, left_at, left, IsNew, failing, checked, sealing,
}
use ai_auth.Text.{Str, Bytes}

module _ (g : Guard) where
  abbrev pub Moved : System g → System g → ℕ → Type 0
  Moved = Progress.Moved (advance g) (left g) (IsNew g)

  -- One request at a Guard.
  abbrev pub alone : ℕ → State g → (q : Request) → Stage g q → System g
  alone clock s q stage =
      Progress.alone (advance g) (left g) (IsNew g) clock s (record { request = q; stage = stage })

  module _ (clock : ℕ) (q : Request) where
    -- The steps that are left lead to this answer and this state.
    abbrev pub Ends : State g → Stage g q → Outcome (Response q) × State g → Type 0
    Ends s stage r = (n : ℕ) × Moved (alone clock s q stage) (alone clock r.1 q (finished r.0)) n

    pub Ends-after :
        {s s' : State g} {stage stage' : Stage g q} {r : Outcome (Response q) × State g}
        → 1 ≤ left_at g stage
        → proceed g clock s q stage ≡ (s', stage')
        → Ends s' stage' r
        → Ends s stage r
    unfolding advance
    Ends-after {s} {s'} {stage} {stage'} h same (n, more) = (
      1 + n,
      Progress.Moved-after (advance g) (left g) (IsNew g)
          (Progress.alone-advance (advance g) (left g) (IsNew g) clock s s'
            (record { request = q; stage = stage }) (record { request = q; stage = stage' }) h
            (ap
              (λ (x : State g × Stage g q).
                let y : State g × Thread g = (x.0, record { request = q; stage = x.1 }) in y)
              same))
          more,
    )

    -- What an ending leaves behind.
    abbrev concluded : State g → Ending q → Outcome (Response q) × State g
    concluded s x =
        let s' = audit g (operation q) (context q) x.outcome s in
        (returned x.answer, record s' { stderr = s'.stderr ++ x.detail })

    audited-Ends :
        (s : State g) (answer : Result (Response q) Status) (detail : Str)
        → Ends s
            (audited g q answer detail)
            (returned answer, record s { stderr = s.stderr ++ detail })
    unfolding audited proceed
    audited-Ends s answer [] = rw (append-nil s.stderr) (0, none_)
    audited-Ends s answer (c ∷ detail) = Ends-after (omega arith) refl (0, none_)

    concluding-Ends : (s : State g) (x : Ending q) → Ends s (concluding x) (concluded s x)
    unfolding proceed
    concluding-Ends s x = Ends-after (omega arith) refl (audited-Ends _ x.answer x.detail)

    pub quiet-Ends :
        (s : State g) (answer : Result (Response q) Status) (outcome : Str)
        → Ends s
            (concluding (record { answer = answer; outcome = outcome; detail = [] }))
            (returned answer, audit g (operation q) (context q) outcome s)
    unfolding proceed audited
    quiet-Ends s answer outcome = Ends-after (omega arith) refl (0, none_)

  -- A granted request ends with what the handler's body makes of it.
  decrypts-Ends :
      (clock : ℕ) (m : DecryptFieldRequest) (c : RequestContext) (s : State g)
      → Ends clock (decrypts m) s (granted c) (decrypt_field_body g m c.tenant_id s)
  unfolding proceed work decrypt_field_body refuse fail failing
  decrypts-Ends clock m c s =
      elim (Result-cases
        (g.provider.decrypt_field g.kek c.tenant_id m.wrapped_dek m.ciphertext s.held).0) [
          | inl (a, e) ↦
              rw (e, decrypt_field_body)
                (Ends-after clock (decrypts m) (omega arith) (rw (e, proceed, work) refl)
                  (quiet-Ends clock (decrypts m) _ _ _))
          | inr (x, e) ↦
              rw (e, decrypt_field_body)
                (Ends-after clock (decrypts m) (omega arith) (rw (e, proceed, work) refl)
                  (concluding-Ends clock (decrypts m) _ (failing g (decrypts m) x)))
        ]

  indexes-Ends :
      (clock : ℕ) (m : BlindIndexRequest) (c : RequestContext) (s : State g)
      → Ends clock (indexes m) s (granted c) (blind_index_body g m c.tenant_id s)
  unfolding proceed work blind_index_body
  indexes-Ends clock m c s =
      elim (Result-cases (g.provider.blind_index g.index_key c.tenant_id m.input s.held).0) [
        | inl (a, e) ↦
            rw (e, blind_index_body)
              (Ends-after clock (indexes m) (omega arith) (rw (e, proceed, work) refl)
                (quiet-Ends clock (indexes m) _ _ _))
        | inr (x, e) ↦
            rw (e, blind_index_body)
              (Ends-after clock (indexes m) (omega arith) (rw (e, proceed, work) refl)
                (concluding-Ends clock (indexes m) _ _))
      ]

  verifies-Ends :
      (clock : ℕ) (m : VerifyAssertionRequest) (c : RequestContext) (s : State g)
      (cred : Option StoredCredential) (a : Option Assertion)
      → Ends clock
          (verifies m)
          s
          (concluding (checked g m cred a))
          (verify_assertion_body g m cred a s)
  unfolding checked verify_assertion_body
  verifies-Ends clock m c s (some cred) (some a) = quiet-Ends clock (verifies m) s _ _
  verifies-Ends clock m c s (some cred) none = quiet-Ends clock (verifies m) s _ _
  verifies-Ends clock m c s none a = quiet-Ends clock (verifies m) s _ _

  -- The last call of the provider, after which an encryption is concluded.
  seal_row-Ends :
      (clock : ℕ) (m : EncryptFieldRequest) (tenant : Str) (wrapped : Bytes) (s : State g)
      → let (ending, held) = sealing g m tenant wrapped s.held in
        let s' : State g = record s { held = held } in
        Ends clock
          (encrypts m)
          s'
          (concluding ending)
          (seal_row g m.context tenant wrapped m.plaintext s)
  unfolding sealing seal_row refuse fail failing
  seal_row-Ends clock m tenant wrapped s =
      elim (Result-cases (g.provider.encrypt_field g.kek tenant wrapped m.plaintext s.held).0) [
        | inl (a, e) ↦ rw (e, seal_row) (rw (e, sealing) (quiet-Ends clock (encrypts m) _ _ _))
        | inr (x, e) ↦
            rw (e, seal_row)
              (rw (e, sealing) (concluding-Ends clock (encrypts m) _ (failing g (encrypts m) x)))
      ]

  encrypts-Ends :
      (clock : ℕ) (m : EncryptFieldRequest) (c : RequestContext) (s : State g)
      → Ends clock (encrypts m) s (granted c) (encrypt_field_body g m c.tenant_id s)
  unfolding proceed work encrypt_field_body refuse fail failing
  encrypts-Ends clock m c s = elim (Bool-cases (is_empty m.wrapped_dek)) [
    | inr old ↦
        rw (old, encrypt_field_body)
          (Ends-after clock (encrypts m) (omega arith) (rw (old, proceed, work) refl)
            (seal_row-Ends clock m c.tenant_id m.wrapped_dek s))
    | inl new ↦
        let (minted, held) = g.provider.generate_wrapped_dek g.kek c.tenant_id s.held in
        let s' : State g = record s { held = held } in
        elim (Result-cases minted) [
          | inl (w, e) ↦
              rw (new, encrypt_field_body)
                (rw (e, encrypt_field_body)
                  (Ends-after clock (encrypts m) {s' = s'}
                    {stage' = calling (sealing g m c.tenant_id w)} (omega arith)
                    (rw (new, proceed, work) (rw (e, proceed, work) refl))
                    (Ends-after clock (encrypts m) (omega arith) refl
                      (seal_row-Ends clock m c.tenant_id w s'))))
          | inr (x, e) ↦
              rw (new, encrypt_field_body)
                (rw (e, encrypt_field_body)
                  (Ends-after clock (encrypts m) {s' = s'}
                    {stage' = concluding (failing g (encrypts m) x)} (omega arith)
                    (rw (new, proceed, work) (rw (e, proceed, work) refl))
                    (concluding-Ends clock (encrypts m) s' (failing g (encrypts m) x))))
        ]
  ]

  pub body-Ends :
      (clock : ℕ) (q : Request) (c : RequestContext) (s : State g)
      → Ends clock q s (granted c) (body g q c.tenant_id s)
  unfolding proceed work
  body-Ends clock (verifies m) c s =
      Ends-after clock (verifies m) (omega arith) refl
        (verifies-Ends clock m c s m.credential m.assertion)
  body-Ends clock (encrypts m) c s = encrypts-Ends clock m c s
  body-Ends clock (decrypts m) c s = decrypts-Ends clock m c s
  body-Ends clock (indexes m) c s = indexes-Ends clock m c s
