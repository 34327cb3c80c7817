-- ===== src/Service/Threads.antt =====
-- crypto/src/service.rs: concurrent requests at one Guard. A handler has no `await`, and other handlers
-- run on other threads of the runtime. What it shares with them are the clock, the limiter's two
-- locked regions, the provider, and stdout and stderr, each use of which is one step: `println!` and
-- `eprintln!` hold their stream's lock for a line.
use ai_auth.Common.{ℕ, ◌≡◌, ◌++◌, [], Option, none, some, Result, ok, err, is_empty, if◌then◌else◌}
use ai_auth.Context.{validate}
use ai_auth.Limits.{charge_global, charge_tenant}
use ai_auth.Proto.{
  Status, RequestContext, resource_exhausted, invalid_argument, internal, VerifyAssertionRequest,
  EncryptFieldRequest, StoredCredential, Assertion,
}
use ai_auth.Provider.{ProviderError, display}
use ai_auth.Schedule
use ai_auth.Service.Guard.{
  Guard, State, Outcome, returned, panicked, audit, error_line, fail_status, fail_detail,
}
use ai_auth.Service.Handlers.{verdict_of}
use ai_auth.Service.Serve.{
  Request, verifies, encrypts, decrypts, indexes, Response, context, operation, purpose,
  subject_required,
}
use ai_auth.Text.{Str, Bytes, str}
use ai_auth.Webauthn.{Expectations}

-- What a handler still writes and returns: the outcome on stdout, what it says on stderr, if
-- anything, and the answer.
pub record Ending (q : Request) : Type 0 where
  pub answer : Result (Response q) Status
  pub outcome : Str
  pub detail : Str

module _ (g : Guard) where
  -- Where the handler of a request stands: before the gate, before the lock of `global` with a
  -- reading of the clock, before the lock of `buckets`, granted, before a further call of the
  -- provider, before its audit record, before its line on stderr, or after its return.
  pub data Stage (q : Request) : Type 0 where
    arrived : Stage q
    timed : ℕ → RequestContext → Stage q
    passed : ℕ → RequestContext → Stage q
    granted : RequestContext → Stage q
    calling : (g.provider.State → Ending q × g.provider.State) → Stage q
    concluding : Ending q → Stage q
    reporting : Result (Response q) Status → Str → Stage q
    finished : Outcome (Response q) → Stage q

  pub record Thread : Type 0 where
    pub request : Request
    pub stage : Stage request

  -- The gate, and `self.clock.now()` if it lets the request pass.
  unfoldable pub begin : ℕ → (q : Request) → Stage q
  begin clock q = elim (validate (context q) (purpose q) (subject_required q)) [
    | err e ↦ concluding (record { answer = err e; outcome = str "rejected"; detail = [] })
    | ok _ ↦ elim (context q) [ none ↦ finished panicked | some c ↦ timed clock c ]
  ]

  -- `within_limits` with a refusal.
  abbrev pub limited : (q : Request) → Stage q
  limited q = concluding (record {
    answer = err (resource_exhausted (str "operation budget exceeded"));
    outcome = str "rate_limited";
    detail = [];
  })

  -- `fail`
  unfoldable pub failing : (q : Request) → ProviderError → Ending q
  failing q e = record {
    answer = err (fail_status g e);
    outcome = str "denied";
    detail = fail_detail g (operation q) e;
  }

  unfoldable pub checked :
      (m : VerifyAssertionRequest)
      → Option StoredCredential
      → Option Assertion
      → Ending (verifies m)
  checked m (some cred) (some a) =
      let exp : Expectations = record {
        rp_id = m.rp_id;
        origin = m.expected_origin;
        challenge = m.expected_challenge;
        stored_sign_count = cred.sign_count;
      } in
      let (response, outcome) = verdict_of g exp cred a in
      record { answer = ok response; outcome = outcome; detail = [] }
  checked m _ _ = record {
    answer = err (invalid_argument (str "credential and assertion are required"));
    outcome = str "rejected";
    detail = [];
  }

  unfoldable pub sealing :
      (m : EncryptFieldRequest)
      → Str
      → Bytes
      → g.provider.State
      → Ending (encrypts m) × g.provider.State
  sealing m tenant wrapped held =
      let (sealed, held') = g.provider.encrypt_field g.kek tenant wrapped m.plaintext held in
      elim sealed [
        | ok ciphertext ↦ (
          record {
            answer = ok (record { ciphertext = ciphertext; wrapped_dek = wrapped });
            outcome = str "ok";
            detail = [];
          },
          held',
        )
        | err e ↦ (failing (encrypts m) e, held')
      ]

  -- What a granted request does up to and with its first call of the provider.
  unfoldable pub work : (q : Request) → Str → g.provider.State → Stage q × g.provider.State
  work (verifies m) tenant held = (concluding (checked m m.credential m.assertion), held)
  work (encrypts m) tenant held =
      if is_empty m.wrapped_dek
      then (let (minted, held') = g.provider.generate_wrapped_dek g.kek tenant held in
          elim minted [
            | ok wrapped ↦ (calling (sealing m tenant wrapped), held')
            | err e ↦ (concluding (failing (encrypts m) e), held')
          ])
      else (let (ending, held') = sealing m tenant m.wrapped_dek held in (concluding ending, held'))
  work (decrypts m) tenant held =
      let (opened, held') = g.provider.decrypt_field g.kek tenant m.wrapped_dek m.ciphertext held in
      elim opened [
        | ok plaintext ↦ (
          concluding (record {
            answer = ok (record { plaintext = plaintext });
            outcome = str "ok";
            detail = [];
          }),
          held',
        )
        | err e ↦ (concluding (failing (decrypts m) e), held')
      ]
  work (indexes m) tenant held =
      let (indexed, held') = g.provider.blind_index g.index_key tenant m.input held in
      elim indexed [
        | ok index ↦ (
          concluding
              (record { answer = ok (record { index = index }); outcome = str "ok"; detail = [] }),
          held',
        )
        | err e ↦ (
          concluding (record {
            answer = err (internal (str "blind index unavailable"));
            outcome = str "backend_error";
            detail = error_line (str "blind_index backend") (display e);
          }),
          held',
        )
      ]

  -- After the audit record: the line on stderr, where there is one.
  unfoldable pub audited : (q : Request) → Result (Response q) Status → Str → Stage q
  audited q answer detail =
      if is_empty detail then finished (returned answer) else reporting answer detail

  -- The next step of a handler, at a reading of the clock.
  unfoldable pub proceed : ℕ → State g → (q : Request) → Stage q → State g × Stage q
  proceed clock s q arrived = (s, begin clock q)
  proceed clock s q (timed now c) =
      let (limiter, within) = charge_global g.floats s.limiter now (operation q) in
      (record s { limiter = limiter }, if within then passed now c else limited q)
  proceed clock s q (passed now c) =
      let (limiter, allowed) =
        charge_tenant g.floats g.iter s.limiter now c.tenant_id (operation q) in
      (record s { limiter = limiter }, if allowed then granted c else limited q)
  proceed clock s q (granted c) =
      let (stage, held) = work q c.tenant_id s.held in (record s { held = held }, stage)
  proceed clock s q (calling f) =
      let (ending, held) = f s.held in (record s { held = held }, concluding ending)
  proceed clock s q (concluding x) =
      (audit g (operation q) (context q) x.outcome s, audited q x.answer x.detail)
  proceed clock s q (reporting answer detail) =
      (record s { stderr = s.stderr ++ detail }, finished (returned answer))
  proceed clock s q (finished o) = (s, finished o)

  unfoldable pub advance : ℕ → State g → Thread → State g × Thread
  unfolding proceed
  advance clock s t =
      let (s', stage) = proceed clock s t.request t.stage in
      (s', record { request = t.request; stage = stage })

  -- The most steps that a handler has left.
  abbrev pub left_at : {q : Request} → Stage q → ℕ
  left_at arrived = 7
  left_at (timed now c) = 6
  left_at (passed now c) = 5
  left_at (granted c) = 4
  left_at (calling f) = 3
  left_at (concluding x) = 2
  left_at (reporting answer detail) = 1
  left_at (finished o) = 0

  abbrev pub left : Thread → ℕ
  left t = left_at t.stage

  abbrev pub IsNew : Thread → Type 0
  IsNew t = t.stage ≡ arrived

  -- Concurrent requests at a Guard.
  abbrev pub System : Type 0
  System = Schedule.System advance left IsNew

  abbrev pub Reach : System → System → Type 0
  Reach = Schedule.Reach advance left IsNew
