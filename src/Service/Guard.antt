-- ===== src/Service/Guard.antt =====
-- crypto/src/service.rs: the `Guard`, its audit record, its budget check and how every handler begins.
use ai_auth.Common.{ℕ, Bool, ◌++◌, List, [], Option, none, some, Result, ok, err, if◌then◌else◌}
use ai_auth.Context.{validate}
use ai_auth.Limits.{Key, Bucket, RateLimiter, allow, default_limiter}
use ai_auth.Limits.Float.{F64}
use ai_auth.Proto.{RequestContext, Status, permission_denied, resource_exhausted, internal}
use ai_auth.Proto.Purpose.{Purpose}
use ai_auth.Provider.{KeyHandle, CryptoProvider, ProviderError, decrypt, display}
use ai_auth.Text.{Str, str}
use ai_auth.Webauthn.{Libraries}

-- The parts of a `Guard` that no call changes, with the parameters of the other components.
pub record Guard : Type 1 where
  pub floats : F64
  pub iter : List (Key × Bucket floats) → List (Key × Bucket floats)
  pub libraries : Libraries
  pub provider : CryptoProvider
  pub index_key : KeyHandle
  pub kek : KeyHandle

pub record State (g : Guard) : Type 0 where
  pub limiter : RateLimiter g.floats
  pub held : g.provider.State
  pub stdout : Str
  pub stderr : Str

-- `Guard::new`, with nothing written yet.
unfoldable pub start : (g : Guard) → g.provider.State → State g
start g held = record { limiter = default_limiter g.floats; held = held; stdout = []; stderr = [] }

pub data Outcome (A : Type 0) : Type 0 where
  returned : Result A Status → Outcome A
  panicked : Outcome A

-- The tenant and the request of a context, empty where there is none.
unfoldable pub audit_ids : Option RequestContext → Str × Str
audit_ids none = ([], [])
audit_ids (some c) = (c.tenant_id, c.request_id)

-- The line that `audit` prints.
unfoldable pub audit_line : Str → Str → Str → Str → Str
audit_line op tenant request outcome =
    str "{\"audit\":\"key_op\",\"op\":\""
    ++ op
    ++ str "\",\"tenant\":\""
    ++ tenant
    ++ str "\",\"request\":\""
    ++ request
    ++ str "\",\"outcome\":\""
    ++ outcome
    ++ str "\"}\n"

-- The line on stderr with the detail of an error.
unfoldable pub error_line : Str → Str → Str
error_line what detail =
    str "{\"error\":\"" ++ what ++ str "\",\"detail\":\"" ++ detail ++ str "\"}\n"

module _ (g : Guard) where
  abbrev pub Handler : Type 0 → Type 0
  Handler A = State g → Outcome A × State g

  unfoldable pub audit : Str → Option RequestContext → Str → State g → State g
  audit op ctx outcome s =
      let (tenant, request) = audit_ids ctx in
      record s { stdout = s.stdout ++ audit_line op tenant request outcome }

  unfoldable pub within_limits :
      ℕ → Str → Option RequestContext → Str → State g → Result (Unit {0}) Status × State g
  within_limits now op ctx tenant s =
      let (limiter, allowed) = allow g.floats g.iter s.limiter now tenant op in
      let s' : State g = record s { limiter = limiter } in
      if allowed then (ok tt, s') else (
        err (resource_exhausted (str "operation budget exceeded")),
        audit op ctx (str "rate_limited") s',
      )

  unfoldable pub fail_status : ProviderError → Status
  fail_status decrypt = permission_denied (str "not available for this context")
  fail_status other = internal (str "operation unavailable")

  unfoldable pub fail_detail : Str → ProviderError → Str
  fail_detail op decrypt = []
  fail_detail op other = error_line op (display other)

  unfoldable pub fail : Str → Option RequestContext → ProviderError → State g → Status × State g
  fail op ctx e s =
      let s' = audit op ctx (str "denied") s in
      (fail_status e, record s' { stderr = s'.stderr ++ fail_detail op e })

  -- How each handler begins: the gate, the tenant of the validated context, the rate budget.
  unfoldable pub gated :
      {A : Type 0}
      → ℕ
      → Str
      → Purpose
      → Bool
      → Option RequestContext
      → (Str → Handler A)
      → Handler A
  gated now op want subject_required ctx body s = elim (validate ctx want subject_required) [
    | err e ↦ (returned (err e), audit op ctx (str "rejected") s)
    | ok _ ↦ elim ctx [
      | none ↦ (panicked, s)
      | some c ↦
          let (budget, s') = within_limits now op (some c) c.tenant_id s in
          elim budget [ err e ↦ (returned (err e), s') | ok _ ↦ body c.tenant_id s' ]
    ]
  ]
