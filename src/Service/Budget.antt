-- ===== src/Service/Budget.antt =====
-- What a request does to the limiter: one charge, or nothing.
use ai_auth.Common.{ℕ, ◌≡◌, sym, ap, ◌∙◌, subst, List, arith}
use ai_auth.Limits.{Key, Bucket}
use ai_auth.Limits.Bound.{IsWellFormed, allow-IsWellFormed}
use ai_auth.Proto.{RequestContext}
use ai_auth.Service.Begins.{Begins, refused, limited, admitted, charged}
use ai_auth.Service.Gate.{body, serve-Begins}
use ai_auth.Service.Guard.{Guard, State, Outcome, audit, fail}
use ai_auth.Service.Handlers.{
  verify_assertion_body, encrypt_field_body, seal_row, decrypt_field_body, blind_index_body, refuse,
}
use ai_auth.Service.Serve.{
  Request, Response, verifies, encrypts, decrypts, indexes, operation, purpose, subject_required,
  context, serve,
}
use ai_auth.Text.{Str}
use mathlib.Core.List.{Perm}

module _ (g : Guard) where
  pub body-limiter :
      (q : Request) (tenant : Str) (s : State g) → (body g q tenant s).1.limiter ≡ s.limiter
  unfolding verify_assertion_body encrypt_field_body seal_row decrypt_field_body blind_index_body
      refuse audit fail
  body-limiter (verifies m) tenant s = ground arith
  body-limiter (encrypts m) tenant s = ground arith
  body-limiter (decrypts m) tenant s = ground arith
  body-limiter (indexes m) tenant s = ground arith

module _ (g : Guard) (iter_perm : (m : List (Key × Bucket g.floats)) → Perm (g.iter m) m) where
  charged-IsWellFormed :
      (now : ℕ) (op : Str) (c : RequestContext) (s : State g)
      → IsWellFormed s.limiter
      → IsWellFormed (charged g now op c s).limiter
  charged-IsWellFormed now op c s w =
      allow-IsWellFormed g.floats g.iter iter_perm s.limiter now c.tenant_id op w

  gated-IsWellFormed :
      (q : Request) {now : ℕ} {s : State g} (r : Outcome (Response q) × State g)
      → Begins g now (operation q) (purpose q) (subject_required q) (context q) (body g q) s r
      → IsWellFormed s.limiter
      → IsWellFormed r.1.limiter
  unfolding audit
  gated-IsWellFormed q r (refused e _ _ same) w =
      subst IsWellFormed (sym (ap (λ x. x.1.limiter) same)) w
  gated-IsWellFormed q {now} {s} r (limited c _ _ _ same) w =
      subst IsWellFormed (sym (ap (λ x. x.1.limiter) same))
        (charged-IsWellFormed now (operation q) c s w)
  gated-IsWellFormed q {now} {s} r (admitted c _ _ _ same) w =
      subst IsWellFormed
        (sym (
          ap (λ x. x.1.limiter) same
          ∙ body-limiter g q c.tenant_id (charged g now (operation q) c s)))
        (charged-IsWellFormed now (operation q) c s w)

  pub serve-IsWellFormed :
      (now : ℕ) (q : Request) (s : State g)
      → IsWellFormed s.limiter
      → IsWellFormed (serve g now q s).1.limiter
  serve-IsWellFormed now q s w = gated-IsWellFormed q _ (serve-Begins g now q s) w
