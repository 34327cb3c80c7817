-- ===== src/Context/Gate.antt =====
-- What a request that passes the gate has shown, and what the gate answers to the others.
use ai_auth.Common.{
  ◌≡◌, ◌≢◌, ◌↔◌, ◌⊎◌, inl, inr, Bool, true, false, List, [], Option, none, some, ok, err, arith,
  is_empty, Bool-cases, ◌&&◌, ◌++◌,
}
use ai_auth.Proto.{RequestContext, Status, invalid_argument, permission_denied}
use ai_auth.Proto.Purpose.{Purpose, unspecified, from_i32, debug, Purpose-discrete}
use ai_auth.Context.{validate}
use ai_auth.Text.{str}

-- What the gate demands, without the order in which it looks.
pub record Admits (ctx : RequestContext) (want : Purpose) (subject_required : Bool) : Type 0 where
  pub request : ctx.request_id ≢ []
  pub tenant : ctx.tenant_id ≢ []
  pub subject : (subject_required ≡ false) ⊎ (ctx.subject_id ≢ [])
  pub purpose : from_i32 ctx.purpose ≡ want

pub is_empty-eq-true {ℓ} : {A : Type ℓ} (l : List A) → is_empty l ≡ true → l ≡ []
is_empty-eq-true l h = ground arith

-- What the gate demands of a request, which may carry no context.
abbrev pub AdmitsRequest : Option RequestContext → Purpose → Bool → Type 0
AdmitsRequest none want subject_required = ⊥
AdmitsRequest (some ctx) want subject_required = Admits ctx want subject_required

pub validate-Admits :
    (o : Option RequestContext) (want : Purpose) (subject_required : Bool)
    → validate o want subject_required ≡ ok tt
    → AdmitsRequest o want subject_required
unfolding validate
validate-Admits none want sr h = cc
validate-Admits (some ctx) want sr h = record {
  request = ground arith;
  tenant = ground arith;
  subject = ground arith;
  purpose = ground arith;
}

validate_of_Admits :
    (ctx : RequestContext) (want : Purpose) (subject_required : Bool)
    → want ≢ unspecified
    → Admits ctx want subject_required
    → validate (some ctx) want subject_required ≡ ok tt
unfolding validate
validate_of_Admits ctx want sr h a = ground (
  arith,
  is_empty-eq-true ctx.request_id,
  is_empty-eq-true ctx.tenant_id,
  is_empty-eq-true ctx.subject_id,
)

-- For an operation with a purpose of its own, a request passes the gate exactly when it carries a
-- context with a request id, a tenant, the operation's purpose and, where the operation requires
-- one, a subject.
pub validate_iff :
    (o : Option RequestContext) (want : Purpose) (subject_required : Bool)
    → want ≢ unspecified
    → (validate o want subject_required ≡ ok tt) ↔ AdmitsRequest o want subject_required
validate_iff none want sr h = (validate-Admits none want sr, λ a. absurd a)
validate_iff (some ctx) want sr h =
    (validate-Admits (some ctx) want sr, validate_of_Admits ctx want sr h)

-- A request that states its purpose and its identifiers, but another operation's purpose.
pub record Mismatches (ctx : RequestContext) (want : Purpose) (subject_required : Bool)
    : Type 0 where
  pub request : ctx.request_id ≢ []
  pub tenant : ctx.tenant_id ≢ []
  pub subject : (subject_required ≡ false) ⊎ (ctx.subject_id ≢ [])
  pub stated : from_i32 ctx.purpose ≢ unspecified
  pub other : from_i32 ctx.purpose ≢ want

abbrev pub IsInvalidArgument : Status → Type 0
IsInvalidArgument (invalid_argument m) = Unit
IsInvalidArgument _ = ⊥

subject_absent :
    (ctx : RequestContext) (sr : Bool)
    → (sr && is_empty ctx.subject_id) ≡ true
    → ¬ ((sr ≡ false) ⊎ (ctx.subject_id ≢ []))
subject_absent ctx sr h s = ground (arith, is_empty-eq-true ctx.subject_id)

-- The gate refuses a context with `permission_denied` exactly when the context is complete and
-- states a purpose that is not the operation's, and its message is then `purpose ... does not match
-- this operation (T9)` with the stated purpose's name; any other refusal of a context is
-- `invalid_argument`.
pub validate-refusal :
    (ctx : RequestContext) (want : Purpose) (subject_required : Bool) (e : Status)
    → validate (some ctx) want subject_required ≡ err e
    → (Mismatches ctx want subject_required
        × (e
            ≡ permission_denied (
                str "purpose "
                ++ debug (from_i32 ctx.purpose)
                ++ str " does not match this operation (T9)")))
      ⊎ ((¬ Mismatches ctx want subject_required) × IsInvalidArgument e)
unfolding validate ai_auth.Context.mismatch_message
validate-refusal ctx want sr e h = elim (Bool-cases (is_empty ctx.request_id)) [
  | inl e₁ ↦ inr ((λ m. m.request (is_empty-eq-true _ e₁)), ground arith)
  | inr e₁ ↦ elim (Bool-cases (is_empty ctx.tenant_id)) [
    | inl e₂ ↦ inr ((λ m. m.tenant (is_empty-eq-true _ e₂)), ground arith)
    | inr e₂ ↦ elim (Bool-cases (sr && is_empty ctx.subject_id)) [
      | inl e₃ ↦ inr ((λ m. subject_absent ctx sr e₃ m.subject), ground arith)
      | inr e₃ ↦ elim (Purpose-discrete (from_i32 ctx.purpose) unspecified) [
        | yes p ↦ inr ((λ m. m.stated p), ground arith)
        | no n ↦ elim (Purpose-discrete (from_i32 ctx.purpose) want) [
          | yes q ↦ absurd (ground arith)
          | no q ↦ inl (
            record {
              request = ground arith;
              tenant = ground arith;
              subject = ground arith;
              stated = n;
              other = q;
            },
            ground arith,
          )
        ]
      ]
    ]
  ]
]
