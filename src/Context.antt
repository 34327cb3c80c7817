-- ===== src/Context.antt =====
-- crypto/src/context.rs: the gate that every request passes first.
pub mod Gate
use ai_auth.Common.{
  Bool, ◌&&◌, Option, none, some, ◌++◌, Result, ok, err, is_empty, if◌then◌else◌, ite,
}
use ai_auth.Text.{Str, str}
use ai_auth.Proto.{RequestContext, Status, invalid_argument, permission_denied}
use ai_auth.Proto.Purpose.{Purpose, unspecified, from_i32, Purpose-discrete}
use ai_auth.Proto.Purpose

-- The message for a purpose that is not the operation's.
unfoldable pub mismatch_message : Purpose → Str
mismatch_message got =
    str "purpose " ++ Purpose.debug got ++ str " does not match this operation (T9)"

validate_present : RequestContext → Purpose → Bool → Result (Unit {0}) Status
validate_present ctx want subject_required =
    if is_empty ctx.request_id
    then err (
        invalid_argument
          (str "request_id is required: every key operation is individually audited"))
    else if is_empty ctx.tenant_id
    then err (invalid_argument (str "tenant_id is required (T10)"))
    else if subject_required && is_empty ctx.subject_id
    then err (invalid_argument (str "subject_id is required for row operations"))
    else let got = from_i32 ctx.purpose in
      ite (Purpose-discrete got unspecified)
        (err (invalid_argument (str "PURPOSE_UNSPECIFIED is always rejected (T9)")))
        (ite (Purpose-discrete got want) (ok tt) (err (permission_denied (mismatch_message got))))

unfoldable pub validate : Option RequestContext → Purpose → Bool → Result (Unit {0}) Status
unfolding validate_present
validate none want subject_required = err (invalid_argument (str "request_context is required"))
validate (some ctx) want subject_required = validate_present ctx want subject_required
