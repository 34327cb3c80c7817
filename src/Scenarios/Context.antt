-- ===== src/Scenarios/Context.antt =====
-- crypto/src/context.rs: the tests of the request gate.
use ai_auth.Common.{Bool, true, false, not, ◌&&◌, [], none, some, Result, err}
use ai_auth.Context.{validate}
use ai_auth.Proto.{RequestContext, Status, invalid_argument, permission_denied}
use ai_auth.Proto.Purpose
use ai_auth.Proto.Purpose.{Purpose}
use ai_auth.Scenarios.{is_ok}
use ai_auth.Text.{Str, str}

unfoldable pub ctx : Str → Str → Purpose → RequestContext
ctx tenant subject purpose = record {
  tenant_id = tenant;
  subject_id = subject;
  purpose = Purpose.as_i32 purpose;
  request_id = str "req-1";
}

-- The code of an error is `InvalidArgument`.
unfoldable pub invalid : {A : Type 0} → Result A Status → Bool
invalid (err (invalid_argument m)) = true
invalid _ = false

-- The code of an error is `PermissionDenied`.
unfoldable pub denied : {A : Type 0} → Result A Status → Bool
denied (err (permission_denied m)) = true
denied _ = false

unfoldable pub missing_context_is_rejected : Bool
missing_context_is_rejected = invalid (validate none Purpose.passkey_login false)

unfoldable pub unspecified_purpose_is_always_rejected : Bool
unspecified_purpose_is_always_rejected =
    let c = ctx (str "t1") (str "s1") Purpose.unspecified in
    invalid (validate (some c) Purpose.passkey_login false)

unfoldable pub wrong_purpose_is_permission_denied : Bool
wrong_purpose_is_permission_denied =
    let c = ctx (str "t1") (str "s1") Purpose.passkey_login in
    denied (validate (some c) Purpose.row_decrypt true)

unfoldable pub empty_tenant_is_rejected : Bool
empty_tenant_is_rejected =
    let c = ctx [] (str "s1") Purpose.blind_index in
    invalid (validate (some c) Purpose.blind_index false)

unfoldable pub missing_subject_rejected_only_when_required : Bool
missing_subject_rejected_only_when_required =
    let c = ctx (str "t1") [] Purpose.row_encrypt in
    not (is_ok (validate (some c) Purpose.row_encrypt true))
    && is_ok (validate (some c) Purpose.row_encrypt false)

unfoldable pub matching_purpose_passes : Bool
matching_purpose_passes =
    let c = ctx (str "t1") (str "s1") Purpose.row_decrypt in
    is_ok (validate (some c) Purpose.row_decrypt true)

unfoldable pub missing_request_id_is_rejected : Bool
missing_request_id_is_rejected =
    let c = ctx (str "t1") (str "s1") Purpose.blind_index in
    let cleared : RequestContext = record c { request_id = [] } in
    invalid (validate (some cleared) Purpose.blind_index false)
