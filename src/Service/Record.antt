-- ===== src/Service/Record.antt =====
-- What an audit record is: a line of JSON with the identifiers of a request. It describes what
-- `audit` of crypto/src/service.rs prints.
use ai_auth.Common.{◌≡◌, [], ◌∷◌, Option, none, some, append_assoc}
use ai_auth.Proto.{RequestContext}
use ai_auth.Service.Guard.{audit_line, audit_ids}
use ai_auth.Service.Serve.{Request, operation, context}
use ai_auth.Text.{Str, str}
use ai_auth.Text.Json.{text, json_line}

unfoldable pub key_op : Str → Str → Str → Str → Str
key_op op tenant request outcome = json_line (
    (str "audit", text (str "key_op"))
    ∷ (str "op", text op)
    ∷ (str "tenant", text tenant)
    ∷ (str "request", text request)
    ∷ (str "outcome", text outcome)
    ∷ [])

abbrev pub tenant_of : Option RequestContext → Str
tenant_of none = []
tenant_of (some c) = c.tenant_id

abbrev pub request_of : Option RequestContext → Str
request_of none = []
request_of (some c) = c.request_id

-- The record of a request that ended with this outcome.
abbrev pub record_of : Request → Str → Str
record_of q outcome = key_op (operation q) (tenant_of (context q)) (request_of (context q)) outcome

pub audit_line-key_op :
    (op tenant request outcome : Str)
    → audit_line op tenant request outcome ≡ key_op op tenant request outcome
unfolding audit_line key_op json_line str
audit_line-key_op op tenant request outcome = simp append_assoc

audit_line-ids :
    (op : Str) (ctx : Option RequestContext) (outcome : Str)
    → audit_line op (audit_ids ctx).0 (audit_ids ctx).1 outcome
      ≡ key_op op (tenant_of ctx) (request_of ctx) outcome
unfolding audit_ids
audit_line-ids op none outcome = audit_line-key_op op [] [] outcome
audit_line-ids op (some c) outcome = audit_line-key_op op c.tenant_id c.request_id outcome

pub audit_line-record_of :
    (q : Request) (outcome : Str)
    → audit_line (operation q) (audit_ids (context q)).0 (audit_ids (context q)).1 outcome
      ≡ record_of q outcome
audit_line-record_of q outcome = audit_line-ids (operation q) (context q) outcome
