-- ===== src/Service/Forge.antt =====
-- The audit record is built from the caller's identifiers as they stand.
use ai_auth.Common.{ℕ, ◌≡◌, ◌++◌, ◌∙◌, ap, append_assoc, some}
use ai_auth.Proto.{RequestContext}
use ai_auth.Service.Audit.{Reports, serve-Audits}
use ai_auth.Service.Guard.{Guard, State}
use ai_auth.Service.Record.{key_op, audit_line-record_of, record_of}
use ai_auth.Service.Serve.{Request, operation, context, serve}
use ai_auth.Text.{Str, str}
use ai_auth.Text.Json.{json_line}

-- What a tenant id holds that closes one record and opens another.
abbrev pub forged_tenant : Str → Str → Str → Str → Str → Str
forged_tenant tenant request outcome op victim =
    tenant
    ++ (str "\",\"request\":\""
        ++ (request
            ++ (str "\",\"outcome\":\""
                ++ (outcome
                    ++ (str "\"}\n"
                        ++ (str "{\"audit\":\"key_op\",\"op\":\""
                            ++ (op ++ (str "\",\"tenant\":\"" ++ victim))))))))

key_op-forged :
    (op tenant request outcome op' victim request' outcome' : Str)
    → key_op op (forged_tenant tenant request outcome op' victim) request' outcome'
      ≡ key_op op tenant request outcome ++ key_op op' victim request' outcome'
unfolding key_op json_line str
key_op-forged op tenant request outcome op' victim request' outcome' = simp append_assoc

-- One call whose tenant id is chosen so leaves on stdout what two calls would, whatever becomes of
-- it: a whole record of the call's own operation, with any tenant, request and outcome; and after it
-- a record of any operation and tenant, with the call's request id and the outcome of its answer.
pub serve-forged :
    (g : Guard) (now : ℕ) (q : Request) (s : State g) (c : RequestContext)
    (tenant request outcome op victim : Str)
    → context q ≡ some c
    → c.tenant_id ≡ forged_tenant tenant request outcome op victim
    → (outcome' : Str) × Reports q (serve g now q s).0 outcome'
      × ((serve g now q s).1.stdout
          ≡ s.stdout
            ++ (key_op (operation q) tenant request outcome
                ++ key_op op victim c.request_id outcome'))
serve-forged g now q s c tenant request outcome op victim from forged =
    let a = serve-Audits g now q s in
    let forges : record_of q a.outcome
        ≡ key_op (operation q) tenant request outcome ++ key_op op victim c.request_id a.outcome =
      rw (from, forged)
        (key_op-forged (operation q) tenant request outcome op victim c.request_id a.outcome) in
    (
      a.outcome,
      a.reports,
      a.line ∙ ap (λ line. s.stdout ++ line) (audit_line-record_of q a.outcome ∙ forges),
    )
