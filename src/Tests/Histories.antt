-- ===== src/Tests/Histories.antt =====
-- Histories of requests at a running guard.
use ai_auth.Common.{refl, ◌+◌, ◌-◌, ◌*◌, ◌≤◌, List, [], ◌∷◌, arith}
use ai_auth.Limits.Float.{nanos-IsExact, nano}
use ai_auth.Service.Drain.{Incoming, replies, replies-le_budget}
use ai_auth.Proto.{invalid_argument}
use ai_auth.Service.Guard.{start}
use ai_auth.Service.Oracle.{Says, serve-Says}
use ai_auth.Service.Serve.{serve, decrypts, indexes, verifies}
use ai_auth.Tests.Requests.{g, ask, bare, anonymous, first}
use ai_auth.Text.{str}

abbrev requests : List Incoming
requests =
    record { now = 4; request = indexes ask }
    ∷ record { now = 4; request = decrypts anonymous }
    ∷ record { now = 7; request = verifies bare }
    ∷ []

replies-le_budget_example :
    replies g (str "blind_index") requests (start g 7) * nano ≤ 6000 * nano + (9 - 2) * 1000
replies-le_budget_example =
    replies-le_budget g nanos-IsExact (str "blind_index") 7 2 9 requests (omega arith)

serve-Says_example :
    Says (decrypts anonymous) (invalid_argument (str "request_context is required"))
unfolding serve ai_auth.Service.Handlers.decrypt_field ai_auth.Service.Guard.gated
    ai_auth.Context.validate
serve-Says_example =
    serve-Says g 0 (decrypts anonymous) first (invalid_argument (str "request_context is required"))
      refl
