-- ===== src/Service/Journal.antt =====
-- What stdout holds after a history of requests.
use ai_auth.Common.{◌≡◌, sym, ap, ◌∙◌, ◌++◌, List, [], ◌∷◌, append-nil, append_assoc}
use ai_auth.Service.Audit.{Reports, serve-Audits}
use ai_auth.Service.Drain.{Incoming}
use ai_auth.Service.Guard.{Guard, State}
use ai_auth.Service.Record.{record_of, audit_line-record_of}
use ai_auth.Service.Serve.{serve}
use ai_auth.Text.{Str}

-- The records of requests with these outcomes, in turn.
unfoldable pub journal : List Incoming → List Str → Str
journal (i ∷ rest) (outcome ∷ outcomes) = record_of i.request outcome ++ journal rest outcomes
journal _ _ = []

module _ (g : Guard) where
  unfoldable pub attended : List Incoming → State g → State g
  attended [] s = s
  attended (i ∷ rest) s = attended rest (serve g i.now i.request s).1

  -- There is an outcome for each request, the one of the answer that the request got.
  abbrev pub Reported : List Incoming → List Str → State g → Type 0
  Reported [] [] s = Unit
  Reported (i ∷ rest) (outcome ∷ outcomes) s =
      let (answer, s') = serve g i.now i.request s in
      Reports i.request answer outcome × Reported rest outcomes s'
  Reported _ _ s = ⊥

  -- After any history of requests stdout has grown by one audit record for each request, in their
  -- order and with nothing between: each with the request's operation, tenant and request id, and the
  -- outcome of the answer that was given.
  pub attended-journal :
      (requests : List Incoming) (s : State g)
      → (outcomes : List Str) × Reported requests outcomes s
        × ((attended requests s).stdout ≡ s.stdout ++ journal requests outcomes)
  unfolding attended journal
  attended-journal [] s = ([], tt, sym (append-nil s.stdout))
  attended-journal (i ∷ rest) s =
      let a = serve-Audits g i.now i.request s in
      let (outcomes, reported, grown) = attended-journal rest (serve g i.now i.request s).1 in
      (
        a.outcome ∷ outcomes,
        (a.reports, reported),
        grown
            ∙ ap (λ t. t ++ journal rest outcomes)
                (a.line ∙ ap (λ line. s.stdout ++ line) (audit_line-record_of i.request a.outcome))
            ∙ append_assoc s.stdout _ _,
      )
