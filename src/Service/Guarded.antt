-- ===== src/Service/Guarded.antt =====
-- The order of every handler, under concurrent requests: no reply without the gate in front of it.
use ai_auth.Common.{ℕ, [], Result, ok, err, All, arith}
use ai_auth.Proto.{Status}
use ai_auth.Service.Answers.{Admitted, Answers, Ensured, Reach-Answers}
use ai_auth.Service.Guard.{Guard, State}
use ai_auth.Service.Serve.{Request, verifies, encrypts, decrypts, indexes, Response}
use ai_auth.Service.Threads.{
  Stage, arrived, timed, passed, granted, calling, concluding, reporting, finished, System, Reach,
  work,
}
use ai_auth.Text.{Str}

-- A reply goes to a request that the gate admits.
abbrev pub Earned : (q : Request) → Result (Response q) Status → Type 0
Earned q (ok a) = Admitted q
Earned q (err e) = Unit

module _ (g : Guard) where
  -- A handler that still works on its answer.
  abbrev pub Works : {q : Request} → Stage g q → Type 0
  Works (calling f) = Unit
  Works (concluding x) = Unit
  Works _ = ⊥

  pub work-Works :
      (q : Request) (tenant : Str) (held : g.provider.State) → Works (work g q tenant held).0
  unfolding work
  work-Works (verifies m) tenant held = tt
  work-Works (encrypts m) tenant held = ground arith
  work-Works (decrypts m) tenant held = ground arith
  work-Works (indexes m) tenant held = ground arith

  -- A property of every answer to a request holds however its work ends.
  pub Works-Answers :
      (P : (q : Request) → Result (Response q) Status → Type 0) (q : Request) (stage : Stage g q)
      → ((answer : Result (Response q) Status) → P q answer)
      → Works stage
      → Answers g P stage
  Works-Answers P q (calling f) every h = λ held. every (f held).0.answer
  Works-Answers P q (concluding x) every h = every x.answer
  Works-Answers P q arrived every h = elim h [ ]
  Works-Answers P q (timed now c) every h = elim h [ ]
  Works-Answers P q (passed now c) every h = elim h [ ]
  Works-Answers P q (granted c) every h = elim h [ ]
  Works-Answers P q (reporting answer detail) every h = elim h [ ]
  Works-Answers P q (finished o) every h = elim h [ ]

  earned : (q : Request) → Admitted q → (answer : Result (Response q) Status) → Earned q answer
  earned q h (ok a) = h
  earned q h (err e) = tt

  Earned-Ensured : Ensured g Earned
  Earned-Ensured = record {
    gate = λ q e h. tt;
    budget = λ q. tt;
    worked = λ q c held h.
        Works-Answers Earned q (work g q c.tenant_id held).0 (earned q h.1)
          (work-Works q c.tenant_id held);
  }

  -- However the steps of concurrent handlers interleave, no handler gets beyond the gate, and none
  -- returns a reply, unless the gate admits its request: it carries a context with a request id, a
  -- tenant, the operation's purpose and, where required, a subject. None panics.
  pub Reach-Guarded :
      (s : State g) (clock : ℕ) (u : System g)
      → Reach g (record { shared = s; clock = clock; threads = [] }) u
      → All (λ t. Answers g Earned t.stage) u.threads
  Reach-Guarded s clock u r = Reach-Answers g Earned Earned-Ensured s clock u r
