-- ===== src/Service/Answers.antt =====
-- What holds of each answer, under concurrent requests at a Guard: a property of answers that the gate,
-- the budget and the work of every request ensure is one of all answers, however handlers interleave.
use ai_auth.Common.{
  ℕ, ◌≡◌, inl, inr, refl, sym, subst, Bool, true, false, [], ◌∷◌, some, Result, err, if◌then◌else◌,
  Result-cases, Option-cases, All,
}
use ai_auth.Context.{validate}
use ai_auth.Context.Gate.{AdmitsRequest, validate-Admits}
use ai_auth.Proto.{RequestContext, Status, resource_exhausted}
use ai_auth.Schedule.Account
use ai_auth.Schedule.Account.{Account}
use ai_auth.Service.Guard.{Guard, State, returned, panicked}
use ai_auth.Service.Serve.{Request, Response, context, purpose, subject_required}
use ai_auth.Service.Threads.{
  Stage, arrived, timed, passed, granted, calling, concluding, reporting, finished, Thread, System,
  Reach, begin, limited, work, audited, proceed, advance, left, IsNew,
}
use ai_auth.Text.{Str, str}

-- The gate of a request admits it.
abbrev pub Admitted : Request → Type 0
Admitted q = AdmitsRequest (context q) (purpose q) (subject_required q)

-- A request whose gate admits it carries this context.
abbrev pub AdmitsWith : Request → RequestContext → Type 0
AdmitsWith q c = (context q ≡ some c) × Admitted q

module _ (g : Guard) (P : (q : Request) → Result (Response q) Status → Type 0) where
  -- However the handler of a request ends, the property holds of its answer. Beyond the gate, it
  -- admits the request; and it does not panic.
  abbrev pub Answers : {q : Request} → Stage g q → Type 0
  Answers arrived = Unit
  Answers {q} (timed now c) = AdmitsWith q c
  Answers {q} (passed now c) = AdmitsWith q c
  Answers {q} (granted c) = AdmitsWith q c
  Answers {q} (calling f) = (held : g.provider.State) → P q (f held).0.answer
  Answers {q} (concluding x) = P q x.answer
  Answers {q} (reporting answer detail) = P q answer
  Answers {q} (finished (returned answer)) = P q answer
  Answers (finished panicked) = ⊥

  -- The gate, the budget and the work of a request ensure the property.
  pub record Ensured : Type 0 where
    pub gate :
        (q : Request) (e : Status)
        → validate (context q) (purpose q) (subject_required q) ≡ err e
        → P q (err e)
    pub budget : (q : Request) → P q (err (resource_exhausted (str "operation budget exceeded")))
    pub worked :
        (q : Request) (c : RequestContext) (held : g.provider.State)
        → AdmitsWith q c
        → Answers (work g q c.tenant_id held).0

  audited-Answers :
      (q : Request) (answer : Result (Response q) Status) (detail : Str)
      → P q answer
      → Answers (audited g q answer detail)
  unfolding audited
  audited-Answers q answer [] h = h
  audited-Answers q answer (c ∷ detail) h = h

  if-Answers :
      (q : Request) (b : Bool) (x y : Stage g q)
      → Answers x
      → Answers y
      → Answers (if b then x else y)
  if-Answers q true x y h k = h
  if-Answers q false x y h k = k

  module _ (ensured : Ensured) where
    begin-Answers : (clock : ℕ) (q : Request) → Answers (begin g clock q)
    unfolding begin
    begin-Answers clock q =
        elim (Result-cases (validate (context q) (purpose q) (subject_required q))) [
          | inr (e, failed) ↦ rw (failed, begin) (ensured.gate q e failed)
          | inl (u, passes) ↦
              let a : Admitted q =
                validate-Admits (context q) (purpose q) (subject_required q) passes in
              elim (Option-cases (context q)) [
                | inl absent ↦
                    absurd (subst (λ c. AdmitsRequest c (purpose q) (subject_required q)) absent a)
                | inr (c, there) ↦
                    let goes_on : begin g clock q ≡ timed clock c =
                      rw (passes, begin) (rw (there, begin) refl) in
                    subst (λ stage. Answers {q = q} stage) (sym goes_on) (there, a)
              ]
        ]

    proceed-Answers :
        (clock : ℕ) (s : State g) (q : Request) (stage : Stage g q)
        → Answers stage
        → Answers (proceed g clock s q stage).1
    unfolding proceed
    proceed-Answers clock s q arrived h = begin-Answers clock q
    proceed-Answers clock s q (timed now c) h =
        if-Answers q _ (passed now c) (limited g q) h (ensured.budget q)
    proceed-Answers clock s q (passed now c) h =
        if-Answers q _ (granted c) (limited g q) h (ensured.budget q)
    proceed-Answers clock s q (granted c) h = ensured.worked q c s.held h
    proceed-Answers clock s q (calling f) h = h s.held
    proceed-Answers clock s q (concluding x) h = audited-Answers q x.answer x.detail h
    proceed-Answers clock s q (reporting answer detail) h = h
    proceed-Answers clock s q (finished o) h = h

    advance-Answers :
        (clock : ℕ) (s : State g) (t : Thread g) (m w : ℕ)
        → Answers t.stage
        → Unit {0}
        → Answers (advance g clock s t).1.stage × Unit {0}
    unfolding advance
    advance-Answers clock s t m w h u = (proceed-Answers clock s t.request t.stage h, tt)

    fresh : (clock : ℕ) (t : Thread g) → IsNew g t → Answers t.stage × (◌≡◌ {A = ℕ} 0 0)
    fresh clock t new = (subst (λ stage. Answers {q = t.request} stage) (sym new) tt, refl)

    abbrev account : Account (advance g) (IsNew g)
    account = record {
      Q = λ clock t. Answers t.stage;
      weight = λ t. 0;
      wait = λ clock t. 0;
      A = λ clock s n w. Unit;
      later = λ clock d t h. h;
      fresh = fresh;
      tick = λ clock d s n w h. h;
      step = advance-Answers;
    }

    pub Reach-Answers :
        (s : State g) (clock : ℕ) (u : System g)
        → Reach g (record { shared = s; clock = clock; threads = [] }) u
        → All (λ t. Answers t.stage) u.threads
    Reach-Answers s clock u r =
        let p =
          Account.Reach-Holds (advance g) (left g) (IsNew g) account _ u r
            (record { known = tt; account = tt }) in
        p.known
