-- ===== src/Service/Witnessed.antt =====
-- The audit trail under concurrent requests at a Guard.
use ai_auth.Common.{
  ℕ, ◌≡◌, inl, inr, refl, sym, ap, subst, ◌∙◌, true, false, ◌++◌, [], List, ◌∷◌, map, Result, arith,
  if◌then◌else◌, Result-cases, Option-cases, All, Bool, append_assoc, append-nil,
}
use ai_auth.Context.{validate}
use ai_auth.Proto.{Status}
use ai_auth.Schedule
use ai_auth.Schedule.{ticks, arrives, moves, Reach-keeps, All-later, All-at}
use ai_auth.Service.Audit.{Reports}
use ai_auth.Service.Truthful.{Truthful, proceed-Truthful}
use ai_auth.Service.Guard.{Guard, State, returned, audit}
use ai_auth.Service.Record.{record_of, audit_line-record_of}
use ai_auth.Service.Serve.{
  Request, verifies, encrypts, decrypts, indexes, Response, context, purpose, subject_required,
}
use ai_auth.Service.Threads.{
  Stage, arrived, timed, passed, granted, calling, concluding, reporting, finished, Thread, System,
  Reach, begin, limited, work, audited, proceed, advance, left, IsNew,
}
use ai_auth.Text.{Str}
use mathlib.Core.List.{Perm, perm_middle}
use mathlib.Core.List.Perm

-- A request and the answer that it was given.
pub record Given : Type 0 where
  pub request : Request
  pub answer : Result (Response request) Status

-- What the audit trail says of a request: the outcome of the answer.
pub record Note : Type 0 where
  pub request : Request
  pub answer : Result (Response request) Status
  pub outcome : Str
  pub fits : Reports request (returned answer) outcome

-- The notes as they stand on stdout, the latest last.
unfoldable pub printed : List Note → Str
printed [] = []
printed (n ∷ earlier) = printed earlier ++ record_of n.request n.outcome

abbrev pub subject : Note → Given
subject n = record { request = n.request; answer = n.answer }

module _ (g : Guard) where
  -- The answer of a handler, from its audit record on.
  abbrev pub said : (q : Request) → Stage g q → List Given
  said q (reporting answer detail) = record { request = q; answer = answer } ∷ []
  said q (finished (returned answer)) = record { request = q; answer = answer } ∷ []
  said q _ = []

  unfoldable pub all_said : List (Thread g) → List Given
  all_said [] = []
  all_said (t ∷ ts) = said t.request t.stage ++ all_said ts

  all_said-append : (a b : List (Thread g)) → all_said (a ++ b) ≡ all_said a ++ all_said b
  unfolding all_said
  all_said-append [] b = refl
  all_said-append (t ∷ a) b =
      ap (λ x. said t.request t.stage ++ x) (all_said-append a b)
      ∙ sym (append_assoc (said t.request t.stage) (all_said a) (all_said b))

  -- There is one note for each answer, and nothing else was written since.
  pub record Trail (before : Str) (s : State g) (answers : List Given) : Type 0 where
    pub notes : List Note
    pub written : s.stdout ≡ before ++ printed notes
    pub each : Perm (map subject notes) answers

  -- A step writes nothing and leaves the answer as it was, or writes the record of its answer.
  data Tells (s : State g) (q : Request) (stage : Stage g q) (r : State g × Stage g q)
      : Type 0 where
    silent : r.0.stdout ≡ s.stdout → said q r.1 ≡ said q stage → Tells s q stage r
    tells :
        (n : Note)
        → r.0.stdout ≡ s.stdout ++ printed (n ∷ [])
        → said q stage ≡ []
        → said q r.1 ≡ subject n ∷ []
        → Tells s q stage r

  begin-said : (clock : ℕ) (q : Request) → said q (begin g clock q) ≡ []
  unfolding begin
  begin-said clock q = elim (Result-cases (validate (context q) (purpose q) (subject_required q))) [
    | inr (e, failed) ↦ rw (failed, begin) refl
    | inl (u, admitted) ↦ elim (Option-cases (context q)) [
      | inl absent ↦ rw (admitted, begin) (rw (absent, begin) refl)
      | inr (c, present) ↦ rw (admitted, begin) (rw (present, begin) refl)
    ]
  ]

  work-said :
      (q : Request) (tenant : Str) (held : g.provider.State) → said q (work g q tenant held).0 ≡ []
  unfolding work
  work-said (verifies m) tenant held = refl
  work-said (encrypts m) tenant held = ground arith
  work-said (decrypts m) tenant held = ground arith
  work-said (indexes m) tenant held = ground arith

  if-said :
      (q : Request) (b : Bool) (x y : Stage g q)
      → said q x ≡ []
      → said q y ≡ []
      → said q (if b then x else y) ≡ []
  if-said q true x y h k = h
  if-said q false x y h k = k

  audited-said :
      (q : Request) (answer : Result (Response q) Status) (detail : Str)
      → said q (audited g q answer detail) ≡ record { request = q; answer = answer } ∷ []
  unfolding audited
  audited-said q answer [] = refl
  audited-said q answer (c ∷ detail) = refl

  proceed-Tells :
      (clock : ℕ) (s : State g) (q : Request) (stage : Stage g q)
      → Truthful g stage
      → Tells s q stage (proceed g clock s q stage)
  unfolding proceed audit printed
  proceed-Tells clock s q arrived h = silent refl (begin-said clock q)
  proceed-Tells clock s q (timed now c) h =
      silent refl (if-said q _ (passed now c) (limited g q) refl refl)
  proceed-Tells clock s q (passed now c) h =
      silent refl (if-said q _ (granted c) (limited g q) refl refl)
  proceed-Tells clock s q (granted c) h = silent refl (work-said q c.tenant_id s.held)
  proceed-Tells clock s q (calling f) h = silent refl refl
  proceed-Tells clock s q (concluding x) h =
      tells (record { request = q; answer = x.answer; outcome = x.outcome; fits = h })
        (ap (λ line. s.stdout ++ line) (audit_line-record_of q x.outcome)) refl
        (audited-said q x.answer x.detail)
  proceed-Tells clock s q (reporting answer detail) h = silent refl refl
  proceed-Tells clock s q (finished o) h = silent refl refl

  Trail-after :
      (before : Str) (s : State g) (a : List (Thread g)) (t : Thread g) (b : List (Thread g))
      (r : State g × Stage g t.request)
      → Tells s t.request t.stage r
      → Trail before s (all_said (a ++ t ∷ b))
      → Trail before r.0 (all_said (a ++ record { request = t.request; stage = r.1 } ∷ b))
  unfolding all_said printed
  Trail-after before s a t b r (silent same kept) p =
      let t' : Thread g = record { request = t.request; stage = r.1 } in
      let answers : all_said (a ++ t ∷ b) ≡ all_said (a ++ t' ∷ b) =
        all_said-append a (t ∷ b)
        ∙ ap (λ x. all_said a ++ (x ++ all_said b)) (sym kept)
        ∙ sym (all_said-append a (t' ∷ b)) in
      record {
        notes = p.notes;
        written = same ∙ p.written;
        each = subst (Perm (map subject p.notes)) answers p.each;
      }
  Trail-after before s a t b r (tells n written none_ one) p =
      let t' : Thread g = record { request = t.request; stage = r.1 } in
      let old : all_said (a ++ t ∷ b) ≡ all_said a ++ all_said b =
        all_said-append a (t ∷ b) ∙ ap (λ x. all_said a ++ (x ++ all_said b)) none_ in
      let new : all_said a ++ (subject n ∷ all_said b) ≡ all_said (a ++ t' ∷ b) =
        ap (λ x. all_said a ++ (x ++ all_said b)) (sym one) ∙ sym (all_said-append a (t' ∷ b)) in
      record {
        notes = n ∷ p.notes;
        written =
            written
            ∙ ap (λ x. x ++ printed (n ∷ [])) p.written
            ∙ append_assoc before (printed p.notes) (printed (n ∷ []));
        each = subst (Perm _) new (
            Perm.trans (Perm.cons (subject n) (subst (Perm (map subject p.notes)) old p.each))
              (Perm.symm (perm_middle (all_said a) (all_said b))));
      }

  record Witnessed (before : Str) (s : System g) : Type 0 where
    truthful : All (λ t. Truthful g t.stage) s.threads
    trail : Trail before s.shared (all_said s.threads)

  Step-Witnessed :
      (before : Str) (s u : System g)
      → Schedule.Step (advance g) (left g) (IsNew g) s u
      → Witnessed before s
      → Witnessed before u
  unfolding all_said advance
  Step-Witnessed before s u (ticks d same) p =
      subst (Witnessed before) (sym same) (record { truthful = p.truthful; trail = p.trail })
  Step-Witnessed before s u (arrives t new same) p = subst (Witnessed before) (sym same) (record {
    truthful = (subst (λ stage. Truthful g {q = t.request} stage) (sym new) tt, p.truthful);
    trail =
        subst (λ stage. Trail before s.shared (said t.request stage ++ all_said s.threads))
          (sym new) p.trail;
  })
  Step-Witnessed before s u (moves m) p =
      let t = m.thread in
      let (h, put) =
        All-at m.before t m.after (subst (All (λ t. Truthful g t.stage)) m.found p.truthful) in
      subst (Witnessed before) (sym m.becomes) (record {
        truthful = put _ (proceed-Truthful g s.clock s.shared t.request t.stage h);
        trail =
            Trail-after before s.shared m.before t m.after _
              (proceed-Tells s.clock s.shared t.request t.stage h)
              (subst (λ ts. Trail before s.shared (all_said ts)) m.found p.trail);
      })

-- The audit trail is complete and true. However the steps of concurrent handlers interleave, stdout
-- has grown by whole audit records and nothing else, which stand one for one for the answers that
-- the handlers have given or are about to give. Each record is the JSON line of its request's
-- operation, tenant and request id with the answer's outcome: for a reply `ok`, of a verification
-- `verified` or the reason that it is rejected for; for an error `rejected` where the gate refused
-- it or a verification is incomplete, and otherwise, with the constant status of each,
-- `rate_limited`, `denied` or `backend_error`.
pub Reach-Trail :
    (g : Guard) (s : State g) (clock : ℕ) (u : System g)
    → Reach g (record { shared = s; clock = clock; threads = [] }) u
    → Trail g s.stdout u.shared (all_said g u.threads)
unfolding all_said printed
Reach-Trail g s clock u r =
    let p = Reach-keeps (advance g) (left g) (IsNew g) (Step-Witnessed g s.stdout) r (record {
      truthful = tt;
      trail = record { notes = []; written = sym (append-nil s.stdout); each = Perm.refl [] };
    }) in
    p.trail
