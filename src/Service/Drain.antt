-- ===== src/Service/Drain.antt =====
-- What a caller can draw from the Guard over time, whatever it asks and for whatever tenants.
use ai_auth.Common.{
  ℕ, ◌+◌, ◌-◌, ◌*◌, ◌≤◌, ◌≡◌, refl, sym, ap, subst, ◌∙◌, List, [], ◌∷◌, ok, err, arith, ite,
  if◌then◌else◌,
}
use ai_auth.Limits.{RateLimiter, default_limiter}
use ai_auth.Limits.Ceiling.{granted-le_ceiling}
use ai_auth.Limits.Float.{IsExact, nano}
use ai_auth.Limits.Trace.{Call, step, granted, IsOrdered}
use ai_auth.Proto.{RequestContext}
use ai_auth.Service.Begins.{Begins, refused, limited, admitted, charged}
use ai_auth.Service.Budget.{body-limiter}
use ai_auth.Service.Gate.{body, serve-Begins}
use ai_auth.Service.Guard.{Guard, State, Outcome, returned, panicked, audit, start}
use ai_auth.Service.Serve.{Request, Response, operation, purpose, subject_required, context, serve}
use ai_auth.Text.{Str, Str-discrete}

-- A request and the reading of the clock at which it is served.
pub record Incoming : Type 0 where
  pub now : ℕ
  pub request : Request

-- The clock's readings do not fall, from `first` on, and stay at or before `last`.
abbrev pub InOrder : ℕ → ℕ → List Incoming → Type 0
InOrder first last [] = first ≤ last
InOrder first last (i ∷ rest) = (first ≤ i.now) × InOrder i.now last rest

-- Whether an answer is a reply.
abbrev pub replied : {A : Type 0} → Outcome A → ℕ
replied (returned (ok a)) = 1
replied (returned (err e)) = 0
replied panicked = 0

IsOrdered-earlier :
    (first now last : ℕ) (calls : List Call)
    → first ≤ now
    → IsOrdered now last calls
    → IsOrdered first last calls
IsOrdered-earlier first now last [] h o = omega arith
IsOrdered-earlier first now last (c ∷ cs) h (later, o) = (omega arith, o)

ite_mono : {P : Type 0} (d : Dec P) {m n : ℕ} → m ≤ n → ite d m 0 ≤ ite d n 0
ite_mono (yes p) h = h
ite_mono (no p) h = omega arith

module _ (g : Guard) (op : Str) where
  -- How many requests of an operation are answered with a reply.
  unfoldable pub replies : List Incoming → State g → ℕ
  replies [] s = 0
  replies (i ∷ rest) s =
      let (answer, s') = serve g i.now i.request s in
      ite (Str-discrete (operation i.request) op) (replied answer) 0 + replies rest s'

  -- What a request does to the limiter, and the most that it can be answered: nothing and no
  -- reply, or one call and a reply only if that is granted.
  data Draws (now : ℕ) (q : Request) (s : State g) (r : Outcome (Response q) × State g)
      : Type 0 where
    free : r.1.limiter ≡ s.limiter → replied r.0 ≡ 0 → Draws now q s r
    paid :
        (c : Call)
        → c.now ≡ now
        → c.op ≡ operation q
        → r.1.limiter ≡ (step g.floats g.iter s.limiter c).0
        → replied r.0 ≤ (if (step g.floats g.iter s.limiter c).1 then 1 else 0)
        → Draws now q s r

  replied-le : {A : Type 0} (o : Outcome A) → replied o ≤ 1
  replied-le (returned (ok a)) = omega arith
  replied-le (returned (err e)) = omega arith
  replied-le panicked = omega arith

  call_of : ℕ → Request → RequestContext → Call
  call_of now q c = record { now = now; tenant_id = c.tenant_id; op = operation q }

  gated-Draws :
      (now : ℕ) (q : Request) (s : State g) (r : Outcome (Response q) × State g)
      → Begins g now (operation q) (purpose q) (subject_required q) (context q) (body g q) s r
      → Draws now q s r
  unfolding audit step call_of
  gated-Draws now q s r (refused e n _ same) =
      free (ap (λ x. x.1.limiter) same) (ap (λ x. replied x.0) same)
  gated-Draws now q s r (limited c p a over same) =
      paid (call_of now q c) refl refl (ap (λ x. x.1.limiter) same)
        (omega (arith, ap (λ x. replied x.0) same))
  gated-Draws now q s r (admitted c p a within same) =
      paid (call_of now q c) refl refl
        (ap (λ x. x.1.limiter) same
          ∙ body-limiter g q c.tenant_id (charged g now (operation q) c s))
        (rw within (replied-le r.0))

  -- A sequence of calls of the limiter that grants an operation as often as the requests are
  -- answered with replies, at least.
  record Backed (first last : ℕ) (rest : List Incoming) (s : State g) (l : RateLimiter g.floats)
      : Type 0 where
    calls : List Call
    ordered : IsOrdered first last calls
    enough : replies rest s ≤ granted g.floats g.iter op l calls

  granted-cons :
      (c : Call) (cs : List Call) (l : RateLimiter g.floats)
      → granted g.floats g.iter op l (c ∷ cs)
        ≡ ite (Str-discrete c.op op) (if (step g.floats g.iter l c).1 then 1 else 0) 0
          + granted g.floats g.iter op (step g.floats g.iter l c).0 cs
  unfolding granted
  granted-cons c cs l = refl

  Backed-step :
      (first last : ℕ) (i : Incoming) (rest : List Incoming) (s : State g)
      (r : Outcome (Response i.request) × State g)
      → serve g i.now i.request s ≡ r
      → first ≤ i.now
      → Draws i.now i.request s r
      → Backed i.now last rest r.1 r.1.limiter
      → Backed first last (i ∷ rest) s s.limiter
  unfolding replies
  Backed-step first last i rest s r same h (free kept none_) b = record {
    calls = b.calls;
    ordered = IsOrdered-earlier first i.now last b.calls h b.ordered;
    enough =
        rw same
          (ground (arith, b.enough, ap (λ l. granted g.floats g.iter op l b.calls) kept, none_));
  }
  Backed-step first last i rest s r same h (paid c at_ of moved one) b =
      let grants : ℕ = if (step g.floats g.iter s.limiter c).1 then 1 else 0 in
      let more =
        subst (λ x. ite (Str-discrete x op) (replied r.0) 0 ≤ ite (Str-discrete c.op op) grants 0)
          of (ite_mono (Str-discrete c.op op) one) in
      let after = ap (λ l. granted g.floats g.iter op l b.calls) moved in
      let l' = (step g.floats g.iter s.limiter c).0 in
      record {
        calls = c ∷ b.calls;
        ordered = (omega (arith, at_), subst (λ t. IsOrdered t last b.calls) (sym at_) b.ordered);
        enough = rw (same, granted-cons c b.calls s.limiter) (omega (arith, more, b.enough, after));
      }

  replies-Backed :
      (first last : ℕ) (requests : List Incoming) (s : State g)
      → InOrder first last requests
      → Backed first last requests s s.limiter
  unfolding replies
  replies-Backed first last [] s o = record { calls = []; ordered = o; enough = omega arith }
  replies-Backed first last (i ∷ rest) s (h, o) =
      let r = serve g i.now i.request s in
      Backed-step first last i rest s r refl h
        (gated-Draws i.now i.request s r (serve-Begins g i.now i.request s))
        (replies-Backed i.now last rest r.1 o)

-- A caller cannot drain the Guard. Under exact arithmetic, in any history of requests to a Guard
-- that has just started, whose clock does not run backwards, whatever the requests are, whatever
-- tenants they name and whatever the order in which the limiter's map is iterated, the requests of
-- one operation are answered with at most 6000 replies, plus 1000 for each second that passes.
pub replies-le_budget :
    (g : Guard) (e : IsExact g.floats) (op : Str) (held : g.provider.State) (first last : ℕ)
    (requests : List Incoming)
    → InOrder first last requests
    → replies g op requests (start g held) * nano ≤ 6000 * nano + (last - first) * 1000
unfolding start default_limiter
replies-le_budget g e op held first last requests o =
    let b = replies-Backed g op first last requests (start g held) o in
    omega (arith, b.enough, granted-le_ceiling e g.iter op 120 20 first last b.calls b.ordered)
