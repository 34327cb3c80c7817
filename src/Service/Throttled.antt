-- ===== src/Service/Throttled.antt =====
-- The ceiling of an operation, under concurrent requests at a Guard.
use ai_auth.Common.{
  ℕ, ◌+◌, ◌-◌, ◌*◌, ◌≤◌, ◌≡◌, inl, inr, refl, sym, subst, Bool, true, false, [], List, ◌∷◌, Result,
  ok, err, arith, ite, if◌then◌else◌, Result-cases, Option-cases,
}
use ai_auth.Context.{validate}
use ai_auth.Limits.{default_limiter, charge_global, charge_tenant}
use ai_auth.Limits.Accrued.{wait, IsTimely, IsTimely-mono, ticks-Accrued, advance-Accrued}
use ai_auth.Limits.Float.{IsExact, nano}
use ai_auth.Limits.Threads as Calls
use ai_auth.Limits.Through.{through}
use ai_auth.Limits.Waits.{Opened, new-Opened, Opened-le}
use ai_auth.Proto.{Status, RequestContext}
use ai_auth.Schedule
use ai_auth.Schedule.{total}
use ai_auth.Schedule.Account
use ai_auth.Schedule.Account.{Account}
use ai_auth.Service.Guard.{Guard, State, Outcome, returned, panicked, audit, start}
use ai_auth.Service.Serve.{
  Request, verifies, encrypts, decrypts, indexes, Response, operation, context, purpose,
  subject_required,
}
use ai_auth.Service.Threads.{
  Stage, arrived, timed, passed, granted, calling, concluding, reporting, finished, Thread, System,
  Reach, begin, limited, work, audited, proceed, advance, left, IsNew,
}
use ai_auth.Text.{Str, Str-discrete}

abbrev pub is_ok : {A B : Type 0} → Result A B → Bool
is_ok (ok a) = true
is_ok (err e) = false

abbrev pub is_reply : {A : Type 0} → Outcome A → Bool
is_reply (returned r) = is_ok r
is_reply panicked = false

ite_none : {P : Type 0} (d : Dec P) → ◌≡◌ {A = ℕ} (ite d 0 0) 0
ite_none (yes p) = refl
ite_none (no p) = refl

module _ (g : Guard) where
  -- A handler as a call of the limiter that stands where the handler does: one that has not read
  -- the clock, one on its way, one that was granted and may end with a reply, or one that has none.
  abbrev pub call_at : (q : Request) → Stage g q → Calls.Thread
  call_at q arrived = Calls.waiting [] (operation q)
  call_at q (timed now c) = Calls.timed now c.tenant_id (operation q)
  call_at q (passed now c) = Calls.passed now c.tenant_id (operation q)
  call_at q (granted c) = Calls.answered (operation q) true
  call_at q (calling f) = Calls.answered (operation q) true
  call_at q (concluding x) = Calls.answered (operation q) (is_ok x.answer)
  call_at q (reporting answer detail) = Calls.answered (operation q) (is_ok answer)
  call_at q (finished o) = Calls.answered (operation q) (is_reply o)

  abbrev pub replies_at : {q : Request} → Stage g q → ℕ
  replies_at (finished o) = if is_reply o then 1 else 0
  replies_at _ = 0

  -- A handler that has left the limiter behind.
  abbrev pub Settled : {q : Request} → Stage g q → Type 0
  Settled arrived = ⊥
  Settled (timed now c) = ⊥
  Settled (passed now c) = ⊥
  Settled _ = Unit

  answered-le :
      (op name : Str) (b : Bool)
      → through op (Calls.answered name b) ≤ through op (Calls.answered name true)
  answered-le op name true = omega arith
  answered-le op name false = omega arith

  Settled-through :
      (op : Str) (clock : ℕ) (q : Request) (stage : Stage g q)
      → Settled stage
      → IsTimely clock (call_at q stage)
        × (through op (call_at q stage) ≤ through op (Calls.answered (operation q) true))
  Settled-through op clock q arrived h = elim h [ ]
  Settled-through op clock q (timed now c) h = elim h [ ]
  Settled-through op clock q (passed now c) h = elim h [ ]
  Settled-through op clock q (granted c) h = (tt, omega arith)
  Settled-through op clock q (calling f) h = (tt, omega arith)
  Settled-through op clock q (concluding x) h = (tt, answered-le op (operation q) (is_ok x.answer))
  Settled-through op clock q (reporting answer detail) h =
      (tt, answered-le op (operation q) (is_ok answer))
  Settled-through op clock q (finished o) h = (tt, answered-le op (operation q) (is_reply o))

  work-Settled :
      (q : Request) (tenant : Str) (held : g.provider.State) → Settled (work g q tenant held).0
  unfolding work
  work-Settled (verifies m) tenant held = tt
  work-Settled (encrypts m) tenant held = ground arith
  work-Settled (decrypts m) tenant held = ground arith
  work-Settled (indexes m) tenant held = ground arith

  module _ (e : IsExact g.floats) (op : Str) (start_clock : ℕ) where
    -- The account of the Guard's limiter: 120 and 20 a second for a pair.
    abbrev Budget : ℕ → State g → ℕ → ℕ → Type 0
    Budget clock s = Opened e g.iter op 120 20 start_clock clock s.limiter

    -- What a step has to keep, for a handler that goes on at a stage.
    abbrev Kept : ℕ → State g → (q : Request) → Stage g q → ℕ → ℕ → Type 0
    Kept clock s q stage m w =
        IsTimely clock (call_at q stage) × Budget clock s (through op (call_at q stage) + m) w

    Settled-Kept :
        (clock : ℕ) (s : State g) (q : Request) (stage : Stage g q) (m w : ℕ)
        → Settled stage
        → Budget clock s (through op (Calls.answered (operation q) true) + m) w
        → Kept clock s q stage m (w + 0)
    Settled-Kept clock s q stage m w h p =
        let (timely, less) = Settled-through op clock q stage h in
        (timely, record { serves = p.serves; within = omega (arith, p.within, less) })

    begin_call :
        (clock : ℕ) (q : Request)
        → IsTimely clock (call_at q (begin g clock q))
          × (through op (call_at q (begin g clock q)) ≡ 0)
    unfolding begin
    begin_call clock q =
        elim (Result-cases (validate (context q) (purpose q) (subject_required q))) [
          | inr (e, failed) ↦ rw (failed, begin) (tt, refl)
          | inl (u, admitted) ↦ elim (Option-cases (context q)) [
            | inl absent ↦ rw (admitted, begin) (rw (absent, begin) (tt, refl))
            | inr (c, present) ↦ rw (admitted, begin) (rw (present, begin) (omega arith, refl))
          ]
        ]

    ceiling_call :
        (q : Request) (now : ℕ) (c : RequestContext) (b : Bool)
        → Calls.after_ceiling g.floats g.iter now c.tenant_id (operation q) b
          ≡ call_at q (if b then passed now c else limited g q)
    unfolding Calls.after_ceiling
    ceiling_call q now c true = refl
    ceiling_call q now c false = refl

    share_call :
        (q : Request) (c : RequestContext) (b : Bool)
        → Calls.answered (operation q) b ≡ call_at q (if b then granted c else limited g q)
    share_call q c true = refl
    share_call q c false = refl

    audited_call :
        (q : Request) (answer : Result (Response q) Status) (detail : Str)
        → Settled (audited g q answer detail)
          × (through op (call_at q (audited g q answer detail))
              ≡ through op (Calls.answered (operation q) (is_ok answer)))
    unfolding audited
    audited_call q answer [] = (tt, refl)
    audited_call q answer (c ∷ detail) = (tt, refl)

    -- A step of a handler within the limiter is a step of its call, and any other leaves the limiter.
    proceed-Kept :
        (clock : ℕ) (s : State g) (q : Request) (stage : Stage g q) (m w : ℕ)
        → IsTimely clock (call_at q stage)
        → Budget clock s (through op (call_at q stage) + m) w
        → let (s', stage') = proceed g clock s q stage in
          Kept clock s' q stage' m (w + wait op clock (call_at q stage))
    unfolding proceed Calls.advance audit
    proceed-Kept clock s q arrived m w h p =
        let (timely, free) = begin_call clock q in
        (timely, record { serves = p.serves; within = omega (arith, p.within, free) })
    proceed-Kept clock s q (timed now c) m w h p =
        let (l, within) = charge_global g.floats s.limiter now (operation q) in
        subst
          (λ t.
            IsTimely clock t
            × Opened e g.iter op 120 20 start_clock clock l (through op t + m)
                (w + wait op clock (Calls.timed now c.tenant_id (operation q))))
          (ceiling_call q now c within)
          (advance-Accrued e g.iter op (20 * 50) start_clock (50 * 120 * nano) clock s.limiter
            (Calls.timed now c.tenant_id (operation q)) m w h p)
    proceed-Kept clock s q (passed now c) m w h p =
        let (l, allowed) = charge_tenant g.floats g.iter s.limiter now c.tenant_id (operation q) in
        subst
          (λ t.
            IsTimely clock t
            × Opened e g.iter op 120 20 start_clock clock l (through op t + m) (w + 0))
          (share_call q c allowed)
          (advance-Accrued e g.iter op (20 * 50) start_clock (50 * 120 * nano) clock s.limiter
            (Calls.passed now c.tenant_id (operation q)) m w h p)
    proceed-Kept clock s q (granted c) m w h p =
        Settled-Kept clock s q (work g q c.tenant_id s.held).0 m w
          (work-Settled q c.tenant_id s.held) p
    proceed-Kept clock s q (calling f) m w h p =
        Settled-Kept clock s q (concluding (f s.held).0) m w tt p
    proceed-Kept clock s q (concluding x) m w h p =
        let (settled, same) = audited_call q x.answer x.detail in
        let (timely, _) = Settled-through op clock q (audited g q x.answer x.detail) settled in
        (timely, record { serves = p.serves; within = omega (arith, p.within, same) })
    proceed-Kept clock s q (reporting answer detail) m w h p =
        (tt, record { serves = p.serves; within = omega (arith, p.within) })
    proceed-Kept clock s q (finished o) m w h p =
        (tt, record { serves = p.serves; within = omega (arith, p.within) })

    fresh :
        (clock : ℕ) (t : Thread g)
        → IsNew g t
        → IsTimely clock (call_at t.request t.stage) × (through op (call_at t.request t.stage) ≡ 0)
    fresh clock t new =
        subst
          (λ stage.
            IsTimely clock (call_at t.request stage) × (through op (call_at t.request stage) ≡ 0))
          (sym new) (tt, refl)

    step-Kept :
        (clock : ℕ) (s : State g) (t : Thread g) (m w : ℕ)
        → IsTimely clock (call_at t.request t.stage)
        → Budget clock s (through op (call_at t.request t.stage) + m) w
        → let (s', t') = advance g clock s t in
          Kept clock s' t'.request t'.stage m (w + wait op clock (call_at t.request t.stage))
    unfolding advance
    step-Kept clock s t m w h p = proceed-Kept clock s t.request t.stage m w h p

    abbrev account : Account (advance g) (IsNew g)
    account = record {
      Q = λ clock t. IsTimely clock (call_at t.request t.stage);
      weight = λ t. through op (call_at t.request t.stage);
      wait = λ clock t. wait op clock (call_at t.request t.stage);
      A = Budget;
      later =
          λ clock d t. IsTimely-mono clock (clock + d) (call_at t.request t.stage) (omega arith);
      fresh = fresh;
      tick = λ clock d s.
          ticks-Accrued e g.iter op (20 * 50) start_clock (50 * 120 * nano) clock d s.limiter;
      step = step-Kept;
    }

  -- How many requests of an operation have been answered with a reply.
  abbrev pub replied_to : Str → Thread g → ℕ
  replied_to op t = ite (Str-discrete (operation t.request) op) (replies_at t.stage) 0

  answered-through :
      (op name : Str) (b : Bool)
      → ite (Str-discrete name op) (if b then 1 else 0) 0 ≤ through op (Calls.answered name b)
  answered-through op name true = omega arith
  answered-through op name false = omega (arith, ite_none (Str-discrete name op))

  replied-through :
      (op : Str) (q : Request) (stage : Stage g q)
      → ite (Str-discrete (operation q) op) (replies_at stage) 0 ≤ through op (call_at q stage)
  replied-through op q (finished o) = answered-through op (operation q) (is_reply o)
  replied-through op q arrived = omega (arith, ite_none (Str-discrete (operation q) op))
  replied-through op q (timed now c) = omega (arith, ite_none (Str-discrete (operation q) op))
  replied-through op q (passed now c) = omega (arith, ite_none (Str-discrete (operation q) op))
  replied-through op q (granted c) = omega (arith, ite_none (Str-discrete (operation q) op))
  replied-through op q (calling f) = omega (arith, ite_none (Str-discrete (operation q) op))
  replied-through op q (concluding x) = omega (arith, ite_none (Str-discrete (operation q) op))
  replied-through op q (reporting r d) = omega (arith, ite_none (Str-discrete (operation q) op))

  total-replied :
      (op : Str) (ts : List (Thread g))
      → total (replied_to op) ts ≤ total (λ t. through op (call_at t.request t.stage)) ts
  unfolding total
  total-replied op [] = omega arith
  total-replied op (t ∷ ts) =
      omega (arith, replied-through op t.request t.stage, total-replied op ts)

  -- The time that the handlers of an operation spend between reading the clock and taking the lock
  -- of the ceilings, in all.
  abbrev pub waits : Str → {s u : System g} → Reach g s u → ℕ
  waits op =
      Schedule.waits (advance g) (left g) (IsNew g)
        λ clock t. wait op clock (call_at t.request t.stage)

-- The Guard's ceilings bind concurrent requests. Under exact arithmetic, whatever requests arrive at
-- a Guard that has just started and however the steps of their handlers interleave, those of one
-- operation have been answered with at most 6000 replies, plus 1000 for each second that passed,
-- and the same again for the time that its handlers spent between reading the clock and taking the
-- lock of the ceilings.
pub replies-le_rate :
    (g : Guard) (e : IsExact g.floats) (op : Str) (held : g.provider.State) (clock : ℕ)
    (u : System g)
    (reach : Reach g (record { shared = start g held; clock = clock; threads = [] }) u)
    → total (replied_to g op) u.threads * nano
      ≤ 6000 * nano + (u.clock - clock + waits g op reach) * 1000
unfolding start default_limiter total
replies-le_rate g e op held clock u reach =
    let a = account g e op clock in
    let opened : Account.Holds (advance g) (left g) (IsNew g) a
        (record { shared = start g held; clock = clock; threads = [] }) 0 =
      record { known = tt; account = new-Opened e g.iter op 120 20 clock } in
    let p = Account.Reach-Holds (advance g) (left g) (IsNew g) a _ u reach opened in
    omega (
      arith,
      total-replied g op u.threads,
      Opened-le e g.iter op 120 20 clock u.clock u.shared.limiter _ (waits g op reach) p.account,
    )
