-- ===== src/Tests/Handlers.antt =====
-- Two concurrent requests at a running guard: a blind index, and a decryption without a context.
use ai_auth.Common.{
  ℕ, ◌+◌, ◌-◌, ◌*◌, ◌≤◌, ◌≡◌, ◌⊎◌, refl, List, [], ◌∷◌, none, ok, err, arith, length, All,
}
use ai_auth.Limits.{charge_global}
use ai_auth.Limits.Float.{nanos-IsExact, nano}
use ai_auth.Proto.{invalid_argument}
use ai_auth.Schedule
use ai_auth.Schedule.{total, ticks, arrives, moves, here, next}
use ai_auth.Service.Guard.{State, returned, audit, start}
use ai_auth.Service.Guarded.{Earned, Reach-Guarded}
use ai_auth.Service.Answers.{Answers}
use ai_auth.Service.Serve.{decrypts, indexes}
use ai_auth.Service.Threads.{
  Stage, arrived, timed, passed, concluding, finished, Ending, Thread, System, Reach, advance, left,
  IsNew,
}
use ai_auth.Service.Throttled.{replied_to, waits, replies-le_rate}
use ai_auth.Service.Witnessed.{Trail, all_said, Reach-Trail}
use ai_auth.Tests.Requests.{g, ask, caller, anonymous, first}
use ai_auth.Text.{Str, str}

abbrev index_at : Stage g (indexes ask) → Thread g
index_at stage = record { request = indexes ask; stage = stage }

abbrev open_at : Stage g (decrypts anonymous) → Thread g
open_at stage = record { request = decrypts anonymous; stage = stage }

abbrev both : ℕ → State g → Stage g (decrypts anonymous) → Stage g (indexes ask) → System g
both clock s x y = record { shared = s; clock = clock; threads = open_at x ∷ index_at y ∷ [] }

abbrev idle : System g
idle = record { shared = first; clock = 5; threads = [] }

abbrev one : System g
one = record idle { threads = index_at arrived ∷ [] }

abbrev rejection : Ending (decrypts anonymous)
rejection = record {
  answer = err (invalid_argument (str "request_context is required"));
  outcome = str "rejected";
  detail = [];
}

abbrev logged : State g
logged = audit g (str "decrypt_field") none (str "rejected") first

abbrev charged : State g
charged = record logged {
  limiter = (charge_global g.floats logged.limiter 5 (str "blind_index")).0;
}

-- The index is timed, the decryption is refused and audited, and then the index is charged.
times :
    Schedule.Moves
      (advance g)
      (left g)
      (IsNew g)
      (both 5 first arrived arrived)
      (both 5 first arrived (timed 5 caller))
unfolding advance ai_auth.Service.Threads.begin ai_auth.Context.validate str
    ai_auth.Proto.Purpose.from_i32 ai_auth.Proto.Purpose.Purpose-discrete
times = record {
  before = open_at arrived ∷ [];
  thread = index_at arrived;
  after = [];
  running = omega arith;
  found = refl;
  becomes = refl;
}

refuses :
    Schedule.Moves
      (advance g)
      (left g)
      (IsNew g)
      (both 5 first arrived (timed 5 caller))
      (both 5 first (concluding rejection) (timed 5 caller))
unfolding advance ai_auth.Service.Threads.begin ai_auth.Context.validate
refuses = record {
  before = [];
  thread = open_at arrived;
  after = index_at (timed 5 caller) ∷ [];
  running = omega arith;
  found = refl;
  becomes = refl;
}

logs :
    Schedule.Moves
      (advance g)
      (left g)
      (IsNew g)
      (both 8 first (concluding rejection) (timed 5 caller))
      (both 8 logged (finished (returned rejection.answer)) (timed 5 caller))
unfolding advance ai_auth.Service.Threads.audited
logs = record {
  before = [];
  thread = open_at (concluding rejection);
  after = index_at (timed 5 caller) ∷ [];
  running = omega arith;
  found = refl;
  becomes = refl;
}

charges :
    Schedule.Moves
      (advance g)
      (left g)
      (IsNew g)
      (both 8 logged (finished (returned rejection.answer)) (timed 5 caller))
      (both 8 charged (finished (returned rejection.answer)) (passed 5 caller))
unfolding advance charge_global ai_auth.Limits.take_token ai_auth.Limits.or_insert
    ai_auth.HashMap.lookup str ai_auth.Text.Str-discrete ai_auth.Common.ℕ_discrete start
    ai_auth.Limits.default_limiter ai_auth.Limits.new audit
charges = record {
  before = open_at (finished (returned rejection.answer)) ∷ [];
  thread = index_at (timed 5 caller);
  after = [];
  running = omega arith;
  found = refl;
  becomes = refl;
}

abbrev busy : System g
busy = both 8 charged (finished (returned rejection.answer)) (passed 5 caller)

reached : Reach g idle busy
reached =
    next
      (next
        (next
          (next
            (next
              (next (next here (arrives (index_at arrived) refl refl))
                (arrives (open_at arrived) refl refl))
              (moves times))
            (moves refuses))
          (ticks 3 refl))
        (moves logs))
      (moves charges)

replies-le_rate_example :
    total (replied_to g (str "blind_index")) busy.threads * nano
    ≤ 6000 * nano + (8 - 5 + waits g (str "blind_index") reached) * 1000
replies-le_rate_example = replies-le_rate g nanos-IsExact (str "blind_index") 7 5 busy reached

Reach-Trail_example : Trail g first.stdout busy.shared (all_said g busy.threads)
Reach-Trail_example = Reach-Trail g first 5 busy reached

Reach-Guarded_example : All (λ t. Answers g Earned t.stage) busy.threads
Reach-Guarded_example = Reach-Guarded g first 5 busy reached
