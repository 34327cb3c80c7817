-- ===== src/Tests/Threads.antt =====
-- Concurrent calls at a limiter, and the limiter's contract, on concrete inputs.
use ai_auth.Common.{ℕ_discrete, ◌+◌, ◌-◌, ◌*◌, ◌≤◌, ◌≡◌, refl, true, List, [], ◌∷◌, arith, All}
use ai_auth.Limits.{new}
use ai_auth.Limits.Bound.{IsWellFormed, new-IsWellFormed}
use ai_auth.Limits.Burst.{burst_granted}
use ai_auth.Limits.Contract.{grants, opened}
use ai_auth.Limits.Waits.{waits}
use ai_auth.Limits.Finishes
use ai_auth.Limits.Finishes.{Moved, alone, Returned, Moved-finishes, alone-allow}
use ai_auth.Limits.Float.{nanos, nanos-IsExact, nano}
use ai_auth.Limits.Interleaved.{Reach-IsWellFormed}
use ai_auth.Limits.Refinement.{contract, new_refines, Unforced-short}
use ai_auth.Limits.Refines.{Unforced}
use ai_auth.Limits.Share.{granted_to, granted_to-le_share}
use ai_auth.Limits.Threads.{Thread, waiting, timed, System, Reach, advance}
use ai_auth.Schedule.{ticks, arrives, moves, here, next}
use ai_auth.Schedule.Progress.{none_, one_more}
use ai_auth.Limits.Trace.{Call, answers, IsOrdered}
use ai_auth.Tests.Fixtures.{in_order, in_order-perm}
use ai_auth.Text.{Str, str, Str-discrete}

abbrev o : Str
o = str "o"

abbrev a : Str
a = str "a"

abbrev idle : System nanos in_order
idle = record { shared = new nanos 2 (nanos.from 0); clock = 5; threads = [] }

abbrev asked : System nanos in_order
asked = record idle { threads = waiting a o ∷ [] }

-- The one call of a system takes a step.
abbrev after_step : System nanos in_order → Thread → System nanos in_order
after_step s t = record {
  shared = (advance nanos in_order s.clock s.shared t).0;
  clock = s.clock;
  threads = (advance nanos in_order s.clock s.shared t).1 ∷ [];
}

abbrev read : System nanos in_order
read = after_step asked (waiting a o)

abbrev charged : System nanos in_order
charged = after_step read (timed 5 a o)

reads : Finishes.Moves nanos in_order asked read
reads = record {
  before = [];
  thread = waiting a o;
  after = [];
  running = omega arith;
  found = refl;
  becomes = refl;
}

charges : Finishes.Moves nanos in_order read charged
unfolding advance
charges = record {
  before = [];
  thread = timed 5 a o;
  after = [];
  running = omega arith;
  found = refl;
  becomes = refl;
}

reached : Reach nanos in_order idle charged
reached = next (next (next here (arrives (waiting a o) tt refl)) (moves reads)) (moves charges)

Reach-IsWellFormed_example : IsWellFormed charged.shared
Reach-IsWellFormed_example =
    Reach-IsWellFormed nanos in_order in_order-perm idle charged reached
      (new-IsWellFormed nanos 2 (nanos.from 0))

abbrev refilled_idle : System nanos in_order
refilled_idle = record idle { shared = new nanos 2 (nanos.from 1) }

abbrev asked_again : System nanos in_order
asked_again = record refilled_idle { threads = waiting a o ∷ [] }

abbrev read_early : System nanos in_order
read_early = after_step asked_again (waiting a o)

-- Three instants pass between the reading and the charge.
abbrev kept_waiting : System nanos in_order
kept_waiting = record read_early { clock = 8 }

abbrev charged_late : System nanos in_order
charged_late = after_step kept_waiting (timed 5 a o)

abbrev reads_early : Finishes.Moves nanos in_order asked_again read_early
unfolding advance
reads_early = record {
  before = [];
  thread = waiting a o;
  after = [];
  running = omega arith;
  found = refl;
  becomes = refl;
}

abbrev charges_late : Finishes.Moves nanos in_order kept_waiting charged_late
unfolding advance
charges_late = record {
  before = [];
  thread = timed 5 a o;
  after = [];
  running = omega arith;
  found = refl;
  becomes = refl;
}

abbrev reached_read : Reach nanos in_order refilled_idle read_early
reached_read = next (next here (arrives (waiting a o) tt refl)) (moves reads_early)

abbrev reached_late : Reach nanos in_order refilled_idle charged_late
reached_late = next (next reached_read (ticks 3 refl)) (moves charges_late)

waits_late : waits in_order o reached_late ≡ 3
unfolding advance Str-discrete str ℕ_discrete
waits_late = refl

moved : Moved nanos in_order asked charged 2
moved = one_more (one_more none_ reads) charges

abbrev calls : List Call
calls =
    record { now = 5; tenant_id = a; op = o } ∷ record { now = 5; tenant_id = str "b"; op = o } ∷ []

ordered : IsOrdered 3 9 calls
ordered = omega arith

unforced :
    Unforced nanos-IsExact in_order in_order-perm (contract 2 1) (new nanos 2 (nanos.from 1)) calls
unfolding new
unforced =
    Unforced-short nanos-IsExact in_order in_order-perm (contract 2 1) (new nanos 2 (nanos.from 1))
      calls (omega arith)

new_refines_example :
    answers nanos in_order (new nanos 2 (nanos.from 1)) calls
    ≡ grants (contract 2 1) (opened (contract 2 1) 3) calls
new_refines_example =
    new_refines nanos-IsExact in_order in_order-perm 2 1 3 9 calls ordered unforced

granted_to-le_share_example :
    granted_to (a, o) calls (answers nanos in_order (new nanos 2 (nanos.from 1)) calls) * nano
    ≤ 2 * nano + (9 - 3) * 1
granted_to-le_share_example =
    granted_to-le_share nanos-IsExact in_order in_order-perm 2 1 3 9 (a, o) calls ordered unforced

burst_granted_example :
    All (λ b. b ≡ true) (answers nanos in_order (new nanos 2 (nanos.from 1)) calls)
burst_granted_example = burst_granted nanos-IsExact in_order in_order-perm 2 1 calls (omega arith)
