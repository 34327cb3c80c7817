-- ===== src/Schedule.antt =====
-- Concurrent calls in general: any number of calls, each of them a sequence of atomic steps on a
-- state that they share, between two of which any other call may take steps and the clock may go on.
-- crypto/src/limits.rs and crypto/src/service.rs are two instances.
pub mod Account
pub mod Progress
use ai_auth.Common.{ℕ, ◌+◌, ◌≤◌, ◌≡◌, List, [], ◌∷◌, ◌++◌, arith, All}

module _ {T : Type 0} where
  -- A number for each of the calls, added up.
  unfoldable pub total : (T → ℕ) → List T → ℕ
  total weight [] = 0
  total weight (t ∷ ts) = weight t + total weight ts

  pub total-append :
      (weight : T → ℕ) (a : List T) (t : T) (b : List T)
      → total weight (a ++ t ∷ b) ≡ total weight a + total weight b + weight t
  unfolding total
  total-append weight [] t b = omega arith
  total-append weight (x ∷ a) t b = omega (arith, total-append weight a t b)

  pub All-later : {P Q : T → Type 0} → ((t : T) → P t → Q t) → (ts : List T) → All P ts → All Q ts
  All-later later [] a = tt
  All-later later (t ∷ ts) (p, a) = (later t p, All-later later ts a)

  -- One call among the others, and the others with another in its place.
  pub All-at :
      {P : T → Type 0} (a : List T) (t : T) (b : List T)
      → All P (a ++ t ∷ b)
      → P t × ((t' : T) → P t' → All P (a ++ t' ∷ b))
  All-at [] t b (h, rest) = (h, λ t' h'. (h', rest))
  All-at (x ∷ a) t b (h, rest) = let (k, put) = All-at a t b rest in (k, λ t' h'. (h, put t' h'))

-- A step of a call at a reading of the clock, the steps that a call has left, and how calls arrive.
module _ {S T : Type 0} (advance : ℕ → S → T → S × T) (left : T → ℕ) (IsNew : T → Type 0) where
  pub record System : Type 0 where
    pub shared : S
    pub clock : ℕ
    pub threads : List T

  -- One of the calls takes its next step.
  pub record Moves (s s' : System) : Type 0 where
    pub before : List T
    pub thread : T
    pub after : List T
    pub running : 1 ≤ left thread
    pub found : s.threads ≡ before ++ thread ∷ after
    pub becomes : s' ≡ record {
      shared = (advance s.clock s.shared thread).0;
      clock = s.clock;
      threads = before ++ (advance s.clock s.shared thread).1 ∷ after;
    }

  pub data Step (s s' : System) : Type 0 where
    ticks : (d : ℕ) → s' ≡ record s { clock = s.clock + d } → Step s s'
    arrives : (t : T) → IsNew t → s' ≡ record s { threads = t ∷ s.threads } → Step s s'
    moves : Moves s s' → Step s s'

  pub data Reach (s : System) : System → Type 0 where
    here : Reach s s
    next : {t u : System} → Reach s t → Step t u → Reach s u

  -- A property that each step keeps holds of all that is reached.
  pub Reach-keeps :
      {P : System → Type 0} {s u : System}
      → ((t u : System) → Step t u → P t → P u)
      → Reach s u
      → P s
      → P u
  Reach-keeps keeps here p = p
  Reach-keeps keeps (next {t} {u} r step) p = keeps t u step (Reach-keeps keeps r p)

  -- What the moves of a run add up to.
  module _ (wait : ℕ → T → ℕ) where
    abbrev pub step_wait : {s u : System} → Step s u → ℕ
    step_wait (ticks d same) = 0
    step_wait (arrives t new same) = 0
    step_wait {s} (moves m) = wait s.clock m.thread

    abbrev pub waits : {s u : System} → Reach s u → ℕ
    waits here = 0
    waits (next before step) = waits before + step_wait step
