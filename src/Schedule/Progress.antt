-- ===== src/Schedule/Progress.antt =====
-- Concurrent calls finish where each has a bounded number of steps and none waits for another.
use ai_auth.Common.{
  ℕ, zero, suc, ◌+◌, ◌*◌, ◌≤◌, ◌≡◌, ◌⊎◌, inl, inr, refl, ap, sym, List, [], ◌∷◌, ◌++◌, arith,
  length, All,
}
use ai_auth.Schedule.{total, total-append, System, Moves, Reach, next, moves}

module _ {S T : Type 0} (advance : ℕ → S → T → S × T) (left : T → ℕ) (IsNew : T → Type 0) where
  -- `n` steps of the calls that are there.
  pub data Moved (s : System advance left IsNew) : System advance left IsNew → ℕ → Type 0 where
    none_ : Moved s s 0
    one_more :
        {t u : System advance left IsNew} {n : ℕ}
        → Moved s t n
        → Moves advance left IsNew t u
        → Moved s u (1 + n)

  abbrev pub Returned : T → Type 0
  Returned t = left t ≡ 0

  -- A call that has not returned, among the others.
  record Running (ts : List T) : Type 0 where
    before : List T
    thread : T
    after : List T
    running : 1 ≤ left thread
    found : ts ≡ before ++ thread ∷ after

  number_cases : (n : ℕ) → (1 ≤ n) ⊎ (n ≡ 0)
  number_cases zero = inr refl
  number_cases (suc n) = inl (omega arith)

  Running-cons : (t : T) (ts : List T) → Running ts → Running (t ∷ ts)
  Running-cons t ts r = record {
    before = t ∷ r.before;
    thread = r.thread;
    after = r.after;
    running = r.running;
    found = ap (λ x. t ∷ x) r.found;
  }

  Running-cases : (ts : List T) → Running ts ⊎ All Returned ts
  Running-cases [] = inr tt
  Running-cases (t ∷ ts) = elim (number_cases (left t)) [
    | inl h ↦ inl (record { before = []; thread = t; after = ts; running = h; found = refl })
    | inr done ↦ elim (Running-cases ts) [
      | inl r ↦ inl (Running-cons t ts r)
      | inr all_ ↦ inr (done, all_)
    ]
  ]

  pub Moves-cases :
      (s : System advance left IsNew)
      → ((u : System advance left IsNew) × Moves advance left IsNew s u) ⊎ All Returned s.threads
  Moves-cases s = elim (Running-cases s.threads) [
    | inl r ↦ inl (
      _,
      record {
        before = r.before;
        thread = r.thread;
        after = r.after;
        running = r.running;
        found = r.found;
        becomes = refl;
      },
    )
    | inr all_ ↦ inr all_
  ]

  module _
      (falls : (clock : ℕ) (s : S) (t : T)
        → 1 ≤ left t
        → 1 + left (advance clock s t).1 ≤ left t) where
    total-Moves :
        (s u : System advance left IsNew)
        → Moves advance left IsNew s u
        → 1 + total left u.threads ≤ total left s.threads
    total-Moves s u m =
        let t' = (advance s.clock s.shared m.thread).1 in
        omega (
          arith,
          ap (total left) m.found,
          ap (λ x. total left x.threads) m.becomes,
          total-append left m.before m.thread m.after,
          total-append left m.before t' m.after,
          falls s.clock s.shared m.thread m.running,
        )

    pub Moved-le :
        (s u : System advance left IsNew) (n : ℕ)
        → Moved s u n
        → n + total left u.threads ≤ total left s.threads
    Moved-le s u _ none_ = omega arith
    Moved-le s u _ (one_more {t} {n} before step) =
        omega (arith, Moved-le s t n before, total-Moves t u step)

  pub total-le : (k : ℕ) → ((t : T) → left t ≤ k) → (ts : List T) → total left ts ≤ k * length ts
  unfolding total
  total-le k bound [] = omega arith
  total-le k bound (t ∷ ts) = grind (arith, bound t, total-le k bound ts)

  -- A system of one call.
  abbrev pub alone : ℕ → S → T → System advance left IsNew
  alone clock s t = record { shared = s; clock = clock; threads = t ∷ [] }

  pub alone-advance :
      (clock : ℕ) (s s' : S) (t t' : T)
      → 1 ≤ left t
      → advance clock s t ≡ (s', t')
      → Moves advance left IsNew (alone clock s t) (alone clock s' t')
  alone-advance clock s s' t t' h same = record {
    before = [];
    thread = t;
    after = [];
    running = h;
    found = refl;
    becomes = ap (λ x. alone clock x.0 x.1) (sym same);
  }

  pub Moved-after :
      {s t u : System advance left IsNew} {n : ℕ}
      → Moves advance left IsNew s t
      → Moved t u n
      → Moved s u (1 + n)
  Moved-after step none_ = one_more none_ step
  Moved-after step (one_more more last) = one_more (Moved-after step more) last

  pub Reach-Moved :
      {s t u : System advance left IsNew} {n : ℕ}
      → Reach advance left IsNew s t
      → Moved t u n
      → Reach advance left IsNew s u
  Reach-Moved before none_ = before
  Reach-Moved before (one_more more step) = next (Reach-Moved before more) (moves step)
