-- ===== src/Schedule/Account.antt =====
-- An account of what concurrent calls hold of the state that they share, kept by every step.
use ai_auth.Common.{ℕ, ◌+◌, ◌≡◌, sym, ap, subst, ◌∷◌, ◌++◌, arith, All}
use ai_auth.Schedule.{
  total, total-append, All-later, All-at, System, Moves, Step, ticks, arrives, moves, Reach, here,
  next, step_wait, waits,
}

-- `weight` is what a call holds, and `wait` what its next step adds to the bound. `Q` is what is
-- known of a call, and `A` the account: the clock, the state, what the calls hold and the waits.
pub record Account {S T : Type 0} (advance : ℕ → S → T → S × T) (IsNew : T → Type 0) : Type 1 where
  pub Q : ℕ → T → Type 0
  pub weight : T → ℕ
  pub wait : ℕ → T → ℕ
  pub A : ℕ → S → ℕ → ℕ → Type 0
  pub later : (clock d : ℕ) (t : T) → Q clock t → Q (clock + d) t
  pub fresh : (clock : ℕ) (t : T) → IsNew t → Q clock t × (weight t ≡ 0)
  pub tick : (clock d : ℕ) (s : S) (n w : ℕ) → A clock s n w → A (clock + d) s n w
  pub step :
      (clock : ℕ) (s : S) (t : T) (m w : ℕ)
      → Q clock t
      → A clock s (weight t + m) w
      → let (s', t') = advance clock s t in
        Q clock t' × A clock s' (weight t' + m) (w + wait clock t)

module _ {S T : Type 0} (advance : ℕ → S → T → S × T) (left : T → ℕ) (IsNew : T → Type 0)
    (a : Account advance IsNew) where
  open a use {Q, weight, wait, A}

  pub record Holds (s : System advance left IsNew) (w : ℕ) : Type 0 where
    pub known : All (Q s.clock) s.threads
    pub account : A s.clock s.shared (total weight s.threads) w

  Moves-Holds :
      (s u : System advance left IsNew) (w : ℕ) (m : Moves advance left IsNew s u)
      → Holds s w
      → Holds u (w + wait s.clock m.thread)
  Moves-Holds s u w m p =
      let n = total weight m.before + total weight m.after in
      let s' = (advance s.clock s.shared m.thread).0 in
      let t' = (advance s.clock s.shared m.thread).1 in
      let v = w + wait s.clock m.thread in
      let (h, put) = All-at m.before m.thread m.after (subst (All (Q s.clock)) m.found p.known) in
      let split : total weight s.threads ≡ weight m.thread + n =
        omega (arith, ap (total weight) m.found, total-append weight m.before m.thread m.after) in
      let joined : weight t' + n ≡ total weight (m.before ++ t' ∷ m.after) =
        omega (arith, total-append weight m.before t' m.after) in
      let (h', q) =
        a.step s.clock s.shared m.thread n w h
          (subst (λ k. A s.clock s.shared k w) split p.account) in
      subst (λ x. Holds x v) (sym m.becomes)
        (record { known = put t' h'; account = subst (λ k. A s.clock s' k v) joined q })

  Step-Holds :
      (s u : System advance left IsNew) (w : ℕ) (step : Step advance left IsNew s u)
      → Holds s w
      → Holds u (w + step_wait advance left IsNew wait step)
  unfolding total
  Step-Holds s u w (ticks d same) p =
      let none_ : w ≡ w + 0 = omega arith in
      subst (λ x. Holds x (w + 0)) (sym same)
        (record {
          known = All-later (a.later s.clock d) s.threads p.known;
          account =
              subst (A (s.clock + d) s.shared _) none_ (a.tick s.clock d s.shared _ w p.account);
        })
  Step-Holds s u w (arrives t new same) p =
      let (q, free) = a.fresh s.clock t new in
      let none_ : w ≡ w + 0 = omega arith in
      let n = total weight s.threads in
      let joined : n ≡ weight t + n = omega (arith, free) in
      subst (λ x. Holds x (w + 0)) (sym same)
        (record {
          known = (q, p.known);
          account =
              subst (A s.clock s.shared (weight t + n)) none_
                (subst (λ k. A s.clock s.shared k w) joined p.account);
        })
  Step-Holds s u w (moves m) p = Moves-Holds s u w m p

  pub Reach-Holds :
      (s u : System advance left IsNew) (r : Reach advance left IsNew s u)
      → Holds s 0
      → Holds u (waits advance left IsNew wait r)
  Reach-Holds s _ here p = p
  Reach-Holds s u (next {t} before step) p =
      Step-Holds t u (waits advance left IsNew wait before) step (Reach-Holds s t before p)
