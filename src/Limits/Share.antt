-- ===== src/Limits/Share.antt =====
-- How many calls one tenant is granted, while nothing is evicted.
use ai_auth.Common.{
  ℕ, ◌+◌, ◌-◌, ◌*◌, ◌≤◌, ◌≡◌, refl, ap, Bool, true, false, List, [], ◌∷◌, arith, ite, if◌then◌else◌,
  Bool-cases, inl, inr,
}
use ai_auth.Limits.{Key, Key-discrete, Bucket, new}
use ai_auth.Limits.Contract.{Account, Terms, Ledger, Contract, spend, grant, grants, opened}
use ai_auth.Limits.Ceiling.{IsOrdered-le}
use ai_auth.Limits.Float.{F64, IsExact, nano}
use ai_auth.Limits.Refill.{price}
use ai_auth.Limits.Refinement.{contract, new_refines}
use ai_auth.Limits.Refines.{Unforced}
use ai_auth.Limits.Trace.{Call, answers, IsOrdered}
use mathlib.Core.List.{Perm}

abbrev pub key_of : Call → Key
key_of call = (call.tenant_id, call.op)

-- How many of the calls of a pair were answered with yes.
unfoldable pub granted_to : Key → List Call → List Bool → ℕ
granted_to k (call ∷ calls) (allowed ∷ rest) =
    ite (Key-discrete (key_of call) k) (if allowed then 1 else 0) 0 + granted_to k calls rest
granted_to k _ _ = 0

price-ite :
    {P : Type 0} (d : Dec P) (allowed : Bool)
    → ite d (if allowed then 1 else 0) 0 * nano ≡ ite d (price allowed) 0
price-ite (yes p) true = refl
price-ite (yes p) false = refl
price-ite (no n) allowed = refl

module _ (c : Contract) (k : Key) where
  -- What the account can still grant up to the time `end`.
  abbrev worth : Terms → ℕ → Account → ℕ
  worth t end a = a.tokens + (end - a.last) * t.rate

  spend-worth :
      (t : Terms) (a : Account) (now end : ℕ)
      → a.last ≤ now
      → now ≤ end
      → let (a', paid) = spend t a now in
        (worth t end a' + price paid ≤ worth t end a) × (a'.last ≡ now)
  unfolding spend
  spend-worth t a now end h k =
      let parts : end - a.last ≡ (now - a.last) + (end - now) = omega arith in
      let split : (end - a.last) * t.rate ≡ (now - a.last) * t.rate + (end - now) * t.rate =
        omega (arith, ap (λ (d : ℕ). d * t.rate) parts) in
      ground (arith, split)

  -- A call of the pair is paid for out of its account; any other leaves the account alone.
  grant-worth :
      (g : Ledger) (call : Call) (end : ℕ)
      → (g.pairs k).last ≤ call.now
      → call.now ≤ end
      → let (g', allowed) = grant c g call in
        (worth c.pair end (g'.pairs k) + ite (Key-discrete (key_of call) k) (price allowed) 0
          ≤ worth c.pair end (g.pairs k))
        × ((g'.pairs k).last ≤ call.now)
  unfolding grant
  grant-worth g call end h he =
      let same : key_of call ≡ k → g.pairs (key_of call) ≡ g.pairs k = λ p. ap g.pairs p in
      elim (Bool-cases (spend c.operation (g.operations call.op) call.now).1) [
        | inr unpaid ↦ ground arith
        | inl paid ↦ rw paid (elim (Key-discrete (key_of call) k) [
          | yes p ↦
              let (left, stamp) =
                spend-worth c.pair (g.pairs (key_of call)) call.now end (rw (same p) h) he in
              ground (arith, left, stamp, same p)
          | no n ↦ ground arith
        ])
      ]

  grants-worth :
      (g : Ledger) (start end : ℕ) (calls : List Call)
      → (g.pairs k).last ≤ start
      → IsOrdered start end calls
      → granted_to k calls (grants c g calls) * nano ≤ worth c.pair end (g.pairs k)
  unfolding granted_to grants
  grants-worth g start end [] h o = omega arith
  grants-worth g start end (call ∷ calls) h (later, o) =
      let (left, stamp) =
        grant-worth g call end (omega arith) (IsOrdered-le call.now end calls o) in
      omega (
        arith,
        left,
        price-ite (Key-discrete (key_of call) k) (grant c g call).1,
        grants-worth (grant c g call).0 call.now end calls stamp o,
      )

-- Under exact arithmetic and with a whole refill rate, from a fresh limiter: in a history whose
-- clock does not run backwards and that forces no eviction, a pair of a tenant and an operation is
-- granted at most the capacity, plus the refill for the time that passes.
pub granted_to-le_share :
    {F : F64} (e : IsExact F) (iter : List (Key × Bucket F) → List (Key × Bucket F))
    (iter_perm : (m : List (Key × Bucket F)) → Perm (iter m) m) (capacity r start end : ℕ) (k : Key)
    (calls : List Call)
    → IsOrdered start end calls
    → Unforced e iter iter_perm (contract capacity r) (new F capacity (F.from r)) calls
    → granted_to k calls (answers F iter (new F capacity (F.from r)) calls) * nano
      ≤ capacity * nano + (end - start) * r
granted_to-le_share e iter iter_perm capacity r start end k calls o u =
    rw (new_refines e iter iter_perm capacity r start end calls o u) (
      grants-worth (contract capacity r) k (opened (contract capacity r) start) start end calls
        (omega arith) o)
