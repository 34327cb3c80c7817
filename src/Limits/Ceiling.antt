-- ===== src/Limits/Ceiling.antt =====
-- How many calls of an operation are granted when the clock does not run backwards.
use ai_auth.Common.{ℕ, ◌+◌, ◌-◌, ◌*◌, ◌≤◌, ◌≡◌, sym, subst, List, [], ◌∷◌, arith, length}
use Prim.Native.Nat.{max}
use ai_auth.Limits.{Key, Bucket, new}
use ai_auth.Limits.Float.{F64, IsExact, nano}
use ai_auth.Limits.Skew.{IsSkewed, granted-le_skewed}
use ai_auth.Limits.Trace.{Call, granted, IsOrdered}
use ai_auth.Text.{Str}

pub IsOrdered-le : (start end : ℕ) (calls : List Call) → IsOrdered start end calls → start ≤ end
IsOrdered-le start end [] o = o
IsOrdered-le start end (c ∷ cs) (h, o) = omega (arith, IsOrdered-le c.now end cs o)

IsOrdered-IsSkewed :
    (start end : ℕ) (calls : List Call) → IsOrdered start end calls → IsSkewed 0 start end calls
IsOrdered-IsSkewed start end [] o = o
IsOrdered-IsSkewed start end (c ∷ cs) (h, o) =
    let latest : max start c.now ≡ c.now = omega arith in
    (
      omega arith,
      subst (λ high. IsSkewed 0 high end cs) (sym latest) (IsOrdered-IsSkewed c.now end cs o),
    )

-- Under exact arithmetic, from a fresh limiter with a whole refill rate, however many tenants the
-- caller names: in any history whose clock does not run backwards, an operation is granted at most
-- fifty times the capacity, plus fifty times the refill rate for the time that passes.
pub granted-le_ceiling :
    {F : F64} (e : IsExact F) (iter : List (Key × Bucket F) → List (Key × Bucket F)) (op : Str)
    (capacity r start end : ℕ) (calls : List Call)
    → IsOrdered start end calls
    → granted F iter op (new F capacity (F.from r)) calls * nano
      ≤ 50 * capacity * nano + (end - start) * (50 * r)
granted-le_ceiling e iter op capacity r start end calls o =
    let none_ : length calls * (0 * (50 * r)) ≡ 0 = omega arith in
    omega (
      arith,
      none_,
      granted-le_skewed e iter op capacity r 0 start end calls
          (IsOrdered-IsSkewed start end calls o),
    )
