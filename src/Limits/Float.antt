-- ===== src/Limits/Float.antt =====
-- The f64 arithmetic that crypto/src/limits.rs uses, as an interface. `from` is `f64::from(u32)` and
-- a whole literal; `as_secs_f64` takes a duration in nanoseconds.
use ai_auth.Common.{ℕ, ◌+◌, ◌-◌, ◌*◌, ◌/◌, ◌≡◌, refl, Bool, arith, ltb, leb}
use Prim.Native.Nat.{min}

pub record F64 : Type 1 where
  pub f64 : Type 0
  pub from : ℕ → f64
  pub add : f64 → f64 → f64
  pub sub : f64 → f64 → f64
  pub mul : f64 → f64 → f64
  pub minimum : f64 → f64 → f64
  pub ge : f64 → f64 → Bool
  pub lt : f64 → f64 → Bool
  pub as_secs_f64 : ℕ → f64

-- One token, and one second, in billionths.
abbrev pub nano : ℕ
nano = 1_000_000_000

-- Arithmetic without rounding on the values at hand: `val` is the number of billionths.
pub record IsExact (F : F64) : Type 0 where
  pub val : F.f64 → ℕ
  pub val_from : (n : ℕ) → val (F.from n) ≡ n * nano
  pub val_add : (a b : F.f64) → val (F.add a b) ≡ val a + val b
  pub val_sub : (a b : F.f64) → val (F.sub a b) ≡ val a - val b
  pub val_minimum : (a b : F.f64) → val (F.minimum a b) ≡ min (val a) (val b)
  pub val_elapsed : (d r : ℕ) → val (F.mul (F.as_secs_f64 d) (F.from r)) ≡ d * r
  pub mul_from : (a b : ℕ) → F.mul (F.from a) (F.from b) ≡ F.from (a * b)
  pub ge_val : (a b : F.f64) → F.ge a b ≡ leb (val b) (val a)
  pub lt_val : (a b : F.f64) → F.lt a b ≡ ltb (val a) (val b)

-- Billionths of a token: exact, and executable.
abbrev pub nanos : F64
nanos = record {
  f64 = ℕ;
  from = λ n. n * nano;
  add = ◌+◌;
  sub = ◌-◌;
  mul = λ a b. a * b / nano;
  minimum = min;
  ge = λ a b. leb b a;
  lt = ltb;
  as_secs_f64 = λ d. d;
}

pub nanos-elapsed : (d r : ℕ) → d * (r * nano) / nano ≡ d * r
nanos-elapsed d r = omega arith

pub nanos-mul : (a b : ℕ) → a * nano * (b * nano) / nano ≡ a * b * nano
nanos-mul a b = omega arith

unfoldable pub nanos-IsExact : IsExact nanos
nanos-IsExact = record {
  val = λ n. n;
  val_from = λ n. refl;
  val_add = λ a b. refl;
  val_sub = λ a b. refl;
  val_minimum = λ a b. refl;
  val_elapsed = nanos-elapsed;
  mul_from = nanos-mul;
  ge_val = λ a b. refl;
  lt_val = λ a b. refl;
}
