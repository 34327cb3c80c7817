-- ===== src/Limits/Sort.antt =====
-- The stable sort behind `sort_by_key`, by the number at the front of each item.
use ai_auth.Common.{
  ℕ, zero, suc, ◌≤◌, List, [], ◌∷◌, arith, leb, inl, inr, Bool-cases, if◌then◌else◌, All, take,
  drop,
}
use mathlib.Core.List.{Perm, Mem, not-mem-nil, mem-cons, mem-cons_of_mem}
use mathlib.Core.List.Perm
use mathlib.Core.Logic.Or
use native.Mathlib.Bridge.{le_prop}

module _ {A : Type 0} where
  -- Before the first item with a key that is not smaller.
  unfoldable pub place : ℕ × A → List (ℕ × A) → List (ℕ × A)
  place x [] = x ∷ []
  place x (y ∷ ys) = if leb x.0 y.0 then x ∷ y ∷ ys else y ∷ place x ys

  unfoldable pub sort_by_key : List (ℕ × A) → List (ℕ × A)
  unfolding place
  sort_by_key [] = []
  sort_by_key (x ∷ xs) = place x (sort_by_key xs)

  place-perm : (x : ℕ × A) (ys : List (ℕ × A)) → Perm (place x ys) (x ∷ ys)
  unfolding place
  place-perm x [] = Perm.refl _
  place-perm x (y ∷ ys) = elim (Bool-cases (leb x.0 y.0)) [
    | inl e ↦ rw e (Perm.refl _)
    | inr e ↦ rw e (Perm.trans (Perm.cons y (place-perm x ys)) (Perm.swap x y ys))
  ]

  pub sort_by_key-perm : (xs : List (ℕ × A)) → Perm (sort_by_key xs) xs
  unfolding sort_by_key
  sort_by_key-perm [] = Perm.refl _
  sort_by_key-perm (x ∷ xs) =
      Perm.trans (place-perm x (sort_by_key xs)) (Perm.cons x (sort_by_key-perm xs))

  abbrev pub IsSorted : List (ℕ × A) → Type 0
  IsSorted [] = Unit
  IsSorted (x ∷ xs) = All (λ y. x.0 ≤ y.0) xs × IsSorted xs

  All-place :
      (n : ℕ) (x : ℕ × A) (ys : List (ℕ × A))
      → n ≤ x.0
      → All (λ y. n ≤ y.0) ys
      → All (λ y. n ≤ y.0) (place x ys)
  unfolding place
  All-place n x [] h hs = (h, tt)
  All-place n x (y ∷ ys) h hs = ground (arith, All-place n x ys h hs.1)

  All-mono : (m n : ℕ) (ys : List (ℕ × A)) → m ≤ n → All (λ y. n ≤ y.0) ys → All (λ y. m ≤ y.0) ys
  All-mono m n [] h hs = tt
  All-mono m n (y ∷ ys) h hs = (omega arith, All-mono m n ys h hs.1)

  place-IsSorted : (x : ℕ × A) (ys : List (ℕ × A)) → IsSorted ys → IsSorted (place x ys)
  unfolding place
  place-IsSorted x [] h = (tt, tt)
  place-IsSorted x (y ∷ ys) (hy, h) =
      ground (arith, place-IsSorted x ys h, All-place y.0 x ys, All-mono x.0 y.0 ys)

  pub sort_by_key-IsSorted : (xs : List (ℕ × A)) → IsSorted (sort_by_key xs)
  unfolding sort_by_key
  sort_by_key-IsSorted [] = tt
  sort_by_key-IsSorted (x ∷ xs) = place-IsSorted x (sort_by_key xs) (sort_by_key-IsSorted xs)

  le_of_mem : (n : ℕ) (b : ℕ × A) (xs : List (ℕ × A)) → All (λ y. n ≤ y.0) xs → Mem b xs → n ≤ b.0
  le_of_mem n b [] h m = absurd (not-mem-nil m)
  le_of_mem n b (x ∷ xs) h m = Or.elim le_prop (mem-cons.0 m) (λ e. rw e h.0) (le_of_mem n b xs h.1)

  mem_of_mem-drop : (n : ℕ) (b : ℕ × A) (xs : List (ℕ × A)) → Mem b (drop n xs) → Mem b xs
  mem_of_mem-drop zero b xs m = m
  mem_of_mem-drop (suc n) b [] m = m
  mem_of_mem-drop (suc n) b (x ∷ xs) m = mem-cons_of_mem x (mem_of_mem-drop n b xs m)

  -- In a sorted list the first `n` keys are at most the others.
  pub take-le-drop :
      (n : ℕ) (a b : ℕ × A) (xs : List (ℕ × A))
      → IsSorted xs
      → Mem a (take n xs)
      → Mem b (drop n xs)
      → a.0 ≤ b.0
  take-le-drop zero a b xs s p q = absurd (not-mem-nil p)
  take-le-drop (suc n) a b [] s p q = absurd (not-mem-nil p)
  take-le-drop (suc n) a b (x ∷ xs) (hx, s) p q =
      Or.elim le_prop (mem-cons.0 p) (λ e. rw e (le_of_mem x.0 b xs hx (mem_of_mem-drop n b xs q)))
        (λ m. take-le-drop n a b xs s m q)
