-- ===== src/HashMap/Keys.antt =====
-- The keys of a map, and what removing a list of keys does to it.
use ai_auth.Common.{
  ℕ, ◌+◌, ◌≡◌, refl, ap, sym, ◌∙◌, List, [], ◌∷◌, map, inl, inr, Option-cases, none, some, arith,
  length,
}
use ai_auth.HashMap.{
  lookup, remove, remove_all, IsMap, lookup-remove_self, lookup-remove_ne, remove-IsMap,
  length-remove,
}
use mathlib.Core.HLevel.{⊥_prop}
use mathlib.Core.List.{
  Mem, Mem-prop, Nodup, Nodup-cons, Nodup-nil, not-mem-nil, mem-cons_self, mem-cons_of_mem,
  eq-or-mem_of_mem-cons,
}
use mathlib.Core.Logic.Or
use native.Mathlib.Nat.{ℕ_set}

module _ {K V : Type 0} where
  abbrev pub keys : List (K × V) → List K
  keys = map (λ e. e.0)

  -- Each key behind a number that `f` reads off its value.
  abbrev pub stamped : (V → ℕ) → List (K × V) → List (ℕ × K)
  stamped f = map (λ e. (f e.1, e.0))

module _ {K V : Type 0} (dec : Discrete K) where
  pub not-mem_of_none : (k : K) (m : List (K × V)) → lookup dec k m ≡ none → ¬ Mem k (keys m)
  unfolding lookup
  not-mem_of_none k [] h = not-mem-nil
  not-mem_of_none k ((j, v) ∷ m) h = λ p.
      Or.elim ⊥_prop (eq-or-mem_of_mem-cons p) (λ e. ground arith)
        (not-mem_of_none k m (ground arith))

  pub mem-keys_of_mem :
      (f : V → ℕ) (t : ℕ) (k : K) (m : List (K × V))
      → Mem {A = ℕ × K} (t, k) (stamped f m)
      → Mem k (keys m)
  mem-keys_of_mem f t k [] p = absurd (not-mem-nil p)
  mem-keys_of_mem f t k ((j, w) ∷ m) p =
      Or.elim Mem-prop (eq-or-mem_of_mem-cons p) (λ e. rw (ap (λ x. x.1) e) mem-cons_self)
        (λ q. mem-cons_of_mem j (mem-keys_of_mem f t k m q))

  pub mem-keys_of_some : (k : K) (v : V) (m : List (K × V)) → lookup dec k m ≡ some v → Mem (k, v) m
  unfolding lookup
  mem-keys_of_some k v [] h = cc
  mem-keys_of_some k v ((j, w) ∷ m) h = elim (dec j k) [
    | yes p ↦ let e : ◌≡◌ {A = K × V} (k, v) (j, w) = ground arith in rw e mem-cons_self
    | no p ↦ mem-cons_of_mem (j, w) (mem-keys_of_some k v m (ground arith))
  ]

  pub keys-Nodup : (m : List (K × V)) → IsMap dec m → Nodup (keys m)
  keys-Nodup [] h = Nodup-nil
  keys-Nodup ((k, v) ∷ m) (fresh, h) = Nodup-cons.1 (not-mem_of_none k m fresh, keys-Nodup m h)

  -- An entry of the list `(f v, k)` over a map gives the key's value under `f`.
  pub value_of_mem :
      (f : V → ℕ) (t : ℕ) (k : K) (v : V) (m : List (K × V))
      → IsMap dec m
      → lookup dec k m ≡ some v
      → Mem {A = ℕ × K} (t, k) (stamped f m)
      → t ≡ f v
  unfolding lookup
  value_of_mem f t k v [] h e p = absurd (not-mem-nil p)
  value_of_mem f t k v ((j, w) ∷ m) (fresh, h) e p = elim (dec j k) [
    | yes r ↦
        Or.elim (ℕ_set _ _) (eq-or-mem_of_mem-cons p) (λ q. ground arith)
          (λ q. absurd (not-mem_of_none j m fresh (rw r (mem-keys_of_mem f t k m q))))
    | no r ↦
        Or.elim (ℕ_set _ _) (eq-or-mem_of_mem-cons p) (λ q. absurd (r (ap (λ x. x.1) (sym q))))
          (value_of_mem f t k v m h (ground arith))
  ]

  lookup-remove-none :
      (k j : K) (m : List (K × V)) → lookup dec k m ≡ none → lookup dec k (remove dec j m) ≡ none
  unfolding lookup remove
  lookup-remove-none k j [] e = refl
  lookup-remove-none k j ((i, v) ∷ m) e = ground (arith, lookup-remove-none k j m)

  lookup-remove_all-none :
      (k : K) (ks : List K) (m : List (K × V))
      → lookup dec k m ≡ none
      → lookup dec k (remove_all dec ks m) ≡ none
  unfolding remove_all
  lookup-remove_all-none k [] m e = e
  lookup-remove_all-none k (j ∷ ks) m e =
      lookup-remove_all-none k ks (remove dec j m) (lookup-remove-none k j m e)

  pub lookup-remove_all_ne :
      (k : K) (ks : List K) (m : List (K × V))
      → ¬ Mem k ks
      → lookup dec k (remove_all dec ks m) ≡ lookup dec k m
  unfolding remove_all
  lookup-remove_all_ne k [] m p = refl
  lookup-remove_all_ne k (j ∷ ks) m p =
      lookup-remove_all_ne k ks (remove dec j m) (λ q. p (mem-cons_of_mem j q))
      ∙ lookup-remove_ne dec j k m (λ e. p (rw e mem-cons_self))

  pub lookup-remove_all_mem :
      (k : K) (ks : List K) (m : List (K × V))
      → IsMap dec m
      → Mem k ks
      → lookup dec k (remove_all dec ks m) ≡ none
  unfolding remove_all
  lookup-remove_all_mem k [] m h p = absurd (not-mem-nil p)
  lookup-remove_all_mem k (j ∷ ks) m h p = elim (dec j k) [
    | yes r ↦ lookup-remove_all-none k ks (remove dec j m) (rw r (lookup-remove_self dec k m h))
    | no r ↦
        lookup-remove_all_mem k ks (remove dec j m) (remove-IsMap dec j m h)
          (Or.elim Mem-prop (eq-or-mem_of_mem-cons p) (λ e. absurd (r (sym e))) (λ q. q))
  ]

  pub remove_all-IsMap :
      (ks : List K) (m : List (K × V)) → IsMap dec m → IsMap dec (remove_all dec ks m)
  unfolding remove_all
  remove_all-IsMap [] m h = h
  remove_all-IsMap (k ∷ ks) m h = remove_all-IsMap ks (remove dec k m) (remove-IsMap dec k m h)

  -- Removing distinct keys of the map takes one entry for each.
  pub length-remove_all :
      (ks : List K) (m : List (K × V))
      → IsMap dec m
      → Nodup ks
      → ((k : K) → Mem k ks → ¬ (lookup dec k m ≡ none))
      → length (remove_all dec ks m) + length ks ≡ length m
  unfolding remove_all
  length-remove_all [] m h d p = omega arith
  length-remove_all (k ∷ ks) m h d p =
      let (fresh, rest) = Nodup-cons.0 d in
      elim (Option-cases (lookup dec k m)) [
        | inl e ↦ absurd (p k mem-cons_self e)
        | inr (v, e) ↦ omega (
          arith,
          length-remove dec k v m e,
          length-remove_all ks (remove dec k m) (remove-IsMap dec k m h) rest (λ j q z.
              p j (mem-cons_of_mem k q)
                (sym (lookup-remove_ne dec k j m (λ r. fresh (rw r q))) ∙ z)),
        )
      ]
