-- ===== src/HashMap.antt =====
-- The operations of `HashMap` that the source calls, on an association list. The entries stand in
-- no order that a client may rely on: where the source iterates, the order is a parameter.
pub mod Keys
use ai_auth.Common.{
  suc, ◌≤◌, ◌≡◌, refl, ◌≢◌, ◌⊎◌, inl, Bool, List, [], ◌∷◌, Option, none, some, arith, length,
  if◌then◌else◌, ite,
}

module _ {K V : Type 0} (dec : Discrete K) where
  unfoldable pub lookup : K → List (K × V) → Option V
  lookup k [] = none
  lookup k ((j, v) ∷ m) = ite (dec j k) (some v) (lookup k m)

  unfoldable pub insert : K → V → List (K × V) → List (K × V)
  insert k v [] = (k, v) ∷ []
  insert k v ((j, w) ∷ m) = ite (dec j k) ((k, v) ∷ m) ((j, w) ∷ insert k v m)

  unfoldable pub remove : K → List (K × V) → List (K × V)
  remove k [] = []
  remove k ((j, v) ∷ m) = ite (dec j k) m ((j, v) ∷ remove k m)

  -- `for k in keys { map.remove(&k); }`
  unfoldable pub remove_all : List K → List (K × V) → List (K × V)
  unfolding remove
  remove_all [] m = m
  remove_all (k ∷ ks) m = remove_all ks (remove k m)

  -- The keys are distinct.
  abbrev pub IsMap : List (K × V) → Type 0
  IsMap [] = Unit
  IsMap ((k, v) ∷ m) = (lookup k m ≡ none) × IsMap m

  pub lookup-insert_self : (k : K) (v : V) (m : List (K × V)) → lookup k (insert k v m) ≡ some v
  unfolding lookup insert
  lookup-insert_self k v [] = ground arith
  lookup-insert_self k v ((j, w) ∷ m) = ground (arith, lookup-insert_self k v m)

  pub lookup-insert_ne :
      (k j : K) (v : V) (m : List (K × V)) → k ≢ j → lookup j (insert k v m) ≡ lookup j m
  unfolding lookup insert
  lookup-insert_ne k j v [] h = ground arith
  lookup-insert_ne k j v ((i, w) ∷ m) h = ground (arith, lookup-insert_ne k j v m h)

  pub length-insert-le : (k : K) (v : V) (m : List (K × V)) → length (insert k v m) ≤ suc (length m)
  unfolding insert
  length-insert-le k v [] = omega arith
  length-insert-le k v ((j, w) ∷ m) = ground (arith, length-insert-le k v m)

  pub length-insert_present :
      (k : K) (v w : V) (m : List (K × V)) → lookup k m ≡ some w → length (insert k v m) ≡ length m
  unfolding lookup insert
  length-insert_present k v w [] h = cc
  length-insert_present k v w ((j, u) ∷ m) h = ground (arith, length-insert_present k v w m)

  pub insert-IsMap : (k : K) (v : V) (m : List (K × V)) → IsMap m → IsMap (insert k v m)
  unfolding lookup insert
  insert-IsMap k v [] h = (refl, tt)
  insert-IsMap k v ((j, w) ∷ m) (fresh, h) =
      ground (arith, insert-IsMap k v m h, lookup-insert_ne k j v m)

  pub lookup-remove_self : (k : K) (m : List (K × V)) → IsMap m → lookup k (remove k m) ≡ none
  unfolding lookup remove
  lookup-remove_self k [] h = refl
  lookup-remove_self k ((j, v) ∷ m) (fresh, h) = ground (arith, lookup-remove_self k m h)

  pub lookup-remove_ne : (k j : K) (m : List (K × V)) → k ≢ j → lookup j (remove k m) ≡ lookup j m
  unfolding lookup remove
  lookup-remove_ne k j [] h = refl
  lookup-remove_ne k j ((i, v) ∷ m) h = ground (arith, lookup-remove_ne k j m h)

  pub remove-IsMap : (k : K) (m : List (K × V)) → IsMap m → IsMap (remove k m)
  unfolding lookup remove
  remove-IsMap k [] h = tt
  remove-IsMap k ((j, v) ∷ m) (fresh, h) =
      ground (arith, remove-IsMap k m h, lookup-remove_ne k j m)

  pub length-remove :
      (k : K) (v : V) (m : List (K × V))
      → lookup k m ≡ some v
      → suc (length (remove k m)) ≡ length m
  unfolding lookup remove
  length-remove k v [] h = cc
  length-remove k v ((j, w) ∷ m) h = ground (arith, length-remove k v m)

module _ {K V : Type 0} where
  -- `HashMap::retain`
  unfoldable pub retain : (K → V → Bool) → List (K × V) → List (K × V)
  retain p [] = []
  retain p ((k, v) ∷ m) = if p k v then (k, v) ∷ retain p m else retain p m

  pub length-retain-le : (p : K → V → Bool) (m : List (K × V)) → length (retain p m) ≤ length m
  unfolding retain
  length-retain-le p [] = omega arith
  length-retain-le p ((k, v) ∷ m) = ground (arith, length-retain-le p m)

module _ {K V : Type 0} (dec : Discrete K) (p : K → V → Bool) where
  lookup-retain-none :
      (k : K) (m : List (K × V)) → lookup dec k m ≡ none → lookup dec k (retain p m) ≡ none
  unfolding lookup retain
  lookup-retain-none k [] h = refl
  lookup-retain-none k ((j, v) ∷ m) h = ground (arith, lookup-retain-none k m)

  pub retain-IsMap : (m : List (K × V)) → IsMap dec m → IsMap dec (retain p m)
  unfolding lookup retain
  retain-IsMap [] h = tt
  retain-IsMap ((k, v) ∷ m) (fresh, h) = ground (arith, retain-IsMap m h, lookup-retain-none k m)

  -- A key of the map is found after `retain` exactly when its value passes the test.
  pub lookup-retain :
      (k : K) (m : List (K × V))
      → IsMap dec m
      → lookup dec k (retain p m)
        ≡ elim (lookup dec k m) [ none ↦ none | some v ↦ if p k v then some v else none ]
  unfolding lookup retain
  lookup-retain k [] h = refl
  lookup-retain k ((j, v) ∷ m) (fresh, h) =
      ground (arith, lookup-retain k m h, lookup-retain-none k m)

  -- What `retain` keeps, it keeps unchanged.
  pub lookup-retain_or :
      (k : K) (m : List (K × V))
      → IsMap dec m
      → (lookup dec k (retain p m) ≡ none) ⊎ (lookup dec k (retain p m) ≡ lookup dec k m)
  unfolding lookup retain
  lookup-retain_or k [] h = inl refl
  lookup-retain_or k ((j, v) ∷ m) (fresh, h) =
      ground (arith, lookup-retain_or k m h, lookup-retain-none k m)
