-- ===== src/Limits/Evict.antt =====
-- The eviction of `allow`: what goes, what stays, and how many buckets are left.
use ai_auth.Common.{
  ℕ, suc, ◌-◌, ◌≤◌, ◌≡◌, ◌≢◌, ◌⊎◌, refl, ap, sym, subst, ◌∙◌, length-map, take-append-drop, List,
  [], ◌∷◌, ◌++◌, map, inl, inr, none, some, arith, length, take, drop, length-take,
}
use ai_auth.Limits.{Key, Key-discrete, Bucket, by_last_use, least_recent, evict_least_recent}
use ai_auth.Limits.Float.{F64}
use ai_auth.HashMap.Keys.{
  keys, stamped, keys-Nodup, not-mem_of_none, value_of_mem, mem-keys_of_some, lookup-remove_all_mem,
  lookup-remove_all_ne, remove_all-IsMap, length-remove_all,
}
use ai_auth.HashMap.{lookup, IsMap}
use ai_auth.Limits.Sort.{sort_by_key-perm, sort_by_key-IsSorted, take-le-drop}
use mathlib.Core.List.{
  Mem, Mem-prop, dec_mem, Perm, Permᴰ, Nodup, Nodup-append, map-append, mem-append, mem-append_left,
  mem-map_of_mem, exists_of_mem-map,
}
use mathlib.Core.List.Perm
use mathlib.Core.Logic.{∥∥₁_elim}
use mathlib.Core.Logic.Or
use native.Mathlib.Bridge.{le_prop}
use native.Mathlib.Nat.{ℕ_set}

module _ {A : Type 0} where
  Permᴰ-length : {xs ys : List A} → Permᴰ xs ys → length xs ≡ length ys
  Permᴰ-length Permᴰ.nil = refl
  Permᴰ-length (Permᴰ.cons e p) = ap suc (Permᴰ-length p)
  Permᴰ-length (Permᴰ.swap e f) = refl
  Permᴰ-length (Permᴰ.trans p q) = Permᴰ-length p ∙ Permᴰ-length q

  Perm-length : {xs ys : List A} → Perm xs ys → length xs ≡ length ys
  Perm-length p = ∥∥₁_elim p (ℕ_set _ _) Permᴰ-length

module _ {K V : Type 0} where
  keys-stamped : (f : V → ℕ) (m : List (K × V)) → map (λ e. e.1) (stamped f m) ≡ keys m
  keys-stamped f [] = refl
  keys-stamped f ((k, v) ∷ m) = ap (◌∷◌ k) (keys-stamped f m)

module _ (F : F64) (iter : List (Key × Bucket F) → List (Key × Bucket F))
    (iter_perm : (m : List (Key × Bucket F)) → Perm (iter m) m) where
  abbrev last_use : Bucket F → ℕ
  last_use b = b.last

  by_last_use-perm : (m : List (Key × Bucket F)) → Perm (by_last_use F iter m) (stamped last_use m)
  unfolding by_last_use
  by_last_use-perm m =
      Perm.trans (sort_by_key-perm (stamped last_use (iter m))) (Perm.map _ (iter_perm m))

  length-by_last_use : (m : List (Key × Bucket F)) → length (by_last_use F iter m) ≡ length m
  length-by_last_use m = Perm-length (by_last_use-perm m) ∙ length-map (λ e. (last_use e.1, e.0)) m

  -- The keys that an eviction down to `target` removes.
  abbrev victims : ℕ → List (Key × Bucket F) → List Key
  victims target m = map (λ e. e.1) (least_recent F iter target m)

  keys-perm : (m : List (Key × Bucket F)) → Perm (map (λ e. e.1) (by_last_use F iter m)) (keys m)
  keys-perm m = subst (Perm _) (keys-stamped last_use m) (Perm.map _ (by_last_use-perm m))

  victims-append :
      (target : ℕ) (m : List (Key × Bucket F))
      → (rest : List Key) × (victims target m ++ rest ≡ map (λ e. e.1) (by_last_use F iter m))
  unfolding least_recent
  victims-append target m =
      let n = length m - target in
      let s = by_last_use F iter m in
      (
        map (λ e. e.1) (drop n s),
        sym (map-append _ (take n s) (drop n s)) ∙ ap (map _) (take-append-drop n s),
      )

  victims-Nodup :
      (target : ℕ) (m : List (Key × Bucket F)) → IsMap Key-discrete m → Nodup (victims target m)
  victims-Nodup target m h =
      let (rest, e) = victims-append target m in
      (Nodup-append.0 (
        subst Nodup (sym e) (Perm.nodup (Perm.symm (keys-perm m)) (keys-Nodup Key-discrete m h)))).0

  victims-mem :
      (target : ℕ) (k : Key) (m : List (Key × Bucket F))
      → Mem k (victims target m)
      → ¬ (lookup Key-discrete k m ≡ none)
  victims-mem target k m p e =
      let (rest, q) = victims-append target m in
      not-mem_of_none Key-discrete k m e
        ((Perm.mem_iff (keys-perm m)).0 (subst (Mem k) q (mem-append_left rest p)))

  length-victims :
      (target : ℕ) (m : List (Key × Bucket F)) → length (victims target m) ≡ length m - target
  unfolding least_recent
  length-victims target m = omega (
    arith,
    length-map (λ (e : ℕ × Key). e.1) (least_recent F iter target m),
    length-take (length m - target) (by_last_use F iter m),
    length-by_last_use m,
  )

  -- An eviction down to `target`, of a map with distinct keys and at least `target` buckets,
  -- leaves `target` buckets.
  pub length-evict_least_recent :
      (target : ℕ) (m : List (Key × Bucket F))
      → IsMap Key-discrete m
      → target ≤ length m
      → length (evict_least_recent F iter target m) ≡ target
  unfolding evict_least_recent
  length-evict_least_recent target m h le = omega (
    arith,
    length-victims target m,
    length-remove_all Key-discrete (victims target m) m h (victims-Nodup target m h)
        (λ k p. victims-mem target k m p),
  )

  pub evict_least_recent-IsMap :
      (target : ℕ) (m : List (Key × Bucket F))
      → IsMap Key-discrete m
      → IsMap Key-discrete (evict_least_recent F iter target m)
  unfolding evict_least_recent
  evict_least_recent-IsMap target m h = remove_all-IsMap Key-discrete (victims target m) m h

  victim_older :
      (target : ℕ) (k j : Key) (b c : Bucket F) (m : List (Key × Bucket F))
      → IsMap Key-discrete m
      → lookup Key-discrete k m ≡ some b
      → lookup Key-discrete j m ≡ some c
      → Mem k (victims target m)
      → ¬ Mem j (victims target m)
      → b.last ≤ c.last
  unfolding least_recent by_last_use
  victim_older target k j b c m h eb ec p q = ∥∥₁_elim (exists_of_mem-map p) le_prop older
    where
      n : ℕ
      n = length m - target

      s : List (ℕ × Key)
      s = by_last_use F iter m

      kept : Mem (c.last, j) (drop n s)
      kept =
          Or.elim Mem-prop
            (mem-append.0 (
              subst (Mem _) (sym (take-append-drop n s)) (
                (Perm.mem_iff (Perm.symm (by_last_use-perm m))).0
                  (mem-map_of_mem _ (mem-keys_of_some Key-discrete j c m ec)))))
            (λ r. absurd (q (mem-map_of_mem _ r))) (λ r. r)

      older : (e : ℕ × Key) × Mem e (take n s) × (e.1 ≡ k) → b.last ≤ c.last
      older ((t, i), r, same) =
          let before : t ≤ c.last =
            take-le-drop n (t, i) (c.last, j) s (sort_by_key-IsSorted _) r kept in
          let used : t ≡ b.last = value_of_mem Key-discrete last_use t k b m h eb (
            (Perm.mem_iff (by_last_use-perm m)).0 (
              subst (Mem _) (take-append-drop n s) (
                mem-append_left (drop n s)
                  (subst (λ x. Mem {A = ℕ × Key} (t, x) (take n s)) same r)))) in
          omega arith

  -- In a map with distinct keys, a bucket that an eviction removes was last used no later than any
  -- bucket that it keeps, in whatever order the map is iterated.
  pub evict_least_recent-lru :
      (target : ℕ) (k j : Key) (b c : Bucket F) (m : List (Key × Bucket F))
      → IsMap Key-discrete m
      → lookup Key-discrete k m ≡ some b
      → lookup Key-discrete j m ≡ some c
      → lookup Key-discrete k (evict_least_recent F iter target m) ≡ none
      → lookup Key-discrete j (evict_least_recent F iter target m) ≢ none
      → b.last ≤ c.last
  unfolding evict_least_recent
  evict_least_recent-lru target k j b c m h eb ec gone kept =
      elim (dec_mem Key-discrete k (victims target m)) [
        | yes p ↦
            victim_older target k j b c m h eb ec p
              (λ q. kept (lookup-remove_all_mem Key-discrete j (victims target m) m h q))
        | no p ↦ absurd (cc (lookup-remove_all_ne Key-discrete k (victims target m) m p))
      ]

  -- What an eviction keeps, it keeps unchanged.
  pub lookup-evict_least_recent :
      (target : ℕ) (k : Key) (m : List (Key × Bucket F))
      → IsMap Key-discrete m
      → (lookup Key-discrete k (evict_least_recent F iter target m) ≡ none)
        ⊎ (lookup Key-discrete k (evict_least_recent F iter target m) ≡ lookup Key-discrete k m)
  unfolding evict_least_recent
  lookup-evict_least_recent target k m h = elim (dec_mem Key-discrete k (victims target m)) [
    | yes p ↦ inl (lookup-remove_all_mem Key-discrete k (victims target m) m h p)
    | no p ↦ inr (lookup-remove_all_ne Key-discrete k (victims target m) m p)
  ]
