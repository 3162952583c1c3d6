-- ===== src/Cloud/History/Entries.antt =====
-- What pruning keeps of a list of entries.
use private_deploy.Base.{
  ℕ, zero, suc, ◌-◌, ◌≤◌, ◌<◌, ◌≡◌, refl, ap, true, false, inl, inr, ◌⊎◌, Memᴰ-filter, List, [],
  ◌∷◌, arith, leb, length, drop, filter, All, All-mono, All-drop, filter-All, filter-eq_self,
  length-drop, Bool-cases, Memᴰ,
}
use private_deploy.Cloud.History.{is_fresh, insert_sorted, sort, newest, prune_entries, max_samples}

difference : (a b : ℕ) → a ≤ b → a - b ≡ 0
difference a b h = omega arith

leb-false : (a b : ℕ) → leb a b ≡ false → b < a
leb-false a b h = ground arith

module _ {T : Type 0} (at : T → ℕ) where
  -- The times do not decrease.
  abbrev pub Sorted : List T → Type 0
  Sorted [] = Unit
  Sorted (x ∷ xs) = All (λ y. at x ≤ at y) xs × Sorted xs

  insert_sorted-All :
      (P : T → Type 0) (x : T) (xs : List T) → P x → All P xs → All P (insert_sorted at x xs)
  unfolding insert_sorted
  insert_sorted-All P x [] p h = (p, tt)
  insert_sorted-All P x (y ∷ ys) p h = ground (arith, insert_sorted-All P x ys p h.1)

  pub sort-All : (P : T → Type 0) (xs : List T) → All P xs → All P (sort at xs)
  unfolding sort
  sort-All P [] h = tt
  sort-All P (x ∷ xs) h = insert_sorted-All P x (sort at xs) h.0 (sort-All P xs h.1)

  insert_sorted-Sorted : (x : T) (xs : List T) → Sorted xs → Sorted (insert_sorted at x xs)
  unfolding insert_sorted
  insert_sorted-Sorted x [] h = (tt, tt)
  insert_sorted-Sorted x (y ∷ ys) h = elim (Bool-cases (leb (at x) (at y))) [
    | inl e ↦ rw e (
        let l : at x ≤ at y = ground (arith, e) in
        ((l, All-mono (λ z. at y ≤ at z) (λ z. at x ≤ at z) ys (λ z k. omega arith) h.0), h))
    | inr e ↦ rw e (
      insert_sorted-All (λ z. at y ≤ at z) x ys (ground arith) h.0,
      insert_sorted-Sorted x ys h.1,
    )
  ]

  pub sort-Sorted : (xs : List T) → Sorted (sort at xs)
  unfolding sort
  sort-Sorted [] = tt
  sort-Sorted (x ∷ xs) = insert_sorted-Sorted x (sort at xs) (sort-Sorted xs)

  insert_sorted-least :
      (x : T) (xs : List T) → All (λ y. at x ≤ at y) xs → insert_sorted at x xs ≡ x ∷ xs
  unfolding insert_sorted
  insert_sorted-least x [] h = refl
  insert_sorted-least x (y ∷ ys) h = ground (arith, h.0)

  sort-Sorted_idem : (xs : List T) → Sorted xs → sort at xs ≡ xs
  unfolding sort
  sort-Sorted_idem [] h = refl
  sort-Sorted_idem (x ∷ xs) h = rw (sort-Sorted_idem xs h.1) (insert_sorted-least x xs h.0)

  Sorted-drop : (n : ℕ) (xs : List T) → Sorted xs → Sorted (drop n xs)
  Sorted-drop zero xs h = h
  Sorted-drop (suc n) [] h = tt
  Sorted-drop (suc n) (x ∷ xs) h = Sorted-drop n xs h.1

  newest-short : (xs : List T) → length xs ≤ max_samples → newest at xs ≡ xs
  newest-short xs h = ap (λ n. drop n xs) (difference (length xs) max_samples h)

  -- The entries are fresh, in the order of their times and at most 512.
  pub prune_entries-Pruned :
      (now : ℕ) (xs : List T)
      → All (λ x. is_fresh at now x ≡ true) (prune_entries at xs now)
        × Sorted (prune_entries at xs now)
        × (length (prune_entries at xs now) ≤ max_samples)
  unfolding prune_entries
  prune_entries-Pruned now xs =
      let kept = sort at (filter (is_fresh at now) xs) in
      (
        All-drop _ (length kept - max_samples) kept (sort-All _ _ (filter-All _ xs)),
        Sorted-drop (length kept - max_samples) kept (sort-Sorted (filter (is_fresh at now) xs)),
        omega (arith, length-drop (length kept - max_samples) kept),
      )

  pub prune_entries_idem :
      (now : ℕ) (xs : List T)
      → prune_entries at (prune_entries at xs now) now ≡ prune_entries at xs now
  unfolding prune_entries
  prune_entries_idem now xs =
      let (f, s, l) = prune_entries-Pruned now xs in
      rw
        (
          filter-eq_self (is_fresh at now) (prune_entries at xs now) f,
          sort-Sorted_idem (prune_entries at xs now) s,
        )
        (newest-short (prune_entries at xs now) l)

  behind :
      {a : T} (x y : T) (ys zs : List T)
      → Memᴰ a (x ∷ y ∷ ys)
      → (Memᴰ a (x ∷ ys) → Memᴰ a zs)
      → Memᴰ a (y ∷ zs)
  behind x y ys zs (Memᴰ.head e) k = Memᴰ.tail (k (Memᴰ.head e))
  behind x y ys zs (Memᴰ.tail (Memᴰ.head e)) k = Memᴰ.head e
  behind x y ys zs (Memᴰ.tail (Memᴰ.tail m)) k = Memᴰ.tail (k (Memᴰ.tail m))

  Memᴰ-insert_sorted :
      {a : T} (x : T) (xs : List T) → Memᴰ a (x ∷ xs) → Memᴰ a (insert_sorted at x xs)
  unfolding insert_sorted
  Memᴰ-insert_sorted x [] m = m
  Memᴰ-insert_sorted x (y ∷ ys) m = elim (Bool-cases (leb (at x) (at y))) [
    | inl e ↦ rw e m
    | inr e ↦ rw e (behind x y ys (insert_sorted at x ys) m (Memᴰ-insert_sorted x ys))
  ]

  Memᴰ-sort : {a : T} {xs : List T} → Memᴰ a xs → Memᴰ a (sort at xs)
  unfolding sort
  Memᴰ-sort (Memᴰ.head {x} {xs} e) = Memᴰ-insert_sorted x (sort at xs) (Memᴰ.head e)
  Memᴰ-sort (Memᴰ.tail {x} {xs} m) = Memᴰ-insert_sorted x (sort at xs) (Memᴰ.tail (Memᴰ-sort m))

  -- In a sorted list, an element is behind the first `n`, or no later than all of those behind.
  Memᴰ-drop :
      {a : T} (n : ℕ) {xs : List T}
      → Memᴰ a xs
      → Sorted xs
      → Memᴰ a (drop n xs) ⊎ All (λ y. at a ≤ at y) (drop n xs)
  Memᴰ-drop zero m s = inl m
  Memᴰ-drop (suc n) (Memᴰ.head {x} {xs} e) s = inr (All-drop _ n xs (rw e s.0))
  Memᴰ-drop (suc n) (Memᴰ.tail m) s = Memᴰ-drop n m s.1

  Memᴰ-newest :
      {a : T} (ys : List T)
      → Memᴰ a ys
      → Sorted ys
      → Memᴰ a (newest at ys)
        ⊎ (All (λ y. at a ≤ at y) (newest at ys) × (length (newest at ys) ≡ max_samples))
  Memᴰ-newest {a} ys m s = elim (Bool-cases (leb (length ys) max_samples)) [
    | inl e ↦ inl (rw (newest-short ys (ground (arith, e))) m)
    | inr e ↦ elim (Memᴰ-drop (length ys - max_samples) m s) [
      | inl k ↦ inl k
      | inr l ↦ inr (
        l,
        omega
            (arith, length-drop (length ys - max_samples) ys, leb-false (length ys) max_samples e),
      )
    ]
  ]

  -- A fresh entry is kept, unless 512 entries are kept that are no older.
  pub prune_entries-newest :
      (now : ℕ) {a : T} {xs : List T}
      → Memᴰ a xs
      → is_fresh at now a ≡ true
      → Memᴰ a (prune_entries at xs now)
        ⊎ (All (λ y. at a ≤ at y) (prune_entries at xs now)
            × (length (prune_entries at xs now) ≡ max_samples))
  unfolding prune_entries
  prune_entries-newest now {a} {xs} m f =
      let ys : List T = sort at (filter (is_fresh at now) xs) in
      Memᴰ-newest ys (Memᴰ-sort (Memᴰ-filter (is_fresh at now) m f))
        (sort-Sorted (filter (is_fresh at now) xs))
