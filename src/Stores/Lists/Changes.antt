-- ===== src/Stores/Lists/Changes.antt =====
-- What a change leaves in memory, whether or not it could be saved.
use private_deploy.Base.{
  ℕ, suc, ◌≡◌, refl, sym, ap, ◌∙◌, subst, Bool, false, inl, inr, Option, none, some, List, [], ◌∷◌,
  ◌++◌, String, str_eq, Outcome, ok, threw, Bool-cases, if◌then◌else◌,
}
use private_deploy.Stores.Lists.{
  next_index, find_index, splice_out, splice_in, splice_over, pop, ListStore, ListDeps, Done,
  after_save, put_in, put_over, has_id, delete_at, edit_at, add_item, delete_item, edit_item,
}

-- A call of the store.
pub data Change (A : Type 0) : Type 0 where
  add : A → Change A
  delete : String → Change A
  edit : String → A → Change A

abbrev pub run_change : {A W : Type 0} → ListDeps A W → Change A → ListStore A W → Done A W
run_change deps (add x) s = add_item deps x s
run_change deps (delete id) s = delete_item deps id s
run_change deps (edit id x) s = edit_item deps id x s

-- The first element with the property replaced by others.
abbrev pub with_first : {A : Type 0} → (A → Bool) → List A → List A → List A
with_first p new [] = []
with_first p new (x ∷ xs) = if p x then new ++ xs else x ∷ with_first p new xs

-- What a change means for the list.
abbrev pub changed : {A : Type 0} → (A → String) → Change A → List A → List A
changed id_of (add x) items = items ++ (x ∷ [])
changed id_of (delete id) items = with_first (λ y. str_eq (id_of y) id) [] items
changed id_of (edit id x) items = with_first (λ y. str_eq (id_of y) id) (x ∷ []) items

-- The list is `after` where the call returned, and `before` where it threw.
abbrev pub IsAtomic : {A W : Type 0} → List A → List A → Done A W → Type 0
IsAtomic before after (ok u, s) = s.items ≡ after
IsAtomic before after (threw e, s) = s.items ≡ before

after_save-IsAtomic :
    {A W : Type 0} (undo : List A → List A) (before after : List A) (r : Outcome (Unit {0}) × W)
    → undo after ≡ before
    → IsAtomic before after (after_save undo after r)
after_save-IsAtomic undo before after (ok u, w) h = refl
after_save-IsAtomic undo before after (threw e, w) h = h

pub pop-append : {A : Type 0} (xs : List A) (x : A) → pop (xs ++ (x ∷ [])) ≡ xs
unfolding pop
pop-append [] x = refl
pop-append (y ∷ []) x = refl
pop-append (y ∷ (z ∷ xs)) x = ap (λ r. y ∷ r) (pop-append (z ∷ xs) x)

-- What cutting an element out leaves, and that it can be put back.
abbrev pub IsCut : {A : Type 0} → (A → Bool) → List A → Option ℕ → Type 0
IsCut p xs none = (with_first p [] xs ≡ xs) × ((x : _) → with_first p (x ∷ []) xs ≡ xs)
IsCut p xs (some i) =
    ((splice_out i xs).0 ≡ with_first p [] xs)
    × (put_in i (splice_out i xs).1 (splice_out i xs).0 ≡ xs)
    × ((x : _)
        → ((splice_over i x xs).0 ≡ with_first p (x ∷ []) xs)
          × (put_over i (splice_over i x xs).1 (splice_over i x xs).0 ≡ xs))

put_in-behind :
    {A : Type 0} (i : ℕ) (b : Option A) (y : A) (xs : List A)
    → put_in (suc i) b (y ∷ xs) ≡ y ∷ put_in i b xs
unfolding splice_in
put_in-behind i none y xs = refl
put_in-behind i (some x) y xs = refl

put_over-behind :
    {A : Type 0} (i : ℕ) (b : Option A) (y : A) (xs : List A)
    → put_over (suc i) b (y ∷ xs) ≡ y ∷ put_over i b xs
unfolding splice_over
put_over-behind i none y xs = refl
put_over-behind i (some x) y xs = refl

behind-IsCut :
    {A : Type 0} (p : A → Bool) (y : A) (xs : List A) (o : Option ℕ)
    → p y ≡ false
    → IsCut p xs o
    → IsCut p (y ∷ xs) (next_index o)
unfolding splice_out splice_over
behind-IsCut p y xs none e (h, k) = rw e (ap (λ r. y ∷ r) h, λ x. ap (λ r. y ∷ r) (k x))
behind-IsCut p y xs (some i) e (h, k, l) = rw e (
  ap (λ r. y ∷ r) h,
  put_in-behind i (splice_out i xs).1 y (splice_out i xs).0 ∙ ap (λ r. y ∷ r) k,
  λ x. (
    ap (λ r. y ∷ r) (l x).0,
    put_over-behind i (splice_over i x xs).1 y (splice_over i x xs).0 ∙ ap (λ r. y ∷ r) (l x).1,
  ),
)

pub find_index-IsCut : {A : Type 0} (p : A → Bool) (xs : List A) → IsCut p xs (find_index p xs)
unfolding find_index splice_out splice_in splice_over
find_index-IsCut p [] = (refl, λ x. refl)
find_index-IsCut p (y ∷ xs) = elim (Bool-cases (p y)) [
  | inl e ↦ rw e (rw e (refl, refl, λ x. (refl, refl)))
  | inr e ↦ rw e (behind-IsCut p y xs (find_index p xs) e (find_index-IsCut p xs))
]

module _ {A W : Type 0} (deps : ListDeps A W) (s : ListStore A W) where
  delete_at-IsAtomic :
      (p : A → Bool) (o : Option ℕ)
      → IsCut p s.items o
      → IsAtomic s.items (with_first p [] s.items) (delete_at deps o s)
  delete_at-IsAtomic p none h = sym h.0
  delete_at-IsAtomic p (some i) h =
      subst
        (λ after. IsAtomic s.items after (
          after_save (put_in i (splice_out i s.items).1) (splice_out i s.items).0
            (deps.save (splice_out i s.items).0 s.world)))
        h.0
        (after_save-IsAtomic (put_in i (splice_out i s.items).1) s.items (splice_out i s.items).0
          (deps.save (splice_out i s.items).0 s.world) h.1)

  edit_at-IsAtomic :
      (p : A → Bool) (x : A) (o : Option ℕ)
      → IsCut p s.items o
      → IsAtomic s.items (with_first p (x ∷ []) s.items) (edit_at deps o x s)
  edit_at-IsAtomic p x none h = sym (h.1 x)
  edit_at-IsAtomic p x (some i) h =
      let (changed, same) = h.2 x in
      subst
        (λ after. IsAtomic s.items after (
          after_save (put_over i (splice_over i x s.items).1) (splice_over i x s.items).0
            (deps.save (splice_over i x s.items).0 s.world)))
        changed
        (after_save-IsAtomic (put_over i (splice_over i x s.items).1) s.items
          (splice_over i x s.items).0 (deps.save (splice_over i x s.items).0 s.world) same)

  -- A call that returns has added the element at the end, or has removed or replaced the first element
  -- with the id, nothing where there is none; a call whose save throws leaves the list as it was.
  pub run_change-IsAtomic :
      (c : Change A) → IsAtomic s.items (changed deps.id_of c s.items) (run_change deps c s)
  unfolding add_item delete_item edit_item
  run_change-IsAtomic (add x) =
      after_save-IsAtomic pop s.items (s.items ++ (x ∷ []))
        (deps.save (s.items ++ (x ∷ [])) s.world) (pop-append s.items x)
  run_change-IsAtomic (delete id) =
      delete_at-IsAtomic (has_id deps id) (find_index (has_id deps id) s.items)
        (find_index-IsCut (has_id deps id) s.items)
  run_change-IsAtomic (edit id x) =
      edit_at-IsAtomic (has_id deps id) x (find_index (has_id deps id) s.items)
        (find_index-IsCut (has_id deps id) s.items)
