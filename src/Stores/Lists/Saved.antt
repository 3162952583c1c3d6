-- ===== src/Stores/Lists/Saved.antt =====
-- The file of a store over its calls.
use private_deploy.Base.{
  ℕ, ◌≡◌, sym, ◌∙◌, subst, Option, none, some, List, [], ◌∷◌, ◌++◌, Outcome, ok, threw,
}
use private_deploy.Stores.Lists.{
  find_index, splice_out, splice_over, pop, ListStore, ListDeps, after_save, put_in, put_over,
  has_id, delete_at, edit_at, add_item, delete_item, edit_item,
}
use private_deploy.Stores.Lists.Changes.{
  Change, add, delete, edit, run_change, IsAtomic, run_change-IsAtomic,
}

-- Calls one after the other, each whether or not the one before it threw.
abbrev pub run_changes :
    {A W : Type 0} → ListDeps A W → List (Change A) → ListStore A W → ListStore A W
run_changes deps [] s = s
run_changes deps (c ∷ cs) s = run_changes deps cs (run_change deps c s).1

-- A save writes the list, or throws and leaves the file.
abbrev pub Writes :
    {A W : Type 0} → (W → List A) → List A → List A → Outcome (Unit {0}) × W → Type 0
Writes file before items (ok u, w) = file w ≡ items
Writes file before items (threw e, w) = file w ≡ before

abbrev pub IsSaved : {A W : Type 0} → (W → List A) → ListStore A W → Type 0
IsSaved file s = file s.world ≡ s.items

after_save-IsSaved :
    {A W : Type 0} (file : W → List A) (undo : List A → List A) (before items after : List A)
    (r : Outcome (Unit {0}) × W)
    → Writes file before items r
    → IsAtomic before after (after_save undo items r)
    → IsSaved file (after_save undo items r).1
after_save-IsSaved file undo before items after (ok u, w) h a = h
after_save-IsSaved file undo before items after (threw e, w) h a = h ∙ sym a

module _ {A W : Type 0} (deps : ListDeps A W) (file : W → List A)
    (writes : (items : List A) (w : W) → Writes file (file w) items (deps.save items w)) where
  saves :
      (s : ListStore A W) (items : List A)
      → IsSaved file s
      → Writes file s.items items (deps.save items s.world)
  saves s items h =
      subst (λ before. Writes file before items (deps.save items s.world)) h (writes items s.world)

  delete_at-IsSaved :
      (s : ListStore A W) (o : Option ℕ) (after : List A)
      → IsSaved file s
      → IsAtomic s.items after (delete_at deps o s)
      → IsSaved file (delete_at deps o s).1
  delete_at-IsSaved s none after h a = h
  delete_at-IsSaved s (some i) after h a =
      after_save-IsSaved file (put_in i (splice_out i s.items).1) s.items _ after _
        (saves s (splice_out i s.items).0 h) a

  edit_at-IsSaved :
      (s : ListStore A W) (x : A) (o : Option ℕ) (after : List A)
      → IsSaved file s
      → IsAtomic s.items after (edit_at deps o x s)
      → IsSaved file (edit_at deps o x s).1
  edit_at-IsSaved s x none after h a = h
  edit_at-IsSaved s x (some i) after h a =
      after_save-IsSaved file (put_over i (splice_over i x s.items).1) s.items _ after _
        (saves s (splice_over i x s.items).0 h) a

  run_change-IsSaved :
      (c : Change A) (s : ListStore A W) → IsSaved file s → IsSaved file (run_change deps c s).1
  unfolding add_item delete_item edit_item
  run_change-IsSaved (add x) s h =
      after_save-IsSaved file pop s.items (s.items ++ (x ∷ [])) (s.items ++ (x ∷ [])) _
        (saves s (s.items ++ (x ∷ [])) h) (run_change-IsAtomic deps s (add x))
  run_change-IsSaved (delete id) s h =
      delete_at-IsSaved s (find_index (has_id deps id) s.items) _ h
        (run_change-IsAtomic deps s (delete id))
  run_change-IsSaved (edit id x) s h =
      edit_at-IsSaved s x (find_index (has_id deps id) s.items) _ h
        (run_change-IsAtomic deps s (edit id x))

  -- Where a save that throws leaves the file as it was, the file holds the list of the store after any
  -- calls, those whose save threw among them, if it did before them.
  pub run_changes-IsSaved :
      (cs : List (Change A)) (s : ListStore A W)
      → IsSaved file s
      → IsSaved file (run_changes deps cs s)
  run_changes-IsSaved [] s h = h
  run_changes-IsSaved (c ∷ cs) s h =
      run_changes-IsSaved cs (run_change deps c s).1 (run_change-IsSaved c s h)
