-- ===== src/Stores/Lists/Tests.antt =====
-- A store of texts under their own ids, whose disk is full when the list has three elements.
use private_deploy.Base.{
  leb, ◌≡◌, refl, List, [], ◌∷◌, length, String, ok, threw, Action, inl, inr, Bool-cases,
  if◌then◌else◌,
}
use private_deploy.Stores.Lists.{ListStore, ListDeps, add_item, edit_item, delete_item}
use private_deploy.Stores.Lists.Changes.{
  add, delete, edit, run_change, changed, IsAtomic, run_change-IsAtomic,
}
use private_deploy.Stores.Lists.Saved.{Writes, IsSaved, run_changes, run_changes-IsSaved}

abbrev write : List String → Action (List String) (Unit {0})
write items file = if leb 3 (length items) then (threw "no space left", file) else (ok tt, items)

abbrev deps : ListDeps String (List String)
deps = record { id_of = λ x. x; save = write }

abbrev two_items : ListStore String (List String)
two_items = record { items = "a" ∷ "b" ∷ []; world = "a" ∷ "b" ∷ [] }

write-Writes : (items file : List String) → Writes (λ f. f) file items (write items file)
write-Writes items file = elim (Bool-cases (leb 3 (length items))) [
  | inl e ↦ rw e refl
  | inr e ↦ rw e refl
]

run_change-IsAtomic_example :
    IsAtomic
      ("a" ∷ "b" ∷ [])
      (changed (λ x. x) (add "c") ("a" ∷ "b" ∷ []))
      (run_change deps (add "c") two_items)
run_change-IsAtomic_example = run_change-IsAtomic deps two_items (add "c")

-- The third element cannot be saved.
no_space : run_change deps (add "c") two_items ≡ (threw "no space left", two_items)
unfolding add_item
no_space = refl

edited : (run_change deps (edit "a" "c") two_items).1.items ≡ "c" ∷ "b" ∷ []
unfolding edit_item
edited = refl

run_changes-IsSaved_example :
    IsSaved
      (λ f. f)
      (run_changes deps (add "c" ∷ delete "a" ∷ edit "b" "d" ∷ add "e" ∷ []) two_items)
run_changes-IsSaved_example =
    run_changes-IsSaved deps (λ f. f) write-Writes
      (add "c" ∷ delete "a" ∷ edit "b" "d" ∷ add "e" ∷ []) two_items refl

left :
    (run_changes deps (add "c" ∷ delete "a" ∷ edit "b" "d" ∷ add "e" ∷ []) two_items).world
    ≡ "d" ∷ "e" ∷ []
unfolding add_item edit_item delete_item
left = refl
