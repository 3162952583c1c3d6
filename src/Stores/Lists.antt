-- ===== src/Stores/Lists.antt =====
-- The calls that frontend/src/stores/subscribes.ts, profiles.ts and rulesets.ts share, on the list of
-- one store: a change is made in memory, saved, and taken back where the save throws. A save is the
-- last one of its debounced function; `-1` and `undefined` are `none`.
use private_deploy.Base.{
  ℕ, zero, suc, Bool, Option, none, some, List, [], ◌∷◌, ◌++◌, String, str_eq, Outcome, ok, threw,
  Action, if◌then◌else◌,
}
pub mod Changes
pub mod Saved
mod Tests

-- `findIndex`
abbrev pub next_index : Option ℕ → Option ℕ
next_index none = none
next_index (some i) = some (suc i)

unfoldable pub find_index : {A : Type 0} → (A → Bool) → List A → Option ℕ
find_index p [] = none
find_index p (x ∷ xs) = let rest = find_index p xs in if p x then some 0 else next_index rest

-- `splice(i, 1)`: the list without the element, and the element.
abbrev pub behind : {A : Type 0} → A → List A × Option A → List A × Option A
behind x (xs, cut) = (x ∷ xs, cut)

unfoldable pub splice_out : {A : Type 0} → ℕ → List A → List A × Option A
splice_out i [] = ([], none)
splice_out zero (x ∷ xs) = (xs, some x)
splice_out (suc i) (x ∷ xs) = behind x (splice_out i xs)

-- `splice(i, 0, x)`
unfoldable pub splice_in : {A : Type 0} → ℕ → A → List A → List A
splice_in zero x xs = x ∷ xs
splice_in (suc i) x [] = x ∷ []
splice_in (suc i) x (y ∷ xs) = y ∷ splice_in i x xs

-- `splice(i, 1, x)`
unfoldable pub splice_over : {A : Type 0} → ℕ → A → List A → List A × Option A
splice_over i x [] = (x ∷ [], none)
splice_over zero x (y ∷ ys) = (x ∷ ys, some y)
splice_over (suc i) x (y ∷ ys) = behind y (splice_over i x ys)

-- `pop()`
unfoldable pub pop : {A : Type 0} → List A → List A
pop [] = []
pop (x ∷ []) = []
pop (x ∷ (y ∷ ys)) = x ∷ pop (y ∷ ys)

-- The list of a store, and the world with its file.
pub record ListStore (A W : Type 0) : Type 0 where
  pub items : List A
  pub world : W

pub record ListDeps (A W : Type 0) : Type 0 where
  pub id_of : A → String
  pub save : List A → Action W (Unit {0})

abbrev pub Done : Type 0 → Type 0 → Type 0
Done A W = Outcome (Unit {0}) × ListStore A W

-- `catch (error)`: the change is taken back.
abbrev pub after_save :
    {A W : Type 0} → (List A → List A) → List A → Outcome (Unit {0}) × W → Done A W
after_save undo items (ok u, w) = (ok u, record { items = items; world = w })
after_save undo items (threw e, w) = (threw e, record { items = undo items; world = w })

abbrev pub put_in : {A : Type 0} → ℕ → Option A → List A → List A
put_in i none items = items
put_in i (some backup) items = splice_in i backup items

abbrev pub put_over : {A : Type 0} → ℕ → Option A → List A → List A
put_over i none items = items
put_over i (some backup) items = (splice_over i backup items).0

module _ {A W : Type 0} (deps : ListDeps A W) where
  abbrev pub has_id : String → A → Bool
  has_id id x = str_eq (deps.id_of x) id

  unfoldable pub add_item : A → ListStore A W → Done A W
  unfolding pop
  add_item x s =
      let pushed = s.items ++ (x ∷ []) in after_save pop pushed (deps.save pushed s.world)

  abbrev pub delete_at : Option ℕ → ListStore A W → Done A W
  delete_at none s = (ok tt, s)
  delete_at (some i) s =
      let (rest, backup) = splice_out i s.items in
      after_save (put_in i backup) rest (deps.save rest s.world)

  unfoldable pub delete_item : String → ListStore A W → Done A W
  unfolding find_index splice_out splice_in
  delete_item id s = delete_at (find_index (has_id id) s.items) s

  abbrev pub edit_at : Option ℕ → A → ListStore A W → Done A W
  edit_at none x s = (ok tt, s)
  edit_at (some i) x s =
      let (changed, backup) = splice_over i x s.items in
      after_save (put_over i backup) changed (deps.save changed s.world)

  unfoldable pub edit_item : String → A → ListStore A W → Done A W
  unfolding find_index splice_over
  edit_item id x s = edit_at (find_index (has_id id) s.items) x s
