-- ===== src/Base/Dict.antt =====
-- JavaScript objects and maps with text keys: entries in the order of insertion.
use mathlib.Core.Path.{◌≡◌, refl}
use mathlib.Core.Option.{Option, none, some}
use mathlib.Core.List.{List, [], ◌∷◌}
use Prim.Native.String.{String}
use native.Mathlib.Omega.{arith}
use text.Mathlib.TextEquality.{eq_iff}
use text.Mathlib.TextPositions.{eq_refl}
use private_deploy.Base.Tests.{if◌then◌else◌, is_some}
use mathlib.Core.Bool.{true, false}
use private_deploy.Base.Texts.{str_eq, one_of}
use private_deploy.Base.Members.{Distinct}

abbrev pub Dict {ℓ} : Type ℓ → Type ℓ
Dict V = List (String × V)

module _ {ℓ} {V : Type ℓ} where
  -- `d[k]`
  unfoldable pub lookup : String → Dict V → Option V
  lookup k [] = none
  lookup k ((j, v) ∷ d) = if str_eq j k then some v else lookup k d

  -- `d[k] = v`: a new key goes to the end.
  unfoldable pub insert : String → V → Dict V → Dict V
  insert k v [] = (k, v) ∷ []
  insert k v ((j, w) ∷ d) =
      let rest = insert k v d in if str_eq j k then (j, v) ∷ d else (j, w) ∷ rest

  -- `delete d[k]`
  unfoldable pub erase : String → Dict V → Dict V
  erase k [] = []
  erase k ((j, w) ∷ d) = let rest = erase k d in if str_eq j k then rest else (j, w) ∷ rest

  -- Replaces each value, in place.
  unfoldable pub map_values : (V → V) → Dict V → Dict V
  map_values f [] = []
  map_values f ((j, w) ∷ d) = (j, f w) ∷ map_values f d

  -- `Object.keys(d)`
  unfoldable pub keys : Dict V → List String
  keys [] = []
  keys ((j, w) ∷ d) = j ∷ keys d

  pub lookup-insert :
      (k j : String) (v : V) (d : Dict V)
      → lookup j (insert k v d) ≡ (if str_eq k j then some v else lookup j d)
  unfolding lookup insert
  lookup-insert k j v [] = refl
  lookup-insert k j v ((i, w) ∷ d) =
      ground (arith, eq_iff k j, eq_iff i k, eq_iff i j, lookup-insert k j v d)

  pub lookup-erase :
      (k j : String) (d : Dict V) → lookup j (erase k d) ≡ (if str_eq k j then none else lookup j d)
  unfolding lookup erase
  lookup-erase k j [] = ground arith
  lookup-erase k j ((i, w) ∷ d) =
      ground (arith, eq_iff k j, eq_iff i k, eq_iff i j, lookup-erase k j d)

  -- The value of a key after `map_values`, by cases on the one before.
  abbrev pub over : (V → V) → Option V → Option V
  over f none = none
  over f (some v) = some (f v)

  pub lookup-map_values :
      (j : String) (f : V → V) (d : Dict V) → lookup j (map_values f d) ≡ over f (lookup j d)
  unfolding lookup map_values
  lookup-map_values j f [] = refl
  lookup-map_values j f ((i, w) ∷ d) = ground (arith, lookup-map_values j f d)

  pub map_values-map_values :
      (f g h : V → V) (d : Dict V)
      → ((v : V) → f (g v) ≡ h v)
      → map_values f (map_values g d) ≡ map_values h d
  unfolding map_values
  map_values-map_values f g h [] e = refl
  map_values-map_values f g h ((i, w) ∷ d) e = cc (e w, map_values-map_values f g h d e)

  pub erase-insert :
      (k : String) (v : V) (f : V → V) (d : Dict V)
      → erase k (map_values f (insert k v d)) ≡ erase k (map_values f d)
  unfolding erase insert map_values
  erase-insert k v f [] = ground (arith, eq_refl k)
  erase-insert k v f ((i, w) ∷ d) = ground (arith, eq_iff i k, erase-insert k v f d)

  -- The values of a dictionary.
  abbrev pub AllValues {κ} : (V → Type κ) → Dict V → Type κ
  AllValues P [] = Unit
  AllValues P ((i, w) ∷ d) = P w × AllValues P d

  pub AllValues-erase :
      (P : V → Type 0) (k : String) (d : Dict V) → AllValues P d → AllValues P (erase k d)
  unfolding erase
  AllValues-erase P k [] h = tt
  AllValues-erase P k ((i, w) ∷ d) h = ground (arith, AllValues-erase P k d h.1)

  pub AllValues-insert :
      (P : V → Type 0) (k : String) (v : V) (d : Dict V)
      → P v
      → AllValues P d
      → AllValues P (insert k v d)
  unfolding insert
  AllValues-insert P k v [] p h = (p, tt)
  AllValues-insert P k v ((i, w) ∷ d) p h = ground (arith, AllValues-insert P k v d p h.1)

  pub AllValues-map_values :
      (P Q : V → Type 0) (f : V → V) (d : Dict V)
      → ((v : V) → P v → Q (f v))
      → AllValues P d
      → AllValues Q (map_values f d)
  unfolding map_values
  AllValues-map_values P Q f [] e h = tt
  AllValues-map_values P Q f ((i, w) ∷ d) e h = (e w h.0, AllValues-map_values P Q f d e h.1)

  pub AllValues-of_forall : (P : V → Type 0) (d : Dict V) → ((v : V) → P v) → AllValues P d
  AllValues-of_forall P [] e = tt
  AllValues-of_forall P ((i, w) ∷ d) e = (e w, AllValues-of_forall P d e)

  one_of-keys-erase :
      (j k : String) (d : Dict V) → one_of j (keys d) ≡ false → one_of j (keys (erase k d)) ≡ false
  unfolding keys erase
  one_of-keys-erase j k [] h = refl
  one_of-keys-erase j k ((i, w) ∷ d) h = ground (arith, one_of-keys-erase j k d)

  pub Distinct-keys-erase :
      (k : String) (d : Dict V) → Distinct (keys d) → Distinct (keys (erase k d))
  unfolding keys erase
  Distinct-keys-erase k [] h = tt
  Distinct-keys-erase k ((i, w) ∷ d) h =
      ground (arith, Distinct-keys-erase k d, one_of-keys-erase i k d)

  one_of-keys-insert :
      (j k : String) (v : V) (d : Dict V)
      → one_of j (keys d) ≡ false
      → str_eq j k ≡ false
      → one_of j (keys (insert k v d)) ≡ false
  unfolding keys insert
  one_of-keys-insert j k v [] h n = ground arith
  one_of-keys-insert j k v ((i, w) ∷ d) h n = ground (arith, one_of-keys-insert j k v d)

  pub Distinct-keys-insert :
      (k : String) (v : V) (d : Dict V) → Distinct (keys d) → Distinct (keys (insert k v d))
  unfolding keys insert
  Distinct-keys-insert k v [] h = (refl, tt)
  Distinct-keys-insert k v ((i, w) ∷ d) h =
      ground (arith, Distinct-keys-insert k v d, one_of-keys-insert i k v d)

module _ {ℓ} {V : Type ℓ} where
  pub insert-insert_self :
      (k : String) (v w : V) (d : Dict V) → insert k v (insert k w d) ≡ insert k v d
  unfolding insert
  insert-insert_self k v w [] = ground (arith, eq_refl k)
  insert-insert_self k v w ((i, x) ∷ d) = ground (arith, eq_iff i k, insert-insert_self k v w d)

  -- An entry that is there keeps its place.
  pub insert_comm :
      (j k : String) (x y : V) (d : Dict V)
      → str_eq k j ≡ false
      → is_some (lookup j d) ≡ true
      → insert j y (insert k x d) ≡ insert k x (insert j y d)
  unfolding insert lookup
  insert_comm j k x y [] h e = cc
  insert_comm j k x y ((i, w) ∷ d) h e =
      ground (arith, eq_iff i k, eq_iff i j, eq_iff k j, insert_comm j k x y d h)
