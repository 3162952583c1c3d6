-- ===== src/Cloud/Subscription/Found.antt =====
-- What `getSubscribeById` finds after a change of the list.
use private_deploy.Base.{
  ◌≡◌, refl, Bool, false, inl, inr, none, some, List, [], ◌∷◌, ◌++◌, String, str_eq, eq_iff,
  eq_refl, Bool-cases,
}
use private_deploy.Cloud.Subscription.Record.{Subscription}
use private_deploy.Cloud.Subscription.Apply.{get_subscribe_by_id}
use private_deploy.Stores.Lists.Changes.{with_first}

abbrev pub is_subscription : String → Subscription → Bool
is_subscription id x = str_eq x.id id

pub found-id :
    (id : String) (xs : List Subscription) (x : Subscription)
    → get_subscribe_by_id id xs ≡ some x
    → x.id ≡ id
unfolding get_subscribe_by_id
found-id id [] x h = cc
found-id id (y ∷ xs) x h = elim (Bool-cases (str_eq y.id id)) [
  | inl e ↦ first y x ((eq_iff y.id id).0 e) (rw e at h)
  | inr e ↦ found-id id xs x (rw e at h)
]
  where
    first : (y x : Subscription) → y.id ≡ id → some y ≡ some x → x.id ≡ id
    first y x p q = cc

-- What is found after a change.
pub found-edited :
    (id : String) (x e : Subscription) (xs : List Subscription)
    → x.id ≡ id
    → get_subscribe_by_id id xs ≡ some e
    → get_subscribe_by_id id (with_first (is_subscription id) (x ∷ []) xs) ≡ some x
unfolding get_subscribe_by_id
found-edited id x e [] p h = cc
found-edited id x e (y ∷ xs) p h = elim (Bool-cases (str_eq y.id id)) [
  | inl q ↦ rw q (rw (p, eq_refl id) refl)
  | inr q ↦ rw q (rw q (found-edited id x e xs p (rw q at h)))
]

pub found-added :
    (id : String) (x : Subscription) (xs : List Subscription)
    → x.id ≡ id
    → get_subscribe_by_id id xs ≡ none
    → get_subscribe_by_id id (xs ++ (x ∷ [])) ≡ some x
unfolding get_subscribe_by_id
found-added id x [] p h = rw (p, eq_refl id) refl
found-added id x (y ∷ xs) p h = elim (Bool-cases (str_eq y.id id)) [
  | inl q ↦ absurd (clash (rw q at h))
  | inr q ↦ rw q (found-added id x xs p (rw q at h))
]
  where
    clash : some y ≡ none → ⊥
    clash e = cc

pub others-edited :
    (id j : String) (x : Subscription) (xs : List Subscription)
    → x.id ≡ id
    → str_eq id j ≡ false
    → get_subscribe_by_id j (with_first (is_subscription id) (x ∷ []) xs) ≡ get_subscribe_by_id j xs
unfolding get_subscribe_by_id
others-edited id j x [] p d = refl
others-edited id j x (y ∷ xs) p d = elim (Bool-cases (str_eq y.id id)) [
  | inl q ↦ rw q (rw (p, d, (eq_iff y.id id).0 q, d) refl)
  | inr q ↦ rw q (rw (others-edited id j x xs p d) refl)
]

pub others-added :
    (id j : String) (x : Subscription) (xs : List Subscription)
    → x.id ≡ id
    → str_eq id j ≡ false
    → get_subscribe_by_id j (xs ++ (x ∷ [])) ≡ get_subscribe_by_id j xs
unfolding get_subscribe_by_id
others-added id j x [] p d = rw (p, d) refl
others-added id j x (y ∷ xs) p d = rw (others-added id j x xs p d) refl
