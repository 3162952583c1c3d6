-- ===== src/Cloud/InstanceSync/InUse.antt =====
-- Which nodes count as in use.
use Prim.Native.Char.{Char}
use private_deploy.Base.{
  ℕ, zero, suc, ◌≤◌, ◌<◌, ◌≡◌, refl, ◌∙◌, ap, true, false, not, ◌&&◌, inl, inr, [], ◌∷◌, length,
  String, str_eq, is_empty, starts_with, codes, arith, eq_iff, eq_refl, Bool-cases,
}
use private_deploy.Cloud.Ids.{subscription_id, slice_from}
use private_deploy.Cloud.Ids.Lemmas.{starts_with-prefix, slice_from-append}
use private_deploy.Cloud.InstanceSync.{sliced_ids, is_in_use}

length-slice_from : (n : ℕ) (s : String) → length (codes (slice_from n s)) ≤ length (codes s)
unfolding slice_from
length-slice_from zero s = omega arith
length-slice_from (suc n) String.[] = omega arith
length-slice_from (suc n) (String.◌∷◌ c s) = omega (arith, length-slice_from n s)

slice_from-shorter :
    (n : ℕ) (c : Char) (s : String)
    → length (codes (slice_from (suc n) (String.◌∷◌ c s))) < length (codes (String.◌∷◌ c s))
unfolding slice_from
slice_from-shorter n c s = omega (arith, length-slice_from n s)

irreflexive : (m n : ℕ) → m < n → n ≡ m → true ≡ false
irreflexive m n h e = ground arith

str_eq-slice_from : (s : String) → starts_with s "cloud-" ≡ true → str_eq s (slice_from 6 s) ≡ false
unfolding starts_with
str_eq-slice_from String.[] h = cc
str_eq-slice_from (String.◌∷◌ c s) h =
    elim (Bool-cases (str_eq (String.◌∷◌ c s) (slice_from 6 (String.◌∷◌ c s)))) [
      | inl e ↦
          e
          ∙ irreflexive _ _ (slice_from-shorter 5 c s)
              (ap (λ t. length (codes t)) ((eq_iff _ _).0 e))
      | inr e ↦ e
    ]

-- A node that has its own subscription counts as in use, by that, just where its id is there and
-- does not begin with the prefix of subscriptions: an id that begins with it is its own subscription,
-- and is looked for without the prefix.
pub is_in_use-subscription_id :
    (id : String)
    → is_in_use (subscription_id id ∷ []) [] id
      ≡ (not (is_empty id) && not (starts_with id "cloud-"))
unfolding is_in_use sliced_ids subscription_id
is_in_use-subscription_id id = elim (Bool-cases (starts_with id "cloud-")) [
  | inl e ↦ rw e (rw (e, str_eq-slice_from id e) refl)
  | inr e ↦
      rw e (rw (starts_with-prefix "cloud-" id, slice_from-append "cloud-" id, eq_refl id) refl)
]
