-- ===== src/Cloud/Ids/Lemmas.antt =====
-- Prefixes of ids.
use text.Mathlib.TextLemmas.{nil-append, cons-append, append-nil}
use private_deploy.Base.{
  ◌≡◌, refl, ◌∙◌, sym, ap, Bool, true, ◌||◌, inl, inr, String, ◌<>◌, starts_with, codes, length,
  arith, if◌then◌else◌, Bool-cases,
}
use private_deploy.Cloud.Ids.{
  subscription_id, slice_from, cloud_instance_id_from_subscription_ref, node_smart_outbound_id,
  is_managed_cloud_outbound_id,
}

pub starts_with-append : (s t u : String) → starts_with (s <> t) (s <> u) ≡ starts_with t u
unfolding starts_with
starts_with-append String.[] t u = rw (nil-append t, nil-append u)
starts_with-append (String.◌∷◌ c s) t u =
    rw (cons-append c s t, cons-append c s u, starts_with-append s t u) (ground arith)

starts_with_nil : (t : String) → starts_with t "" ≡ true
unfolding starts_with
starts_with_nil String.[] = refl
starts_with_nil (String.◌∷◌ c t) = refl

pub starts_with-prefix : (s t : String) → starts_with (s <> t) s ≡ true
starts_with-prefix s t =
    ap (starts_with (s <> t)) (sym (append-nil s)) ∙ starts_with-append s t "" ∙ starts_with_nil t

pub slice_from-append : (s t : String) → slice_from (length (codes s)) (s <> t) ≡ t
unfolding slice_from
slice_from-append String.[] t = nil-append t
slice_from-append (String.◌∷◌ c s) t = rw (cons-append c s t) (slice_from-append s t)

or_true : (a b c : Bool) → c ≡ true → (a || (b || c)) ≡ true
or_true a b c e = ground arith

-- An outbound made for a node is a managed one.
pub node_smart_outbound_id-managed :
    (id : String) → is_managed_cloud_outbound_id (node_smart_outbound_id id) ≡ true
unfolding node_smart_outbound_id is_managed_cloud_outbound_id
node_smart_outbound_id-managed id =
    or_true _ _ _ (starts_with-prefix "outbound-smart-node-" ("auto-" <> subscription_id id))

-- The subscription of a subscription's id is the subscription itself.
subscription_id_idem : (id : String) → subscription_id (subscription_id id) ≡ subscription_id id
unfolding subscription_id
subscription_id_idem id = elim (Bool-cases (starts_with id "cloud-")) [
  | inl e ↦ rw (e, e)
  | inr e ↦ rw e (rw (starts_with-prefix "cloud-" id))
]

starts_with-cloud_do :
    (id : String) → starts_with ("cloud-" <> id) "cloud-do-" ≡ starts_with id "do-"
starts_with-cloud_do id = starts_with-append "cloud-" id "do-"

-- An instance is found again from its subscription, unless its id begins with `do-`, which gets the
-- prefix of subscriptions, or with `cloud-` but not with `cloud-do-`, which loses it.
pub cloud_instance_id-subscription_id :
    (id : String)
    → cloud_instance_id_from_subscription_ref (subscription_id id) ≡ (
        if starts_with id "cloud-"
        then if starts_with id "cloud-do-" then id else slice_from 6 id
        else if starts_with id "do-"
        then "cloud-" <> id
        else id)
unfolding subscription_id cloud_instance_id_from_subscription_ref
cloud_instance_id-subscription_id id = elim (Bool-cases (starts_with id "cloud-")) [
  | inl e ↦ rw e (rw e refl)
  | inr e ↦ rw e (
      rw (starts_with-cloud_do id, starts_with-prefix "cloud-" id, slice_from-append "cloud-" id)
        refl)
]
