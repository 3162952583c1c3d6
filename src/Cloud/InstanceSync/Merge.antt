-- ===== src/Cloud/InstanceSync/Merge.antt =====
-- Which instances a refresh leaves in the list.
use private_deploy.Base.{
  ◌≡◌, refl, ◌∙◌, ap, Bool, not, ◌&&◌, ◌||◌, inl, inr, Option, none, some, List, [], ◌∷◌, ◌++◌, map,
  filter, String, one_of, is_empty, Bool-cases, one_of-append, or_else, if_cases, one_of-filter,
}
use private_deploy.Cloud.InstanceSync.{
  ManagedCloudNode, enrich, mark_used, provider_nodes, ids, mark_lost, is_in_use, in_profile,
  enriched, previous_of, merge_instances,
}

-- The test for a node to be retained, on its id.
abbrev pub kept : List String → Option (List String) → List String → List String → String → Bool
kept subscriptions profile listed_ids migrated id =
    not (is_empty id)
    && (not (one_of id listed_ids)
        && (not (one_of id migrated) && is_in_use subscriptions (or_else profile []) id))

module _ {R : Type 0} where
  mark_used-id :
      (children : Option (List String)) (n : ManagedCloudNode R)
      → (mark_used children n).instance_id ≡ n.instance_id
  unfolding mark_used
  mark_used-id none n = refl
  mark_used-id (some cs) n =
      if_cases (in_profile cs n) (λ (m : ManagedCloudNode R). m.instance_id ≡ n.instance_id)
        (λ _. refl) λ _. refl

  enriched-id :
      (o : Option (ManagedCloudNode R)) (n : ManagedCloudNode R)
      → (enriched o n).instance_id ≡ n.instance_id
  enriched-id none n = refl
  enriched-id (some p) n = refl

  enrich-id :
      (prevs : List (ManagedCloudNode R)) (n : ManagedCloudNode R)
      → (enrich prevs n).instance_id ≡ n.instance_id
  unfolding enrich
  enrich-id prevs n = enriched-id (previous_of prevs n) n

  ids-map :
      (f : ManagedCloudNode R → ManagedCloudNode R) (ns : List (ManagedCloudNode R))
      → ((n : ManagedCloudNode R) → (f n).instance_id ≡ n.instance_id)
      → ids (map f ns) ≡ ids ns
  ids-map f [] h = refl
  ids-map f (n ∷ ns) h = rw (h n, ids-map f ns h) refl

  -- The ids of the nodes that the provider lists.
  abbrev pub listed : List (ManagedCloudNode R) → List String
  listed nodes = filter (λ s. not (is_empty s)) (ids nodes)

  ids-filter :
      (p : String → Bool) (ns : List (ManagedCloudNode R))
      → ids (filter (λ n. p n.instance_id) ns) ≡ filter p (ids ns)
  ids-filter p [] = refl
  ids-filter p (n ∷ ns) = elim (Bool-cases (p n.instance_id)) [
    | inl e ↦ rw e (ap (λ l. n.instance_id ∷ l) (ids-filter p ns))
    | inr e ↦ rw e (ids-filter p ns)
  ]

  ids-provider_nodes :
      (children : Option (List String)) (prevs nodes : List (ManagedCloudNode R))
      → ids (provider_nodes children prevs nodes) ≡ listed nodes
  ids-provider_nodes children prevs nodes =
      ids-map (λ n. mark_used children (enrich prevs n))
        (filter (λ n. not (is_empty n.instance_id)) nodes)
        (λ n. mark_used-id children (enrich prevs n) ∙ enrich-id prevs n)
      ∙ ids-filter (λ s. not (is_empty s)) nodes

  ids-append : (ms ns : List (ManagedCloudNode R)) → ids (ms ++ ns) ≡ ids ms ++ ids ns
  ids-append [] ns = refl
  ids-append (m ∷ ms) ns = ap (λ l. m.instance_id ∷ l) (ids-append ms ns)

  ids-merge_instances :
      (subscriptions : List String) (profile : Option (List String)) (migrated : List String)
      (prevs nodes : List (ManagedCloudNode R))
      → ids (merge_instances subscriptions profile migrated prevs nodes)
        ≡ listed nodes ++ filter (kept subscriptions profile (listed nodes) migrated) (ids prevs)
  unfolding merge_instances
  ids-merge_instances subscriptions profile migrated prevs nodes =
      let en : List (ManagedCloudNode R) = provider_nodes profile prevs nodes in
      let test : String → Bool = kept subscriptions profile (ids en) migrated in
      ids-append en (map mark_lost (filter (λ n. test n.instance_id) prevs))
      ∙ ap (λ l. ids en ++ l)
          (ids-map mark_lost (filter (λ n. test n.instance_id) prevs) (λ n. refl)
            ∙ ids-filter test prevs)
      ∙ ap (λ l. l ++ filter (kept subscriptions profile l migrated) (ids prevs))
          (ids-provider_nodes profile prevs nodes)

  -- After a refresh the list has exactly the nodes that the provider lists, and of the nodes before
  -- those that are in use, were not moved to another id and are not listed.
  pub merge_instances-ids :
      (subscriptions : List String) (profile : Option (List String)) (migrated : List String)
      (prevs nodes : List (ManagedCloudNode R)) (id : String)
      → one_of id (ids (merge_instances subscriptions profile migrated prevs nodes)) ≡ (
          one_of id (listed nodes)
          || (one_of id (ids prevs) && kept subscriptions profile (listed nodes) migrated id))
  merge_instances-ids subscriptions profile migrated prevs nodes id =
      let test : String → Bool = kept subscriptions profile (listed nodes) migrated in
      ap (one_of id) (ids-merge_instances subscriptions profile migrated prevs nodes)
      ∙ one_of-append id (listed nodes) (filter test (ids prevs))
      ∙ ap (λ b. one_of id (listed nodes) || b) (one_of-filter id test (ids prevs))
