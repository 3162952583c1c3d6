-- ===== src/Cloud/History/Handlers.antt =====
-- What the handlers of the store leave in its map.
use private_deploy.Base.{
  ℕ, ◌≡◌, refl, subst, sym, Bool, ◌||◌, Option, none, some, [], ◌∷◌, ◌++◌, String, Outcome, ok,
  threw, is_empty, str_eq, or_else, Distinct, if◌then◌else◌, if_cases,
}
use private_deploy.Base.Dict.{
  Dict, lookup, keys, lookup-insert, Distinct-keys-insert, Distinct-keys-erase,
}
use private_deploy.Cloud.History.{
  NodeSpeedHistoryEntry, NodeHistoryRecord, NodeHistoryMap, HistoryStore, HistoryDeps,
  empty_history_record, save_node_history_immediate, load_node_history, update_node_history,
  clear_node_history, migrated, move_record, migrate_node_history, record_connectivity_sample,
  record_speed_sample,
}
use private_deploy.Cloud.History.Maps.{Distinct-keys-prune}

-- No node has two records.
abbrev pub HasKeys : {W : Type 0} → HistoryStore W → Type 0
HasKeys s = Distinct (keys s.node_history)

module _ {W : Type 0} (deps : HistoryDeps W) where
  migrated-map :
      (x : Outcome (Unit {0}) × HistoryStore W)
      → (migrated deps x).1.node_history ≡ x.1.node_history
  migrated-map (ok a, s) = refl
  migrated-map (threw e, s) = refl

  update-lookup :
      (id k : String) (updater : NodeHistoryRecord → NodeHistoryRecord) (s : HistoryStore W)
      → lookup k (update_node_history deps id updater s).node_history ≡ (
          if str_eq id k
          then some (
              updater
                (or_else (lookup id (load_node_history deps s).node_history) empty_history_record))
          else lookup k (load_node_history deps s).node_history)
  unfolding update_node_history
  update-lookup id k updater s = lookup-insert id k _ (load_node_history deps s).node_history

  -- A sample is added behind those that the loaded map has of its node, and no other node's record
  -- changes.
  pub record_connectivity_sample-lookup :
      (id k status : String) (details : Option (Dict String) × Option (Dict Bool))
      (s : HistoryStore W)
      → let before : NodeHistoryRecord =
          or_else (lookup id (load_node_history deps s).node_history) empty_history_record in
        lookup k (record_connectivity_sample deps id status details s).node_history ≡ (
          if str_eq id k
          then some (record before {
            connectivity =
                before.connectivity
                ++ (record {
                  timestamp = deps.now s.world;
                  status = status;
                  target_status = details.0;
                  ports_open = details.1;
                }
                    ∷ []);
          })
          else lookup k (load_node_history deps s).node_history)
  unfolding record_connectivity_sample
  record_connectivity_sample-lookup id k status details s = update-lookup id k _ s

  module _ (reads : (w : W) → Distinct (keys (deps.read_history w).0)) where
    load-HasKeys : (s : HistoryStore W) → HasKeys s → HasKeys (load_node_history deps s)
    unfolding load_node_history
    load-HasKeys s h =
        if_cases s.node_history_loaded HasKeys (λ _. h) λ _. Distinct-keys-prune _ _ (reads s.world)

    save-HasKeys : (s : HistoryStore W) → HasKeys s → HasKeys (save_node_history_immediate deps s).1
    unfolding save_node_history_immediate
    save-HasKeys s h = Distinct-keys-prune _ _ h

    clear-HasKeys :
        (id : Option String) (s : HistoryStore W)
        → HasKeys s
        → HasKeys (clear_node_history deps id s).1
    unfolding clear_node_history keys
    clear-HasKeys none s h = save-HasKeys _ tt
    clear-HasKeys (some id) s h = save-HasKeys _ (
        if_cases (is_empty id) (λ (m : NodeHistoryMap). Distinct (keys m)) (λ _. tt)
          λ _. Distinct-keys-erase id _ (load-HasKeys s h))

    move-HasKeys :
        (from_id to_id : String) (o : Option NodeHistoryRecord) (s : HistoryStore W)
        → HasKeys s
        → HasKeys (move_record deps from_id to_id o s).1
    unfolding move_record save_node_history_immediate
    move-HasKeys from_id to_id none s h = h
    move-HasKeys from_id to_id (some r) s h =
        subst (λ m. Distinct (keys m)) (sym (migrated-map _))
          (Distinct-keys-prune _ _
            (Distinct-keys-insert to_id _ _ (Distinct-keys-erase from_id s.node_history h)))

    update-HasKeys :
        (id : String) (f : NodeHistoryRecord → NodeHistoryRecord) (s : HistoryStore W)
        → HasKeys s
        → HasKeys (update_node_history deps id f s)
    unfolding update_node_history
    update-HasKeys id f s h = Distinct-keys-insert id _ _ (load-HasKeys s h)

    migrate-HasKeys :
        (from_id to_id : String) (s : HistoryStore W)
        → HasKeys s
        → HasKeys (migrate_node_history deps from_id to_id s).1
    unfolding migrate_node_history
    migrate-HasKeys from_id to_id s h =
        if_cases (is_empty from_id || (is_empty to_id || str_eq from_id to_id))
          (λ (r : Outcome Bool × HistoryStore W). HasKeys r.1) (λ _. h)
          λ _. move-HasKeys from_id to_id _ _ (load-HasKeys s h)

    -- Where the file read has no node twice, every handler keeps the nodes of the map distinct.
    pub handlers-HasKeys :
        (s : HistoryStore W)
        → HasKeys s
        → HasKeys (load_node_history deps s)
          × ((id : Option String) → HasKeys (clear_node_history deps id s).1)
          × ((from_id to_id : String) → HasKeys (migrate_node_history deps from_id to_id s).1)
          × ((id status : String) (details : Option (Dict String) × Option (Dict Bool))
              → HasKeys (record_connectivity_sample deps id status details s))
          × ((id : String) (sample : ℕ → NodeSpeedHistoryEntry)
              → HasKeys (record_speed_sample deps id sample s))
    unfolding record_connectivity_sample record_speed_sample
    handlers-HasKeys s h = (
      load-HasKeys s h,
      λ id. clear-HasKeys id s h,
      λ from_id to_id. migrate-HasKeys from_id to_id s h,
      λ id status details. update-HasKeys id _ s h,
      λ id sample. update-HasKeys id _ s h,
    )
