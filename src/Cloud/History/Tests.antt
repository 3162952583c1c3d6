-- ===== src/Cloud/History/Tests.antt =====
-- A store whose world is the time; its file cannot be written.
use private_deploy.Base.{
  ℕ, ◌≤◌, ◌≡◌, refl, true, false, none, some, List, [], ◌∷◌, String, threw, ◌⊎◌, Memᴰ, All, length,
}
use private_deploy.Cloud.History.{
  NodeConnectivityHistoryEntry, NodeSpeedHistoryEntry, NodeHistoryRecord, NodeHistoryMap,
  HistoryStore, HistoryDeps, is_fresh, max_samples, insert_sorted, sort, prune_entries,
  prune_record, prune_node_history_map, load_node_history,
}
use private_deploy.Cloud.History.Entries.{Sorted, prune_entries-Pruned, prune_entries-newest}

record Disk : Type 0 where
  time : ℕ

abbrev at : ℕ → String → NodeConnectivityHistoryEntry
at t status = record { timestamp = t; status = status; target_status = none; ports_open = none }

abbrev speed_at : ℕ → NodeSpeedHistoryEntry
speed_at t = record { timestamp = t; speed_mbps = some 90; status = "ok"; error = none }

abbrev time : NodeConnectivityHistoryEntry → ℕ
time = NodeConnectivityHistoryEntry.timestamp

abbrev samples : List NodeConnectivityHistoryEntry
samples = at 800000000 "down" ∷ at 5 "old" ∷ at 700000000 "up" ∷ []

abbrev of : List NodeConnectivityHistoryEntry → NodeHistoryRecord
of xs = record { connectivity = xs; speed = [] }

abbrev file : NodeHistoryMap
file = ("a", of samples) ∷ ("b", of (at 6 "old" ∷ [])) ∷ ("c", of (at 750000000 "up" ∷ [])) ∷ []

abbrev deps : HistoryDeps Disk
deps = record {
  read_history = λ d. (file, d);
  write_history = λ m d. (threw "disk full", d);
  now = λ d. d.time;
  schedule_save = λ d. d;
}

abbrev store : HistoryStore Disk
store = record {
  node_history = [];
  node_history_loaded = false;
  world = record { time = 900000000 };
}

pruned : prune_entries time samples 900000000 ≡ at 700000000 "up" ∷ at 800000000 "down" ∷ []
unfolding prune_entries sort insert_sorted
pruned = refl

loaded :
    (load_node_history deps store).node_history
    ≡ ("a", of (at 700000000 "up" ∷ at 800000000 "down" ∷ []))
      ∷ ("c", of (at 750000000 "up" ∷ []))
      ∷ []
unfolding load_node_history prune_node_history_map prune_record prune_entries sort insert_sorted
loaded = refl

prune_entries-Pruned_example :
    All (λ x. is_fresh time 900000000 x ≡ true) (prune_entries time samples 900000000)
    × Sorted time (prune_entries time samples 900000000)
    × (length (prune_entries time samples 900000000) ≤ max_samples)
prune_entries-Pruned_example = prune_entries-Pruned time 900000000 samples

prune_entries-newest_example :
    Memᴰ (at 700000000 "up") (prune_entries time samples 900000000)
    ⊎ (All (λ y. 700000000 ≤ time y) (prune_entries time samples 900000000)
        × (length (prune_entries time samples 900000000) ≡ max_samples))
prune_entries-newest_example =
    prune_entries-newest time 900000000 {a = at 700000000 "up"} {xs = samples}
      (Memᴰ.tail (Memᴰ.tail (Memᴰ.head refl))) refl

-- A store whose map is loaded.
abbrev open_store : HistoryStore Disk
open_store = record store { node_history = file; node_history_loaded = true }
