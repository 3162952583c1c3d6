-- ===== src/Cloud/History.antt =====
-- The measurements kept for each node: frontend/src/stores/cloud/history.ts. Times are whole
-- milliseconds and speeds whole numbers. The file is read, parsed and normalised by a call that does not throw.
pub mod Entries
pub mod Maps
pub mod Handlers
mod Tests
use private_deploy.Base.{
  ℕ, ◌-◌, Bool, true, false, ◌&&◌, ◌||◌, Option, none, some, List, [], ◌∷◌, ◌++◌, String, Outcome,
  ok, threw, Action, leb, length, drop, filter, if◌then◌else◌, is_empty, str_eq, or_else,
}
use private_deploy.Base.Dict.{Dict, lookup, insert, erase}

-- `NODE_HISTORY_RETENTION_MS`
abbrev pub retention_ms : ℕ
retention_ms = 604800000

-- `NODE_HISTORY_MAX_SAMPLES`
abbrev pub max_samples : ℕ
max_samples = 512

pub record NodeConnectivityHistoryEntry : Type 0 where
  pub timestamp : ℕ
  pub status : String
  pub target_status : Option (Dict String)
  pub ports_open : Option (Dict Bool)

pub record NodeSpeedHistoryEntry : Type 0 where
  pub timestamp : ℕ
  pub speed_mbps : Option ℕ
  pub status : String
  pub error : Option String

pub record NodeHistoryRecord : Type 0 where
  pub connectivity : List NodeConnectivityHistoryEntry
  pub speed : List NodeSpeedHistoryEntry

abbrev pub NodeHistoryMap : Type 0
NodeHistoryMap = Dict NodeHistoryRecord

abbrev pub empty_history_record : NodeHistoryRecord
empty_history_record = record { connectivity = []; speed = [] }

-- The tests and the order of `pruneEntries`, on entries that have a time.
module _ {T : Type 0} (at : T → ℕ) where
  -- `now - entry.timestamp <= NODE_HISTORY_RETENTION_MS`; a time to come counts as fresh.
  abbrev pub is_fresh : ℕ → T → Bool
  is_fresh now x = leb (now - at x) retention_ms

  -- `sort((a, b) => a.timestamp - b.timestamp)`, which is stable.
  unfoldable pub insert_sorted : T → List T → List T
  insert_sorted x [] = x ∷ []
  insert_sorted x (y ∷ ys) =
      let rest = insert_sorted x ys in if leb (at x) (at y) then x ∷ (y ∷ ys) else y ∷ rest

  unfoldable pub sort : List T → List T
  unfolding insert_sorted
  sort [] = []
  sort (x ∷ xs) = insert_sorted x (sort xs)

  -- `slice(-NODE_HISTORY_MAX_SAMPLES)`
  abbrev pub newest : List T → List T
  newest xs = drop (length xs - max_samples) xs

  unfoldable pub prune_entries : List T → ℕ → List T
  unfolding sort
  prune_entries entries now = newest (sort (filter (is_fresh now) entries))

unfoldable pub prune_record : ℕ → NodeHistoryRecord → NodeHistoryRecord
unfolding prune_entries
prune_record now entry = record {
  connectivity = prune_entries NodeConnectivityHistoryEntry.timestamp entry.connectivity now;
  speed = prune_entries NodeSpeedHistoryEntry.timestamp entry.speed now;
}

-- `!entries.length`
abbrev pub is_nil : {T : Type 0} → List T → Bool
is_nil [] = true
is_nil (_ ∷ _) = false

abbrev pub is_empty_record : NodeHistoryRecord → Bool
is_empty_record r = is_nil r.connectivity && is_nil r.speed

-- Nodes without entries are dropped.
unfoldable pub prune_node_history_map : NodeHistoryMap → ℕ → NodeHistoryMap
prune_node_history_map [] now = []
prune_node_history_map ((instance_id, entry) ∷ history) now =
    let rest = prune_node_history_map history now in
    let pruned = prune_record now entry in
    if is_empty_record pruned then rest else (instance_id, pruned) ∷ rest

-- `cloneHistoryRecord`
abbrev pub clone_history_record : Option NodeHistoryRecord → NodeHistoryRecord
clone_history_record r = or_else r empty_history_record

unfoldable pub merge_node_history_records :
    Option NodeHistoryRecord → Option NodeHistoryRecord → ℕ → NodeHistoryRecord
unfolding prune_node_history_map lookup
merge_node_history_records primary secondary now =
    let merged : NodeHistoryRecord = record {
      connectivity =
          (clone_history_record primary).connectivity
          ++ (clone_history_record secondary).connectivity;
      speed = (clone_history_record primary).speed ++ (clone_history_record secondary).speed;
    } in
    or_else (lookup "merged" (prune_node_history_map (("merged", merged) ∷ []) now))
      empty_history_record

-- The store's fields, and the rest of the world.
pub record HistoryStore (W : Type 0) : Type 0 where
  pub node_history : NodeHistoryMap
  pub node_history_loaded : Bool
  pub world : W

-- What the store calls.
pub record HistoryDeps (W : Type 0) : Type 0 where
  -- The map that the file holds, if it can be read.
  pub read_history : W → NodeHistoryMap × W
  pub write_history : NodeHistoryMap → Action W (Unit {0})
  -- `Date.now()`
  pub now : W → ℕ
  -- A save half a second later, if no other follows; its errors are dropped.
  pub schedule_save : W → W

module _ {W : Type 0} (deps : HistoryDeps W) where
  abbrev pub in_world :
      HistoryStore W → Outcome (Unit {0}) × W → Outcome (Unit {0}) × HistoryStore W
  in_world s (r, w) = (r, record s { world = w })

  unfoldable pub save_node_history_immediate : Action (HistoryStore W) (Unit {0})
  save_node_history_immediate s =
      let pruned = prune_node_history_map s.node_history (deps.now s.world) in
      in_world (record s { node_history = pruned }) (deps.write_history pruned s.world)

  -- The state after the call; what it returns is `nodeHistory.value`.
  unfoldable pub load_node_history : HistoryStore W → HistoryStore W
  load_node_history s =
      if s.node_history_loaded
      then s
      else let (parsed, w) = deps.read_history s.world in
        record {
          node_history = prune_node_history_map parsed (deps.now w);
          node_history_loaded = true;
          world = w;
        }

  unfoldable pub update_node_history :
      String → (NodeHistoryRecord → NodeHistoryRecord) → HistoryStore W → HistoryStore W
  update_node_history instance_id updater s =
      let s' = load_node_history s in
      let current = or_else (lookup instance_id s'.node_history) empty_history_record in
      record s' {
        node_history = insert instance_id (updater current) s'.node_history;
        world = deps.schedule_save s'.world;
      }

  unfoldable pub clear_node_history : Option String → Action (HistoryStore W) (Unit {0})
  clear_node_history none s =
      save_node_history_immediate (record (load_node_history s) { node_history = [] })
  clear_node_history (some instance_id) s =
      let s' = load_node_history s in
      save_node_history_immediate (record s' {
        node_history = if is_empty instance_id then [] else erase instance_id s'.node_history;
      })

  -- `true` once the file is written.
  abbrev migrated : Outcome (Unit {0}) × HistoryStore W → Outcome Bool × HistoryStore W
  migrated (ok _, s) = (ok true, s)
  migrated (threw e, s) = (threw e, s)

  -- With the record of the source, which is in the map.
  unfoldable pub move_record :
      String → String → Option NodeHistoryRecord → Action (HistoryStore W) Bool
  unfolding save_node_history_immediate
  move_record from_id to_id none s = (ok false, s)
  move_record from_id to_id (some source) s =
      let merged =
        merge_node_history_records (some source) (lookup to_id s.node_history) (deps.now s.world) in
      migrated (
        save_node_history_immediate
          (record s { node_history = insert to_id merged (erase from_id s.node_history) }))

  unfoldable pub migrate_node_history : String → String → Action (HistoryStore W) Bool
  migrate_node_history from_id to_id s =
      if is_empty from_id || (is_empty to_id || str_eq from_id to_id)
      then (ok false, s)
      else let s' = load_node_history s in
        move_record from_id to_id (lookup from_id s'.node_history) s'

  unfoldable pub record_connectivity_sample :
      String → String → Option (Dict String) × Option (Dict Bool) → HistoryStore W → HistoryStore W
  record_connectivity_sample instance_id status (target_status, ports_open) s =
      let sample : NodeConnectivityHistoryEntry = record {
        timestamp = deps.now s.world;
        status = status;
        target_status = target_status;
        ports_open = ports_open;
      } in
      update_node_history instance_id
        (λ r. record r { connectivity = r.connectivity ++ (sample ∷ []) }) s

  -- The time of a speed sample is read after the load.
  unfoldable pub record_speed_sample :
      String → (ℕ → NodeSpeedHistoryEntry) → HistoryStore W → HistoryStore W
  record_speed_sample instance_id sample s =
      update_node_history instance_id
        (λ r. record r { speed = r.speed ++ (sample (deps.now (load_node_history s).world) ∷ []) })
        s
