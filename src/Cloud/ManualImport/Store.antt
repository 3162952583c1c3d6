-- ===== src/Cloud/ManualImport/Store.antt =====
-- The state of the store and its handlers.
use private_deploy.Base.{
  ℕ, Bool, true, not, Option, none, some, List, [], ◌∷◌, ◌++◌, map, filter, any, String, ◌<>◌,
  is_empty, ◌&&◌, trim, text_or, Outcome, ok, threw, Action, if◌then◌else◌,
}
use private_deploy.Cloud.Nodes.{CloudNode}
use private_deploy.Cloud.ManualImport.Types.{
  ManualNodeInput, ManualNodeConflict, ManualError, Result, is_manual, trim_or_empty,
  find_manual_conflict, new_node, checked_protocol,
}

pub record ManualStore (W : Type 0) : Type 0 where
  pub manual_nodes : List CloudNode
  pub manual_nodes_loaded : Bool
  pub instances : List CloudNode
  pub instances_updated_at : Option ℕ
  pub world : W

pub record ManualDeps (W : Type 0) : Type 0 where
  -- `ReadFile(manualNodesPath)` and what `parseJSON` makes of the text, or the error of `map` where
  -- that is no list.
  pub read_file : Action W String
  pub parse_nodes : String → Outcome (List CloudNode)
  -- `saveManualNodes`, on the nodes that it writes.
  pub save_manual_nodes : List CloudNode → Action W (Unit {0})
  pub ensure_subscription_for_node : CloudNode → Action W (Unit {0})
  pub mark_node_status : String → String → W → W
  pub now : W → ℕ
  pub iso_now : W → String
  pub sample_id : W → String × W

abbrev pub Handler : Type 0 → Type 0 → Type 0
Handler W A = ManualStore W → Result A × ManualStore W

-- What follows a call, skipped where it failed.
abbrev pub then_run :
    {W A B : Type 0} → (A → Handler W B) → Result A × ManualStore W → Result B × ManualStore W
then_run f (Result.ok a, s) = f a s
then_run f (Result.failed e, s) = (Result.failed e, s)

infixl 5 ◌>>=◌ ◌>>◌
abbrev pub ◌>>=◌ : {W A B : Type 0} → Handler W A → (A → Handler W B) → Handler W B
◌>>=◌ m f s = then_run f (m s)

abbrev pub ◌>>◌ : {W A B : Type 0} → Handler W A → Handler W B → Handler W B
m >> k = m >>= λ _. k

abbrev pub result : {W A : Type 0} → Result A → Handler W A
result r s = (r, s)

abbrev pub lifted : {W A : Type 0} → ManualStore W → Outcome A × W → Result A × ManualStore W
lifted s (ok a, w) = (Result.ok a, record s { world = w })
lifted s (threw e, w) = (Result.failed (ManualError.other e), record s { world = w })

-- A call of the world.
abbrev pub call : {W A : Type 0} → Action W A → Handler W A
call m s = lifted s (m s.world)

abbrev pub with_defaults : CloudNode → CloudNode
with_defaults node = record node {
  provider = some (text_or node.provider "manual");
  status_text = some (text_or node.status_text "connected");
}

abbrev pub foreign : List CloudNode → List CloudNode
foreign = filter (λ n. not (is_manual n))

-- The instances and the time of their change, for the manual nodes, the instances and the time now.
unfoldable pub synced : List CloudNode → List CloudNode → Option ℕ → ℕ → List CloudNode × Option ℕ
synced [] instances updated_at now =
    if any is_manual instances then (foreign instances, some now) else (instances, updated_at)
synced (n ∷ ns) instances updated_at now =
    (foreign instances ++ map with_defaults (n ∷ ns), some now)

-- A node that was read from the file.
abbrev pub loaded : String → CloudNode → CloudNode
loaded now node = record node {
  provider = some (text_or node.provider "manual");
  status = some (text_or node.status "active");
  status_text = some (text_or node.status_text "connected");
  created_at = some (text_or node.created_at now);
}

-- `instanceSeed`, and the world behind it.
abbrev pub seed_of : {W : Type 0} → (W → String × W) → Option String → W → String × W
seed_of sample none w = let (id, w') = sample w in ("manual-" <> id, w')
seed_of sample (some id) w =
    let (fresh, w') = sample w in if is_empty id then ("manual-" <> fresh, w') else (id, w)

-- The fields that are compared, trimmed.
abbrev pub trimmed_input : ManualNodeInput → ManualNodeInput
trimmed_input input = record input {
  label = trim input.label;
  ipv4 = some (trim_or_empty input.ipv4);
  ipv6 = some (trim_or_empty input.ipv6);
}

module _ {W : Type 0} (deps : ManualDeps W) where
  unfoldable pub sync_manual_nodes_into_instances : ManualStore W → ManualStore W
  unfolding synced
  sync_manual_nodes_into_instances s =
      let (instances, updated_at) =
        synced s.manual_nodes s.instances s.instances_updated_at (deps.now s.world) in
      record s { instances = instances; instances_updated_at = updated_at }

  abbrev read_text : Outcome String → String
  read_text (ok text) = text
  read_text (threw e) = ""

  abbrev set_loaded : ManualStore W → Outcome (List CloudNode) → Result (Unit {0}) × ManualStore W
  set_loaded s (ok nodes) =
      (Result.ok tt, record s { manual_nodes = map (loaded (deps.iso_now s.world)) nodes })
  set_loaded s (threw e) = (Result.failed (ManualError.other e), s)

  abbrev parse_text : ManualStore W → String → Result (Unit {0}) × ManualStore W
  parse_text s text =
      if is_empty text
      then (Result.ok tt, record s { manual_nodes = [] })
      else set_loaded s (deps.parse_nodes text)

  unfoldable pub read_manual_nodes : Handler W (Unit {0})
  read_manual_nodes s =
      let (r, w) = deps.read_file s.world in
      parse_text (record s { manual_nodes_loaded = true; world = w }) (read_text r)

  unfoldable pub load_manual_nodes : Handler W (Unit {0})
  unfolding read_manual_nodes sync_manual_nodes_into_instances
  load_manual_nodes s =
      then_run (λ _ t. (Result.ok tt, sync_manual_nodes_into_instances t))
        (if s.manual_nodes_loaded then (Result.ok tt, s) else read_manual_nodes s)

  -- The end of `createManualNode`, where nothing conflicts.
  unfoldable pub make_node : ManualNodeInput → Handler W CloudNode
  unfolding new_node
  make_node input s =
      let (seed, w) = seed_of deps.sample_id input.instance_id s.world in
      (checked_protocol (new_node input seed (deps.iso_now w)), record s { world = w })

  abbrev pub unless_conflict : Option ManualNodeConflict → ManualNodeInput → Handler W CloudNode
  unless_conflict none input s = make_node input s
  unless_conflict (some conflict) input s = (Result.failed (ManualError.duplicate conflict), s)

  unfoldable pub create_manual_node : ManualNodeInput → Option String → Handler W CloudNode
  unfolding find_manual_conflict make_node
  create_manual_node input current s =
      if is_empty (trim input.label)
      then (Result.failed ManualError.label_required, s)
      else if is_empty (trim_or_empty input.ipv4) && is_empty (trim_or_empty input.ipv6)
      then (Result.failed ManualError.address_required, s)
      else unless_conflict
          (find_manual_conflict s.manual_nodes s.instances (trimmed_input input) current) input s
