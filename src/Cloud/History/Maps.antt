-- ===== src/Cloud/History/Maps.antt =====
-- What pruning keeps of the map of all nodes, and what merging two records gives.
use private_deploy.Base.{
  ℕ, ◌≡◌, refl, sym, ap, true, false, inl, inr, Option, none, some, List, [], ◌∷◌, ◌++◌, String,
  str_eq_sym, one_of, Distinct, or_else, if◌then◌else◌, Bool-cases, ◌&&◌, arith, eq_iff,
}
use private_deploy.Base.Dict.{lookup, keys}
use private_deploy.Cloud.History.{
  NodeConnectivityHistoryEntry, NodeSpeedHistoryEntry, NodeHistoryRecord, NodeHistoryMap,
  empty_history_record, clone_history_record, is_nil, is_empty_record, prune_entries, prune_record,
  prune_node_history_map, merge_node_history_records,
}
use private_deploy.Cloud.History.Entries.{prune_entries_idem}

prune_record_idem :
    (now : ℕ) (r : NodeHistoryRecord) → prune_record now (prune_record now r) ≡ prune_record now r
unfolding prune_record
prune_record_idem now r =
    rw
      (
        prune_entries_idem NodeConnectivityHistoryEntry.timestamp now r.connectivity,
        prune_entries_idem NodeSpeedHistoryEntry.timestamp now r.speed,
      )
      refl

-- What is left of a node's record, if anything.
abbrev pub visible : ℕ → NodeHistoryRecord → Option NodeHistoryRecord
visible now r = let p = prune_record now r in if is_empty_record p then none else some p

abbrev pub visible? : ℕ → Option NodeHistoryRecord → Option NodeHistoryRecord
visible? now none = none
visible? now (some r) = visible now r

-- Pruning again at the same time changes nothing.
pub prune_node_history_map_idem :
    (now : ℕ) (d : NodeHistoryMap)
    → prune_node_history_map (prune_node_history_map d now) now ≡ prune_node_history_map d now
unfolding prune_node_history_map
prune_node_history_map_idem now [] = refl
prune_node_history_map_idem now ((k, r) ∷ d) =
    elim (Bool-cases (is_empty_record (prune_record now r))) [
      | inl e ↦ rw e (prune_node_history_map_idem now d)
      | inr e ↦ rw e (
          rw (prune_record_idem now r)
            (rw e (ap (λ x. (k, prune_record now r) ∷ x) (prune_node_history_map_idem now d))))
    ]

lookup-absent :
    (k : String) (now : ℕ) (d : NodeHistoryMap)
    → one_of k (keys d) ≡ false
    → lookup k (prune_node_history_map d now) ≡ none
unfolding prune_node_history_map lookup keys
lookup-absent k now [] h = refl
lookup-absent k now ((j, r) ∷ d) h = ground (arith, lookup-absent k now d, str_eq_sym j k)

-- What the pruned map shows of a node is what is left of its record.
pub lookup-prune_node_history_map :
    (k : String) (now : ℕ) (d : NodeHistoryMap)
    → Distinct (keys d)
    → lookup k (prune_node_history_map d now) ≡ visible? now (lookup k d)
unfolding prune_node_history_map lookup keys
lookup-prune_node_history_map k now [] h = refl
lookup-prune_node_history_map k now ((j, r) ∷ d) h =
    ground (arith, lookup-absent j now d, lookup-prune_node_history_map k now d, eq_iff j k)

both_nil :
    (xs : List NodeConnectivityHistoryEntry) (ys : List NodeSpeedHistoryEntry)
    → (is_nil xs && is_nil ys) ≡ true
    → record { connectivity = xs; speed = ys } ≡ empty_history_record
both_nil [] [] e = refl
both_nil [] (y ∷ ys) e = cc
both_nil (x ∷ xs) ys e = cc

empty_record : (r : NodeHistoryRecord) → is_empty_record r ≡ true → r ≡ empty_history_record
empty_record r e = both_nil r.connectivity r.speed e

single_entry :
    (p : NodeHistoryRecord)
    → or_else
        (lookup "merged" (if is_empty_record p then [] else ("merged", p) ∷ []))
        empty_history_record
      ≡ p
unfolding lookup
single_entry p = elim (Bool-cases (is_empty_record p)) [
  | inl e ↦ rw e (sym (empty_record p e))
  | inr e ↦ rw e refl
]

-- Merging prunes the entries of both records together, those of the first before those of the
-- second where the times agree.
pub merge_node_history_records-prune_entries :
    (a b : Option NodeHistoryRecord) (now : ℕ)
    → merge_node_history_records a b now ≡ record {
      connectivity =
          prune_entries NodeConnectivityHistoryEntry.timestamp
            ((clone_history_record a).connectivity ++ (clone_history_record b).connectivity)
            now;
      speed =
          prune_entries NodeSpeedHistoryEntry.timestamp
            ((clone_history_record a).speed ++ (clone_history_record b).speed)
            now;
    }
unfolding merge_node_history_records prune_record prune_node_history_map lookup
merge_node_history_records-prune_entries a b now = single_entry (
    prune_record now (record {
      connectivity = (clone_history_record a).connectivity ++ (clone_history_record b).connectivity;
      speed = (clone_history_record a).speed ++ (clone_history_record b).speed;
    }))

keys-prune_absent :
    (k : String) (now : ℕ) (d : NodeHistoryMap)
    → one_of k (keys d) ≡ false
    → one_of k (keys (prune_node_history_map d now)) ≡ false
unfolding prune_node_history_map keys
keys-prune_absent k now [] h = refl
keys-prune_absent k now ((j, r) ∷ d) h = ground (arith, keys-prune_absent k now d)

pub Distinct-keys-prune :
    (now : ℕ) (d : NodeHistoryMap)
    → Distinct (keys d)
    → Distinct (keys (prune_node_history_map d now))
unfolding prune_node_history_map keys
Distinct-keys-prune now [] h = tt
Distinct-keys-prune now ((j, r) ∷ d) h =
    ground (arith, Distinct-keys-prune now d, keys-prune_absent j now d)
