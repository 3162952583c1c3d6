-- ===== src/Cloud/ManualImport/Adding.antt =====
-- The handler that adds a list of nodes, as a whole.
use private_deploy.Base.{ℕ, ◌+◌, ◌≡◌, refl, sym, ◌∙◌, List, [], ◌∷◌, ◌++◌, length, append-nil'}
use private_deploy.Cloud.Nodes.{CloudNode}
use private_deploy.Cloud.ManualImport.Types.{ManualNodeInput, ManualNodeSkipEntry, Result}
use private_deploy.Cloud.ManualImport.Store.{
  ManualStore, ManualDeps, then_run, call, sync_manual_nodes_into_instances, load_manual_nodes,
}
use private_deploy.Cloud.ManualImport.Handlers.{
  Added, add_manual_nodes_internal, connect_nodes, finish_adding, add_manual_nodes,
}
use private_deploy.Cloud.ManualImport.Unique.{Unique}
use private_deploy.Cloud.ManualImport.Add.{
  add_manual_nodes_internal-HasUnique, add_manual_nodes_internal-Grew, Grew, call-manual_nodes,
  connect_nodes-manual_nodes, finish_adding-manual_nodes,
}

module _ {W : Type 0} (deps : ManualDeps W) where
  finish_run-Unique :
      (r : Result Added × ManualStore W)
      → Unique r.1.manual_nodes
      → Unique (then_run (λ added. finish_adding deps added) r).1.manual_nodes
  finish_run-Unique (Result.ok added, t) u = rw (finish_adding-manual_nodes deps added t) u
  finish_run-Unique (Result.failed e, t) u = u

  load_run-Unique :
      (inputs : List ManualNodeInput) (r : Result (Unit {0}) × ManualStore W)
      → Unique r.1.manual_nodes
      → Unique
          (then_run
            (λ _ t.
              then_run
                (λ added. finish_adding deps added)
                (add_manual_nodes_internal deps inputs t))
            r).1.manual_nodes
  load_run-Unique inputs (Result.ok a, t) u =
      finish_run-Unique (add_manual_nodes_internal deps inputs t)
        (add_manual_nodes_internal-HasUnique deps inputs t u)
  load_run-Unique inputs (Result.failed e, t) u = u

  -- Where the nodes that are loaded share no label and no address, neither do they after nodes were
  -- added, whether or not the call failed.
  pub add_manual_nodes-Unique :
      (input : ManualNodeInput) (inputs : List ManualNodeInput) (s : ManualStore W)
      → Unique (load_manual_nodes deps s).1.manual_nodes
      → Unique (add_manual_nodes deps (input ∷ inputs) s).1.manual_nodes
  unfolding add_manual_nodes
  add_manual_nodes-Unique input inputs s u =
      load_run-Unique (input ∷ inputs) (load_manual_nodes deps s) u

  finished-Grew :
      (before : List CloudNode) (n : ℕ) (node : CloudNode) (added : List CloudNode)
      (skipped : List ManualNodeSkipEntry) (r : Result (Unit {0}) × ManualStore W)
      → r.1.manual_nodes ≡ before ++ (node ∷ added)
      → length (node ∷ added) + length skipped ≡ n
      → Grew before n (
          then_run
            (λ _ t. (
              Result.ok (node ∷ added, skipped),
              sync_manual_nodes_into_instances deps (connect_nodes deps (node ∷ added) t),
            ))
            r)
  unfolding sync_manual_nodes_into_instances
  finished-Grew before n node added skipped (Result.ok a, t) e k =
      (connect_nodes-manual_nodes deps (node ∷ added) t ∙ e, k)
  finished-Grew before n node added skipped (Result.failed x, t) e k = (node ∷ added, e)

  finish_run-Grew :
      (before : List CloudNode) (n : ℕ) (r : Result Added × ManualStore W)
      → Grew before n r
      → Grew before n (then_run (λ added. finish_adding deps added) r)
  unfolding finish_adding
  finish_run-Grew before n (Result.ok ([], []), t) h = h
  finish_run-Grew before n (Result.ok ([], entry ∷ skipped), t) (e, k) = ([], e)
  finish_run-Grew before n (Result.ok (node ∷ added, skipped), t) (e, k) =
      finished-Grew before n node added skipped (call (deps.save_manual_nodes t.manual_nodes) t)
        (call-manual_nodes t (deps.save_manual_nodes t.manual_nodes t.world) ∙ e) k
  finish_run-Grew before n (Result.failed x, t) h = h

  load_run-Grew :
      (inputs : List ManualNodeInput) (r : Result (Unit {0}) × ManualStore W)
      → Grew r.1.manual_nodes (length inputs) (
          then_run
            (λ _ t.
              then_run
                (λ added. finish_adding deps added)
                (add_manual_nodes_internal deps inputs t))
            r)
  load_run-Grew inputs (Result.ok a, t) =
      finish_run-Grew t.manual_nodes (length inputs) (add_manual_nodes_internal deps inputs t)
        (add_manual_nodes_internal-Grew deps inputs t.manual_nodes t refl)
  load_run-Grew inputs (Result.failed e, t) = ([], sym (append-nil' t.manual_nodes))

  -- Adding inputs leaves the nodes that were loaded in front, in their order. A call that returns
  -- puts the nodes that it reports as added behind them, in order, and reports every input as added
  -- or as skipped; a call that fails may leave new nodes behind them too.
  pub add_manual_nodes-Grew :
      (input : ManualNodeInput) (inputs : List ManualNodeInput) (s : ManualStore W)
      → Grew
          (load_manual_nodes deps s).1.manual_nodes
          (length (input ∷ inputs))
          (add_manual_nodes deps (input ∷ inputs) s)
  unfolding add_manual_nodes
  add_manual_nodes-Grew input inputs s = load_run-Grew (input ∷ inputs) (load_manual_nodes deps s)
