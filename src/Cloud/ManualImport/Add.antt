-- ===== src/Cloud/ManualImport/Add.antt =====
-- Adding a list of nodes.
use private_deploy.Base.{
  ℕ, suc, ◌+◌, ◌≡◌, refl, sym, ap, ◌∙◌, subst, none, List, [], ◌∷◌, ◌++◌, All, All-append, All-mono,
  length, append-nil', arith, Outcome, ok, threw,
}
use mathlib.Core.List.{append_assoc}
use private_deploy.Cloud.Nodes.{CloudNode}
use private_deploy.Cloud.ManualImport.Types.{
  ManualNodeInput, ManualNodeSkipEntry, Result, label_required, address_required, protocol_required,
  duplicate, all_skipped, other,
}
use private_deploy.Cloud.ManualImport.Store.{
  ManualStore, ManualDeps, Handler, then_run, call, lifted, sync_manual_nodes_into_instances,
  create_manual_node,
}
use private_deploy.Cloud.ManualImport.Handlers.{
  Added, skip_entry, with_added, with_skipped, add_round, add_manual_nodes_internal, connect_nodes,
  finish_adding,
}
use private_deploy.Cloud.ManualImport.Unique.{
  Apart, Unique, create_manual_node-Apart, create_manual_node-keeps,
}

Unique-append :
    (ns : List CloudNode) (node : CloudNode)
    → Unique ns
    → All (λ n. Apart n node) ns
    → Unique (ns ++ (node ∷ []))
Unique-append [] node u a = (tt, tt)
Unique-append (n ∷ ns) node u a =
    (All-append (Apart n) ns (node ∷ []) u.0 (a.0, tt), Unique-append ns node u.1 a.1)

none_made :
    (before : List CloudNode) {ns : List CloudNode}
    → ns ≡ before
    → (made : List CloudNode) × (ns ≡ before ++ made)
none_made before e = ([], e ∙ sym (append-nil' before))

module _ {W : Type 0} where
  -- The state behind a round.
  with_added-state :
      (node : CloudNode) (r : Result Added × ManualStore W) → (with_added node r).1 ≡ r.1
  with_added-state node (Result.ok (added, skipped), s) = refl
  with_added-state node (Result.failed e, s) = refl

  with_skipped-state :
      (entry : ManualNodeSkipEntry) (r : Result Added × ManualStore W)
      → (with_skipped entry r).1 ≡ r.1
  with_skipped-state entry (Result.ok (added, skipped), s) = refl
  with_skipped-state entry (Result.failed e, s) = refl

  -- The nodes behind a call of the world, and behind the synchronisation.
  pub call-manual_nodes :
      {A : Type 0} (s : ManualStore W) (r : Outcome A × W)
      → (lifted s r).1.manual_nodes ≡ s.manual_nodes
  call-manual_nodes s (ok a, w) = refl
  call-manual_nodes s (threw e, w) = refl

  pub then_run-manual_nodes :
      {A B : Type 0} (f : A → Handler W B) (r : Result A × ManualStore W) (ns : List CloudNode)
      → r.1.manual_nodes ≡ ns
      → ((a : A) (t : ManualStore W) → t.manual_nodes ≡ ns → (f a t).1.manual_nodes ≡ ns)
      → (then_run f r).1.manual_nodes ≡ ns
  then_run-manual_nodes f (Result.ok a, t) ns e h = h a t e
  then_run-manual_nodes f (Result.failed x, t) ns e h = e

  -- How the nodes grow in the loop, from `before` and over `n` inputs.
  abbrev pub Grew : List CloudNode → ℕ → Result Added × ManualStore W → Type 0
  Grew before n (Result.ok (added, skipped), t) =
      (t.manual_nodes ≡ before ++ added) × (length added + length skipped ≡ n)
  Grew before n (Result.failed e, t) = (made : List CloudNode) × (t.manual_nodes ≡ before ++ made)

  with_added-Grew :
      (before : List CloudNode) (node : CloudNode) (n : ℕ) (r : Result Added × ManualStore W)
      → Grew (before ++ (node ∷ [])) n r
      → Grew before (suc n) (with_added node r)
  with_added-Grew before node n (Result.ok (added, skipped), t) (e, k) =
      (e ∙ append_assoc before (node ∷ []) added, omega arith)
  with_added-Grew before node n (Result.failed x, t) (made, e) =
      (node ∷ made, e ∙ append_assoc before (node ∷ []) made)

  with_skipped-Grew :
      (before : List CloudNode) (entry : ManualNodeSkipEntry) (n : ℕ)
      (r : Result Added × ManualStore W)
      → Grew before n r
      → Grew before (suc n) (with_skipped entry r)
  with_skipped-Grew before entry n (Result.ok (added, skipped), t) (e, k) = (e, omega arith)
  with_skipped-Grew before entry n (Result.failed x, t) h = h

module _ {W : Type 0} (deps : ManualDeps W) where
  -- A property of the state that an added node keeps is one behind a round.
  add_round-keeps :
      (P : ManualStore W → Type 0) (rest : Handler W Added) (r : Result CloudNode × ManualStore W)
      → P r.1
      → ((node : CloudNode)
          → r.0 ≡ Result.ok node
          → P (record r.1 { manual_nodes = r.1.manual_nodes ++ (node ∷ []) }))
      → ((t : ManualStore W) → P t → P (rest t).1)
      → P (add_round deps rest r).1
  unfolding add_round
  add_round-keeps P rest (Result.ok node, s) p g h =
      subst P
        (sym (
          with_added-state node (rest (record s { manual_nodes = s.manual_nodes ++ (node ∷ []) }))))
        (h _ (g node refl))
  add_round-keeps P rest (Result.failed (duplicate c), s) p g h =
      subst P (sym (with_skipped-state (skip_entry c) (rest s))) (h s p)
  add_round-keeps P rest (Result.failed label_required, s) p g h = p
  add_round-keeps P rest (Result.failed address_required, s) p g h = p
  add_round-keeps P rest (Result.failed protocol_required, s) p g h = p
  add_round-keeps P rest (Result.failed (all_skipped es), s) p g h = p
  add_round-keeps P rest (Result.failed (other e), s) p g h = p

  abbrev pub HasUnique : ManualStore W → Type 0
  HasUnique s = Unique s.manual_nodes

  pub add_manual_nodes_internal-HasUnique :
      (inputs : List ManualNodeInput) (s : ManualStore W)
      → HasUnique s
      → HasUnique (add_manual_nodes_internal deps inputs s).1
  unfolding add_manual_nodes_internal
  add_manual_nodes_internal-HasUnique [] s u = u
  add_manual_nodes_internal-HasUnique (input ∷ inputs) s u =
      let keeps = (create_manual_node-keeps deps input s none).0 in
      add_round-keeps HasUnique (λ t. add_manual_nodes_internal deps inputs t)
        (create_manual_node deps input none s) (rw keeps u)
        (λ node e. rw keeps (
          Unique-append s.manual_nodes node u (
            All-mono _ _ s.manual_nodes (λ n a. a refl)
              (create_manual_node-Apart deps input s none node e).0)))
        (add_manual_nodes_internal-HasUnique inputs)

  pub connect_nodes-manual_nodes :
      (nodes : List CloudNode) (s : ManualStore W)
      → (connect_nodes deps nodes s).manual_nodes ≡ s.manual_nodes
  unfolding connect_nodes
  connect_nodes-manual_nodes [] s = refl
  connect_nodes-manual_nodes (node ∷ nodes) s = connect_nodes-manual_nodes nodes _

  pub finish_adding-manual_nodes :
      (added : Added) (s : ManualStore W)
      → (finish_adding deps added s).1.manual_nodes ≡ s.manual_nodes
  unfolding finish_adding sync_manual_nodes_into_instances
  finish_adding-manual_nodes ([], []) s = refl
  finish_adding-manual_nodes ([], entry ∷ skipped) s = refl
  finish_adding-manual_nodes (node ∷ added, skipped) s =
      then_run-manual_nodes _ (call (deps.save_manual_nodes s.manual_nodes) s) s.manual_nodes
        (call-manual_nodes s (deps.save_manual_nodes s.manual_nodes s.world))
        (λ a t e. connect_nodes-manual_nodes (node ∷ added) t ∙ e)

  add_round-Grew :
      (before : List CloudNode) (n : ℕ) (rest : Handler W Added)
      (r : Result CloudNode × ManualStore W)
      → r.1.manual_nodes ≡ before
      → ((ns : List CloudNode) (t : ManualStore W) → t.manual_nodes ≡ ns → Grew ns n (rest t))
      → Grew before (suc n) (add_round deps rest r)
  unfolding add_round
  add_round-Grew before n rest (Result.ok node, s) e h =
      with_added-Grew before node n _ (h _ _ (ap (λ ns. ns ++ (node ∷ [])) e))
  add_round-Grew before n rest (Result.failed (duplicate c), s) e h =
      with_skipped-Grew before (skip_entry c) n _ (h _ _ e)
  add_round-Grew before n rest (Result.failed label_required, s) e h = none_made before e
  add_round-Grew before n rest (Result.failed address_required, s) e h = none_made before e
  add_round-Grew before n rest (Result.failed protocol_required, s) e h = none_made before e
  add_round-Grew before n rest (Result.failed (all_skipped es), s) e h = none_made before e
  add_round-Grew before n rest (Result.failed (other x), s) e h = none_made before e

  pub add_manual_nodes_internal-Grew :
      (inputs : List ManualNodeInput) (before : List CloudNode) (s : ManualStore W)
      → s.manual_nodes ≡ before
      → Grew before (length inputs) (add_manual_nodes_internal deps inputs s)
  unfolding add_manual_nodes_internal
  add_manual_nodes_internal-Grew [] before s e = (e ∙ sym (append-nil' before), omega arith)
  add_manual_nodes_internal-Grew (input ∷ inputs) before s e =
      add_round-Grew before (length inputs) (λ t. add_manual_nodes_internal deps inputs t)
        (create_manual_node deps input none s) ((create_manual_node-keeps deps input s none).0 ∙ e)
        (add_manual_nodes_internal-Grew inputs)
