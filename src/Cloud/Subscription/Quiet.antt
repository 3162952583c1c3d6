-- ===== src/Cloud/Subscription/Quiet.antt =====
-- A probe that finds nothing new.
use private_deploy.Base.{
  ℕ, ◌≡◌, refl, ap, ◌∙◌, Bool, true, false, ◌||◌, List, [], ◌∷◌, All, String, if◌then◌else◌,
}
use private_deploy.Base.Dict.{Dict}
use private_deploy.Cloud.Ids.{ProtocolHealthMap}
use private_deploy.Cloud.Nodes.{CloudNode}
use private_deploy.Cloud.Subscription.Health.{Verdict, verdicts, set_protocol_health_entry}
use private_deploy.Cloud.Subscription.Repeated.{Kept}
use private_deploy.Cloud.Subscription.Apply.{
  finished, ApplyStore, ApplyDeps, then_run, load_protocol_health,
}
use private_deploy.Cloud.Subscription.Move.{store_health}
use private_deploy.Cloud.Subscription.Probe.{
  set_entry, store_verdicts, apply_if, update_protocol_health_from_connectivity,
}

module _ {W : Type 0} (deps : ApplyDeps W) where
  pub load-loaded :
      (s : ApplyStore W)
      → s.protocol_health_loaded ≡ true
      → load_protocol_health deps s ≡ (finished tt, s)
  unfolding load_protocol_health
  load-loaded s l =
      ap
        (λ b. if b then (finished tt, s) else (
          finished tt,
          record s {
            protocol_health = (deps.read_health s.world).0;
            protocol_health_loaded = true;
            world = (deps.read_health s.world).1;
          },
        ))
        l

  pub set_entry-loaded :
      (id : String) (v : Verdict) (s : ApplyStore W)
      → s.protocol_health_loaded ≡ true
      → set_entry deps id v s
        ≡ store_health deps (set_protocol_health_entry id v (deps.now s.world) s.protocol_health) s
  set_entry-loaded id v s l =
      ap
        (then_run (λ _ t.
          store_health deps (set_protocol_health_entry id v (deps.now t.world) t.protocol_health)
            t))
        (load-loaded s l)

  unchanged :
      (id : String) (v : Verdict) (now : ℕ) (health : ProtocolHealthMap)
      → Kept id health v
      → set_protocol_health_entry id v now health ≡ (false, health)
  unfolding set_protocol_health_entry
  unchanged id v now health k = rw k refl

  store_verdicts-same :
      (id : String) (vs : List Verdict) (changed : Bool) (s : ApplyStore W)
      → s.protocol_health_loaded ≡ true
      → All (Kept id s.protocol_health) vs
      → store_verdicts deps id vs changed s ≡ (finished changed, s)
  unfolding store_verdicts
  store_verdicts-same id [] changed s l h = refl
  store_verdicts-same id (v ∷ vs) changed s l h =
      ap (then_run (λ more. store_verdicts deps id vs (more || changed))) (
        set_entry-loaded id v s l
        ∙ ap (λ r. store_health deps r s) (unchanged id v (deps.now s.world) s.protocol_health h.0))
      ∙ store_verdicts-same id vs changed s l h.1

  -- A probe whose verdicts are what is kept of the node changes nothing: no file is written, no
  -- profile edited and no kernel reloaded.
  pub update_protocol_health_from_connectivity-same :
      (node : CloudNode) (target_status : Dict String) (s : ApplyStore W)
      → s.protocol_health_loaded ≡ true
      → All (Kept node.instance_id s.protocol_health) (verdicts node target_status)
      → update_protocol_health_from_connectivity deps node target_status s ≡ (finished tt, s)
  unfolding update_protocol_health_from_connectivity
  update_protocol_health_from_connectivity-same node target_status s l h =
      ap
        (then_run (λ _ t.
          then_run (apply_if deps node)
            (store_verdicts deps node.instance_id (verdicts node target_status) false t)))
        (load-loaded s l)
      ∙ ap (then_run (apply_if deps node))
          (store_verdicts-same node.instance_id (verdicts node target_status) false s l h)
