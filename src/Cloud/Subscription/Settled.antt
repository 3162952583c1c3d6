-- ===== src/Cloud/Subscription/Settled.antt =====
-- What a probe leaves of the health.
use private_deploy.Base.{
  true≢false, ℕ, ◌≡◌, refl, sym, subst, Bool, true, false, ◌||◌, inl, inr, List, [], ◌∷◌, map, All,
  String, one_of, Distinct, Outcome, ok, threw, arith, eq_iff, Bool-cases,
}
use private_deploy.Base.Dict.{Dict, lookup}
use private_deploy.Cloud.Ids.{ProtocolHealthMap}
use private_deploy.Cloud.Nodes.{CloudNode}
use private_deploy.Cloud.Subscription.Health.{
  Verdict, verdicts, entry_of, agrees, set_protocol_health_entry,
}
use private_deploy.Cloud.Subscription.Repeated.{
  Kept, protocol_of, set_protocol_health_entry-Kept, set_protocol_health_entry-keeps,
  verdicts-Distinct,
}
use private_deploy.Cloud.Subscription.Apply.{
  Progress, finished, failed, waiting, ApplyStore, ApplyDeps, Handler, then_run, lifted, return,
}
use private_deploy.Cloud.Subscription.Move.{store_health}
use private_deploy.Cloud.Subscription.Probe.{
  set_entry, store_verdicts, update_protocol_health_from_connectivity,
}
use private_deploy.Cloud.Subscription.Quiet.{
  set_entry-loaded, update_protocol_health_from_connectivity-same,
}

-- The health has `P` and has been loaded, where the call returned.
abbrev pub Holds :
    {W A : Type 0} → (ProtocolHealthMap → Type 0) → Progress A × ApplyStore W → Type 0
Holds P (finished a, s) = P s.protocol_health × (s.protocol_health_loaded ≡ true)
Holds P (failed e, s) = Unit
Holds P (waiting, s) = Unit

then-Holds :
    {W A B : Type 0} (P Q : ProtocolHealthMap → Type 0) (f : A → Handler W B)
    (r : Progress A × ApplyStore W)
    → Holds P r
    → ((a : A) (t : ApplyStore W)
        → P t.protocol_health
        → t.protocol_health_loaded ≡ true
        → Holds Q (f a t))
    → Holds Q (then_run f r)
then-Holds P Q f (finished a, t) h k = k a t h.0 h.1
then-Holds P Q f (failed e, t) h k = tt
then-Holds P Q f (waiting, t) h k = tt

both-Holds :
    {W A : Type 0} (P Q : ProtocolHealthMap → Type 0) (r : Progress A × ApplyStore W)
    → Holds P r
    → Holds Q r
    → Holds (λ h. P h × Q h) r
both-Holds P Q (finished a, t) p q = ((p.0, q.0), p.1)
both-Holds P Q (failed e, t) p q = tt
both-Holds P Q (waiting, t) p q = tt

-- Where the call returned, a probe with the same result changes nothing.
abbrev pub Settles :
    {W A : Type 0} → ApplyDeps W → CloudNode → Dict String → Progress A × ApplyStore W → Type 0
Settles deps node target_status (finished a, s) =
    update_protocol_health_from_connectivity deps node target_status s ≡ (finished tt, s)
Settles deps node target_status (failed e, s) = Unit
Settles deps node target_status (waiting, s) = Unit

module _ {W : Type 0} (deps : ApplyDeps W) where
  saved-Holds :
      (P : ProtocolHealthMap → Type 0) (t : ApplyStore W) (r : Outcome (Unit {0}) × W)
      → P t.protocol_health
      → t.protocol_health_loaded ≡ true
      → Holds P (then_run (λ _. return true) (lifted t r))
  saved-Holds P t (ok u, w) p l = (p, l)
  saved-Holds P t (threw e, w) p l = tt

  store_health-Holds :
      (P : ProtocolHealthMap → Type 0) (r : Bool × ProtocolHealthMap) (s : ApplyStore W)
      → s.protocol_health_loaded ≡ true
      → (r.0 ≡ false → r.1 ≡ s.protocol_health)
      → P r.1
      → Holds P (store_health deps r s)
  store_health-Holds P (false, health) s l h p = (subst P (h refl) p, l)
  store_health-Holds P (true, health) s l h p =
      saved-Holds P (record s { protocol_health = health }) (deps.save_health health s.world) p l

  unchanged_health :
      (id : String) (v : Verdict) (now : ℕ) (health : ProtocolHealthMap)
      → (set_protocol_health_entry id v now health).0 ≡ false
      → (set_protocol_health_entry id v now health).1 ≡ health
  unfolding set_protocol_health_entry
  unchanged_health id v now health h =
      elim (Bool-cases (agrees v (lookup v.protocol (entry_of id health)))) [
        | inl e ↦ rw e refl
        | inr e ↦ absurd (true≢false (rw e at h))
      ]

  set_entry-Holds :
      (P : ProtocolHealthMap → Type 0) (id : String) (v : Verdict) (s : ApplyStore W)
      → s.protocol_health_loaded ≡ true
      → P (set_protocol_health_entry id v (deps.now s.world) s.protocol_health).1
      → Holds P (set_entry deps id v s)
  set_entry-Holds P id v s l p = subst (Holds P) (sym (set_entry-loaded deps id v s l)) (
      store_health-Holds P (set_protocol_health_entry id v (deps.now s.world) s.protocol_health) s l
        (unchanged_health id v (deps.now s.world) s.protocol_health) p)

  store_verdicts-keeps :
      (id : String) (vs : List Verdict) (u : Verdict) (changed : Bool) (s : ApplyStore W)
      → s.protocol_health_loaded ≡ true
      → one_of u.protocol (map protocol_of vs) ≡ false
      → Kept id s.protocol_health u
      → Holds (λ h. Kept id h u) (store_verdicts deps id vs changed s)
  unfolding store_verdicts
  store_verdicts-keeps id [] u changed s l d k = (k, l)
  store_verdicts-keeps id (v ∷ vs) u changed s l d k =
      then-Holds (λ h. Kept id h u) (λ h. Kept id h u)
        (λ more. store_verdicts deps id vs (more || changed)) (set_entry deps id v s)
        (set_entry-Holds (λ h. Kept id h u) id v s l
          (set_protocol_health_entry-keeps id v u (deps.now s.world) s.protocol_health
            (ground (arith, eq_iff v.protocol u.protocol, eq_iff u.protocol v.protocol)) k))
        (λ more t k' l'. store_verdicts-keeps id vs u (more || changed) t l' (ground arith) k')

  store_verdicts-Holds :
      (id : String) (vs : List Verdict) (changed : Bool) (s : ApplyStore W)
      → s.protocol_health_loaded ≡ true
      → Distinct (map protocol_of vs)
      → Holds (λ h. All (Kept id h) vs) (store_verdicts deps id vs changed s)
  unfolding store_verdicts
  store_verdicts-Holds id [] changed s l d = (tt, l)
  store_verdicts-Holds id (v ∷ vs) changed s l d =
      then-Holds (λ h. Kept id h v) (λ h. All (Kept id h) (v ∷ vs))
        (λ more. store_verdicts deps id vs (more || changed)) (set_entry deps id v s)
        (set_entry-Holds (λ h. Kept id h v) id v s l
          (set_protocol_health_entry-Kept id v (deps.now s.world) s.protocol_health))
        (λ more t k l'.
          both-Holds (λ h. Kept id h v) (λ h. All (Kept id h) vs)
            (store_verdicts deps id vs (more || changed) t)
            (store_verdicts-keeps id vs v (more || changed) t l' d.0 k)
            (store_verdicts-Holds id vs (more || changed) t l' d.1))

  -- Once the verdicts of a probe were stored, a probe of the node with the same targets reached changes
  -- nothing: no file is written, no profile edited and no kernel reloaded for it.
  pub store_verdicts-Settles :
      (node : CloudNode) (target_status : Dict String) (s : ApplyStore W)
      → s.protocol_health_loaded ≡ true
      → Settles deps node target_status
          (store_verdicts deps node.instance_id (verdicts node target_status) false s)
  store_verdicts-Settles node target_status s l =
      settled (store_verdicts deps node.instance_id (verdicts node target_status) false s) (
        store_verdicts-Holds node.instance_id (verdicts node target_status) false s l
          (verdicts-Distinct node target_status))
    where
      settled :
          (r : Progress Bool × ApplyStore W)
          → Holds (λ h. All (Kept node.instance_id h) (verdicts node target_status)) r
          → Settles deps node target_status r
      settled (finished a, t) h =
          update_protocol_health_from_connectivity-same deps node target_status t h.1 h.0
      settled (failed e, t) h = tt
      settled (waiting, t) h = tt
