-- ===== src/Cloud/Subscription/Repair.antt =====
-- How the repair of `applyAllNodesToProfile` and the reload behind it end.
use private_deploy.Base.{
  true≢false, some, ◌≡◌, refl, sym, ap, ◌∙◌, subst, ◌⊎◌, inl, inr, Bool, true, false, Option, List,
  [], ◌∷◌, length, leb, ltb, not, ◌&&◌, if_cases, arith, Outcome, ok, threw, Bool-cases, String,
}
use private_deploy.Cloud.Ids.{ProtocolHealthMap}
use private_deploy.Cloud.Nodes.{CloudNode}
use private_deploy.Cloud.Subscription.Calls.{caught_run}
use private_deploy.Cloud.Subscription.Apply.{
  Progress, finished, failed, waiting, StoredProfile, ApplyStore, ApplyDeps, then_run, return,
  lifted, call, is_profile, edit_profiles, replace_profile,
}
use private_deploy.Cloud.Subscription.Edits.{saved_edit}
use private_deploy.Cloud.Subscription.Edited.{waits, edits_in_turn, edit_profiles-in_turn}
use private_deploy.Cloud.Subscription.Probe.{
  rerouted, profiles_to_reroute, reroute, sync_managed_cloud_profiles,
}
use private_deploy.Cloud.Subscription.ApplyAll.{NodeCalls, was_repaired, reload_after, repair}
use private_deploy.Cloud.Subscription.Stored.{replace_profile-with_first}
use private_deploy.Stores.Lists.Changes.{with_first}

length-with_first :
    (q : StoredProfile → Bool) (p : StoredProfile) (ps : List StoredProfile)
    → length (with_first q (p ∷ []) ps) ≡ length ps
length-with_first q p [] = refl
length-with_first q p (x ∷ ps) = elim (Bool-cases (q x)) [
  | inl e ↦ rw e refl
  | inr e ↦ rw e (rw (length-with_first q p ps) refl)
]

length-replace_profile :
    (p : StoredProfile) (ps : List StoredProfile) → length (replace_profile p ps).0 ≡ length ps
length-replace_profile p ps =
    ap length (replace_profile-with_first p ps) ∙ length-with_first (is_profile p.id) p ps

-- Edits wait for ever only where there are several, and keep the number of profiles then.
abbrev EditsWait :
    {W : Type 0}
    → Bool
    → List StoredProfile
    → ApplyStore W
    → Progress (Unit {0}) × ApplyStore W
    → Type 0
EditsWait alone ps s (finished u, t) = Unit
EditsWait alone ps s (failed e, t) = Unit
EditsWait alone ps s (waiting, t) =
    (length t.profiles ≡ length s.profiles) × (alone ≡ false ⊎ leb 2 (length ps) ≡ true)

-- A call that waits for ever leaves at least two profiles.
abbrev pub WaitsForTwo : {W A : Type 0} → Progress A × ApplyStore W → Type 0
WaitsForTwo (finished u, t) = Unit
WaitsForTwo (failed e, t) = Unit
WaitsForTwo (waiting, t) = leb 2 (length t.profiles) ≡ true

module _ {W : Type 0} (deps : ApplyDeps W) where
  saved-EditsWait :
      (alone : Bool) (p : StoredProfile) (b : Option StoredProfile) (s t : ApplyStore W)
      (r : Outcome (Unit {0}) × W)
      → length t.profiles ≡ length s.profiles
      → EditsWait alone
          (p ∷ [])
          s
          (waits alone (saved_edit (some (record { id = p.id; backup = b })) t r))
  saved-EditsWait true p b s t (ok u, w) h = tt
  saved-EditsWait false p b s t (ok u, w) h = (h, inl refl)
  saved-EditsWait true p b s t (threw e, w) h = tt
  saved-EditsWait false p b s t (threw e, w) h = tt

  widen-EditsWait :
      (alone : Bool) (p q : StoredProfile) (ps : List StoredProfile) (s t : ApplyStore W)
      (r : Progress (Unit {0}) × ApplyStore W)
      → length t.profiles ≡ length s.profiles
      → EditsWait false (q ∷ ps) t r
      → EditsWait alone (p ∷ (q ∷ ps)) s r
  widen-EditsWait alone p q ps s t (finished u, v) h k = tt
  widen-EditsWait alone p q ps s t (failed e, v) h k = tt
  widen-EditsWait alone p q ps s t (waiting, v) h k = (k.0 ∙ h, inr (ground arith))

  in_turn-EditsWait :
      (alone : Bool) (ps : List StoredProfile) (s : ApplyStore W)
      → EditsWait alone ps s (edits_in_turn deps alone ps s)
  in_turn-EditsWait alone [] s = tt
  in_turn-EditsWait alone (p ∷ []) s =
      saved-EditsWait alone p _ s (record s { profiles = (replace_profile p s.profiles).0 }) _
        (length-replace_profile p s.profiles)
  in_turn-EditsWait alone (p ∷ (q ∷ ps)) s =
      widen-EditsWait alone p q ps s (record s { profiles = (replace_profile p s.profiles).0 }) _
        (length-replace_profile p s.profiles)
        (in_turn-EditsWait false (q ∷ ps)
          (record s { profiles = (replace_profile p s.profiles).0 }))

  edit_profiles-EditsWait :
      (ps : List StoredProfile) (s : ApplyStore W) → EditsWait true ps s (edit_profiles deps ps s)
  edit_profiles-EditsWait ps s =
      subst (EditsWait true ps s) (sym (edit_profiles-in_turn deps ps s))
        (in_turn-EditsWait true ps s)

  length-profiles_to_reroute :
      (health : ProtocolHealthMap) (ps : List StoredProfile)
      → leb (length (profiles_to_reroute deps health ps)) (length ps) ≡ true
  unfolding profiles_to_reroute
  length-profiles_to_reroute health [] = refl
  length-profiles_to_reroute health (p ∷ ps) =
      elim (Bool-cases (deps.same_json (rerouted deps health p).profile p.profile)) [
        | inl e ↦ rw e (ground (arith, length-profiles_to_reroute health ps))
        | inr e ↦ rw e (ground (arith, length-profiles_to_reroute health ps))
      ]

  reload-WaitsForTwo :
      (t : ApplyStore W) (r : Outcome (Unit {0}) × W)
      → WaitsForTwo (then_run (λ _. return true) (lifted t r))
  reload-WaitsForTwo t (ok u, w) = tt
  reload-WaitsForTwo t (threw e, w) = tt

  edited-WaitsForTwo :
      (reason : String) (ps : List StoredProfile) (s : ApplyStore W)
      (r : Progress (Unit {0}) × ApplyStore W)
      → leb (length ps) (length s.profiles) ≡ true
      → EditsWait true ps s r
      → WaitsForTwo
          (then_run (λ _. return true) (then_run (λ _. call (deps.reload_kernel reason)) r))
  edited-WaitsForTwo reason ps s (finished u, t) l h = reload-WaitsForTwo t _
  edited-WaitsForTwo reason ps s (failed e, t) l h = tt
  edited-WaitsForTwo reason ps s (waiting, t) l (q, inl e) = absurd (true≢false e)
  edited-WaitsForTwo reason ps s (waiting, t) l (q, inr e) = rw q (ground arith)

  reroute-WaitsForTwo :
      (reason : String) (ps : List StoredProfile) (s : ApplyStore W)
      → leb (length ps) (length s.profiles) ≡ true
      → WaitsForTwo (reroute deps reason ps s)
  reroute-WaitsForTwo reason [] s l = tt
  reroute-WaitsForTwo reason (p ∷ ps) s l =
      edited-WaitsForTwo reason (p ∷ ps) s _ l (edit_profiles-EditsWait (p ∷ ps) s)

-- A handler that ends with the value, or waits for ever with at least two profiles.
abbrev pub Resolves : {W A : Type 0} → A → Progress A × ApplyStore W → Type 0
Resolves a (finished b, t) = b ≡ a
Resolves a (failed e, t) = ⊥
Resolves a (waiting, t) = leb 2 (length t.profiles) ≡ true

module _ {W : Type 0} (deps : ApplyDeps W) (calls : NodeCalls W) (candidates : List CloudNode) where
  reload_after-Resolves :
      (applied : List String) (repaired : Bool) (s : ApplyStore W)
      → Resolves applied
          (then_run (λ _. return applied) (reload_after deps calls candidates applied repaired s))
  reload_after-Resolves [] true s = refl
  reload_after-Resolves [] false s =
      if_cases (not (deps.running s.world) && ltb 0 (length candidates))
        (λ (r : Progress (Unit {0}) × ApplyStore W).
          Resolves {A = List String} [] (then_run (λ _. return []) r))
        (λ _. refl) (λ _. refl)
  reload_after-Resolves (i ∷ is) true s = refl
  reload_after-Resolves (i ∷ is) false s = refl

  repaired-Resolves :
      (applied : List String) (r : Progress Bool × ApplyStore W)
      → WaitsForTwo r
      → Resolves applied (
          then_run
            (λ b t. then_run (λ _. return applied) (reload_after deps calls candidates applied b t))
            (then_run (λ o. return (was_repaired deps calls o)) (caught_run r)))
  repaired-Resolves applied (finished b, t) h = reload_after-Resolves applied b t
  repaired-Resolves applied (failed e, t) h = reload_after-Resolves applied false t
  repaired-Resolves applied (waiting, t) h = h

  pub repair-Resolves :
      (applied : List String) (s : ApplyStore W)
      → Resolves applied (
          then_run
            (λ b t. then_run (λ _. return applied) (reload_after deps calls candidates applied b t))
            (repair deps calls s))
  unfolding sync_managed_cloud_profiles
  repair-Resolves applied s = repaired-Resolves applied _ (
      reroute-WaitsForTwo deps "apply-all-nodes-repair" _ s
        (length-profiles_to_reroute deps s.protocol_health s.profiles))
