-- ===== src/Cloud/Subscription/Bases.antt =====
-- The profile that a node is applied to, and that its rules name outbounds that it has.
use private_deploy.Base.{
  true≢false, ◌≡◌, refl, sym, ap, ◌∙◌, subst, Bool, true, false, inl, inr, Option, none, some, List,
  [], ◌∷◌, map, any, All, String, str_eq, eq_iff, arith, Bool-cases, if◌then◌else◌, if_cases,
}
use private_deploy.Cloud.SmartRouting.{IProxy, IOutbound, IRule, IProfile, has_outbound}
use private_deploy.Cloud.SmartRouting.Outbounds.{Has, has-append}
use private_deploy.Cloud.SmartRouting.Closed.{is_closed, RulesClosed, RulesClosed-mono}
use private_deploy.Cloud.Subscription.Defaults.{default_outbounds, default_rules, default_profile}
use private_deploy.Cloud.Subscription.Profiles.{
  append_proxy, is_type, new_outbound, offer, offer_subscription,
}
use private_deploy.Cloud.Subscription.Offering.{offered, offer_subscription-Offers}
use private_deploy.Cloud.Subscription.Kept.{AllOffer}
use private_deploy.Cloud.Subscription.Stored.{IsClosedProfile}
use private_deploy.Cloud.Subscription.Calls.{get_profile_by_id}
use private_deploy.Cloud.Subscription.Apply.{
  Progress, finished, StoredProfile, ApplyStore, ApplyDeps, Handler, then_run, return,
}
use private_deploy.Cloud.Subscription.ApplyNode.{
  with_node, lacks, sample, sample_rules, new_profile, create, base_profile, sample_for,
}

-- The call returns a value with the property and changes only the world.
abbrev pub Draws : {W A : Type 0} → (A → Type 0) → ApplyStore W → Progress A × ApplyStore W → Type 0
Draws P s r = (a : _) × ((w : _) × ((r ≡ (finished a, record s { world = w })) × P a))

pub Draws-then :
    {W A B : Type 0} (P : A → Type 0) (Q : Progress B × ApplyStore W → Type 0) (f : A → Handler W B)
    (s : ApplyStore W) (r : Progress A × ApplyStore W)
    → Draws P s r
    → ((a : A) (w : W) → P a → Q (f a (record s { world = w })))
    → Q (then_run f r)
Draws-then P Q f s r (a, (w, (e, h))) k = subst (λ x. Q (then_run f x)) (sym e) (k a w h)

-- A base profile: its rules are closed, and it is stored unless it was created.
abbrev pub IsBase : {W : Type 0} → ApplyStore W → Bool × StoredProfile → Type 0
IsBase s (created, p) =
    IsClosedProfile p × (created ≡ false → get_profile_by_id p.id s.profiles ≡ some p)

has-offered :
    (id type : String) (entry : IProxy) (os : List IOutbound)
    → has_outbound id (map (offered type entry) os) ≡ has_outbound id os
unfolding append_proxy
has-offered id type entry [] = refl
has-offered id type entry (o ∷ os) = ground (arith, has-offered id type entry os)

offer-Has :
    (id type fresh tag : String) (entry : IProxy) (os : List IOutbound)
    → Has id os
    → Has id (offer type fresh tag entry os)
unfolding offer
offer-Has id type fresh tag entry os h =
    if_cases (any (is_type type) os) (λ (l : List IOutbound). Has id l)
      (λ _. has-offered id type entry os ∙ h)
      λ _. has-append id os (new_outbound type fresh tag entry) ∙ rw h refl

pub with_node-closed :
    (fresh fresh' : String) (entry : IProxy) (p : IProfile)
    → RulesClosed p.outbounds p.rules
    → RulesClosed (with_node fresh fresh' entry p).outbounds (with_node fresh fresh' entry p).rules
unfolding with_node offer_subscription
with_node-closed fresh fresh' entry p =
    RulesClosed-mono p.outbounds _ p.rules
      λ id h. offer-Has id "urltest" _ _ entry _ (offer-Has id "selector" _ _ entry p.outbounds h)

pub with_node-AllOffer :
    (fresh fresh' : String) (entry : IProxy) (p : IProfile)
    → AllOffer entry.id (with_node fresh fresh' entry p).outbounds
unfolding with_node
with_node-AllOffer fresh fresh' entry p =
    (offer_subscription-Offers fresh fresh' fresh fresh' entry p.outbounds).2

module _ {W : Type 0} (deps : ApplyDeps W) where
  sample-Draws : (s : ApplyStore W) → Draws (λ id. Unit {0}) s (sample deps s)
  sample-Draws s = (_, (_, (refl, tt)))

  sample_rules-Draws :
      (P : IRule → Type 0) (rs : List (String → IRule)) (s : ApplyStore W)
      → All (λ r. (id : String) → P (r id)) rs
      → Draws (All P) s (sample_rules deps rs s)
  unfolding sample_rules
  sample_rules-Draws P [] s h = ([], (s.world, (refl, tt)))
  sample_rules-Draws P (r ∷ rs) s h =
      let id : String = (deps.sample_id s.world).0 in
      let (rest, (w, (e, k))) = sample_rules-Draws P rs (sample deps s).1 h.1 in
      (r id ∷ rest, (w, (ap (then_run (λ l. return (r id ∷ l))) e, (h.0 id, k))))

  default_rules-closed :
      All
        (λ r. (id : String) → is_closed (default_outbounds deps.translate) (r id) ≡ true)
        default_rules
  unfolding default_outbounds default_rules
  default_rules-closed =
      (λ _. refl, (λ _. refl, (λ _. refl, (λ _. refl, (λ _. refl, (λ _. refl, tt))))))

  new_profile-Draws : (s : ApplyStore W) → Draws IsClosedProfile s (new_profile deps s)
  unfolding new_profile default_profile
  new_profile-Draws s =
      let made : List IRule → StoredProfile = λ rules. record {
        id = (deps.sample_id s.world).0;
        profile = default_profile deps.translate rules;
      } in
      Draws-then (RulesClosed (default_outbounds deps.translate)) (Draws IsClosedProfile s)
        (λ rules. return (made rules)) s _
        (sample_rules-Draws (λ r. is_closed (default_outbounds deps.translate) r ≡ true)
          default_rules (sample deps s).1 default_rules-closed)
        λ rules w h. (made rules, (w, (refl, h)))

  create-Draws : (s : ApplyStore W) → Draws (IsBase s) s (create deps s)
  create-Draws s =
      Draws-then IsClosedProfile (Draws (IsBase s) s) (λ p. return (true, p)) s (new_profile deps s)
        (new_profile-Draws s) λ p w h. (_, (w, (refl, (h, λ e. absurd (true≢false e)))))

  pub found-closed :
      (id : String) (ps : List StoredProfile) (p : StoredProfile)
      → get_profile_by_id id ps ≡ some p
      → All IsClosedProfile ps
      → IsClosedProfile p × (p.id ≡ id)
  unfolding get_profile_by_id
  found-closed id [] p h k = absurd (clash h)
    where
      clash : ◌≡◌ {A = Option StoredProfile} none (some p) → ⊥
      clash q = cc
  found-closed id (x ∷ ps) p h k = elim (Bool-cases (str_eq x.id id)) [
    | inl e ↦
        let q : x ≡ p =
          injected (subst (λ b. (if b then some x else get_profile_by_id id ps) ≡ some p) e h) in
        subst (λ y. IsClosedProfile y × (y.id ≡ id)) q (k.0, (eq_iff x.id id).0 e)
    | inr e ↦
        found-closed id ps p
          (subst (λ b. (if b then some x else get_profile_by_id id ps) ≡ some p) e h) k.1
  ]
    where
      injected : ◌≡◌ {A = Option StoredProfile} (some x) (some p) → x ≡ p
      injected q = cc

  pub base_profile-Draws :
      (o : Option StoredProfile) (s : ApplyStore W)
      → ((p : StoredProfile) → o ≡ some p → IsBase s (false, p))
      → Draws (IsBase s) s (base_profile deps o s)
  base_profile-Draws none s h = create-Draws s
  base_profile-Draws (some p) s h = elim (Bool-cases (lacks "selector" p)) [
    | inl e ↦ rw e (create-Draws s)
    | inr e ↦ rw e (_, (s.world, (refl, h p refl)))
  ]

  pub sample_for-Draws :
      (type : String) (p : StoredProfile) (s : ApplyStore W)
      → Draws (λ id. Unit {0}) s (sample_for deps type p s)
  sample_for-Draws type p s = elim (Bool-cases (lacks type p)) [
    | inl e ↦ rw e (sample-Draws s)
    | inr e ↦ rw e (_, (s.world, (refl, tt)))
  ]
