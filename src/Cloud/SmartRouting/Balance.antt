-- ===== src/Cloud/SmartRouting/Balance.antt =====
-- `injectLoadBalanceConfig`: frontend/src/stores/cloud/smartRouting.ts. `I` and `R` are the inbounds
-- and the rules that the configuration had.
use private_deploy.Base.{
  ℕ, suc, ◌+◌, ◌<◌, ltb, ◌≡◌, refl, ◌∙◌, ap, sym, subst, append-nil', ltb→lt, Bool-cases, ◌⊎◌, Bool,
  ◌&&◌, ◌||◌, not, inl, inr, Option, none, some, List, [], ◌∷◌, ◌++◌, length, String, ◌<>◌, str_eq,
  is_empty, starts_with, show, if◌then◌else◌, arith,
}

-- `s.endsWith(t)`
unfoldable pub ends_with : String → String → Bool
ends_with String.[] t = is_empty t
ends_with (String.◌∷◌ c s) t = str_eq (String.◌∷◌ c s) t || ends_with s t

pub data ConfigInbound (I : Type 0) : Type 0 where
  other_inbound : I → ConfigInbound I
  -- The tag and the port of a SOCKS inbound on 127.0.0.1.
  socks_inbound : String → ℕ → ConfigInbound I

pub data ConfigRule (R : Type 0) : Type 0 where
  other_rule : R → ConfigRule R
  -- From the inbound with the tag to the outbound.
  inbound_rule : String → String → ConfigRule R

pub record SingBoxConfig (I R : Type 0) : Type 0 where
  pub outbound_tags : List (Option String)
  pub inbounds : List (ConfigInbound I)
  pub rules : List (ConfigRule R)

abbrev pub is_node_tag : String → Bool
is_node_tag tag =
    not (is_empty tag) && (starts_with tag "Cloud Node " && ends_with tag " Best Auto")

unfoldable pub node_outbound_tags : List (Option String) → List String
node_outbound_tags [] = []
node_outbound_tags (none ∷ tags) = node_outbound_tags tags
node_outbound_tags (some tag ∷ tags) =
    let rest = node_outbound_tags tags in if is_node_tag tag then tag ∷ rest else rest

abbrev pub inbound_tag : ℕ → String
inbound_tag i = "lb-node-" <> show i

module _ {I R : Type 0} (base_port : ℕ) where
  -- The body of the loop: an inbound at the end and a rule in front.
  abbrev pub inject_node : ℕ → String → SingBoxConfig I R → SingBoxConfig I R
  inject_node i tag config = record config {
    inbounds = config.inbounds ++ (socks_inbound (inbound_tag i) (base_port + i) ∷ []);
    rules = inbound_rule (inbound_tag i) tag ∷ config.rules;
  }

  -- The loop from the index `i`: the ports and the configuration.
  unfoldable pub inject_nodes : ℕ → List String → SingBoxConfig I R → List ℕ × SingBoxConfig I R
  inject_nodes i [] config = ([], config)
  inject_nodes i (tag ∷ tags) config =
      let (ports, config') = inject_nodes (suc i) tags (inject_node i tag config) in
      ((base_port + i) ∷ ports, config')

  unfoldable pub inject_load_balance_config : SingBoxConfig I R → List ℕ × SingBoxConfig I R
  unfolding inject_nodes node_outbound_tags
  inject_load_balance_config config =
      let tags = node_outbound_tags config.outbound_tags in
      if ltb (length tags) 2 then ([], config) else inject_nodes 0 tags config

-- The inbounds for a list of ports, from the index `i`.
abbrev pub listeners : {I : Type 0} → ℕ → List ℕ → List (ConfigInbound I)
listeners i [] = []
listeners i (p ∷ ps) = socks_inbound (inbound_tag i) p ∷ listeners (suc i) ps

-- The rules for a list of outbounds, the last one in front.
abbrev pub routes : {R : Type 0} → ℕ → List String → List (ConfigRule R) → List (ConfigRule R)
routes i [] rules = rules
routes i (tag ∷ tags) rules = routes (suc i) tags (inbound_rule (inbound_tag i) tag ∷ rules)

-- The ports are the ones from `p` on, without a gap.
abbrev pub Consecutive : ℕ → List ℕ → Type 0
Consecutive p [] = Unit
Consecutive p (q ∷ ps) = (q ≡ p) × Consecutive (suc p) ps

next_port : (b i : ℕ) → b + suc i ≡ suc (b + i)
next_port b i = omega arith

append_one :
    {A : Type 0} (xs : List A) (y : A) (ys : List A) → (xs ++ (y ∷ [])) ++ ys ≡ xs ++ (y ∷ ys)
append_one [] y ys = refl
append_one (x ∷ xs) y ys = ap (λ l. x ∷ l) (append_one xs y ys)

module _ {I R : Type 0} (base_port : ℕ) where
  pub inject_nodes-lem :
      (i : ℕ) (tags : List String) (config : SingBoxConfig I R)
      → let r : List ℕ × SingBoxConfig I R = inject_nodes base_port i tags config in
        (length r.0 ≡ length tags)
        × Consecutive (base_port + i) r.0
        × (r.1.inbounds ≡ config.inbounds ++ listeners i r.0)
        × (r.1.rules ≡ routes i tags config.rules)
  unfolding inject_nodes
  inject_nodes-lem i [] config = (refl, tt, sym (append-nil' config.inbounds), refl)
  inject_nodes-lem i (tag ∷ tags) config =
      let (l, c, n, r) = inject_nodes-lem (suc i) tags (inject_node base_port i tag config) in
      (
        ap suc l,
        (
          refl,
          subst
              (λ p.
                Consecutive p
                  (inject_nodes base_port (suc i) tags (inject_node base_port i tag config)).0)
              (next_port base_port i) c,
        ),
        n ∙ append_one config.inbounds (socks_inbound (inbound_tag i) (base_port + i)) _,
        r,
      )

  -- Where the configuration has two nodes or more, the ports count up from the first one, one for
  -- each node; every port gets a listener behind the other inbounds, and every listener a rule to
  -- its node in front of the other rules. With fewer nodes there are no ports and nothing changes.
  pub inject_load_balance_config-listeners :
      (config : SingBoxConfig I R)
      → let tags : List String = node_outbound_tags config.outbound_tags in
        let r : List ℕ × SingBoxConfig I R = inject_load_balance_config base_port config in
        (r ≡ ([], config) × (length tags < 2))
        ⊎ ((length r.0 ≡ length tags)
            × Consecutive (base_port + 0) r.0
            × (r.1.inbounds ≡ config.inbounds ++ listeners 0 r.0)
            × (r.1.rules ≡ routes 0 tags config.rules))
  unfolding inject_load_balance_config
  inject_load_balance_config-listeners config =
      let tags : List String = node_outbound_tags config.outbound_tags in
      elim (Bool-cases (ltb (length tags) 2)) [
        | inl e ↦ inl (rw e refl, ltb→lt (length tags) 2 e)
        | inr e ↦ inr (rw e (inject_nodes-lem 0 tags config))
      ]
