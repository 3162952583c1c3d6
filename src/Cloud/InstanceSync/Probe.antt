-- ===== src/Cloud/InstanceSync/Probe.antt =====
-- The probe of a node's ports: `buildConnectivityProbe` and `addUniquePort`.
use private_deploy.Base.{
  ℕ, zero, suc, ◌≡◌, refl, Bool, true, false, ◌||◌, ◌==◌, inl, inr, Option, none, some, List, [],
  ◌∷◌, ◌++◌, String, arith, if◌then◌else◌, All, All-append, Bool-cases,
}

abbrev pub has_port : ℕ → List ℕ → Bool
has_port port [] = false
has_port port (p ∷ ps) = p == port || has_port port ps

unfoldable pub add_unique_port : List ℕ → ℕ → List ℕ
add_unique_port target zero = target
add_unique_port target (suc n) = if has_port (suc n) target then target else target ++ (suc n ∷ [])

-- The transport layer of a target.
pub data Network : Type 0 where
  tcp : Network
  udp : Network

pub record ProbeTarget : Type 0 where
  pub name : String
  pub port : ℕ
  pub network : Network

pub record ConnectivityProbeRequest : Type 0 where
  pub tcp_ports : List ℕ
  pub udp_ports : List ℕ
  pub targets : List ProbeTarget
  pub probe_icmp : Bool
  pub tcp_timeout_ms : ℕ
  pub udp_timeout_ms : ℕ

abbrev no_targets : ConnectivityProbeRequest
no_targets = record {
  tcp_ports = [];
  udp_ports = [];
  targets = [];
  probe_icmp = true;
  tcp_timeout_ms = 3000;
  udp_timeout_ms = 1800;
}

-- `addUniquePort(…)` and `targets.push(…)`
unfoldable pub add_target :
    String → Network → ℕ → ConnectivityProbeRequest → ConnectivityProbeRequest
unfolding add_unique_port
add_target name tcp port r = record r {
  tcp_ports = add_unique_port r.tcp_ports port;
  targets = r.targets ++ (record { name = name; port = port; network = tcp } ∷ []);
}
add_target name udp port r = record r {
  udp_ports = add_unique_port r.udp_ports port;
  targets = r.targets ++ (record { name = name; port = port; network = udp } ∷ []);
}

-- Under `if (port)`.
unfoldable pub add_if :
    String → Network → Option ℕ → ConnectivityProbeRequest → ConnectivityProbeRequest
unfolding add_target
add_if name network none r = r
add_if name network (some zero) r = r
add_if name network (some (suc n)) r = add_target name network (suc n) r

-- The ports of a node, in the order of its protocols.
unfoldable pub build_connectivity_probe :
    Option ℕ → Option ℕ → Option ℕ → Option ℕ → ConnectivityProbeRequest
build_connectivity_probe ss hysteria vless trojan = add_if "trojan" tcp trojan (
    add_if "vless-reality" tcp vless (
      add_if "hysteria2" udp hysteria
        (add_if "shadowsocks-udp" udp ss (add_if "shadowsocks-tcp" tcp ss no_targets))))

abbrev pub DistinctPorts : List ℕ → Type 0
DistinctPorts [] = Unit
DistinctPorts (p ∷ ps) = (has_port p ps ≡ false) × DistinctPorts ps

abbrev pub ports_for : Network → ConnectivityProbeRequest → List ℕ
ports_for tcp r = r.tcp_ports
ports_for udp r = r.udp_ports

-- The ports are distinct, and every target has a port of its network.
abbrev pub WellFormed : ConnectivityProbeRequest → Type 0
WellFormed r =
    DistinctPorts r.tcp_ports
    × (DistinctPorts r.udp_ports
        × All (λ t. has_port t.port (ports_for t.network r) ≡ true) r.targets)

has_port-append :
    (q : ℕ) (ps qs : List ℕ) → has_port q (ps ++ qs) ≡ (has_port q ps || has_port q qs)
has_port-append q [] qs = refl
has_port-append q (p ∷ ps) qs = ground (arith, has_port-append q ps qs)

DistinctPorts-push :
    (ps : List ℕ) (n : ℕ)
    → DistinctPorts ps
    → has_port n ps ≡ false
    → DistinctPorts (ps ++ (n ∷ []))
DistinctPorts-push [] n h e = (refl, tt)
DistinctPorts-push (p ∷ ps) n h e =
    ground (arith, has_port-append p ps (n ∷ []), DistinctPorts-push ps n)

add_unique_port-Distinct :
    (ps : List ℕ) (n : ℕ) → DistinctPorts ps → DistinctPorts (add_unique_port ps n)
unfolding add_unique_port
add_unique_port-Distinct ps zero h = h
add_unique_port-Distinct ps (suc n) h = elim (Bool-cases (has_port (suc n) ps)) [
  | inl e ↦ rw e h
  | inr e ↦ rw e (DistinctPorts-push ps (suc n) h e)
]

add_unique_port-keeps :
    (ps : List ℕ) (n q : ℕ) → has_port q ps ≡ true → has_port q (add_unique_port ps n) ≡ true
unfolding add_unique_port
add_unique_port-keeps ps zero q h = h
add_unique_port-keeps ps (suc n) q h = ground (arith, has_port-append q ps (suc n ∷ []))

add_unique_port-has : (ps : List ℕ) (n : ℕ) → has_port (suc n) (add_unique_port ps (suc n)) ≡ true
unfolding add_unique_port
add_unique_port-has ps n = ground (arith, has_port-append (suc n) ps (suc n ∷ []))

has_port-add_target :
    (name : String) (n m : Network) (port q : ℕ) (r : ConnectivityProbeRequest)
    → has_port q (ports_for m r) ≡ true
    → has_port q (ports_for m (add_target name n port r)) ≡ true
unfolding add_target
has_port-add_target name tcp tcp port q r h = add_unique_port-keeps r.tcp_ports port q h
has_port-add_target name tcp udp port q r h = h
has_port-add_target name udp tcp port q r h = h
has_port-add_target name udp udp port q r h = add_unique_port-keeps r.udp_ports port q h

abbrev HasTargets : ConnectivityProbeRequest → List ProbeTarget → Type 0
HasTargets r ts = All (λ t. has_port t.port (ports_for t.network r) ≡ true) ts

HasTargets-add_target :
    (name : String) (n : Network) (port : ℕ) (r : ConnectivityProbeRequest) (ts : List ProbeTarget)
    → HasTargets r ts
    → HasTargets (add_target name n port r) ts
HasTargets-add_target name n port r [] h = tt
HasTargets-add_target name n port r (t ∷ ts) h = (
  has_port-add_target name n t.network port t.port r h.0,
  HasTargets-add_target name n port r ts h.1,
)

add_target-WellFormed :
    (name : String) (n : Network) (port : ℕ) (r : ConnectivityProbeRequest)
    → WellFormed r
    → WellFormed (add_target name n (suc port) r)
unfolding add_target
add_target-WellFormed name tcp port r (t, (u, a)) = (
  add_unique_port-Distinct r.tcp_ports (suc port) t,
  (
    u,
    All-append _ r.targets _ (HasTargets-add_target name tcp (suc port) r r.targets a)
        (add_unique_port-has r.tcp_ports port, tt),
  ),
)
add_target-WellFormed name udp port r (t, (u, a)) = (
  t,
  (
    add_unique_port-Distinct r.udp_ports (suc port) u,
    All-append _ r.targets _ (HasTargets-add_target name udp (suc port) r r.targets a)
        (add_unique_port-has r.udp_ports port, tt),
  ),
)

add_if-WellFormed :
    (name : String) (n : Network) (port : Option ℕ) (r : ConnectivityProbeRequest)
    → WellFormed r
    → WellFormed (add_if name n port r)
unfolding add_if
add_if-WellFormed name n none r h = h
add_if-WellFormed name n (some zero) r h = h
add_if-WellFormed name n (some (suc p)) r h = add_target-WellFormed name n p r h

-- Whatever ports a node has, its probe names each port of a network once, and each target's port is
-- among those of its network.
pub build_connectivity_probe-WellFormed :
    (ss hysteria vless trojan : Option ℕ)
    → WellFormed (build_connectivity_probe ss hysteria vless trojan)
unfolding build_connectivity_probe
build_connectivity_probe-WellFormed ss hysteria vless trojan =
    add_if-WellFormed "trojan" tcp trojan _ (
      add_if-WellFormed "vless-reality" tcp vless _ (
        add_if-WellFormed "hysteria2" udp hysteria _ (
          add_if-WellFormed "shadowsocks-udp" udp ss _
            (add_if-WellFormed "shadowsocks-tcp" tcp ss _ (tt, (tt, tt))))))
