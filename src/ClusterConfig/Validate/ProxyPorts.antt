-- ===== src/ClusterConfig/Validate/ProxyPorts.antt =====
-- What an accepted configuration guarantees of the ports on which the proxies listen.
use podplane.Base.{
  ℤ, pos, ◌<ℤ◌, ◌=ℤ◌, String, ◌=ˢ◌, Bool, true, not, ◌||◌, ◌&&◌, List, [], ◌∷◌, ◌≡◌, ◌≢◌, refl,
  arith, Option, none, some, Accepts, All, All-map, reject-ok, then-ok, eq_iff, ap, length, ◌==◌,
  is_empty, for_each, for_index, subst,
}
use podplane.ClusterConfig.Platform.{Platform}
use podplane.ClusterConfig.Types.{Listener, Provider, Cluster, ClusterConfig}
use podplane.ClusterConfig.Resolved.{resolved_proxy_port}
use podplane.ClusterConfig.Infrastructure.{validate_provider}
use podplane.ClusterConfig.Networking.{
  is_set, owner_of, collision, check_proxy_ports, all_listeners, check_tunnel, validate_networking,
}
use podplane.ClusterConfig.Validate.{
  validate, check_identity, check_services, check_providers, check_first, check_pool,
}
use podplane.ClusterConfig.Validate.Listeners.{=ℤ-refl}

-- Not one of the ports of the Nstance server, 8990 to 8994.
abbrev pub IsFree : String × Listener → Type 0
IsFree owned =
    (resolved_proxy_port owned.1 <ℤ pos 8990 || pos 8994 <ℤ resolved_proxy_port owned.1) ≡ true

-- No two of the listeners have one proxy port.
abbrev pub Distinct : List (String × Listener) → Type 0
Distinct [] = Unit
Distinct (x ∷ xs) =
    All (λ (y : String × Listener). resolved_proxy_port x.1 ≢ resolved_proxy_port y.1) xs
    × Distinct xs

-- A listener whose proxy port no balancer has used.
abbrev IsUnused : List (ℤ × String) → String × Listener → Type 0
IsUnused seen owned = owner_of seen (resolved_proxy_port owned.1) ≡ none

collision-none :
    (name : String) (port : ℤ) (o : Option String) → Accepts (collision true name port o) → o ≡ none
collision-none name port none h = refl
collision-none name port (some owner) h = absurd (ground arith)

owner_of-none :
    (port : ℤ) (name : String) (seen : List (ℤ × String)) (z : ℤ)
    → owner_of ((port, name) ∷ seen) z ≡ none
    → (port ≢ z) × (owner_of seen z ≡ none)
owner_of-none port name seen z h =
    ((λ same. absurd (ground (arith, =ℤ-refl z, ap (λ (p : ℤ). p =ℤ z) same))), ground arith)

check_proxy_ports-Distinct :
    (seen : List (ℤ × String)) (ls : List (String × Listener))
    → Accepts (check_proxy_ports true seen ls)
    → All IsFree ls × All (IsUnused seen) ls × Distinct ls
unfolding check_proxy_ports
check_proxy_ports-Distinct seen [] h = (tt, tt, tt)
check_proxy_ports-Distinct seen ((name, l) ∷ rest) h =
    let port = resolved_proxy_port l in
    let (reserved, h₁) = reject-ok (not (port <ℤ pos 8990) && not (pos 8994 <ℤ port)) _ _ h in
    let (unused, h₂) = then-ok (collision true name port (owner_of seen port)) _ h₁ in
    let (free, fresh, apart) = check_proxy_ports-Distinct ((port, name) ∷ seen) rest h₂ in
    (
      (ground arith, free),
      (
        collision-none name port (owner_of seen port) unused,
        All-map rest (λ owned e. (owner_of-none port name seen _ e).1) fresh,
      ),
      (All-map rest (λ owned e. (owner_of-none port name seen _ e).0) fresh, apart),
    )

networking-Distinct :
    (cluster : Cluster) (provider : Provider)
    → provider.kind ≡ "aws"
    → Accepts (validate_networking cluster provider)
    → All IsFree (all_listeners provider.load_balancers)
      × Distinct (all_listeners provider.load_balancers)
unfolding validate_networking
networking-Distinct cluster provider aws h =
    let (_, h₁) =
      reject-ok
        (not (length cluster.providers == 1) && (is_set cluster.tunnel || is_set cluster.nat)) _ _
        h in
    let (_, h₂) = then-ok (check_tunnel cluster provider cluster.tunnel) _ h₁ in
    let ports =
      check_proxy_ports (provider.kind =ˢ "aws") [] (all_listeners provider.load_balancers) in
    let (passed, _) = then-ok ports _ h₂ in
    let is_aws : (provider.kind =ˢ "aws") ≡ true = (eq_iff _ _).1 aws in
    let (free, _, apart) = check_proxy_ports-Distinct [] (all_listeners provider.load_balancers) (
      subst (λ (b : Bool). Accepts (check_proxy_ports b [] (all_listeners provider.load_balancers)))
        is_aws passed) in
    (free, apart)

-- In a configuration that Validate accepts and whose first provider is of kind aws, no two
-- listeners of all the provider's load balancers together have one proxy port, and none has a
-- port of the Nstance server, 8990 to 8994.
pub validate-Distinct :
    (platform : Platform) (cfg : ClusterConfig) (provider : Provider) (rest : List Provider)
    → cfg.cluster.providers ≡ provider ∷ rest
    → provider.kind ≡ "aws"
    → Accepts (validate platform (some cfg))
    → All IsFree (all_listeners provider.load_balancers)
      × Distinct (all_listeners provider.load_balancers)
unfolding validate check_providers check_first
validate-Distinct platform cfg provider rest first aws h =
    let (_, h₁) = then-ok (check_identity platform cfg.cluster) _ h in
    let (_, h₂) = then-ok (check_services platform cfg.cluster) _ h₁ in
    let (_, h₃) = reject-ok (is_empty cfg.cluster.providers) _ _ h₂ in
    let (_, h₄) = reject-ok (is_empty cfg.cluster.pools) _ _ h₃ in
    let (_, h₅) = then-ok (for_each check_pool cfg.cluster.pools) _ h₄ in
    let (_, h₆) =
      then-ok (for_index (validate_provider platform cfg.cluster.pools) 0 cfg.cluster.providers)
        (check_first platform cfg.cluster cfg.cluster.providers) h₅ in
    let last =
      subst (λ (ps : List Provider). Accepts (check_first platform cfg.cluster ps)) first h₆ in
    let (networking, _) = then-ok (validate_networking cfg.cluster provider) _ last in
    networking-Distinct cfg.cluster provider aws networking
