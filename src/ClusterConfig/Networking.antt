-- ===== src/ClusterConfig/Networking.antt =====
-- validate.go: tunnel, NAT, domains and the listeners that they need.
use podplane.Base.{
  ℕ, ◌+◌, ℤ, pos, ◌<ℤ◌, ◌=ℤ◌, String, ◌=ˢ◌, ◌==◌, Bool, true, false, not, ◌&&◌, ◌||◌, List, [], ◌∷◌,
  any, Option, none, some, if◌then◌else◌, ok, err, Checked, reject, ◌>>◌, wrapped, errorf, str, int,
  is_empty, for_each, contains, length, map,
}
use podplane.Base.Assoc.{Assoc, lookup, has_key}
use podplane.Base.Strings.{trim_space}
use podplane.ClusterConfig.Platform.{Platform}
use podplane.ClusterConfig.Names.{validate_domain_name}
use podplane.ClusterConfig.Types.{
  Subnet, Listener, LoadBalancer, Provider, Pool, Nat, NatGroup, TenantNat, Tunnel, Domain,
  DomainProvider, Cluster,
}
use podplane.ClusterConfig.Resolved.{
  resolved_role, resolved_target_port, resolved_proxy_port, resolved_domain_load_balancer,
}

-- The listener has the port, the target port and, if one is asked for, the pool.
abbrev pub serves : ℤ → ℤ → String → Listener → Bool
serves port target pool l =
    l.port =ℤ port && resolved_target_port l =ℤ target && (pool =ˢ "" || l.pool =ˢ pool)

abbrev require_listener_of : Option LoadBalancer → String → ℤ → ℤ → String → Checked
require_listener_of none name port target pool =
    err (errorf "references unknown load balancer %q" (str name ∷ []))
require_listener_of (some lb) name port target pool =
    if any (serves port target pool) lb.listeners
    then ok tt
    else if not (pool =ˢ "")
    then err (
        errorf "load balancer %q requires listener port %d targeting port %d for pool %q"
          (str name ∷ int port ∷ int target ∷ str pool ∷ []))
    else err (
        errorf "load balancer %q requires listener port %d targeting port %d"
          (str name ∷ int port ∷ int target ∷ []))

-- requireListener
unfoldable pub require_listener : Provider → String → ℤ → ℤ → String → Checked
require_listener provider name port target pool =
    require_listener_of (lookup name provider.load_balancers) name port target pool

-- The inner loop of validateNAT: a tenant's ladder has no blank and no repeated type.
unfoldable pub ladder_fault : List String → List String → Bool
ladder_fault seen [] = false
ladder_fault seen (t ∷ ts) = trim_space t =ˢ "" || contains seen t || ladder_fault (t ∷ seen) ts

abbrev pub nat_subnet : NatGroup → Subnet → Bool
nat_subnet group s =
    resolved_role s =ˢ group.subnet_pool && s.is_public && contains s.services "nat"

abbrev pub private_server : Subnet → Bool
private_server s = contains s.services "nstance" && not s.is_public

abbrev pub hosts_server : Subnet → Bool
hosts_server s = contains s.services "nstance"

-- The loop over the zones in validateNAT.
unfoldable pub check_nat_zone : String → String → NatGroup → String × List Subnet → Checked
check_nat_zone mode group_name group (zone, subnets) = do
  reject (mode =ˢ "nstance" && any private_server subnets)
      (errorf "nstance NAT requires public/direct Nstance placement in %s" (str zone ∷ []))
  reject (mode =ˢ "nstance" && not (any hosts_server subnets))
      (errorf "nstance NAT requires public/direct Nstance placement in %s" (str zone ∷ []))
  reject (not (any (nat_subnet group) subnets)) (
      errorf "NAT group %q requires a public NAT service subnet in %s"
        (str group_name ∷ str zone ∷ []))

abbrev check_nat_group :
    Assoc Pool → Provider → String → String → TenantNat → Option NatGroup → Checked
check_nat_group pools provider mode tenant policy none =
    err (errorf "NAT tenant %q references unknown group %q" (str tenant ∷ str policy.group ∷ []))
check_nat_group pools provider mode tenant policy (some group) = do
  reject (policy.group =ˢ "")
      (errorf "NAT tenant %q references unknown group %q" (str tenant ∷ str policy.group ∷ []))
  reject (not (group.arch =ˢ "amd64") && not (group.arch =ˢ "arm64"))
      (errorf "NAT group %q arch must be amd64 or arm64" (str policy.group ∷ []))
  reject (has_key pools policy.group)
      (errorf "NAT group %q conflicts with a Kubernetes pool" (str policy.group ∷ []))
  reject
      (is_empty policy.instance_type_ladder
        || not (contains policy.instance_type_ladder group.instance_type))
      (errorf "NAT tenant %q ladder must include its starting instance type" (str tenant ∷ []))
  reject (ladder_fault [] policy.instance_type_ladder)
      (errorf "NAT tenant %q ladder contains empty or duplicate instance types" (str tenant ∷ []))
  for_each (check_nat_zone mode policy.group group) provider.zones

-- The body of the loop over the tenants in validateNAT.
unfoldable pub check_nat_tenant : Assoc Pool → Provider → Nat → String × TenantNat → Checked
check_nat_tenant pools provider nat (tenant, policy) = do
  reject (not (tenant =ˢ "default"))
      (errorf "cluster.nat.tenants: only the default Kubernetes tenant is supported" [])
  check_nat_group pools provider nat.nat_mode tenant policy (lookup policy.group nat.groups)

-- The groups that a tenant has named.
abbrev pub owned_groups : Assoc TenantNat → List String
owned_groups tenants = map (λ (t : String × TenantNat). t.1.group) tenants

-- validateNAT
unfoldable pub validate_nat : Assoc Pool → Provider → Nat → Checked
validate_nat pools provider nat = do
  reject (not (nat.nat_mode =ˢ "provider") && not (nat.nat_mode =ˢ "nstance"))
      (errorf "cluster.nat.mode must be provider or nstance" [])
  reject (nat.fixed_public_ipv4_count <ℤ pos 0)
      (errorf "cluster.nat.fixed_public_ipv4_count must be non-negative" [])
  reject (nat.nat_mode =ˢ "nstance" && is_empty nat.tenants)
      (errorf "nstance NAT requires tenant configuration" [])
  for_each (check_nat_tenant pools provider nat) nat.tenants
  for_each
      (λ (g : String × NatGroup).
        reject (not (contains (owned_groups nat.tenants) g.0))
          (errorf "NAT group %q has no owning tenant" (str g.0 ∷ [])))
      nat.groups

-- The part of validateNetworking about the tunnel.
unfoldable pub check_tunnel : Cluster → Provider → Option Tunnel → Checked
check_tunnel cluster provider none = ok tt
check_tunnel cluster provider (some tunnel) = do
  reject (not (tunnel.kind =ˢ "cloudflare"))
      (errorf "unsupported tunnel provider %q" (str tunnel.kind ∷ []))
  reject (trim_space tunnel.id =ˢ "" || trim_space tunnel.credential_secret =ˢ "")
      (errorf "cluster.tunnel requires id and credential_secret for an existing tunnel" [])
  reject
      (not (is_empty provider.load_balancers) || not (cluster.kubernetes.api_load_balancer =ˢ ""))
      (errorf "cluster.tunnel cannot be combined with load balancers" [])
  for_each
      (λ (d : Domain).
        reject (not (d.load_balancer =ˢ "")) (
          errorf "domain %q load_balancer cannot be combined with cluster.tunnel"
            (str d.zone ∷ [])))
      cluster.domains
  reject
      (not (cluster.kubernetes.api_port =ℤ pos 0) && not (cluster.kubernetes.api_port =ℤ pos 443))
      (errorf "cluster.tunnel requires external api_port 443" [])

-- Every listener of a provider, with the name of its load balancer, in the order of the loops.
abbrev pub with_owner : String → List Listener → List (String × Listener)
with_owner name [] = []
with_owner name (l ∷ ls) = (name, l) ∷ with_owner name ls

abbrev append_all : List (String × Listener) → List (String × Listener) → List (String × Listener)
append_all [] ys = ys
append_all (x ∷ xs) ys = x ∷ append_all xs ys

abbrev pub all_listeners : Assoc LoadBalancer → List (String × Listener)
all_listeners [] = []
all_listeners ((name, lb) ∷ rest) = append_all (with_owner name lb.listeners) (all_listeners rest)

-- `owner, ok := proxyPorts[port]`: the load balancer that used the port last.
abbrev pub owner_of : List (ℤ × String) → ℤ → Option String
owner_of [] port = none
owner_of ((p, owner) ∷ seen) port = if p =ℤ port then some owner else owner_of seen port

abbrev pub collision : Bool → String → ℤ → Option String → Checked
collision is_aws name port none = ok tt
collision is_aws name port (some owner) = reject is_aws (
    errorf "load balancer %q proxy port %d collides with %q" (str name ∷ int port ∷ str owner ∷ []))

-- The loops over the listeners in validateNetworking; `seen` is the map proxyPorts.
unfoldable pub check_proxy_ports : Bool → List (ℤ × String) → List (String × Listener) → Checked
check_proxy_ports is_aws seen [] = ok tt
check_proxy_ports is_aws seen ((name, l) ∷ rest) = do
  reject (not (resolved_proxy_port l <ℤ pos 8990) && not (pos 8994 <ℤ resolved_proxy_port l)) (
      errorf "load balancer %q proxy port collides with Nstance server port %d"
        (str name ∷ int (resolved_proxy_port l) ∷ []))
  collision is_aws name (resolved_proxy_port l) (owner_of seen (resolved_proxy_port l))
  check_proxy_ports is_aws ((resolved_proxy_port l, name) ∷ seen) rest

abbrev check_nat : Assoc Pool → Provider → Option Nat → Checked
check_nat pools provider none = ok tt
check_nat pools provider (some nat) = validate_nat pools provider nat

abbrev pub is_set {ℓ} : {A : Type ℓ} → Option A → Bool
is_set none = false
is_set (some _) = true

-- validateNetworking, where `provider` is the first of the providers.
unfoldable pub validate_networking : Cluster → Provider → Checked
validate_networking cluster provider = do
  reject (not (length cluster.providers == 1) && (is_set cluster.tunnel || is_set cluster.nat))
      (errorf "tunnel and NAT settings require exactly one infrastructure provider" [])
  check_tunnel cluster provider cluster.tunnel
  check_proxy_ports (provider.kind =ˢ "aws") [] (all_listeners provider.load_balancers)
  check_nat cluster.pools provider cluster.nat

abbrev known_dns_provider : Option DomainProvider → Bool
known_dns_provider none = true
known_dns_provider (some p) =
    p.kind =ˢ "aws-route53"
    || p.kind =ˢ "cloudflare"
    || p.kind =ˢ "google-cloud-dns"
    || p.kind =ˢ "local"

module _ (platform : Platform) where
  -- The body of the loop of validateDomains; `zones` are those seen before.
  unfoldable pub check_domain : Cluster → Provider → ℕ → List String → Domain → Checked
  check_domain cluster provider i zones domain = do
    wrapped "cluster.domains[%d].zone: %w" (int (pos i) ∷ [])
        (validate_domain_name platform domain.zone)
    reject (contains zones domain.zone)
        (errorf "cluster.domains[%d].zone duplicates %q" (int (pos i) ∷ str domain.zone ∷ []))
    reject (not (known_dns_provider domain.provider)) (
        errorf
          "cluster.domains[%d].provider.kind must be aws-route53, cloudflare, google-cloud-dns, or local"
          (int (pos i) ∷ []))
    if is_set cluster.tunnel
        then ok tt
        else wrapped "cluster.domains[%d].load_balancer: %w" (int (pos i) ∷ []) (
            require_listener provider (resolved_domain_load_balancer domain) (pos 443) (pos 443) "")

  unfoldable pub check_domains : Cluster → Provider → ℕ → List String → List Domain → Checked
  check_domains cluster provider i zones [] = ok tt
  check_domains cluster provider i zones (d ∷ ds) =
      check_domain cluster provider i zones d
      >> check_domains cluster provider (i + 1) (d.zone ∷ zones) ds

  -- The part of validateDomains about the API's load balancer.
  unfoldable pub check_api_listener : Cluster → Provider → String → Checked
  check_api_listener cluster provider balancer = do
    for_each
        (λ (d : Domain).
          reject
            (d.zone =ˢ cluster.kubernetes.api_hostname
              && not (resolved_domain_load_balancer d =ˢ balancer))
            (errorf
              "cluster.kubernetes.api_load_balancer %q conflicts with domain apex %q load balancer %q"
              (str balancer ∷ str d.zone ∷ str (resolved_domain_load_balancer d) ∷ [])))
        cluster.domains
    wrapped "cluster.kubernetes.api_load_balancer: %w" [] (
        require_listener provider balancer
          (if cluster.kubernetes.api_port =ℤ pos 0 then pos 6443 else cluster.kubernetes.api_port)
          (pos 6443) "control-plane")

  -- validateDomains
  unfoldable pub validate_domains : Cluster → Provider → Checked
  validate_domains cluster provider = do
    check_domains cluster provider 0 [] cluster.domains
    if is_set cluster.tunnel || cluster.kubernetes.api_load_balancer =ˢ ""
        then ok tt
        else check_api_listener cluster provider cluster.kubernetes.api_load_balancer
