-- ===== src/ClusterConfig/Resolved.antt =====
-- types.go and registry.go: the values that stand in for settings left out.
use podplane.Base.{
  ℤ, pos, ◌=ℤ◌, String, ◌<>◌, ◌=ˢ◌, Bool, true, false, not, ◌&&◌, ◌||◌, [], ◌∷◌, Option, none, some,
  if◌then◌else◌, contains, is_empty,
}
use podplane.Base.Strings.{trim, trim_space, is_slash}
use podplane.ClusterConfig.Types.{
  DomainProvider, Domain, Subnet, Listener, Cluster, ClusterConfig, ComponentsRegistry,
}

-- The configured text, or another if it is empty.
abbrev pub or_default : String → String → String
or_default s d = if s =ˢ "" then d else s

-- DomainProvider.SupportsACME
abbrev pub supports_acme : Option DomainProvider → Bool
supports_acme none = false
supports_acme (some p) = p.kind =ˢ "aws-route53"

-- Subnet.ResolvedRole
unfoldable pub resolved_role : Subnet → String
resolved_role s =
    if not (s.pool =ˢ "")
    then s.pool
    else if contains s.services "nstance"
    then "nstance"
    else if s.is_public && (contains s.services "nat" || contains s.services "nlb")
    then "public"
    else "services"

-- Listener.ResolvedTargetPort
abbrev pub resolved_target_port : Listener → ℤ
resolved_target_port l = if l.target_port =ℤ pos 0 then l.port else l.target_port

-- Listener.ResolvedProxyPort
abbrev pub resolved_proxy_port : Listener → ℤ
resolved_proxy_port l = elim (l.proxy_port) [ none ↦ resolved_target_port l | some port ↦ port ]

-- ClusterConfig.DefaultDomain
abbrev pub default_domain : ClusterConfig → Option Domain
default_domain c = elim (c.cluster.domains) [ [] ↦ none | d ∷ _ ↦ some d ]

-- Domain.ResolvedDomainLoadBalancer
abbrev pub resolved_domain_load_balancer : Domain → String
resolved_domain_load_balancer d = or_default d.load_balancer "main"

-- ClusterConfig.ResolvedRegistryHostname
unfoldable pub resolved_registry_hostname : ClusterConfig → String
resolved_registry_hostname c =
    if not (c.cluster.registry.hostname =ˢ "")
    then c.cluster.registry.hostname
    else if is_empty c.cluster.domains
    then c.cluster.id <> "-registry.local"
    else ""

-- ClusterConfig.ResolvedClientID
abbrev pub resolved_client_id : ClusterConfig → String
resolved_client_id c = or_default c.cluster.oidc.client_id c.cluster.id

-- ClusterConfig.ResolvedUsernameClaim
abbrev pub resolved_username_claim : ClusterConfig → String
resolved_username_claim c = or_default c.cluster.oidc.username_claim "sub"

-- ClusterConfig.ResolvedGroupsClaim
abbrev pub resolved_groups_claim : ClusterConfig → String
resolved_groups_claim c = or_default c.cluster.oidc.groups_claim "groups"

abbrev pub has_tunnel : ClusterConfig → Bool
has_tunnel c = elim (c.cluster.tunnel) [ none ↦ false | some _ ↦ true ]

-- ClusterConfig.ResolvedAPIPort; `has_tunnel` is UsesPublicAPIRoots.
unfoldable pub resolved_api_port : ClusterConfig → ℤ
resolved_api_port c =
    if not (c.cluster.kubernetes.api_port =ℤ pos 0)
    then c.cluster.kubernetes.api_port
    else if has_tunnel c
    then pos 443
    else pos 6443

-- CleanRegistryMirrorPrefix
abbrev pub clean_registry_mirror_prefix : String → String
clean_registry_mirror_prefix prefix = trim is_slash (trim_space prefix)

abbrev mirror_hostname_of : Option ComponentsRegistry → String
mirror_hostname_of none = ""
mirror_hostname_of (some r) = r.mirror.hostname

-- Cluster.RegistryMirrorHostname
unfoldable pub registry_mirror_hostname : Cluster → String
registry_mirror_hostname c =
    if not (mirror_hostname_of c.components.registry =ˢ "")
    then mirror_hostname_of c.components.registry
    else if not (c.registry.hostname =ˢ "")
    then c.registry.hostname
    else if is_empty c.domains
    then c.id <> "-registry.local"
    else ""

abbrev mirror_prefix_of : Option ComponentsRegistry → String
mirror_prefix_of none = ""
mirror_prefix_of (some r) = r.mirror.prefix

-- Cluster.RegistryMirrorPrefix
unfoldable pub registry_mirror_prefix : Cluster → String
registry_mirror_prefix c =
    if not (mirror_prefix_of c.components.registry =ˢ "")
    then clean_registry_mirror_prefix (mirror_prefix_of c.components.registry)
    else "mirror"
