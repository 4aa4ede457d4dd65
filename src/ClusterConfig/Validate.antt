-- ===== src/ClusterConfig/Validate.antt =====
-- validate.go: Validate, the check of a whole configuration.
pub mod Listeners
pub mod ProxyPorts
use podplane.Base.{
  ℕ, ℤ, pos, ◌<ℤ◌, String, ◌=ˢ◌, Bool, true, false, not, ◌&&◌, ◌||◌, List, [], ◌∷◌, Option, none,
  some, if◌then◌else◌, Result, ok, err, Checked, reject, ◌>>◌, wrapped, errorf, str, is_empty,
  for_each, for_index,
}
use podplane.ClusterConfig.Platform.{Platform}
use podplane.ClusterConfig.Types.{Pool, Provider, Cluster, ClusterConfig, ComponentsRegistry}
use podplane.ClusterConfig.Resolved.{registry_mirror_hostname}
use podplane.ClusterConfig.Names.{validate_cluster_id, validate_domain_name, validate_trust_domain}
use podplane.ClusterConfig.Network.{ServiceNetwork, service_network_from_cidrs}
use podplane.ClusterConfig.Settings.{
  validate_acme, validate_seed, validate_components, validate_secrets,
}
use podplane.ClusterConfig.Infrastructure.{validate_provider}
use podplane.ClusterConfig.Networking.{is_set, validate_networking, validate_domains}

abbrev mirror_enabled : Option ComponentsRegistry → Bool
mirror_enabled none = false
mirror_enabled (some r) = r.mirror.enabled

abbrev discard {ℓ} : {A : Type ℓ} → Result A → Checked
discard (ok a) = ok tt
discard (err e) = err e

-- The body of the loop over the pools.
unfoldable pub check_pool : String × Pool → Checked
check_pool (name, pool) = do
  reject (name =ˢ "") (errorf "cluster.pools contains an empty pool name" [])
  reject (not (pool.arch =ˢ "amd64") && not (pool.arch =ˢ "arm64"))
      (errorf "cluster.pools.%s.arch must be amd64 or arm64" (str name ∷ []))
  reject (pool.instance_type =ˢ "")
      (errorf "cluster.pools.%s.instance_type is required" (str name ∷ []))
  reject (pool.size <ℤ pos 0) (errorf "cluster.pools.%s.size must be >= 0" (str name ∷ []))

module _ (platform : Platform) where
  -- Validate up to the service networks.
  unfoldable pub check_identity : Cluster → Checked
  check_identity cluster = do
    wrapped "cluster.id: %w" [] (validate_cluster_id cluster.id)
    reject (cluster.oidc.issuer_url =ˢ "") (errorf "cluster.oidc.issuer_url is required" [])
    wrapped "cluster.kubernetes.api_hostname: %w" []
        (validate_domain_name platform cluster.kubernetes.api_hostname)
    wrapped "cluster.spiffe.trust_domain: %w" [] (validate_trust_domain cluster.spiffe.trust_domain)
    reject (cluster.kubernetes.api_port <ℤ pos 0 || pos 65535 <ℤ cluster.kubernetes.api_port)
        (errorf "cluster.kubernetes.api_port must be 1-65535 when set" [])
    if cluster.registry.hostname =ˢ ""
        then ok tt
        else wrapped "cluster.registry.hostname: %w" []
            (validate_domain_name platform cluster.registry.hostname)
    reject (not (is_empty cluster.domains) && cluster.registry.hostname =ˢ "")
        (errorf "cluster.registry.hostname is required when domains are configured" [])
    reject (is_set cluster.tunnel && is_set cluster.acme) (
        errorf
          "cluster.acme cannot be combined with cluster.tunnel; the tunnel provider supplies public TLS"
          [])
    wrapped "cluster.acme: %w" [] (validate_acme platform cluster.acme cluster.domains)

  -- Validate from the service networks to the secrets.
  unfoldable pub check_services : Cluster → Checked
  check_services cluster = do
    wrapped "cluster.kubernetes.service_cidr: %w" []
        (discard (service_network_from_cidrs platform cluster.kubernetes.service_cidr))
    reject (mirror_enabled cluster.components.registry && registry_mirror_hostname cluster =ˢ "") (
        errorf
          "cluster.registry.hostname is required when components.registry.mirror.enabled is true without components.registry.mirror.hostname"
          [])
    wrapped "cluster.seed: %w" [] (validate_seed cluster.seed)
    wrapped "cluster.components: %w" [] (validate_components cluster.components)
    wrapped "cluster.secrets: %w" [] (validate_secrets platform cluster.secrets)

  -- The end of Validate, which reads the first provider.
  unfoldable pub check_first : Cluster → List Provider → Checked
  check_first cluster [] = ok tt
  check_first cluster (provider ∷ _) =
      validate_networking cluster provider >> validate_domains platform cluster provider

  -- Validate from the providers on.
  unfoldable pub check_providers : Cluster → Checked
  check_providers cluster = do
    reject (is_empty cluster.providers)
        (errorf "cluster.providers must contain at least one provider" [])
    reject (is_empty cluster.pools) (errorf "cluster.pools must contain at least one pool" [])
    for_each check_pool cluster.pools
    for_index (validate_provider platform cluster.pools) 0 cluster.providers
    check_first cluster cluster.providers

  -- Validate; `none` is a nil configuration.
  unfoldable pub validate : Option ClusterConfig → Checked
  validate none = err (errorf "config is required" [])
  validate (some cfg) = do
    check_identity cfg.cluster
    check_services cfg.cluster
    check_providers cfg.cluster
