-- ===== src/ClusterConfig/Tests.antt =====
-- The laws of the cluster configuration at work: a platform that knows a few texts, and a
-- configuration that is accepted.
use podplane.Base.{
  ℕ, ◌+◌, ◌*◌, ◌%◌, ◌^◌, ◌-◌, pos, String, ◌=ˢ◌, true, false, List, [], ◌∷◌, none, some,
  if◌then◌else◌, Result, ok, err, errorf, Accepts, All, ◌≡◌, ◌≤◌, ◌↔◌, refl, arith,
}
use podplane.Base.Strings.{cut_prefix, split}
use podplane.ClusterConfig.Types.{
  Subnet, Listener, LoadBalancer, Provider, Pool, Cluster, ClusterConfig,
}
use podplane.ClusterConfig.Netip.{Addr, v4, v6, Prefix, word}
use podplane.ClusterConfig.Platform.{Platform}
use podplane.ClusterConfig.Network.{
  ServiceNetwork, default_service_cidrs, core_dns_addr, check_network, networks,
  service_network_from_cidrs,
}
use podplane.ClusterConfig.Network.Arithmetic.{core_dns_addr-v4, core_dns_addr-v6, number}
use podplane.ClusterConfig.Network.Service.{
  IsAllocation, effective, v4_prefix, service_network_from_cidrs-IsAllocation, check_network-v4_iff,
}
use podplane.Base.Assoc.{lookup}
use podplane.ClusterConfig.Names.{
  validate_cluster_id, validate_domain_name, validate_trust_domain, has_double_hyphen,
  label_pattern, trust_domain_pattern, ends_with_dot, validate_aws_region, aws_region_pattern,
  validate_aws_availability_zone,
}
use podplane.ClusterConfig.Settings.{
  validate_acme, validate_seed, validate_components, validate_secrets,
}
use podplane.ClusterConfig.Infrastructure.{
  validate_provider, check_kind, check_vpc, check_layout, check_zone, check_subnet, validate_subnet,
  check_role, check_load_balancer, check_listeners, check_listener,
}
use podplane.ClusterConfig.Networking.{
  validate_networking, check_tunnel, check_proxy_ports, validate_domains, check_domains,
  check_api_listener, require_listener,
}
use podplane.ClusterConfig.Validate.{
  validate, check_identity, check_services, check_providers, check_first, check_pool,
}
use podplane.ClusterConfig.Resolved.{resolved_role, resolved_target_port, resolved_proxy_port}
use podplane.ClusterConfig.Validate.ProxyPorts.{IsFree, Distinct, validate-Distinct}
use podplane.ClusterConfig.Networking.{all_listeners}
use podplane.ClusterConfig.Validate.Listeners.{Layout, validate-Layout}

abbrev default_v4 : ℕ
default_v4 = 3323068416

abbrev default_v6 : ℕ
default_v6 = 0xfdc6 * 2 ^ 48

abbrev parse : String → Result Prefix
parse text =
    if text =ˢ "198.18.0.0/15"
    then ok (v4_prefix default_v4 15)
    else if text =ˢ "fdc6::/108"
    then ok (record { addr = v6 default_v6 0; bits = 108 })
    else if text =ˢ "10.0.0.0/16"
    then ok (v4_prefix (10 * 2 ^ 24) 16)
    else err (errorf "no such prefix" [])

abbrev print : Addr → String
print (v4 a) = "198.18.0.0/15"
print _ = "fdc6::/108"

abbrev platform : Platform
platform = record {
  parse_prefix = parse;
  prefix_string = λ p. print p.addr;
  is_ip_addr = λ s. false;
  parse_mail = λ s. some s;
  parse_request_uri = λ s. none;
  to_lower = λ s. s;
}

abbrev default_network : ServiceNetwork
default_network = record {
  cidrs = default_service_cidrs;
  api = v4 (default_v4 + 1) ∷ v6 default_v6 1 ∷ [];
  core_dns = v4 (default_v4 + 131070) ∷ v6 default_v6 65535 ∷ [];
}

defaults : service_network_from_cidrs platform [] ≡ ok default_network
unfolding service_network_from_cidrs networks check_network core_dns_addr
defaults = refl

service_network_from_cidrs-IsAllocation_example :
    (ps : List Prefix) × IsAllocation platform (effective []) default_network ps
service_network_from_cidrs-IsAllocation_example =
    service_network_from_cidrs-IsAllocation platform [] default_network defaults

check_network-v4_iff_example :
    (check_network platform 0 false false "198.18.0.0/15" ≡ ok (v4_prefix default_v4 15))
    ↔ ((default_v4 % 2 ^ (32 - 15) ≡ 0) × (15 ≤ 30))
check_network-v4_iff_example =
    check_network-v4_iff platform "198.18.0.0/15" default_v4 15 refl (omega arith, omega arith)

core_dns_addr-v4_example :
    core_dns_addr (record { addr = v4 default_v4; bits = 15 })
    ≡ v4 (default_v4 + (2 ^ (32 - 15) - 2))
core_dns_addr-v4_example = core_dns_addr-v4 default_v4 15 (omega arith) (omega arith) refl

core_dns_addr-v6_example :
    number (core_dns_addr (record { addr = v6 default_v6 0; bits = 108 }))
    ≡ (default_v6 * word + 0 + 65535) % (word * word)
core_dns_addr-v6_example = core_dns_addr-v6 default_v6 0 108 (omega arith)

abbrev control_plane : Listener
control_plane = record {
  port = pos 6443;
  target_port = pos 0;
  proxy_port = none;
  pool = "control-plane";
}

abbrev secure : Listener
secure = record { port = pos 443; target_port = pos 8443; proxy_port = none; pool = "workers" }

abbrev frontend : LoadBalancer
frontend = record { is_public = true; subnets = "workers"; listeners = control_plane ∷ secure ∷ [] }

abbrev public_subnet : Subnet
public_subnet = record {
  pool = "workers";
  services = [];
  is_public = true;
  id = "subnet-1";
  v4_cidr = "";
  v6_cidr = "";
}

abbrev pool : Pool
pool = record { arch = "amd64"; instance_type = "m7i.large"; size = pos 3; disk_size = pos 0 }

abbrev provider : Provider
provider = record {
  kind = "aws";
  region = "us-east-1";
  account = "";
  profile = "";
  project = "";
  tags = [];
  vpc = record { id = "vpc-1"; v4_cidr = ""; v6_cidr = "" };
  zones = ("us-east-1a", public_subnet ∷ []) ∷ [];
  load_balancers = ("main", frontend) ∷ [];
  buckets = [];
  roles = [];
}

abbrev cluster : Cluster
cluster = record {
  id = "demo";
  name = "Demo";
  oidc = record {
    issuer_url = "https://id.example.com";
    client_id = "";
    username_claim = "";
    groups_claim = "";
    signing_algs = [];
    ca_cert = "";
  };
  acme = none;
  domains = [];
  tunnel = none;
  registry = record { hostname = ""; ingress = record { enabled = false } };
  pools = ("control-plane", pool) ∷ ("workers", pool) ∷ [];
  providers = provider ∷ [];
  secrets = record { default_provider = ""; providers = [] };
  spiffe = record { trust_domain = "demo.example.com" };
  kubernetes = record {
    api_hostname = "api.example.com";
    api_port = pos 0;
    api_load_balancer = "main";
    cluster_cidr = [];
    service_cidr = [];
  };
  seed = record { name = "none"; version = ""; digest = "" };
  components = record { source = none; registry = none };
  nat = none;
}

abbrev pub config : ClusterConfig
config = record { schema = ""; cluster = cluster }

accepted : Accepts (validate platform (some config))
unfolding validate check_identity check_services check_providers check_first check_pool
    validate_cluster_id validate_domain_name validate_trust_domain has_double_hyphen label_pattern
    trust_domain_pattern ends_with_dot validate_acme service_network_from_cidrs networks
    check_network core_dns_addr validate_seed validate_components validate_secrets validate_provider
    check_kind check_vpc check_layout check_zone check_subnet validate_subnet check_role
    check_load_balancer check_listeners check_listener validate_aws_region aws_region_pattern
    validate_aws_availability_zone validate_networking check_tunnel check_proxy_ports
    validate_domains check_domains check_api_listener require_listener lookup split cut_prefix
    resolved_role resolved_target_port resolved_proxy_port
accepted = refl

validate-Layout_example : All (Layout platform cluster.pools) cluster.providers
validate-Layout_example = validate-Layout platform config accepted

validate-Distinct_example :
    All IsFree (all_listeners provider.load_balancers)
    × Distinct (all_listeners provider.load_balancers)
validate-Distinct_example = validate-Distinct platform config provider [] refl refl accepted
