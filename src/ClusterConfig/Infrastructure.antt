-- ===== src/ClusterConfig/Infrastructure.antt =====
-- validate.go: the checks of one infrastructure provider, with its subnets and load balancers.
-- A message begins with the place that it is about, `%s`; that argument is left out here, and the
-- index of the provider stands in the wrapping that `validate_provider` adds.
use podplane.Base.{
  ℕ, ℤ, pos, ◌<ℤ◌, ◌=ℤ◌, String, ◌=ˢ◌, Bool, false, not, ◌&&◌, ◌||◌, List, [], ◌∷◌, ◌++◌, any,
  Option, none, some, ltb, if◌then◌else◌, Result, ok, err, Checked, reject, ◌>>◌, ◌>>=◌, wrapped,
  errorf, str, int, is_empty, for_each, contains, map, is_some,
}
use podplane.Base.Assoc.{Assoc, has_key}
use podplane.ClusterConfig.Netip.{Prefix, is4, masked, prefix_eq, prefix_contains}
use podplane.ClusterConfig.Platform.{Platform}
use podplane.ClusterConfig.Names.{validate_aws_region, validate_aws_availability_zone}
use podplane.ClusterConfig.Types.{Subnet, Listener, LoadBalancer, Role, Provider, Pool, Vpc}
use podplane.ClusterConfig.Resolved.{resolved_role, resolved_target_port}

abbrev pub out_of_range : ℤ → Bool
out_of_range port = port <ℤ pos 1 || pos 65535 <ℤ port

-- The loop over the services of a subnet in validateSubnet.
unfoldable pub check_service : Bool → String → Checked
check_service public_subnet service =
    if service =ˢ "nstance"
    then ok tt
    else if service =ˢ "nat" || service =ˢ "nlb"
    then reject (not public_subnet) (errorf "%s with service %q must be public" (str service ∷ []))
    else err (errorf "%s.services contains unsupported service %q" (str service ∷ []))

-- validateSubnet
unfoldable pub validate_subnet : Assoc Pool → Subnet → Checked
validate_subnet pools subnet = do
  reject (not (subnet.id =ˢ "") && (not (subnet.v4_cidr =ˢ "") || not (subnet.v6_cidr =ˢ "")))
      (errorf "%s.id cannot be combined with subnet CIDRs" [])
  reject (subnet.id =ˢ "" && subnet.v4_cidr =ˢ "") (errorf "%s.id or v4cidr is required" [])
  reject (not (subnet.v6_cidr =ˢ "") && not (subnet.v6_cidr =ˢ "auto"))
      (errorf "%s.v6cidr only supports \"auto\" for managed AWS generation" [])
  reject
      (if not (subnet.pool =ˢ "") then not (is_empty subnet.services) else is_empty subnet.services)
      (errorf "%s must set exactly one of pool or services" [])
  if not (subnet.pool =ˢ "")
      then reject (not (has_key pools subnet.pool))
          (errorf "%s.pool references unknown pool %q" (str subnet.pool ∷ []))
      else for_each (check_service subnet.is_public) subnet.services

-- A text that is a canonical IPv4 CIDR, as the prefix that it stands for.
abbrev canonical_v4 : Result Prefix → Option Prefix
canonical_v4 (err e) = none
canonical_v4 (ok p) = if is4 p.addr && prefix_eq p (masked p) then some p else none

abbrev pub parse_v4 : Platform → String → Option Prefix
parse_v4 platform cidr = canonical_v4 (platform.parse_prefix cidr)

-- The subnet does not lie in the VPC's network, where that is known.
abbrev pub outside : Option Prefix → Prefix → Bool
outside none p = false
outside (some vpc) p = ltb p.bits vpc.bits || not (prefix_contains vpc p.addr)

abbrev check_subnet_cidr : Option Prefix → String → Option Prefix → Checked
check_subnet_cidr vpc vpc_cidr none = err (errorf "%s.v4cidr must be a canonical IPv4 CIDR" [])
check_subnet_cidr vpc vpc_cidr (some p) =
    reject (outside vpc p)
      (errorf "%s.v4cidr must be contained within VPC CIDR %s" (str vpc_cidr ∷ []))

-- subnetRoles
abbrev pub zone_roles : Assoc (List Subnet) → List String
zone_roles [] = []
zone_roles ((zone, subnets) ∷ zones) = map resolved_role subnets ++ zone_roles zones

module _ (platform : Platform) (pools : Assoc Pool) where
  -- The body of the loop over the subnets of a zone.
  unfoldable pub check_subnet : Option Prefix → String → Subnet → Checked
  check_subnet vpc vpc_cidr subnet = do
    validate_subnet pools subnet
    if subnet.v4_cidr =ˢ ""
        then ok tt
        else check_subnet_cidr vpc vpc_cidr (parse_v4 platform subnet.v4_cidr)

  -- The body of the loop over the zones.
  unfoldable pub check_zone : Provider → Option Prefix → String × List Subnet → Checked
  check_zone provider vpc (zone, subnets) = do
    reject (zone =ˢ "") (errorf "%s.zones contains an empty zone name" [])
    if provider.kind =ˢ "aws"
        then wrapped "%s.zones.%s %w" (str zone ∷ [])
            (validate_aws_availability_zone provider.region zone)
        else ok tt
    reject (is_empty subnets)
        (errorf "%s.zones.%s must contain at least one subnet" (str zone ∷ []))
    for_each (check_subnet vpc provider.vpc.v4_cidr) subnets

  -- The loop over the roles.
  unfoldable pub check_role : List String → String × Role → Checked
  check_role buckets (name, role) = do
    for_each
        (λ bucket.
          reject (not (contains buckets bucket)) (
            errorf "%s.roles.%s.buckets references unknown bucket %q" (str name ∷ str bucket ∷ [])))
        role.buckets
    reject
        (not (role.permissions =ˢ "")
          && not (role.permissions =ˢ "read-write")
          && not (role.permissions =ˢ "read-only"))
        (errorf "%s.roles.%s.permissions must be read-write or read-only" (str name ∷ []))

  abbrev check_proxy_port : Provider → Option ℤ → Checked
  check_proxy_port provider none = ok tt
  check_proxy_port provider (some port) = do
    reject (not (provider.kind =ˢ "aws"))
        (errorf "%s.proxy_port is only supported on AWS; omit it for %s" (str provider.kind ∷ []))
    reject (out_of_range port) (errorf "%s.proxy_port must be 1-65535 when set" [])

  -- The body of the loop over the listeners of a load balancer; `ports` are those seen before.
  unfoldable pub check_listener : Provider → List ℤ → Listener → Checked
  check_listener provider ports listener = do
    reject (out_of_range listener.port) (errorf "%s.port must be 1-65535" [])
    reject (any (λ p. p =ℤ listener.port) ports)
        (errorf "%s.port duplicates port %d" (int listener.port ∷ []))
    reject (listener.target_port <ℤ pos 0 || pos 65535 <ℤ listener.target_port)
        (errorf "%s.target_port must be 1-65535 when set" [])
    check_proxy_port provider listener.proxy_port
    reject (provider.kind =ˢ "google" && not (resolved_target_port listener =ℤ listener.port))
        (errorf "%s Google passthrough frontend and target ports must be equal" [])
    reject (not (has_key pools listener.pool))
        (errorf "%s.pool references unknown pool %q" (str listener.pool ∷ []))

  -- The loop over the listeners.
  unfoldable pub check_listeners : Provider → List ℤ → List Listener → Checked
  check_listeners provider ports [] = ok tt
  check_listeners provider ports (l ∷ ls) =
      check_listener provider ports l >> check_listeners provider (l.port ∷ ports) ls

  -- The body of the loop over the load balancers.
  unfoldable pub check_load_balancer : Provider → List String → String × LoadBalancer → Checked
  check_load_balancer provider roles (name, lb) = do
    reject (name =ˢ "") (errorf "%s.load_balancers contains an empty name" [])
    reject (lb.subnets =ˢ "") (errorf "%s.load_balancers.%s.subnets is required" (str name ∷ []))
    reject (not (contains roles lb.subnets)) (
        errorf "%s.load_balancers.%s.subnets references unknown subnet role %q"
          (str name ∷ str lb.subnets ∷ []))
    check_listeners provider [] lb.listeners

  -- The switch on the kind.
  unfoldable pub check_kind : Provider → Checked
  check_kind provider =
      if provider.kind =ˢ "aws"
      then wrapped "%s.region %w" [] (validate_aws_region provider.region)
      else if provider.kind =ˢ "google"
      then reject (provider.region =ˢ "" || provider.project =ˢ "")
          (errorf "%s Google configuration requires region and project" [])
      else if provider.kind =ˢ "proxmox"
      then err (errorf "%s.kind proxmox is not supported by cluster create" [])
      else err (errorf "%s.kind must be aws or google" [])

  -- The checks of the VPC, and the prefix of its IPv4 network.
  unfoldable pub check_vpc : Vpc → Result (Option Prefix)
  check_vpc vpc = do
    reject (not (vpc.id =ˢ "") && (not (vpc.v4_cidr =ˢ "") || not (vpc.v6_cidr =ˢ "")))
        (errorf "%s.vpc.id cannot be combined with vpc CIDRs" [])
    reject (vpc.id =ˢ "" && vpc.v4_cidr =ˢ "") (errorf "%s.vpc.id or vpc.v4cidr is required" [])
    reject (not (vpc.v4_cidr =ˢ "") && not (is_some (parse_v4 platform vpc.v4_cidr)))
        (errorf "%s.vpc.v4cidr must be a canonical IPv4 CIDR" [])
    reject (not (vpc.v6_cidr =ˢ "") && not (vpc.v6_cidr =ˢ "auto"))
        (errorf "%s.vpc.v6cidr only supports \"auto\" for managed AWS generation" [])
    ok (if vpc.v4_cidr =ˢ "" then none else parse_v4 platform vpc.v4_cidr)

  -- validateProvider from the zones on.
  unfoldable pub check_layout : Provider → Option Prefix → Checked
  check_layout provider vpc = do
    reject (is_empty provider.zones) (errorf "%s.zones must contain at least one zone" [])
    for_each (check_zone provider vpc) provider.zones
    for_each (check_role provider.buckets) provider.roles
    for_each (check_load_balancer provider (zone_roles provider.zones)) provider.load_balancers

  -- validateProvider; the index only stands in the messages.
  unfoldable pub validate_provider : ℕ → Provider → Checked
  validate_provider index provider =
      wrapped "cluster.providers[%d]%w" (int (pos index) ∷ [])
        (do check_kind provider; vpc ← check_vpc provider.vpc; check_layout provider vpc)
