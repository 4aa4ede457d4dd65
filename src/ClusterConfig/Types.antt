-- ===== src/ClusterConfig/Types.antt =====
-- types.go: the cluster configuration. A Go pointer that may be nil is an `Option`, a map is an
-- association list in the order of iteration, and an int is an integer.
use podplane.Base.{ℤ, String, Bool, List, Option}
use podplane.Base.Assoc.{Assoc}

pub record Spiffe : Type 0 where
  pub trust_domain : String

pub record RegistryIngress : Type 0 where
  pub enabled : Bool

pub record Registry : Type 0 where
  pub hostname : String
  pub ingress : RegistryIngress

pub record SecretsProvider : Type 0 where
  pub kind : String
  pub key_prefix : String
  pub object_type : String
  pub region : String
  pub project_id : String
  pub location : String
  pub address : String
  pub mount_path : String
  pub ca_cert : String
  pub auth_path : String
  pub operator_role : String

pub record Secrets : Type 0 where
  pub default_provider : String
  pub providers : Assoc SecretsProvider

pub record Seed : Type 0 where
  pub name : String
  pub version : String
  pub digest : String

pub record ComponentsRegistryMirror : Type 0 where
  pub enabled : Bool
  pub hostname : String
  pub prefix : String

pub record ComponentsRegistry : Type 0 where
  pub mirror : ComponentsRegistryMirror

pub record ComponentsSourceRef : Type 0 where
  pub branch : String
  pub tag : String
  pub semver : String
  pub commit : String

pub record ComponentsSourceSecretRef : Type 0 where
  pub name : String

pub record ComponentsSource : Type 0 where
  pub url : String
  pub ref : ComponentsSourceRef
  pub secret_ref : Option ComponentsSourceSecretRef

pub record Components : Type 0 where
  pub source : Option ComponentsSource
  pub registry : Option ComponentsRegistry

pub record Acme : Type 0 where
  pub server : String
  pub email : String

pub record Oidc : Type 0 where
  pub issuer_url : String
  pub client_id : String
  pub username_claim : String
  pub groups_claim : String
  pub signing_algs : List String
  pub ca_cert : String

pub record DomainProvider : Type 0 where
  pub kind : String
  pub account : String
  pub profile : String
  pub region : String
  pub hosted_zone_id : String
  pub role_arn : String
  pub project : String
  pub hosted_zone_name : String

pub record Domain : Type 0 where
  pub zone : String
  pub provider : Option DomainProvider
  pub load_balancer : String

pub record Tunnel : Type 0 where
  pub kind : String
  pub id : String
  pub credential_secret : String

pub record NatGroup : Type 0 where
  pub arch : String
  pub instance_type : String
  pub subnet_pool : String

pub record TenantNat : Type 0 where
  pub group : String
  pub instance_type_ladder : List String

pub record Nat : Type 0 where
  pub nat_mode : String
  pub fixed_public_ipv4_count : ℤ
  pub groups : Assoc NatGroup
  pub tenants : Assoc TenantNat

pub record Pool : Type 0 where
  pub arch : String
  pub instance_type : String
  pub size : ℤ
  pub disk_size : ℤ

pub record Vpc : Type 0 where
  pub id : String
  pub v4_cidr : String
  pub v6_cidr : String

pub record Subnet : Type 0 where
  pub pool : String
  pub services : List String
  pub is_public : Bool
  pub id : String
  pub v4_cidr : String
  pub v6_cidr : String

pub record Listener : Type 0 where
  pub port : ℤ
  pub target_port : ℤ
  pub proxy_port : Option ℤ
  pub pool : String

pub record LoadBalancer : Type 0 where
  pub is_public : Bool
  pub subnets : String
  pub listeners : List Listener

pub record Role : Type 0 where
  pub buckets : List String
  pub permissions : String

pub record Provider : Type 0 where
  pub kind : String
  pub region : String
  pub account : String
  pub profile : String
  pub project : String
  pub tags : Assoc String
  pub vpc : Vpc
  pub zones : Assoc (List Subnet)
  pub load_balancers : Assoc LoadBalancer
  pub buckets : List String
  pub roles : Assoc Role

pub record Kubernetes : Type 0 where
  pub api_hostname : String
  pub api_port : ℤ
  pub api_load_balancer : String
  pub cluster_cidr : List String
  pub service_cidr : List String

pub record Cluster : Type 0 where
  pub id : String
  pub name : String
  pub oidc : Oidc
  pub acme : Option Acme
  pub domains : List Domain
  pub tunnel : Option Tunnel
  pub registry : Registry
  pub pools : Assoc Pool
  pub providers : List Provider
  pub secrets : Secrets
  pub spiffe : Spiffe
  pub kubernetes : Kubernetes
  pub seed : Seed
  pub components : Components
  pub nat : Option Nat

pub record ClusterConfig : Type 0 where
  pub schema : String
  pub cluster : Cluster
