-- ===== src/ClusterConfig/Network.antt =====
-- service_network.go: the Kubernetes service networks and the addresses reserved in them.
pub mod Arithmetic
pub mod Laws
pub mod Service
use podplane.Base.{
  ℕ, ◌+◌, ◌-◌, ◌%◌, ◌/◌, ◌^◌, String, Bool, true, false, ◌&&◌, ◌||◌, not, List, [], ◌∷◌, ◌++◌, ltb,
  ◌==◌, if◌then◌else◌, length, is_empty, Result, ok, err, ◌>>=◌, ◌>>◌, reject, wrapped, errorf, str,
  int, pos,
}
use podplane.ClusterConfig.Netip.{
  Addr, invalid, v4, v6, Prefix, word, is4, masked, prefix_eq, next, below, prefix_contains,
  high_word, low_word, unmap,
}
use podplane.ClusterConfig.Platform.{Platform}

abbrev pub default_service_cidrs : List String
default_service_cidrs = "198.18.0.0/15" ∷ "fdc6::/108" ∷ []

abbrev pub ipv6_dns_offset : ℕ
ipv6_dns_offset = 65535

pub record ServiceNetwork : Type 0 where
  pub cidrs : List String
  pub api : List Addr
  pub core_dns : List Addr

-- The two calls of bits.Add64, and netip.AddrFrom16.
abbrev add_offset : Addr → ℕ → Addr
add_offset a offset =
    let sum = low_word a + offset in v6 ((high_word a + sum / word) % word) (sum % word)

-- coreDNSAddr
unfoldable pub core_dns_addr : Prefix → Addr
core_dns_addr p =
    if is4 p.addr
    then if ltb (32 - p.bits) 2 then invalid else unmap (add_offset p.addr (2 ^ (32 - p.bits) - 2))
    else add_offset p.addr ipv6_dns_offset

module _ (platform : Platform) where
  -- The body of the loop of `ServiceNetworkFromCIDRs`, up to the appends.
  unfoldable pub check_network : ℕ → Bool → Bool → String → Result Prefix
  check_network i seen4 seen6 raw = do
    p ←
        wrapped "service_cidr[%d] %q is invalid: %w" (int (pos i) ∷ str raw ∷ [])
          (platform.parse_prefix raw)
    reject (not (prefix_eq p (masked p))) (
        errorf "service_cidr[%d] %q is not canonical (use %q)"
          (int (pos i) ∷ str raw ∷ str (platform.prefix_string (masked p)) ∷ []))
    reject ((is4 p.addr && seen4) || (not (is4 p.addr) && seen6)) (
        errorf "service_cidr contains duplicate %s networks"
          (str (if is4 p.addr then "IPv4" else "IPv6") ∷ []))
    reject ((i == 0) && not (is4 p.addr))
        (errorf "service_cidr must be IPv4-primary; IPv6-primary configurations are unsupported" [])
    reject
        (not (prefix_contains p (core_dns_addr p)) || not (below (next p.addr) (core_dns_addr p)))
        (errorf "service_cidr %q has insufficient capacity for the Kubernetes API and DNS services"
          (str raw ∷ []))
    ok p

  abbrev add_network : ServiceNetwork → Prefix → ServiceNetwork
  add_network out p = record {
    cidrs = out.cidrs ++ platform.prefix_string p ∷ [];
    api = out.api ++ next p.addr ∷ [];
    core_dns = out.core_dns ++ core_dns_addr p ∷ [];
  }

  -- The loop.
  unfoldable pub networks : ℕ → Bool → Bool → ServiceNetwork → List String → Result ServiceNetwork
  networks i seen4 seen6 out [] = ok out
  networks i seen4 seen6 out (raw ∷ rest) = do
    p ← check_network i seen4 seen6 raw
    networks (i + 1) (seen4 || is4 p.addr) (seen6 || not (is4 p.addr)) (add_network out p) rest

  -- ServiceNetworkFromCIDRs
  unfoldable pub service_network_from_cidrs : List String → Result ServiceNetwork
  service_network_from_cidrs given = do
    let cidrs = if is_empty given then default_service_cidrs else given
    reject (ltb 2 (length cidrs)) (errorf "service_cidr supports at most two networks" [])
    networks 0 false false (record { cidrs = []; api = []; core_dns = [] }) cidrs
