-- ===== src/ClusterConfig/Network/Service.antt =====
-- What ServiceNetworkFromCIDRs promises, and when it accepts a single IPv4 network.
use podplane.Base.{
  ℕ, ◌-◌, ◌%◌, ◌^◌, ◌≤◌, ◌<◌, ◌≡◌, ◌≢◌, ◌↔◌, arith, true, false, List, [], ◌∷◌, map, String, ok,
  All, length, refl, reject-ok, is_empty, if◌then◌else◌, ltb-false,
}
use podplane.ClusterConfig.Netip.{v4, Prefix, InRange, v4_size, next, is4}
use podplane.ClusterConfig.Platform.{Platform}
use podplane.ClusterConfig.Network.{
  ServiceNetwork, default_service_cidrs, core_dns_addr, check_network, service_network_from_cidrs,
}
use podplane.ClusterConfig.Network.Arithmetic.{
  core_dns_addr-v4, block_fits, core_dns_addr-short, same_block, four-le-pow,
}
use podplane.ClusterConfig.Network.Laws.{
  IsServing, Rounds, networks-Rounds, check_network-Passed, check_network_of_Passed,
}

-- One IPv4 network, or one IPv4 network and then one IPv6 network.
abbrev pub IsDualStack : List Prefix → Type 0
IsDualStack (p ∷ []) = is4 p.addr ≡ true
IsDualStack (p ∷ q ∷ []) = (is4 p.addr ≡ true) × (is4 q.addr ≡ false)
IsDualStack _ = ⊥

-- The networks are what the texts parse to, in order.
abbrev pub Parses : Platform → List String → List Prefix → Type 0
Parses platform [] [] = Unit
Parses platform (raw ∷ rest) (p ∷ ps) = (platform.parse_prefix raw ≡ ok p) × Parses platform rest ps
Parses platform _ _ = ⊥

pub record IsAllocation (platform : Platform) (cidrs : List String) (net : ServiceNetwork)
    (ps : List Prefix) : Type 0 where
  pub parsed : Parses platform cidrs ps
  pub dual_stack : IsDualStack ps
  pub serving : All IsServing ps
  pub texts : net.cidrs ≡ map platform.prefix_string ps
  pub api : net.api ≡ map (λ p. next p.addr) ps
  pub core_dns : net.core_dns ≡ map core_dns_addr ps

Rounds-IsDualStack :
    (platform : Platform) (cidrs : List String) (ps : List Prefix)
    → cidrs ≢ []
    → length cidrs ≤ 2
    → Rounds platform 0 false false cidrs ps
    → Parses platform cidrs ps × IsDualStack ps × All IsServing ps
Rounds-IsDualStack platform [] ps some_given few h = absurd (some_given refl)
Rounds-IsDualStack platform (a ∷ []) (p ∷ []) some_given few (one, _) =
    ((one.parsed, tt), ground (arith, one.primary), (one.serving, tt))
Rounds-IsDualStack platform (a ∷ b ∷ []) (p ∷ q ∷ []) some_given few (one, (two, _)) = (
  (one.parsed, (two.parsed, tt)),
  (ground (arith, one.primary), ground (arith, one.primary, two.fresh)),
  (one.serving, (two.serving, tt)),
)
Rounds-IsDualStack platform (a ∷ []) [] some_given few h = elim h [ ]
Rounds-IsDualStack platform (a ∷ []) (p ∷ q ∷ _) some_given few (_, h) = elim h [ ]
Rounds-IsDualStack platform (a ∷ b ∷ []) [] some_given few h = elim h [ ]
Rounds-IsDualStack platform (a ∷ b ∷ []) (p ∷ []) some_given few (_, h) = elim h [ ]
Rounds-IsDualStack platform (a ∷ b ∷ []) (p ∷ q ∷ r ∷ _) some_given few (_, (_, h)) = elim h [ ]
Rounds-IsDualStack platform (a ∷ b ∷ c ∷ cs) ps some_given few h = absurd (omega arith)

-- The list that the function works on: the defaults if none is given.
abbrev pub effective : List String → List String
effective given = if is_empty given then default_service_cidrs else given

effective-ne-nil : (given : List String) → effective given ≢ []
effective-ne-nil [] = cc
effective-ne-nil (c ∷ cs) = cc

-- A list of service CIDRs that is accepted parses to one IPv4 network, or to one IPv4 and then
-- one IPv6 network, each canonical, with its DNS address inside the network and above its API
-- address; the result lists the canonical texts, the addresses after the networks' first and
-- the DNS addresses, in order. No list stands for the default networks.
pub service_network_from_cidrs-IsAllocation :
    (platform : Platform) (given : List String) (net : ServiceNetwork)
    → service_network_from_cidrs platform given ≡ ok net
    → (ps : List Prefix) × IsAllocation platform (effective given) net ps
unfolding service_network_from_cidrs
service_network_from_cidrs-IsAllocation platform given net h =
    let (few, h') = reject-ok _ _ _ h in
    let (ps, rounds, x) = networks-Rounds platform 0 false false _ (effective given) net h' in
    let (parsed, dual_stack, serving) =
      Rounds-IsDualStack platform (effective given) ps (effective-ne-nil given) (ltb-false _ _ few)
        rounds in
    (
      ps,
      record {
        parsed = parsed;
        dual_stack = dual_stack;
        serving = serving;
        texts = x.cidrs;
        api = x.api;
        core_dns = x.core_dns;
      },
    )

abbrev pub v4_prefix : ℕ → ℕ → Prefix
v4_prefix a bits = record { addr = v4 a; bits = bits }

IsServing-v4 :
    (a bits : ℕ) → a < v4_size → a % 2 ^ (32 - bits) ≡ 0 → bits ≤ 30 → IsServing (v4_prefix a bits)
IsServing-v4 a bits small aligned short =
    let dns = core_dns_addr-v4 a bits small short aligned in
    let four = four-le-pow (32 - bits) (omega arith) in
    let fits = block_fits a (32 - bits) small (omega arith) aligned in
    let same = same_block a (32 - bits) (2 ^ (32 - bits) - 2) aligned (omega arith) in
    record {
      canonical = ground arith;
      dns_inside = rw dns (ground (arith, same));
      dns_above_api = rw dns (ground (arith, four, fits));
    }

IsServing-v4_bounds :
    (a bits : ℕ) → IsServing (v4_prefix a bits) → (a % 2 ^ (32 - bits) ≡ 0) × (bits ≤ 30)
IsServing-v4_bounds a bits s =
    (ground (arith, s.canonical), ground (arith, s.dns_inside, core_dns_addr-short a bits))

-- An IPv4 network that comes first in the list, given as a text that parses to it, is accepted
-- exactly when it is canonical and holds at least four addresses.
pub check_network-v4_iff :
    (platform : Platform) (raw : String) (a bits : ℕ)
    → platform.parse_prefix raw ≡ ok (v4_prefix a bits)
    → InRange (v4_prefix a bits)
    → (check_network platform 0 false false raw ≡ ok (v4_prefix a bits))
      ↔ ((a % 2 ^ (32 - bits) ≡ 0) × (bits ≤ 30))
check_network-v4_iff platform raw a bits parsed range = (
  λ h. IsServing-v4_bounds a bits (check_network-Passed platform 0 false false raw _ h).serving,
  λ h. check_network_of_Passed platform 0 false false raw _ (record {
    parsed = parsed;
    serving = IsServing-v4 a bits range.0 h.0 h.1;
    fresh = refl;
    primary = refl;
  }),
)
