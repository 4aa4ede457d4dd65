-- ===== src/ClusterConfig/Validate/Listeners.antt =====
-- What an accepted configuration guarantees of its listeners.
use podplane.Base.{
  ℕ, ◌≤◌, ℤ, pos, negsuc, ◌=ℤ◌, String, ◌=ˢ◌, true, false, not, ◌&&◌, List, [], ◌∷◌, any, ◌≡◌, ◌≢◌,
  refl, arith, Option, some, Accepts, All, All-map, reject-ok, then-ok, wrapped-ok, bind-ok,
  for_each-ok, for_index-ok, contains, not-false, or-false, errorf, for_each, int, is_empty, eq_iff,
  accepted, not, for_each, Bool-cases, inl, inr,
}
use podplane.Base.Assoc.{Assoc, has_key}
use podplane.ClusterConfig.Platform.{Platform}
use podplane.ClusterConfig.Types.{Listener, LoadBalancer, Provider, Pool, ClusterConfig}
use podplane.ClusterConfig.Resolved.{resolved_target_port}
use podplane.ClusterConfig.Infrastructure.{
  out_of_range, check_listener, check_listeners, check_load_balancer, check_layout,
  validate_provider, check_kind, check_vpc, zone_roles,
}
use podplane.ClusterConfig.Netip.{Prefix}
use podplane.ClusterConfig.Validate.{
  validate, check_providers, check_identity, check_services, check_pool,
}

-- A TCP port: 1 to 65535.
pub record IsPort (z : ℤ) : Type 0 where
  pub number : ℕ
  pub same : z ≡ pos number
  pub positive : 1 ≤ number
  pub small : number ≤ 65535

-- A listener has a TCP port and a pool that is configured, and on Google it passes the port through.
pub record Fits (provider : Provider) (pools : Assoc Pool) (l : Listener) : Type 0 where
  pub port : IsPort l.port
  pub pool : has_key pools l.pool ≡ true
  pub passthrough : provider.kind ≡ "google" → resolved_target_port l ≡ l.port

-- No two listeners of a load balancer have the same port.
abbrev pub Apart : List Listener → Type 0
Apart [] = Unit
Apart (l ∷ ls) = All (λ (m : Listener). m.port ≢ l.port) ls × Apart ls

-- A listener whose port is none of these.
abbrev pub Unseen : List ℤ → Listener → Type 0
Unseen ports l = All (λ p. l.port ≢ p) ports

IsPort-of_test : (z : ℤ) → out_of_range z ≡ false → IsPort z
IsPort-of_test (pos n) h = record {
  number = n;
  same = refl;
  positive = ground arith;
  small = ground arith;
}
IsPort-of_test (negsuc n) h = absurd (ground arith)

pub =ℤ-refl : (z : ℤ) → (z =ℤ z) ≡ true
=ℤ-refl z = ground arith

eq_of_=ℤ : (a b : ℤ) → (a =ℤ b) ≡ true → a ≡ b
eq_of_=ℤ (pos a) (pos b) h = ground arith
eq_of_=ℤ (pos a) (negsuc b) h = absurd (ground arith)
eq_of_=ℤ (negsuc a) (pos b) h = absurd (ground arith)
eq_of_=ℤ (negsuc a) (negsuc b) h = ground arith

fresh : (ports : List ℤ) (z : ℤ) → any (λ p. p =ℤ z) ports ≡ false → All (λ p. z ≢ p) ports
fresh [] z h = tt
fresh (p ∷ ports) z h =
    let (differ, rest) = or-false (p =ℤ z) _ h in
    ((λ same. absurd (ground (arith, =ℤ-refl p, differ, same))), fresh ports z rest)

same_port :
    (provider : Provider) (l : Listener)
    → (provider.kind =ˢ "google" && not (resolved_target_port l =ℤ l.port)) ≡ false
    → provider.kind ≡ "google"
    → resolved_target_port l ≡ l.port
same_port provider l h google = elim (Bool-cases (resolved_target_port l =ℤ l.port)) [
  | inl same ↦ eq_of_=ℤ _ _ same
  | inr differ ↦ absurd (ground (arith, (eq_iff _ _).1 google, differ, h))
]

module _ (platform : Platform) (pools : Assoc Pool) (provider : Provider) where
  check_listener-Fits :
      (ports : List ℤ) (l : Listener)
      → Accepts (check_listener platform pools provider ports l)
      → Fits provider pools l × Unseen ports l
  unfolding check_listener
  check_listener-Fits ports l h =
      let (range, h₁) = reject-ok _ _ _ h in
      let (new, h₂) = reject-ok _ _ _ h₁ in
      let (_, h₃) = reject-ok _ _ _ h₂ in
      let (_, h₄) = then-ok _ _ h₃ in
      let (google, h₅) = reject-ok _ _ _ h₄ in
      (
        record {
          port = IsPort-of_test l.port range;
          pool = not-false _ (accepted _ _ h₅);
          passthrough = same_port provider l google;
        },
        fresh ports l.port new,
      )

  -- The listeners of a loop that has seen `ports`: each fits, and none has a port of those before it.
  check_listeners-Fits :
      (ports : List ℤ) (ls : List Listener)
      → Accepts (check_listeners platform pools provider ports ls)
      → All (Fits provider pools) ls × All (Unseen ports) ls × Apart ls
  unfolding check_listeners
  check_listeners-Fits ports [] h = (tt, tt, tt)
  check_listeners-Fits ports (l ∷ ls) h =
      let (first, rest) = then-ok _ _ h in
      let (fits, apart) = check_listener-Fits ports l first in
      let (others, seen, separate) = check_listeners-Fits (l.port ∷ ports) ls rest in
      (
        (fits, others),
        (apart, All-map ls (λ m (_, others). others) seen),
        (All-map ls (λ m (differ, _). differ) seen, separate),
      )

  -- A load balancer that passes: its listeners fit and are apart, and its subnets are of a known role.
  pub record Sound (roles : List String) (named : String × LoadBalancer) : Type 0 where
    pub fits : All (Fits provider pools) named.1.listeners
    pub apart : Apart named.1.listeners
    pub role : contains roles named.1.subnets ≡ true

  check_load_balancer-Sound :
      (roles : List String) (named : String × LoadBalancer)
      → Accepts (check_load_balancer platform pools provider roles named)
      → Sound roles named
  unfolding check_load_balancer
  check_load_balancer-Sound roles (name, lb) h =
      let (_, h₁) =
        reject-ok (name =ˢ "") (errorf "%s.load_balancers contains an empty name" []) _ h in
      let (_, h₂) = reject-ok _ _ _ h₁ in
      let (known, h₃) = reject-ok _ _ _ h₂ in
      let (fits, _, apart) = check_listeners-Fits [] lb.listeners h₃ in
      record { fits = fits; apart = apart; role = not-false _ known }

  -- Every load balancer of the provider is sound.
  abbrev pub Layout : Type 0
  Layout = All (Sound (zone_roles provider.zones)) provider.load_balancers

  check_layout-Layout :
      (vpc : Option Prefix) → Accepts (check_layout platform pools provider vpc) → Layout
  unfolding check_layout
  check_layout-Layout vpc h =
      let (_, h₁) =
        reject-ok (is_empty provider.zones) (errorf "%s.zones must contain at least one zone" []) _
          h in
      let (_, h₂) = then-ok _ _ h₁ in
      let (_, h₃) = then-ok _ _ h₂ in All-map _ (check_load_balancer-Sound _) (for_each-ok _ _ h₃)

  validate_provider-Layout :
      (index : ℕ) → Accepts (validate_provider platform pools index provider) → Layout
  unfolding validate_provider
  validate_provider-Layout index h =
      let passed = wrapped-ok "cluster.providers[%d]%w" (int (pos index) ∷ []) _ h in
      let (_, h₁) = then-ok (check_kind platform pools provider) _ passed in
      let (vpc, _, h₂) = bind-ok (check_vpc platform pools provider.vpc) _ h₁ in
      check_layout-Layout vpc h₂

-- In a configuration that Validate accepts, every provider's load balancers take their subnets
-- by a role that some subnet of the provider has, and each of their listeners has a port
-- between 1 and 65535 that no other listener of the load balancer has, names a configured
-- pool, and on Google passes the port through to the target unchanged.
pub validate-Layout :
    (platform : Platform) (cfg : ClusterConfig)
    → Accepts (validate platform (some cfg))
    → All (Layout platform cfg.cluster.pools) cfg.cluster.providers
unfolding validate check_providers
validate-Layout platform cfg h =
    let (_, h₁) = then-ok (check_identity platform cfg.cluster) _ h in
    let (_, h₂) = then-ok (check_services platform cfg.cluster) _ h₁ in
    let (_, h₃) = reject-ok (is_empty cfg.cluster.providers) _ _ h₂ in
    let (_, h₄) = reject-ok (is_empty cfg.cluster.pools) _ _ h₃ in
    let (_, h₅) = then-ok (for_each check_pool cfg.cluster.pools) _ h₄ in
    let (providers, _) = then-ok _ _ h₅ in
    All-map _
      (λ provider (j, passed).
        validate_provider-Layout platform cfg.cluster.pools provider j passed)
      (for_index-ok _ 0 _ providers)
