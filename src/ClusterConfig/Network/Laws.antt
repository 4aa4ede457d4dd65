-- ===== src/ClusterConfig/Network/Laws.antt =====
-- What an accepted list of service CIDRs guarantees.
use mathlib.Core.List.{append_assoc, append-nil}
use podplane.Base.{
  ◌∙◌, sym, ap, ℕ, ◌+◌, ◌≡◌, Bool, true, false, ◌&&◌, ◌||◌, not, ◌==◌, bind-ok, reject-ok,
  wrapped-ok, ok-injective, not-false, or-false, subst, List, [], ◌∷◌, ◌++◌, map, String, ok,
}
use podplane.ClusterConfig.Netip.{Prefix, next, below, prefix_contains, masked, is4, prefix_eq}
use podplane.ClusterConfig.Platform.{Platform}
use podplane.ClusterConfig.Network.{
  ServiceNetwork, add_network, core_dns_addr, check_network, networks,
}

-- A network that can serve: canonical, with the DNS address inside and above the API address.
pub record IsServing (p : Prefix) : Type 0 where
  pub canonical : prefix_eq p (masked p) ≡ true
  pub dns_inside : prefix_contains p (core_dns_addr p) ≡ true
  pub dns_above_api : below (next p.addr) (core_dns_addr p) ≡ true

module _ (platform : Platform) where
  -- What one round of the loop has checked.
  pub record Passed (i : ℕ) (seen4 seen6 : Bool) (raw : String) (p : Prefix) : Type 0 where
    pub parsed : platform.parse_prefix raw ≡ ok p
    pub serving : IsServing p
    pub fresh : ((is4 p.addr && seen4) || (not (is4 p.addr) && seen6)) ≡ false
    pub primary : ((i == 0) && not (is4 p.addr)) ≡ false

  pub check_network-Passed :
      (i : ℕ) (seen4 seen6 : Bool) (raw : String) (p : Prefix)
      → check_network platform i seen4 seen6 raw ≡ ok p
      → Passed i seen4 seen6 raw p
  unfolding check_network
  check_network-Passed i seen4 seen6 raw p h =
      let (q, e, h₀) = bind-ok _ _ h in
      let (canonical, h₁) = reject-ok _ _ _ h₀ in
      let (fresh, h₂) = reject-ok _ _ _ h₁ in
      let (primary, h₃) = reject-ok _ _ _ h₂ in
      let (roomy, same) = reject-ok _ _ _ h₃ in
      subst (Passed i seen4 seen6 raw) (ok-injective same) (record {
        parsed = wrapped-ok _ _ _ e;
        serving = record {
          canonical = not-false _ canonical;
          dns_inside = not-false _ (or-false _ _ roomy).0;
          dns_above_api = not-false _ (or-false _ _ roomy).1;
        };
        fresh = fresh;
        primary = primary;
      })

  pub check_network_of_Passed :
      (i : ℕ) (seen4 seen6 : Bool) (raw : String) (p : Prefix)
      → Passed i seen4 seen6 raw p
      → check_network platform i seen4 seen6 raw ≡ ok p
  unfolding check_network
  check_network_of_Passed i seen4 seen6 raw p x = rw (
    x.parsed, x.serving.canonical, x.fresh, x.primary, x.serving.dns_inside,
    x.serving.dns_above_api,
  )

  -- Each round passed, with the flags and the index that the loop carries.
  abbrev pub Rounds : ℕ → Bool → Bool → List String → List Prefix → Type 0
  Rounds i seen4 seen6 [] [] = Unit
  Rounds i seen4 seen6 (raw ∷ rest) (p ∷ ps) =
      Passed i seen4 seen6 raw p
      × Rounds (i + 1) (seen4 || is4 p.addr) (seen6 || not (is4 p.addr)) rest ps
  Rounds i seen4 seen6 _ _ = ⊥

  -- The result lists, behind what was there before: canonical text, API address and DNS address.
  pub record Extends (out : ServiceNetwork) (ps : List Prefix) (net : ServiceNetwork) : Type 0 where
    pub cidrs : net.cidrs ≡ out.cidrs ++ map platform.prefix_string ps
    pub api : net.api ≡ out.api ++ map (λ p. next p.addr) ps
    pub core_dns : net.core_dns ≡ out.core_dns ++ map core_dns_addr ps

  Extends-cons :
      (out : ServiceNetwork) (p : Prefix) (ps : List Prefix) (net : ServiceNetwork)
      → Extends (add_network platform out p) ps net
      → Extends out (p ∷ ps) net
  Extends-cons out p ps net x = record {
    cidrs = x.cidrs ∙ append_assoc out.cidrs _ _;
    api = x.api ∙ append_assoc out.api _ _;
    core_dns = x.core_dns ∙ append_assoc out.core_dns _ _;
  }

  pub networks-Rounds :
      (i : ℕ) (seen4 seen6 : Bool) (out : ServiceNetwork) (cidrs : List String)
      (net : ServiceNetwork)
      → networks platform i seen4 seen6 out cidrs ≡ ok net
      → (ps : List Prefix) × Rounds i seen4 seen6 cidrs ps × Extends out ps net
  unfolding networks
  networks-Rounds i seen4 seen6 out [] net h =
      let same = ok-injective h in
      (
        [],
        tt,
        record {
          cidrs = sym (ap (λ (s : ServiceNetwork). s.cidrs) same) ∙ sym (append-nil _);
          api = sym (ap (λ (s : ServiceNetwork). s.api) same) ∙ sym (append-nil _);
          core_dns = sym (ap (λ (s : ServiceNetwork). s.core_dns) same) ∙ sym (append-nil _);
        },
      )
  networks-Rounds i seen4 seen6 out (raw ∷ rest) net h =
      let (p, passed, h') = bind-ok _ _ h in
      let (ps, rounds, extends) = networks-Rounds (i + 1) _ _ _ rest net h' in
      (
        p ∷ ps,
        (check_network-Passed i seen4 seen6 raw p passed, rounds),
        Extends-cons out p ps net extends,
      )
