-- ===== src/FakeVault/Handler/Tokens.antt =====
-- What it means that a token was found.
use podplane.Base.{
  ℕ, true, false, String, ◌=ˢ◌, Option, none, some, ltb, ◌≡◌, inl, inr, arith, Bool-cases,
  Option-cases, eq_iff,
}
use podplane.Base.Assoc.{lookup}
use podplane.FakeVault.Handler.{
  Token, Handler, Request, unexpired, token_entry, authenticate, for_cluster, authorize,
}

-- The request has a token that the handler knows, that has not expired, and that is for the cluster.
pub record IsLive (now : ℕ) (r : Request) (h : Handler) (cluster : String) (entry : Token)
    : Type 0 where
  pub known : lookup r.client_token h.tokens ≡ some entry
  pub fresh : ltb now entry.expires_at ≡ true
  pub matching : entry.cluster_id ≡ cluster

unexpired-found :
    (now : ℕ) (name : String) (h : Handler) (o : Option Token) (entry : Token)
    → (unexpired now name h o).0 ≡ some entry
    → (o ≡ some entry) × (ltb now entry.expires_at ≡ true)
unfolding unexpired
unexpired-found now name h none entry e = cc
unexpired-found now name h (some found) entry e = ground arith

for_cluster-found :
    (cluster : String) (o : Option Token) (entry : Token)
    → for_cluster cluster o ≡ some entry
    → (o ≡ some entry) × (entry.cluster_id ≡ cluster)
for_cluster-found cluster none entry e = cc
for_cluster-found cluster (some found) entry e = ground (arith, eq_iff found.cluster_id cluster)

token_entry-found :
    (now : ℕ) (name : String) (h : Handler) (entry : Token)
    → (token_entry now name h).0 ≡ some entry
    → (lookup name h.tokens ≡ some entry) × (ltb now entry.expires_at ≡ true)
unfolding token_entry
token_entry-found now name h entry e = elim (Bool-cases (name =ˢ "")) [
  | inl blank ↦ absurd (ground arith)
  | inr given ↦ unexpired-found now name h (lookup name h.tokens) entry (rw given at e)
]

pub token_entry-trusted :
    (now : ℕ) (name : String) (h : Handler) → (token_entry now name h).1.trusted ≡ h.trusted
unfolding token_entry unexpired
token_entry-trusted now name h = ground arith

pub authenticate-IsLive :
    (now : ℕ) (r : Request) (cluster : String) (h : Handler) (entry : Token)
    → (authenticate now r.client_token cluster h).0 ≡ some entry
    → IsLive now r h cluster entry
unfolding authenticate
authenticate-IsLive now r cluster h entry e =
    let (found, same) = for_cluster-found cluster (token_entry now r.client_token h).0 entry e in
    let (known, fresh) = token_entry-found now r.client_token h entry found in
    record { known = known; fresh = fresh; matching = same }

pub authorize-same :
    (now : ℕ) (name cluster c : String) (h : Handler)
    → h.trusted ≡ false
    → (authorize now name cluster h).0 ≡ some c
    → c ≡ cluster
unfolding authorize authenticate
authorize-same now name cluster c h untrusted e =
    elim (Option-cases (for_cluster cluster (token_entry now name h).0)) [
      | inl missing ↦ absurd (ground arith)
      | inr (entry, found) ↦
          let (_, same) = for_cluster-found cluster (token_entry now name h).0 entry found in
          ground arith
    ]
