-- ===== src/FakeVault/Handler/Grants.antt =====
-- What an answer of the handler asks of a token.
use podplane.Base.{
  ℕ, Bool, true, false, ◌&&◌, ◌||◌, String, ◌<>◌, ◌=ˢ◌, Option, none, some, ◌≡◌, ◌⊎◌, inl, inr,
  refl, sym, ◌∙◌, ap, subst, arith, Option-cases, eq_iff, and_split,
}
use podplane.FakeVault.Handler.Tokens.{IsLive, authorize-same}
use podplane.FakeVault.Handler.StorePaths.{StaysIn, has_prefix-StaysIn}
use podplane.FakeVault.Handler.{
  Token, Handler, Request, Action, refused, login, mount, cluster_delete, unlock, undelete, destroy,
  list_secrets, remove, write, read, serve_mount, serve_cluster_delete, serve_unlock, authorize,
  may_read, by_method, kv_for, serve_kv, serve_secret,
}

-- Where the secrets of a token's role are.
abbrev pub own_part : String → Token → String
own_part cluster entry =
    "secret/data/" <> (cluster <> ("/" <> (entry.namespace <> ("/" <> (entry.role <> "/")))))

-- A path below the token's own part of the secrets, behind a slash, with what becomes of it in the
-- store.
abbrev pub InScope : String → String → Token → Type 0
InScope cluster path entry =
    (clean : String) × (path ≡ "/" <> clean) × StaysIn (own_part cluster entry) clean

-- What an action on secrets asks of the token: to read, that the path is in the token's scope or
-- that it is an operator's; for all else, that it is an operator's.
abbrev pub Grants : Token → Action → Type 0
Grants entry (read cluster path) = (entry.operator ≡ true) ⊎ InScope cluster path entry
Grants entry (undelete cluster path) = entry.operator ≡ true
Grants entry (destroy cluster path) = entry.operator ≡ true
Grants entry (list_secrets cluster path) = entry.operator ≡ true
Grants entry (remove cluster path) = entry.operator ≡ true
Grants entry (write cluster path) = entry.operator ≡ true
Grants entry (refused status) = Unit
Grants entry (login cluster) = Unit
Grants entry (mount cluster) = Unit
Grants entry (cluster_delete cluster) = Unit
Grants entry (unlock cluster) = Unit

-- The action is on the secrets of a cluster.
abbrev pub target : Action → Option String
target (read cluster path) = some cluster
target (undelete cluster path) = some cluster
target (destroy cluster path) = some cluster
target (list_secrets cluster path) = some cluster
target (remove cluster path) = some cluster
target (write cluster path) = some cluster
target _ = none

-- The actions of the local transport.
abbrev pub is_local : Action → Bool
is_local (cluster_delete cluster) = true
is_local (unlock cluster) = true
is_local _ = false

-- No cluster is deleted or unlocked, and an answer on the secrets of a cluster has a live token for the cluster that grants it.
pub record IsPermitted (now : ℕ) (r : Request) (h : Handler) (answer : Action × Handler)
    : Type 0 where
  pub remote : is_local answer.0 ≡ false
  pub token_for :
      (cluster : String)
      → target answer.0 ≡ some cluster
      → (entry : Token) × IsLive now r h cluster entry × Grants entry answer.0

pub Grants-of_operator :
    (entry : Token) (action : Action) → entry.operator ≡ true → Grants entry action
Grants-of_operator entry (read cluster path) op = inl op
Grants-of_operator entry (undelete cluster path) op = op
Grants-of_operator entry (destroy cluster path) op = op
Grants-of_operator entry (list_secrets cluster path) op = op
Grants-of_operator entry (remove cluster path) op = op
Grants-of_operator entry (write cluster path) op = op
Grants-of_operator entry (refused status) op = tt
Grants-of_operator entry (login cluster) op = tt
Grants-of_operator entry (mount cluster) op = tt
Grants-of_operator entry (cluster_delete cluster) op = tt
Grants-of_operator entry (unlock cluster) op = tt

by_method-target :
    (r : Request) (cluster path c : String)
    → target (by_method r cluster path) ≡ some c
    → cluster ≡ c
by_method-target r cluster path c e = ground arith

-- A plain GET reads, if it is authorized at all.
kv_for-Grants :
    (r : Request) (cluster path : String) (entry : Token)
    → r.method ≡ "GET"
    → r.list ≡ ""
    → InScope cluster path entry
    → (o : Option String) → ((c : String) → o ≡ some c → c ≡ cluster)
    → Grants entry (kv_for r path o)
kv_for-Grants r cluster path entry get plain inside none same = tt
kv_for-Grants r cluster path entry get plain inside (some c) same =
    rw (get, plain) (inr (subst (λ (d : String). InScope d path entry) (sym (same c refl)) inside))

module _ (now : ℕ) (r : Request) (cluster path : String) (h : Handler)
    (untrusted : h.trusted ≡ false) where
  serve_kv-target : (c : String) → target (serve_kv now r cluster path h).0 ≡ some c → cluster ≡ c
  unfolding serve_kv
  serve_kv-target c e = elim (Option-cases (authorize now r.client_token cluster h).0) [
    | inl missing ↦ absurd (ground arith)
    | inr (c', found) ↦
        sym (authorize-same now r.client_token cluster c' h untrusted found)
        ∙ by_method-target r c' path c (rw found at e)
  ]

  pub serve_secret-target :
      (c : String) → target (serve_secret now r cluster path h).0 ≡ some c → cluster ≡ c
  unfolding serve_secret
  serve_secret-target c e = ground (arith, serve_kv-target c)

  pub serve_secret-Grants :
      (entry : Token)
      → r.method ≡ "GET"
      → r.list ≡ ""
      → InScope cluster path entry
      → Grants entry (serve_secret now r cluster path h).0
  unfolding serve_secret serve_kv
  serve_secret-Grants entry get plain inside =
      let reads : (r.method =ˢ "POST" || r.method =ˢ "PUT") ≡ false =
        ap (λ (m : String). m =ˢ "POST" || m =ˢ "PUT") get in
      rw reads (
        kv_for-Grants r cluster path entry get plain inside
          (authorize now r.client_token cluster h).0
          (λ c found. authorize-same now r.client_token cluster c h untrusted found))

pub serve_secret-remote :
    (now : ℕ) (r : Request) (cluster path : String) (h : Handler)
    → is_local (serve_secret now r cluster path h).0 ≡ false
unfolding serve_secret serve_kv
serve_secret-remote now r cluster path h = ground arith

-- The functions of the local transport refuse what comes from elsewhere.
pub serve_mount-idle :
    (r : Request) (cluster : String)
    → (is_local (serve_mount r cluster) ≡ false) × (target (serve_mount r cluster) ≡ none)
serve_mount-idle r cluster = (ground arith, ground arith)

pub serve_cluster_delete-idle :
    (r : Request) (cluster : String) (h : Handler)
    → h.trusted ≡ false
    → (is_local (serve_cluster_delete r cluster h) ≡ false)
      × (target (serve_cluster_delete r cluster h) ≡ none)
serve_cluster_delete-idle r cluster h untrusted = (rw untrusted refl, rw untrusted refl)

pub serve_unlock-idle :
    (r : Request) (cluster : String) (h : Handler)
    → h.trusted ≡ false
    → (is_local (serve_unlock r cluster h) ≡ false) × (target (serve_unlock r cluster h) ≡ none)
serve_unlock-idle r cluster h untrusted = (rw untrusted refl, rw untrusted refl)

pub may_read_split :
    (r : Request) (cluster path : String) (entry : Token)
    → may_read r cluster path entry ≡ true
    → (r.method ≡ "GET") × (r.list ≡ "") × StaysIn (own_part cluster entry) path
may_read_split r cluster path entry e =
    let (asked, inside) = and_split (r.method =ˢ "GET" && r.list =ˢ "") _ e in
    let (get, plain) = and_split (r.method =ˢ "GET") _ asked in
    (
      (eq_iff _ _).0 get,
      (eq_iff _ _).0 plain,
      has_prefix-StaysIn (own_part cluster entry)
          (cluster <> ("/" <> (entry.namespace <> ("/" <> (entry.role <> "/"))))) path refl inside,
    )
