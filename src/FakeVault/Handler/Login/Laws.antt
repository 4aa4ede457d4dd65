-- ===== src/FakeVault/Handler/Login/Laws.antt =====
-- What a token that serveLogin issues may do, and for how long.
use text.Mathlib.TextPositions.{eq_refl}
use Prim.Native.Char.{code}
use Prim.Native.String.{[], ◌∷◌}
use podplane.Base.{
  ap, subst, ℕ, ◌+◌, ◌≤◌, ◌<◌, true, false, not, ◌&&◌, ◌||◌, String, ◌=ˢ◌, some, Result, ok, err,
  ltb, ◌≡◌, ◌≢◌, not-false, ◌⊎◌, inl, inr, refl, arith, Bool-cases, eq_iff, or-false, and_split,
}
use podplane.Base.Assoc.{insert, lookup, lookup-insert}
use podplane.Base.Strings.{trim_space, contains_any, is_slash}
use podplane.FakeVault.Handler.{Token, Handler}
use podplane.FakeVault.Handler.Login.{
  Identity, LoginRequest, Validator, Login, denied, granted, is_excluded, valid_identity_segment,
  operator_role, is_operator, mismatched, unacceptable, expiry, new_token, issue, admit,
  serve_login,
}

-- A name that is one part of a path.
abbrev pub IsPlain : String → Type 0
IsPlain name = (name ≢ "") × (name ≢ "..") × (contains_any is_slash name ≡ false)

no_slash : (s : String) → contains_any is_excluded s ≡ false → contains_any is_slash s ≡ false
unfolding contains_any
no_slash [] h = refl
no_slash (c ∷ s) h =
    let (first, rest) = or-false (is_excluded (code c)) (contains_any is_excluded s) h in
    ground (arith, no_slash s rest)

valid_identity_segment-IsPlain :
    (value : String) → valid_identity_segment value ≡ true → IsPlain value
unfolding valid_identity_segment
valid_identity_segment-IsPlain value h =
    let filled = not (value =ˢ "") in
    let two = filled && not (value =ˢ ".") in
    let three = and_split (two && not (value =ˢ "..")) (not (contains_any is_excluded value)) h in
    let up = and_split two (not (value =ˢ "..")) three.0 in
    let full = and_split filled (not (value =ˢ ".")) up.0 in
    (
      λ same. absurd (ground (arith, full.0, eq_iff value "")),
      λ same. absurd (ground (arith, up.1, eq_iff value "..")),
      no_slash value (ground (arith, three.1)),
    )

-- A token that was issued to a workload or to the operator, with no more than the identity allows.
pub record IsIssued (now issued : ℕ) (cluster name : String) (req : LoginRequest)
    (identity : Identity) (h : Handler) : Type 0 where
  pub entry : Token
  pub known : lookup name h.tokens ≡ some entry
  pub same_cluster : entry.cluster_id ≡ cluster
  pub same_namespace : entry.namespace ≡ identity.namespace
  pub same_role : entry.role ≡ req.role
  pub plain_namespace : IsPlain identity.namespace
  pub plain_account : IsPlain identity.service_account
  pub alive : now < identity.expires_at
  pub within_jwt : entry.expires_at ≤ identity.expires_at
  pub within_hour : entry.expires_at ≤ issued + 3600000000000
  pub owner :
      ((entry.operator ≡ true)
        × (req.role ≡ "podplane-operator")
        × (identity.namespace ≡ "platform-podplane-operator")
        × (identity.service_account ≡ "platform-podplane-operator"))
      ⊎ ((entry.operator ≡ false) × (req.role ≡ identity.service_account))

owner_of_match :
    (role : String) (identity : Identity)
    → mismatched role identity ≡ false
    → ((is_operator role identity ≡ true)
        × (role ≡ "podplane-operator")
        × (identity.namespace ≡ "platform-podplane-operator")
        × (identity.service_account ≡ "platform-podplane-operator"))
      ⊎ ((is_operator role identity ≡ false) × (role ≡ identity.service_account))
owner_of_match role identity h = elim (Bool-cases (is_operator role identity)) [
  | inl op ↦
      let named = role =ˢ "podplane-operator" in
      let placed = identity.namespace =ˢ "platform-podplane-operator" in
      let account = identity.service_account =ˢ "platform-podplane-operator" in
      let (where_from, who) = and_split (named && placed) account op in
      let (role_named, namespace_named) = and_split named placed where_from in
      inl (op, (eq_iff _ _).0 role_named, (eq_iff _ _).0 namespace_named, (eq_iff _ _).0 who)
  | inr workload ↦
      let (_, other) =
        or-false (role =ˢ operator_role && not (is_operator role identity))
          (not (is_operator role identity) && not (role =ˢ identity.service_account)) h in
      inr (workload, (eq_iff _ _).0 (ground arith))
]

expiry-le-identity :
    (issued : ℕ) (identity : Identity) → expiry issued identity ≤ identity.expires_at
expiry-le-identity issued identity = ground arith

expiry-le-hour :
    (issued : ℕ) (identity : Identity) → expiry issued identity ≤ issued + 3600000000000
expiry-le-hour issued identity = ground arith

differ : (status : ℕ) (name : String) → Path Login (denied status) (granted name) → ⊥
differ status name e = cc

granted-injective : (a b : String) → Path Login (granted a) (granted b) → a ≡ b
granted-injective a b e = cc

module _ (now issued : ℕ) (cluster : String) (req : LoginRequest) (h : Handler) where
  -- The state that `issue` leaves.
  abbrev after : String → Identity → Handler
  after name identity = record h {
    tokens = insert name (new_token issued cluster req.role identity) h.tokens;
  }

  after-IsIssued :
      (name : String) (identity : Identity)
      → unacceptable now req.role identity ≡ false
      → IsIssued now issued cluster name req identity (after name identity)
  after-IsIssued name identity fine =
      let segments =
        not (valid_identity_segment identity.namespace)
        || not (valid_identity_segment identity.service_account) in
      let late = not (ltb now identity.expires_at) in
      let (rest, matched) = or-false (segments || late) (mismatched req.role identity) fine in
      let (named, alive) = or-false segments late rest in
      let (namespace, account) =
        or-false (not (valid_identity_segment identity.namespace))
          (not (valid_identity_segment identity.service_account)) named in
      record {
        entry = new_token issued cluster req.role identity;
        known =
            rw
              (
                lookup-insert name name (new_token issued cluster req.role identity) h.tokens,
                eq_refl name,
              )
              refl;
        same_cluster = refl;
        same_namespace = refl;
        same_role = refl;
        plain_namespace = valid_identity_segment-IsPlain identity.namespace (not-false _ namespace);
        plain_account =
            valid_identity_segment-IsPlain identity.service_account (not-false _ account);
        alive = ground arith;
        within_jwt = expiry-le-identity issued identity;
        within_hour = expiry-le-hour issued identity;
        owner = owner_of_match req.role identity matched;
      }

  issue-IsIssued :
      (random : Result String) (identity : Identity) (name : String) (h' : Handler)
      → unacceptable now req.role identity ≡ false
      → issue issued random cluster req.role identity h ≡ (granted name, h')
      → IsIssued now issued cluster name req identity h'
  unfolding issue
  issue-IsIssued (err e) identity name h' fine run =
      absurd (differ 500 name (ap (λ (p : Login × Handler). p.0) run))
  issue-IsIssued (ok random) identity name h' fine run =
      let same = granted-injective random name (ap (λ (p : Login × Handler). p.0) run) in
      subst (λ (n : String). IsIssued now issued cluster n req identity h') same
        (subst (IsIssued now issued cluster random req identity)
          (ap (λ (p : Login × Handler). p.1) run) (after-IsIssued random identity fine))

  admit-IsIssued :
      (random : Result String) (result : Result Identity) (name : String) (h' : Handler)
      → admit now issued random cluster req.role result h ≡ (granted name, h')
      → (identity : Identity) × (result ≡ ok identity)
        × IsIssued now issued cluster name req identity h'
  admit-IsIssued random (err e) name h' run =
      absurd (differ 403 name (ap (λ (p : Login × Handler). p.0) run))
  admit-IsIssued random (ok identity) name h' run =
      elim (Bool-cases (unacceptable now req.role identity)) [
        | inl bad ↦ absurd (differ 403 name (ap (λ (p : Login × Handler). p.0) (rw bad at run)))
        | inr fine ↦ (identity, refl, issue-IsIssued random identity name h' fine (rw fine at run))
      ]

-- A login that is granted by a handler with a validator has stored, under the name that it
-- returns, a token for the cluster of the request with the namespace that the validator
-- returned and the role of the request, which expires neither after the JWT nor more than an
-- hour after it was issued; neither the namespace nor the service account is empty, is .. or
-- has a slash; the token is an operator's only for the role podplane-operator and the service
-- account platform-podplane-operator in the namespace of that name, and otherwise its role is
-- the name of the service account.
pub serve_login-IsIssued :
    (now issued : ℕ) (random : Result String) (method cluster name : String) (req : LoginRequest)
    (validator : Validator) (h h' : Handler)
    → serve_login now issued random method cluster (some req) (some validator) h
      ≡ (granted name, h')
    → (identity : Identity) × (validator cluster req.role req.jwt ≡ ok identity)
      × IsIssued now issued cluster name req identity h'
unfolding serve_login
serve_login-IsIssued now issued random method cluster name req validator h h' run =
    elim (Bool-cases (not (method =ˢ "POST") && not (method =ˢ "PUT"))) [
      | inl other ↦ absurd (differ 405 name (ap (λ (p : Login × Handler). p.0) (rw other at run)))
      | inr posted ↦ elim (Bool-cases (trim_space req.role =ˢ "" || trim_space req.jwt =ˢ "")) [
        | inl blank ↦
            absurd (differ 400 name (ap (λ (p : Login × Handler). p.0) (rw (posted, blank) at run)))
        | inr full ↦
            admit-IsIssued now issued cluster req h random (validator cluster req.role req.jwt) name
              h' (rw (posted, full) at run)
      ]
    ]
