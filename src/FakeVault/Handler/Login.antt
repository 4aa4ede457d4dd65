-- ===== src/FakeVault/Handler/Login.antt =====
-- handler.go: serveLogin, which issues the tokens.
pub mod Laws
use text.Mathlib.TextPositions.{eq_refl}
use podplane.Base.{
  ap, subst, ℕ, ◌+◌, ◌*◌, ◌≤◌, ◌<◌, Bool, true, false, not, ◌&&◌, ◌||◌, String, ◌=ˢ◌, ◌==◌, Option,
  none, some, Result, ok, err, if◌then◌else◌, ltb, ◌≡◌, ◌⊎◌, inl, inr, refl, arith, Bool-cases,
  eq_iff, or-false, not-false,
}
use podplane.Base.Assoc.{insert, lookup, lookup-insert}
use podplane.Base.Strings.{trim_space, contains_any}
use podplane.FakeVault.Handler.{Token, Handler}

pub record Identity : Type 0 where
  pub namespace : String
  pub service_account : String
  pub expires_at : ℕ

pub record LoginRequest : Type 0 where
  pub jwt : String
  pub role : String

-- What the validator says of a cluster, a role and a JWT.
abbrev pub Validator : Type 0
Validator = String → String → String → Result Identity

pub data Login : Type 0 where
  denied : ℕ → Login
  granted : String → Login

-- A character of "/\\ \t\r\n".
abbrev pub is_excluded : ℕ → Bool
is_excluded c = c == b'/' || c == 0x5c || c == b' ' || c == 9 || c == 13 || c == 10

-- validIdentitySegment
unfoldable pub valid_identity_segment : String → Bool
valid_identity_segment value =
    not (value =ˢ "")
    && not (value =ˢ ".")
    && not (value =ˢ "..")
    && not (contains_any is_excluded value)

abbrev pub operator_role : String
operator_role = "podplane-operator"

abbrev pub operator_service_account_namespace : String
operator_service_account_namespace = "platform-podplane-operator"

abbrev pub operator_service_account_name : String
operator_service_account_name = "platform-podplane-operator"

abbrev pub is_operator : String → Identity → Bool
is_operator role identity =
    role =ˢ operator_role
    && identity.namespace =ˢ operator_service_account_namespace
    && identity.service_account =ˢ operator_service_account_name

-- time.Hour, in nanoseconds.
abbrev pub hour : ℕ
hour = 3600 * 1000000000

abbrev pub mismatched : String → Identity → Bool
mismatched role identity =
    (role =ˢ operator_role && not (is_operator role identity))
    || (not (is_operator role identity) && not (role =ˢ identity.service_account))

abbrev pub unacceptable : ℕ → String → Identity → Bool
unacceptable now role identity =
    not (valid_identity_segment identity.namespace)
    || not (valid_identity_segment identity.service_account)
    || not (ltb now identity.expires_at)
    || mismatched role identity

abbrev pub expiry : ℕ → Identity → ℕ
expiry issued identity =
    if ltb identity.expires_at (issued + hour) then identity.expires_at else issued + hour

abbrev pub new_token : ℕ → String → String → Identity → Token
new_token issued cluster role identity = record {
  cluster_id = cluster;
  expires_at = expiry issued identity;
  namespace = identity.namespace;
  role = role;
  operator = is_operator role identity;
}

-- serveLogin once the identity is accepted; `issued` is the second reading of the clock.
unfoldable pub issue : ℕ → Result String → String → String → Identity → Handler → Login × Handler
issue issued (err e) cluster role identity h = (denied 500, h)
issue issued (ok name) cluster role identity h = (
  granted name,
  record h { tokens = insert name (new_token issued cluster role identity) h.tokens },
)

abbrev pub admit :
    ℕ → ℕ → Result String → String → String → Result Identity → Handler → Login × Handler
admit now issued random cluster role (err e) h = (denied 403, h)
admit now issued random cluster role (ok identity) h =
    if unacceptable now role identity
    then (denied 403, h)
    else issue issued random cluster role identity h

abbrev validated :
    ℕ → ℕ → Result String → String → LoginRequest → Option Validator → Handler → Login × Handler
validated now issued random cluster req none h = (denied 403, h)
validated now issued random cluster req (some validator) h =
    admit now issued random cluster req.role (validator cluster req.role req.jwt) h

abbrev decoded :
    ℕ
    → ℕ
    → Result String
    → String
    → Option LoginRequest
    → Option Validator
    → Handler
    → Login × Handler
decoded now issued random cluster none validator h = (denied 400, h)
decoded now issued random cluster (some req) validator h =
    if trim_space req.role =ˢ "" || trim_space req.jwt =ˢ ""
    then (denied 400, h)
    else validated now issued random cluster req validator h

-- serveLogin: `body` is the decoded request, `random` what randomToken returns.
unfoldable pub serve_login :
    ℕ
    → ℕ
    → Result String
    → String
    → String
    → Option LoginRequest
    → Option Validator
    → Handler
    → Login × Handler
serve_login now issued random method cluster body validator h =
    if not (method =ˢ "POST") && not (method =ˢ "PUT")
    then (denied 405, h)
    else decoded now issued random cluster body validator h
