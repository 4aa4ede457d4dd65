-- ===== src/ClusterConfig/Settings.antt =====
-- validate.go: the checks of the seed, the components, ACME and the secrets providers.
use Prim.Native.Char.{code}
use Prim.Native.String.{len}
use podplane.Base.{
  ℕ, ◌+◌, String, ◌<>◌, ◌=ˢ◌, ◌==◌, Bool, true, false, not, ◌&&◌, ◌||◌, List, [], ◌∷◌, any, Option,
  none, some, ltb, if◌then◌else◌, ok, err, Checked, reject, ◌>>◌, wrapped, errorf, str, is_empty,
  for_each,
}
use podplane.Base.Assoc.{lookup, has_key}
use podplane.Base.Strings.{trim_space, every}
use podplane.ClusterConfig.Platform.{Platform, Url}
use podplane.ClusterConfig.Names.{is_digit, validate_secrets_provider_name}
use podplane.ClusterConfig.Types.{
  Seed, Components, ComponentsSource, ComponentsSourceRef, ComponentsSourceSecretRef, Acme, Domain,
  Secrets, SecretsProvider,
}
use podplane.ClusterConfig.Resolved.{supports_acme}

-- One of 0123456789abcdef.
abbrev pub is_hex : ℕ → Bool
is_hex c = is_digit c || c == b'a' || c == b'b' || c == b'c' || c == b'd' || c == b'e' || c == b'f'

-- strings.Cut at ":"; `none` if there is none.
unfoldable pub cut_colon : String → Option (String × String)
cut_colon String.[] = none
cut_colon (String.◌∷◌ c s) = if code c == b':' then some (String.[], s) else elim (cut_colon s) [
  | none ↦ none
  | some (before, after) ↦ some (String.◌∷◌ c before, after)
]

abbrev digest_parts : Option (String × String) → Bool
digest_parts none = false
digest_parts (some (algorithm, encoded)) =
    algorithm =ˢ "sha512" && len encoded == 128 && every is_hex encoded

-- A digest of the form sha512:<hex> with 128 characters behind the colon.
abbrev pub sha512_digest : String → Bool
sha512_digest digest = digest_parts (cut_colon digest)

abbrev pub known_seed : String → Bool
known_seed name =
    name =ˢ "" || name =ˢ "none" || name =ˢ "minimal" || name =ˢ "platform" || name =ˢ "agentic"

abbrev pub pinned_seed : String → Bool
pinned_seed name = name =ˢ "platform" || name =ˢ "agentic" || name =ˢ "minimal"

-- ValidateSeed
unfoldable pub validate_seed : Seed → Checked
validate_seed seed = do
  reject (not (known_seed seed.name))
      (errorf "seed.name must be none, minimal, platform, or agentic" [])
  reject (pinned_seed seed.name && seed.digest =ˢ "") (errorf "seed.digest is required" [])
  reject (pinned_seed seed.name && not (sha512_digest seed.digest))
      (errorf "seed.digest must be a sha512 digest in sha512:<hex> format" [])

abbrev pub one_if : Bool → ℕ
one_if set = if set then 1 else 0

-- refCount
abbrev pub ref_count : ComponentsSourceRef → ℕ
ref_count r =
    one_if (not (r.branch =ˢ ""))
    + one_if (not (r.tag =ˢ ""))
    + one_if (not (r.semver =ˢ ""))
    + one_if (not (r.commit =ˢ ""))

abbrev pub blank_secret : Option ComponentsSourceSecretRef → Bool
blank_secret none = false
blank_secret (some r) = trim_space r.name =ˢ ""

abbrev validate_source : Option ComponentsSource → Checked
validate_source none = ok tt
validate_source (some source) = do
  reject (trim_space source.url =ˢ "") (errorf "components.source.url is required" [])
  reject (ltb 1 (ref_count source.ref))
      (errorf "components.source.ref must set at most one of branch, tag, semver, or commit" [])
  reject (blank_secret source.secret_ref)
      (errorf "components.source.secretRef.name is required when secretRef is set" [])

-- ValidateComponents. Its first statement cleans the mirror prefix behind the pointer
-- `components.Registry`; the cleaned prefix is read nowhere in the validation.
unfoldable pub validate_components : Components → Checked
validate_components components = validate_source components.source

abbrev is_https : Option Url → Bool
is_https none = false
is_https (some url) = url.scheme =ˢ "https" && not (url.host =ˢ "")

abbrev address_is : Option String → String → Bool
address_is none email = false
address_is (some address) email = address =ˢ email

-- ValidateACME
unfoldable pub validate_acme : Platform → Option Acme → List Domain → Checked
validate_acme platform none domains = ok tt
validate_acme platform (some acme) domains = do
  reject (not (address_is (platform.parse_mail acme.email) acme.email))
      (errorf "email must be a valid email address" [])
  reject (not (acme.server =ˢ "") && not (is_https (platform.parse_request_uri acme.server)))
      (errorf "server must be a valid HTTPS URL" [])
  reject (not (any (λ (d : Domain). supports_acme d.provider) domains))
      (errorf "requires at least one domain with a supported ACME DNS provider" [])

abbrev plain_endpoint : Option Url → Bool
plain_endpoint none = false
plain_endpoint (some url) =
    url.scheme =ˢ "https"
    && not (url.host =ˢ "")
    && url.raw_query =ˢ ""
    && url.fragment =ˢ ""
    && not url.has_user

-- validateSecretsProviderAddress
unfoldable pub validate_secrets_provider_address : Platform → String → Checked
validate_secrets_provider_address platform value =
    reject (not (plain_endpoint (platform.parse_request_uri value)))
      (errorf "must be an absolute HTTPS URL without credentials, query, or fragment" [])

-- The switch on the kind in ValidateSecrets.
unfoldable pub validate_provider_kind : Platform → String → SecretsProvider → Checked
validate_provider_kind platform prefix p =
    if p.kind =ˢ "aws"
    then reject (not (p.object_type =ˢ "secretsmanager") && not (p.object_type =ˢ "ssmparameter"))
        (errorf "%s.object_type must be secretsmanager or ssmparameter for aws" (str prefix ∷ []))
    else if p.kind =ˢ "gcp"
    then reject (p.project_id =ˢ "") (errorf "%s.project_id is required for gcp" (str prefix ∷ []))
    else if p.kind =ˢ "vault" || p.kind =ˢ "openbao"
    then wrapped "%s.address %w" (str prefix ∷ [])
        (validate_secrets_provider_address platform p.address)
    else if p.kind =ˢ ""
    then err (errorf "%s.kind is required" (str prefix ∷ []))
    else err (errorf "%s.kind must be aws, gcp, vault, or openbao" (str prefix ∷ []))

abbrev check_key_prefix : String → String → Checked
check_key_prefix prefix key_prefix =
    if key_prefix =ˢ ""
    then ok tt
    else validate_secrets_provider_name (prefix <> ".key_prefix") key_prefix

-- The body of the loop of ValidateSecrets.
unfoldable pub validate_secrets_provider : Platform → String × SecretsProvider → Checked
validate_secrets_provider platform (name, provider) = do
  let prefix = "providers." <> name
  validate_secrets_provider_name prefix name
  check_key_prefix prefix provider.key_prefix
  validate_provider_kind platform prefix provider

abbrev validate_providers : Platform → Secrets → Checked
validate_providers platform secrets = do
  reject (secrets.default_provider =ˢ "")
      (errorf "default_provider is required when providers are configured" [])
  validate_secrets_provider_name "default_provider" secrets.default_provider
  for_each (validate_secrets_provider platform) secrets.providers
  reject (not (has_key secrets.providers secrets.default_provider)) (
      errorf "default_provider %q does not match a configured provider"
        (str secrets.default_provider ∷ []))

-- ValidateSecrets
unfoldable pub validate_secrets : Platform → Secrets → Checked
validate_secrets platform secrets =
    if is_empty secrets.providers
    then reject (not (secrets.default_provider =ˢ ""))
        (errorf "default_provider requires at least one provider" [])
    else validate_providers platform secrets

abbrev accepts : Checked → Bool
accepts (ok _) = true
accepts (err _) = false

abbrev mounts_ca_key : Platform → Option SecretsProvider → Bool
mounts_ca_key platform none = false
mounts_ca_key platform (some p) =
    (p.kind =ˢ "aws" && (p.object_type =ˢ "secretsmanager" || p.object_type =ˢ "ssmparameter"))
    || (p.kind =ˢ "gcp" && not (p.project_id =ˢ ""))
    || ((p.kind =ˢ "vault" || p.kind =ˢ "openbao")
        && accepts (validate_secrets_provider_address platform p.address))

-- ValidateWorkloadCAProvider
unfoldable pub validate_workload_ca_provider : Platform → Secrets → Checked
validate_workload_ca_provider platform secrets = do
  reject (not (has_key secrets.providers secrets.default_provider)) (
      errorf
        "default_provider must select a configured AWS, GCP, Vault, or OpenBao provider for workload CA provisioning"
        [])
  reject (not (mounts_ca_key platform (lookup secrets.default_provider secrets.providers))) (
      errorf
        "default_provider %q does not support workload CA provisioning; use AWS Secrets Manager, AWS SSM Parameter Store, GCP Secret Manager, Vault, or OpenBao"
        (str secrets.default_provider ∷ []))
