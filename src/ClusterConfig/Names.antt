-- ===== src/ClusterConfig/Names.antt =====
-- validate.go: the grammars of names, and the checks of single values.
use Prim.Native.Char.{code}
use Prim.Native.String.{len}
use podplane.Base.{
  ℕ, String, ◌=ˢ◌, ◌==◌, Bool, true, false, not, ◌&&◌, ◌||◌, List, [], ◌∷◌, any, Option, none, some,
  leb, ltb, Checked, reject, ◌>>◌, errorf, str,
}
use podplane.Base.Strings.{split, has_prefix, cut_prefix, every}
use podplane.ClusterConfig.Platform.{Platform}

-- [a-z0-9]
abbrev pub is_lower : ℕ → Bool
is_lower c = leb b'a' c && leb c b'z'

abbrev pub is_digit : ℕ → Bool
is_digit c = leb b'0' c && leb c b'9'

abbrev pub is_alnum : ℕ → Bool
is_alnum c = is_lower c || is_digit c

abbrev pub is_hyphen : ℕ → Bool
is_hyphen c = c == b'-'

-- `([a-z0-9-]*[a-z0-9])?$` behind a character that was [a-z0-9] or not.
unfoldable pub label_rest : Bool → String → Bool
label_rest ends String.[] = ends
label_rest ends (String.◌∷◌ c s) =
    (is_alnum (code c) || is_hyphen (code c)) && label_rest (is_alnum (code c)) s

-- `^[a-z0-9]([a-z0-9-]*[a-z0-9])?$`: clusterIDPattern, secretsProviderNamePattern and
-- domainLabelPattern.
unfoldable pub label_pattern : String → Bool
unfolding label_rest
label_pattern String.[] = false
label_pattern (String.◌∷◌ c s) = is_alnum (code c) && label_rest true s

-- `^[a-z0-9._-]+$`: trustDomainPattern
unfoldable pub trust_domain_pattern : String → Bool
trust_domain_pattern String.[] = false
trust_domain_pattern (String.◌∷◌ c s) =
    every (λ d. is_alnum d || d == b'.' || d == b'_' || d == b'-') (String.◌∷◌ c s)

-- A text of [a-z0-9]+.
abbrev alnum_part : String → Bool
alnum_part String.[] = false
alnum_part s = every is_alnum s

-- A text of [a-z]{2}.
abbrev two_letters : String → Bool
two_letters (String.◌∷◌ a (String.◌∷◌ b String.[])) = is_lower (code a) && is_lower (code b)
two_letters _ = false

-- A text of [1-9][0-9]*.
abbrev number_part : String → Bool
number_part String.[] = false
number_part (String.◌∷◌ c s) = is_digit (code c) && not (code c == b'0') && every is_digit s

-- The parts behind the first hyphen: one or more of [a-z0-9]+, and then [1-9][0-9]*.
abbrev region_rest : List String → Bool
region_rest [] = false
region_rest (p ∷ []) = false
region_rest (p ∷ q ∷ []) = alnum_part p && number_part q
region_rest (p ∷ q ∷ r ∷ ps) = alnum_part p && region_rest (q ∷ r ∷ ps)

abbrev region_parts : List String → Bool
region_parts [] = false
region_parts (p ∷ ps) = two_letters p && region_rest ps

-- `^[a-z]{2}(?:-[a-z0-9]+)+-[1-9][0-9]*$`: awsRegionPattern, by the parts between hyphens, which
-- no class of the pattern holds.
unfoldable pub aws_region_pattern : String → Bool
aws_region_pattern region = region_parts (split b'-' region)

-- strings.Contains(s, "--")
unfoldable pub has_double_hyphen : String → Bool
has_double_hyphen String.[] = false
has_double_hyphen (String.◌∷◌ c s) = has_prefix (String.◌∷◌ c s) "--" || has_double_hyphen s

-- strings.HasSuffix(s, ".")
unfoldable pub ends_with_dot : String → Bool
ends_with_dot String.[] = false
ends_with_dot (String.◌∷◌ c String.[]) = code c == b'.'
ends_with_dot (String.◌∷◌ c (String.◌∷◌ d s)) = ends_with_dot (String.◌∷◌ d s)

-- ValidateTrustDomain
unfoldable pub validate_trust_domain : String → Checked
validate_trust_domain domain = do
  reject (domain =ˢ "") (
      errorf
        "is required; existing clusters must persist a trust domain before workload certificates can be enabled"
        [])
  reject (ltb 255 (len domain)) (errorf "must be at most 255 bytes" [])
  reject (not (trust_domain_pattern domain)) (
      errorf "must contain only lowercase ASCII letters, digits, dots, hyphens, and underscores" [])

-- The test of one label in ValidateDomainName.
abbrev pub bad_label : String → Bool
bad_label label = ltb 63 (len label) || not (label_pattern label)

-- ValidateDomainName
unfoldable pub validate_domain_name : Platform → String → Checked
validate_domain_name platform name = do
  reject (name =ˢ "") (errorf "is required" [])
  reject (ltb 253 (len name)) (errorf "must be at most 253 characters" [])
  reject (not (name =ˢ platform.to_lower name) || ends_with_dot name)
      (errorf "must be lowercase and must not end with a dot" [])
  reject (platform.is_ip_addr name) (errorf "must be a DNS hostname, not an IP address" [])
  reject (any bad_label (split b'.' name)) (errorf "must contain only DNS labels" [])

-- ValidateClusterID
unfoldable pub validate_cluster_id : String → Checked
validate_cluster_id id = do
  reject (id =ˢ "") (errorf "is required" [])
  reject (ltb 32 (len id)) (errorf "must be at most 32 characters" [])
  reject (has_double_hyphen id) (errorf "must not contain consecutive hyphens" [])
  reject (not (label_pattern id))
      (errorf "must be lowercase alphanumeric with hyphens, no leading/trailing hyphens" [])
  reject (id =ˢ "local" || id =ˢ "k8s" || id =ˢ "oidc") (errorf "%q is reserved" (str id ∷ []))

-- ValidateAWSRegion
unfoldable pub validate_aws_region : String → Checked
validate_aws_region region =
    reject (not (aws_region_pattern region)) (errorf "must be a valid AWS region" [])

abbrev standard_zone : String → Bool
standard_zone (String.◌∷◌ c String.[]) = is_lower (code c)
standard_zone _ = false

abbrev local_zone : String → Bool
local_zone (String.◌∷◌ c (String.◌∷◌ d s)) = is_hyphen (code c)
local_zone _ = false

abbrev zone_suffix : Option String → Bool
zone_suffix none = false
zone_suffix (some suffix) = standard_zone suffix || local_zone suffix

-- ValidateAWSAvailabilityZone
unfoldable pub validate_aws_availability_zone : String → String → Checked
validate_aws_availability_zone region zone =
    reject (not (zone_suffix (cut_prefix zone region)))
      (errorf "must be an availability zone in region %s" (str region ∷ []))

-- validateSecretsProviderName; `prefix` is the format and the arguments that stand in front.
unfoldable pub validate_secrets_provider_name : String → String → Checked
validate_secrets_provider_name prefix name = do
  reject (name =ˢ "") (errorf "%s is required" (str prefix ∷ []))
  reject (ltb 32 (len name) || not (label_pattern name) || has_double_hyphen name) (
      errorf
        "%s must be lowercase alphanumeric with hyphens, no leading/trailing hyphens, no consecutive hyphens, no dots, and at most 32 characters"
        (str prefix ∷ []))
