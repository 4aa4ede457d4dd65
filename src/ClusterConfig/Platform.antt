-- ===== src/ClusterConfig/Platform.antt =====
-- The parts of Go's standard library that internal/clusterconfig only calls: parsers of addresses,
-- URLs and e-mail addresses, and Unicode case mapping.
use podplane.Base.{String, Bool, Option, Result}
use podplane.ClusterConfig.Netip.{Prefix}

-- net/url.URL, in the fields that are read; `has_user` is `User != nil`.
pub record Url : Type 0 where
  pub scheme : String
  pub host : String
  pub raw_query : String
  pub fragment : String
  pub has_user : Bool

pub record Platform : Type 0 where
  -- netip.ParsePrefix and Prefix.String
  pub parse_prefix : String → Result Prefix
  pub prefix_string : Prefix → String
  -- netip.ParseAddr, whether it succeeds
  pub is_ip_addr : String → Bool
  -- mail.ParseAddress, the field Address
  pub parse_mail : String → Option String
  -- url.ParseRequestURI
  pub parse_request_uri : String → Option Url
  -- strings.ToLower
  pub to_lower : String → String
