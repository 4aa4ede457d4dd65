-- ===== src/FakeVault/Handler/Tests.antt =====
-- The laws of the handler at work: a workload logs in and reads its secret.
use podplane.Base.{false, [], ◌∷◌, some, ok, ◌≡◌, refl}
use podplane.Base.Assoc.{lookup, insert}
use podplane.Base.Strings.{
  trim_left, trim_right, contains_any, cut_prefix, split, cut_slash, has_suffix,
}
use podplane.FakeVault.Paths.{clean_cluster_path, clean_cluster_id, clean_path}
use podplane.FakeVault.Handler.{
  Token, Handler, Request, read, serve_http, api_path, kind_path, serve_secret, serve_kv, authorize,
  authenticate, token_entry, unexpired,
}
use podplane.FakeVault.Handler.Grants.{IsPermitted}
use podplane.FakeVault.Handler.Scope.{serve_http-IsPermitted}
use podplane.FakeVault.Handler.Login.{
  Identity, LoginRequest, Validator, granted, serve_login, issue, valid_identity_segment,
}
use podplane.FakeVault.Handler.Login.Laws.{IsIssued, serve_login-IsIssued}

abbrev token : Token
token = record {
  cluster_id = "demo";
  expires_at = 100;
  namespace = "shop";
  role = "web";
  operator = false;
}

abbrev handler : Handler
handler = record { trusted = false; tokens = ("abc", token) ∷ [] }

abbrev request : Request
request = record {
  method = "GET";
  path = "/vault/demo/v1/secret/data/demo/shop/web/db";
  list = "";
  client_token = "abc";
}

serve_http-IsPermitted_example : IsPermitted 50 request handler (serve_http 50 51 request handler)
serve_http-IsPermitted_example = serve_http-IsPermitted 50 51 request handler refl

answered : (serve_http 50 51 request handler).0 ≡ read "demo" "/secret/data/demo/shop/web/db"
unfolding serve_http api_path kind_path serve_secret serve_kv authorize authenticate token_entry
    unexpired clean_cluster_path clean_cluster_id clean_path trim_left trim_right contains_any
    cut_prefix split cut_slash has_suffix lookup
answered = refl

-- The path that is let through is cleaned to one outside of the token's part.
escaped :
    (serve_http 50 51
      (record request { path = "/vault/demo/v1/secret/data/demo/shop/web/ / " })
      handler).0
    ≡ read "demo" "/secret/data/demo/shop/web/ "
unfolding serve_http api_path kind_path serve_secret serve_kv authorize authenticate token_entry
    unexpired clean_cluster_path clean_cluster_id clean_path trim_left trim_right contains_any
    cut_prefix split cut_slash has_suffix lookup
escaped = refl

read_outside : clean_path "/secret/data/demo/shop/web/ " ≡ "secret/data/demo/shop/web"
unfolding clean_path trim_left trim_right cut_prefix
read_outside = refl

abbrev identity : Identity
identity = record { namespace = "shop"; service_account = "web"; expires_at = 100 }

abbrev login_request : LoginRequest
login_request = record { jwt = "x.y.z"; role = "web" }

abbrev validator : Validator
validator cluster role jwt = ok identity

abbrev nobody : Handler
nobody = record { trusted = false; tokens = [] }

logged_in :
    serve_login 50 51 (ok "abc") "POST" "demo" (some login_request) (some validator) nobody
    ≡ (granted "abc", handler)
unfolding serve_login issue valid_identity_segment trim_left trim_right contains_any insert
logged_in = refl

serve_login-IsIssued_example :
    (i : Identity) × (validator "demo" "web" "x.y.z" ≡ ok i)
    × IsIssued 50 51 "demo" "abc" login_request i handler
serve_login-IsIssued_example =
    serve_login-IsIssued 50 51 (ok "abc") "POST" "demo" "abc" login_request validator nobody handler
      logged_in
