-- ===== src/FakeVault/Handler.antt =====
-- handler.go: which request of the secret store's HTTP API is let through, and to which operation.
pub mod Tokens
pub mod StorePaths
pub mod Grants
pub mod Scope
pub mod Login
mod Tests
use podplane.Base.{
  ℕ, Bool, true, false, not, ◌&&◌, ◌||◌, String, ◌<>◌, ◌=ˢ◌, Option, none, some, Result, ok, err,
  if◌then◌else◌, ltb,
}
use podplane.Base.Assoc.{Assoc, lookup, without}
use podplane.Base.Strings.{trim, trim_prefix, is_slash, has_prefix, has_suffix, cut_slash}
use podplane.FakeVault.Paths.{clean_cluster_path}

-- Times are numbers, as time.Time compares them.
pub record Token : Type 0 where
  pub cluster_id : String
  pub expires_at : ℕ
  pub namespace : String
  pub role : String
  pub operator : Bool

pub record Handler : Type 0 where
  pub trusted : Bool
  pub tokens : Assoc Token

-- What ServeHTTP reads of a request; `list` is the query's first value of "list".
pub record Request : Type 0 where
  pub method : String
  pub path : String
  pub list : String
  pub client_token : String

-- The function that answers, with the cluster and the path that it gets; `refused` has the status.
pub data Action : Type 0 where
  refused : ℕ → Action
  login mount cluster_delete unlock : String → Action
  undelete destroy list_secrets remove write read : String → String → Action

-- tokenEntry from the entry that the map holds.
unfoldable pub unexpired : ℕ → String → Handler → Option Token → Option Token × Handler
unexpired now name h none = (none, h)
unexpired now name h (some entry) =
    if ltb now entry.expires_at
    then (some entry, h)
    else (none, record h { tokens = without name h.tokens })

-- tokenEntry: an expired token is forgotten.
unfoldable pub token_entry : ℕ → String → Handler → Option Token × Handler
token_entry now name h =
    if name =ˢ "" then (none, h) else unexpired now name h (lookup name h.tokens)

abbrev pub for_cluster : String → Option Token → Option Token
for_cluster cluster none = none
for_cluster cluster (some entry) = if entry.cluster_id =ˢ cluster then some entry else none

-- authenticate
unfoldable pub authenticate : ℕ → String → String → Handler → Option Token × Handler
authenticate now name cluster h =
    let found = token_entry now name h in (for_cluster cluster found.0, found.1)

abbrev authorized_by : Option Token × Handler → Option String × Handler
authorized_by (none, h) = (none, h)
authorized_by (some entry, h) = (some entry.cluster_id, h)

-- authorize
unfoldable pub authorize : ℕ → String → String → Handler → Option String × Handler
authorize now name cluster h =
    if h.trusted then (some cluster, h) else authorized_by (authenticate now name cluster h)

abbrev below_cluster : Option (String × String) → Option (String × String)
below_cluster none = none
below_cluster (some (cluster, rest)) =
    if has_prefix rest "v1/" && not (cluster =ˢ "") && not (trim_prefix rest "v1" =ˢ "")
    then some (cluster, trim_prefix rest "v1")
    else none

-- apiPath; the empty path has no slash either.
unfoldable pub api_path : String → Option (String × String)
api_path path = below_cluster (cut_slash (trim is_slash (trim_prefix path "/vault/")))

abbrev of_kind : String → String → Option (String × String) → Option String
of_kind kind first none = none
of_kind kind first (some (second, rest)) =
    if second =ˢ kind && not (rest =ˢ "") then some (first <> ("/data/" <> rest)) else none

abbrev below_mount : String → Option (String × String) → Option String
below_mount kind none = none
below_mount kind (some (first, rest)) = of_kind kind first (cut_slash rest)

-- dataPath, undeleteDataPath and destroyDataPath, with the second part that they ask for.
unfoldable pub kind_path : String → String → Option String
kind_path kind path = below_mount kind (cut_slash (trim is_slash path))

abbrev pub undelete_data_path : String → Option String
undelete_data_path = kind_path "undelete"

abbrev pub destroy_data_path : String → Option String
destroy_data_path = kind_path "destroy"

-- The paths that a token of a workload may read.
abbrev pub scope : String → Token → String
scope cluster entry =
    "secret/data/" <> (cluster <> ("/" <> (entry.namespace <> ("/" <> (entry.role <> "/")))))

abbrev pub may_read : Request → String → String → Token → Bool
may_read r cluster path entry =
    r.method =ˢ "GET" && r.list =ˢ "" && has_prefix path (scope cluster entry)

-- The methods of serveKV, once authorized.
abbrev pub by_method : Request → String → String → Action
by_method r cluster path =
    if r.method =ˢ "LIST" || (r.method =ˢ "GET" && r.list =ˢ "true")
    then list_secrets cluster path
    else if r.method =ˢ "DELETE"
    then remove cluster path
    else if r.method =ˢ "POST" || r.method =ˢ "PUT"
    then write cluster path
    else if r.method =ˢ "GET"
    then read cluster path
    else refused 405

abbrev kv_for : Request → String → Option String → Action
kv_for r path none = refused 403
kv_for r path (some cluster) = by_method r cluster path

-- serveKV, up to the function that answers.
unfoldable pub serve_kv : ℕ → Request → String → String → Handler → Action × Handler
serve_kv now r cluster path h =
    let found = authorize now r.client_token cluster h in (kv_for r path found.0, found.1)

abbrev lifecycle : String → Option String → Option String → Option Action
lifecycle cluster (some path) destroyed = some (undelete cluster path)
lifecycle cluster none (some path) = some (destroy cluster path)
lifecycle cluster none none = none

abbrev or_kv : Option Action → Action × Handler → Handler → Action × Handler
or_kv none kv h = kv
or_kv (some action) kv h = (action, h)

-- The end of ServeHTTP; `path` begins with a slash.
unfoldable pub serve_secret : ℕ → Request → String → String → Handler → Action × Handler
serve_secret now r cluster path h =
    let kv = serve_kv now r cluster path h in
    if r.method =ˢ "POST" || r.method =ˢ "PUT"
    then or_kv (lifecycle cluster (undelete_data_path path) (destroy_data_path path)) kv h
    else kv

abbrev guarded : ℕ → Request → String → String → Option Token × Handler → Action × Handler
guarded now r cluster path (none, h) = (refused 403, h)
guarded now r cluster path (some entry, h) =
    if entry.operator || may_read r cluster path entry
    then serve_secret now r cluster ("/" <> path) h
    else (refused 403, h)

abbrev secured : ℕ → ℕ → Request → String → Handler → Result (String × String) → Action × Handler
secured now later r cluster h (err e) = (refused 403, h)
secured now later r cluster h (ok (_, path)) =
    if h.trusted
    then serve_secret later r cluster ("/" <> path) h
    else guarded later r cluster path (authenticate now r.client_token cluster h)

-- serveMount, serveClusterDelete and serveUnlock, up to what they answer with.
abbrev pub serve_mount : Request → String → Action
serve_mount r cluster = if not (r.method =ˢ "GET") then refused 405 else mount cluster

abbrev pub serve_cluster_delete : Request → String → Handler → Action
serve_cluster_delete r cluster h =
    if not h.trusted
    then refused 404
    else if not (r.method =ˢ "DELETE")
    then refused 405
    else cluster_delete cluster

abbrev pub serve_unlock : Request → String → Handler → Action
serve_unlock r cluster h =
    if not h.trusted
    then refused 404
    else if not (r.method =ˢ "POST")
    then refused 405
    else unlock cluster

abbrev dispatch : ℕ → ℕ → Request → Handler → Option (String × String) → Action × Handler
dispatch now later r h none = (refused 404, h)
dispatch now later r h (some (cluster, api)) =
    if has_prefix api "/auth/" && has_suffix api "/login"
    then (login cluster, h)
    else if has_prefix api "/sys/internal/ui/mounts/"
    then (serve_mount r cluster, h)
    else if api =ˢ "/sys/podplane/cluster"
    then (serve_cluster_delete r cluster h, h)
    else if api =ˢ "/sys/podplane/unlock"
    then (serve_unlock r cluster h, h)
    else secured now later r cluster h (clean_cluster_path cluster api)

-- ServeHTTP: the two times are those of its two readings of the clock.
unfoldable pub serve_http : ℕ → ℕ → Request → Handler → Action × Handler
serve_http now later r h = dispatch now later r h (api_path r.path)
