-- ===== src/Kubectl/Keys.antt =====
-- keys.go and args.go, and Context.ClusterID of context.go: the names of Podplane's entries in a kubeconfig.
pub mod Laws
use podplane.Base.{
  Bool, true, false, not, String, List, [], ◌∷◌, ◌++◌, ◌<>◌, ◌=ˢ◌, Option, none, some,
  if◌then◌else◌,
}
use podplane.Base.Strings.{cut_prefix, has_prefix, trim_prefix}

-- ClusterKey
unfoldable pub cluster_key : String → Bool → String
cluster_key cluster_id local =
    if local then "podplane-local-" <> cluster_id else "podplane-" <> cluster_id

-- ContextKey
unfoldable pub context_key : String → Bool → String
context_key cluster_id local =
    if local
    then (if cluster_id =ˢ "default" then "local" else "local-" <> cluster_id)
    else cluster_id

-- CredentialsKey
unfoldable pub credentials_key : String → String → Bool → String
credentials_key sub cluster_id local =
    if local
    then "podplane-local-" <> (cluster_id <> ("-" <> sub))
    else "podplane-" <> (cluster_id <> ("-" <> sub))

-- The prefix that SubFromCredentialsKey makes.
abbrev pub sub_prefix : String → Bool → String
sub_prefix cluster_id local =
    if local then "podplane-local-" <> (cluster_id <> "-") else "podplane-" <> (cluster_id <> "-")

-- SubFromCredentialsKey
unfoldable pub sub_from_credentials_key : String → String → Bool → String
sub_from_credentials_key key cluster_id local =
    if not (has_prefix key (sub_prefix cluster_id local))
    then ""
    else trim_prefix key (sub_prefix cluster_id local)

-- Args
unfoldable pub args : String → String → List String
args kube_context kubeconfig =
    (if kube_context =ˢ "" then [] else "--context" ∷ kube_context ∷ [])
    ++ (if kubeconfig =ˢ "" then [] else "--kubeconfig" ∷ kubeconfig ∷ [])

pub record Context : Type 0 where
  pub name : String
  pub cluster : String
  pub user : String
  pub namespace : String

abbrev cloud_id : Context → Option String → String × Bool
cloud_id c (some id) = (id, false)
cloud_id c none = (c.name, false)

abbrev local_id : Context → Option String → String × Bool
local_id c (some id) = (id, true)
local_id c none = cloud_id c (cut_prefix c.cluster "podplane-")

-- ClusterID
unfoldable pub cluster_id : Context → String × Bool
cluster_id c = local_id c (cut_prefix c.cluster "podplane-local-")
