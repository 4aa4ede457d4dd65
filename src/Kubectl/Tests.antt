-- ===== src/Kubectl/Tests.antt =====
-- keys.go and args.go on the inputs of keys_test.go, and a name that two clusters share.
use podplane.Base.{true, false, ◌≡◌, refl, [], ◌∷◌}
use podplane.Base.Strings.{cut_prefix}
use podplane.Kubectl.Keys.{
  cluster_key, context_key, credentials_key, sub_from_credentials_key, args, Context, cluster_id,
}
use podplane.Kubectl.Keys.Laws.{sub-credentials_key, cluster_id-cluster_key}

cloud : cluster_key "my-cluster" false ≡ "podplane-my-cluster"
unfolding cluster_key
cloud = refl

local_default : context_key "default" true ≡ "local"
unfolding context_key
local_default = refl

credentials : credentials_key "user1" "my-cluster" true ≡ "podplane-local-my-cluster-user1"
unfolding credentials_key
credentials = refl

-- The cloud cluster local-a and the local cluster a have one key.
shared : cluster_key "local-a" false ≡ cluster_key "a" true
unfolding cluster_key
shared = refl

both_flags : args "c" "f" ≡ "--context" ∷ "c" ∷ "--kubeconfig" ∷ "f" ∷ []
unfolding args
both_flags = refl

abbrev context : Context
context = record { name = "demo"; cluster = "podplane-demo"; user = "u"; namespace = "" }

sub-credentials_key_example :
    sub_from_credentials_key (credentials_key "user1" "my-cluster" true) "my-cluster" true ≡ "user1"
sub-credentials_key_example = sub-credentials_key "user1" "my-cluster" true

cluster_id-cluster_key_example : cluster_id context ≡ ("demo", false)
unfolding cluster_key cut_prefix
cluster_id-cluster_key_example = cluster_id-cluster_key context "demo" false refl (λ h. refl)
