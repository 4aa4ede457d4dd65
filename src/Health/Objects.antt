-- ===== src/Health/Objects.antt =====
-- workload.go and configmap.go: the reading of one object of the cluster for a check.
pub mod Laws
use podplane.Base.{
  Bool, true, false, ◌||◌, String, List, [], ◌∷◌, ◌<>◌, ◌=ˢ◌, Option, none, some, if◌then◌else◌,
  Result, ok, err, Error, wrapped, str, Arg,
}
use podplane.Base.Assoc.{Assoc, lookup}
use podplane.Base.Strings.{contains, trim_space}
use podplane.Base.Exec.{Exec, pure, lift, ◌>>=◌, ◌>>◌}
use podplane.Kubectl.Keys.{args}
use podplane.Kubectl.Contexts.{Outcome, World, Process, run_kubectl, check_context}
use podplane.Health.Checks.{CheckResult}
use podplane.Health.HelmReleases.{kubectl_error}
use podplane.Health.Workloads.{WorkloadStatus, workload_ready}

-- The zero value of Result.
abbrev pub no_result : CheckResult
no_result = record { exists = false; ready = false; status = ""; message = ""; error = none }

abbrev pub pending : Bool → String → CheckResult
pending exists message = record no_result { exists = exists; status = "Pending"; message = message }

abbrev pub is_ready : String → CheckResult
is_ready message = record no_result {
  exists = true;
  ready = true;
  status = "Ready";
  message = message;
}

-- An early return of `Result{Err: err}`.
abbrev pub with_error : Result CheckResult × World → CheckResult × World
with_error (ok r, w) = (r, w)
with_error (err e, w) = (record no_result { error = some e }, w)

abbrev pub is_missing : Outcome → Bool
is_missing outcome = contains outcome.stderr "NotFound" || contains outcome.stderr "not found"

module _ {A : Type 0} (decode : String → Result A) (stage missing : String)
    (judge : A → CheckResult) where
  -- What follows the call of kubectl.
  abbrev pub judged : Outcome → Option Error → Exec World CheckResult
  judged outcome (some e) =
      if is_missing outcome
      then pure (pending false missing)
      else lift (err (kubectl_error stage outcome e))
  judged outcome none = do object ← lift (decode outcome.out); pure (judge object)

  unfoldable pub read_object : Process → List String → List String → Exec World CheckResult
  read_object p flags arguments = do
    check_context p
    outcome ← run_kubectl p flags arguments ""
    judged outcome outcome.error

abbrev pub workload_result : Bool × String → CheckResult
workload_result (ready, message) = if ready then is_ready message else pending true message

abbrev pub get_object : String → String → String → List String
get_object namespace resource name = "-n" ∷ namespace ∷ "get" ∷ resource ∷ name ∷ "-o" ∷ "json" ∷ []

-- readWorkload
unfoldable pub read_workload :
    Process
    → (String → Result WorkloadStatus)
    → String
    → String
    → String
    → String
    → String
    → World
    → CheckResult × World
read_workload p unmarshal kube_context kubeconfig namespace resource name w = with_error (
    read_object (λ out. wrapped "decode %s status: %w" (str resource ∷ []) (unmarshal out))
      ("get " <> resource) ("waiting for " <> (resource <> " to be created"))
      (λ status. workload_result (workload_ready resource status)) p (args kube_context kubeconfig)
      (get_object namespace resource name) w)

-- The value of a missing key is the empty string.
abbrev pub or_empty : Option String → String
or_empty none = ""
or_empty (some value) = value

abbrev pub config_map_result : String → Assoc String → CheckResult
config_map_result data_key values =
    if trim_space (or_empty (lookup data_key values)) =ˢ ""
    then pending true ("waiting for " <> (data_key <> " data"))
    else is_ready (data_key <> " data populated")

-- checkConfigMapData
unfoldable pub check_config_map_data :
    Process
    → (String → Result (Assoc String))
    → String
    → String
    → String
    → String
    → String
    → World
    → CheckResult × World
check_config_map_data p unmarshal kube_context kubeconfig namespace name data_key w = with_error (
    read_object (λ out. wrapped "decode configmap data: %w" [] (unmarshal out)) "get configmap"
      "waiting for configmap to be created" (config_map_result data_key) p
      (args kube_context kubeconfig) (get_object namespace "configmap" name) w)
