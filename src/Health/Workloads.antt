-- ===== src/Health/Workloads.antt =====
-- workload.go: the readiness of workloads, and ensureDeploymentReplicas.
pub mod Laws
use podplane.Base.{
  Bool, true, false, not, ◌&&◌, ◌||◌, ℤ, pos, negsuc, ◌<ℤ◌, ◌=ℤ◌, ◌+◌, String, List, [], ◌∷◌, ◌<>◌,
  ◌=ˢ◌, Option, none, some, if◌then◌else◌, Result, ok, err, Error, wrapf, wrapped, str, errorf,
}
use podplane.Base.Strings.{decimal}
use podplane.Base.Exec.{Exec, pure, lift, ◌>>=◌, ◌>>◌}
use podplane.Kubectl.Keys.{args}
use podplane.Kubectl.Contexts.{Outcome, World, Process, run_kubectl, check_context}
use podplane.Health.HelmReleases.{outcome_error}

-- The counts are Go's int, read from JSON.
pub record WorkloadStatus : Type 0 where
  pub replicas : ℤ
  pub ready_replicas : ℤ
  pub updated_replicas : ℤ
  pub available_replicas : ℤ
  pub desired_number_scheduled : ℤ
  pub number_ready : ℤ
  pub updated_number_scheduled : ℤ
  pub number_available : ℤ

abbrev decimal_int : ℤ → String
decimal_int (pos n) = decimal n
decimal_int (negsuc n) = "-" <> decimal (n + 1)

-- `a >= b`
abbrev pub at_least : ℤ → ℤ → Bool
at_least a b = not (a <ℤ b)

abbrev pub is_deployment : String → Bool
is_deployment resource =
    resource =ˢ "deployment" || resource =ˢ "deploy" || resource =ˢ "deployments"

abbrev pub is_daemon_set : String → Bool
is_daemon_set resource = resource =ˢ "daemonset" || resource =ˢ "ds" || resource =ˢ "daemonsets"

abbrev pub is_stateful_set : String → Bool
is_stateful_set resource =
    resource =ˢ "statefulset" || resource =ˢ "sts" || resource =ˢ "statefulsets"

abbrev pub desired_replicas : WorkloadStatus → ℤ
desired_replicas s = if s.replicas =ℤ pos 0 then pos 1 else s.replicas

abbrev of_desired : ℤ → ℤ → String → String
of_desired ready desired things =
    decimal_int ready <> ("/" <> (decimal_int desired <> (" " <> (things <> " ready"))))

abbrev pub deployment_ready : WorkloadStatus → Bool × String
deployment_ready s =
    let desired = desired_replicas s in
    (
      at_least s.ready_replicas desired
          && at_least s.updated_replicas desired
          && at_least s.available_replicas desired,
      of_desired s.ready_replicas desired "replicas",
    )

abbrev pub daemon_set_ready : WorkloadStatus → Bool × String
daemon_set_ready s =
    let desired = s.desired_number_scheduled in
    (
      (pos 0 <ℤ desired)
          && at_least s.number_ready desired
          && at_least s.updated_number_scheduled desired
          && at_least s.number_available desired,
      of_desired s.number_ready desired "pods",
    )

abbrev pub stateful_set_ready : WorkloadStatus → Bool × String
stateful_set_ready s =
    let desired = desired_replicas s in
    (
      at_least s.ready_replicas desired && at_least s.updated_replicas desired,
      of_desired s.ready_replicas desired "replicas",
    )

-- workloadReady
unfoldable pub workload_ready : String → WorkloadStatus → Bool × String
workload_ready resource s =
    if is_deployment resource
    then deployment_ready s
    else if is_daemon_set resource
    then daemon_set_ready s
    else if is_stateful_set resource
    then stateful_set_ready s
    else (false, "unsupported workload kind")

abbrev pub get_deployment : String → String → List String
get_deployment namespace name = "-n" ∷ namespace ∷ "get" ∷ "deployment" ∷ name ∷ "-o" ∷ "json" ∷ []

abbrev pub scale_deployment : String → String → ℤ → List String
scale_deployment namespace name replicas =
    "-n" ∷ namespace ∷ "scale" ∷ "deployment" ∷ name ∷ ("--replicas=" <> decimal_int replicas) ∷ []

-- Whether a deployment's spec asks for this many replicas.
abbrev pub has_replicas : ℤ → Option ℤ → Bool
has_replicas replicas none = false
has_replicas replicas (some found) = found =ℤ replicas

unfoldable pub scale : Process → List String → String → String → ℤ → Exec World (Unit {0})
scale p flags namespace name replicas = do
  outcome ← run_kubectl p flags (scale_deployment namespace name replicas) ""
  lift (outcome_error "scale deployment" outcome outcome.error)

-- ensureDeploymentReplicas
unfoldable pub ensure_deployment_replicas :
    Process
    → (String → Result (Option ℤ))
    → String
    → String
    → String
    → String
    → ℤ
    → Exec World (Unit {0})
ensure_deployment_replicas p unmarshal kube_context kubeconfig namespace name replicas = do
  check_context p
  outcome ← run_kubectl p (args kube_context kubeconfig) (get_deployment namespace name) ""
  lift (outcome_error "get deployment" outcome outcome.error)
  found ← lift (wrapped "decode deployment spec: %w" [] (unmarshal outcome.out))
  if has_replicas replicas found
      then pure tt
      else scale p (args kube_context kubeconfig) namespace name replicas
