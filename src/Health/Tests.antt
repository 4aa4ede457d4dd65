-- ===== src/Health/Tests.antt =====
-- check.go, helmrelease.go, workload.go and configmap.go on small inputs.
use podplane.Base.{
  true, false, ◌≡◌, ◌≢◌, refl, String, List, [], ◌∷◌, Option, none, some, All, Result, ok, errorf,
  ℤ, pos, ◌<ℤ◌, ◌⊎◌,
}
use podplane.Base.Strings.{trim_right, trim_left, trim_space, decimal, contains, cut_prefix}
use podplane.Base.Assoc.{Assoc, lookup, insert}
use podplane.Base.Exec.{pure, lift, ◌>>=◌}
use podplane.Kubectl.Keys.{args}
use podplane.Kubectl.Contexts.{Outcome, ran, World, Process, check_context, run_kubectl}
use podplane.Health.Checks.{CheckResult, Check, run_check, run_each, run_checks, key_of}
use podplane.Health.Checks.Settled.{Covered, run_checks-IsSettled}
use podplane.Health.HelmReleases.{
  HelmReleaseStatus, HelmRelease, ready_condition, helm_release_ready_status, await_all,
  observe_all,
}
use podplane.Health.Objects.{
  pending, read_object, get_object, read_workload, or_empty, check_config_map_data,
}
use podplane.Health.Objects.Laws.{read_workload-ready, check_config_map_data-ready}
use podplane.Health.Workloads.{
  WorkloadStatus, workload_ready, is_daemon_set, scale, ensure_deployment_replicas,
}
use podplane.Health.Workloads.Laws.{workload_ready-positive, Ensured, ensure_deployment_replicas-ok}
use podplane.Health.HelmReleases.Readiness.{AnyTrue, observe_all-ready}
use podplane.Health.HelmReleases.Laws.{lookup-observe_all}

abbrev process : Process
process = record {
  kubectl = λ arguments input w. record { out = ""; stderr = ""; error = none };
  context_error = λ w. none;
}

abbrev start : World
start = record { log = [] }

-- A result with the empty status, which RunChecks fills in.
abbrev seen_ready : CheckResult
seen_ready = record { exists = true; ready = true; status = ""; message = ""; error = none }

abbrev checks : List Check
checks =
    record { key = "ns/deployment/api"; run = some (λ w. (seen_ready, w)) }
    ∷ record {
      key = "ns/deployment/web";
      run = some (λ w. (record seen_ready { ready = false }, w));
    }
    ∷ []

abbrev results : Assoc CheckResult
results =
    insert "ns/deployment/web" (record seen_ready { ready = false; status = "Pending" })
      (insert "ns/deployment/api" (record seen_ready { status = "Ready" }) [])

run_checks-IsSettled_example :
    ((name : String) (r : CheckResult)
      → lookup name results ≡ some r
      → (r.error ≡ none) × (r.status ≢ ""))
    × All (Covered results) checks
unfolding run_checks run_each run_check check_context lift pure ◌>>=◌
run_checks-IsSettled_example = run_checks-IsSettled process checks start results refl

abbrev release : HelmRelease
release = record {
  name = "cilium";
  namespace = "kube-system";
  conditions =
      record { type_name = "Ready"; status = "False"; reason = "InstallFailed"; message = "" } ∷ [];
}

abbrev statuses : Assoc HelmReleaseStatus
statuses =
    await_all [] (record { name = "cilium"; namespace = "kube-system"; kind = "HelmRelease" } ∷ [])

-- A release that is not ready changes the status to the reason.
not_ready :
    lookup "kube-system/helmrelease/cilium" (observe_all statuses (release ∷ []))
    ≡ some (record {
      ref = record { name = "cilium"; namespace = "kube-system"; kind = "HelmRelease" };
      exists = true;
      ready = false;
      status = "InstallFailed";
      message = "waiting for HelmRelease to become ready";
    })
unfolding await_all key_of helm_release_ready_status ready_condition lookup insert trim_right
    trim_left
not_ready = lookup-observe_all "kube-system/helmrelease/cilium" statuses (release ∷ [])

abbrev no_status : WorkloadStatus
no_status = record {
  replicas = pos 0;
  ready_replicas = pos 0;
  updated_replicas = pos 0;
  available_replicas = pos 0;
  desired_number_scheduled = pos 0;
  number_ready = pos 0;
  updated_number_scheduled = pos 0;
  number_available = pos 0;
}

-- A daemon set with no pod to schedule is not ready.
unscheduled :
    workload_ready "ds" (record no_status { number_ready = pos 1 }) ≡ (false, "1/0 pods ready")
unfolding workload_ready decimal
unscheduled = refl

abbrev one_replica : WorkloadStatus
one_replica = record no_status {
  ready_replicas = pos 1;
  updated_replicas = pos 1;
  available_replicas = pos 1;
}

workload_ready-positive_example :
    ((pos 0 <ℤ one_replica.ready_replicas) ≡ true)
    ⊎ ((is_daemon_set "deployment" ≡ true) × ((pos 0 <ℤ one_replica.number_ready) ≡ true))
unfolding workload_ready
workload_ready-positive_example = workload_ready-positive "deployment" one_replica refl refl

abbrev one_wanted : String → Result (Option ℤ)
one_wanted out = ok (some (pos 1))

ensure_deployment_replicas-ok_example :
    Ensured process one_wanted "" "" "ns" "api"
      (pos 2)
      start.log
      (ensure_deployment_replicas process one_wanted "" "" "ns" "api" (pos 2) start).1.log
unfolding ensure_deployment_replicas check_context run_kubectl lift scale pure ◌>>=◌
ensure_deployment_replicas-ok_example =
    ensure_deployment_replicas-ok process one_wanted "" "" "ns" "api" (pos 2) start refl

abbrev one_ready : String → Result WorkloadStatus
one_ready out = ok one_replica

read_workload-ready_example :
    (outcome : Outcome) × (status : WorkloadStatus) × (outcome.error ≡ none)
    × (one_ready outcome.out ≡ ok status)
    × ((workload_ready "deployment" status).0 ≡ true)
    × ((read_workload process one_ready "" "" "ns" "deployment" "api" start).1.log
        ≡ ran (args "" "") (get_object "ns" "deployment" "api") "" outcome ∷ [])
unfolding read_workload read_object check_context run_kubectl workload_ready lift pure ◌>>=◌
read_workload-ready_example =
    read_workload-ready process one_ready "" "" "ns" "deployment" "api" start refl

abbrev one_value : String → Result (Assoc String)
one_value out = ok (("host", "example.com") ∷ [])

check_config_map_data-ready_example :
    (outcome : Outcome) × (values : Assoc String) × (outcome.error ≡ none)
    × (one_value outcome.out ≡ ok values)
    × (trim_space (or_empty (lookup "host" values)) ≢ "")
    × ((check_config_map_data process one_value "" "" "ns" "platform" "host" start).1.log
        ≡ ran (args "" "") (get_object "ns" "configmap" "platform") "" outcome ∷ [])
unfolding check_config_map_data read_object check_context run_kubectl lookup trim_left trim_right
    lift pure ◌>>=◌
check_config_map_data-ready_example =
    check_config_map_data-ready process one_value "" "" "ns" "platform" "host" start refl

abbrev not_found : Process
not_found = record {
  kubectl = λ arguments input w. record {
    out = "";
    stderr = "deployments.apps \"api\" not found";
    error = some (errorf "exit status 1" []);
  };
  context_error = λ w. none;
}

-- A workload that is not there is pending, with no error.
missing :
    (read_workload not_found one_ready "" "" "ns" "deployment" "api" start).0
    ≡ pending false "waiting for deployment to be created"
unfolding read_workload read_object check_context run_kubectl contains cut_prefix lift pure ◌>>=◌
missing = refl

abbrev ready_release : HelmRelease
ready_release = record release {
  conditions =
      record { type_name = "Released"; status = "False"; reason = ""; message = "" }
      ∷ record { type_name = "Ready"; status = "True"; reason = ""; message = "done" }
      ∷ [];
}

abbrev ready_status : HelmReleaseStatus
ready_status = record {
  ref = record { name = "cilium"; namespace = "kube-system"; kind = "HelmRelease" };
  exists = true;
  ready = true;
  status = "Ready";
  message = "done";
}

became_ready :
    lookup "kube-system/helmrelease/cilium" (
      observe_all
        (await_all []
          (record { name = "cilium"; namespace = "kube-system"; kind = "HelmRelease" } ∷ []))
        (ready_release ∷ []))
    ≡ some ready_status
unfolding await_all observe_all key_of helm_release_ready_status ready_condition lookup insert
    trim_right trim_left
became_ready = refl

observe_all-ready_example : AnyTrue "kube-system/helmrelease/cilium" (ready_release ∷ [])
observe_all-ready_example =
    observe_all-ready
      (record { name = "cilium"; namespace = "kube-system"; kind = "HelmRelease" } ∷ [])
      (ready_release ∷ []) "kube-system/helmrelease/cilium" ready_status became_ready refl
