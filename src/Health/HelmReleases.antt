-- ===== src/Health/HelmReleases.antt =====
-- helmrelease.go: HelmReleaseReadyStatus and ReadHelmReleaseStatuses.
pub mod Laws
pub mod Readiness
use podplane.Base.{
  Bool, true, false, String, List, [], ◌∷◌, ◌++◌, ◌=ˢ◌, Option, none, some, if◌then◌else◌, Result,
  ok, err, Error, wrapf, wrapped, str, is_empty,
}
use podplane.Base.Assoc.{Assoc, lookup, insert}
use podplane.Base.Strings.{trim_space}
use podplane.Base.Exec.{Exec, pure, lift, ◌>>=◌, ◌>>◌}
use podplane.Kubectl.Keys.{args}
use podplane.Kubectl.Contexts.{Outcome, World, Process, run_kubectl, check_context}
use podplane.Health.Checks.{key_of}

pub record HelmReleaseRef : Type 0 where
  pub name : String
  pub namespace : String
  pub kind : String

pub record HelmReleaseStatus : Type 0 where
  pub ref : HelmReleaseRef
  pub exists : Bool
  pub ready : Bool
  pub status : String
  pub message : String

pub record HelmReleaseCondition : Type 0 where
  pub type_name : String
  pub status : String
  pub reason : String
  pub message : String

pub record HelmRelease : Type 0 where
  pub name : String
  pub namespace : String
  pub conditions : List HelmReleaseCondition

abbrev pub or_default : String → String → String
or_default text other = if text =ˢ "" then other else text

unfoldable pub ready_condition : List HelmReleaseCondition → Option HelmReleaseCondition
ready_condition [] = none
ready_condition (c ∷ conditions) =
    let rest = ready_condition conditions in if c.type_name =ˢ "Ready" then some c else rest

abbrev pub status_of : Option HelmReleaseCondition → Bool × String × String
status_of none = (false, "Reconciling", "waiting for Ready condition")
status_of (some ready) =
    if ready.status =ˢ "True"
    then (true, "Ready", or_default (trim_space ready.message) "HelmRelease is ready")
    else (
      false,
      or_default ready.reason "Reconciling",
      or_default (trim_space ready.message) "waiting for HelmRelease to become ready",
    )

-- HelmReleaseReadyStatus
unfoldable pub helm_release_ready_status : List HelmReleaseCondition → Bool × String × String
helm_release_ready_status conditions = status_of (ready_condition conditions)

abbrev pub ref_key : HelmReleaseRef → String
ref_key ref = key_of ref.namespace "helmrelease" ref.name

abbrev pub release_key : HelmRelease → String
release_key hr = key_of hr.namespace "helmrelease" hr.name

abbrev pub waiting : HelmReleaseRef → HelmReleaseStatus
waiting ref = record {
  ref = ref;
  exists = false;
  ready = false;
  status = "Pending";
  message = "waiting for HelmRelease to be created";
}

-- The loop over the references, from a map on.
unfoldable pub await_all : Assoc HelmReleaseStatus → List HelmReleaseRef → Assoc HelmReleaseStatus
await_all statuses [] = statuses
await_all statuses (ref ∷ refs) = await_all (insert (ref_key ref) (waiting ref) statuses) refs

abbrev pub seen : HelmRelease → HelmReleaseStatus → HelmReleaseStatus
seen hr s =
    let found = helm_release_ready_status hr.conditions in
    record s { exists = true; ready = found.0; status = found.1; message = found.2 }

abbrev pub update :
    HelmRelease → Option HelmReleaseStatus → Assoc HelmReleaseStatus → Assoc HelmReleaseStatus
update hr none statuses = statuses
update hr (some s) statuses = insert (release_key hr) (seen hr s) statuses

-- The loop over the releases.
unfoldable pub observe_all : Assoc HelmReleaseStatus → List HelmRelease → Assoc HelmReleaseStatus
observe_all statuses [] = statuses
observe_all statuses (hr ∷ items) =
    observe_all (update hr (lookup (release_key hr) statuses) statuses) items

-- kubectl.Error
abbrev pub kubectl_error : String → Outcome → Error → Error
kubectl_error stage outcome e =
    if outcome.stderr =ˢ ""
    then wrapf "kubectl %s: %w" (str stage ∷ []) e
    else wrapf "kubectl %s: %w: %s" (str stage ∷ str outcome.stderr ∷ []) e

abbrev pub outcome_error : String → Outcome → Option Error → Result (Unit {0})
outcome_error stage outcome none = ok tt
outcome_error stage outcome (some e) = err (kubectl_error stage outcome e)

abbrev pub list_releases : List String
list_releases = "get" ∷ "helmreleases.helm.toolkit.fluxcd.io" ∷ "-A" ∷ "-o" ∷ "json" ∷ []

-- ReadHelmReleaseStatuses
unfoldable pub read_helm_release_statuses :
    Process
    → (String → Result (List HelmRelease))
    → String
    → String
    → List HelmReleaseRef
    → Exec World (Assoc HelmReleaseStatus)
read_helm_release_statuses p unmarshal kube_context kubeconfig [] = do check_context p; pure []
read_helm_release_statuses p unmarshal kube_context kubeconfig (ref ∷ refs) = do
  check_context p
  outcome ← run_kubectl p (args kube_context kubeconfig) list_releases ""
  lift (outcome_error "get helmreleases" outcome outcome.error)
  check_context p
  items ← lift (wrapped "decode HelmRelease status: %w" [] (unmarshal outcome.out))
  pure (observe_all (await_all [] (ref ∷ refs)) items)
