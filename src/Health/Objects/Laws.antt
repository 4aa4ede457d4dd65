-- ===== src/Health/Objects/Laws.antt =====
-- workload.go and configmap.go: what a ready result rests on.
use podplane.Base.{
  Bool, true, false, ◌≡◌, ◌≢◌, refl, ap, arith, eq_iff, String, List, [], ◌∷◌, ◌++◌, ◌<>◌, ◌=ˢ◌,
  Option, none, some, if◌then◌else◌, Result, ok, err, Error, wrapped, Arg, str,
}
use podplane.Base.Assoc.{Assoc, lookup}
use podplane.Base.Strings.{trim_space}
use podplane.Base.Exec.{Exec, continue, pure, lift, ◌>>=◌}
use podplane.Kubectl.Keys.{args}
use podplane.Kubectl.Contexts.{
  Outcome, ran, World, Process, push, run_kubectl, unless, check_context,
}
use podplane.Health.Checks.{CheckResult}
use podplane.Health.HelmReleases.{kubectl_error}
use podplane.Health.Workloads.{WorkloadStatus, workload_ready}
use podplane.Health.Objects.{
  pending, is_ready, with_error, is_missing, judged, read_object, workload_result, get_object,
  read_workload, or_empty, config_map_result, check_config_map_data,
}

module _ {A : Type 0} (decode : String → Result A) (stage missing : String)
    (judge : A → CheckResult) where
  -- The object that was decoded is judged ready.
  judged-ready :
      (outcome : Outcome) (error : Option Error) (w : World)
      → (with_error (judged decode stage missing judge outcome error w)).0.ready ≡ true
      → (error ≡ none)
        × (object : A) × (decode outcome.out ≡ ok object)
        × ((judge object).ready ≡ true)
        × ((with_error (judged decode stage missing judge outcome error w)).1 ≡ w)
  unfolding lift pure ◌>>=◌
  judged-ready outcome (some e) w h = absurd (refused (is_missing outcome) h)
    where
      refused :
          (b : Bool)
          → (with_error (
              (if b
                  then pure (pending false missing)
                  else lift (err (kubectl_error stage outcome e)))
                w)).0.ready
            ≡ true
          → ⊥
      refused true h = ground arith
      refused false h = ground arith
  judged-ready outcome none w h = decoded (decode outcome.out) h
    where
      decoded :
          (r : Result A)
          → (with_error ((lift r >>= λ object. pure (judge object)) w)).0.ready ≡ true
          → (Path (Option Error) none none)
            × (object : A) × (r ≡ ok object)
            × ((judge object).ready ≡ true)
            × ((with_error ((lift r >>= λ object. pure (judge object)) w)).1 ≡ w)
      decoded (ok object) h = (refl, object, refl, h, refl)
      decoded (err e) h = absurd (ground arith)

  module _ (p : Process) (flags arguments : List String) where
    -- kubectl was called once, without an error, and the object in its answer is judged ready.
    abbrev pub ReadReady : World → World → Type 0
    ReadReady before after =
        (outcome : Outcome) × (object : A) × (outcome.error ≡ none)
        × (decode outcome.out ≡ ok object)
        × ((judge object).ready ≡ true)
        × (after.log ≡ ran flags arguments "" outcome ∷ before.log)

    pub read_object-ready :
        (w : World)
        → (with_error (read_object decode stage missing judge p flags arguments w)).0.ready ≡ true
        → ReadReady w (with_error (read_object decode stage missing judge p flags arguments w)).1
    unfolding read_object check_context run_kubectl ◌>>=◌
    read_object-ready w h = checked (p.context_error w) h
      where
        outcome_at : World → Outcome
        outcome_at v = p.kubectl (flags ++ arguments) "" v

        judged_at : Exec World CheckResult
        judged_at v =
            judged decode stage missing judge (outcome_at v) (outcome_at v).error
              (push (ran flags arguments "" (outcome_at v)) v)

        checked :
            (error : Option Error)
            → (with_error (continue (unless error) (λ _. judged_at) w)).0.ready ≡ true
            → ReadReady w (with_error (continue (unless error) (λ _. judged_at) w)).1
        checked (some e) h = absurd (ground arith)
        checked none h =
            let (succeeded, object, decoded, ready, same) =
              judged-ready (outcome_at w) (outcome_at w).error
                (push (ran flags arguments "" (outcome_at w)) w) h in
            (outcome_at w, object, succeeded, decoded, ready, ap (λ v. v.log) same)

judged_workload : (found : Bool × String) → (workload_result found).ready ≡ true → found.0 ≡ true
judged_workload (true, message) h = refl
judged_workload (false, message) h = absurd (ground arith)

unwrapped :
    {A : Type 0} (text : String) (values : List Arg) (r : Result A) {a : A}
    → wrapped text values r ≡ ok a
    → r ≡ ok a
unwrapped text values (ok a) h = h
unwrapped text values (err e) h = absurd (ground arith)

-- If readWorkload says ready, kubectl was called exactly once, to get this workload, without
-- an error, and its answer decodes to a status that is ready for this kind of workload.
pub read_workload-ready :
    (p : Process) (unmarshal : String → Result WorkloadStatus)
    (kube_context kubeconfig namespace resource name : String) (w : World)
    → (read_workload p unmarshal kube_context kubeconfig namespace resource name w).0.ready ≡ true
    → (outcome : Outcome) × (status : WorkloadStatus) × (outcome.error ≡ none)
      × (unmarshal outcome.out ≡ ok status)
      × ((workload_ready resource status).0 ≡ true)
      × ((read_workload p unmarshal kube_context kubeconfig namespace resource name w).1.log
          ≡ ran (args kube_context kubeconfig) (get_object namespace resource name) "" outcome
            ∷ w.log)
unfolding read_workload
read_workload-ready p unmarshal kube_context kubeconfig namespace resource name w h =
    let (outcome, status, succeeded, decoded, ready, log) =
      read_object-ready (λ out. wrapped "decode %s status: %w" (str resource ∷ []) (unmarshal out))
        ("get " <> resource) ("waiting for " <> (resource <> " to be created"))
        (λ status. workload_result (workload_ready resource status)) p
        (args kube_context kubeconfig) (get_object namespace resource name) w h in
    (
      outcome,
      status,
      succeeded,
      unwrapped "decode %s status: %w" (str resource ∷ []) (unmarshal outcome.out) decoded,
      judged_workload (workload_ready resource status) ready,
      log,
    )

judged_config_map :
    (empty : Bool) (key : String)
    → (if empty
        then pending true ("waiting for " <> (key <> " data"))
        else is_ready (key <> " data populated")).ready
      ≡ true
    → empty ≡ false
judged_config_map false key h = refl
judged_config_map true key h = absurd (ground arith)

-- If checkConfigMapData says ready, kubectl was called exactly once, to get this config map,
-- without an error, and its answer decodes to values of which the one under the key is not
-- blank.
pub check_config_map_data-ready :
    (p : Process) (unmarshal : String → Result (Assoc String))
    (kube_context kubeconfig namespace name data_key : String) (w : World)
    → (check_config_map_data p unmarshal kube_context kubeconfig namespace name data_key w).0.ready
      ≡ true
    → (outcome : Outcome) × (values : Assoc String) × (outcome.error ≡ none)
      × (unmarshal outcome.out ≡ ok values)
      × (trim_space (or_empty (lookup data_key values)) ≢ "")
      × ((check_config_map_data p unmarshal kube_context kubeconfig namespace name data_key w).1.log
          ≡ ran (args kube_context kubeconfig) (get_object namespace "configmap" name) "" outcome
            ∷ w.log)
unfolding check_config_map_data
check_config_map_data-ready p unmarshal kube_context kubeconfig namespace name data_key w h =
    let (outcome, values, succeeded, decoded, ready, log) =
      read_object-ready (λ out. wrapped "decode configmap data: %w" [] (unmarshal out))
        "get configmap" "waiting for configmap to be created" (config_map_result data_key) p
        (args kube_context kubeconfig) (get_object namespace "configmap" name) w h in
    let value = trim_space (or_empty (lookup data_key values)) in
    let filled : (value =ˢ "") ≡ false = judged_config_map (value =ˢ "") data_key ready in
    (
      outcome,
      values,
      succeeded,
      unwrapped "decode configmap data: %w" [] (unmarshal outcome.out) decoded,
      λ same. absurd (ground (arith, eq_iff value "")),
      log,
    )
