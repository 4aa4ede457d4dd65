-- ===== src/ClusterSleep/Request.antt =====
-- sleep.go: Request, with encoding/json as a parameter.
use podplane.Base.{
  pos, Bool, false, not, ◌&&◌, ◌||◌, String, List, [], ◌∷◌, ◌<>◌, ◌=ˢ◌, Option, none, some,
  if◌then◌else◌, Result, ok, err, Error, errorf, wrapf, wrapped, str, int, Arg, length,
}
use podplane.Base.Strings.{trim_space, has_prefix}
use podplane.Base.Json.{Json, Fields, string, object, end, field}
use podplane.Base.Exec.{Exec, pure, lift, gets, modify, fail_if, ◌>>=◌, ◌>>◌}
use podplane.Kubectl.Keys.{Context, args, cluster_key, cluster_id}
use podplane.Kubectl.Contexts.{
  Outcome, warned, asked, World, Process, push, run_kubectl, check_context, Kubeconfig,
  resolve_context,
}

abbrev pub Confirm : Type 0
Confirm = String → World → Result Bool

-- Of Warn it matters only whether it is there.
pub record Options : Type 0 where
  pub context : String
  pub kubeconfig : String
  pub force : Bool
  pub auto_approve : Bool
  pub has_warn : Bool
  pub confirm : Option Confirm

pub record Target : Type 0 where
  pub name : String
  pub namespace : String
  pub kind : String
  pub reference : String

pub record Access : Type 0 where
  pub allowed : Bool
  pub denied : Bool
  pub reason : String
  pub evaluation_error : String

-- encoding/json, and the time of the request as text.
pub record Formats : Type 0 where
  pub unmarshal_config : String → Result Kubeconfig
  pub unmarshal_list : String → Result (List Target)
  pub unmarshal_access : String → Result Access
  pub marshal : Json → String
  pub now : World → String

abbrev pub run_error : Outcome → Result String
run_error outcome = failed outcome.error
  where
    failed : Option Error → Result String
    failed none = ok outcome.out
    failed (some e) = err (wrapf "invoke kubectl: %w: %s" (str (trim_space outcome.stderr) ∷ []) e)

-- run
unfoldable pub run : Process → List String → List String → String → Exec World String
run p flags arguments input = do
  check_context p
  outcome ← run_kubectl p flags arguments input
  check_context p
  lift (run_error outcome)

-- The error of an action, wrapped.
unfoldable pub wrapping : {A : Type 0} → String → List Arg → Exec World A → Exec World A
wrapping format args m w = let r = m w in (wrapped format args r.0, r.1)

-- A name that has the prefix is longer than it exactly when it is another text.
abbrev pub is_candidate : String → Target → Bool
is_candidate prefix t =
    (has_prefix t.name prefix && not (t.name =ˢ prefix))
    && not (t.namespace =ˢ "")
    && t.kind =ˢ "NstanceCluster"
    && t.reference =ˢ t.name

unfoldable pub candidates : String → List Target → List Target
candidates prefix [] = []
candidates prefix (t ∷ ts) =
    let rest = candidates prefix ts in if is_candidate prefix t then t ∷ rest else rest

abbrev pub the_candidate : String → List Target → Result Target
the_candidate id (t ∷ []) = ok t
the_candidate id ts = err (
    errorf "expected one Nstance CAPI Cluster for %q, found %d; refusing sleep"
      (str id ∷ int (pos (length ts)) ∷ []))

abbrev pub references_cloud : Context → Bool
references_cloud selected =
    let id = cluster_id selected in
    not (id.1 || id.0 =ˢ "" || not (selected.cluster =ˢ cluster_key id.0 false))

module _ (p : Process) (f : Formats) (opts : Options) where
  -- The context and the flags that name it.
  unfoldable pub select_context : Exec World Context
  select_context = do
    selected ←
        wrapping "read sleep context: %w" []
          (resolve_context p f.unmarshal_config opts.context opts.kubeconfig)
    fail_if (not (references_cloud selected))
        (errorf "context %q does not reference a Podplane cloud cluster" (str selected.name ∷ []))
    pure selected

  abbrev pub flags : Context → List String
  flags selected = args selected.name opts.kubeconfig

  abbrev pub list_args : List String
  list_args = "get" ∷ "clusters.cluster.x-k8s.io" ∷ "--all-namespaces" ∷ "--output=json" ∷ []

  unfoldable pub find_target : Context → Exec World Target
  find_target selected = do
    raw ← wrapping "discover Nstance CAPI Cluster: %w" [] (run p (flags selected) list_args "")
    items ← lift (wrapped "parse CAPI Clusters: %w" [] (f.unmarshal_list raw))
    let id = (cluster_id selected).0
    lift (the_candidate id (candidates (id <> "--") items))

  unfoldable pub warn : String → Exec World (Unit {0})
  warn message = if opts.has_warn then modify (push (warned message)) else pure tt

  unfoldable pub ask : Confirm → String → Exec World Bool
  ask confirm question w = (confirm question w, push (asked question (confirm question w)) w)

  abbrev pub force_question : Target → String
  force_question t = "Force sleep of " <> (t.namespace <> ("/" <> (t.name <> "?")))

  abbrev pub ask_force : Option Confirm → Target → Exec World (Unit {0})
  ask_force none t =
      lift (err (errorf "forced sleep requires explicit confirmation or --auto-approve (-y)" []))
  ask_force (some confirm) t = do
    agreed ← wrapping "confirm forced sleep: %w" [] (ask confirm (force_question t))
    fail_if (not agreed) (errorf "sleep cancelled" [])

  unfoldable pub confirm_force : Target → Exec World (Unit {0})
  confirm_force t =
      if opts.force
      then (do
        warn "Forced sleep: active workloads and connections may be interrupted."
        if opts.auto_approve then pure tt else ask_force opts.confirm t)
      else pure tt

  abbrev text_field : String → String → Fields → Fields
  text_field name value rest = field name (string value) rest

  abbrev pub review : Target → Json
  review t = object (
      text_field "apiVersion" "authorization.k8s.io/v1" (
        text_field "kind" "SelfSubjectAccessReview" (
          field "spec"
            (object (
              field "resourceAttributes"
                (object (
                  text_field "group" "cluster.x-k8s.io" (
                    text_field "resource" "clusters" (
                      text_field "verb" "patch"
                        (text_field "name" t.name (text_field "namespace" t.namespace end))))))
                end))
            end)))

  abbrev pub review_args : List String
  review_args = "create" ∷ "--filename=-" ∷ "--output=json" ∷ []

  abbrev pub refuses : Access → Bool
  refuses access = not access.allowed || access.denied || not (access.evaluation_error =ˢ "")

  unfoldable pub authorize : Context → Target → Exec World (Unit {0})
  authorize selected t = do
    raw ←
        wrapping "review CAPI Cluster patch access: %w" []
          (run p (flags selected) review_args (f.marshal (review t)))
    access ← lift (wrapped "parse patch access review: %w" [] (f.unmarshal_access raw))
    fail_if (refuses access) (
        errorf "not authorized to patch CAPI Cluster %s/%s: %s %s"
          (str t.namespace ∷ str t.name ∷ str access.reason ∷ str access.evaluation_error ∷ []))

  abbrev pub patch : String → Json
  patch request = object (
      field "metadata"
        (object
          (field "annotations" (object (text_field "nstance.dev/sleep-request" request end)) end))
        end)

  abbrev pub request_text : World → String
  request_text w = if opts.force then "force:" <> f.now w else f.now w

  abbrev pub patch_args : Target → String → List String
  patch_args t document =
      "patch" ∷ "clusters.cluster.x-k8s.io" ∷ t.name ∷ "--namespace" ∷ t.namespace ∷ "--type=merge"
      ∷ "--patch" ∷ document ∷ []

  unfoldable pub patch_cluster : Context → Target → Exec World (Unit {0})
  patch_cluster selected t = do
    request ← gets request_text
    wrapping "request sleep of CAPI Cluster %s/%s: %w" (str t.namespace ∷ str t.name ∷ [])
        (run p (flags selected) (patch_args t (f.marshal (patch request))) "")
    pure tt

  -- Everything in front of the patch.
  unfoldable pub prepare : Exec World (Context × Target)
  prepare = do
    selected ← select_context
    t ← find_target selected
    confirm_force t
    authorize selected t
    pure (selected, t)

  -- Request
  unfoldable pub request : Exec World (Unit {0})
  request = do ready ← prepare; patch_cluster ready.0 ready.1
