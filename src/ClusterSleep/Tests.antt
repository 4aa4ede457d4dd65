-- ===== src/ClusterSleep/Tests.antt =====
-- sleep.go: a request on a kubeconfig with one cloud cluster.
use podplane.Base.{true, false, ◌≡◌, refl, ◌⊎◌, String, List, [], ◌∷◌, none, some, ok}
use podplane.Base.Strings.{cut_prefix, trim_right, trim_left}
use podplane.Base.Exec.{◌>>=◌}
use podplane.Kubectl.Keys.{args, cluster_key, cluster_id}
use podplane.Kubectl.Contexts.{
  Event, ran, warned, asked, World, Process, run_kubectl, check_context, find_context,
  resolve_context,
}
use podplane.ClusterSleep.Request.{
  Options, Target, Formats, run, wrapping, candidates, select_context, find_target, warn, ask,
  confirm_force, authorize, patch_cluster, prepare, request,
}
use podplane.ClusterSleep.Safety.{Patched, request-Patched}
use podplane.ClusterSleep.Safety.Patches.{patches}

abbrev kubectl : Process
kubectl = record {
  kubectl = λ arguments input w. record { out = ""; stderr = ""; error = none };
  context_error = λ w. none;
}

abbrev target : Target
target = record {
  name = "demo--a";
  namespace = "ns";
  kind = "NstanceCluster";
  reference = "demo--a";
}

abbrev formats : Formats
formats = record {
  unmarshal_config = λ out. ok (record {
    current_context = "demo";
    contexts =
        ("demo", record { name = ""; cluster = "podplane-demo"; user = "u"; namespace = "" }) ∷ [];
  });
  unmarshal_list = λ out. ok (target ∷ []);
  unmarshal_access =
      λ out. ok (record { allowed = true; denied = false; reason = ""; evaluation_error = "" });
  marshal = λ document. "{}";
  now = λ w. "2026-01-01T00:00:00Z";
}

abbrev options : Options
options = record {
  context = "";
  kubeconfig = "";
  force = true;
  auto_approve = false;
  has_warn = true;
  confirm = some (λ question w. ok true);
}

abbrev start : World
start = record { log = [] }

abbrev finished : World
finished = (request kubectl formats options start).1

request-Patched_example :
    (patches finished.log ≡ patches []) ⊎ Patched kubectl formats options finished.log
request-Patched_example = request-Patched kubectl formats options start

abbrev verb : Event → String
verb (ran context_flags (v ∷ rest) input outcome) = v
verb (ran context_flags [] input outcome) = ""
verb (warned message) = "warned"
verb (asked question answer) = question

abbrev verbs : List Event → List String
verbs [] = []
verbs (e ∷ log) = verb e ∷ verbs log

order :
    verbs finished.log
    ≡ "patch" ∷ "create" ∷ "Force sleep of ns/demo--a?" ∷ "warned" ∷ "get" ∷ "config" ∷ []
unfolding request prepare select_context find_target confirm_force authorize patch_cluster wrapping
    run candidates warn ask resolve_context run_kubectl check_context find_context args cluster_key
    cluster_id ◌>>=◌ cut_prefix trim_right trim_left
order = refl
