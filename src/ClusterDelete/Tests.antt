-- ===== src/ClusterDelete/Tests.antt =====
-- delete.go: deletions with a small provider, and a codec of documents with one number.
use podplane.Base.{
  ℕ, zero, pos, Bool, true, false, ◌≡◌, refl, List, [], ◌∷◌, Option, none, some, if◌then◌else◌,
  Result, ok, err, errorf, any, arith, sort, insert_sorted, suc, sym, ap, ok-injective, ◌⊎◌,
}
use podplane.Base.Json.{Fields, get, set, number, object, end, field}
use podplane.Base.Strings.{join, string_le}
use podplane.ClusterConfig.Tests.{config}
use podplane.ClusterDelete.Shards.{
  DocumentCodec, zero_shard_config, zero_document, zero_groups, zero_tenants, changes_document,
  changes_groups, changes_tenants,
}
use podplane.ClusterDelete.Shards.Laws.{
  IsScaledDown, zero_shard_config-IsScaledDown, zero_shard_config-zero_shard_config,
}
use podplane.ClusterDelete.Runs.{
  Event, Instance, World, Surroundings, terminated, ◌>>=◌, call, report, wrapping,
}
use podplane.ClusterDelete.Outputs.{Outputs, format_instances, parse_outputs, shard_keys}
use podplane.ClusterDelete.Waiting.{
  Provider, wait_for_managed_instances, poll, list_instances, check_context, pause,
}
use podplane.ClusterDelete.Workflow.{
  Executor, DeleteOptions, delete, delete_cluster, scale_shards, clear_remaining, destroy_stack,
  clear_dangling,
}
use podplane.ClusterDelete.Safety.{IsSafe}
use podplane.ClusterDelete.Safety.Deletion.{delete-IsSafe}
use podplane.ClusterDelete.Termination.{delete-some}

-- A document with one group, whose size is the only byte of its encoding.
abbrev sized : ℕ → Fields
sized size =
    field "groups"
      (object (
        field "default"
          (object (field "workers" (object (field "size" (number (pos size) (pos 0)) end)) end))
          end))
      end

abbrev read_document : List ℕ → Result Fields
read_document (zero ∷ []) = ok (sized 0)
read_document (suc size ∷ []) = ok (sized 3)
read_document _ = err (errorf "unexpected end of JSON input" [])

abbrev codec : DocumentCodec
codec = record { unmarshal = read_document; marshal_indent = λ doc. ok (0 ∷ []) }

reads :
    (raw next : List ℕ) (doc : Fields)
    → read_document raw ≡ ok doc
    → Path (Result (List ℕ)) (ok (0 ∷ [])) (ok next)
    → read_document next ≡ ok (zero_document doc)
unfolding zero_document zero_groups zero_tenants get set
reads [] next doc h k = cc
reads (zero ∷ []) next doc h k =
    rw (sym (ok-injective k)) (ap (λ d. ok (zero_document d)) (ok-injective h))
reads (suc size ∷ []) next doc h k =
    rw (sym (ok-injective k)) (ap (λ d. ok (zero_document d)) (ok-injective h))
reads (a ∷ b ∷ raw) next doc h k = absurd (ground arith)

zero_shard_config-IsScaledDown_example :
    (doc : Fields) × (read_document (3 ∷ []) ≡ ok doc)
    × (((true ≡ false) × Path (List ℕ) (0 ∷ []) (3 ∷ []) × IsScaledDown doc)
        ⊎ ((true ≡ true)
            × (codec.marshal_indent (zero_document doc) ≡ ok (0 ∷ []))
            × IsScaledDown (zero_document doc)))
unfolding zero_shard_config changes_document changes_groups changes_tenants zero_document
    zero_groups zero_tenants get set
zero_shard_config-IsScaledDown_example =
    zero_shard_config-IsScaledDown codec (3 ∷ []) (0 ∷ []) true refl

zero_shard_config-zero_shard_config_example : zero_shard_config codec (0 ∷ []) ≡ ok (0 ∷ [], false)
unfolding zero_shard_config changes_document changes_groups changes_tenants zero_document
    zero_groups zero_tenants get set
zero_shard_config-zero_shard_config_example =
    zero_shard_config-zero_shard_config codec reads (3 ∷ []) (0 ∷ []) true refl

abbrev machine : Instance
machine = record {
  id = "i-1";
  name = "worker";
  zone = "a";
  shard = "";
  group = "";
  state = "running";
}

named :
    format_instances (machine ∷ machine ∷ [])
    ≡ "i-1 (worker) zone=a state=running, i-1 (worker) zone=a state=running"
unfolding format_instances join
named = refl

abbrev is_terminated : Event → Bool
is_terminated (terminated instances r) = true
is_terminated _ = false

-- The machine stays until it is terminated.
abbrev cloud : Provider
cloud = record {
  update_object = λ bucket key update w. ok tt;
  managed_instances = λ cluster w. ok (if any is_terminated w.log then [] else machine ∷ []);
  terminate = λ instances w. ok tt;
}

abbrev terraform : Executor
terraform = record { output_json = λ end dir w. ok []; destroy = λ end dir auto_approve w. ok tt }

abbrev quiet : Surroundings
quiet = record {
  ends = none;
  end_error = errorf "context canceled" [];
  takes = λ w. 1;
  prefers_timer = λ w. true;
  is_deadline_exceeded = λ e. false;
}

abbrev outputs : List ℕ → Result Outputs
outputs raw = ok (record { bucket = "state"; shards = ("s1", "shards/s1.json") ∷ [] })

abbrev options : DeleteOptions
options = record {
  cluster_config = some config;
  stack_dir = "stack";
  executor = some terraform;
  provider = some cloud;
  auto_approve = true;
  confirm = some (λ message w. ok true);
  has_status = false;
  wait_timeout = 2;
  poll_interval = 2;
}

abbrev start : World
start = record { log = []; now = 0 }

abbrev log_of : Option (Result (Unit {0}) × World) → World
log_of none = start
log_of (some (r, w)) = w

abbrev finished : World
finished = log_of (delete quiet outputs codec 2 options start)

delete-IsSafe_example : IsSafe outputs finished.log
unfolding delete ◌>>=◌ delete_cluster call parse_outputs shard_keys report scale_shards sort
    insert_sorted wrapping wait_for_managed_instances poll list_instances check_context pause
    clear_remaining destroy_stack clear_dangling get set join string_le
delete-IsSafe_example = delete-IsSafe outputs quiet codec 2 options start finished (ok tt) tt refl

delete-some_example :
    (out : Result (Unit {0}) × World) × (delete quiet outputs codec 2 options start ≡ some out)
delete-some_example = delete-some quiet outputs codec 2 options start (omega arith)
