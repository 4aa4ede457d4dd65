-- ===== src/ClusterDelete/Workflow.antt =====
-- delete.go: Delete.
use podplane.Base.{
  ℕ, ◌+◌, ◌*◌, pos, Bool, String, List, [], ◌∷◌, Option, none, some, if◌then◌else◌, Result, errorf,
  Checked, int, str, length, sort,
}
use podplane.Base.Assoc.{Assoc}
use podplane.Base.Strings.{string_le}
use podplane.ClusterConfig.Types.{ClusterConfig}
use podplane.ClusterDelete.Shards.{DocumentCodec, zero_shard_config}
use podplane.ClusterDelete.Runs.{
  Instance, World, Surroundings, Run, pure, fail, lift, ◌>>=◌, ◌>>◌, call, report, wrapping,
  read_outputs, updated, terminated, asked, destroyed,
}
use podplane.ClusterDelete.Outputs.{Outputs, parse_outputs, format_instances}
use podplane.ClusterDelete.Waiting.{Provider, list_instances, wait_for_managed_instances}

-- Terraform, given the time at which its context ends.
pub record Executor : Type 0 where
  pub output_json : ℕ → String → World → Result (List ℕ)
  pub destroy : ℕ → String → Bool → World → Checked

abbrev pub Confirm : Type 0
Confirm = String → World → Result Bool

-- A field that may be nil is an `Option`; of Status it matters only whether it is there.
pub record DeleteOptions : Type 0 where
  pub cluster_config : Option ClusterConfig
  pub stack_dir : String
  pub executor : Option Executor
  pub provider : Option Provider
  pub auto_approve : Bool
  pub confirm : Option Confirm
  pub has_status : Bool
  pub wait_timeout : ℕ
  pub poll_interval : ℕ

abbrev pub minute : ℕ
minute = 60 * 1000000000

abbrev pub output_timeout : ℕ
output_timeout = 30 * minute

abbrev pub destroy_timeout : ℕ
destroy_timeout = 2 * 60 * minute

abbrev pub require : {A : Type 0} → String → Option A → Run A
require message none = fail (errorf message [])
require message (some a) = pure a

-- What the steps share, once the required fields are there; `rounds` bounds each wait.
pub record Deletion : Type 0 where
  pub surroundings : Surroundings
  pub executor : Executor
  pub provider : Provider
  pub confirm : Confirm
  pub cluster_id : String
  pub has_status : Bool
  pub wait_timeout : ℕ
  pub poll_interval : ℕ
  pub rounds : ℕ

abbrev pub terminate_question : String
terminate_question = "Terminate remaining Nstance-managed instances directly before destroy?"

abbrev pub destroy_question : String
destroy_question = "Destroy OpenTofu/Terraform-managed resources?"

abbrev pub dangling_question : String
dangling_question = "Terminate dangling Nstance-managed instances?"

module _ (d : Deletion) where
  abbrev pub ask : String → Run Bool
  ask question = call d.surroundings (asked question) (d.confirm question)

  abbrev pub terminate : List Instance → Run (Unit {0})
  terminate instances = call d.surroundings (terminated instances) (d.provider.terminate instances)

  abbrev pub update_shard : DocumentCodec → String → String → Run (Unit {0})
  update_shard c bucket key =
      call d.surroundings (updated bucket key)
        (d.provider.update_object bucket key (zero_shard_config c))

  -- The loop over the shards.
  unfoldable pub scale_shards : DocumentCodec → String → Assoc String → Run (Unit {0})
  scale_shards c bucket [] = pure tt
  scale_shards c bucket ((shard, key) ∷ shards) = do
    wrapping "scale shard %s groups to zero: %w" (str shard ∷ []) (update_shard c bucket key)
    scale_shards c bucket shards

  -- wait
  abbrev pub wait : Run (List Instance)
  wait =
      wait_for_managed_instances d.surroundings d.provider d.cluster_id d.wait_timeout
        d.poll_interval d.rounds

  -- The second wait has to leave no instance.
  abbrev pub require_none : List Instance → Run (Unit {0})
  require_none [] = pure tt
  require_none (i ∷ is) = fail (
      errorf "timed out waiting for %d Nstance-managed instance(s) to terminate: %s"
        (int (pos (length (i ∷ is))) ∷ str (format_instances (i ∷ is)) ∷ []))

  -- Instances that are left after the first wait.
  unfoldable pub clear_remaining : List Instance → Run (Unit {0})
  clear_remaining [] = pure tt
  clear_remaining (i ∷ is) = do
    report d.has_status "Nstance-managed instances are still present after scale-down: %s"
        (str (format_instances (i ∷ is)) ∷ [])
    confirmed ← ask terminate_question
    if confirmed
        then pure tt
        else fail (
            errorf "%d Nstance-managed instance(s) still present"
              (int (pos (length (i ∷ is))) ∷ []))
    terminate (i ∷ is)
    remaining ← wait
    require_none remaining

  unfoldable pub destroy_stack : String → Bool → Run (Unit {0})
  destroy_stack dir auto_approve = do
    confirmed ← ask destroy_question
    if confirmed then pure tt else fail (errorf "destroy cancelled" [])
    call d.surroundings (destroyed auto_approve)
        (λ w. d.executor.destroy (w.now + destroy_timeout) dir auto_approve w)

  -- Instances that are there after the stack was destroyed.
  unfoldable pub clear_dangling : List Instance → Run (Unit {0})
  clear_dangling [] = pure tt
  clear_dangling (i ∷ is) = do
    report d.has_status "Found dangling Nstance-managed instances for cluster %q: %s"
        (str d.cluster_id ∷ str (format_instances (i ∷ is)) ∷ [])
    confirmed ← ask dangling_question
    if confirmed then terminate (i ∷ is) else pure tt

abbrev pub by_shard : (String × String) → (String × String) → Bool
by_shard a b = string_le a.0 b.0

-- Everything behind the checks for nil.
unfoldable pub delete_cluster :
    Deletion → (List ℕ → Result Outputs) → DocumentCodec → String → Bool → Run (Unit {0})
delete_cluster d unmarshal c dir auto_approve = do
  raw ←
      call d.surroundings read_outputs (λ w. d.executor.output_json (w.now + output_timeout) dir w)
  outputs ← lift (parse_outputs unmarshal raw)
  report d.has_status "Scaling Nstance-managed groups to zero in shard configs." []
  scale_shards d c outputs.0 (sort by_shard outputs.1)
  report d.has_status "Waiting for Nstance-managed instances to terminate." []
  remaining ← wait d
  clear_remaining d remaining
  destroy_stack d dir auto_approve
  listing ← list_instances d.surroundings d.provider d.cluster_id
  dangling ← lift listing
  clear_dangling d dangling

-- Delete
unfoldable pub delete :
    Surroundings → (List ℕ → Result Outputs) → DocumentCodec → ℕ → DeleteOptions → Run (Unit {0})
delete e unmarshal c rounds opts = do
  config ← require "cluster config is required" opts.cluster_config
  executor ← require "OpenTofu/Terraform executor is required" opts.executor
  provider ← require "cluster delete provider is required" opts.provider
  confirm ← require "confirmation callback is required" opts.confirm
  delete_cluster
      (record {
        surroundings = e;
        executor = executor;
        provider = provider;
        confirm = confirm;
        cluster_id = config.cluster.id;
        has_status = opts.has_status;
        wait_timeout = opts.wait_timeout;
        poll_interval = opts.poll_interval;
        rounds = rounds;
      })
      unmarshal c opts.stack_dir opts.auto_approve
