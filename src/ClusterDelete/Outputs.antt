-- ===== src/ClusterDelete/Outputs.antt =====
-- delete.go: parseOutputs, on the outputs that encoding/json has read, and formatInstances.
use podplane.Base.{
  String, List, [], ◌∷◌, ◌<>◌, ◌=ˢ◌, if◌then◌else◌, Result, ok, ◌>>=◌, ◌>>◌, reject, wrapped,
  errorf, str, is_empty, map, ℕ,
}
use podplane.Base.Assoc.{Assoc}
use podplane.Base.Strings.{join}
use podplane.ClusterDelete.Runs.{Instance}

-- The outputs nstance_bucket and nstance_shards; a shard is its config_key.
pub record Outputs : Type 0 where
  pub bucket : String
  pub shards : Assoc String

abbrev regenerate : String
regenerate =
    "rerun podplane cluster create --no-apply to regenerate managed .tf files and apply them"

-- The loop over the shards.
unfoldable pub shard_keys : Assoc String → Result (Assoc String)
shard_keys [] = ok []
shard_keys ((shard, key) ∷ rest) = do
  reject (key =ˢ "") (errorf "shard %s has empty config_key output" (str shard ∷ []))
  keys ← shard_keys rest
  ok ((shard, key) ∷ keys)

-- parseOutputs
unfoldable pub parse_outputs : (List ℕ → Result Outputs) → List ℕ → Result (String × Assoc String)
parse_outputs unmarshal raw = do
  outputs ← wrapped "parse OpenTofu/Terraform outputs: %w" [] (unmarshal raw)
  reject (outputs.bucket =ˢ "") (errorf "missing nstance_bucket output; %s" (str regenerate ∷ []))
  reject (is_empty outputs.shards)
      (errorf "missing nstance_shards output; %s" (str regenerate ∷ []))
  shards ← shard_keys outputs.shards
  ok (outputs.bucket, shards)

-- One attribute of an instance, left out when it is empty.
abbrev pub attribute : String → String → String
attribute key value = if value =ˢ "" then "" else " " <> (key <> ("=" <> value))

abbrev pub format_instance : Instance → String
format_instance i =
    i.id
    <> (if i.name =ˢ "" then "" else " (" <> (i.name <> ")"))
    <> attribute "zone" i.zone
    <> attribute "shard" i.shard
    <> attribute "group" i.group
    <> attribute "state" i.state

-- formatInstances
unfoldable pub format_instances : List Instance → String
format_instances instances = join ", " (map format_instance instances)
