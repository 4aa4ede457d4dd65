-- ===== src/ClusterDelete/Safety.antt =====
-- delete.go: what has happened before instances are terminated and before the stack is destroyed.
mod Waits
mod Steps
pub mod Deletion
use podplane.Base.{ℕ, true, ◌≡◌, String, List, [], ◌∷◌, Result, ok, All, Any}
use podplane.Base.Assoc.{Assoc}
use podplane.ClusterDelete.Runs.{
  Event, read_outputs, updated, listed, terminated, asked, destroyed, reported, paused,
}
use podplane.ClusterDelete.Outputs.{Outputs, parse_outputs}
use podplane.ClusterDelete.Workflow.{destroy_question}

abbrev pub Happened : Event → List Event → Type 0
Happened event = Any (λ e. e ≡ event)

-- The shards' outputs were read, and each shard's configuration was scaled down.
pub record Scaled (unmarshal : List ℕ → Result Outputs) (log : List Event) : Type 0 where
  pub raw : List ℕ
  pub bucket : String
  pub shards : Assoc String
  pub read : Happened (read_outputs (ok raw)) log
  pub parsed : parse_outputs unmarshal raw ≡ ok (bucket, shards)
  pub scaled : All (λ s. Happened (updated bucket s.1 (ok tt)) log) shards

-- The user has just agreed, to a log whose last listing was empty.
pub record MayDestroy (unmarshal : List ℕ → Result Outputs) (before : List Event) : Type 0 where
  pub cluster : String
  pub rest : List Event
  pub ends : before ≡ asked destroy_question (ok true) ∷ listed cluster (ok []) ∷ rest
  pub scaled : Scaled unmarshal rest

-- The user has just agreed.
pub record MayTerminate (before : List Event) : Type 0 where
  pub question : String
  pub rest : List Event
  pub ends : before ≡ asked question (ok true) ∷ rest

-- The stack was destroyed, and instances were terminated, only where that was allowed.
abbrev pub IsSafe : (List ℕ → Result Outputs) → List Event → Type 0
IsSafe unmarshal [] = Unit
IsSafe unmarshal (destroyed auto_approve r ∷ before) =
    MayDestroy unmarshal before × IsSafe unmarshal before
IsSafe unmarshal (terminated instances r ∷ before) = MayTerminate before × IsSafe unmarshal before
IsSafe unmarshal (read_outputs r ∷ before) = IsSafe unmarshal before
IsSafe unmarshal (updated bucket key r ∷ before) = IsSafe unmarshal before
IsSafe unmarshal (listed cluster r ∷ before) = IsSafe unmarshal before
IsSafe unmarshal (asked question r ∷ before) = IsSafe unmarshal before
IsSafe unmarshal (reported format args ∷ before) = IsSafe unmarshal before
IsSafe unmarshal (paused ∷ before) = IsSafe unmarshal before
