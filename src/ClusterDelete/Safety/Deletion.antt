-- ===== src/ClusterDelete/Safety/Deletion.antt =====
-- delete.go: what Delete leaves in the log.
use podplane.Base.{ℕ, ◌≡◌, subst, String, List, Option, none, some, Result, ok, err}
use podplane.ClusterDelete.Shards.{DocumentCodec}
use podplane.ClusterDelete.Runs.{World, Surroundings}
use podplane.ClusterDelete.Outputs.{Outputs}
use podplane.ClusterDelete.Workflow.{DeleteOptions, require, delete}
use podplane.ClusterDelete.Ensures.{After, Ensures, Ensures-pure, Ensures-fail, Ensures-bind}
use podplane.ClusterDelete.Safety.{IsSafe}
use podplane.ClusterDelete.Safety.Steps.{delete_cluster-Ensures}

module _ (u : List ℕ → Result Outputs) where
  require-Ensures :
      {A : Type 0} (message : String) (o : Option A)
      → Ensures (IsSafe u) (λ _. IsSafe u) (IsSafe u) (require message o)
  require-Ensures message none = Ensures-fail _ (λ log p. p)
  require-Ensures message (some a) = Ensures-pure a (λ log p. p)

  kept :
      (o : Option (Result (Unit {0}) × World)) (r : Result (Unit {0})) (w : World)
      → After (λ _. IsSafe u) (IsSafe u) o
      → o ≡ some (r, w)
      → IsSafe u w.log
  kept o (ok a) w h found = subst (After (λ _. IsSafe u) (IsSafe u)) found h
  kept o (err e) w h found = subst (After (λ _. IsSafe u) (IsSafe u)) found h

module _ (u : List ℕ → Result Outputs) (e : Surroundings) (c : DocumentCodec) (rounds : ℕ) where
  delete-Ensures :
      (opts : DeleteOptions)
      → Ensures (IsSafe u) (λ _. IsSafe u) (IsSafe u) (delete e u c rounds opts)
  unfolding delete
  delete-Ensures opts =
      Ensures-bind (λ _. IsSafe u) _ _ (require-Ensures u _ opts.cluster_config)
        (λ config.
          Ensures-bind (λ _. IsSafe u) _ _ (require-Ensures u _ opts.executor)
            (λ executor.
              Ensures-bind (λ _. IsSafe u) _ _ (require-Ensures u _ opts.provider)
                (λ provider.
                  Ensures-bind (λ _. IsSafe u) _ _ (require-Ensures u _ opts.confirm)
                    (λ confirm. delete_cluster-Ensures _ c opts.stack_dir opts.auto_approve))))

  -- Whatever the executor, the provider, the user, the clock and the rounds do, Delete keeps
  -- the log safe: directly before each destruction of the stack the user agreed to destroy it,
  -- directly before that a listing found no managed instance, and earlier the outputs were
  -- read and parsed and the configuration of each shard in them was updated without an error;
  -- directly before each termination of instances the user agreed to a question.
  pub delete-IsSafe :
      (opts : DeleteOptions) (w w' : World) (r : Result (Unit {0}))
      → IsSafe u w.log
      → delete e u c rounds opts w ≡ some (r, w')
      → IsSafe u w'.log
  delete-IsSafe opts w w' r safe run = kept u _ r w' ((delete-Ensures opts).at w safe) run
