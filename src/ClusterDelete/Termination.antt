-- ===== src/ClusterDelete/Termination.antt =====
-- delete.go: runs that have a result from every state.
use podplane.Base.{
  ℕ, ◌*◌, ◌<◌, Bool, true, false, ◌≡◌, refl, String, List, [], ◌∷◌, Option, none, some,
  if◌then◌else◌, Result, ok, err, Error, Arg, is_some,
}
use podplane.Base.Assoc.{Assoc}
use podplane.ClusterDelete.Shards.{DocumentCodec}
use podplane.ClusterDelete.Runs.{
  Event, Instance, World, Surroundings, Run, pure, fail, lift, continue, ◌>>=◌, call, report,
  wrapping, wrap_error,
}
use podplane.ClusterDelete.Outputs.{Outputs}
use podplane.ClusterDelete.Waiting.{Provider, list_instances}
use podplane.ClusterDelete.Workflow.{
  Deletion, DeleteOptions, scale_shards, wait, require_none, require, clear_remaining,
  destroy_stack, clear_dangling, delete_cluster, delete,
}
use podplane.ClusterDelete.Rounds.{Returned, wait-Returned}

pub record Returns {A : Type 0} (m : Run A) : Type 0 where
  pub at : (w : World) → Returned (m w)

module _ {A : Type 0} where
  Returns-pure : (a : A) → Returns (pure a)
  unfolding pure
  Returns-pure a = record { at = λ w. refl }

  Returns-fail : (e : Error) → Returns (fail {A = A} e)
  unfolding fail
  Returns-fail e = record { at = λ w. refl }

  Returns-lift : (r : Result A) → Returns (lift r)
  unfolding lift
  Returns-lift r = record { at = λ w. refl }

  Returns-call :
      (e : Surroundings) (event : Result A → Event) (answer : World → Result A)
      → Returns (call e event answer)
  unfolding call
  Returns-call e event answer = record { at = λ w. refl }

  Returns-if : (b : Bool) (m n : Run A) → Returns m → Returns n → Returns (if b then m else n)
  Returns-if true m n h k = h
  Returns-if false m n h k = k

  wrapped-Returned :
      (format : String) (args : List Arg) (o : Option (Result A × World))
      → Returned o
      → Returned (wrap_error format args o)
  wrapped-Returned format args none h = h
  wrapped-Returned format args (some (r, w)) h = refl

  Returns-wrapping :
      (format : String) (args : List Arg) (m : Run A) → Returns m → Returns (wrapping format args m)
  unfolding wrapping
  Returns-wrapping format args m h = record {
    at = λ w. wrapped-Returned format args (m w) (h.at w);
  }

Returns-report :
    (heard : Bool) (format : String) (args : List Arg) → Returns (report heard format args)
unfolding report
Returns-report heard format args = record { at = λ w. refl }

Returns-list :
    (e : Surroundings) (provider : Provider) (cluster : String)
    → Returns (list_instances e provider cluster)
unfolding list_instances
Returns-list e provider cluster = record { at = λ w. refl }

module _ {A B : Type 0} where
  continue-Returned :
      (f : A → Run B) (o : Option (Result A × World))
      → Returned o
      → ((a : A) → Returns (f a))
      → Returned (continue f o)
  continue-Returned f none h k = h
  continue-Returned f (some (ok a, w)) h k = (k a).at w
  continue-Returned f (some (err e, w)) h k = refl

  Returns-bind :
      (m : Run A) (f : A → Run B) → Returns m → ((a : A) → Returns (f a)) → Returns (m >>= f)
  unfolding ◌>>=◌
  Returns-bind m f h k = record { at = λ w. continue-Returned f (m w) (h.at w) k }

ruleset returns_rules = (
  Returns-pure, Returns-fail, Returns-lift, Returns-call, Returns-if, Returns-wrapping,
  Returns-report, Returns-list, Returns-bind,
)

module _ (d : Deletion) (enough : d.wait_timeout < d.rounds * d.poll_interval) where
  Returns-wait : Returns (wait d)
  Returns-wait = record {
    at = λ w.
        wait-Returned d.surroundings d.provider d.cluster_id d.wait_timeout d.poll_interval d.rounds
          w enough;
  }

  Returns-scale_shards :
      (c : DocumentCodec) (bucket : String) (shards : Assoc String)
      → Returns (scale_shards d c bucket shards)
  unfolding scale_shards
  Returns-scale_shards c bucket [] = search returns_rules
  Returns-scale_shards c bucket ((shard, key) ∷ shards) =
      Returns-bind _ _ (Returns-wrapping _ _ _ (Returns-call _ _ _))
        (λ _. Returns-scale_shards c bucket shards)

  Returns-require_none : (is : List Instance) → Returns (require_none d is)
  Returns-require_none [] = search returns_rules
  Returns-require_none (i ∷ is) = search returns_rules

  Returns-clear_remaining : (is : List Instance) → Returns (clear_remaining d is)
  unfolding clear_remaining
  Returns-clear_remaining [] = search returns_rules
  Returns-clear_remaining (i ∷ is) =
      search (returns_rules, Returns-wait, Returns-require_none) depth 20

  Returns-destroy_stack :
      (dir : String) (auto_approve : Bool) → Returns (destroy_stack d dir auto_approve)
  unfolding destroy_stack
  Returns-destroy_stack dir auto_approve = search returns_rules

  Returns-clear_dangling : (is : List Instance) → Returns (clear_dangling d is)
  unfolding clear_dangling
  Returns-clear_dangling [] = search returns_rules
  Returns-clear_dangling (i ∷ is) = search returns_rules

  Returns-delete_cluster :
      (u : List ℕ → Result Outputs) (c : DocumentCodec) (dir : String) (auto_approve : Bool)
      → Returns (delete_cluster d u c dir auto_approve)
  unfolding delete_cluster
  Returns-delete_cluster u c dir auto_approve =
      search
        (
          returns_rules, Returns-scale_shards, Returns-wait, Returns-clear_remaining,
          Returns-destroy_stack, Returns-clear_dangling,
        )
        depth 20

Returns-require : {A : Type 0} (message : String) (o : Option A) → Returns (require message o)
Returns-require message none = search returns_rules
Returns-require message (some a) = search returns_rules

module _ (e : Surroundings) (u : List ℕ → Result Outputs) (c : DocumentCodec) (rounds : ℕ) where
  Returns-delete :
      (opts : DeleteOptions)
      → opts.wait_timeout < rounds * opts.poll_interval
      → Returns (delete e u c rounds opts)
  unfolding delete
  Returns-delete opts enough =
      search (returns_rules, Returns-require, Returns-delete_cluster, enough)

  some_of_is_some : {A : Type 0} (o : Option A) → is_some o ≡ true → (a : A) × (o ≡ some a)
  some_of_is_some none h = cc
  some_of_is_some (some a) h = (a, refl)

  -- If so many rounds of the poll interval are longer than the time to wait, so that the
  -- interval is not zero, then no wait of Delete runs out of rounds, and Delete has a result
  -- from every state.
  pub delete-some :
      (opts : DeleteOptions) (w : World)
      → opts.wait_timeout < rounds * opts.poll_interval
      → (out : Result (Unit {0}) × World) × (delete e u c rounds opts w ≡ some out)
  delete-some opts w enough =
      some_of_is_some (delete e u c rounds opts w) ((Returns-delete opts enough).at w)
