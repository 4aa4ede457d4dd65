-- ===== src/ClusterDelete/Safety/Steps.antt =====
-- delete.go: what the steps of Delete leave in the log.
use podplane.Base.{
  ℕ, Bool, true, ◌≡◌, refl, ap, ◌∙◌, String, List, [], ◌∷◌, Result, ok, Checked, All, All-sort,
  sort,
}
use podplane.Base.Lists.Any.{here, there}
use podplane.Base.Assoc.{Assoc}
use podplane.ClusterDelete.Shards.{DocumentCodec}
use podplane.ClusterDelete.Runs.{
  Event, Instance, ◌>>=◌, ◌>>◌, lift, report, read_outputs, updated, asked,
}
use podplane.ClusterDelete.Outputs.{Outputs, parse_outputs}
use podplane.ClusterDelete.Workflow.{
  Deletion, terminate_question, destroy_question, dangling_question, ask, update_shard,
  scale_shards, wait, require_none, clear_remaining, destroy_stack, clear_dangling, by_shard,
  delete_cluster,
}
use podplane.ClusterDelete.Waiting.{list_instances}
use podplane.ClusterDelete.Ensures.{
  Assertion, Ensures, Ensures-pure, Ensures-fail, Ensures-lift, Ensures-call, Ensures-wrapping,
  Ensures-if, Ensures-weaken, Ensures-report, Ensures-bind,
}
use podplane.ClusterDelete.Safety.{Happened, MayDestroy, MayTerminate, IsSafe}
use podplane.ClusterDelete.Safety.Waits.{
  Scaled-later, Emptied, Ready, Waited, wait-Ensures, list-IsSafe,
}

agreed-MayTerminate :
    (question : String) (b : Bool) (log : List Event)
    → b ≡ true
    → MayTerminate (asked question (ok b) ∷ log)
agreed-MayTerminate question b log answer = record {
  question = question;
  rest = log;
  ends = ap (λ b. asked question (ok b) ∷ log) answer;
}

abbrev Parsed : (List ℕ → Result Outputs) → List ℕ → String → Assoc String → Assertion
Parsed u raw bucket shards log =
    (parse_outputs u raw ≡ ok (bucket, shards))
    × IsSafe u log
    × Happened (read_outputs (ok raw)) log

module _ {u : List ℕ → Result Outputs} (d : Deletion) where
  -- What the loop over the shards adds to an assertion that its events keep.
  scale_shards-Ensures :
      (c : DocumentCodec) (bucket : String) (shards : Assoc String) (K : Assertion)
      → ((log : List Event) → K log → IsSafe u log)
      → ((log : List Event) (key : String) (r : Checked) → K log → K (updated bucket key r ∷ log))
      → Ensures K
          (λ _ log.
            K log × All (λ (s : String × String). Happened (updated bucket s.1 (ok tt)) log) shards)
          (IsSafe u)
          (scale_shards d c bucket shards)
  unfolding scale_shards
  scale_shards-Ensures c bucket [] K safe keeps = Ensures-pure tt (λ log k. (k, tt))
  scale_shards-Ensures c bucket ((shard, key) ∷ shards) K safe keeps =
      let K' : Assertion = λ log. K log × Happened (updated bucket key (ok tt)) log in
      Ensures-bind (λ _. K') _ _
        (Ensures-wrapping _ _ (update_shard d c bucket key) (
          Ensures-call _ _ _ (λ log k answer. (keeps log key (ok answer) k, here refl))
            (λ log k e. safe log k)))
        (λ _.
          Ensures-weaken _ _ _ (λ a log h. (h.0.0, (h.0.1, h.1))) _
            (scale_shards-Ensures c bucket shards K' (λ log h. safe log h.0)
              (λ log key r h. (keeps log key r h.0, there h.1))))

  ask-Ensures :
      (P : Assertion) (Q : Bool → Assertion) (question : String)
      → ((log : List Event) → P log → IsSafe u log)
      → ((log : List Event) (b : Bool) → P log → Q b (asked question (ok b) ∷ log))
      → Ensures P Q (IsSafe u) (ask d question)
  ask-Ensures P Q question safe h =
      Ensures-call _ _ _ (λ log p b. h log b p) (λ log p e. safe log p)

  require_none-Ensures :
      (is : List Instance)
      → Ensures (Waited u is) (λ _ log. IsSafe u log × Emptied u log) (IsSafe u) (require_none d is)
  require_none-Ensures [] = Ensures-pure tt (λ log p. p)
  require_none-Ensures (i ∷ is) = Ensures-fail _ (λ log p. p.0)

  clear_dangling-Ensures :
      (is : List Instance) → Ensures (IsSafe u) (λ _. IsSafe u) (IsSafe u) (clear_dangling d is)
  unfolding clear_dangling
  clear_dangling-Ensures [] = Ensures-pure tt (λ log p. p)
  clear_dangling-Ensures (i ∷ is) =
      Ensures-bind (λ _. IsSafe u) _ _ (Ensures-report d.has_status _ _ (λ log p. p) (λ log p. p))
        (λ _.
          Ensures-bind (λ b log. IsSafe u log × (b ≡ true → MayTerminate log)) _ _
            (ask-Ensures (IsSafe u) _ dangling_question (λ log p. p)
              (λ log b p. (p, agreed-MayTerminate dangling_question b log)))
            (λ answer.
              Ensures-if answer _ _
                (λ agreed.
                  Ensures-call _ _ _ (λ log p a. (p.1 agreed, p.0)) (λ log p e. (p.1 agreed, p.0)))
                (λ _. Ensures-pure tt (λ log p. p.0))))

  clear_remaining-Ensures :
      (is : List Instance)
      → Ensures
          (Waited u is)
          (λ _ log. IsSafe u log × Emptied u log)
          (IsSafe u)
          (clear_remaining d is)
  unfolding clear_remaining
  clear_remaining-Ensures [] = Ensures-pure tt (λ log p. p)
  clear_remaining-Ensures (i ∷ is) =
      Ensures-bind (λ _. Ready u) _ _
        (Ensures-report d.has_status _ _ (λ log p. p) (λ log p. (p.0, Scaled-later _ p.1)))
        (λ _.
          Ensures-bind (λ b log. Ready u log × (b ≡ true → MayTerminate log)) _ _
            (ask-Ensures (Ready u) _ terminate_question (λ log p. p.0)
              (λ log b p.
                ((p.0, Scaled-later _ p.1), agreed-MayTerminate terminate_question b log)))
            (λ answer.
              Ensures-bind (λ _ log. Ready u log × MayTerminate log) _ _
                (Ensures-if answer _ _ (λ agreed. Ensures-pure tt (λ log p. (p.0, p.1 agreed)))
                  (λ _. Ensures-fail _ (λ log p. p.0.0)))
                (λ _.
                  Ensures-bind (λ _. Ready u) _ _
                    (Ensures-call _ _ _ (λ log p a. ((p.1, p.0.0), Scaled-later _ p.0.1))
                      (λ log p e. (p.1, p.0.0)))
                    (λ _.
                      Ensures-bind (Waited u) _ _
                        (wait-Ensures d.surroundings d.provider d.cluster_id d.wait_timeout
                          d.poll_interval d.rounds)
                        require_none-Ensures))))

  agreed-MayDestroy :
      (b : Bool) (log : List Event)
      → Emptied u log
      → b ≡ true
      → MayDestroy u (asked destroy_question (ok b) ∷ log)
  agreed-MayDestroy b log emptied answer = record {
    cluster = emptied.cluster;
    rest = emptied.rest;
    ends =
        ap (λ b. asked destroy_question (ok b) ∷ log) answer
        ∙ ap (λ l. asked destroy_question (ok true) ∷ l) emptied.ends;
    scaled = emptied.scaled;
  }

  destroy_stack-Ensures :
      (dir : String) (auto_approve : Bool)
      → Ensures
          (λ log. IsSafe u log × Emptied u log)
          (λ _. IsSafe u)
          (IsSafe u)
          (destroy_stack d dir auto_approve)
  unfolding destroy_stack
  destroy_stack-Ensures dir auto_approve =
      Ensures-bind (λ b log. IsSafe u log × (b ≡ true → MayDestroy u log)) _ _
        (ask-Ensures _ _ destroy_question (λ log p. p.0)
          (λ log b p. (p.0, agreed-MayDestroy b log p.1)))
        (λ answer.
          Ensures-bind (λ _ log. MayDestroy u log × IsSafe u log) _ _
            (Ensures-if answer _ _ (λ agreed. Ensures-pure tt (λ log p. (p.1 agreed, p.0)))
              (λ _. Ensures-fail _ (λ log p. p.0)))
            (λ _. Ensures-call _ _ _ (λ log p a. p) (λ log p e. p)))

  Parsed-Ready :
      (raw : List ℕ) (bucket : String) (shards : Assoc String) (log : List Event)
      → Parsed u raw bucket shards log
        × All
            (λ (s : String × String). Happened (updated bucket s.1 (ok tt)) log)
            (sort by_shard shards)
      → Ready u log
  Parsed-Ready raw bucket shards log ((parsed, safe, read), scaled) = (
    safe,
    record {
      raw = raw;
      bucket = bucket;
      shards = shards;
      read = read;
      parsed = parsed;
      scaled =
          (All-sort (λ (s : String × String). Happened (updated bucket s.1 (ok tt)) log) by_shard
              shards).0
            scaled;
    },
  )

  -- From the first wait on.
  cleanup-Ensures :
      (dir : String) (auto_approve : Bool)
      → Ensures
          (Ready u)
          (λ _. IsSafe u)
          (IsSafe u)
          (report d.has_status "Waiting for Nstance-managed instances to terminate." []
            >> (wait d >>= λ remaining.
                clear_remaining d remaining
                >> (destroy_stack d dir auto_approve
                    >> (list_instances d.surroundings d.provider d.cluster_id >>= λ listing.
                        lift listing >>= λ dangling. clear_dangling d dangling))))
  cleanup-Ensures dir auto_approve =
      Ensures-bind (λ _. Ready u) _ _
        (Ensures-report d.has_status _ _ (λ log p. p) (λ log p. (p.0, Scaled-later _ p.1)))
        (λ _.
          Ensures-bind (Waited u) _ _
            (wait-Ensures d.surroundings d.provider d.cluster_id d.wait_timeout d.poll_interval
              d.rounds)
            (λ remaining. Ensures-bind _ _ _ (clear_remaining-Ensures remaining) (λ _.
              Ensures-bind _ _ _ (destroy_stack-Ensures dir auto_approve) (λ _.
                Ensures-bind (λ _. IsSafe u) _ _
                  (list-IsSafe d.surroundings d.provider d.cluster_id)
                  (λ listing.
                    Ensures-bind (λ _. IsSafe u) _ _
                      (Ensures-lift listing (λ a found log p. p) (λ log p. p))
                      clear_dangling-Ensures)))))

  -- Once the outputs are read.
  scaled-Ensures :
      (c : DocumentCodec) (raw : List ℕ) (bucket : String) (shards : Assoc String)
      → Ensures
          (Parsed u raw bucket shards)
          (λ _. Ready u)
          (IsSafe u)
          (scale_shards d c bucket (sort by_shard shards))
  scaled-Ensures c raw bucket shards =
      Ensures-weaken _ _ _ (λ _. Parsed-Ready raw bucket shards) _
        (scale_shards-Ensures c bucket (sort by_shard shards) (Parsed u raw bucket shards)
          (λ log p. p.1) (λ log key r p. (p.0, p.1, there p.2)))

  pub delete_cluster-Ensures :
      (c : DocumentCodec) (dir : String) (auto_approve : Bool)
      → Ensures (IsSafe u) (λ _. IsSafe u) (IsSafe u) (delete_cluster d u c dir auto_approve)
  unfolding delete_cluster
  delete_cluster-Ensures c dir auto_approve =
      Ensures-bind (λ raw log. IsSafe u log × Happened (read_outputs (ok raw)) log) _ _
        (Ensures-call _ _ _ (λ log p raw. (p, here refl)) (λ log p e. p))
        (λ raw.
          Ensures-bind (λ outputs. Parsed u raw outputs.0 outputs.1) _ _
            (Ensures-lift _ (λ outputs parsed log p. (parsed, p.0, p.1)) (λ log p. p.0))
            (λ outputs.
              Ensures-bind (λ _. Parsed u raw outputs.0 outputs.1) _ _
                (Ensures-report d.has_status _ _ (λ log p. p) (λ log p. (p.0, p.1, there p.2)))
                (λ _.
                  Ensures-bind (λ _. Ready u) _ _ (scaled-Ensures c raw outputs.0 outputs.1)
                    (λ _. cleanup-Ensures dir auto_approve))))
