-- ===== src/ClusterDelete/Safety/Waits.antt =====
-- delete.go: what waitForManagedInstances leaves in the log.
use podplane.Base.{
  ℕ, zero, suc, ◌+◌, ◌&&◌, not, Bool, true, false, ◌≡◌, refl, String, List, [], ◌∷◌, Option, none,
  some, if◌then◌else◌, Result, ok, err, Error, All, is_empty, leb,
}
use podplane.Base.Lists.Any.{there}
use podplane.ClusterDelete.Runs.{
  Event, Instance, World, Surroundings, Run, pure, fail, context_error, updated, listed, paused,
}
use podplane.ClusterDelete.Outputs.{Outputs}
use podplane.ClusterDelete.Waiting.{
  Provider, list_instances, or_fail, check_context, pause, after_listing, poll,
  wait_for_managed_instances,
}
use podplane.ClusterDelete.Ensures.{
  Assertion, After, Ensures, Ensures-pure, Ensures-stuck, Ensures-if, Ensures-bind,
}
use podplane.ClusterDelete.Safety.{Happened, Scaled, IsSafe}

module _ {A : Type 0} (f : A → Event) (e : Event) (log : List Event) where
  Happened-All :
      (xs : List A) → All (λ a. Happened (f a) log) xs → All (λ a. Happened (f a) (e ∷ log)) xs
  Happened-All [] h = tt
  Happened-All (x ∷ xs) (h, hs) = (there h, Happened-All xs hs)

module _ {u : List ℕ → Result Outputs} where
  pub Scaled-later : (e : Event) {log : List Event} → Scaled u log → Scaled u (e ∷ log)
  Scaled-later e {log} s = record {
    raw = s.raw;
    bucket = s.bucket;
    shards = s.shards;
    read = there s.read;
    parsed = s.parsed;
    scaled =
        Happened-All (λ (k : String × String). updated s.bucket k.1 (ok tt)) e log s.shards
          s.scaled;
  }

-- The last listing, which is the last event, was empty.
pub record Emptied (u : List ℕ → Result Outputs) (log : List Event) : Type 0 where
  pub cluster : String
  pub rest : List Event
  pub ends : log ≡ listed cluster (ok []) ∷ rest
  pub scaled : Scaled u rest

abbrev pub Ready : (List ℕ → Result Outputs) → Assertion
Ready u log = IsSafe u log × Scaled u log

-- What holds when a wait returns these instances.
abbrev pub Waited : (List ℕ → Result Outputs) → List Instance → Assertion
Waited u [] log = IsSafe u log × Emptied u log
Waited u (i ∷ is) log = Ready u log

abbrev Seen : (List ℕ → Result Outputs) → Result (List Instance) → Assertion
Seen u (ok []) log = IsSafe u log × Emptied u log
Seen u (ok (i ∷ is)) log = Ready u log
Seen u (err e) log = Ready u log

module _ (u : List ℕ → Result Outputs) where
  Seen-IsSafe :
      (answer : Result (List Instance)) (log : List Event) → Seen u answer log → IsSafe u log
  Seen-IsSafe (ok []) log h = h.0
  Seen-IsSafe (ok (i ∷ is)) log h = h.0
  Seen-IsSafe (err e) log h = h.0

  listed-Seen :
      (answer : Result (List Instance)) (cluster : String) (log : List Event)
      → Ready u log
      → Seen u answer (listed cluster answer ∷ log)
  listed-Seen (ok []) cluster log (safe, scaled) =
      (safe, record { cluster = cluster; rest = log; ends = refl; scaled = scaled })
  listed-Seen (ok (i ∷ is)) cluster log (safe, scaled) =
      (safe, Scaled-later (listed cluster (ok (i ∷ is))) scaled)
  listed-Seen (err e) cluster log (safe, scaled) =
      (safe, Scaled-later (listed cluster (err e)) scaled)

module _ (P E : Assertion) where
  or_fail-After :
      (o : Option Error) (w : World)
      → P w.log
      → E w.log
      → After (λ (_ : Unit {0}). P) E (or_fail o w)
  unfolding pure fail
  or_fail-After none w p q = p
  or_fail-After (some error) w p q = q

  pub check_context-Ensures :
      (e : Surroundings)
      → ((log : List Event) → P log → E log)
      → Ensures P (λ _. P) E (check_context e)
  unfolding check_context
  check_context-Ensures e h = record {
    at = λ w p. or_fail-After (context_error e w) w p (h w.log p);
  }

module _ {u : List ℕ → Result Outputs} (e : Surroundings) (provider : Provider)
    (cluster : String) where
  pub list-IsSafe :
      Ensures (IsSafe u) (λ _. IsSafe u) (IsSafe u) (list_instances e provider cluster)
  unfolding list_instances
  list-IsSafe = record { at = λ w p. p }

  list_instances-Ensures : Ensures (Ready u) (Seen u) (IsSafe u) (list_instances e provider cluster)
  unfolding list_instances
  list_instances-Ensures = record {
    at = λ w p. listed-Seen u (provider.managed_instances cluster w) cluster w.log p;
  }

  pause-Ensures :
      (deadline interval : ℕ)
      → Ensures (Ready u) (λ _. Ready u) (IsSafe u) (pause e deadline interval)
  unfolding pause
  pause-Ensures deadline interval = record {
    at = λ w (safe, scaled). (safe, Scaled-later paused scaled);
  }

  last-After :
      (b : Bool) (remaining : List Instance) (error : Error) (w : World)
      → Ready u w.log
      → After
          (Waited u)
          (IsSafe u)
          ((if b && not (is_empty remaining) then pure remaining else fail error) w)
  unfolding pure fail
  last-After true [] error w h = h.0
  last-After true (i ∷ is) error w h = h
  last-After false remaining error w h = h.0

  after_listing-Ensures :
      (deadline interval : ℕ) (next : List Instance → Run (List Instance))
      (remaining : List Instance) (answer : Result (List Instance))
      → ((is : List Instance) → Ensures (Ready u) (Waited u) (IsSafe u) (next is))
      → Ensures
          (Seen u answer)
          (Waited u)
          (IsSafe u)
          (after_listing e deadline interval next remaining answer)
  after_listing-Ensures deadline interval next remaining (err error) h = record {
    at = λ w p. last-After (leb deadline w.now && e.is_deadline_exceeded error) remaining error w p;
  }
  after_listing-Ensures deadline interval next remaining (ok []) h = Ensures-pure [] (λ log p. p)
  after_listing-Ensures deadline interval next remaining (ok (i ∷ is)) h =
      Ensures-bind (λ _. Ready u) (pause e deadline interval) _ (pause-Ensures deadline interval)
        (λ timer.
          Ensures-if timer _ _ (λ _. h (i ∷ is))
            (λ _.
              Ensures-bind (λ _. Ready u) (check_context e) _
                (check_context-Ensures (Ready u) (IsSafe u) e (λ log p. p.0))
                (λ _. Ensures-pure (i ∷ is) (λ log p. p))))

  poll-Ensures :
      (deadline interval rounds : ℕ) (remaining : List Instance)
      → Ensures
          (Ready u)
          (Waited u)
          (IsSafe u)
          (poll e provider cluster deadline interval rounds remaining)
  unfolding poll
  poll-Ensures deadline interval zero remaining = Ensures-stuck
  poll-Ensures deadline interval (suc rounds) remaining =
      Ensures-bind (Seen u) (list_instances e provider cluster) _ list_instances-Ensures (λ answer.
        Ensures-bind (λ _. Seen u answer) (check_context e) _
          (check_context-Ensures (Seen u answer) (IsSafe u) e (Seen-IsSafe u answer))
          (λ _.
            after_listing-Ensures deadline interval _ remaining answer
              (poll-Ensures deadline interval rounds)))

  pub wait-Ensures :
      (timeout interval rounds : ℕ)
      → Ensures
          (Ready u)
          (Waited u)
          (IsSafe u)
          (wait_for_managed_instances e provider cluster timeout interval rounds)
  unfolding wait_for_managed_instances
  wait-Ensures timeout interval rounds = record {
    at = λ w p. (poll-Ensures (w.now + timeout) interval rounds []).at w p;
  }
