-- ===== src/ClusterDelete/Rounds.antt =====
-- delete.go: how many rounds the loop of waitForManagedInstances takes.
use podplane.Base.{
  ℕ, zero, suc, ◌+◌, ◌*◌, ◌≤◌, ◌<◌, arith, ltb, leb, ◌==◌, ◌&&◌, ◌||◌, not, Bool, true, false, ◌≡◌,
  refl, inl, inr, String, List, [], ◌∷◌, Option, none, some, if◌then◌else◌, Result, ok, err, Error,
  Bool-cases, is_some, is_empty,
}
use podplane.ClusterDelete.Runs.{
  Instance, World, Surroundings, Run, pure, fail, continue, ◌>>=◌, ◌>>◌, context_error, listed,
}
use podplane.ClusterDelete.Waiting.{
  Provider, list_instances, or_fail, check_context, sooner, takes_timer, pause, after_listing, poll,
  wait_for_managed_instances,
}

abbrev pub Returned : {A : Type 0} → Option (Result A × World) → Type 0
Returned o = is_some o ≡ true

module _ {A : Type 0} where
  or_fail-Returned :
      (f : Unit {0} → Run A) (o : Option Error) (w : World)
      → Returned (f tt w)
      → Returned (continue f (or_fail o w))
  unfolding pure fail
  or_fail-Returned f none w h = h
  or_fail-Returned f (some e) w h = refl

-- The timer fires at the latest with the deadline.
takes_timer-deadline :
    (e : Surroundings) (deadline interval : ℕ) (w : World)
    → 0 < interval
    → takes_timer e deadline interval w ≡ true
    → w.now + interval ≤ deadline
takes_timer-deadline e deadline interval w positive taken = go e.ends taken
  where
    go :
        (ends : Option ℕ)
        → (let end = sooner deadline ends in
            let done = (if leb end w.now then w.now else end) in
            ltb (w.now + interval) done || (w.now + interval == done && e.prefers_timer w))
          ≡ true
        → w.now + interval ≤ deadline
    go none h = ground arith
    go (some end) h = ground arith

last-Returned :
    (b : Bool) (remaining : List Instance) (error : Error) (w : World)
    → Returned ((if b then pure remaining else fail error) w)
unfolding pure fail
last-Returned true remaining error w = refl
last-Returned false remaining error w = refl

stops :
    (e : Surroundings) (is : List Instance) (w : World) → Returned ((check_context e >> pure is) w)
unfolding ◌>>=◌ check_context pure
stops e is w = or_fail-Returned (λ _. pure is) (context_error e w) w refl

time_left :
    (deadline interval rounds now takes later : ℕ)
    → deadline < now + suc rounds * interval
    → later ≡ now + takes + interval
    → deadline < later + rounds * interval
time_left deadline interval rounds now takes later enough after = omega arith

rounds_left :
    (deadline interval rounds now : ℕ)
    → deadline < now + rounds * interval
    → now ≤ deadline
    → 0 < rounds
rounds_left deadline interval zero now enough early = omega arith
rounds_left deadline interval (suc rounds) now enough early = omega arith

module _ (e : Surroundings) (deadline interval : ℕ) (positive : 0 < interval) where
  pause-Returned :
      (next : Run (List Instance)) (last : Run (List Instance)) (w : World)
      → ((w' : World)
          → w'.now ≡ w.now + interval
          → w.now + interval ≤ deadline
          → Returned (next w'))
      → ((w' : World) → Returned (last w'))
      → Returned ((pause e deadline interval >>= λ timer. if timer then next else last) w)
  unfolding ◌>>=◌ pause
  pause-Returned next last w h k = elim (Bool-cases (takes_timer e deadline interval w)) [
    | inl taken ↦ rw taken (h _ refl (takes_timer-deadline e deadline interval w positive taken))
    | inr left ↦ rw left (k _)
  ]

  after_listing-Returned :
      (next : List Instance → Run (List Instance)) (remaining : List Instance)
      (answer : Result (List Instance)) (w : World)
      → ((is : List Instance) (w' : World)
          → w'.now ≡ w.now + interval
          → w.now + interval ≤ deadline
          → Returned (next is w'))
      → Returned (after_listing e deadline interval next remaining answer w)
  unfolding pure
  after_listing-Returned next remaining (err error) w h =
      last-Returned
        ((leb deadline w.now && e.is_deadline_exceeded error) && not (is_empty remaining)) remaining
        error w
  after_listing-Returned next remaining (ok []) w h = refl
  after_listing-Returned next remaining (ok (i ∷ is)) w h =
      pause-Returned (next (i ∷ is)) _ w (h (i ∷ is)) (stops e (i ∷ is))

  -- The time left shrinks by at least the interval with each round.
  poll-Returned :
      (provider : Provider) (cluster : String) (rounds : ℕ) (remaining : List Instance) (w : World)
      → deadline < w.now + rounds * interval
      → 0 < rounds
      → Returned (poll e provider cluster deadline interval rounds remaining w)
  unfolding poll ◌>>=◌ list_instances check_context
  poll-Returned provider cluster zero remaining w enough some_left = absurd (omega arith)
  poll-Returned provider cluster (suc rounds) remaining w enough some_left =
      let seen : World = record {
        log = listed cluster (provider.managed_instances cluster w) ∷ w.log;
        now = w.now + e.takes w;
      } in
      or_fail-Returned _ (context_error e seen) seen (
        after_listing-Returned _ remaining (provider.managed_instances cluster w) seen
          (λ is w' later before.
            let left : deadline < w'.now + rounds * interval =
              time_left deadline interval rounds w.now (e.takes w) w'.now enough later in
            poll-Returned provider cluster rounds is w' left
              (rounds_left deadline interval rounds w'.now left (rw later before))))

positive_of_product : (a r k : ℕ) → a < r * k → (0 < r) × (0 < k)
positive_of_product a zero k h = absurd (omega arith)
positive_of_product a (suc r) zero h = absurd (omega arith)
positive_of_product a (suc r) (suc k) h = (omega arith, omega arith)

pub wait-Returned :
    (e : Surroundings) (provider : Provider) (cluster : String) (timeout interval rounds : ℕ)
    (w : World)
    → timeout < rounds * interval
    → Returned (wait_for_managed_instances e provider cluster timeout interval rounds w)
unfolding wait_for_managed_instances
wait-Returned e provider cluster timeout interval rounds w enough =
    let (some_rounds, positive) = positive_of_product timeout rounds interval enough in
    poll-Returned e (w.now + timeout) interval positive provider cluster rounds [] w (omega arith)
      some_rounds
