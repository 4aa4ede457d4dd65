-- ===== src/ClusterDelete/Waiting.antt =====
-- delete.go: Provider, and waitForManagedInstances.
use podplane.Base.{
  ℕ, zero, suc, ◌+◌, ltb, leb, ◌==◌, Bool, ◌&&◌, ◌||◌, not, String, List, [], ◌∷◌, Option, none,
  some, if◌then◌else◌, Result, ok, err, Error, Checked, is_empty,
}
use podplane.ClusterDelete.Runs.{
  Instance, World, Surroundings, Run, pure, fail, stuck, ◌>>=◌, ◌>>◌, context_error, listed, paused,
}

-- The cloud operations; `update_object` is given what makes the new contents.
pub record Provider : Type 0 where
  pub update_object : String → String → (List ℕ → Result (List ℕ × Bool)) → World → Checked
  pub managed_instances : String → World → Result (List Instance)
  pub terminate : List Instance → World → Checked

-- A listing, whose error is looked at by the code behind it.
unfoldable pub list_instances : Surroundings → Provider → String → Run (Result (List Instance))
list_instances e provider cluster w =
    let answer = provider.managed_instances cluster w in
    some (ok answer, record { log = listed cluster answer ∷ w.log; now = w.now + e.takes w })

abbrev pub or_fail : Option Error → Run (Unit {0})
or_fail none = pure tt
or_fail (some e) = fail e

-- `if ctx.Err() != nil { return nil, ctx.Err() }`
unfoldable pub check_context : Surroundings → Run (Unit {0})
check_context e w = or_fail (context_error e w) w

-- When waitCtx is done: it ends with its deadline or with ctx.
abbrev pub sooner : ℕ → Option ℕ → ℕ
sooner deadline none = deadline
sooner deadline (some end) = if leb end deadline then end else deadline

abbrev pub done_at : Surroundings → ℕ → World → ℕ
done_at e deadline w = let end = sooner deadline e.ends in if leb end w.now then w.now else end

abbrev pub takes_timer : Surroundings → ℕ → ℕ → World → Bool
takes_timer e deadline interval w =
    ltb (w.now + interval) (done_at e deadline w)
    || (w.now + interval == done_at e deadline w && e.prefers_timer w)

-- The `select` between waitCtx.Done() and time.After(interval): whether it takes the timer.
unfoldable pub pause : Surroundings → ℕ → ℕ → Run Bool
pause e deadline interval w =
    let timer = takes_timer e deadline interval w in
    some (
      ok timer,
      record {
        log = paused ∷ w.log;
        now = if timer then w.now + interval else done_at e deadline w;
      },
    )

-- The branch of a listing that failed.
abbrev pub last_known : Surroundings → ℕ → List Instance → Error → Run (List Instance)
last_known e deadline remaining error w =
    (if (leb deadline w.now && e.is_deadline_exceeded error) && not (is_empty remaining)
        then pure remaining
        else fail error)
      w

-- What a round does with the listing; `next` is the rounds that follow.
abbrev pub after_listing :
    Surroundings
    → ℕ
    → ℕ
    → (List Instance → Run (List Instance))
    → List Instance
    → Result (List Instance)
    → Run (List Instance)
after_listing e deadline interval next remaining (err error) = last_known e deadline remaining error
after_listing e deadline interval next remaining (ok []) = pure []
after_listing e deadline interval next remaining (ok (i ∷ is)) = do
  timer ← pause e deadline interval
  if timer then next (i ∷ is) else check_context e >> pure (i ∷ is)

-- The loop, for at most so many rounds.
unfoldable pub poll :
    Surroundings → Provider → String → ℕ → ℕ → ℕ → List Instance → Run (List Instance)
poll e provider cluster deadline interval zero remaining = stuck
poll e provider cluster deadline interval (suc rounds) remaining = do
  answer ← list_instances e provider cluster
  check_context e
  after_listing e deadline interval (poll e provider cluster deadline interval rounds) remaining
      answer

-- waitForManagedInstances
unfoldable pub wait_for_managed_instances :
    Surroundings → Provider → String → ℕ → ℕ → ℕ → Run (List Instance)
wait_for_managed_instances e provider cluster timeout interval rounds w =
    poll e provider cluster (w.now + timeout) interval rounds [] w
