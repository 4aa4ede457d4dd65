-- ===== src/ClusterDelete/Runs.antt =====
-- delete.go: the calls that deletion makes, and what happens outside it while they run.
use podplane.Base.{
  ℕ, ◌+◌, leb, Bool, String, List, ◌∷◌, Option, none, some, if◌then◌else◌, Result, ok, err, Error,
  Checked, Arg, wrapped,
}

pub record Instance : Type 0 where
  pub id : String
  pub name : String
  pub zone : String
  pub shard : String
  pub group : String
  pub state : String

-- What was called, with its answer.
pub data Event : Type 0 where
  read_outputs : Result (List ℕ) → Event
  updated : String → String → Checked → Event
  listed : String → Result (List Instance) → Event
  terminated : List Instance → Checked → Event
  asked : String → Result Bool → Event
  destroyed : Bool → Checked → Event
  reported : String → List Arg → Event
  paused : Event

-- The calls so far, the last one first, and the time in nanoseconds.
pub record World : Type 0 where
  pub log : List Event
  pub now : ℕ

-- What the context of Delete, the clock and the runtime do: when the context ends and with which
-- error, how long a call takes, which of two channels that are ready `select` takes, and whether
-- errors.Is finds DeadlineExceeded in an error.
pub record Surroundings : Type 0 where
  pub ends : Option ℕ
  pub end_error : Error
  pub takes : World → ℕ
  pub prefers_timer : World → Bool
  pub is_deadline_exceeded : Error → Bool

-- `none` when a loop has no rounds left.
abbrev pub Run : Type 0 → Type 0
Run A = World → Option (Result A × World)

unfoldable pub pure : {A : Type 0} → A → Run A
pure a w = some (ok a, w)

unfoldable pub fail : {A : Type 0} → Error → Run A
fail e w = some (err e, w)

unfoldable pub stuck : {A : Type 0} → Run A
stuck w = none

unfoldable pub lift : {A : Type 0} → Result A → Run A
lift r w = some (r, w)

unfoldable pub gets : {A : Type 0} → (World → A) → Run A
gets f w = some (ok (f w), w)

abbrev pub continue :
    {A B : Type 0} → (A → Run B) → Option (Result A × World) → Option (Result B × World)
continue f none = none
continue f (some (ok a, w)) = f a w
continue f (some (err e, w)) = some (err e, w)

infixl 5 ◌>>=◌ ◌>>◌
unfoldable pub ◌>>=◌ : {A B : Type 0} → Run A → (A → Run B) → Run B
unfolding pure fail stuck lift gets
(m >>= f) w = continue f (m w)

abbrev pub ◌>>◌ : {A B : Type 0} → Run A → Run B → Run B
m >> n = m >>= λ _. n

abbrev pub wrap_error :
    {A : Type 0} → String → List Arg → Option (Result A × World) → Option (Result A × World)
wrap_error format args none = none
wrap_error format args (some (r, w)) = some (wrapped format args r, w)

-- `m`, with its error wrapped.
unfoldable pub wrapping : {A : Type 0} → String → List Arg → Run A → Run A
wrapping format args m w = wrap_error format args (m w)

-- A call that is answered, and recorded with its answer.
unfoldable pub call : {A : Type 0} → Surroundings → (Result A → Event) → (World → Result A) → Run A
call e event answer w =
    some (answer w, record { log = event (answer w) ∷ w.log; now = w.now + e.takes w })

-- A status message, which nothing answers.
unfoldable pub report : Bool → String → List Arg → Run (Unit {0})
report heard format args w =
    some (ok tt, if heard then record w { log = reported format args ∷ w.log } else w)

-- `ctx.Err()`
abbrev ended : Option ℕ → Error → ℕ → Option Error
ended none e now = none
ended (some end) e now = if leb end now then some e else none

abbrev pub context_error : Surroundings → World → Option Error
context_error e w = ended e.ends e.end_error w.now
