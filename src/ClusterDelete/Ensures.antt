-- ===== src/ClusterDelete/Ensures.antt =====
-- delete.go: what a run leaves in the log, one rule for each way to build a run.
use podplane.Base.{
  Bool, true, false, ◌≡◌, refl, ◌+◌, List, ◌∷◌, String, Option, none, some, if◌then◌else◌, Result,
  ok, err, Error, Arg, ℕ,
}
use podplane.ClusterDelete.Runs.{
  Event, World, Surroundings, Run, pure, fail, stuck, lift, continue, ◌>>=◌, call, report, wrapping,
  wrap_error, reported,
}

abbrev pub Assertion : Type 1
Assertion = List Event → Type 0

abbrev pub After : {A : Type 0} → (A → Assertion) → Assertion → Option (Result A × World) → Type 0
After Q E none = Unit
After Q E (some (ok a, w)) = Q a w.log
After Q E (some (err e, w)) = E w.log

-- From a log with P, a run that succeeds ends with Q and one that fails with E.
pub record Ensures {A : Type 0} (P : Assertion) (Q : A → Assertion) (E : Assertion) (m : Run A)
    : Type 0 where
  pub at : (w : World) → P w.log → After Q E (m w)

module _ {A : Type 0} (Q : A → Assertion) (E : Assertion) where
  lift-After :
      (r : Result A) (w : World)
      → ((a : A) → r ≡ ok a → Q a w.log)
      → E w.log
      → After Q E (some (r, w))
  lift-After (ok a) w h k = h a refl
  lift-After (err e) w h k = k

  call-After :
      (event : Result A → Event) (r : Result A) (log : List Event) (now : ℕ)
      → ((a : A) → Q a (event (ok a) ∷ log))
      → ((e : Error) → E (event (err e) ∷ log))
      → After Q E (some (r, record { log = event r ∷ log; now = now }))
  call-After event (ok a) log now h k = h a
  call-After event (err e) log now h k = k e

  wrapped-After :
      (format : String) (args : List Arg) (o : Option (Result A × World))
      → After Q E o
      → After Q E (wrap_error format args o)
  wrapped-After format args none h = tt
  wrapped-After format args (some (ok a, w)) h = h
  wrapped-After format args (some (err e, w)) h = h

module _ {A : Type 0} {P : Assertion} {Q : A → Assertion} {E : Assertion} where
  pub Ensures-pure : (a : A) → ((log : List Event) → P log → Q a log) → Ensures P Q E (pure a)
  unfolding pure
  Ensures-pure a h = record { at = λ w p. h w.log p }

  pub Ensures-fail :
      (e : Error) → ((log : List Event) → P log → E log) → Ensures {A = A} P Q E (fail e)
  unfolding fail
  Ensures-fail e h = record { at = λ w p. h w.log p }

  pub Ensures-stuck : Ensures {A = A} P Q E stuck
  unfolding stuck
  Ensures-stuck = record { at = λ w p. tt }

  pub Ensures-lift :
      (r : Result A)
      → ((a : A) → r ≡ ok a → (log : List Event) → P log → Q a log)
      → ((log : List Event) → P log → E log)
      → Ensures P Q E (lift r)
  unfolding lift
  Ensures-lift r h k = record {
    at = λ w p. lift-After Q E r w (λ a found. h a found w.log p) (k w.log p);
  }

  pub Ensures-call :
      (s : Surroundings) (event : Result A → Event) (answer : World → Result A)
      → ((log : List Event) → P log → (a : A) → Q a (event (ok a) ∷ log))
      → ((log : List Event) → P log → (e : Error) → E (event (err e) ∷ log))
      → Ensures P Q E (call s event answer)
  unfolding call
  Ensures-call s event answer h k = record {
    at = λ w p. call-After Q E event (answer w) w.log (w.now + s.takes w) (h w.log p) (k w.log p);
  }

  pub Ensures-wrapping :
      (format : String) (args : List Arg) (m : Run A)
      → Ensures P Q E m
      → Ensures P Q E (wrapping format args m)
  unfolding wrapping
  Ensures-wrapping format args m h = record {
    at = λ w p. wrapped-After Q E format args (m w) (h.at w p);
  }

  pub Ensures-if :
      (b : Bool) (m n : Run A)
      → (b ≡ true → Ensures P Q E m)
      → (b ≡ false → Ensures P Q E n)
      → Ensures P Q E (if b then m else n)
  Ensures-if true m n h k = h refl
  Ensures-if false m n h k = k refl

module _ {A : Type 0} (E : Assertion) (Q R : A → Assertion)
    (h : (a : A) (log : List Event) → Q a log → R a log) where
  weaken-After : (o : Option (Result A × World)) → After Q E o → After R E o
  weaken-After none k = tt
  weaken-After (some (ok a, w)) k = h a w.log k
  weaken-After (some (err e, w)) k = k

  pub Ensures-weaken : {P : Assertion} (m : Run A) → Ensures P Q E m → Ensures P R E m
  Ensures-weaken m k = record { at = λ w p. weaken-After (m w) (k.at w p) }

module _ {P Q E : Assertion} where
  pub Ensures-report :
      (heard : Bool) (format : String) (args : List Arg)
      → ((log : List Event) → P log → Q log)
      → ((log : List Event) → P log → Q (reported format args ∷ log))
      → Ensures P (λ _. Q) E (report heard format args)
  unfolding report
  Ensures-report false format args h k = record { at = λ w p. h w.log p }
  Ensures-report true format args h k = record { at = λ w p. k w.log p }

module _ {A B : Type 0} {E : Assertion} {R : B → Assertion} where
  continue-After :
      (Q : A → Assertion) (f : A → Run B) (o : Option (Result A × World))
      → ((a : A) → Ensures (Q a) R E (f a))
      → After Q E o
      → After R E (continue f o)
  continue-After Q f none h k = tt
  continue-After Q f (some (ok a, w)) h k = (h a).at w k
  continue-After Q f (some (err e, w)) h k = k

module _ {A B : Type 0} {P : Assertion} {E : Assertion} {R : B → Assertion} where
  pub Ensures-bind :
      (Q : A → Assertion) (m : Run A) (f : A → Run B)
      → Ensures P Q E m
      → ((a : A) → Ensures (Q a) R E (f a))
      → Ensures P R E (m >>= f)
  unfolding ◌>>=◌
  Ensures-bind Q m f h k = record { at = λ w p. continue-After Q f (m w) k (h.at w p) }
