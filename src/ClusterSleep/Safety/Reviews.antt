-- ===== src/ClusterSleep/Safety/Reviews.antt =====
-- sleep.go: the access review, and runs of kubectl that succeed.
use podplane.Base.{
  Bool, true, false, ◌≡◌, eq_iff, refl, sym, ap, ◌∙◌, subst, String, List, [], ◌++◌, Option, none,
  some, if◌then◌else◌, Result, ok, err, Error, Arg, wrapped, wrapped-ok, ok-injective, arith,
}
use podplane.Base.Exec.{Exec, lift, fail_if}
use podplane.Base.Exec.Keeps.{bind-ok, lift-ok, read-ok}
use podplane.Kubectl.Keys.{Context}
use podplane.Kubectl.Contexts.{Outcome, ran, World, Process, push, run_kubectl, check_context}
use podplane.ClusterSleep.Request.{
  Options, Target, Access, Formats, run_error, run, wrapping, flags, review, review_args, refuses,
  authorize,
}

run_error-ok :
    (printed stderr : String) (error : Option Error) {out : String}
    → run_error (record { out = printed; stderr = stderr; error = error }) ≡ ok out
    → printed ≡ out
run_error-ok printed stderr none h = ok-injective h
run_error-ok printed stderr (some e) h = absurd (ground arith)

-- What a run of kubectl that succeeds has done.
run-ran :
    (p : Process) (context_flags arguments : List String) (input : String) (w : World)
    {out : String}
    → (run p context_flags arguments input w).0 ≡ ok out
    → (outcome : Outcome) × ((run p context_flags arguments input w).1
        ≡ push (ran context_flags arguments input outcome) w)
      × (outcome.out ≡ out)
unfolding run run_kubectl check_context lift
run-ran p context_flags arguments input w {out} h =
    let (_, _, h₁, e₁) = read-ok (check_context p) _ w refl h in
    let (o, ran_it, h₂, e₂) = bind-ok (run_kubectl p context_flags arguments input) _ w h₁ in
    let (_, _, h₃, e₃) =
      read-ok (check_context p) _ (run_kubectl p context_flags arguments input w).1 refl h₂ in
    let outcome : Outcome = p.kubectl (context_flags ++ arguments) input w in
    (
      outcome,
      ap (λ (r : Result String × World). r.1) (e₁ ∙ e₂ ∙ e₃),
      run_error-ok outcome.out outcome.stderr outcome.error
          (subst (λ (x : Outcome). run_error x ≡ ok out) (sym (ok-injective ran_it)) h₃),
    )

pub wrapping-ok :
    {A : Type 0} (format : String) (args : List Arg) (m : Exec World A) (w : World) {a : A}
    → (wrapping format args m w).0 ≡ ok a
    → ((m w).0 ≡ ok a) × ((wrapping format args m w).1 ≡ (m w).1)
unfolding wrapping
wrapping-ok format args m w h = (wrapped-ok format args (m w).0 h, refl)

pub unrefused :
    (bad : Bool) (e : Error)
    → Path (Result (Unit {0})) (if bad then err e else ok tt) (ok tt)
    → bad ≡ false
unrefused true e h = absurd (ground arith)
unrefused false e h = refl

module _ (p : Process) (f : Formats) (opts : Options) where
  -- The access review is the last call, and it allows the patch.
  pub record Reviewed (selected : Context) (t : Target) (before after : World) : Type 0 where
    pub outcome : Outcome
    pub access : Access
    pub ends :
        after
        ≡ push
            (ran
              (flags p f opts selected)
              (review_args p f opts)
              (f.marshal (review p f opts t))
              outcome)
            before
    pub parsed : f.unmarshal_access outcome.out ≡ ok access
    pub allowed : access.allowed ≡ true
    pub not_denied : access.denied ≡ false
    pub no_error : access.evaluation_error ≡ ""

  accepts-fields :
      (access : Access)
      → refuses p f opts access ≡ false
      → (access.allowed ≡ true) × (access.denied ≡ false) × (access.evaluation_error ≡ "")
  accepts-fields access h = ground (arith, eq_iff access.evaluation_error "")

  pub authorize-Reviewed :
      (selected : Context) (t : Target) (w : World)
      → (authorize p f opts selected t w).0 ≡ ok tt
      → Reviewed selected t w (authorize p f opts selected t w).1
  unfolding authorize fail_if
  authorize-Reviewed selected t w h =
      let (raw, ran_it, h₁, e₁) =
        bind-ok
          (wrapping _ _ (
            run p (flags p f opts selected) (review_args p f opts) (f.marshal (review p f opts t))))
          _ w h in
      let (done, state) = wrapping-ok _ _ _ w ran_it in
      let (outcome, after, out) =
        run-ran p (flags p f opts selected) (review_args p f opts) (f.marshal (review p f opts t)) w
          done in
      let (access, parsed, h₂, e₂) =
        lift-ok (wrapped "parse patch access review: %w" [] (f.unmarshal_access raw)) _ _ h₁ in
      let accepted = accepts-fields access (unrefused (refuses p f opts access) _ h₂) in
      record {
        outcome = outcome;
        access = access;
        ends = ap (λ (r : Result (Unit {0}) × World). r.1) (e₁ ∙ e₂) ∙ state ∙ after;
        parsed = rw out (wrapped-ok _ _ (f.unmarshal_access raw) parsed);
        allowed = accepted.0;
        not_denied = accepted.1;
        no_error = accepted.2;
      }
