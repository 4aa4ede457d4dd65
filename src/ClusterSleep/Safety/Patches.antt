-- ===== src/ClusterSleep/Safety/Patches.antt =====
-- sleep.go: the patches in the log, and the steps that make none.
use podplane.Base.{
  Bool, false, ◌≡◌, refl, ◌∙◌, ◌⊎◌, inl, inr, String, List, [], ◌∷◌, ◌++◌, ◌=ˢ◌, Option, none, some,
  if◌then◌else◌, Result, ok, err, Error, Arg, str, wrapped,
}
use podplane.Base.Exec.{Exec, pure, lift, continue, ◌>>=◌, ◌>>◌}
use podplane.Base.Exec.Keeps.{
  Keeps, Keeps-bind, Keeps-lift, Keeps-modify, Keeps-pure, Keeps-if, keeps_rules,
}
use podplane.Kubectl.Keys.{Context}
use podplane.Kubectl.Contexts.{
  Outcome, Event, ran, warned, World, Process, push, run_kubectl, unless, check_context,
  check_failed, resolve_context,
}
use podplane.ClusterSleep.Request.{
  Options, Target, Formats, Confirm, run_error, run, wrapping, select_context, flags, find_target,
  warn, ask, ask_force, confirm_force, authorize, patch_args, patch, request_text, patch_cluster,
  prepare,
}

abbrev is_patch : Event → Bool
is_patch (ran context_flags (verb ∷ rest) input outcome) = verb =ˢ "patch"
is_patch other = false

-- The patches in a log.
abbrev pub patches : List Event → List Event
patches [] = []
patches (e ∷ log) = let rest = patches log in if is_patch e then e ∷ rest else rest

abbrev patches_of : World → List Event
patches_of w = patches w.log

Keeps-run_kubectl :
    (p : Process) (context_flags : List String) (verb : String) (rest : List String)
    (input : String)
    → (verb =ˢ "patch") ≡ false
    → Keeps patches_of (run_kubectl p context_flags (verb ∷ rest) input)
unfolding run_kubectl
Keeps-run_kubectl p context_flags verb rest input other = record { at = λ w. rw other refl }

Keeps-check_context : (p : Process) → Keeps patches_of (check_context p)
unfolding check_context
Keeps-check_context p = record { at = λ w. refl }

Keeps-check_failed : (p : Process) (o : Option Error) → Keeps patches_of (check_failed p o)
Keeps-check_failed p none = search keeps_rules
Keeps-check_failed p (some e) = Keeps-check_context p

Keeps-wrapping :
    {A : Type 0} (format : String) (args : List Arg) (m : Exec World A)
    → Keeps patches_of m
    → Keeps patches_of (wrapping format args m)
unfolding wrapping
Keeps-wrapping format args m h = record { at = λ w. h.at w }

Keeps-run :
    (p : Process) (context_flags : List String) (verb : String) (rest : List String)
    (input : String)
    → (verb =ˢ "patch") ≡ false
    → Keeps patches_of (run p context_flags (verb ∷ rest) input)
unfolding run
Keeps-run p context_flags verb rest input other = Keeps-bind _ _ (Keeps-check_context p) (λ _.
    Keeps-bind _ _ (Keeps-run_kubectl p context_flags verb rest input other)
      (λ outcome. Keeps-bind _ _ (Keeps-check_context p) (λ _. Keeps-lift (run_error outcome))))

module _ (p : Process) (f : Formats) (opts : Options) where
  Keeps-resolve :
      Keeps patches_of (resolve_context p f.unmarshal_config opts.context opts.kubeconfig)
  unfolding resolve_context
  Keeps-resolve =
      search
        (
          keeps_rules,
          Keeps-check_context,
          Keeps-check_failed,
          Keeps-run_kubectl p _ "config" _ "" refl,
        )
        depth 20

  Keeps-warn : (message : String) → Keeps patches_of (warn p f opts message)
  unfolding warn
  Keeps-warn message =
      Keeps-if opts.has_warn _ _ (Keeps-modify (push (warned message)) (λ w. refl)) (Keeps-pure tt)

  Keeps-ask :
      (confirm : Confirm) (question : String) → Keeps patches_of (ask p f opts confirm question)
  unfolding ask
  Keeps-ask confirm question = record { at = λ w. refl }

  Keeps-ask_force :
      (confirm : Option Confirm) (t : Target) → Keeps patches_of (ask_force p f opts confirm t)
  Keeps-ask_force none t = search keeps_rules
  Keeps-ask_force (some confirm) t = search (keeps_rules, Keeps-wrapping, Keeps-ask) depth 12

  Keeps-confirm_force : (t : Target) → Keeps patches_of (confirm_force p f opts t)
  unfolding confirm_force
  Keeps-confirm_force t = search (keeps_rules, Keeps-warn, Keeps-ask_force) depth 12

  Keeps-authorize :
      (selected : Context) (t : Target) → Keeps patches_of (authorize p f opts selected t)
  unfolding authorize
  Keeps-authorize selected t =
      search (keeps_rules, Keeps-wrapping, Keeps-run p _ "create" _ _ refl) depth 12

  Keeps-find_target : (selected : Context) → Keeps patches_of (find_target p f opts selected)
  unfolding find_target
  Keeps-find_target selected =
      search (keeps_rules, Keeps-wrapping, Keeps-run p _ "get" _ _ refl) depth 12

  Keeps-select_context : Keeps patches_of (select_context p f opts)
  unfolding select_context
  Keeps-select_context = search (keeps_rules, Keeps-wrapping, Keeps-resolve) depth 12

  pub prepare-Keeps : Keeps patches_of (prepare p f opts)
  unfolding prepare
  prepare-Keeps =
      search
        (keeps_rules, Keeps-select_context, Keeps-find_target, Keeps-confirm_force, Keeps-authorize)
        depth 16

-- Whether or not a run succeeds, it makes at most one call.
module _ {A : Type 0} (k : Exec World A) (w : World) where
  unless-state :
      (o : Option Error)
      → ((continue (unless o) (λ _. k) w).1 ≡ w) ⊎ ((continue (unless o) (λ _. k) w).1 ≡ (k w).1)
  unless-state none = inr refl
  unless-state (some e) = inl refl

module _ {A : Type 0} where
  discard-state : (r : Result A) (w : World) → (continue r (λ (_ : A). pure tt) w).1 ≡ w
  unfolding pure
  discard-state (ok a) w = refl
  discard-state (err e) w = refl

module _ (p : Process) (context_flags arguments : List String) (input : String) where
  abbrev outcome_of : World → Outcome
  outcome_of w = p.kubectl (context_flags ++ arguments) input w

  rest-Keeps : (outcome : Outcome) → Keeps (λ w. w) (check_context p >> lift (run_error outcome))
  unfolding check_context
  rest-Keeps outcome =
      Keeps-bind _ _ record { at = λ w. refl } (λ _. Keeps-lift (run_error outcome))

  run-state :
      (w : World)
      → ((run p context_flags arguments input w).1 ≡ w)
        ⊎ ((run p context_flags arguments input w).1
            ≡ push (ran context_flags arguments input (outcome_of w)) w)
  unfolding run ◌>>=◌ check_context run_kubectl
  run-state w =
      elim (unless-state
        (run_kubectl p context_flags arguments input >>= λ outcome.
          check_context p >> lift (run_error outcome))
        w (p.context_error w)) [
          | inl same ↦ inl same
          | inr called ↦ inr (
              called
              ∙ (rest-Keeps (outcome_of w)).at
                  (push (ran context_flags arguments input (outcome_of w)) w))
        ]

module _ (p : Process) (f : Formats) (opts : Options) where
  pub patch_cluster-state :
      (selected : Context) (t : Target) (w : World)
      → ((patch_cluster p f opts selected t w).1 ≡ w)
        ⊎ ((text : String) × (outcome : Outcome) × ((patch_cluster p f opts selected t w).1
              ≡ push (ran (flags p f opts selected) (patch_args p f opts t text) "" outcome) w))
  unfolding patch_cluster ◌>>=◌ wrapping
  patch_cluster-state selected t w =
      let text : String = f.marshal (patch p f opts (request_text p f opts w)) in
      let arguments : List String = patch_args p f opts t text in
      let discarded =
        discard-state
          (wrapped "request sleep of CAPI Cluster %s/%s: %w" (str t.namespace ∷ str t.name ∷ [])
            (run p (flags p f opts selected) arguments "" w).0)
          (run p (flags p f opts selected) arguments "" w).1 in
      elim (run-state p (flags p f opts selected) arguments "" w) [
        | inl same ↦ inl (discarded ∙ same)
        | inr called ↦
            inr (text, outcome_of p (flags p f opts selected) arguments "" w, discarded ∙ called)
      ]
