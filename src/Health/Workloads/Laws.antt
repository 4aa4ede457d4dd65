-- ===== src/Health/Workloads/Laws.antt =====
-- workload.go: what a ready workload has, and what a deployment was scaled by.
use podplane.Base.{
  Bool, true, false, ◌&&◌, and_split, zero, suc, ◌≡◌, ◌≢◌, refl, ap, sym, ◌∙◌, subst, arith, ℤ, pos,
  negsuc, ◌<ℤ◌, ◌=ℤ◌, String, List, [], ◌∷◌, ◌++◌, Option, none, some, if◌then◌else◌, Result, ok,
  err, Error, wrapped, inl, inr, ◌⊎◌,
}
use podplane.Base.Exec.{Exec, pure, lift, ◌>>=◌, ◌>>◌}
use podplane.Base.Exec.Keeps.{bind-ok, lift-ok}
use podplane.Kubectl.Keys.{args}
use podplane.Kubectl.Contexts.{
  Outcome, Event, ran, World, Process, push, run_kubectl, check_context,
}
use podplane.Health.HelmReleases.{outcome_error}
use podplane.Health.Workloads.{
  WorkloadStatus, at_least, is_deployment, is_daemon_set, is_stateful_set, desired_replicas,
  deployment_ready, daemon_set_ready, stateful_set_ready, workload_ready, get_deployment,
  scale_deployment, has_replicas, scale, ensure_deployment_replicas,
}

desired-positive :
    (n : ℤ) → (n <ℤ pos 0) ≡ false → (pos 0 <ℤ (if n =ℤ pos 0 then pos 1 else n)) ≡ true
desired-positive (pos zero) h = refl
desired-positive (pos (suc n)) h = ground arith
desired-positive (negsuc n) h = absurd (ground arith)

above : (a b : ℤ) → at_least a b ≡ true → (pos 0 <ℤ b) ≡ true → (pos 0 <ℤ a) ≡ true
above (pos a) (pos b) h g = ground arith
above (pos a) (negsuc b) h g = ground arith
above (negsuc a) (pos b) h g = ground arith
above (negsuc a) (negsuc b) h g = ground arith

deployment_ready-positive :
    (s : WorkloadStatus)
    → (s.replicas <ℤ pos 0) ≡ false
    → (deployment_ready s).0 ≡ true
    → (pos 0 <ℤ s.ready_replicas) ≡ true
deployment_ready-positive s h ready =
    let desired = desired_replicas s in
    let updated = at_least s.updated_replicas desired in
    let most =
      and_split (at_least s.ready_replicas desired && updated)
        (at_least s.available_replicas desired) ready in
    let enough = and_split (at_least s.ready_replicas desired) updated most.0 in
    above s.ready_replicas desired enough.0 (desired-positive s.replicas h)

stateful_set_ready-positive :
    (s : WorkloadStatus)
    → (s.replicas <ℤ pos 0) ≡ false
    → (stateful_set_ready s).0 ≡ true
    → (pos 0 <ℤ s.ready_replicas) ≡ true
stateful_set_ready-positive s h ready =
    let desired = desired_replicas s in
    let enough =
      and_split (at_least s.ready_replicas desired) (at_least s.updated_replicas desired) ready in
    above s.ready_replicas desired enough.0 (desired-positive s.replicas h)

daemon_set_ready-positive :
    (s : WorkloadStatus) → (daemon_set_ready s).0 ≡ true → (pos 0 <ℤ s.number_ready) ≡ true
daemon_set_ready-positive s ready =
    let desired = s.desired_number_scheduled in
    let wanted = pos 0 <ℤ desired in
    let counted = wanted && at_least s.number_ready desired in
    let updated = at_least s.updated_number_scheduled desired in
    let most = and_split (counted && updated) (at_least s.number_available desired) ready in
    let enough =
      and_split wanted (at_least s.number_ready desired) (and_split counted updated most.0).0 in
    above s.number_ready desired enough.1 enough.0

positive_of :
    (deployment daemon stateful : Bool) (s : WorkloadStatus)
    → (s.replicas <ℤ pos 0) ≡ false
    → (if deployment
        then deployment_ready s
        else if daemon
        then daemon_set_ready s
        else if stateful
        then stateful_set_ready s
        else (false, "unsupported workload kind")).0
      ≡ true
    → ((pos 0 <ℤ s.ready_replicas) ≡ true) ⊎ ((daemon ≡ true) × ((pos 0 <ℤ s.number_ready) ≡ true))
positive_of true daemon stateful s h ready = inl (deployment_ready-positive s h ready)
positive_of false true stateful s h ready = inr (refl, daemon_set_ready-positive s ready)
positive_of false false true s h ready = inl (stateful_set_ready-positive s h ready)
positive_of false false false s h ready = absurd (ground arith)

-- If workloadReady says ready for a status whose replicas are not negative, more than zero
-- replicas are ready, or the workload is a daemon set and more than zero of its pods are
-- ready.
pub workload_ready-positive :
    (resource : String) (s : WorkloadStatus)
    → (s.replicas <ℤ pos 0) ≡ false
    → (workload_ready resource s).0 ≡ true
    → ((pos 0 <ℤ s.ready_replicas) ≡ true)
      ⊎ ((is_daemon_set resource ≡ true) × ((pos 0 <ℤ s.number_ready) ≡ true))
unfolding workload_ready
workload_ready-positive resource s h ready =
    positive_of (is_deployment resource) (is_daemon_set resource) (is_stateful_set resource) s h
      ready

got :
    (outcome : Outcome) (stage : String) (error : Option Error) {u : Unit {0}}
    → outcome_error stage outcome error ≡ ok u
    → error ≡ none
got outcome stage none h = refl
got outcome stage (some e) h = absurd (ground arith)

unwrapped : {A : Type 0} (f : String) (r : Result A) {a : A} → wrapped f [] r ≡ ok a → r ≡ ok a
unwrapped f (ok a) h = h
unwrapped f (err e) h = absurd (ground arith)

int_of_eq : (a b : ℤ) → (a =ℤ b) ≡ true → a ≡ b
int_of_eq (pos m) (pos n) h = ap pos (ground arith)
int_of_eq (pos m) (negsuc n) h = absurd (ground arith)
int_of_eq (negsuc m) (pos n) h = absurd (ground arith)
int_of_eq (negsuc m) (negsuc n) h = ap negsuc (ground arith)

eq_int_self : (a : ℤ) → (a =ℤ a) ≡ true
eq_int_self (pos n) = ground arith
eq_int_self (negsuc n) = ground arith

some_of_has :
    (replicas : ℤ) (found : Option ℤ) → has_replicas replicas found ≡ true → found ≡ some replicas
some_of_has replicas none h = absurd (ground arith)
some_of_has replicas (some n) h = ap some (int_of_eq n replicas h)

other_of_has :
    (replicas : ℤ) (found : Option ℤ) → has_replicas replicas found ≡ false → found ≢ some replicas
other_of_has replicas found h = λ same.
    let has : has_replicas replicas found ≡ true = rw same (eq_int_self replicas) in
    absurd (ground arith)

module _ (p : Process) (unmarshal : String → Result (Option ℤ))
    (kube_context kubeconfig namespace name : String) (replicas : ℤ) where
  abbrev pub get_event : Outcome → Event
  get_event outcome = ran (args kube_context kubeconfig) (get_deployment namespace name) "" outcome

  abbrev pub scale_event : Outcome → Event
  scale_event outcome =
      ran (args kube_context kubeconfig) (scale_deployment namespace name replicas) "" outcome

  abbrev run_scale : Exec World (Unit {0})
  run_scale = scale p (args kube_context kubeconfig) namespace name replicas

  -- A deployment whose spec has just these replicas is left alone; another is scaled, without an
  -- error.
  abbrev pub Scaled : Option ℤ → List Event → List Event → Type 0
  Scaled found before after =
      ((found ≡ some replicas) × (after ≡ before))
      ⊎ ((found ≢ some replicas)
          × (scaled : Outcome) × (scaled.error ≡ none)
          × (after ≡ scale_event scaled ∷ before))

  abbrev pub Ensured : List Event → List Event → Type 0
  Ensured before after =
      (seen : Outcome) × (found : Option ℤ) × (seen.error ≡ none)
      × (unmarshal seen.out ≡ ok found)
      × Scaled found (get_event seen ∷ before) after

  chosen :
      (found : Option ℤ) (same : Bool) (w : World)
      → has_replicas replicas found ≡ same
      → ((if same then pure tt else run_scale) w).0 ≡ ok tt
      → Scaled found w.log ((if same then pure tt else run_scale) w).1.log
  unfolding pure scale run_kubectl lift ◌>>=◌
  chosen found true w same h = inl (some_of_has replicas found same, refl)
  chosen found false w other h =
      let outcome =
        p.kubectl (args kube_context kubeconfig ++ scale_deployment namespace name replicas) "" w in
      inr (
        other_of_has replicas found other,
        outcome,
        got outcome "scale deployment" outcome.error h,
        refl,
      )

  module _ (w : World) where
    abbrev outcome_at : Outcome
    outcome_at = p.kubectl (args kube_context kubeconfig ++ get_deployment namespace name) "" w

    abbrev after_get : World
    after_get = push (get_event outcome_at) w

    abbrev scale_found : Option ℤ → Exec World (Unit {0})
    scale_found found = if has_replicas replicas found then pure tt else run_scale

    abbrev decode_found : Exec World (Unit {0})
    decode_found =
        lift (wrapped "decode deployment spec: %w" [] (unmarshal outcome_at.out)) >>= scale_found

    abbrev after_check : Exec World (Unit {0})
    after_check = lift (outcome_error "get deployment" outcome_at outcome_at.error) >> decode_found

    checked : (after_check after_get).0 ≡ ok tt → Ensured w.log (after_check after_get).1.log
    checked h =
        let (_, listed, h₁, e₁) =
          lift-ok (outcome_error "get deployment" outcome_at outcome_at.error) (λ _. decode_found)
            after_get h in
        let (found, decoded, h₂, e₂) =
          lift-ok (wrapped "decode deployment spec: %w" [] (unmarshal outcome_at.out)) scale_found
            after_get h₁ in
        (
          outcome_at,
          found,
          got outcome_at "get deployment" outcome_at.error listed,
          unwrapped "decode deployment spec: %w" (unmarshal outcome_at.out) decoded,
          subst (λ r. Scaled found after_get.log r.1.log) (sym (e₁ ∙ e₂))
              (chosen found (has_replicas replicas found) after_get refl h₂),
        )

    -- If ensureDeploymentReplicas succeeds, it read the deployment without an error and
    -- decoded its replicas, and then, if the spec has just the wanted replicas, kubectl was
    -- not called again, and otherwise exactly one more call scaled this deployment to the
    -- wanted replicas, without an error.
    pub ensure_deployment_replicas-ok :
        (ensure_deployment_replicas p unmarshal kube_context kubeconfig namespace name replicas w).0
          ≡ ok tt
        → Ensured w.log
            (ensure_deployment_replicas p unmarshal kube_context kubeconfig namespace name replicas
              w).1.log
    unfolding ensure_deployment_replicas check_context run_kubectl ◌>>=◌
    ensure_deployment_replicas-ok h =
        let (_, _, h₁, e₁) =
          bind-ok (check_context p)
            (λ _.
              run_kubectl p (args kube_context kubeconfig) (get_deployment namespace name) ""
              >>= λ outcome.
                  lift (outcome_error "get deployment" outcome outcome.error)
                  >> (lift (wrapped "decode deployment spec: %w" [] (unmarshal outcome.out))
                      >>= scale_found))
            w h in
        subst (λ r. Ensured w.log r.1.log) (sym e₁) (checked h₁)
