-- ===== src/ClusterSleep/Safety/Steps.antt =====
-- sleep.go: what the steps in front of the patch have checked.
use podplane.Base.{
  Bool, true, false, not, not-false, ◌≡◌, ◌≢◌, eq_iff, refl, sym, ap, ◌∙◌, subst, ◌⊎◌, inl, inr,
  String, List, [], ◌∷◌, ◌<>◌, Option, none, some, if◌then◌else◌, Result, ok, wrapped, ok-injective,
  Bool-cases, arith, All,
}
use podplane.Base.Strings.{has_prefix}
use podplane.Base.Exec.{Exec, pure, lift, fail_if, ◌>>◌}
use podplane.Base.Exec.Keeps.{bind-ok, lift-ok, fail_if-ok}
use podplane.Kubectl.Keys.{Context, cluster_key, cluster_id}
use podplane.Kubectl.Contexts.{Event, asked, World, Process, push, resolve_context}
use podplane.ClusterSleep.Request.{
  Options, Target, Formats, Confirm, run, wrapping, is_candidate, candidates, the_candidate,
  references_cloud, select_context, flags, list_args, find_target, warn, ask, force_question,
  ask_force, confirm_force, authorize, prepare,
}
use podplane.ClusterSleep.Safety.Reviews.{unrefused, wrapping-ok, Reviewed, authorize-Reviewed}

-- A context of a cloud cluster that has an ID.
abbrev pub IsCloud : Context → Type 0
IsCloud selected =
    ((cluster_id selected).1 ≡ false)
    × ((cluster_id selected).0 ≢ "")
    × (selected.cluster ≡ cluster_key (cluster_id selected).0 false)

references_cloud-IsCloud :
    (selected : Context) → references_cloud selected ≡ true → IsCloud selected
references_cloud-IsCloud selected h =
    let id : String = (cluster_id selected).0 in
    let key : String = cluster_key id false in
    ground (arith, eq_iff id "", eq_iff selected.cluster key)

-- A resource of Nstance, whose name begins with the prefix and goes on.
abbrev pub IsTarget : String → Target → Type 0
IsTarget prefix t =
    (has_prefix t.name prefix ≡ true)
    × (t.name ≢ prefix)
    × (t.namespace ≢ "")
    × (t.kind ≡ "NstanceCluster")
    × (t.reference ≡ t.name)

is_candidate-IsTarget :
    (prefix : String) (t : Target) → is_candidate prefix t ≡ true → IsTarget prefix t
is_candidate-IsTarget prefix t h = ground (
  arith,
  eq_iff t.name prefix,
  eq_iff t.namespace "",
  eq_iff t.kind "NstanceCluster",
  eq_iff t.reference t.name,
)

module _ (p : Process) (f : Formats) (opts : Options) where
  -- Without force, with approval in advance, or just agreed to.
  abbrev pub Confirmed : Target → World → Type 0
  Confirmed t w =
      (opts.force ≡ false)
      ⊎ (opts.auto_approve ≡ true)
      ⊎ ((rest : List Event) × (w.log ≡ asked (force_question p f opts t) (ok true) ∷ rest))

  ask_force-Confirmed :
      (confirm : Option Confirm) (t : Target) (w : World)
      → (ask_force p f opts confirm t w).0 ≡ ok tt
      → Confirmed t (ask_force p f opts confirm t w).1
  unfolding fail_if lift ask
  ask_force-Confirmed none t w h = absurd (ground arith)
  ask_force-Confirmed (some confirm) t w h =
      let question : Exec World Bool = ask p f opts confirm (force_question p f opts t) in
      let (agreed, answer, h₁, e₁) =
        bind-ok (wrapping "confirm forced sleep: %w" [] question) _ w h in
      let (said, state) = wrapping-ok _ _ question w answer in
      let agrees : agreed ≡ true = not-false agreed (unrefused (not agreed) _ h₁) in
      let log : World =
        push (asked (force_question p f opts t) (confirm (force_question p f opts t) w)) w in
      inr (
        inr (
          w.log,
          ap (λ (r : Result (Unit {0}) × World). r.1.log) e₁
              ∙ ap (λ (v : World). v.log) state
              ∙ ap (λ r. asked (force_question p f opts t) r ∷ w.log) (said ∙ ap ok agrees),
        ))

  abbrev approve : Bool → Target → Exec World (Unit {0})
  approve auto t = if auto then pure tt else ask_force p f opts opts.confirm t

  approve-Confirmed :
      (auto : Bool) (t : Target) (w : World)
      → opts.auto_approve ≡ auto
      → (approve auto t w).0 ≡ ok tt
      → Confirmed t (approve auto t w).1
  approve-Confirmed true t w e h = inr (inl e)
  approve-Confirmed false t w e h = ask_force-Confirmed opts.confirm t w h

  abbrev force : Bool → Target → Exec World (Unit {0})
  force forced t =
      if forced
      then (warn p f opts "Forced sleep: active workloads and connections may be interrupted."
          >> approve opts.auto_approve t)
      else pure tt

  force-Confirmed :
      (forced : Bool) (t : Target) (w : World)
      → opts.force ≡ forced
      → (force forced t w).0 ≡ ok tt
      → Confirmed t (force forced t w).1
  force-Confirmed false t w e h = inl e
  force-Confirmed true t w e h =
      let (_, _, h₁, e₁) =
        bind-ok (warn p f opts "Forced sleep: active workloads and connections may be interrupted.")
          _ w h in
      subst (λ (r : Result (Unit {0}) × World). Confirmed t r.1) (sym e₁)
        (approve-Confirmed opts.auto_approve t _ refl h₁)

  confirm_force-Confirmed :
      (t : Target) (w : World)
      → (confirm_force p f opts t w).0 ≡ ok tt
      → Confirmed t (confirm_force p f opts t w).1
  unfolding confirm_force
  confirm_force-Confirmed t w h = force-Confirmed opts.force t w refl h

  select_context-cloud :
      (w : World) {selected : Context}
      → (select_context p f opts w).0 ≡ ok selected
      → references_cloud selected ≡ true
  unfolding select_context fail_if pure
  select_context-cloud w h =
      let (found, _, h₁, _) =
        bind-ok (wrapping _ _ (resolve_context p f.unmarshal_config opts.context opts.kubeconfig)) _
          w h in
      let (cloud, h₂, _) = fail_if-ok (not (references_cloud found)) _ _ _ h₁ in
      subst (λ c. references_cloud c ≡ true) (ok-injective h₂) (not-false _ cloud)

  All-candidates :
      (prefix : String) (ts : List Target)
      → All (λ t. is_candidate prefix t ≡ true) (candidates prefix ts)
  unfolding candidates
  All-candidates prefix [] = tt
  All-candidates prefix (t ∷ ts) = elim (Bool-cases (is_candidate prefix t)) [
    | inl fits ↦ rw fits (fits, All-candidates prefix ts)
    | inr other ↦ rw other (All-candidates prefix ts)
  ]

  the_candidate-fits :
      (id prefix : String) (ts : List Target) {t : Target}
      → All (λ t. is_candidate prefix t ≡ true) ts
      → the_candidate id ts ≡ ok t
      → is_candidate prefix t ≡ true
  the_candidate-fits id prefix [] h e = absurd (ground arith)
  the_candidate-fits id prefix (t ∷ []) (h, _) e =
      subst (λ t. is_candidate prefix t ≡ true) (ok-injective e) h
  the_candidate-fits id prefix (t ∷ u ∷ ts) h e = absurd (ground arith)

  find_target-fits :
      (selected : Context) (w : World) {t : Target}
      → (find_target p f opts selected w).0 ≡ ok t
      → is_candidate ((cluster_id selected).0 <> "--") t ≡ true
  unfolding find_target lift
  find_target-fits selected w h =
      let (raw, _, h₁, _) =
        bind-ok (wrapping _ _ (run p (flags p f opts selected) (list_args p f opts) "")) _ w h in
      let (items, _, h₂, _) =
        lift-ok (wrapped "parse CAPI Clusters: %w" [] (f.unmarshal_list raw)) _ _ h₁ in
      the_candidate-fits _ _ (candidates ((cluster_id selected).0 <> "--") items)
        (All-candidates _ items) h₂

  -- What `prepare` has made sure of.
  pub record Approved (selected : Context) (t : Target) (after : World) : Type 0 where
    pub before : World
    pub cloud : IsCloud selected
    pub fits : IsTarget ((cluster_id selected).0 <> "--") t
    pub confirmed : Confirmed t before
    pub reviewed : Reviewed p f opts selected t before after

  pub prepare-Approved :
      (w : World) {ready : Context × Target}
      → (prepare p f opts w).0 ≡ ok ready
      → Approved ready.0 ready.1 (prepare p f opts w).1
  unfolding prepare pure
  prepare-Approved w {ready} h =
      let (selected, chosen, h₁, e₁) = bind-ok (select_context p f opts) _ w h in
      let (t, found, h₂, e₂) = bind-ok (find_target p f opts selected) _ _ h₁ in
      let (_, agreed, h₃, e₃) = bind-ok (confirm_force p f opts t) _ _ h₂ in
      let (_, allowed, h₄, e₄) = bind-ok (authorize p f opts selected t) _ _ h₃ in
      let asking : World =
        (confirm_force p f opts t
          (find_target p f opts selected (select_context p f opts w).1).1).1 in
      subst (λ (r : Context × Target). Approved r.0 r.1 (prepare p f opts w).1) (ok-injective h₄)
        record {
          before = asking;
          cloud = references_cloud-IsCloud selected (select_context-cloud w chosen);
          fits = is_candidate-IsTarget _ t (find_target-fits selected _ found);
          confirmed = confirm_force-Confirmed t _ agreed;
          reviewed =
              subst
                (λ (r : Result (Context × Target) × World). Reviewed p f opts selected t asking r.1)
                (sym (e₁ ∙ e₂ ∙ e₃ ∙ e₄)) (authorize-Reviewed p f opts selected t asking allowed);
        }
