-- ===== src/ClusterSleep/Safety.antt =====
-- sleep.go: what has happened before a cluster is patched.
pub mod Patches
mod Reviews
mod Steps
use podplane.Base.{
  Bool, true, false, not, ◌≡◌, refl, sym, ap, ◌∙◌, subst, ◌⊎◌, inl, inr, String, List, [], ◌∷◌,
  ◌<>◌, ◌=ˢ◌, Option, none, some, if◌then◌else◌, Result, ok, err, Error, Result-cases,
}
use podplane.Base.Exec.{Exec, pure, gets, modify, continue, ◌>>=◌, ◌>>◌}
use podplane.Base.Exec.Keeps.{Keeps, bind-ok, run-bind}
use podplane.Kubectl.Keys.{Context, cluster_id}
use podplane.Kubectl.Contexts.{Outcome, Event, ran, asked, World, Process}
use podplane.ClusterSleep.Request.{
  Options, Target, Access, Formats, is_candidate, references_cloud, flags, force_question, review,
  review_args, refuses, patch, request_text, patch_args, prepare, patch_cluster, request,
}
use podplane.ClusterSleep.Safety.Patches.{patches, prepare-Keeps, patch_cluster-state}
use podplane.ClusterSleep.Safety.Steps.{Approved, prepare-Approved}

module _ (p : Process) (f : Formats) (opts : Options) where
  -- The last call is the patch of the target, behind what was approved.
  pub record Patched (log : List Event) : Type 0 where
    pub selected : Context
    pub target : Target
    pub outcome : Outcome
    pub text : String
    pub before : World
    pub ends :
        log
        ≡ ran (flags p f opts selected) (patch_args p f opts target text) "" outcome ∷ before.log
    pub approved : Approved p f opts selected target before

  finish :
      (selected : Context) (t : Target) (w : World)
      → Approved p f opts selected t w
      → (patches (patch_cluster p f opts selected t w).1.log ≡ patches w.log)
        ⊎ Patched (patch_cluster p f opts selected t w).1.log
  finish selected t w approved = elim (patch_cluster-state p f opts selected t w) [
    | inl same ↦ inl (ap (λ (v : World). patches v.log) same)
    | inr (text, outcome, called) ↦ inr record {
      selected = selected;
      target = t;
      outcome = outcome;
      text = text;
      before = w;
      ends = ap (λ (v : World). v.log) called;
      approved = approved;
    }
  ]

  finish_from :
      (log : List Event) (r : Result (Context × Target)) (w : World)
      → patches w.log ≡ patches log
      → ((ready : Context × Target) → r ≡ ok ready → Approved p f opts ready.0 ready.1 w)
      → (patches (continue r (λ ready. patch_cluster p f opts ready.0 ready.1) w).1.log
          ≡ patches log)
        ⊎ Patched (continue r (λ ready. patch_cluster p f opts ready.0 ready.1) w).1.log
  finish_from log (err e) w same approved = inl same
  finish_from log (ok (selected, t)) w same approved =
      elim (finish selected t w (approved (selected, t) refl)) [
        | inl kept ↦ inl (kept ∙ same)
        | inr patched ↦ inr patched
      ]

  -- Whatever kubectl, the context and the user do, either Request makes no patch, or its last
  -- call is a patch of one target in one context, and then: the context's cluster is the key
  -- of a cloud cluster; the target is an NstanceCluster with a namespace, named after the
  -- cluster with two dashes and a tenant; the call before is an access review of this target
  -- in this context whose answer allows the patch, does not deny it and has no evaluation
  -- error; and before that either sleep is not forced, or it was approved in advance, or the
  -- last thing was that the user agreed to force this target.
  pub request-Patched :
      (w : World)
      → (patches (request p f opts w).1.log ≡ patches w.log) ⊎ Patched (request p f opts w).1.log
  unfolding request ◌>>=◌
  request-Patched w =
      finish_from w.log (prepare p f opts w).0 (prepare p f opts w).1
        ((prepare-Keeps p f opts).at w) (λ ready done. prepare-Approved p f opts w done)
