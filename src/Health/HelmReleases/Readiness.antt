-- ===== src/Health/HelmReleases/Readiness.antt =====
-- helmrelease.go: what a status that is ready rests on.
use podplane.Base.{
  Bool, true, false, ◌≡◌, ◌≢◌, refl, sym, ◌∙◌, subst, arith, eq_iff, String, List, [], ◌∷◌, ◌=ˢ◌,
  Option, none, some, if◌then◌else◌, ◌⊎◌, inl, inr, Bool-cases,
}
use podplane.Base.Assoc.{Assoc, lookup, insert, lookup-insert}
use podplane.Health.HelmReleases.{
  HelmReleaseRef, HelmReleaseStatus, HelmReleaseCondition, HelmRelease, ready_condition, status_of,
  helm_release_ready_status, release_key, ref_key, waiting, await_all, seen, observe_all,
}
use podplane.Health.HelmReleases.Laws.{observed, observed_if, lookup-observe_all}

-- The first condition of the type Ready has the status True.
abbrev pub IsTrue : List HelmReleaseCondition → Type 0
IsTrue [] = ⊥
IsTrue (c ∷ conditions) =
    ((c.type_name ≡ "Ready") × (c.status ≡ "True")) ⊎ ((c.type_name ≢ "Ready") × IsTrue conditions)

-- One of the releases has this key and is ready by its conditions.
abbrev pub AnyTrue : String → List HelmRelease → Type 0
AnyTrue key [] = ⊥
AnyTrue key (hr ∷ items) = ((release_key hr ≡ key) × IsTrue hr.conditions) ⊎ AnyTrue key items

status_of-ready : (c : HelmReleaseCondition) → (status_of (some c)).0 ≡ true → c.status ≡ "True"
status_of-ready c h = elim (Bool-cases (c.status =ˢ "True")) [
  | inl same ↦ (eq_iff _ _).0 same
  | inr other ↦ absurd (ground arith)
]

helm_release_ready_status-IsTrue :
    (conditions : List HelmReleaseCondition)
    → (helm_release_ready_status conditions).0 ≡ true
    → IsTrue conditions
unfolding helm_release_ready_status ready_condition
helm_release_ready_status-IsTrue [] h = absurd (ground arith)
helm_release_ready_status-IsTrue (c ∷ conditions) h = elim (Bool-cases (c.type_name =ˢ "Ready")) [
  | inl same ↦ inl ((eq_iff _ _).0 same, status_of-ready c (rw same at h))
  | inr other ↦ inr (
    λ same. absurd (ground (arith, eq_iff c.type_name "Ready")),
    helm_release_ready_status-IsTrue conditions (rw other at h),
  )
]

-- A status that was not ready before is ready only by one of the releases.
observed-ready :
    (key : String) (s : HelmReleaseStatus) (items : List HelmRelease)
    → s.ready ≡ false
    → (observed key s items).ready ≡ true
    → AnyTrue key items
observed-ready key s [] idle h = absurd (ground arith)
observed-ready key s (hr ∷ items) idle h = elim (Bool-cases (release_key hr =ˢ key)) [
  | inl same ↦ elim (Bool-cases (helm_release_ready_status hr.conditions).0) [
    | inl ready ↦ inl ((eq_iff _ _).0 same, helm_release_ready_status-IsTrue hr.conditions ready)
    | inr unready ↦ inr (observed-ready key (seen hr s) items unready (passed true same))
  ]
  | inr other ↦ inr (observed-ready key s items idle (passed false other))
]
  where
    passed :
        (b : Bool)
        → (release_key hr =ˢ key) ≡ b
        → (observed key (if b then seen hr s else s) items).ready ≡ true
    passed b e = subst (λ b'. (observed key (if b' then seen hr s else s) items).ready ≡ true) e h

-- Before the releases are looked at no status is ready.
abbrev AllIdle : Assoc HelmReleaseStatus → Type 0
AllIdle statuses =
    (key : String) (s : HelmReleaseStatus) → lookup key statuses ≡ some s → s.ready ≡ false

ready_of_some :
    (a b : HelmReleaseStatus)
    → Path (Option HelmReleaseStatus) (some a) (some b)
    → a.ready ≡ b.ready
ready_of_some a b h = cc

insert-AllIdle :
    (key : String) (ref : HelmReleaseRef) (statuses : Assoc HelmReleaseStatus)
    → AllIdle statuses
    → AllIdle (insert key (waiting ref) statuses)
insert-AllIdle key ref statuses all other s found = elim (Bool-cases (key =ˢ other)) [
  | inl same ↦ sym (
      ready_of_some (waiting ref) s
        (sym (lookup-insert key other (waiting ref) statuses ∙ rw same refl) ∙ found))
  | inr differs ↦
      all other s (sym (lookup-insert key other (waiting ref) statuses ∙ rw differs refl) ∙ found)
]

await_all-AllIdle :
    (statuses : Assoc HelmReleaseStatus) (refs : List HelmReleaseRef)
    → AllIdle statuses
    → AllIdle (await_all statuses refs)
unfolding await_all
await_all-AllIdle statuses [] all = all
await_all-AllIdle statuses (ref ∷ refs) all =
    await_all-AllIdle (insert (ref_key ref) (waiting ref) statuses) refs
      (insert-AllIdle (ref_key ref) ref statuses all)

nothing_idle : AllIdle []
unfolding lookup
nothing_idle key s found = absurd (ground arith)

ready_of_observed :
    (key : String) (o : Option HelmReleaseStatus) (items : List HelmRelease) (s : HelmReleaseStatus)
    → ((t : HelmReleaseStatus) → o ≡ some t → t.ready ≡ false)
    → observed_if key o items ≡ some s
    → s.ready ≡ true
    → AnyTrue key items
ready_of_observed key none items s idle found ready = absurd (ground arith)
ready_of_observed key (some t) items s idle found ready =
    observed-ready key t items (idle t refl) (ready_of_some (observed key t items) s found ∙ ready)

-- If a status is ready after the loop over the references and then the loop over the releases,
-- one of the releases has its key, and of this release the first condition of the type Ready
-- has the status True.
pub observe_all-ready :
    (refs : List HelmReleaseRef) (items : List HelmRelease) (key : String) (s : HelmReleaseStatus)
    → lookup key (observe_all (await_all [] refs) items) ≡ some s
    → s.ready ≡ true
    → AnyTrue key items
observe_all-ready refs items key s found ready =
    ready_of_observed key (lookup key (await_all [] refs)) items s
      (await_all-AllIdle [] refs nothing_idle key)
      (sym (lookup-observe_all key (await_all [] refs) items) ∙ found) ready
