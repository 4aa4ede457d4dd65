-- ===== src/Health/Checks/Settled.antt =====
-- check.go: what RunChecks returns when it succeeds.
use text.Mathlib.TextPositions.{eq_refl}
use podplane.Base.{
  Bool, true, false, ◌≡◌, ◌≢◌, refl, sym, ◌∙◌, subst, arith, eq_iff, String, List, [], ◌∷◌, ◌=ˢ◌,
  Option, none, some, if◌then◌else◌, ok, Error, All, is_some, ok-injective, inl, inr, Bool-cases,
}
use podplane.Base.Assoc.{Assoc, lookup, insert, lookup-insert}
use podplane.Base.Exec.{pure}
use podplane.Base.Exec.Keeps.{bind-ok}
use podplane.Kubectl.Contexts.{World, Process, check_context}
use podplane.Health.Checks.{
  CheckResult, Check, finished_with, run_with, run_check, run_each, run_checks,
}

-- A result without an error, and with a status.
pub record IsSettled (r : CheckResult) : Type 0 where
  pub no_error : r.error ≡ none
  pub has_status : r.status ≢ ""

abbrev AllSettled : Assoc CheckResult → Type 0
AllSettled results = (name : String) (r : CheckResult) → lookup name results ≡ some r → IsSettled r

status-filled :
    (b : Bool) (r : CheckResult)
    → (r.status =ˢ "") ≡ b
    → (if b then record r { status = if r.ready then "Ready" else "Pending" } else r).status ≢ ""
status-filled false r e = λ same. absurd (ground (arith, eq_iff r.status ""))
status-filled true r e = filled r.ready
  where
    filled : (ready : Bool) → ◌≢◌ {A = String} (if ready then "Ready" else "Pending") ""
    filled true = λ same. absurd (ground (arith, eq_iff "Ready" ""))
    filled false = λ same. absurd (ground (arith, eq_iff "Pending" ""))

error-kept :
    (b : Bool) (r : CheckResult)
    → (if b then record r { status = if r.ready then "Ready" else "Pending" } else r).error
      ≡ r.error
error-kept true r = refl
error-kept false r = refl

finished-IsSettled :
    (error : Option Error) (seen r : CheckResult)
    → seen.error ≡ error
    → finished_with error seen ≡ ok r
    → IsSettled r
finished-IsSettled (some e) seen r same h = absurd (ground arith)
finished-IsSettled none seen r same h = subst IsSettled (ok-injective h) record {
  no_error = error-kept (seen.status =ˢ "") seen ∙ same;
  has_status = status-filled (seen.status =ˢ "") seen refl;
}

run_with-IsSettled :
    (key : String) (run : Option (World → CheckResult × World)) (w : World) {r : CheckResult}
    → (run_with key run w).0 ≡ ok r
    → IsSettled r × (is_some run ≡ true)
run_with-IsSettled key none w h = absurd (ground arith)
run_with-IsSettled key (some run) w {r} h =
    (finished-IsSettled (run w).0.error (run w).0 r refl h, refl)

some-injective : {A : Type 0} {a b : A} → Path (Option A) (some a) (some b) → a ≡ b
some-injective h = cc

-- An entry that is there stays there.
lookup-kept :
    (key name : String) (r : CheckResult) (results : Assoc CheckResult)
    → is_some (lookup name results) ≡ true
    → is_some (lookup name (insert key r results)) ≡ true
lookup-kept key name r results there = rw (lookup-insert key name r results) (ground arith)

lookup-added :
    (key : String) (r : CheckResult) (results : Assoc CheckResult)
    → is_some (lookup key (insert key r results)) ≡ true
lookup-added key r results = rw (lookup-insert key key r results, eq_refl key) refl

insert-AllSettled :
    (key : String) (r : CheckResult) (results : Assoc CheckResult)
    → IsSettled r
    → AllSettled results
    → AllSettled (insert key r results)
insert-AllSettled key r results settled all name found h = elim (Bool-cases (key =ˢ name)) [
  | inl same ↦
      subst IsSettled (some-injective (sym (lookup-insert key name r results ∙ rw same refl) ∙ h))
        settled
  | inr other ↦ all name found (sym (lookup-insert key name r results ∙ rw other refl) ∙ h)
]

-- The checks that ran have an entry.
abbrev pub Covered : Assoc CheckResult → Check → Type 0
Covered results c = (is_some (lookup c.key results) ≡ true) × (is_some c.run ≡ true)

run_each-Settled :
    (results : Assoc CheckResult) (checks : List Check) (w : World) {after : Assoc CheckResult}
    → AllSettled results
    → (run_each results checks w).0 ≡ ok after
    → AllSettled after
      × ((name : String)
          → is_some (lookup name results) ≡ true
          → is_some (lookup name after) ≡ true)
      × All (Covered after) checks
unfolding run_each pure run_check
run_each-Settled results [] w settled h = (
  subst AllSettled (ok-injective h) settled,
  λ name there. subst (λ m. is_some (lookup name m) ≡ true) (ok-injective h) there,
  tt,
)
run_each-Settled results (c ∷ checks) w settled h =
    let (r, ran, h₁, e₁) = bind-ok (run_check c) _ w h in
    let (good, runs) = run_with-IsSettled c.key c.run w ran in
    let (all, kept, covered) =
      run_each-Settled (insert c.key r results) checks _
        (insert-AllSettled c.key r results good settled) h₁ in
    (
      all,
      λ name there. kept name (lookup-kept c.key name r results there),
      ((kept c.key (lookup-added c.key r results), runs), covered),
    )

nothing : (name : String) (r : CheckResult) → lookup name [] ≡ some r → ⊥
unfolding lookup
nothing name r found = ground arith

-- If RunChecks succeeds, each entry of its map has no error and a status that is not empty,
-- and each check has a run function and an entry under its key.
pub run_checks-IsSettled :
    (p : Process) (checks : List Check) (w : World) (results : Assoc CheckResult)
    → (run_checks p checks w).0 ≡ ok results
    → ((name : String) (r : CheckResult)
        → lookup name results ≡ some r
        → (r.error ≡ none) × (r.status ≢ ""))
      × All (Covered results) checks
unfolding run_checks
run_checks-IsSettled p checks w results h =
    let (_, _, h₁, _) = bind-ok (check_context p) _ w h in
    let (all, _, covered) =
      run_each-Settled [] checks _ (λ name r found. absurd (nothing name r found)) h₁ in
    (
      λ name r found. let settled = all name r found in (settled.no_error, settled.has_status),
      covered,
    )
