-- ===== src/Health/Checks.antt =====
-- check.go: RunChecks and the checks' keys.
pub mod Settled
use podplane.Base.{
  Bool, true, false, ◌≡◌, ◌≢◌, refl, sym, ap, subst, arith, eq_iff, String, List, [], ◌∷◌, ◌<>◌,
  ◌=ˢ◌, Option, none, some, if◌then◌else◌, Result, ok, err, Error, errorf, str, All, is_some,
  ok-injective, inl, inr, Bool-cases,
}
use podplane.Base.Assoc.{Assoc, lookup, insert, lookup-insert}
use podplane.Base.Exec.{Exec, pure, lift, ◌>>=◌, ◌>>◌}
use podplane.Base.Exec.Keeps.{bind-ok}
use podplane.Kubectl.Contexts.{World, Process, check_context}

-- Result: what a check has seen.
pub record CheckResult : Type 0 where
  pub exists : Bool
  pub ready : Bool
  pub status : String
  pub message : String
  pub error : Option Error

-- Check, with the fields that RunChecks reads.
pub record Check : Type 0 where
  pub key : String
  pub run : Option (World → CheckResult × World)

abbrev pub with_status : CheckResult → CheckResult
with_status r =
    if r.status =ˢ "" then record r { status = if r.ready then "Ready" else "Pending" } else r

abbrev pub finished_with : Option Error → CheckResult → Result CheckResult
finished_with none r = ok (with_status r)
finished_with (some e) r = err e

abbrev pub finished : CheckResult → Result CheckResult
finished r = finished_with r.error r

abbrev pub run_with : String → Option (World → CheckResult × World) → Exec World CheckResult
run_with key none w = (err (errorf "health check %q has no run function" (str key ∷ [])), w)
run_with key (some run) w = (finished (run w).0, (run w).1)

-- The body of the loop on one check.
unfoldable pub run_check : Check → Exec World CheckResult
run_check c = run_with c.key c.run

unfoldable pub run_each : Assoc CheckResult → List Check → Exec World (Assoc CheckResult)
run_each results [] = pure results
run_each results (c ∷ checks) = do
  result ← run_check c
  run_each (insert c.key result results) checks

-- RunChecks
unfoldable pub run_checks : Process → List Check → Exec World (Assoc CheckResult)
run_checks p checks = do check_context p; run_each [] checks

-- key
unfoldable pub key_of : String → String → String → String
key_of namespace kind name = namespace <> ("/" <> (kind <> ("/" <> name)))
