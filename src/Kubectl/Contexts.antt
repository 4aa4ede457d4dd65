-- ===== src/Kubectl/Contexts.antt =====
-- context.go: ResolveContext, and calls of kubectl by it and by others.
use podplane.Base.{
  Bool, String, List, [], ◌∷◌, ◌++◌, ◌=ˢ◌, Option, none, some, if◌then◌else◌, Result, ok, err,
  Error, errorf, wrapf, wrapped, str,
}
use podplane.Base.Strings.{trim_space}
use podplane.Base.Exec.{Exec, pure, lift, fail_if, ◌>>=◌, ◌>>◌}
use podplane.Kubectl.Keys.{args, Context}

-- What a run of kubectl printed, and how it ended.
pub record Outcome : Type 0 where
  pub out : String
  pub stderr : String
  pub error : Option Error

-- A run of kubectl has the flags of the context, its arguments and its input.
pub data Event : Type 0 where
  ran : List String → List String → String → Outcome → Event
  warned : String → Event
  asked : String → Result Bool → Event

-- The last event comes first.
pub record World : Type 0 where
  pub log : List Event

-- kubectl, and ctx.Err() after what has happened so far.
pub record Process : Type 0 where
  pub kubectl : List String → String → World → Outcome
  pub context_error : World → Option Error

abbrev pub push : Event → World → World
push event w = record { log = event ∷ w.log }

unfoldable pub run_kubectl : Process → List String → List String → String → Exec World Outcome
run_kubectl p flags arguments input w =
    let outcome = p.kubectl (flags ++ arguments) input w in
    (ok outcome, push (ran flags arguments input outcome) w)

abbrev pub unless : Option Error → Result (Unit {0})
unless none = ok tt
unless (some e) = err e

-- `if err := ctx.Err(); err != nil { return err }`
unfoldable pub check_context : Process → Exec World (Unit {0})
check_context p w = (unless (p.context_error w), w)

pub record Kubeconfig : Type 0 where
  pub current_context : String
  pub contexts : List (String × Context)

-- The first entry with the name.
unfoldable pub find_context : String → List (String × Context) → Option Context
find_context name [] = none
find_context name ((other, context) ∷ entries) =
    let rest = find_context name entries in
    if other =ˢ name then some (record context { name = other }) else rest

abbrev pub config_error : Outcome → Result (Unit {0})
config_error outcome = failed outcome.error
  where
    failed : Option Error → Result (Unit {0})
    failed none = ok tt
    failed (some e) =
        if trim_space outcome.stderr =ˢ ""
        then err (wrapf "read kubeconfig: %w" [] e)
        else err (wrapf "read kubeconfig: %w: %s" (str (trim_space outcome.stderr) ∷ []) e)

abbrev pub found_context : String → Option Context → Result Context
found_context name none = err (errorf "kubeconfig context %q not found" (str name ∷ []))
found_context name (some context) = ok context

abbrev pub selected_name : String → Kubeconfig → String
selected_name kube_context config =
    if trim_space kube_context =ˢ ""
    then trim_space config.current_context
    else trim_space kube_context

-- ctx.Err() is looked at only when the run failed.
abbrev pub check_failed : Process → Option Error → Exec World (Unit {0})
check_failed p none = pure tt
check_failed p (some e) = check_context p

-- ResolveContext, with encoding/json's reading of the configuration.
unfoldable pub resolve_context :
    Process → (String → Result Kubeconfig) → String → String → Exec World Context
resolve_context p unmarshal kube_context kubeconfig = do
  check_context p
  outcome ←
      run_kubectl p (args (trim_space kube_context) kubeconfig)
        ("config" ∷ "view" ∷ "--output=json" ∷ []) ""
  check_failed p outcome.error
  lift (config_error outcome)
  config ← lift (wrapped "parse kubeconfig: %w" [] (unmarshal outcome.out))
  let name = selected_name kube_context config
  fail_if (name =ˢ "")
      (errorf "no kubeconfig context selected; pass --context or select a current context" [])
  lift (found_context name (find_context name config.contexts))
