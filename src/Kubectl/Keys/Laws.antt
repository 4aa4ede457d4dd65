-- ===== src/Kubectl/Keys/Laws.antt =====
-- keys.go and context.go: names and what is read back from them.
use Prim.Native.Char.{code}
use Prim.Native.String.{String, [], ◌∷◌, ◌++◌ as ◌<>◌}
use Prim.Native.String.append
use podplane.Base.{
  ℕ, ap, ◌∙◌, Bool, true, false, ◌≡◌, refl, ◌==◌, Option, none, some, arith, is_some,
}
use podplane.Base.Strings.{cut_prefix, has_prefix}
use podplane.Kubectl.Keys.{
  cluster_key, credentials_key, sub_from_credentials_key, Context, cluster_id,
}

eq_self : (n : ℕ) → (n == n) ≡ true
eq_self n = ground arith

cut_prefix-append : (p s : String) → cut_prefix (p <> s) p ≡ some s
unfolding cut_prefix
cut_prefix-append [] s = ap some (append.nil s)
cut_prefix-append (c ∷ p) s = rw (append.cons c p s, eq_self (code c)) (cut_prefix-append p s)

-- What two texts begin with is cut from both.
cut_prefix-same : (p s q : String) → cut_prefix (p <> s) (p <> q) ≡ cut_prefix s q
unfolding cut_prefix
cut_prefix-same [] s q = rw (append.nil s, append.nil q) refl
cut_prefix-same (c ∷ p) s q =
    rw (append.cons c p s, append.cons c p q, eq_self (code c)) (cut_prefix-same p s q)

-- The key is cut behind the cluster and its dash.
cut_prefix-key :
    (kind cluster sub : String)
    → cut_prefix (kind <> (cluster <> ("-" <> sub))) (kind <> (cluster <> "-")) ≡ some sub
cut_prefix-key kind cluster sub =
    cut_prefix-same kind (cluster <> ("-" <> sub)) (cluster <> "-")
    ∙ (cut_prefix-same cluster ("-" <> sub) "-" ∙ cut_prefix-append "-" sub)

none_of : (o : Option String) → is_some o ≡ false → o ≡ none
none_of none h = refl
none_of (some s) h = absurd (ground arith)

-- The subject that is read from a credentials key with the cluster that the key was made for
-- is the subject that the key was made for.
pub sub-credentials_key :
    (sub cluster : String) (local : Bool)
    → sub_from_credentials_key (credentials_key sub cluster local) cluster local ≡ sub
unfolding sub_from_credentials_key credentials_key
sub-credentials_key sub cluster true = rw (cut_prefix-key "podplane-local-" cluster sub) refl
sub-credentials_key sub cluster false = rw (cut_prefix-key "podplane-" cluster sub) refl

-- A context whose cluster is the key of a cluster has this cluster's ID and kind, if the
-- cluster is local or its ID does not begin with local-.
pub cluster_id-cluster_key :
    (c : Context) (id : String) (local : Bool)
    → c.cluster ≡ cluster_key id local
    → (local ≡ false → has_prefix id "local-" ≡ false)
    → cluster_id c ≡ (id, local)
unfolding cluster_id cluster_key
cluster_id-cluster_key c id true h apart = rw (h, cut_prefix-append "podplane-local-" id) refl
cluster_id-cluster_key c id false h apart =
    let other : cut_prefix ("podplane-" <> id) "podplane-local-" ≡ none =
      cut_prefix-same "podplane-" id "local-" ∙ none_of (cut_prefix id "local-") (apart refl) in
    rw (h, other, cut_prefix-append "podplane-" id) refl
