-- ===== src/FakeVault/Handler/Scope.antt =====
-- Which requests reach the secrets of a handler that is not trusted.
use podplane.Base.{
  ℕ, Bool, true, false, ◌||◌, String, ◌<>◌, Option, none, some, Result, ok, err, if◌then◌else◌, ◌≡◌,
  inl, inr, refl, ◌∙◌, subst, arith, Bool-cases,
}
use podplane.FakeVault.Handler.Tokens.{IsLive, authenticate-IsLive, token_entry-trusted}
use podplane.FakeVault.Paths.{clean_cluster_path}
use podplane.FakeVault.Handler.{
  Token, Handler, Request, Action, refused, login, serve_mount, serve_cluster_delete, serve_unlock,
  authenticate, may_read, serve_secret, guarded, secured, dispatch, serve_http, api_path,
}
use podplane.FakeVault.Handler.Grants.{
  target, is_local, IsPermitted, Grants-of_operator, serve_secret-target, serve_secret-Grants,
  serve_secret-remote, serve_mount-idle, serve_cluster_delete-idle, serve_unlock-idle,
  may_read_split,
}

module _ (now later : ℕ) (r : Request) (h : Handler) where
  idle : (x : Action × Handler) → is_local x.0 ≡ false → target x.0 ≡ none → IsPermitted now r h x
  idle x far none_asked = record {
    remote = far;
    token_for = λ c e. absurd (ground (arith, none_asked, e));
  }

  passed-IsPermitted :
      (cluster path : String) (entry : Token) (h' : Handler)
      → h'.trusted ≡ false
      → IsLive now r h cluster entry
      → (entry.operator || may_read r cluster path entry) ≡ true
      → IsPermitted now r h (serve_secret later r cluster ("/" <> path) h')
  passed-IsPermitted cluster path entry h' untrusted live passed = record {
    remote = serve_secret-remote later r cluster ("/" <> path) h';
    token_for = λ c e.
        let same = serve_secret-target later r cluster ("/" <> path) h' untrusted c e in
        (
          entry,
          subst (λ (d : String). IsLive now r h d entry) same live,
          elim (Bool-cases entry.operator) [
            | inl op ↦ Grants-of_operator entry (serve_secret later r cluster ("/" <> path) h').0 op
            | inr workload ↦
                let (get, plain, inside) = may_read_split r cluster path entry (ground arith) in
                serve_secret-Grants later r cluster ("/" <> path) h' untrusted entry get plain
                  (path, refl, inside)
          ],
        );
  }

  -- The tests of the token, from the token that was found and the state after the search.
  guarded-IsPermitted :
      (cluster path : String) (found : Option Token × Handler)
      → found.1.trusted ≡ false
      → ((entry : Token) → found.0 ≡ some entry → IsLive now r h cluster entry)
      → IsPermitted now r h (guarded later r cluster path found)
  guarded-IsPermitted cluster path (none, h') untrusted live = idle _ refl refl
  guarded-IsPermitted cluster path (some entry, h') untrusted live =
      elim (Bool-cases (entry.operator || may_read r cluster path entry)) [
        | inl passed ↦
            rw passed (passed-IsPermitted cluster path entry h' untrusted (live entry refl) passed)
        | inr stopped ↦ rw stopped (idle (refused 403, h') refl refl)
      ]

  otherwise :
      (b : Bool) (x y : Action × Handler)
      → b ≡ false
      → IsPermitted now r h y
      → IsPermitted now r h (if b then x else y)
  otherwise true x y e q = cc
  otherwise false x y e q = q

  secured-IsPermitted :
      (cluster : String) (clean : Result (String × String))
      → h.trusted ≡ false
      → IsPermitted now r h (secured now later r cluster h clean)
  unfolding authenticate
  secured-IsPermitted cluster (err e) untrusted = idle _ refl refl
  secured-IsPermitted cluster (ok (id, path)) untrusted = otherwise h.trusted _ _ untrusted (
      guarded-IsPermitted cluster path (authenticate now r.client_token cluster h)
        (token_entry-trusted now r.client_token h ∙ untrusted)
        (λ entry found. authenticate-IsLive now r cluster h entry found))

  either :
      (b : Bool) (x y : Action × Handler)
      → IsPermitted now r h x
      → IsPermitted now r h y
      → IsPermitted now r h (if b then x else y)
  either true x y p q = p
  either false x y p q = q

  dispatch-IsPermitted :
      (o : Option (String × String))
      → h.trusted ≡ false
      → IsPermitted now r h (dispatch now later r h o)
  dispatch-IsPermitted none untrusted = idle (refused 404, h) refl refl
  dispatch-IsPermitted (some (cluster, api)) untrusted =
      let mounted = serve_mount-idle r cluster in
      let deleted = serve_cluster_delete-idle r cluster h untrusted in
      let unlocked = serve_unlock-idle r cluster h untrusted in
      either _ _ _ (idle (login cluster, h) refl refl) (
        either _ _ _ (idle (serve_mount r cluster, h) mounted.0 mounted.1) (
          either _ _ _ (idle (serve_cluster_delete r cluster h, h) deleted.0 deleted.1) (
            either _ _ _ (idle (serve_unlock r cluster h, h) unlocked.0 unlocked.1)
              (secured-IsPermitted cluster (clean_cluster_path cluster api) untrusted))))

-- On a handler that is not trusted, no request deletes or unlocks a cluster, and a request
-- reaches the secrets of a cluster only with a token that the handler knows, that has not
-- expired at the first reading of the clock and that is for this cluster; unless the token is
-- an operator's, the request is answered by a read of a path that begins with the token's own
-- part of the secrets, and what the store's CleanPath makes of it begins with that part too,
-- followed by what is kept of the rest without white space and then slashes at its end, unless
-- nothing of the rest is kept.
pub serve_http-IsPermitted :
    (now later : ℕ) (r : Request) (h : Handler)
    → h.trusted ≡ false
    → IsPermitted now r h (serve_http now later r h)
unfolding serve_http
serve_http-IsPermitted now later r h untrusted =
    dispatch-IsPermitted now later r h (api_path r.path) untrusted
