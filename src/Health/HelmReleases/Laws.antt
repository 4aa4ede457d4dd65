-- ===== src/Health/HelmReleases/Laws.antt =====
-- helmrelease.go: what becomes of the status under one key.
use podplane.Base.{
  true, false, ◌≡◌, refl, ap, ◌∙◌, eq_iff, String, List, [], ◌∷◌, ◌=ˢ◌, Option, none, some,
  if◌then◌else◌, inl, inr, Bool-cases,
}
use podplane.Base.Assoc.{Assoc, lookup, insert, lookup-insert}
use podplane.Health.HelmReleases.{
  HelmReleaseStatus, HelmRelease, release_key, seen, update, observe_all,
}

-- The status after the releases with this key, one after the other.
abbrev pub observed : String → HelmReleaseStatus → List HelmRelease → HelmReleaseStatus
observed key s [] = s
observed key s (hr ∷ items) = observed key (if release_key hr =ˢ key then seen hr s else s) items

abbrev pub observed_if :
    String → Option HelmReleaseStatus → List HelmRelease → Option HelmReleaseStatus
observed_if key none items = none
observed_if key (some s) items = some (observed key s items)

module _ (key : String) (hr : HelmRelease) (items : List HelmRelease) where
  other_key :
      (o : Option HelmReleaseStatus) (statuses : Assoc HelmReleaseStatus)
      → (release_key hr =ˢ key) ≡ false
      → lookup key (update hr o statuses) ≡ lookup key statuses
  other_key none statuses other = refl
  other_key (some s) statuses other =
      lookup-insert (release_key hr) key (seen hr s) statuses ∙ rw other refl

  passed_over :
      (o : Option HelmReleaseStatus)
      → (release_key hr =ˢ key) ≡ false
      → observed_if key o items ≡ observed_if key o (hr ∷ items)
  passed_over none other = refl
  passed_over (some s) other = rw other refl

  this_key :
      (o : Option HelmReleaseStatus) (statuses : Assoc HelmReleaseStatus)
      → (release_key hr =ˢ key) ≡ true
      → lookup key statuses ≡ o
      → observed_if key (lookup key (update hr o statuses)) items ≡ observed_if key o (hr ∷ items)
  this_key none statuses same found = ap (λ o. observed_if key o items) found
  this_key (some s) statuses same found =
      let here : lookup key (insert (release_key hr) (seen hr s) statuses) ≡ some (seen hr s) =
        lookup-insert (release_key hr) key (seen hr s) statuses ∙ rw same refl in
      ap (λ o. observed_if key o items) here ∙ rw same refl

  step :
      (statuses : Assoc HelmReleaseStatus)
      → observed_if key (lookup key (update hr (lookup (release_key hr) statuses) statuses)) items
        ≡ observed_if key (lookup key statuses) (hr ∷ items)
  step statuses = elim (Bool-cases (release_key hr =ˢ key)) [
    | inl same ↦
        (let under : lookup (release_key hr) statuses ≡ lookup key statuses =
            ap (λ k. lookup k statuses) ((eq_iff (release_key hr) key).0 same) in
          ap (λ o. observed_if key (lookup key (update hr o statuses)) items) under
          ∙ this_key (lookup key statuses) statuses same refl)
    | inr other ↦
        ap (λ o. observed_if key o items)
          (other_key (lookup (release_key hr) statuses) statuses other)
        ∙ passed_over (lookup key statuses) other
  ]

-- Whatever the map holds before, the loop over the releases makes an entry under no new key,
-- and leaves under a key that has an entry the status of the last release with this key, or
-- the entry as it was where no release has it.
pub lookup-observe_all :
    (key : String) (statuses : Assoc HelmReleaseStatus) (items : List HelmRelease)
    → lookup key (observe_all statuses items) ≡ observed_if key (lookup key statuses) items
unfolding observe_all
lookup-observe_all key statuses [] = nothing_seen (lookup key statuses)
  where
    nothing_seen : (o : Option HelmReleaseStatus) → o ≡ observed_if key o []
    nothing_seen none = refl
    nothing_seen (some s) = refl
lookup-observe_all key statuses (hr ∷ items) =
    lookup-observe_all key (update hr (lookup (release_key hr) statuses) statuses) items
    ∙ step key hr items statuses
