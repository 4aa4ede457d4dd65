-- ===== src/FakeVault/RoundTrip.antt =====
-- store.go: writing, archiving, restoring and reading one secret.
use podplane.Base.{ℤ, String, Option, none, some, ok, ◌≡◌, true, false}
use podplane.FakeVault.Types.{Values, FileStore, Codec, World}
use podplane.FakeVault.Operations.{set_secret_at, get_secret, archive_secret, restore_secret}
use podplane.FakeVault.Keys.{FillsKey, FillsNonce}
use podplane.FakeVault.Laws.{CodecLaws, ascending}
use podplane.FakeVault.Secrets.{set_secret_at-run}
use podplane.FakeVault.Stored.{Written-Stored, get_secret-Stored, set_archived-run}

module _ (c : Codec) (laws : CodecLaws c) where
  -- If the codec keeps what it is documented to keep, the random source fills the whole key
  -- and the nonce, the values are in the order of their keys and the file can be read, then
  -- after a write that reports success (SetSecret, CreateSecret or CompareAndSetSecret)
  -- GetSecret returns the values that were written and leaves the store as it is.
  pub get-set :
      (w w' : World) (cluster raw : String) (values : Values) (version : Option ℤ)
      (s s' : FileStore)
      → FillsKey w
      → FillsNonce w
      → ascending values ≡ true
      → w'.read_file ≡ none
      → set_secret_at c w cluster raw values version s ≡ (ok true, s')
      → get_secret c w' cluster raw s' ≡ (ok (some values), s')
  get-set w w' cluster raw values version s s' fills fills_nonce sorted readable done =
      let x = set_secret_at-run c w cluster raw values version s s' fills done in
      let stored = Written-Stored c laws w cluster raw values version s s' fills_nonce x in
      get_secret-Stored c laws w' cluster raw x.id x.path values false s' x.clean stored readable
        sorted x.text

  -- If the codec keeps what it is documented to keep, the random source fills the whole key
  -- and the nonce, the values are in the order of their keys and the files can be read, then
  -- after a write, an archiving and a restoring that report success, GetSecret finds nothing
  -- after the archiving and returns the written values after the restoring.
  pub get-restore-archive :
      (w w₁ w₂ w' : World) (cluster raw : String) (values : Values) (version : Option ℤ)
      (s s₀ s₁ s₂ : FileStore)
      → FillsKey w
      → FillsNonce w
      → ascending values ≡ true
      → w₁.read_file ≡ none
      → w₂.read_file ≡ none
      → w'.read_file ≡ none
      → set_secret_at c w cluster raw values version s ≡ (ok true, s₀)
      → archive_secret c w₁ cluster raw s₀ ≡ (ok tt, s₁)
      → restore_secret c w₂ cluster raw s₁ ≡ (ok tt, s₂)
      → (get_secret c w' cluster raw s₁ ≡ (ok none, s₁))
        × (get_secret c w' cluster raw s₂ ≡ (ok (some values), s₂))
  unfolding archive_secret restore_secret
  get-restore-archive w w₁ w₂ w' cluster raw values version s s₀ s₁ s₂ fills fills_nonce sorted r₁
        r₂ r' done archived restored =
      let x = set_secret_at-run c w cluster raw values version s s₀ fills done in
      let stored = Written-Stored c laws w cluster raw values version s s₀ fills_nonce x in
      let hidden =
        set_archived-run c laws w₁ cluster raw x.id x.path values false true s₀ s₁ x.clean stored r₁
          archived in
      let back =
        set_archived-run c laws w₂ cluster raw x.id x.path values true false s₁ s₂ x.clean hidden r₂
          restored in
      (
        get_secret-Stored c laws w' cluster raw x.id x.path values true s₁ x.clean hidden r' sorted
            x.text,
        get_secret-Stored c laws w' cluster raw x.id x.path values false s₂ x.clean back r' sorted
            x.text,
      )
