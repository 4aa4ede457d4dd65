-- ===== src/FakeVault/Success.antt =====
-- store.go: writes that go through.
use podplane.Base.{
  Bool, Result, some, ap, [], ℕ, ℤ, String, ◌∷◌, Option, none, ok, ◌≡◌, refl, true, false, is_empty,
}
use podplane.Base.Assoc.{lookup}
use podplane.Base.Exec.{◌>>=◌}
use podplane.FakeVault.Paths.{clean_cluster_path, secret_file_path}
use podplane.FakeVault.Paths.Cleaning.{clean_cluster_path-IsClean, clean_cluster_id_idem}
use podplane.FakeVault.Types.{Bytes, Values, FileStore, Codec, WriteSteps, World}
use podplane.FakeVault.Store.{
  bytes_at, cached_or, ensure_key, vault_key, read_file, write_file, write_file_atomic, relabel,
  install, deferred,
}
use podplane.FakeVault.Keys.{FillsKey, FillsNonce}
use podplane.FakeVault.Laws.{CodecLaws, ascending}
use podplane.FakeVault.RoundTrip.{get-set}
use podplane.FakeVault.Operations.{
  all_utf8, matches, write_sealed, seal_and_write, write_if_matched, set_clean, set_secret_at,
  get_secret,
}

-- Each step of a write goes well; the temporary file has this name.
abbrev pub no_fault : String → WriteSteps
no_fault name = record {
  mkdir = none;
  create_temp = none;
  temporary = name;
  partial = [];
  remove = none;
  chmod = none;
  write = none;
  sync = none;
  close = none;
  rename = none;
  open_directory = none;
  sync_directory = none;
}

-- No step of a write fails, and there is a nonce.
pub record IsCalm (w : World) : Type 0 where
  pub nonce : Bytes
  pub random : w.random_nonce ≡ ok nonce
  pub readable : w.read_file ≡ none
  pub temporary : String
  pub steps : w.write_file ≡ no_fault temporary

reports_success :
    (c : Codec) (w : World) (cluster raw id path : String) (values : Values) (version : Option ℤ)
    (b : ℕ) (key : Bytes) (s : FileStore)
    → IsCalm w
    → clean_cluster_path cluster raw ≡ ok (id, path)
    → is_empty values ≡ false
    → all_utf8 c values ≡ true
    → lookup (secret_file_path s.root id path) s.files ≡ none
    → matches version 0 ≡ true
    → bytes_at id s.keys ≡ b ∷ key
    → c.new_cipher (b ∷ key) ≡ ok tt
    → (set_secret_at c w cluster raw values version s).0 ≡ ok true
unfolding set_secret_at set_clean write_if_matched seal_and_write write_sealed vault_key ensure_key
    cached_or read_file write_file write_file_atomic install deferred relabel ◌>>=◌
reports_success c w cluster raw id path values version b key s calm clean given text missing matched
      cached cipher =
    let again =
      clean_cluster_id_idem cluster id (clean_cluster_path-IsClean cluster raw id path clean).0 in
    rw
      (
        clean, given, text, calm.readable, missing, matched, again, cached, calm.random, cipher,
        calm.steps,
      )
      refl

-- If the codec keeps what it is documented to keep, the random source fills the whole key and
-- the nonce, the cluster ID and the path can be cleaned, there are values, in the order of
-- their keys and valid UTF-8, no file is there yet, the version asked for, if any, is 0, the
-- cluster's key is in memory and AES takes it, a nonce can be drawn and no step of reading or
-- writing fails, then the write reports success and GetSecret returns the values that were
-- written.
pub get-set_secret_at :
    (c : Codec) (laws : CodecLaws c) (w w' : World) (cluster raw id path : String) (values : Values)
    (version : Option ℤ) (b : ℕ) (key : Bytes) (s : FileStore)
    → FillsKey w
    → FillsNonce w
    → IsCalm w
    → clean_cluster_path cluster raw ≡ ok (id, path)
    → is_empty values ≡ false
    → ascending values ≡ true
    → all_utf8 c values ≡ true
    → lookup (secret_file_path s.root id path) s.files ≡ none
    → matches version 0 ≡ true
    → bytes_at id s.keys ≡ b ∷ key
    → c.new_cipher (b ∷ key) ≡ ok tt
    → w'.read_file ≡ none
    → ((set_secret_at c w cluster raw values version s).0 ≡ ok true)
      × (get_secret c w' cluster raw (set_secret_at c w cluster raw values version s).1
          ≡ (ok (some values), (set_secret_at c w cluster raw values version s).1))
get-set_secret_at c laws w w' cluster raw id path values version b key s fills fills_nonce calm
      clean given sorted text missing matched cached cipher readable =
    let done =
      reports_success c w cluster raw id path values version b key s calm clean given text missing
        matched cached cipher in
    let after = (set_secret_at c w cluster raw values version s).1 in
    (
      done,
      get-set c laws w w' cluster raw values version s after fills fills_nonce sorted readable
          (ap (λ (r : Result Bool). (r, after)) done),
    )
