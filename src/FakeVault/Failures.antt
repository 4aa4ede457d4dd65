-- ===== src/FakeVault/Failures.antt =====
-- store.go: writes that report no success, deletions and creations.
use text.Mathlib.TextPositions.{eq_refl}
use podplane.Base.{
  subst, Option-cases, pos, ℤ, String, Option, none, some, ok, err, ◌≡◌, ◌≢◌, refl, arith, Bool,
  true, false, Result, ◌∙◌, ap, sym, Result-cases, inl, inr, if◌then◌else◌,
}
use podplane.Base.Assoc.{lookup, lookup-without}
use podplane.Base.Exec.{Exec, ◌>>=◌, pure, lift, continue}
use podplane.Base.Exec.Keeps.{Keeps, lift-ok, Keeps-lift, Keeps-fail_if}
use podplane.FakeVault.Paths.{clean_cluster_path, secret_file_path}
use podplane.FakeVault.Types.{Bytes, Values, SecretFile, FileStore, Codec, World}
use podplane.FakeVault.Store.{read_file, write_file}
use podplane.FakeVault.Operations.{
  matches, current_version, write_sealed, seal_and_write, write_if_matched, set_clean,
  set_secret_at, delete_secret, remove_secret, create_secret, get_secret, reveal,
}
use podplane.FakeVault.Files.{Disk, disk, SyncsDirectory, vault_key-Keeps-disk, read_file-Keeps}
use podplane.FakeVault.Unwritten.{Unwritten, write_file-err}
use podplane.FakeVault.Keys.{FillsKey}
use podplane.FakeVault.Secrets.{set_secret_at-run}
use podplane.FakeVault.Laws.{read_file-missing}

-- The name that os.CreateTemp will pick is no temporary file's.
abbrev IsFresh : World → Disk → Type 0
IsFresh w d = lookup w.write_file.temporary d.temporaries ≡ none

-- A call that does not report success leaves the disk as it was, but for a temporary file.
record Undone (w : World) (m : Exec FileStore Bool) : Type 0 where
  at :
      (s : FileStore) → IsFresh w (disk s) → (m s).0 ≢ ok true → Unwritten w (disk s) (disk (m s).1)

Unwritten-same : (w : World) (d : Disk) → Unwritten w d d
Unwritten-same w d = record { root = refl; files = refl; left = λ name. inl refl }

module _ (w : World) where
  Undone-continue :
      {A : Type 0} (r : Result A) (f : A → Exec FileStore Bool) (t s : FileStore)
      → disk t ≡ disk s
      → IsFresh w (disk s)
      → ((a : A) → Undone w (f a))
      → (continue r f t).0 ≢ ok true
      → Unwritten w (disk s) (disk (continue r f t).1)
  Undone-continue (ok a) f t s same fresh k h =
      subst (λ d. Unwritten w d (disk (f a t).1)) same
        ((k a).at t (subst (IsFresh w) (sym same) fresh) h)
  Undone-continue (err e) f t s same fresh k h =
      subst (λ d. Unwritten w d (disk t)) same (Unwritten-same w (disk t))

  Undone-bind :
      {A : Type 0} (m : Exec FileStore A) (f : A → Exec FileStore Bool)
      → Keeps disk m
      → ((a : A) → Undone w (f a))
      → Undone w (m >>= f)
  unfolding ◌>>=◌
  Undone-bind m f keeps k = record {
    at = λ s fresh h. Undone-continue (m s).0 f (m s).1 s (keeps.at s) fresh k h;
  }

  Undone-pure-false : Undone w (pure false)
  unfolding pure
  Undone-pure-false = record { at = λ s fresh h. Unwritten-same w (disk s) }

  Undone-if :
      (b : Bool) (m n : Exec FileStore Bool)
      → Undone w m
      → Undone w n
      → Undone w (if b then m else n)
  Undone-if true m n u v = u
  Undone-if false m n u v = v

module _ (c : Codec) (w : World) (syncs : SyncsDirectory c w) where
  then_true-Undone :
      (id path : String) (file : SecretFile)
      → Undone w (write_file c w id path file >>= λ _. pure true)
  unfolding ◌>>=◌
  then_true-Undone id path file = record {
    at = λ s fresh h. elim (Result-cases (write_file c w id path file s).0) [
      | inl (a, fine) ↦ absurd (
          h (
            ap
              (λ (r : Result (Unit {0})).
                (continue r (λ _. pure true) (write_file c w id path file s).1).0)
              fine))
      | inr (e, failed) ↦
          subst
            (λ (r : Result (Unit {0})).
              Unwritten w (disk s)
                (disk (continue r (λ _. pure true) (write_file c w id path file s).1).1))
            (sym failed) (write_file-err c w id path file s e syncs fresh failed)
    ];
  }

  write_sealed-Undone :
      (id path : String) (values : Values) (current : Option SecretFile) (key : Bytes)
      → Undone w (write_sealed c w id path values current key)
  unfolding write_sealed
  write_sealed-Undone id path values current key =
      Undone-bind w _ _ (Keeps-lift _)
        (λ nonce. Undone-bind w _ _ (Keeps-lift _) (λ _. then_true-Undone id path _))

  write_if_matched-Undone :
      (id path : String) (values : Values) (version : Option ℤ) (current : Option SecretFile)
      → Undone w (write_if_matched c w id path values version current)
  unfolding write_if_matched seal_and_write
  write_if_matched-Undone id path values version current =
      Undone-if w _ _ _
        (Undone-bind w _ _ (vault_key-Keeps-disk c w id)
          (write_sealed-Undone id path values current))
        (Undone-pure-false w)

  set_clean-Undone :
      (id path : String) (values : Values) (version : Option ℤ)
      → Undone w (set_clean c w id path values version)
  unfolding set_clean
  set_clean-Undone id path values version = Undone-bind w _ _ (Keeps-fail_if _ _) (λ _.
      Undone-bind w _ _ (Keeps-fail_if _ _) (λ _.
        Undone-bind w _ _ (read_file-Keeps c w id path)
          (write_if_matched-Undone id path values version)))

-- A write that does not report success, for an error on its way or a version that does not
-- match, leaves the root, every file of the store and the temporary files as they were, but
-- for the one temporary file of this write where its removal failed, provided that the
-- directory can be opened and synced and that the name picked for the temporary file is no
-- temporary file's.
pub set_secret_at-Unwritten :
    (c : Codec) (w : World) (cluster raw : String) (values : Values) (version : Option ℤ)
    (s : FileStore)
    → SyncsDirectory c w
    → lookup w.write_file.temporary s.temporaries ≡ none
    → (set_secret_at c w cluster raw values version s).0 ≢ ok true
    → Unwritten w (disk s) (disk (set_secret_at c w cluster raw values version s).1)
unfolding set_secret_at
set_secret_at-Unwritten c w cluster raw values version s syncs fresh h =
    (Undone-bind w (lift (clean_cluster_path cluster raw)) _ (Keeps-lift _)
        (λ (p : String × String). set_clean-Undone c w syncs p.0 p.1 values version)).at
      s fresh h

module _ (c : Codec) where
  get_secret-missing :
      (w : World) (cluster raw id path : String) (s : FileStore)
      → clean_cluster_path cluster raw ≡ ok (id, path)
      → w.read_file ≡ none
      → lookup (secret_file_path s.root id path) s.files ≡ none
      → get_secret c w cluster raw s ≡ (ok none, s)
  unfolding get_secret reveal ◌>>=◌
  get_secret-missing w cluster raw id path s clean readable missing =
      rw (clean, read_file-missing c w id path s readable missing) refl

  nothing_found :
      (w : World) (id path : String) (s : FileStore) (current : Option SecretFile)
      → (read_file c w id path s).0 ≡ ok current
      → matches (some (pos 0)) (current_version current) ≡ true
      → lookup (secret_file_path s.root id path) s.files ≡ none
  unfolding read_file ◌>>=◌
  nothing_found w id path s none h m = ground arith
  nothing_found w id path s (some file) h m = absurd (ground arith)

  remove_secret-missing :
      (w : World) (id path : String) (s : FileStore)
      → (remove_secret c w id path s).0 ≡ ok tt
      → lookup
          (secret_file_path (remove_secret c w id path s).1.root id path)
          (remove_secret c w id path s).1.files
        ≡ none
  unfolding remove_secret ◌>>=◌
  remove_secret-missing w id path s h = elim (Option-cases w.remove_file) [
    | inl fine ↦
        let name = secret_file_path s.root id path in
        rw (fine, lookup-without name name s.files, eq_refl name) refl
    | inr (e, failed) ↦ absurd (ground arith)
  ]

  -- After a deletion that reports success, GetSecret finds nothing at the path, if it can
  -- read, and leaves the store as it is.
  pub get-delete :
      (w w' : World) (cluster raw : String) (s s' : FileStore)
      → delete_secret c w cluster raw s ≡ (ok tt, s')
      → w'.read_file ≡ none
      → get_secret c w' cluster raw s' ≡ (ok none, s')
  unfolding delete_secret
  get-delete w w' cluster raw s s' done readable =
      let first = ap (λ (r : Result (Unit {0}) × FileStore). r.0) done in
      let ((id, path), clean, h, run) =
        lift-ok (clean_cluster_path cluster raw) (λ p. remove_secret c w p.0 p.1) s first in
      let left : (remove_secret c w id path s).1 ≡ s' =
        ap (λ (r : Result (Unit {0}) × FileStore). r.1) (sym run ∙ done) in
      get_secret-missing w' cluster raw id path s' clean readable (
        subst (λ (t : FileStore). lookup (secret_file_path t.root id path) t.files ≡ none) left
          (remove_secret-missing w id path s h))

  -- If the random source fills the whole key and CreateSecret reports success, then the store
  -- had no file for the path: an existing secret is never replaced, not even an archived one.
  pub create_secret-missing :
      (w : World) (cluster raw : String) (values : Values) (s s' : FileStore)
      → FillsKey w
      → create_secret c w cluster raw values s ≡ (ok true, s')
      → (id : String) × (path : String) × (clean_cluster_path cluster raw ≡ ok (id, path))
        × (lookup (secret_file_path s.root id path) s.files ≡ none)
  unfolding create_secret
  create_secret-missing w cluster raw values s s' fills done =
      let x = set_secret_at-run c w cluster raw values (some (pos 0)) s s' fills done in
      (x.id, x.path, x.clean, nothing_found w x.id x.path s x.current x.found x.matched)
