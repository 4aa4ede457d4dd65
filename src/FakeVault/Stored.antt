-- ===== src/FakeVault/Stored.antt =====
-- store.go: a secret that lies in the store, and how GetSecret and setArchived find it.
use text.Mathlib.TextPositions.{eq_refl}
use podplane.Base.{
  ℤ, String, Option, none, some, ok, ◌≡◌, refl, Bool, true, false, ◌∙◌, ap, if◌then◌else◌, subst,
  Checked, length,
}
use podplane.Base.Assoc.{Assoc, lookup, insert, lookup-insert}
use podplane.Base.Exec.{Exec, ◌>>=◌, pure}
use podplane.Base.Exec.Keeps.{lift-bind, run-bind}
use podplane.FakeVault.Paths.{clean_cluster_id, clean_cluster_path, secret_file_path}
use podplane.FakeVault.Paths.Cleaning.{
  clean_cluster_path-IsClean, clean_cluster_id-IsName, clean_cluster_id_of_IsName,
}
use podplane.FakeVault.Types.{Bytes, Values, SecretFile, FileStore, Codec, World}
use podplane.FakeVault.Store.{algorithm, vault_key}
use podplane.FakeVault.Operations.{
  all_utf8, version_after, sealed_file, decrypt, reveal, get_secret, set_archived, rewrite_archived,
}
use podplane.FakeVault.Files.{write_file-ok}
use podplane.FakeVault.Keys.{Holds, FillsNonce, vault_key_again}
use podplane.FakeVault.Encodable.{sealed_file-IsEncodable}
use podplane.FakeVault.Laws.{CodecLaws, IsEncodable, ascending, read_file-found}
use podplane.FakeVault.Secrets.{Written}

-- The store has these values under this path, with the key in memory.
pub record Stored (c : Codec) (id path : String) (values : Values) (archived : Bool) (s : FileStore)
    : Type 0 where
  pub file : SecretFile
  pub key : Bytes
  pub nonce : Bytes
  pub sized : length nonce ≡ 12
  pub encodable : IsEncodable c file
  pub id_clean : clean_cluster_id id ≡ ok id
  pub on_disk : lookup (secret_file_path s.root id path) s.files ≡ some (c.marshal_file file)
  pub held : Holds s id key
  pub cipher : c.new_cipher key ≡ ok tt
  pub same_algorithm : file.algorithm ≡ algorithm
  pub same_nonce : file.nonce ≡ c.encode64 nonce
  pub same_text : file.ciphertext ≡ c.encode64 (c.seal key nonce (c.marshal_values values) path)
  pub flag : file.archived ≡ archived

lookup-insert_self : (k : String) (v : Bytes) (m : Assoc Bytes) → lookup k (insert k v m) ≡ some v
lookup-insert_self k v m = simp (lookup-insert, eq_refl)

module _ (c : Codec) (laws : CodecLaws c) (w : World) where
  clean_id :
      (cluster raw id path : String)
      → clean_cluster_path cluster raw ≡ ok (id, path)
      → clean_cluster_id id ≡ ok id
  clean_id cluster raw id path clean =
      clean_cluster_id_of_IsName id (
        clean_cluster_id-IsName cluster id (clean_cluster_path-IsClean cluster raw id path clean).0)

  pub Written-on_disk :
      (cluster raw : String) (values : Values) (version : Option ℤ) (s s' : FileStore)
      (x : Written c w cluster raw values version s s')
      → lookup (secret_file_path s'.root x.id x.path) s'.files
        ≡ some (
            c.marshal_file
              (sealed_file c w x.saved.key x.saved.nonce x.path values (version_after x.current)))
  Written-on_disk cluster raw values version s s' x =
      rw (x.saved.root, x.saved.files) (lookup-insert_self _ _ s.files)

  pub Written-IsEncodable :
      (cluster raw : String) (values : Values) (version : Option ℤ) (s s' : FileStore)
      (x : Written c w cluster raw values version s s')
      → IsEncodable c
          (sealed_file c w x.saved.key x.saved.nonce x.path values (version_after x.current))
  Written-IsEncodable cluster raw values version s s' x =
      sealed_file-IsEncodable c laws w x.id x.path s x.current x.saved.key x.saved.nonce values
        x.found x.text

  pub Written-Stored :
      (cluster raw : String) (values : Values) (version : Option ℤ) (s s' : FileStore)
      (fills : FillsNonce w) (x : Written c w cluster raw values version s s')
      → Stored c x.id x.path values false s'
  Written-Stored cluster raw values version s s' fills x =
      let y = x.saved in
      record {
        file = sealed_file c w y.key y.nonce x.path values (version_after x.current);
        key = y.key;
        nonce = y.nonce;
        sized = fills y.nonce y.drawn;
        encodable = Written-IsEncodable cluster raw values version s s' x;
        id_clean = clean_id cluster raw x.id x.path x.clean;
        on_disk = rw (y.root, y.files) (lookup-insert_self _ _ s.files);
        held = y.held;
        cipher = y.cipher;
        same_algorithm = refl;
        same_nonce = refl;
        same_text = refl;
        flag = refl;
      }

  decrypt-run :
      (id path : String) (file : SecretFile) (key nonce ciphertext plaintext : Bytes)
      (values : Values) (s : FileStore)
      → file.algorithm ≡ algorithm
      → vault_key c w id s ≡ (ok key, s)
      → c.decode64 file.nonce ≡ ok nonce
      → c.decode64 file.ciphertext ≡ ok ciphertext
      → c.new_cipher key ≡ ok tt
      → c.open_sealed key nonce ciphertext path ≡ ok plaintext
      → c.unmarshal_values plaintext ≡ ok values
      → decrypt c w id path file s ≡ (ok values, s)
  unfolding decrypt ◌>>=◌
  decrypt-run id path file key nonce ciphertext plaintext values s alg again e₁ e₂ e₃ e₄ e₅ =
      rw (alg, again, e₁, e₂, e₃, e₄, e₅)

  decrypt-Stored :
      (id path : String) (values : Values) (archived : Bool) (s : FileStore)
      (x : Stored c id path values archived s)
      → ascending values ≡ true
      → all_utf8 c values ≡ true
      → decrypt c w id path x.file s ≡ (ok values, s)
  decrypt-Stored id path values archived s x sorted text =
      decrypt-run id path x.file x.key x.nonce (c.seal x.key x.nonce (c.marshal_values values) path)
        (c.marshal_values values) values s x.same_algorithm
        (vault_key_again c w id id s x.key x.id_clean x.held)
        (ap c.decode64 x.same_nonce ∙ laws.base64_round_trip x.nonce)
        (ap c.decode64 x.same_text ∙ laws.base64_round_trip _) x.cipher
        (laws.open-seal x.key x.nonce (c.marshal_values values) path x.sized x.cipher)
        (laws.values_round_trip values sorted text)

  reveal-run :
      (id path : String) (file : SecretFile) (archived : Bool) (values : Values) (s : FileStore)
      → file.archived ≡ archived
      → decrypt c w id path file s ≡ (ok values, s)
      → reveal c w id path (some file) s ≡ (ok (if archived then none else some values), s)
  unfolding reveal pure
  reveal-run id path file archived values s flag opened =
      let opening : Exec FileStore (Option Values) =
        decrypt c w id path file >>= λ found. pure (some found) in
      ap (λ (b : Bool). (if b then pure none else opening) s) flag
      ∙ either archived (run-bind _ _ s s values opened)
    where
      either :
          (b : Bool)
          → (decrypt c w id path file >>= λ found. pure (some found)) s ≡ (ok (some values), s)
          → (if b then pure none else (decrypt c w id path file >>= λ found. pure (some found))) s
            ≡ (ok (if b then none else some values), s)
      either true run = refl
      either false run = run

  -- A secret in the store is read as its values, or as absent while it is archived.
  pub get_secret-Stored :
      (cluster raw id path : String) (values : Values) (archived : Bool) (s : FileStore)
      → clean_cluster_path cluster raw ≡ ok (id, path)
      → Stored c id path values archived s
      → w.read_file ≡ none
      → ascending values ≡ true
      → all_utf8 c values ≡ true
      → get_secret c w cluster raw s ≡ (ok (if archived then none else some values), s)
  unfolding get_secret
  get_secret-Stored cluster raw id path values archived s clean x readable sorted text =
      let found =
        read_file-found c w id path s _ x.file readable x.on_disk
          (laws.file_round_trip x.file x.encodable) in
      rw (lift-bind _ _ _ s clean) (
        rw (run-bind _ _ s s _ found) (
          reveal-run id path x.file archived values s x.flag
            (decrypt-Stored id path values archived s x sorted text)))

  rewrite_archived-Stored :
      (id path : String) (values : Values) (was archived : Bool) (s : FileStore)
      (x : Stored c id path values was s)
      → (rewrite_archived c w id path archived (some x.file) s).0 ≡ ok tt
      → Stored c id path values archived (rewrite_archived c w id path archived (some x.file) s).1
  unfolding rewrite_archived
  rewrite_archived-Stored id path values was archived s x h =
      let file = record (x.file) { archived = archived; updated_at = w.now } in
      rw (write_file-ok c w id path file s h) (record {
        file = file;
        key = x.key;
        nonce = x.nonce;
        sized = x.sized;
        encodable = record {
          version = x.encodable.version;
          nonce = x.encodable.nonce;
          ciphertext = x.encodable.ciphertext;
          keys = x.encodable.keys;
        };
        id_clean = x.id_clean;
        on_disk = lookup-insert_self _ _ s.files;
        held = record { cached = x.held.cached; nonempty = x.held.nonempty };
        cipher = x.cipher;
        same_algorithm = x.same_algorithm;
        same_nonce = x.same_nonce;
        same_text = x.same_text;
        flag = refl;
      })

  -- Archiving and restoring changes the flag of a stored secret, and nothing else of it.
  pub set_archived-Stored :
      (cluster raw id path : String) (values : Values) (was archived : Bool) (s : FileStore)
      → clean_cluster_path cluster raw ≡ ok (id, path)
      → Stored c id path values was s
      → w.read_file ≡ none
      → (set_archived c w cluster raw archived s).0 ≡ ok tt
      → Stored c id path values archived (set_archived c w cluster raw archived s).1
  unfolding set_archived
  set_archived-Stored cluster raw id path values was archived s clean x readable h =
      let found =
        read_file-found c w id path s _ x.file readable x.on_disk
          (laws.file_round_trip x.file x.encodable) in
      let run : set_archived c w cluster raw archived s
          ≡ rewrite_archived c w id path archived (some x.file) s =
        lift-bind _ _ _ s clean ∙ run-bind _ _ s s _ found in
      rw run (rewrite_archived-Stored id path values was archived s x (rw run at h))

  pub set_archived-run :
      (cluster raw id path : String) (values : Values) (was archived : Bool) (s s' : FileStore)
      → clean_cluster_path cluster raw ≡ ok (id, path)
      → Stored c id path values was s
      → w.read_file ≡ none
      → set_archived c w cluster raw archived s ≡ (ok tt, s')
      → Stored c id path values archived s'
  set_archived-run cluster raw id path values was archived s s' clean x readable run =
      subst (Stored c id path values archived) (ap (λ (r : Checked × FileStore). r.1) run) (
        set_archived-Stored cluster raw id path values was archived s clean x readable
          (ap (λ (r : Checked × FileStore). r.0) run))
